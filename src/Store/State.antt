-- ===== src/Store/State.antt =====
-- The tables, the object store, and the world that a request runs in.
use road_vision_ai.Base.{ℕ, Bool, List, String}
use road_vision_ai.Text.{Text}
use road_vision_ai.Rules.{Rule}
use road_vision_ai.Enums.{DocType}
use road_vision_ai.Schema.{
  DamageType, RoadSection, RoadImage, Inspection, DamageDetection, PciScore, AnalysisResult,
  AiModel, XaiExplanation, MaintenanceRecommendation, MaintenancePlan, InspectionReport, User,
  AuditLog, KnowledgeDocument, DashboardSnapshot, DamageTypeStat, PciTrend,
}

pub record Db (W D : Type 0) : Type 0 where
  pub damage_types : List (DamageType W)
  pub road_sections : List (RoadSection W)
  pub road_images : List (RoadImage W)
  pub inspections : List Inspection
  pub damage_detections : List (DamageDetection W)
  pub pci_scores : List (PciScore W)
  pub analysis_results : List (AnalysisResult W)
  pub ai_models : List (AiModel W)
  pub rules : List Rule
  pub xai_explanations : List (XaiExplanation W)
  pub maintenance_recommendations : List (MaintenanceRecommendation W D)
  pub maintenance_plans : List (MaintenancePlan W)
  pub inspection_reports : List (InspectionReport W)
  pub users : List User
  pub audit_logs : List (AuditLog W)
  pub knowledge_documents : List KnowledgeDocument
  pub dashboard_snapshots : List (DashboardSnapshot W)
  pub damage_type_stats : List (DamageTypeStat W)
  pub pci_trends : List (PciTrend W)

-- An object of the MinIO store.
pub record Object : Type 0 where
  pub bucket : Text
  pub object_name : Text
  pub content : Text

-- A loaded detector (`Detector` of backend/app/ai/detection/detector.py): its model's key, its weights
-- and its class mapping.
pub record Detector : Type 0 where
  pub model_id : ℕ
  pub weights : Text
  pub class_mapping : List (String × String)

-- An entry of the collection `normative_corpus` of ChromaDB: a chunk of a document with its vector,
-- and its metadata.
pub record VectorEntry (W : Type 0) : Type 0 where
  pub entry_id : Text
  pub embedding : List W
  pub text : Text
  pub document_id : Text
  pub title : String
  pub doc_type : DocType
  pub page_start : ℕ
  pub page_end : ℕ

-- `vectors` is that collection. `detectors` is the process's cache of detectors (backend/app/workers/analysis_worker.py).
-- `next_id` is where gen_random_uuid() and uuid4() take their keys from, so a key is new; `now` is
-- the clock, which stands still within a request; `uuid_text` is `str` of a key; `is_inet` says which
-- texts PostgreSQL reads as an INET.
pub record World (W D : Type 0) : Type 0 where
  pub committed : Db W D
  pub working : Db W D
  pub objects : List Object
  pub vectors : List (VectorEntry W)
  pub detectors : List Detector
  pub next_id : ℕ
  pub now : ℕ
  pub uuid_text : ℕ → Text
  pub is_inet : String → Bool
