-- ===== src/Schema/Analysis.antt =====
-- Rows of `damage_detections`, `pci_scores`, `analysis_results` and `ai_models` (backend/app/db/models/ai_model.py, backend/app/db/models/inspection.py), column by column.
-- Keys and times are numbers, NUMERIC columns hold values of W (costs of D), JSONB columns JSON.
-- A PCI score, NUMERIC(5,2), is in hundredths.
use road_vision_ai.Base.{Bool, Option, String, ℕ}
use road_vision_ai.Text.{Text}
use road_vision_ai.Enums.{ModelFramework, ModelStatus, PriorityLevel, SeverityLevel}

pub record DamageDetection (W : Type 0) : Type 0 where
  pub id : ℕ
  pub road_image_id : ℕ
  pub damage_type_id : ℕ
  pub bbox_x : W
  pub bbox_y : W
  pub bbox_width : W
  pub bbox_height : W
  pub confidence_score : W
  pub severity_score : W
  pub detected_at : ℕ
  pub created_at : ℕ
  pub area_m2 : Option W
  pub model_id : Option ℕ

pub record PciScore (W : Type 0) : Type 0 where
  pub id : ℕ
  pub inspection_id : ℕ
  pub score : ℕ
  pub severity_level : SeverityLevel
  pub priority_level : PriorityLevel
  pub computed_at : ℕ
  pub priority_score : Option W

pub record AnalysisResult (W : Type 0) : Type 0 where
  pub id : ℕ
  pub inspection_id : ℕ
  pub total_detections : ℕ
  pub created_at : ℕ
  pub dominant_damage_type : Option String
  pub overall_severity : Option SeverityLevel
  pub recommendation_confidence : Option W
  pub processing_time_ms : Option ℕ

pub record AiModel (W : Type 0) : Type 0 where
  pub id : ℕ
  pub name : String
  pub version : String
  pub framework : ModelFramework
  pub status : ModelStatus
  pub is_active : Bool
  pub trained_at : ℕ
  pub created_at : ℕ
  pub updated_at : ℕ
  pub description : Option String
  pub dataset_name : Option String
  pub dataset_version : Option String
  pub dataset_size : Option ℕ
  pub num_classes : Option ℕ
  pub epochs : Option ℕ
  pub batch_size : Option ℕ
  pub image_size : Option ℕ
  pub learning_rate : Option W
  pub map50 : Option W
  pub map50_95 : Option W
  pub precision_score : Option W
  pub recall_score : Option W
  pub f1_score : Option W
  pub inference_ms : Option W
  pub weights_path : Option Text
  pub model_size_mb : Option W
  pub deployed_at : Option ℕ
  pub deprecated_at : Option ℕ
  pub trained_by : Option ℕ
  pub notes : Option String
