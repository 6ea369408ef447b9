-- ===== src/Tests.antt =====
-- Concrete inputs for the examples: floats in fixed point, a Python library that knows the texts
-- used here, rows and worlds.
pub mod Engines
pub mod Documents
pub mod Requests
pub mod Accounts
pub mod Recommended
pub mod Corpora
pub mod Lifecycles
pub mod Published
pub mod Outputs
pub mod Artifacts
pub mod Histories
use road_vision_ai.Base.{
  ℕ, zero, ◌*◌, Bool, true, false, not, String, List, [], ◌∷◌, Option, none, some, Result, ok, err,
  value_error, str_eq, if◌then◌else◌,
}
use road_vision_ai.Text.{Text, codes}
use road_vision_ai.Float.Fixed.{Fixed, fixed}
use road_vision_ai.Json.{Json, ℤ, Fields, Python}
use road_vision_ai.Enums.{
  InspectionStatus, UserRole, SeverityLevel, PriorityLevel, ModelStatus, ModelFramework,
}
use road_vision_ai.Schema.{Inspection, RoadImage, User, AiModel}
use road_vision_ai.Pci.{DetectionInput}
use road_vision_ai.Rules.{AnalysisContext, Rule}
use road_vision_ai.Store.{Db, World}

abbrev below_40 : Json Fixed
below_40 = Json.obj (Fields.field "pci_max" (Json.int (ℤ.pos 40)) Fields.end)

abbrev reconstruct : Json Fixed
reconstruct = Json.obj (Fields.field "strategy" (Json.str "RECONSTRUCTION") Fields.end)

abbrev pub library : Python Fixed Fixed
library = record {
  loads = λ s.
      if str_eq s "{\"pci_max\": 40}"
      then some below_40
      else if str_eq s "{\"strategy\": \"RECONSTRUCTION\"}"
      then some reconstruct
      else if str_eq s "{}"
      then some (Json.obj Fields.end)
      else none;
  float_of_int = λ z. elim z [ ℤ.pos n ↦ n * 1000000 | ℤ.negsuc n ↦ 0 ];
  float_of_text = λ s. err value_error;
  int_of_float = λ x. ok (ℤ.pos 0);
  int_of_text = λ s. err value_error;
  decimal = λ v. ok 0;
  format_2f = λ x. codes "35.00";
  format = λ t fields. ok t;
}

abbrev pub poor : AnalysisContext Fixed
poor = record {
  pci = 35000000;
  severity_level = SeverityLevel.critique;
  priority_level = PriorityLevel.p0_critique;
  dominant_damage_type = some "POTHOLE";
  total_detections = 7;
}

abbrev pub rebuild : Rule
rebuild = record {
  code = "R-01";
  name = "Reconstruction";
  condition = "{\"pci_max\": 40}";
  action = "{\"strategy\": \"RECONSTRUCTION\"}";
  priority = 10;
  is_active = true;
}

-- A rule whose condition is no JSON.
abbrev pub broken : Rule
broken = record {
  code = "R-02";
  name = "Essai";
  condition = "pci < 40";
  action = "{}";
  priority = 5;
  is_active = true;
}

abbrev pub pothole : String → DetectionInput Fixed
pothole image = record {
  damage_code = "POTHOLE";
  pci_weight = 900000;
  severity = 500000;
  rel_area = 200000;
  image_id = image;
}

abbrev pub crack : DetectionInput Fixed
crack = record {
  damage_code = "ALLIGATOR_CRACK";
  pci_weight = 800000;
  severity = 400000;
  rel_area = 100000;
  image_id = "a";
}

abbrev pub engineer : User
engineer = record {
  id = 1;
  username = "samira";
  email = "samira@example.org";
  password_hash = "hash";
  role = UserRole.road_engineer;
  is_active = true;
  specialization = none;
  region = none;
  vehicle_id = none;
  equipment_id = none;
  can_manage_users = none;
  can_manage_models = none;
  can_configure_ai = none;
  last_login = none;
  created_at = 0;
  updated_at = 0;
  deleted_at = none;
  version = 1;
}

abbrev pub waiting : Inspection
waiting = record {
  id = 5;
  road_section_id = 2;
  created_by = 1;
  status = InspectionStatus.en_attente;
  inspection_date = 100;
  created_at = 100;
  updated_at = 100;
  version = 1;
  validated_by = none;
  weather_cond = none;
  notes = none;
  deleted_at = none;
}

abbrev pub photo : RoadImage Fixed
photo = record {
  id = 8;
  inspection_id = 5;
  filename = "a.jpg";
  storage_path = codes "road-images/5/a.jpg";
  mime_type = codes "image/jpeg";
  sequence_num = 1;
  captured_at = 100;
  created_at = 100;
  file_size = some 3;
  width = none;
  height = none;
  gps_lat = none;
  gps_lng = none;
}

-- A model under its key, active or not.
abbrev pub model : ℕ → Bool → AiModel Fixed
model id is_active = record {
  id = id;
  name = "yolo";
  version = "1";
  framework = ModelFramework.yolov11;
  status = ModelStatus.staging;
  is_active = is_active;
  trained_at = 1;
  created_at = 1;
  updated_at = 1;
  description = none;
  dataset_name = none;
  dataset_version = none;
  dataset_size = none;
  num_classes = none;
  epochs = none;
  batch_size = none;
  image_size = none;
  learning_rate = none;
  map50 = none;
  map50_95 = none;
  precision_score = none;
  recall_score = none;
  f1_score = none;
  inference_ms = none;
  weights_path = none;
  model_size_mb = none;
  deployed_at = none;
  deprecated_at = none;
  trained_by = none;
  notes = none;
}

abbrev pub db : Db Fixed Fixed
db = record {
  damage_types = [];
  road_sections = [];
  road_images = photo ∷ [];
  inspections = waiting ∷ [];
  damage_detections = [];
  pci_scores = [];
  analysis_results = [];
  ai_models = model 1 true ∷ model 2 false ∷ [];
  rules = [];
  xai_explanations = [];
  maintenance_recommendations = [];
  maintenance_plans = [];
  inspection_reports = [];
  users = engineer ∷ [];
  audit_logs = [];
  knowledge_documents = [];
  dashboard_snapshots = [];
  damage_type_stats = [];
  pci_trends = [];
}

abbrev pub world : World Fixed Fixed
world = record {
  committed = db;
  working = db;
  objects = [];
  vectors = [];
  detectors = [];
  next_id = 100;
  now = 200;
  uuid_text = λ n. n ∷ [];
  is_inet = λ s. not (str_eq s "unknown");
}
