-- ===== src/Schema/Road.antt =====
-- Rows of `damage_types`, `road_sections`, `road_images` and `inspections` (backend/app/db/models/inspection.py, backend/app/db/models/road.py), column by column.
-- Keys and times are numbers, NUMERIC columns hold values of W (costs of D), JSONB columns JSON.
use road_vision_ai.Base.{Option, String, ℕ}
use road_vision_ai.Text.{Text}
use road_vision_ai.Enums.{DamageCategory, InspectionStatus, RoadType}

pub record DamageType (W : Type 0) : Type 0 where
  pub id : ℕ
  pub code : String
  pub name : String
  pub pci_weight : W
  pub category : DamageCategory
  pub created_at : ℕ
  pub description : Option String

pub record RoadSection (W : Type 0) : Type 0 where
  pub id : ℕ
  pub section_code : String
  pub road_name : String
  pub road_type : RoadType
  pub created_at : ℕ
  pub updated_at : ℕ
  pub version : ℕ
  pub kilometric : Option W
  pub province : Option String
  pub region : Option String
  pub length_km : Option W
  pub gis_location_id : Option ℕ
  pub deleted_at : Option ℕ

pub record RoadImage (W : Type 0) : Type 0 where
  pub id : ℕ
  pub inspection_id : ℕ
  pub filename : String
  pub storage_path : Text
  pub mime_type : Text
  pub sequence_num : ℕ
  pub captured_at : ℕ
  pub created_at : ℕ
  pub file_size : Option ℕ
  pub width : Option ℕ
  pub height : Option ℕ
  pub gps_lat : Option W
  pub gps_lng : Option W

pub record Inspection : Type 0 where
  pub id : ℕ
  pub road_section_id : ℕ
  pub created_by : ℕ
  pub status : InspectionStatus
  pub inspection_date : ℕ
  pub created_at : ℕ
  pub updated_at : ℕ
  pub version : ℕ
  pub validated_by : Option ℕ
  pub weather_cond : Option String
  pub notes : Option String
  pub deleted_at : Option ℕ
