-- ===== src/Schema/Dashboard.antt =====
-- Rows of `dashboard_snapshots`, `damage_type_stats` and `pci_trends` (backend/app/db/models/dashboard.py), column by column.
-- Keys and times are numbers, NUMERIC columns hold values of W (costs of D), JSONB columns JSON.
use road_vision_ai.Base.{Option, String, ℕ}
use road_vision_ai.Enums.{TrendDirection}

pub record DashboardSnapshot (W : Type 0) : Type 0 where
  pub id : ℕ
  pub snapshot_date : ℕ
  pub total_inspections : ℕ
  pub total_detections : ℕ
  pub critical_sections : ℕ
  pub created_at : ℕ
  pub avg_pci_score : Option W
  pub total_budget : Option W
  pub coverage_rate : Option W
  pub region : Option String
  pub province : Option String

pub record DamageTypeStat (W : Type 0) : Type 0 where
  pub id : ℕ
  pub snapshot_id : ℕ
  pub damage_type : String
  pub count : ℕ
  pub percentage : Option W
  pub avg_severity : Option W
  pub period : Option String

pub record PciTrend (W : Type 0) : Type 0 where
  pub id : ℕ
  pub road_section_id : ℕ
  pub snapshot_id : ℕ
  pub pci_value : W
  pub recorded_date : ℕ
  pub created_at : ℕ
  pub trend : Option TrendDirection
