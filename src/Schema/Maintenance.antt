-- ===== src/Schema/Maintenance.antt =====
-- Rows of `xai_explanations`, `maintenance_recommendations`, `maintenance_plans` and `inspection_reports` (backend/app/db/models/inspection.py, backend/app/db/models/maintenance.py), column by column.
-- Keys and times are numbers, NUMERIC columns hold values of W (costs of D), JSONB columns JSON.
-- `estimated_days` holds what the rule gave; the type check of the column is not modelled.
use road_vision_ai.Base.{Option, String, ℕ}
use road_vision_ai.Text.{Text}
use road_vision_ai.Json.{Json}
use road_vision_ai.Enums.{MaintenanceStrategy, PlanStatus, PriorityLevel, RecStatus}

pub record XaiExplanation (W : Type 0) : Type 0 where
  pub id : ℕ
  pub generated_at : ℕ
  pub rules_applied : Option (Json W)
  pub normative_refs : Option (Json W)
  pub priority_breakdown : Option (Json W)
  pub confidence_score : Option W
  pub severity_justification : Option Text
  pub strategy_justification : Option Text
  pub agents_involved : Option (Json W)

pub record MaintenanceRecommendation (W : Type 0) (D : Type 0) : Type 0 where
  pub id : ℕ
  pub analysis_result_id : ℕ
  pub strategy : MaintenanceStrategy
  pub status : RecStatus
  pub created_at : ℕ
  pub updated_at : ℕ
  pub version : ℕ
  pub estimated_cost_min : Option D
  pub estimated_cost_max : Option D
  pub estimated_days : Json W
  pub deadline : Option ℕ
  pub justification : Option Text
  pub normative_refs : Option (Json W)
  pub confidence : Option W
  pub validated_by : Option ℕ
  pub validated_at : Option ℕ
  pub rejection_reason : Option String
  pub rejected_by : Option ℕ
  pub rejected_at : Option ℕ

pub record MaintenancePlan (W : Type 0) : Type 0 where
  pub id : ℕ
  pub recommendation_id : ℕ
  pub priority : PriorityLevel
  pub status : PlanStatus
  pub created_at : ℕ
  pub updated_at : ℕ
  pub version : ℕ
  pub total_budget : Option W
  pub start_date : Option ℕ
  pub end_date : Option ℕ
  pub validated_by : Option ℕ
  pub validated_at : Option ℕ
  pub engineer_notes : Option String

pub record InspectionReport (W : Type 0) : Type 0 where
  pub id : ℕ
  pub plan_id : ℕ
  pub title : String
  pub generated_at : ℕ
  pub created_at : ℕ
  pub xai_explanation_id : Option ℕ
  pub executive_summary : Option String
  pub damage_assessment : Option String
  pub pci_analysis : Option String
  pub priority_ranking : Option String
  pub recommendations : Option String
  pub estimated_budget : Option W
  pub estimated_duration : Option ℕ
  pub risk_analysis : Option String
  pub xai_justification : Option String
  pub normative_refs : Option (Json W)
  pub file_path : Option Text
  pub file_size : Option ℕ
