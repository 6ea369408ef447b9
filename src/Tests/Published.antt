-- ===== src/Tests/Published.antt =====
-- Examples of reports and of the dashboard.
use road_vision_ai.Base.{◌≡◌, refl, [], ◌∷◌, none, some, ok, length, select, ◌==◌, find}
use road_vision_ai.Text.{Text, codes}
use road_vision_ai.Float.Fixed.{Fixed}
use road_vision_ai.Enums.{DamageCategory, PriorityLevel, PlanStatus}
use road_vision_ai.Schema.{DamageType, DamageDetection, MaintenancePlan, InspectionReport}
use road_vision_ai.Store.{World, in_session}
use road_vision_ai.Storage.{get_object}
use road_vision_ai.Reports.{Publishing, build_pdf, generate_for_plan, download_url}
use road_vision_ai.Reports.Download.{generate_downloads}
use road_vision_ai.Dashboard.{distribution, total_of}
use road_vision_ai.Dashboard.Distribution.{is_typed, total_of-distribution}
use road_vision_ai.Tests.{engineer, db, world}
use road_vision_ai.Tests.Requests.{settings}

abbrev plan : MaintenancePlan Fixed
plan = record {
  id = 9;
  recommendation_id = 8;
  priority = PriorityLevel.p0_critique;
  status = PlanStatus.valide;
  created_at = 150;
  updated_at = 150;
  version = 1;
  total_budget = none;
  start_date = none;
  end_date = none;
  validated_by = none;
  validated_at = none;
  engineer_notes = none;
}

abbrev planned : World Fixed Fixed
planned =
    let tables = record db { maintenance_plans = plan ∷ [] } in
    record world { committed = tables; working = tables }

abbrev pub press : Publishing
press = record {
  build = λ title now sections. ok (codes title);
  sign = λ bucket name. ok "https://localhost:9000/reports";
  key_text = λ n. "9";
}

published :
    (report : InspectionReport Fixed) × ((in_session
        (generate_for_plan press settings 9 "Rapport" none engineer)
        planned).0
      ≡ ok report)
unfolding in_session generate_for_plan
published = (_, refl)

generate_downloads_example :
    let s' = (in_session (generate_for_plan press settings 9 "Rapport" none engineer) planned).1 in
    (name : Text) × (pdf : Text) × (build_pdf press 200 "Rapport" none ≡ ok pdf)
    × ((download_url press published.0.id s').0 ≡ press.sign (codes "reports") name)
    × ((get_object (codes "reports") name s').0 ≡ ok pdf)
    × (find (λ (r : InspectionReport Fixed). r.plan_id == 9) planned.committed.inspection_reports
        ≡ none)
generate_downloads_example =
    generate_downloads press settings 9 "Rapport" none engineer planned {report = published.0}
      (refl, (refl, (refl, (refl, (refl, (refl, (refl, tt))))))) refl published.1

abbrev type_1 : DamageType Fixed
type_1 = record {
  id = 1;
  code = "POTHOLE";
  name = "Nid-de-poule";
  pci_weight = 1000000;
  category = DamageCategory.deformation;
  created_at = 0;
  description = none;
}

abbrev hole : DamageDetection Fixed
hole = record {
  id = 3;
  road_image_id = 7;
  damage_type_id = 1;
  bbox_x = 0;
  bbox_y = 0;
  bbox_width = 500000;
  bbox_height = 500000;
  confidence_score = 900000;
  severity_score = 500000;
  detected_at = 150;
  created_at = 150;
  area_m2 = none;
  model_id = some 1;
}

total_of-distribution_example :
    total_of (distribution (type_1 ∷ []) (hole ∷ hole ∷ []))
    ≡ length (select (is_typed (type_1 ∷ [])) (hole ∷ hole ∷ []))
total_of-distribution_example = total_of-distribution (type_1 ∷ []) (hole ∷ hole ∷ []) (tt, tt)
