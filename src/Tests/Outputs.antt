-- ===== src/Tests/Outputs.antt =====
-- Examples of a run of the worker that finds damage.
use road_vision_ai.Base.{◌≡◌, refl, [], ◌∷◌, none, some, ok, arith}
use road_vision_ai.Text.{text_eq}
use road_vision_ai.Float.Fixed.{Fixed, fixed, Fixed-IsOrdered, Fixed-IsArithmetic}
use road_vision_ai.Enums.{DamageCategory, InspectionStatus}
use road_vision_ai.Schema.{DamageType, Inspection}
use road_vision_ai.Detection.{Box, detect, resolve_code}
use road_vision_ai.Constraints.{IsConsistent}
use road_vision_ai.Store.{World, in_session}
use road_vision_ai.Worker.{Runtime, run_analysis, run, analyse, pci_input}
use road_vision_ai.Worker.Outcome.{by_id}
use road_vision_ai.Worker.Images.{IsCalibrated}
use road_vision_ai.Worker.Consistency.{
  HoldsScore, run_analysis-IsConsistent, run_analysis-HoldsScore,
}
use road_vision_ai.Storage.{is_at, partition}
use road_vision_ai.Pci.{
  compute_pci, compute_groups, group_by_type, by_code, type_deduction, mean_severity_of,
}
use road_vision_ai.Float.{py_min, py_max, py_div}
use road_vision_ai.Base.Sort.{sorted}
use road_vision_ai.InspectionService.{set_status}
use road_vision_ai.Repository.Inspections.{increment_version, same_row, set_updated_at}
use road_vision_ai.Tests.{waiting}
use road_vision_ai.Tests.Requests.{runtime, equipped}

abbrev hole : Box Fixed
hole = record {
  class_name = "pothole";
  conf = 800000;
  xc = 500000;
  yc = 500000;
  w = 200000;
  h = 100000;
}

abbrev seeing : Runtime Fixed
seeing = record runtime { predict = λ weights content. ok (hole ∷ []) }

abbrev pothole_type : DamageType Fixed
pothole_type = record {
  id = 3;
  code = "POTHOLE";
  name = "Nid de poule";
  pci_weight = 900000;
  category = DamageCategory.degradation_surface;
  created_at = 1;
  description = none;
}

abbrev damaged : World Fixed Fixed
damaged = record equipped {
  committed = record equipped.committed { damage_types = pothole_type ∷ [] };
}

seeing-IsCalibrated : IsCalibrated seeing
seeing-IsCalibrated weights content boxes e = ground arith

damaged-IsConsistent : IsConsistent damaged.committed
damaged-IsConsistent = record {
  detections = tt;
  scores = tt;
  results = tt;
  one_score = tt;
  one_result = tt;
}

run_analysis-IsConsistent_example : IsConsistent (run_analysis seeing 5 damaged).1.committed
run_analysis-IsConsistent_example =
    run_analysis-IsConsistent Fixed-IsOrdered Fixed-IsArithmetic seeing seeing-IsCalibrated 5
      damaged damaged-IsConsistent

finished :
    (r : Inspection) × (by_id 5 (run_analysis seeing 5 damaged).1.committed.inspections ≡ some r)
    × (r.status ≡ InspectionStatus.terminee)
unfolding run_analysis in_session run analyse is_at text_eq partition detect resolve_code
    compute_pci compute_groups group_by_type pci_input py_min py_max by_code sorted type_deduction
    py_div set_status mean_severity_of increment_version same_row set_updated_at
finished = (_, refl, refl)

run_analysis-HoldsScore_example :
    HoldsScore seeing 5 damaged.committed (run_analysis seeing 5 damaged).1.committed
run_analysis-HoldsScore_example =
    run_analysis-HoldsScore Fixed-IsOrdered Fixed-IsArithmetic seeing seeing-IsCalibrated 5 damaged
      {r = waiting} {r' = finished.0} damaged-IsConsistent refl finished.1 finished.2
