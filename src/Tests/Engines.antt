-- ===== src/Tests/Engines.antt =====
-- Examples of the engines, on concrete detections and rules.
use mathlib.Core.List.{Perm, Pairwise, Pairwise-pair}
use mathlib.Core.List.Perm
use mathlib.Core.HLevel.{¬_prop}
use road_vision_ai.Base.{
  ℕ, ◌*◌, ◌≤◌, ◌≡◌, ◌≢◌, refl, ap, str_eq, inl, inr, ◌⊎◌, Bool, true, false, not, ◌&&◌, String,
  List, [], ◌∷◌, Option, none, some, Result, ok, err, ◌>>=◌, exn_of, arith, all, All, leb, select,
  value_error, rule_format_error, type_error, if◌then◌else◌,
}
use road_vision_ai.Base.Sort.{IsOrdered}
use road_vision_ai.Text.{codes, text_lt}
use road_vision_ai.Float.{Float}
use road_vision_ai.Float.Fixed.{Fixed, fixed, Fixed-IsOrdered}
use road_vision_ai.Json.{Json, Items}
use road_vision_ai.Enums.{PriorityLevel, MaintenanceStrategy}
use road_vision_ai.Pci.{
  DetectionInput, PciResult, classify_priority, group_by_type, by_code, result_of, compute_pci,
}
use road_vision_ai.Pci.Groups.{
  group_of, of_code, is_valid, IsGrouped, group_by_type_lem, by_code-IsOrdered,
}
use road_vision_ai.Pci.Totality.{exn_of-compute_pci}
use road_vision_ai.Pci.Levels.{
  severity_of, priority_rank, classify_priority_mono, IsPlaced, compute_pci-IsScored,
}
use road_vision_ai.Rules.{
  Rule, RuleDecision, parse, strategy_field, decide, fallback, holds, evaluate,
}
use road_vision_ai.Rules.FirstMatch.{
  IsFirst, ordered, evaluate-IsFirst, evaluate_raises, decide_strategy,
}
use road_vision_ai.Rules.Order.{evaluate-perm}
use road_vision_ai.Pipeline.{Passage, PipelineResult, is_true, run_pipeline}
use road_vision_ai.Pipeline.Grounding.{IsSaid, run_pipeline_grounded, exn_of-run_pipeline}
use road_vision_ai.Tests.{library, poor, rebuild, broken, pothole, crack}

abbrev road : List (DetectionInput Fixed)
road = pothole "a" ∷ crack ∷ pothole "b" ∷ []

exn_of-compute_pci_example : exn_of (compute_pci road 2) ≡ none
unfolding is_valid road_vision_ai.Pci.in_unit
exn_of-compute_pci_example = exn_of-compute_pci Fixed-IsOrdered road 2

-- The result for two images.
road_result : (r : PciResult Fixed) × (compute_pci road 2 ≡ ok r)
unfolding compute_pci group_by_type by_code result_of road_vision_ai.Pci.compute_groups
    road_vision_ai.Base.Sort.sorted text_lt road_vision_ai.Pci.type_deduction
    road_vision_ai.Float.py_div road_vision_ai.Pci.mean_severity_of
road_result = (_, refl)

compute_pci-IsScored_example :
    (road_result.0.score ≤ 10000)
    × (road_result.0.severity_level ≡ severity_of road_result.0.priority_level)
    × IsPlaced road_result.0.score road_result.0.priority_level
compute_pci-IsScored_example =
    compute_pci-IsScored Fixed-IsOrdered road 2 {r = road_result.0} road_result.1

group_by_type_lem_example :
    ((k : String)
      → group_of k
          (("POTHOLE", pothole "a" ∷ pothole "b" ∷ []) ∷ ("ALLIGATOR_CRACK", crack ∷ []) ∷ [])
        ≡ of_code k road)
    × IsGrouped (("POTHOLE", pothole "a" ∷ pothole "b" ∷ []) ∷ ("ALLIGATOR_CRACK", crack ∷ []) ∷ [])
unfolding group_by_type
group_by_type_lem_example = group_by_type_lem road refl

by_code-IsOrdered_example :
    IsOrdered
      (λ x y. text_lt (codes x.0) (codes y.0))
      (by_code (("POTHOLE", pothole "a" ∷ []) ∷ ("ALLIGATOR_CRACK", crack ∷ []) ∷ []))
by_code-IsOrdered_example =
    by_code-IsOrdered (("POTHOLE", pothole "a" ∷ []) ∷ ("ALLIGATOR_CRACK", crack ∷ []) ∷ [])

classify_priority_mono_example :
    priority_rank (classify_priority {W = Fixed} 54000000)
    ≤ priority_rank (classify_priority {W = Fixed} 86000000)
classify_priority_mono_example = classify_priority_mono Fixed-IsOrdered 54000000 86000000 refl

-- The decision of the rule on a poor road.
rebuilt : (d : RuleDecision Fixed Fixed) × (decide library rebuild poor ≡ ok d)
unfolding decide parse strategy_field road_vision_ai.Json.get_field road_vision_ai.Enums.strategy_of
    road_vision_ai.Rules.template_field road_vision_ai.Rules.render road_vision_ai.Rules.cost_field
rebuilt = (_, refl)

holds_example : holds library rebuild poor ≡ ok true
unfolding holds parse road_vision_ai.Rules.matches road_vision_ai.Json.get_field
    road_vision_ai.Json.float_of
holds_example = refl

broken_example : holds library broken poor ≡ err (rule_format_error "R-02")
unfolding holds parse
broken_example = refl

evaluated : evaluate library (rebuild ∷ []) poor ≡ ok rebuilt.0
unfolding evaluate road_vision_ai.Rules.first_match road_vision_ai.Base.Sort.sorted holds parse
    road_vision_ai.Rules.matches road_vision_ai.Json.get_field road_vision_ai.Json.float_of decide
    strategy_field road_vision_ai.Enums.strategy_of road_vision_ai.Rules.template_field
    road_vision_ai.Rules.render road_vision_ai.Rules.cost_field rebuilt
evaluated = refl

evaluate-IsFirst_example :
    ((r : Rule) × IsFirst library poor (ordered (rebuild ∷ [])) r
      × (holds library r poor ≡ ok true)
      × (decide library r poor ≡ ok rebuilt.0))
    ⊎ (All (λ s. holds library s poor ≡ ok false) (ordered (rebuild ∷ []))
        × (fallback library poor ≡ ok rebuilt.0))
evaluate-IsFirst_example = evaluate-IsFirst library poor (rebuild ∷ []) {d = rebuilt.0} evaluated

-- The broken rule has the smaller priority and comes first.
broken-IsFirst : IsFirst library poor (ordered (rebuild ∷ broken ∷ [])) broken
unfolding ordered road_vision_ai.Base.Sort.sorted road_vision_ai.Rules.key_lt
broken-IsFirst = record { earlier = []; later = rebuild ∷ []; split = refl; rejected = tt }

evaluate_raises_example :
    evaluate library (rebuild ∷ broken ∷ []) poor ≡ err (rule_format_error "R-02")
evaluate_raises_example =
    evaluate_raises library poor (rebuild ∷ broken ∷ []) broken broken-IsFirst
      {e = rule_format_error "R-02"} broken_example

decide_strategy_example :
    (rebuilt.0.rule_code ≡ "R-01")
    × (rebuilt.0.rule_name ≡ "Reconstruction")
    × ((parse library rebuild.action "R-01" >>= λ action. strategy_field library action "R-01")
        ≡ ok rebuilt.0.strategy)
decide_strategy_example = decide_strategy library poor rebuild {d = rebuilt.0} rebuilt.1

codes_differ : rebuild.code ≢ broken.code
codes_differ = λ e. cc (ap (λ (c : String). str_eq c "R-01") e)

distinct : Pairwise (λ (r s : Rule). r.code ≢ s.code) (rebuild ∷ broken ∷ [])
distinct = (Pairwise-pair (λ r s. ¬_prop)).1 codes_differ

swapped : Perm (rebuild ∷ broken ∷ []) (broken ∷ rebuild ∷ [])
swapped = Perm.swap _ _ _

evaluate-perm_example :
    evaluate library (rebuild ∷ broken ∷ []) poor ≡ evaluate library (broken ∷ rebuild ∷ []) poor
evaluate-perm_example =
    evaluate-perm library poor (rebuild ∷ broken ∷ []) (broken ∷ rebuild ∷ []) distinct swapped

abbrev passage : Passage
passage = record { title = "Guide"; pages = "3-4"; text = codes "PCI" }

-- The language model is not reachable.
run_pipeline_grounded_example :
    (r : PipelineResult Fixed Fixed) × (run_pipeline library
        (λ c d. ok (passage ∷ []))
        (λ c d ps. err value_error)
        poor
        (rebuild ∷ [])
      ≡ ok r)
    × (r.decision ≡ rebuilt.0)
    × ((r.justification ≡ rebuilt.0.justification) ⊎ IsSaid r.justification)
    × (r.missing_normative_refs ≡ false)
    × (is_true r.normative_refs ≡ true)
    × (◌≡◌ {A = Bool} false false
        ⊎ (r.justification ≡ rebuilt.0.justification) × (r.normative_refs ≡ Json.arr Items.nil))
run_pipeline_grounded_example =
    run_pipeline_grounded library (λ c d. ok (passage ∷ [])) (λ c d ps. err value_error) poor
      (rebuild ∷ []) {d = rebuilt.0} {ps = passage ∷ []} evaluated refl

-- The search is not reachable.
abbrev absent : Result (List Passage)
absent = err type_error

exn_of-run_pipeline_example :
    exn_of
      (run_pipeline library (λ c d. err type_error) (λ c d ps. err value_error) poor (rebuild ∷ []))
    ≡ exn_of (evaluate library (rebuild ∷ []) poor >>= λ d. absent)
exn_of-run_pipeline_example =
    exn_of-run_pipeline library (λ c d. err type_error) (λ c d ps. err value_error) poor
      (rebuild ∷ [])
