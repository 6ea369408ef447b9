-- ===== src/Tests/Recommended.antt =====
-- Examples of recommendations.
use road_vision_ai.Base.{
  ℕ, ◌≡◌, refl, List, [], ◌∷◌, ◌++◌, Option, none, some, ok, err, http, ◌==◌, find, select,
}
use road_vision_ai.Float.Fixed.{Fixed, fixed}
use road_vision_ai.Enums.{SeverityLevel, PriorityLevel, RecStatus}
use road_vision_ai.Schema.{AnalysisResult, PciScore, MaintenanceRecommendation}
use road_vision_ai.Rules.{RuleDecision, Rule, evaluate}
use road_vision_ai.Store.{World, in_session}
use road_vision_ai.Recommendations.{Agents, context_of, generate_for_analysis}
use road_vision_ai.Recommendations.Generation.{recommended, IsDecided, generate_ok, generate_once}
use road_vision_ai.Tests.{library, rebuild, engineer, db, world}

abbrev analysis : AnalysisResult Fixed
analysis = record {
  id = 20;
  inspection_id = 5;
  total_detections = 7;
  created_at = 150;
  dominant_damage_type = some "POTHOLE";
  overall_severity = some SeverityLevel.critique;
  recommendation_confidence = some 900000;
  processing_time_ms = some 40;
}

abbrev score : PciScore Fixed
score = record {
  id = 21;
  inspection_id = 5;
  score = 3500;
  severity_level = SeverityLevel.critique;
  priority_level = PriorityLevel.p0_critique;
  computed_at = 150;
  priority_score = none;
}

-- A world with an analysis and a rule for it.
abbrev analysed : World Fixed Fixed
analysed =
    let tables = record db {
      analysis_results = analysis ∷ [];
      pci_scores = score ∷ [];
      rules = rebuild ∷ [];
    } in
    record world { committed = tables; working = tables }

-- No search, and no language model.
abbrev pub alone : Agents Fixed Fixed
alone = record { rag_search = none; llm_generate = none; date_after = λ now days. ok now }

generated :
    (rec : MaintenanceRecommendation Fixed Fixed) × ((generate_for_analysis library alone 20
        engineer analysed).0
      ≡ ok rec)
unfolding generate_for_analysis road_vision_ai.Recommendations.save_recommendation
    road_vision_ai.Recommendations.array_length road_vision_ai.Recommendations.deadline_of
    road_vision_ai.Pipeline.run_pipeline road_vision_ai.Pipeline.assemble
    road_vision_ai.Pipeline.or_else road_vision_ai.Pipeline.is_true road_vision_ai.Pipeline.refs_of
    evaluate road_vision_ai.Rules.first_match road_vision_ai.Base.Sort.sorted
    road_vision_ai.Rules.holds road_vision_ai.Rules.parse road_vision_ai.Rules.matches
    road_vision_ai.Json.get_field road_vision_ai.Json.float_of road_vision_ai.Rules.decide
    road_vision_ai.Rules.strategy_field road_vision_ai.Enums.strategy_of
    road_vision_ai.Rules.template_field road_vision_ai.Rules.render road_vision_ai.Rules.replace
    road_vision_ai.Rules.value_field road_vision_ai.Rules.cost_field
generated = (_, refl)

generate_ok_example :
    let s' = (generate_for_analysis library alone 20 engineer analysed).1 in
    (a : AnalysisResult Fixed) × (pci : PciScore Fixed) × (d : RuleDecision Fixed Fixed) × (find
        (λ (x : AnalysisResult Fixed). x.id == 20)
        analysed.working.analysis_results
      ≡ some a)
    × (find (λ (p : PciScore Fixed). p.inspection_id == a.inspection_id) analysed.working.pci_scores
        ≡ some pci)
    × (evaluate library
          (select (λ (r : Rule). r.is_active) analysed.working.rules)
          (context_of pci a)
        ≡ ok d)
    × IsDecided library alone 20 engineer 200 d generated.0
    × (generated.0.status ≡ RecStatus.en_attente)
    × (recommended 20 analysed.working.maintenance_recommendations ≡ none)
    × (s'.committed ≡ s'.working)
    × (s'.committed.maintenance_recommendations
        ≡ analysed.working.maintenance_recommendations ++ generated.0 ∷ [])
generate_ok_example = generate_ok library alone 20 engineer analysed {rec = generated.0} generated.1

generate_once_example :
    let s' = (in_session (generate_for_analysis library alone 20 engineer) analysed).1 in
    let (answer, s'') = in_session (generate_for_analysis library alone 20 engineer) s' in
    (answer ≡ err (http 409)) × (s''.committed ≡ s'.committed)
unfolding in_session
generate_once_example =
    generate_once library 20 analysed alone alone engineer engineer {rec = generated.0} generated.1
