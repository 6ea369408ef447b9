-- ===== src/Recommendations.antt =====
-- RecommendationService (backend/app/services/recommendation_service.py), and the search that its
-- endpoint passes to it (backend/app/api/v1/endpoints/recommendations.py).
pub mod Generation
use road_vision_ai.Base.{
  ℕ, ◌+◌, Bool, true, false, String, List, [], ◌∷◌, ◌++◌, Option, none, some, Result, ok, err, http,
  integrity_error, ◌==◌, ltb, length, find, select, take, drop, is_some, if◌then◌else◌,
}
use road_vision_ai.Base.Sort.{sorted}
use road_vision_ai.Text.{Text, codes}
use road_vision_ai.Float.{Float}
use road_vision_ai.Json.{Json, ℤ, Items, Fields, Python}
use road_vision_ai.Enums.{RecStatus, severity_value, priority_value, strategy_value}
use road_vision_ai.Schema.{
  PciScore, AnalysisResult, XaiExplanation, MaintenanceRecommendation, User,
}
use road_vision_ai.Rules.{AnalysisContext, RuleDecision, Rule}
use road_vision_ai.Pipeline.{Passage, PipelineResult, is_true, run_pipeline}
use road_vision_ai.Store.{
  Db, Exec, pure, lift, query, gets, or_raise, raise_when, write, new_key, commit, ◌>>=◌, ◌>>◌,
}
use road_vision_ai.Repository.{audit_log}

-- The search and the language model of a service; `none` is one that is not configured.
pub record Agents (W D : Type 0) : Type 0 where
  pub rag_search : Option (AnalysisContext W → RuleDecision W D → Result (List Passage))
  pub llm_generate : Option (AnalysisContext W → RuleDecision W D → List Passage → Result String)
  -- `(now + timedelta(days=days)).date()`, which may raise
  pub date_after : ℕ → Json W → Result ℕ

-- `_default_rag`
unfoldable pub search_of :
    {W D : Type 0} → Agents W D → AnalysisContext W → RuleDecision W D → Result (List Passage)
search_of agents ctx decision = elim agents.rag_search [
  | none ↦ ok []
  | some search ↦ search ctx decision
]

-- `_default_llm`
unfoldable pub generate_of :
    {W D : Type 0}
    → Agents W D
    → AnalysisContext W
    → RuleDecision W D
    → List Passage
    → Result String
generate_of agents ctx decision passages = elim agents.llm_generate [
  | none ↦ ok ""
  | some generate ↦ generate ctx decision passages
]

-- The endpoint's search: any exception becomes no passage.
unfoldable pub best_effort : Result (List Passage) → Result (List Passage)
best_effort (ok passages) = ok passages
best_effort (err e) = ok []

-- Of a JSON array its elements are counted. The columns `normative_refs` have the constraint
-- `jsonb_typeof(normative_refs) = 'array'`.
count_items : {W : Type 0} → Items W → ℕ
count_items Items.nil = 0
count_items (Items.cons x xs) = count_items xs + 1

unfoldable pub array_length : {W : Type 0} → Json W → Option ℕ
unfolding count_items
array_length (Json.arr xs) = some (count_items xs)
array_length v = none

abbrev texts_of : {W : Type 0} → List String → Items W
texts_of [] = Items.nil
texts_of (s ∷ ss) = Items.cons (Json.str s) (texts_of ss)

abbrev text_or_null : {W : Type 0} → Option String → Json W
text_or_null none = Json.null
text_or_null (some s) = Json.str s

module _ {W : Type 0} ⦃f : Float W⦄ where
  unfoldable pub context_of : PciScore W → AnalysisResult W → AnalysisContext W
  context_of pci analysis = record {
    pci = f.of_cents pci.score;
    severity_level = pci.severity_level;
    priority_level = pci.priority_level;
    dominant_damage_type = analysis.dominant_damage_type;
    total_detections = analysis.total_detections;
  }

module _ {W D : Type 0} ⦃f : Float W⦄ (py : Python W D) (agents : Agents W D) where
  unfoldable pub xai_of :
      ℕ → ℕ → AnalysisContext W → AnalysisResult W → PipelineResult W D → XaiExplanation W
  unfolding severity_value priority_value
  xai_of id now ctx analysis result = record {
    id = id;
    generated_at = now;
    rules_applied = some (
        Json.arr (
          Items.cons
            (Json.obj (
              Fields.field "code" (Json.str result.decision.rule_code)
                (Fields.field "name" (Json.str result.decision.rule_name) Fields.end)))
            Items.nil));
    normative_refs = some result.normative_refs;
    priority_breakdown = some (
        Json.obj (
          Fields.field "pci" (Json.real ctx.pci) (
            Fields.field "severity" (Json.str (severity_value ctx.severity_level)) (
              Fields.field "priority" (Json.str (priority_value ctx.priority_level)) (
                Fields.field "dominant_type" (text_or_null ctx.dominant_damage_type) (
                  Fields.field "detections" (Json.int (ℤ.pos ctx.total_detections))
                    Fields.end))))));
    confidence_score = analysis.recommendation_confidence;
    severity_justification = some (
        codes "PCI "
        ++ py.format_2f ctx.pci
        ++ codes " classé "
        ++ codes (severity_value ctx.severity_level)
        ++ codes " (priorité "
        ++ codes (priority_value ctx.priority_level)
        ++ codes ").");
    strategy_justification = some result.justification;
    agents_involved = some (Json.arr (texts_of result.agents_involved));
  }

  -- `... if decision.deadline_days else None`
  unfoldable pub deadline_of : ℕ → RuleDecision W D → Result (Option ℕ)
  deadline_of now decision =
      if is_true decision.deadline_days
      then elim (agents.date_after now decision.deadline_days) [
        | err e ↦ err e
        | ok d ↦ ok (some d)
      ]
      else ok none

  -- A new row with the defaults of its columns.
  unfoldable pub recommendation_of :
      ℕ → ℕ → ℕ → Option ℕ → AnalysisResult W → PipelineResult W D → MaintenanceRecommendation W D
  recommendation_of id now analysis_result_id deadline analysis result = record {
    id = id;
    analysis_result_id = analysis_result_id;
    strategy = result.decision.strategy;
    status = RecStatus.en_attente;
    created_at = now;
    updated_at = now;
    version = 1;
    estimated_cost_min = result.decision.cost_min_mad;
    estimated_cost_max = result.decision.cost_max_mad;
    estimated_days = result.decision.estimated_days;
    deadline = deadline;
    justification = some result.justification;
    normative_refs = some result.normative_refs;
    confidence = analysis.recommendation_confidence;
    validated_by = none;
    validated_at = none;
    rejection_reason = none;
    rejected_by = none;
    rejected_at = none;
  }

  -- The writes of a generation, up to its commit.
  unfoldable pub save_recommendation :
      ℕ
      → AnalysisContext W
      → AnalysisResult W
      → PipelineResult W D
      → User
      → Exec W D (MaintenanceRecommendation W D)
  unfolding xai_of recommendation_of strategy_value audit_log
  save_recommendation analysis_result_id ctx analysis result actor = do
    refs ← or_raise (array_length result.normative_refs) integrity_error
    xai_id ← new_key
    now ← gets (λ s. s.now)
    write (λ db. record db {
      xai_explanations = db.xai_explanations ++ xai_of xai_id now ctx analysis result ∷ [];
    })
    deadline ← lift (deadline_of now result.decision)
    id ← new_key
    let rec = recommendation_of id now analysis_result_id deadline analysis result
    write (λ db. record db {
      maintenance_recommendations = db.maintenance_recommendations ++ rec ∷ [];
    })
    audit_log "RECOMMENDATION_GENERATED" "maintenance_recommendations" rec.id (some actor.id)
        (some (
          Json.obj (
            Fields.field "strategy" (Json.str (strategy_value result.decision.strategy)) (
              Fields.field "rule" (Json.str result.decision.rule_code) (
                Fields.field "normative_refs" (Json.int (ℤ.pos refs)) (
                  Fields.field "missing_refs" (Json.bool result.missing_normative_refs)
                    Fields.end))))))
        none none
    commit
    pure rec

  unfoldable pub generate_for_analysis : ℕ → User → Exec W D (MaintenanceRecommendation W D)
  unfolding context_of search_of generate_of
  generate_for_analysis analysis_result_id actor = do
    found ←
        query
          (λ db. find (λ (a : AnalysisResult W). a.id == analysis_result_id) db.analysis_results)
    analysis ← or_raise found (http 404)
    existing ← query (λ db.
        find (λ (r : MaintenanceRecommendation W D). r.analysis_result_id == analysis_result_id)
          db.maintenance_recommendations)
    raise_when (is_some existing) (http 409)
    scored ←
        query
          (λ db. find (λ (p : PciScore W). p.inspection_id == analysis.inspection_id) db.pci_scores)
    pci ← or_raise scored (http 409)
    rules ← query (λ db. select (λ (r : Rule). r.is_active) db.rules)
    let ctx = context_of pci analysis
    result ← lift (run_pipeline py (search_of agents) (generate_of agents) ctx rules)
    save_recommendation analysis_result_id ctx analysis result actor

module _ {W D : Type 0} where
  unfoldable pub get_recommendation : ℕ → Exec W D (MaintenanceRecommendation W D)
  get_recommendation rec_id = do
    rec ← query (λ db.
        find (λ (r : MaintenanceRecommendation W D). r.id == rec_id) db.maintenance_recommendations)
    or_raise rec (http 404)

  abbrev is_pending : MaintenanceRecommendation W D → Bool
  is_pending r = elim r.status [ RecStatus.en_attente ↦ true | _ ↦ false ]

  -- The oldest first; the total counts all that are pending.
  unfoldable pub list_pending : ℕ → ℕ → Exec W D (List (MaintenanceRecommendation W D) × ℕ)
  list_pending limit offset = query (λ db.
      let base = select is_pending db.maintenance_recommendations in
      (
        take limit (
            drop offset (
              sorted (λ (a b : MaintenanceRecommendation W D). ltb a.created_at b.created_at)
                base)),
        length base,
      ))
