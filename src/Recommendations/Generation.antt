-- ===== src/Recommendations/Generation.antt =====
-- About the generation of a recommendation
-- (backend/app/services/recommendation_service.py).
use road_vision_ai.Base.{
  ℕ, ◌+◌, ◌≡◌, refl, ap, ◌∙◌, ◌⊎◌, inl, inr, Bool, true, false, Bool-cases, List, [], ◌∷◌, ◌++◌,
  Option, none, some, ok, err, http, arith, ◌==◌, find, select, is_some, Result-cases, Option-cases,
  >>=-eq-ok, ==_refl,
}
use road_vision_ai.Float.{Float}
use road_vision_ai.Json.{Python}
use road_vision_ai.Enums.{RecStatus}
use road_vision_ai.Schema.{PciScore, AnalysisResult, MaintenanceRecommendation, User}
use road_vision_ai.Rules.{AnalysisContext, RuleDecision, Rule, evaluate}
use road_vision_ai.Pipeline.{PipelineResult, is_true, assemble, run_pipeline}
use road_vision_ai.Store.{World, in_session}
use road_vision_ai.Recommendations.{
  Agents, search_of, generate_of, context_of, deadline_of, recommendation_of, array_length,
  save_recommendation, generate_for_analysis,
}

-- The recommendation of an analysis.
abbrev pub recommended :
    {W D : Type 0}
    → ℕ
    → List (MaintenanceRecommendation W D)
    → Option (MaintenanceRecommendation W D)
recommended {W} {D} id rows =
    find (λ (r : MaintenanceRecommendation W D). r.analysis_result_id == id) rows

find-append_last {ℓ} :
    {A : Type ℓ} (p : A → Bool) (xs : List A) (x : A)
    → p x ≡ true
    → is_some (find p (xs ++ x ∷ [])) ≡ true
find-append_last p [] x h = rw h refl
find-append_last p (y ∷ xs) x h = ground (arith, find-append_last p xs x h)

module _ {W D : Type 0} ⦃f : Float W⦄ (py : Python W D) (agents : Agents W D) (id : ℕ)
    (actor : User) where
  -- The columns of a recommendation that the rules decide. The deadline is the day so many days after
  -- `now`, if the decision names a number of days.
  abbrev pub IsDecided : ℕ → RuleDecision W D → MaintenanceRecommendation W D → Type 0
  IsDecided now d rec =
      (rec.strategy ≡ d.strategy)
      × (rec.estimated_cost_min ≡ d.cost_min_mad)
      × (rec.estimated_cost_max ≡ d.cost_max_mad)
      × (rec.estimated_days ≡ d.estimated_days)
      × (((is_true d.deadline_days ≡ false) × (rec.deadline ≡ none))
          ⊎ ((day : ℕ) × (is_true d.deadline_days ≡ true)
              × (agents.date_after now d.deadline_days ≡ ok day)
              × (rec.deadline ≡ some day)))

  deadline_is :
      (now : ℕ) (d : RuleDecision W D) {day : Option ℕ}
      → deadline_of py agents now d ≡ ok day
      → ((is_true d.deadline_days ≡ false) × (day ≡ none))
        ⊎ ((x : ℕ) × (is_true d.deadline_days ≡ true)
            × (agents.date_after now d.deadline_days ≡ ok x)
            × (day ≡ some x))
  unfolding deadline_of
  deadline_is now d h = elim (Bool-cases (is_true d.deadline_days)) [
    | inr e ↦ inl (e, cc (rw e at h))
    | inl e ↦ elim (Result-cases (agents.date_after now d.deadline_days)) [
      | inl (x, k) ↦ cc (rw (e, k) at h)
      | inr (x, k) ↦ inr (x, e, k, cc (rw (e, k) at h))
    ]
  ]

  -- What is saved.
  save_ok :
      (ctx : AnalysisContext W) (analysis : AnalysisResult W) (result : PipelineResult W D)
      (s : World W D) {rec : MaintenanceRecommendation W D}
      → (save_recommendation py agents id ctx analysis result actor s).0 ≡ ok rec
      → let s' = (save_recommendation py agents id ctx analysis result actor s).1 in
        IsDecided s.now result.decision rec
        × (rec.status ≡ RecStatus.en_attente)
        × (rec.analysis_result_id ≡ id)
        × (s'.committed ≡ s'.working)
        × (s'.committed.analysis_results ≡ s.working.analysis_results)
        × (s'.committed.maintenance_recommendations
            ≡ s.working.maintenance_recommendations ++ rec ∷ [])
  unfolding save_recommendation recommendation_of deadline_of
  save_ok ctx analysis result s {rec} h = elim (Option-cases (array_length result.normative_refs)) [
    | inl e ↦ cc (rw e at h)
    | inr (n, e) ↦ elim (Result-cases (deadline_of py agents s.now result.decision)) [
      | inl (x, k) ↦ cc (rw (e, k) at h)
      | inr (d, k) ↦
          let saved = recommendation_of py agents (s.next_id + 1) s.now id d analysis result in
          let same : saved ≡ rec = cc (rw (e, k) at h) in
          rw (e, k)
            (
              (cc, cc, cc, cc, deadline_is s.now result.decision (k ∙ ap ok cc)),
              cc,
              cc,
              refl,
              refl,
              ap (λ r. s.working.maintenance_recommendations ++ r ∷ []) same,
            )
    ]
  ]

  -- The decision of the pipeline is that of the rules.
  run_pipeline-decision :
      (ctx : AnalysisContext W) (rules : List Rule) {r : PipelineResult W D}
      → run_pipeline py (search_of agents) (generate_of agents) ctx rules ≡ ok r
      → evaluate py rules ctx ≡ ok r.decision
  unfolding run_pipeline assemble
  run_pipeline-decision ctx rules {r} h =
      let (d, decided, h1) = >>=-eq-ok (evaluate py rules ctx) _ h in
      let (ps, found, h2) = >>=-eq-ok (search_of agents ctx d) _ h1 in
      let same : d ≡ r.decision = cc in decided ∙ ap ok same

  -- What a generation found before it saved.
  abbrev Prepared : World W D → AnalysisResult W → PciScore W → PipelineResult W D → Type 0
  Prepared s analysis pci result =
      (find (λ (a : AnalysisResult W). a.id == id) s.working.analysis_results ≡ some analysis)
      × (recommended id s.working.maintenance_recommendations ≡ none)
      × (find (λ (p : PciScore W). p.inspection_id == analysis.inspection_id) s.working.pci_scores
          ≡ some pci)
      × (run_pipeline py (search_of agents) (generate_of agents) (context_of pci analysis)
            (select (λ (r : Rule). r.is_active) s.working.rules)
          ≡ ok result)

  generate-Prepared :
      (s : World W D) {rec : MaintenanceRecommendation W D}
      → (generate_for_analysis py agents id actor s).0 ≡ ok rec
      → (analysis : AnalysisResult W) × (pci : PciScore W) × (result : PipelineResult W D)
        × Prepared s analysis pci result
  unfolding generate_for_analysis
  generate-Prepared s h =
      elim (Option-cases (find (λ (a : AnalysisResult W). a.id == id) s.working.analysis_results)) [
        | inl e ↦ cc (rw e at h)
        | inr (a, e1) ↦ elim (Option-cases (recommended id s.working.maintenance_recommendations)) [
          | inr (r, e) ↦ cc (rw (e1, e) at h)
          | inl e2 ↦
              elim (Option-cases (
                find (λ (p : PciScore W). p.inspection_id == a.inspection_id)
                  s.working.pci_scores)) [
                    | inl e ↦ cc (rw (e1, e2, e) at h)
                    | inr (p, e3) ↦
                        elim (Result-cases (
                          run_pipeline py (search_of agents) (generate_of agents) (context_of p a)
                            (select (λ (r : Rule). r.is_active) s.working.rules))) [
                              | inl (x, e) ↦ cc (rw (e1, e2, e3, e) at h)
                              | inr (r, e4) ↦ (a, p, r, (e1, e2, e3, e4))
                            ]
                  ]
        ]
      ]

  generate_saves :
      (s : World W D) {analysis : AnalysisResult W} {pci : PciScore W} {result : PipelineResult W D}
      → Prepared s analysis pci result
      → generate_for_analysis py agents id actor s
        ≡ save_recommendation py agents id (context_of pci analysis) analysis result actor s
  unfolding generate_for_analysis
  generate_saves s (e1, e2, e3, e4) = rw (e1, e2, e3, e4) refl

  -- The strategy, the two costs, the days and the deadline of a recommendation that is generated are
  -- those that the deterministic rules decide on the stored score and summary, whatever the search
  -- and the language model do (its justification and its references may be theirs); it waits for
  -- validation, the analysis had none before, and it is committed as the one new row.
  pub generate_ok :
      (s : World W D) {rec : MaintenanceRecommendation W D}
      → (generate_for_analysis py agents id actor s).0 ≡ ok rec
      → let s' = (generate_for_analysis py agents id actor s).1 in
        (analysis : AnalysisResult W) × (pci : PciScore W) × (d : RuleDecision W D) × (find
            (λ (a : AnalysisResult W). a.id == id)
            s.working.analysis_results
          ≡ some analysis)
        × (find (λ (p : PciScore W). p.inspection_id == analysis.inspection_id) s.working.pci_scores
            ≡ some pci)
        × (evaluate py
              (select (λ (r : Rule). r.is_active) s.working.rules)
              (context_of pci analysis)
            ≡ ok d)
        × IsDecided s.now d rec
        × (rec.status ≡ RecStatus.en_attente)
        × (recommended id s.working.maintenance_recommendations ≡ none)
        × (s'.committed ≡ s'.working)
        × (s'.committed.maintenance_recommendations
            ≡ s.working.maintenance_recommendations ++ rec ∷ [])
  generate_ok s {rec} h =
      let (analysis, pci, result, prepared) = generate-Prepared s h in
      let saves = generate_saves s prepared in
      let saved = save_ok (context_of pci analysis) analysis result s {rec = rec} (rw saves at h) in
      (
        analysis,
        pci,
        result.decision,
        prepared.0,
        prepared.2,
        run_pipeline-decision _ _ prepared.3,
        saved.0,
        saved.1,
        prepared.1,
        rw saves saved.3,
        rw saves saved.5,
      )

  generate_again :
      (s : World W D) {analysis : AnalysisResult W}
      → find (λ (a : AnalysisResult W). a.id == id) s.working.analysis_results ≡ some analysis
      → is_some (recommended id s.working.maintenance_recommendations) ≡ true
      → generate_for_analysis py agents id actor s ≡ (err (http 409), s)
  unfolding generate_for_analysis
  generate_again s e1 e2 = rw (e1, e2) refl

  -- What a second generation meets.
  generate_leaves :
      (s : World W D) {rec : MaintenanceRecommendation W D}
      → (generate_for_analysis py agents id actor s).0 ≡ ok rec
      → let db = (generate_for_analysis py agents id actor s).1.committed in
        (analysis : AnalysisResult W) × (find
            (λ (a : AnalysisResult W). a.id == id)
            db.analysis_results
          ≡ some analysis)
        × (is_some (recommended id db.maintenance_recommendations) ≡ true)
  generate_leaves s {rec} h =
      let (analysis, pci, result, prepared) = generate-Prepared s h in
      let saves = generate_saves s prepared in
      let saved = save_ok (context_of pci analysis) analysis result s {rec = rec} (rw saves at h) in
      (
        analysis,
        rw (saves, saved.4) prepared.0,
        rw (saves, saved.5)
            (find-append_last (λ (r : MaintenanceRecommendation W D). r.analysis_result_id == id) _
              rec (rw saved.2 (==_refl id))),
      )

module _ {W D : Type 0} ⦃f : Float W⦄ (py : Python W D) (id : ℕ) (s : World W D) where
  -- An analysis gets one recommendation: after a generation that succeeded another one, by whomever
  -- and with whatever search and language model, is answered 409 and commits nothing.
  pub generate_once :
      (agents agents' : Agents W D) (actor actor' : User) {rec : MaintenanceRecommendation W D}
      → (in_session (generate_for_analysis py agents id actor) s).0 ≡ ok rec
      → let s' = (in_session (generate_for_analysis py agents id actor) s).1 in
        let (answer, s'') = in_session (generate_for_analysis py agents' id actor') s' in
        (answer ≡ err (http 409)) × (s''.committed ≡ s'.committed)
  unfolding in_session
  generate_once agents agents' actor actor' h =
      let t : World W D = record s { working = s.committed } in
      let t' = (generate_for_analysis py agents id actor t).1 in
      let u : World W D = record t' { working = t'.committed } in
      let (analysis, found, taken) = generate_leaves py agents id actor t h in
      let again = generate_again py agents' id actor' u found taken in
      (ap (λ p. p.0) again, ap (λ p. p.1.committed) again)
