-- ===== src/Pipeline/Grounding.antt =====
-- About the result of the pipeline, whatever the search returns and the language model answers.
use road_vision_ai.Base.{
  ◌≡◌, refl, ◌⊎◌, inl, inr, Bool, true, false, not, String, List, [], ◌∷◌, Result, ok, ◌>>=◌,
  exn_of, arith, Bool-cases, take,
}
use road_vision_ai.Text.{Text}
use road_vision_ai.Float.{Float}
use road_vision_ai.Json.{Json, Items, Python}
use road_vision_ai.Rules.{AnalysisContext, RuleDecision, Rule, evaluate}
use road_vision_ai.Pipeline.{
  Passage, PipelineResult, is_true, or_else, ref_of, refs_of, assemble, text_or_else, narrate_node,
  run_pipeline,
}

abbrev pub is_empty {ℓ} : {A : Type ℓ} → List A → Bool
is_empty [] = true
is_empty (x ∷ xs) = false

abbrev pub IsSaid : Text → Type 0
IsSaid t = (is_empty t ≡ false)

text_or_else-IsSaid : (s t : Text) → (text_or_else s t ≡ t) ⊎ IsSaid (text_or_else s t)
unfolding text_or_else
text_or_else-IsSaid [] t = inl refl
text_or_else-IsSaid (c ∷ s) t = inr refl

module _ {W : Type 0} ⦃f : Float W⦄ where
  or_else-true :
      (v : Json W) (x : Json W) (xs : Items W)
      → is_true (or_else v (Json.arr (Items.cons x xs))) ≡ true
  unfolding or_else is_true
  or_else-true v x xs = elim (Bool-cases (is_true v)) [ inl e ↦ rw (e, e) refl | inr e ↦ rw e refl ]

module _ {W D : Type 0} ⦃f : Float W⦄ where
  module _ (py : Python W D) (search : AnalysisContext W → RuleDecision W D → Result (List Passage))
      (generate : AnalysisContext W → RuleDecision W D → List Passage → Result String)
      (ctx : AnalysisContext W) (rules : List Rule) where
    narrate-missing :
        (d : RuleDecision W D) (ps : List Passage)
        → (narrate_node py generate ctx d ps).missing_normative_refs ≡ is_empty ps
    unfolding narrate_node
    narrate-missing d [] = refl
    narrate-missing d (p ∷ ps) = refl

    narrate-refs :
        (d : RuleDecision W D) (ps : List Passage)
        → is_true (
            or_else (narrate_node py generate ctx d ps).cited_refs (Json.arr (refs_of (take 3 ps))))
          ≡ not (is_empty ps)
    unfolding narrate_node refs_of or_else is_true
    narrate-refs d [] = refl
    narrate-refs d (p ∷ ps) =
        or_else-true {W = W} (narrate_node py generate ctx d (p ∷ ps)).cited_refs (ref_of p)
          (refs_of (take 2 ps))

    narrate-IsSaid :
        (d : RuleDecision W D) (ps : List Passage)
        → let told = (narrate_node py generate ctx d ps).justification in
          (told ≡ d.justification) ⊎ IsSaid told
    unfolding narrate_node
    narrate-IsSaid d [] = inl refl
    narrate-IsSaid d (p ∷ ps) = text_or_else-IsSaid _ d.justification

    -- Without a passage the result cites nothing.
    uncited :
        (d : RuleDecision W D) (ps : List Passage)
        → (is_empty ps ≡ false)
          ⊎ ((narrate_node py generate ctx d ps).justification ≡ d.justification)
            × (or_else
                  (narrate_node py generate ctx d ps).cited_refs
                  (Json.arr (refs_of (take 3 ps)))
                ≡ Json.arr Items.nil)
    unfolding narrate_node refs_of or_else is_true
    uncited d [] = inr (refl, refl)
    uncited d (p ∷ ps) = inl refl

    -- If the rules decide and the search answers, the pipeline returns a result whatever the
    -- language model does (it may raise or answer anything): the decision is that of the rules; the
    -- justification is that of the decision, or another one that is not empty; the result is flagged
    -- if and only if the search found no passage. If it found one, the references are a value that
    -- is true in Python (not necessarily a list); if it found none, they are the empty list and the
    -- justification is that of the decision.
    pub run_pipeline_grounded :
        {d : RuleDecision W D} {ps : List Passage}
        → evaluate py rules ctx ≡ ok d
        → search ctx d ≡ ok ps
        → (r : PipelineResult W D) × (run_pipeline py search generate ctx rules ≡ ok r)
          × (r.decision ≡ d)
          × ((r.justification ≡ d.justification) ⊎ IsSaid r.justification)
          × (r.missing_normative_refs ≡ is_empty ps)
          × (is_true r.normative_refs ≡ not (is_empty ps))
          × ((is_empty ps ≡ false)
              ⊎ (r.justification ≡ d.justification) × (r.normative_refs ≡ Json.arr Items.nil))
    unfolding run_pipeline assemble
    run_pipeline_grounded {d} {ps} decided found = (
      assemble py d ps (narrate_node py generate ctx d ps),
      rw (decided, found) refl,
      refl,
      narrate-IsSaid d ps,
      narrate-missing d ps,
      narrate-refs d ps,
      uncited d ps,
    )

    -- The pipeline raises what the rules or the search raise, and nothing else.
    pub exn_of-run_pipeline :
        exn_of (run_pipeline py search generate ctx rules)
        ≡ exn_of (evaluate py rules ctx >>= λ d. search ctx d)
    unfolding run_pipeline
    exn_of-run_pipeline = ground arith
