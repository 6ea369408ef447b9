-- ===== src/Rules/FirstMatch.antt =====
-- What `evaluate` decides: the first rule that holds, in the order of the sort key.
use road_vision_ai.Base.{
  ◌≡◌, refl, ap, ◌⊎◌, inl, inr, true, false, List, [], ◌∷◌, ◌++◌, ok, err, ◌>>=◌, >>=-eq-ok, Exn,
  arith, All, select, select-select, Bool-cases,
}
use road_vision_ai.Base.Sort.{sorted}
use road_vision_ai.Text.{codes, text_lt_asym, text_lt_weak}
use road_vision_ai.Float.{Float}
use road_vision_ai.Json.{Python}
use road_vision_ai.Rules.{
  AnalysisContext, RuleDecision, Rule, parse, strategy_field, template_field, render, cost_field,
  key_lt, decide, fallback, holds, first_match, evaluate,
}

pub key_lt_asym : (r s : Rule) → key_lt r s ≡ true → key_lt s r ≡ false
unfolding key_lt
key_lt_asym r s h = ground (arith, text_lt_asym (codes r.code) (codes s.code))

pub key_lt_weak : (r s t : Rule) → key_lt r s ≡ false → key_lt s t ≡ false → key_lt r t ≡ false
unfolding key_lt
key_lt_weak r s t h k = ground (arith, text_lt_weak (codes r.code) (codes s.code) (codes t.code))

-- The active rules in the order of evaluation.
unfoldable pub ordered : List Rule → List Rule
ordered rules = sorted key_lt (select (λ (r : Rule). r.is_active) rules)

module _ {W D : Type 0} ⦃f : Float W⦄ (py : Python W D) (ctx : AnalysisContext W) where
  abbrev Rejects : Rule → Type 0
  Rejects r = holds py r ctx ≡ ok false

  -- A rule decides, and every rule before it was well-formed and did not hold.
  pub record IsFirst (rules : List Rule) (r : Rule) : Type 0 where
    pub earlier : List Rule
    pub later : List Rule
    pub split : rules ≡ earlier ++ r ∷ later
    pub rejected : All (λ s. holds py s ctx ≡ ok false) earlier

  IsFirst-cons :
      (s : Rule) {rules : List Rule} (r : Rule)
      → Rejects s
      → IsFirst rules r
      → IsFirst (s ∷ rules) r
  IsFirst-cons s r h w = record {
    earlier = s ∷ w.earlier;
    later = w.later;
    split = ap (λ l. s ∷ l) w.split;
    rejected = (h, w.rejected);
  }

  first_match_lem :
      (rules : List Rule) {d : RuleDecision W D}
      → first_match py rules ctx ≡ ok d
      → ((r : Rule) × IsFirst rules r × (holds py r ctx ≡ ok true) × (decide py r ctx ≡ ok d))
        ⊎ (All (λ s. holds py s ctx ≡ ok false) rules × (fallback py ctx ≡ ok d))
  unfolding first_match
  first_match_lem [] h = inr (tt, h)
  first_match_lem (r ∷ rs) {d} h =
      let (m, p, q) = >>=-eq-ok (holds py r ctx) _ h in
      elim (Bool-cases m) [
        | inl e ↦ inl (
          r,
          record { earlier = []; later = rs; split = refl; rejected = tt },
          cc (p, e),
          (rw e at q),
        )
        | inr e ↦ elim (first_match_lem rs {d = d} (rw e at q)) [
          | inl (s, w, t, u) ↦ inl (s, IsFirst-cons r s (cc (p, e)) w, t, u)
          | inr (a, u) ↦ inr ((cc (p, e), a), u)
        ]
      ]

  -- If `evaluate` returns, either the decision is that of the first rule, in the order of the
  -- active rules by (priority, code), whose condition holds, all rules before it being well-formed
  -- and not holding; or no active rule holds and the decision is the fallback.
  pub evaluate-IsFirst :
      (rules : List Rule) {d : RuleDecision W D}
      → evaluate py rules ctx ≡ ok d
      → ((r : Rule) × IsFirst (ordered rules) r
          × (holds py r ctx ≡ ok true)
          × (decide py r ctx ≡ ok d))
        ⊎ (All (λ s. holds py s ctx ≡ ok false) (ordered rules) × (fallback py ctx ≡ ok d))
  unfolding evaluate ordered
  evaluate-IsFirst rules h = first_match_lem _ h

  first_match-skip :
      (earlier : List Rule) (rules : List Rule)
      → All (λ s. holds py s ctx ≡ ok false) earlier
      → first_match py (earlier ++ rules) ctx ≡ first_match py rules ctx
  unfolding first_match
  first_match-skip [] rules h = refl
  first_match-skip (s ∷ ss) rules h = rw h.0 (first_match-skip ss rules h.1)

  -- If the condition of an active rule raises, and every rule before it in the order is well-formed
  -- and does not hold, `evaluate` raises the same exception: the rule is not skipped.
  pub evaluate_raises :
      (rules : List Rule) (r : Rule)
      → IsFirst (ordered rules) r
      → {e : Exn} → holds py r ctx ≡ err e
      → evaluate py rules ctx ≡ err e
  unfolding evaluate ordered first_match
  evaluate_raises rules r w h =
      rw (w.split, first_match-skip w.earlier (r ∷ w.later) w.rejected, h) refl

  -- The service selects the active rules before it calls the engine: this changes no decision.
  pub evaluate-select :
      (rules : List Rule)
      → evaluate py (select (λ (r : Rule). r.is_active) rules) ctx ≡ evaluate py rules ctx
  unfolding evaluate
  evaluate-select rules =
      ap (λ l. first_match py (sorted key_lt l) ctx)
        (select-select (λ (r : Rule). r.is_active) rules)

  -- A decision of a rule carries the rule's code and name and the strategy of its action.
  pub decide_strategy :
      (r : Rule) {d : RuleDecision W D}
      → decide py r ctx ≡ ok d
      → (d.rule_code ≡ r.code)
        × (d.rule_name ≡ r.name)
        × ((parse py r.action r.code >>= λ action. strategy_field py action r.code) ≡ ok d.strategy)
  unfolding decide
  decide_strategy r h =
      let (action, p, h1) = >>=-eq-ok (parse py r.action r.code) _ h in
      let (strategy, q, h2) = >>=-eq-ok (strategy_field py action r.code) _ h1 in
      let (template, _, h3) = >>=-eq-ok (template_field py action r.code) _ h2 in
      let (text, _, h4) = >>=-eq-ok (render py template ctx) _ h3 in
      let (low, _, h5) = >>=-eq-ok (cost_field py "cost_min_mad" action) _ h4 in
      let (high, _, h6) = >>=-eq-ok (cost_field py "cost_max_mad" action) _ h5 in
      rw p (ground arith)
