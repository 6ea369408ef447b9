-- ===== src/Rules.antt =====
-- The rule engine (backend/app/ai/engines/rule_engine.py). Log lines are not modelled.
pub mod FirstMatch
pub mod Order
use road_vision_ai.Base.{
  ℕ, zero, suc, ◌-◌, ◌≡◌, Bool, true, false, not, ◌&&◌, ◌||◌, String, List, [], ◌∷◌, ◌++◌, Option,
  none, some, Result, ok, err, ◌>>=◌, rule_format_error, attribute_error, str_eq, length, ltb, ◌==◌,
  select, if◌then◌else◌,
}
use road_vision_ai.Base.Sort.{sorted}
use road_vision_ai.Text.{Text, codes, text_lt, is_prefix}
use road_vision_ai.Float.{Float}
use road_vision_ai.Enums.{
  SeverityLevel, PriorityLevel, MaintenanceStrategy, severity_value, priority_value, strategy_of,
}
use road_vision_ai.Json.{
  Json, FormatArg, Fields, Python, ℤ, get_field, contains, float_of, int_of, count_lt,
}

pub record AnalysisContext (W : Type 0) : Type 0 where
  pub pci : W
  pub severity_level : SeverityLevel
  pub priority_level : PriorityLevel
  pub dominant_damage_type : Option String
  pub total_detections : ℕ

-- `action.get` gives None, here `Json.null`, for a field that is missing.
pub record RuleDecision (W D : Type 0) : Type 0 where
  pub strategy : MaintenanceStrategy
  pub rule_code : String
  pub rule_name : String
  pub justification : Text
  pub estimated_days : Json W
  pub deadline_days : Json W
  pub cost_min_mad : Option D
  pub cost_max_mad : Option D

-- The columns of a row of `rules` that the engine reads.
pub record Rule : Type 0 where
  pub code : String
  pub name : String
  pub condition : String
  pub action : String
  pub priority : ℕ
  pub is_active : Bool

abbrev pub fallback_template : String
fallback_template =
    "Aucune règle active ne correspond au contexte (PCI {pci}, type dominant {dominant}) : mise sous surveillance par défaut — décision conservatrice documentée, à réviser par l'ingénieur."

-- `text.replace(old, new)`: the occurrences from the left; `skip` characters are part of the last.
replace_from : Text → Text → ℕ → Text → Text
replace_from old new skip [] = []
replace_from old new (suc skip) (c ∷ s) = replace_from old new skip s
replace_from old new zero (c ∷ s) =
    let hit = is_prefix old (c ∷ s) in
    (if hit then new else c ∷ []) ++ replace_from old new (if hit then length old - 1 else 0) s

unfoldable pub replace : Text → Text → Text → Text
unfolding replace_from is_prefix
replace old new = replace_from old new 0

-- The sort key `(r.priority, r.code)`.
unfoldable pub key_lt : Rule → Rule → Bool
key_lt r s =
    if ltb r.priority s.priority
    then true
    else if ltb s.priority r.priority
    then false
    else text_lt (codes r.code) (codes s.code)

-- `a and b` where both may raise; the second is not evaluated after a false.
infixr 35 ◌and_then◌
abbrev pub ◌and_then◌ : Result Bool → Result Bool → Result Bool
m and_then k = m >>= λ b. if b then k else ok false

-- A test on a field that holds if the field is absent.
abbrev pub if_present {ℓ} : {A : Type ℓ} → Option A → (A → Result Bool) → Result Bool
if_present none k = ok true
if_present (some v) k = k v

module _ {W D : Type 0} ⦃f : Float W⦄ (py : Python W D) where
  -- `_parse`: JSON that is an object.
  unfoldable pub parse : String → String → Result (Fields W)
  parse raw rule_code = elim (py.loads raw) [
    | some (Json.obj fields) ↦ ok fields
    | _ ↦ err (rule_format_error rule_code)
  ]

  -- `_matches`, test by test
  unfoldable pub matches : Fields W → AnalysisContext W → Result Bool
  matches cond ctx =
      if_present (get_field "pci_min" cond) (λ v. float_of py v >>= λ x. ok (f.le x ctx.pci))
      and_then if_present (get_field "pci_max" cond)
          (λ v. float_of py v >>= λ x. ok (f.lt ctx.pci x))
      and_then if_present (get_field "severity_in" cond)
          (λ v. contains v (severity_value ctx.severity_level))
      and_then if_present (get_field "priority_in" cond)
          (λ v. contains v (priority_value ctx.priority_level))
      and_then if_present (get_field "dominant_type_in" cond)
          (λ v. elim ctx.dominant_damage_type [ none ↦ ok false | some t ↦ contains v t ])
      and_then if_present (get_field "min_detections" cond)
          (λ v. int_of py v >>= λ n. ok (not (count_lt ctx.total_detections n)))

  -- `x or default` on a text that may be None: the empty text is false too.
  unfoldable pub text_or : Option String → String → String
  text_or none default = default
  text_or (some s) default = if str_eq s "" then default else s

  -- `_render`
  unfoldable pub render : Text → AnalysisContext W → Result Text
  unfolding text_or
  render template ctx = py.format template (
      ("pci", FormatArg.text (py.format_2f ctx.pci))
      ∷ ("dominant", FormatArg.text (codes (text_or ctx.dominant_damage_type "aucun")))
      ∷ ("severity", FormatArg.text (codes (severity_value ctx.severity_level)))
      ∷ ("priority", FormatArg.text (codes (priority_value ctx.priority_level)))
      ∷ ("detections", FormatArg.count ctx.total_detections)
      ∷ [])

  -- `MaintenanceStrategy(action["strategy"])`; its KeyError and ValueError become RuleFormatError.
  unfoldable pub strategy_field : Fields W → String → Result MaintenanceStrategy
  strategy_field action rule_code = elim (get_field "strategy" action) [
    | some (Json.str s) ↦ elim (strategy_of s) [
      | some x ↦ ok x
      | none ↦ err (rule_format_error rule_code)
    ]
    | _ ↦ err (rule_format_error rule_code)
  ]

  -- `action.get("justification", default).replace("{code}", code)`
  unfoldable pub template_field : Fields W → String → Result Text
  template_field action rule_code = elim (get_field "justification" action) [
    | none ↦ ok (replace (codes "{code}") (codes rule_code) (codes "Règle {code} appliquée."))
    | some (Json.str s) ↦ ok (replace (codes "{code}") (codes rule_code) (codes s))
    | some _ ↦ err attribute_error
  ]

  -- `action.get(key)`
  unfoldable pub value_field : String → Fields W → Json W
  value_field key action = elim (get_field key action) [ none ↦ Json.null | some v ↦ v ]

  -- `Decimal(str(action[key])) if key in action else None`
  unfoldable pub cost_field : String → Fields W → Result (Option D)
  cost_field key action = elim (get_field key action) [
    | none ↦ ok none
    | some v ↦ (py.decimal v >>= λ d. ok (some d))
  ]

  -- The decision of a rule whose condition holds.
  unfoldable pub decide : Rule → AnalysisContext W → Result (RuleDecision W D)
  decide rule ctx = do
    action ← parse rule.action rule.code
    strategy ← strategy_field action rule.code
    template ← template_field action rule.code
    justification ← render template ctx
    cost_min ← cost_field "cost_min_mad" action
    cost_max ← cost_field "cost_max_mad" action
    ok (record {
      strategy = strategy;
      rule_code = rule.code;
      rule_name = rule.name;
      justification = justification;
      estimated_days = value_field "estimated_days" action;
      deadline_days = value_field "deadline_days" action;
      cost_min_mad = cost_min;
      cost_max_mad = cost_max;
    })

  unfoldable pub fallback : AnalysisContext W → Result (RuleDecision W D)
  fallback ctx = do
    justification ← render (codes fallback_template) ctx
    ok (record {
      strategy = MaintenanceStrategy.surveillance;
      rule_code = "FALLBACK";
      rule_name = "Surveillance par défaut";
      justification = justification;
      estimated_days = Json.null;
      deadline_days = Json.null;
      cost_min_mad = none;
      cost_max_mad = none;
    })

  -- The condition of a rule on a context: parsed, then tested.
  unfoldable pub holds : Rule → AnalysisContext W → Result Bool
  holds rule ctx = do cond ← parse rule.condition rule.code; matches cond ctx

  -- The loop over the ordered rules.
  unfoldable pub first_match : List Rule → AnalysisContext W → Result (RuleDecision W D)
  first_match [] ctx = fallback ctx
  first_match (rule ∷ rules) ctx =
      let rest = first_match rules ctx in
      holds rule ctx >>= λ m. if m then decide rule ctx else rest

  unfoldable pub evaluate : List Rule → AnalysisContext W → Result (RuleDecision W D)
  evaluate rules ctx = first_match (sorted key_lt (select (λ (r : Rule). r.is_active) rules)) ctx
