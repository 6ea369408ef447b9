-- ===== src/Pci/Levels.antt =====
-- The score and the two levels of a result.
use road_vision_ai.Base.{
  ℕ, zero, suc, ◌*◌, ◌≤◌, ◌≡◌, refl, inl, inr, true, false, Bool-cases, List, [], ◌∷◌, ok,
  >>=-eq-ok, arith,
}
use road_vision_ai.Float.{Float, IsOrdered, clamp_bounds, py_min, py_max}
use road_vision_ai.Enums.{SeverityLevel, PriorityLevel}
use road_vision_ai.Pci.{
  DetectionInput, TypeDeduction, PciResult, classify_severity, classify_priority, score_of,
  result_of, group_by_type, perfect, deduct_from, by_code, compute_groups, compute_pci,
}

-- The severity that belongs to a priority in the table of thresholds.
unfoldable pub severity_of : PriorityLevel → SeverityLevel
severity_of PriorityLevel.p4_excellent = SeverityLevel.faible
severity_of PriorityLevel.p3_surveillance = SeverityLevel.faible
severity_of PriorityLevel.p2_planifie = SeverityLevel.modere
severity_of PriorityLevel.p1_urgent = SeverityLevel.grave
severity_of PriorityLevel.p0_critique = SeverityLevel.critique

-- 0 is the most urgent.
unfoldable pub priority_rank : PriorityLevel → ℕ
priority_rank PriorityLevel.p0_critique = 0
priority_rank PriorityLevel.p1_urgent = 1
priority_rank PriorityLevel.p2_planifie = 2
priority_rank PriorityLevel.p3_surveillance = 3
priority_rank PriorityLevel.p4_excellent = 4

-- The scores of a priority, in hundredths.
abbrev pub IsPlaced : ℕ → PriorityLevel → Type 0
IsPlaced c PriorityLevel.p4_excellent = 8500 ≤ c
IsPlaced c PriorityLevel.p3_surveillance = (7000 ≤ c) × (c ≤ 8500)
IsPlaced c PriorityLevel.p2_planifie = (5500 ≤ c) × (c ≤ 7000)
IsPlaced c PriorityLevel.p1_urgent = (4000 ≤ c) × (c ≤ 5500)
IsPlaced c PriorityLevel.p0_critique = c ≤ 4000

module _ {W : Type 0} ⦃f : Float W⦄ where
  -- The levels that `compute_pci` gives to a perfect section and to any other are those of one
  -- score, at most 100.00.
  abbrev IsScored : PciResult W → Type 0
  IsScored r =
      (r.score ≤ 10000)
      × (r.severity_level ≡ severity_of r.priority_level)
      × IsPlaced r.score r.priority_level

  module _ (laws : IsOrdered W) where
    severity_of-classify : (x : W) → classify_severity x ≡ severity_of (classify_priority x)
    unfolding classify_severity classify_priority severity_of
    severity_of-classify x =
        ground (arith, laws.le_trans (f.lit 70 0) (f.lit 85 0) x, laws.lit_mono 70 85 0)

    -- A higher score never has a more urgent priority.
    pub classify_priority_mono :
        (x y : W)
        → f.le x y ≡ true
        → priority_rank (classify_priority x) ≤ priority_rank (classify_priority y)
    unfolding classify_priority priority_rank
    classify_priority_mono x y h = ground (
      arith,
      laws.le_trans (f.lit 85 0) x y,
      laws.le_trans (f.lit 70 0) x y,
      laws.le_trans (f.lit 55 0) x y,
      laws.le_trans (f.lit 40 0) x y,
      laws.le_trans (f.lit 70 0) (f.lit 85 0) y,
      laws.lit_mono 70 85 0,
    )

    -- The score of a total is a number, and lies between 0 and 100.
    score_of_bounds :
        (total : W)
        → (f.le (f.lit 0 0) (score_of total) ≡ true)
          × (f.le (score_of total) (f.lit 100 0) ≡ true)
          × (f.le (score_of total) (score_of total) ≡ true)
    unfolding score_of py_max
    score_of_bounds total =
        let bounds = clamp_bounds laws 100 (f.sub (f.lit 100 0) total) in
        (
          bounds.0,
          bounds.1,
          ground (
            arith,
            laws.lt-number (f.lit 0 0) (py_min (f.lit 100 0) (f.sub (f.lit 100 0) total)),
            laws.lit_mono 0 0 0,
          ),
        )

    -- A score that does not reach a threshold is rounded to at most the threshold, and one that does
    -- to at least the threshold.
    cents_below :
        (x : W) (n : ℕ)
        → n ≤ 100
        → f.le x x ≡ true
        → f.le (f.lit n 0) x ≡ false
        → f.cents x ≤ 100 * n
    cents_below x n small number h =
        let numeral = laws.lit_mono n n 0 (omega arith) in
        let not_lt : f.lt (f.lit n 0) x ≡ false = ground (arith, laws.lt_le (f.lit n 0) x) in
        omega (
          arith,
          laws.cents_mono _ _ (laws.not_lt_le _ _ numeral number not_lt)
              (laws.lit_mono n 100 0 small),
          laws.cents-lit n small,
        )

    cents_above :
        (x : W) (n : ℕ)
        → n ≤ 100
        → f.le x (f.lit 100 0) ≡ true
        → f.le (f.lit n 0) x ≡ true
        → 100 * n ≤ f.cents x
    cents_above x n small top h = omega (arith, laws.cents_mono _ _ h top, laws.cents-lit n small)

    placed :
        (x : W)
        → f.le x (f.lit 100 0) ≡ true
        → f.le x x ≡ true
        → IsPlaced (f.cents x) (classify_priority x)
    unfolding classify_priority
    placed x top number =
        let above =
          λ (n : ℕ) (h : n ≤ 100) (k : f.le (f.lit n 0) x ≡ true). cents_above x n h top k in
        let below =
          λ (n : ℕ) (h : n ≤ 100) (k : f.le (f.lit n 0) x ≡ false). cents_below x n h number k in
        elim (Bool-cases (f.le (f.lit 85 0) x)) [
          | inl a ↦ rw a (above 85 (omega arith) a)
          | inr a ↦ elim (Bool-cases (f.le (f.lit 70 0) x)) [
            | inl b ↦ rw (a, b) (above 70 (omega arith) b, below 85 (omega arith) a)
            | inr b ↦ elim (Bool-cases (f.le (f.lit 55 0) x)) [
              | inl c ↦ rw (a, b, c) (above 55 (omega arith) c, below 70 (omega arith) b)
              | inr c ↦ elim (Bool-cases (f.le (f.lit 40 0) x)) [
                | inl d ↦ rw (a, b, c, d) (above 40 (omega arith) d, below 55 (omega arith) c)
                | inr d ↦ rw (a, b, c, d) (below 40 (omega arith) d)
              ]
            ]
          ]
        ]

    result_of-IsScored :
        (total : W) (rows : List (TypeDeduction W)) → IsScored (result_of total rows)
    unfolding result_of
    result_of-IsScored total rows =
        let (_, top, number) = score_of_bounds total in
        (
          omega (
            arith,
            laws.cents_mono _ _ top (laws.lit_mono 100 100 0 (omega arith)),
            laws.cents-lit 100 (omega arith),
          ),
          severity_of-classify (score_of total),
          placed (score_of total) top number,
        )

    compute_groups-IsScored :
        (dets : List (DetectionInput W)) (n : ℕ) {r : PciResult W}
        → compute_groups dets n ≡ ok r
        → IsScored r
    unfolding compute_groups
    compute_groups-IsScored dets n {r} h =
        let (g, _, k) = >>=-eq-ok (group_by_type dets) _ h in
        let ((total, rows), _, e) = >>=-eq-ok (deduct_from n (f.lit 0 0) (by_code g)) _ k in
        let same : result_of total rows ≡ r = cc in rw (← same) (result_of-IsScored total rows)

    -- Every result of `compute_pci` has a score of at most 100.00, a priority whose range of scores
    -- contains it (from 85.00 P4_EXCELLENT, 70.00 P3_SURVEILLANCE, 55.00 P2_PLANIFIE, 40.00 P1_URGENT,
    -- below P0_CRITIQUE), both ends included, as a score that is rounded up to a threshold keeps the
    -- priority below it; and the severity that belongs to the priority (P4 and P3 FAIBLE, P2 MODERE,
    -- P1 GRAVE, P0 CRITIQUE).
    pub compute_pci-IsScored :
        (dets : List (DetectionInput W)) (n : ℕ) {r : PciResult W}
        → compute_pci dets n ≡ ok r
        → (r.score ≤ 10000)
          × (r.severity_level ≡ severity_of r.priority_level)
          × IsPlaced r.score r.priority_level
    unfolding compute_pci severity_of
    compute_pci-IsScored dets zero h = cc
    compute_pci-IsScored [] (suc n) {r} h =
        let same : perfect ≡ r = cc in rw (← same) (omega arith, refl, omega arith)
    compute_pci-IsScored (d ∷ ds) (suc n) h = compute_groups-IsScored (d ∷ ds) (suc n) h
