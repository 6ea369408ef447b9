-- ===== src/Pci/Totality.antt =====
-- About the calls of `compute_pci` that succeed and those that raise.
use road_vision_ai.Base.{
  ℕ, zero, suc, ◌≡◌, refl, ◌≢◌, inl, inr, true, ◌&&◌, String, List, [], ◌∷◌, map, value_error,
  Returns, exn_of, none, some, if◌then◌else◌, arith, length, all, All, Bool-cases, leb,
}
use road_vision_ai.Base.Sort.{sorted-All}
use road_vision_ai.Text.{codes, text_lt}
use road_vision_ai.Float.{Float, IsOrdered, py_div}
use road_vision_ai.Pci.{
  DetectionInput, per_image_areas, mean_severity_of, type_deduction, deduct_from, by_code,
  group_by_type, compute_groups, compute_pci,
}
use road_vision_ai.Pci.Groups.{IsGrouped, is_valid, group_from_check, group_by_type_lem}

module _ {W : Type 0} ⦃f : Float W⦄ where
  IsGrouped-nonempty :
      (g : List (String × List (DetectionInput W))) → IsGrouped g → All (λ e. e.1 ≢ []) g
  IsGrouped-nonempty [] h = tt
  IsGrouped-nonempty (e ∷ g) h = (h.1, IsGrouped-nonempty g h.2)

  module _ (laws : IsOrdered W) where
    py_div_pos : (a b : W) → f.lt (f.lit 0 0) b ≡ true → Returns (py_div a b)
    unfolding py_div
    py_div_pos a b h = (f.div a b, rw (laws.lt-ne (f.lit 0 0) b h))

    mean_severity-Returns :
        (dets : List (DetectionInput W)) → dets ≢ [] → Returns (mean_severity_of dets)
    unfolding mean_severity_of
    mean_severity-Returns [] h = absurd (h refl)
    mean_severity-Returns (d ∷ ds) h =
        let weight_sum = f.sum (map (λ (x : DetectionInput W). x.rel_area) (d ∷ ds)) in
        elim (Bool-cases (f.lt (f.lit 0 0) weight_sum)) [
          | inl e ↦ rw e (py_div_pos _ weight_sum e)
          | inr e ↦ rw e (py_div_pos _ _ (laws.lit_pos (length ds)))
        ]

    type_deduction-Returns :
        (n : ℕ) (g : String × List (DetectionInput W))
        → g.1 ≢ []
        → Returns (type_deduction (suc n) g)
    unfolding type_deduction
    type_deduction-Returns n (code, dets) h =
        let areas = f.sum (map (λ (e : String × W). e.1) (per_image_areas dets)) in
        let (density, p) = py_div_pos areas (f.lit (suc n) 0) (laws.lit_pos n) in
        let (mean, q) = mean_severity-Returns dets h in rw (p, q) (_, refl)

    deduct_from-Returns :
        (n : ℕ) (total : W) (gs : List (String × List (DetectionInput W)))
        → All (λ e. e.1 ≢ []) gs
        → Returns (deduct_from (suc n) total gs)
    unfolding deduct_from
    deduct_from-Returns n total [] h = (_, refl)
    deduct_from-Returns n total (g ∷ gs) h =
        let (row, p) = type_deduction-Returns n g h.0 in
        let (rest, q) = deduct_from-Returns n (f.add total row.0) gs h.1 in rw (p, q) (_, refl)

    compute_groups-Returns :
        (dets : List (DetectionInput W)) (n : ℕ)
        → all is_valid dets ≡ true
        → Returns (compute_groups dets (suc n))
    unfolding compute_groups group_by_type by_code
    compute_groups-Returns dets n h =
        let (g, p) = (group_from_check [] dets).0 h in
        let nonempty = IsGrouped-nonempty g (group_by_type_lem dets p).1 in
        let (rest, q) =
          deduct_from-Returns n (f.lit 0 0) (by_code g)
            (sorted-All (λ x y. text_lt (codes x.0) (codes y.0)) (λ e. e.1 ≢ []) g nonempty) in
        rw (p, q) (_, refl)

    -- `compute_pci` returns if there is an image and every severity and area lies in [0, 1]; in every
    -- other case it raises ValueError. It never divides by zero.
    pub exn_of-compute_pci :
        (dets : List (DetectionInput W)) (n : ℕ)
        → exn_of (compute_pci dets n)
          ≡ (if leb 1 n && all is_valid dets then none else some value_error)
    unfolding compute_pci compute_groups group_by_type
    exn_of-compute_pci dets zero = refl
    exn_of-compute_pci [] (suc n) = ground arith
    exn_of-compute_pci (d ∷ ds) (suc n) = elim (Bool-cases (all is_valid (d ∷ ds))) [
      | inl e ↦ let (r, p) = compute_groups-Returns (d ∷ ds) n e in ground (arith, p, e)
      | inr e ↦ let p = (group_from_check [] (d ∷ ds)).1 e in ground (arith, p, e)
    ]
