-- ===== src/Pci/Groups.antt =====
-- The grouping by damage type (`by_type` in `compute_pci`).
use road_vision_ai.Base.{
  ◌≡◌, refl, ◌∙◌, ◌≢◌, inl, inr, Bool, true, false, ◌&&◌, String, List, [], ◌∷◌, ◌++◌, ok, err,
  value_error, arith, str_eq, eq_iff, select, all, Bool-cases, if◌then◌else◌,
}
use mathlib.Core.List.{append-nil, append_assoc}
use road_vision_ai.Base.Sort.{sorted-IsOrdered, IsOrdered}
use road_vision_ai.Text.{codes, text_lt, text_lt_asym, text_lt_weak}
use road_vision_ai.Float.{Float}
use road_vision_ai.Pci.{DetectionInput, append_to, in_unit, group_from, group_by_type, by_code}

-- The group of a code, empty if there is none.
unfoldable pub group_of {ℓ} : {A : Type ℓ} → String → List (String × List A) → List A
group_of k [] = []
group_of k ((j, xs) ∷ d) = if str_eq j k then xs else group_of k d

-- A code has a group.
unfoldable pub has_code {ℓ} : {A : Type ℓ} → String → List (String × List A) → Bool
has_code k [] = false
has_code k ((j, xs) ∷ d) = if str_eq j k then true else has_code k d

-- Every code has one group at most, and no group is empty.
abbrev pub IsGrouped {ℓ} : {A : Type ℓ} → List (String × List A) → Type ℓ
IsGrouped [] = Unit
IsGrouped ((j, xs) ∷ d) = (has_code j d ≡ false) × (xs ≢ []) × IsGrouped d

group_of-append_to {ℓ} :
    {A : Type ℓ} (k j : String) (x : A) (d : List (String × List A))
    → group_of k (append_to j x d) ≡ (if str_eq j k then group_of k d ++ x ∷ [] else group_of k d)
unfolding group_of append_to
group_of-append_to k j x [] = ground arith
group_of-append_to k j x ((i, xs) ∷ d) =
    ground (arith, group_of-append_to k j x d, eq_iff i j, eq_iff i k, eq_iff j k)

has_code-append_to {ℓ} :
    {A : Type ℓ} (k j : String) (x : A) (d : List (String × List A))
    → has_code k (append_to j x d) ≡ (if str_eq j k then true else has_code k d)
unfolding has_code append_to
has_code-append_to k j x [] = ground arith
has_code-append_to k j x ((i, xs) ∷ d) =
    ground (arith, has_code-append_to k j x d, eq_iff i j, eq_iff i k, eq_iff j k)

append-ne-nil {ℓ} : {A : Type ℓ} (xs : List A) (x : A) → (xs ++ x ∷ []) ≢ []
append-ne-nil [] x = λ e. cc
append-ne-nil (y ∷ xs) x = λ e. cc

append_to-IsGrouped {ℓ} :
    {A : Type ℓ} (j : String) (x : A) (d : List (String × List A))
    → IsGrouped d
    → IsGrouped (append_to j x d)
unfolding append_to has_code
append_to-IsGrouped j x [] h = (refl, (λ e. cc), tt)
append_to-IsGrouped j x ((i, xs) ∷ d) h = elim (Bool-cases (str_eq i j)) [
  | inl e ↦ rw e (h.0, append-ne-nil xs x, h.2)
  | inr e ↦ rw e (
    ground (arith, has_code-append_to i j x d, eq_iff i j, eq_iff j i, h.0),
    h.1,
    append_to-IsGrouped j x d h.2,
  )
]

module _ {W : Type 0} ⦃f : Float W⦄ where
  -- The check of the grouping loop.
  unfoldable pub is_valid : DetectionInput W → Bool
  is_valid d = in_unit d.severity && in_unit d.rel_area

  -- The detections of one code, in the order of the input.
  abbrev pub of_code : String → List (DetectionInput W) → List (DetectionInput W)
  of_code k = select (λ d. str_eq d.damage_code k)

  regroup :
      (k : String) (x : DetectionInput W) (d : List (String × List (DetectionInput W)))
      (xs : List (DetectionInput W))
      → group_of k (append_to x.damage_code x d) ++ of_code k xs
        ≡ group_of k d ++ of_code k (x ∷ xs)
  regroup k x d xs = elim (Bool-cases (str_eq x.damage_code k)) [
    | inl e ↦
        rw (group_of-append_to k x.damage_code x d, e)
          (append_assoc (group_of k d) (x ∷ []) (of_code k xs))
    | inr e ↦ rw (group_of-append_to k x.damage_code x d, e)
  ]

  module _ (k : String) where
    group_of-group_from :
        (d : List (String × List (DetectionInput W))) (dets : List (DetectionInput W))
        {g : List (String × List (DetectionInput W))}
        → group_from d dets ≡ ok g
        → group_of k g ≡ group_of k d ++ of_code k dets
    unfolding group_from
    group_of-group_from d [] h = ground (arith, append-nil (group_of k d))
    group_of-group_from d (x ∷ xs) {g} h =
        elim (Bool-cases (in_unit x.severity && in_unit x.rel_area)) [
          | inl e ↦
              group_of-group_from (append_to x.damage_code x d) xs {g = g} (rw e at h)
              ∙ regroup k x d xs
          | inr e ↦ cc (rw e at h)
        ]

  pub group_from-IsGrouped :
      (d : List (String × List (DetectionInput W))) (dets : List (DetectionInput W))
      {g : List (String × List (DetectionInput W))}
      → group_from d dets ≡ ok g
      → IsGrouped d
      → IsGrouped g
  unfolding group_from
  group_from-IsGrouped d [] h v = ground arith
  group_from-IsGrouped d (x ∷ xs) {g} h v = ground (
    arith,
    group_from-IsGrouped (append_to x.damage_code x d) xs {g = g},
    append_to-IsGrouped x.damage_code x d v,
  )

  -- If the grouping succeeds, the group of each code holds exactly the detections of that code,
  -- in the order of the input; each code has one group at most, and no group is empty.
  pub group_by_type_lem :
      (dets : List (DetectionInput W)) {g : List (String × List (DetectionInput W))}
      → group_by_type dets ≡ ok g
      → ((k : String) → group_of k g ≡ of_code k dets) × IsGrouped g
  unfolding group_by_type group_of
  group_by_type_lem dets h =
      ((λ k. group_of-group_from k [] dets h), group_from-IsGrouped [] dets h tt)

  -- The loop succeeds if all detections pass its check, else it raises ValueError.
  pub group_from_check :
      (d : List (String × List (DetectionInput W))) (dets : List (DetectionInput W))
      → (all is_valid dets ≡ true
          → (g : List (String × List (DetectionInput W))) × (group_from d dets ≡ ok g))
        × (all is_valid dets ≡ false → group_from d dets ≡ err value_error)
  unfolding group_from is_valid
  group_from_check d [] = ((λ h. (d, refl)), λ h. cc)
  group_from_check d (x ∷ xs) =
      let ih = group_from_check (append_to x.damage_code x d) xs in
      elim (Bool-cases (in_unit x.severity && in_unit x.rel_area)) [
        | inl e ↦ rw e ih
        | inr e ↦ rw e ((λ h. cc), λ h. refl)
      ]

  -- The loop over the types goes by code.
  pub by_code-IsOrdered :
      (g : List (String × List (DetectionInput W)))
      → IsOrdered (λ x y. text_lt (codes x.0) (codes y.0)) (by_code g)
  unfolding by_code
  by_code-IsOrdered =
      sorted-IsOrdered (λ x y. text_lt (codes x.0) (codes y.0))
        (λ x y. text_lt_asym (codes x.0) (codes y.0))
        (λ x y z. text_lt_weak (codes x.0) (codes y.0) (codes z.0))
