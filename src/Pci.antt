-- ===== src/Pci.antt =====
-- The pavement condition engine (backend/app/ai/engines/pci_engine.py).
-- Damage codes and image ids are texts. A `dict` is an association list in insertion order.
pub mod Groups
pub mod Totality
pub mod Levels
use road_vision_ai.Base.{
  ℕ, zero, suc, ◌+◌, ◌≡◌, Bool, true, false, not, ◌&&◌, String, List, [], ◌∷◌, ◌++◌, map, Result,
  ok, err, ◌>>=◌, value_error, arith, str_eq, length, if◌then◌else◌, ltb,
}
use road_vision_ai.Base.Sort.{sorted}
use road_vision_ai.Text.{codes, text_lt}
use road_vision_ai.Float.{Float, py_min, py_max, py_div}
use road_vision_ai.Enums.{SeverityLevel, PriorityLevel}

pub record DetectionInput (W : Type 0) : Type 0 where
  pub damage_code : String
  pub pci_weight : W
  pub severity : W
  pub rel_area : W
  pub image_id : String

pub record TypeDeduction (W : Type 0) : Type 0 where
  pub damage_code : String
  pub pci_weight : W
  pub mean_severity : W
  pub density : W
  pub deduction : W

-- The score is in hundredths.
pub record PciResult (W : Type 0) : Type 0 where
  pub score : ℕ
  pub severity_level : SeverityLevel
  pub priority_level : PriorityLevel
  pub deductions : List (TypeDeduction W)

-- `d.setdefault(key, []).append(x)`
unfoldable pub append_to {ℓ} :
    {A : Type ℓ} → String → A → List (String × List A) → List (String × List A)
append_to k x [] = (k, x ∷ []) ∷ []
append_to k x ((j, xs) ∷ d) =
    if str_eq j k then (j, xs ++ x ∷ []) ∷ d else (j, xs) ∷ append_to k x d

module _ {W : Type 0} ⦃f : Float W⦄ where
  unfoldable pub classify_severity : W → SeverityLevel
  classify_severity pci =
      if f.le (f.lit 70 0) pci
      then SeverityLevel.faible
      else if f.le (f.lit 55 0) pci
      then SeverityLevel.modere
      else if f.le (f.lit 40 0) pci
      then SeverityLevel.grave
      else SeverityLevel.critique

  unfoldable pub classify_priority : W → PriorityLevel
  classify_priority pci =
      if f.le (f.lit 85 0) pci
      then PriorityLevel.p4_excellent
      else if f.le (f.lit 70 0) pci
      then PriorityLevel.p3_surveillance
      else if f.le (f.lit 55 0) pci
      then PriorityLevel.p2_planifie
      else if f.le (f.lit 40 0) pci
      then PriorityLevel.p1_urgent
      else PriorityLevel.p0_critique

  -- `0 <= x <= 1`
  unfoldable pub in_unit : W → Bool
  in_unit x = f.le (f.lit 0 0) x && f.le x (f.lit 1 0)

  -- The grouping loop, which also checks each detection.
  pub group_from :
      List (String × List (DetectionInput W))
      → List (DetectionInput W)
      → Result (List (String × List (DetectionInput W)))
  group_from by_type [] = ok by_type
  group_from by_type (det ∷ dets) =
      let rest = group_from (append_to det.damage_code det by_type) dets in
      if in_unit det.severity && in_unit det.rel_area then rest else err value_error

  unfoldable pub group_by_type :
      List (DetectionInput W) → Result (List (String × List (DetectionInput W)))
  unfolding group_from append_to in_unit
  group_by_type = group_from []

  -- `per_image[id] = min(1.0, per_image.get(id, 0.0) + rel_area)`
  unfoldable pub add_area : String → W → List (String × W) → List (String × W)
  add_area k a [] = (k, py_min (f.lit 1 0) (f.add (f.lit 0 0) a)) ∷ []
  add_area k a ((j, v) ∷ d) =
      if str_eq j k then (j, py_min (f.lit 1 0) (f.add v a)) ∷ d else (j, v) ∷ add_area k a d

  pub areas_from : List (String × W) → List (DetectionInput W) → List (String × W)
  areas_from per_image [] = per_image
  areas_from per_image (det ∷ dets) = areas_from (add_area det.image_id det.rel_area per_image) dets

  unfoldable pub per_image_areas : List (DetectionInput W) → List (String × W)
  unfolding areas_from add_area
  per_image_areas = areas_from []

  -- The mean severity, weighted by area.
  unfoldable pub mean_severity_of : List (DetectionInput W) → Result W
  mean_severity_of dets =
      let weight_sum = f.sum (map (λ (d : DetectionInput W). d.rel_area) dets) in
      if f.lt (f.lit 0 0) weight_sum
      then py_div (f.sum (map (λ (d : DetectionInput W). f.mul d.severity d.rel_area) dets))
          weight_sum
      else py_div (f.sum (map (λ (d : DetectionInput W). d.severity) dets)) (f.lit (length dets) 0)

  -- `dets[0].pci_weight`; a group is never empty.
  unfoldable pub first_weight : List (DetectionInput W) → W
  first_weight [] = f.lit 0 0
  first_weight (d ∷ dets) = d.pci_weight

  -- One round of the loop over the types: the exact deduction and the row of the breakdown.
  unfoldable pub type_deduction :
      ℕ → String × List (DetectionInput W) → Result (W × TypeDeduction W)
  type_deduction total_images (code, dets) = do
    density ←
        py_div (f.sum (map (λ (e : String × W). e.1) (per_image_areas dets))) (f.lit total_images 0)
    mean_severity ← mean_severity_of dets
    let pci_weight = first_weight dets
    let deduction = f.mul (f.mul (f.mul pci_weight mean_severity) density) (f.lit 100 0)
    ok (
      deduction,
      record {
        damage_code = code;
        pci_weight = f.round pci_weight 4;
        mean_severity = f.round mean_severity 4;
        density = f.round density 4;
        deduction = f.round deduction 4;
      },
    )

  -- The loop: the total of the deductions so far, and the rows.
  pub deduct_from :
      ℕ → W → List (String × List (DetectionInput W)) → Result (W × List (TypeDeduction W))
  deduct_from n total [] = ok (total, [])
  deduct_from n total (g ∷ groups) = type_deduction n g >>= λ (d, row).
      deduct_from n (f.add total d) groups >>= λ (total', rows). ok (total', row ∷ rows)

  -- `sorted(by_type.items())`: the codes differ, so the order is that of the codes.
  unfoldable pub by_code :
      List (String × List (DetectionInput W)) → List (String × List (DetectionInput W))
  by_code = sorted (λ g h. text_lt (codes g.0) (codes h.0))

  unfoldable pub score_of : W → W
  score_of total = py_max (f.lit 0 0) (py_min (f.lit 100 0) (f.sub (f.lit 100 0) total))

  unfoldable pub result_of : W → List (TypeDeduction W) → PciResult W
  result_of total rows =
      let score = score_of total in
      record {
        score = f.cents score;
        severity_level = classify_severity score;
        priority_level = classify_priority score;
        deductions = rows;
      }

  abbrev pub perfect : PciResult W
  perfect = record {
    score = 10000;
    severity_level = SeverityLevel.faible;
    priority_level = PriorityLevel.p4_excellent;
    deductions = [];
  }

  -- What follows the two early returns.
  unfoldable pub compute_groups : List (DetectionInput W) → ℕ → Result (PciResult W)
  unfolding deduct_from
  compute_groups dets n = do
    by_type ← group_by_type dets
    (total, rows) ← deduct_from n (f.lit 0 0) (by_code by_type)
    ok (result_of total rows)

  unfoldable pub compute_pci : List (DetectionInput W) → ℕ → Result (PciResult W)
  compute_pci dets zero = err value_error
  compute_pci [] (suc n) = ok perfect
  compute_pci (d ∷ ds) (suc n) = compute_groups (d ∷ ds) (suc n)
