-- ===== src/Detection/Bounds.antt =====
-- About the clamps of backend/app/ai/detection/detector.py, whatever the
-- model returns.
use road_vision_ai.Base.{ℕ, ◌≡◌, inl, inr, Bool-cases, true, String, List, [], ◌∷◌, All, arith}
use road_vision_ai.Float.{Float, IsOrdered, py_min, py_max}
use road_vision_ai.Detection.{
  Detection, Box, provisional_severity, corner, extent, detection_of, detect,
}

module _ {W : Type 0} ⦃f : Float W⦄ where
  -- The box stands in the image's quadrant, has a size, and the score is at most 1.
  abbrev pub IsInBounds : Detection W → Type 0
  IsInBounds d =
      (f.le (f.lit 0 0) d.bbox_x ≡ true)
      × (f.le (f.lit 0 0) d.bbox_y ≡ true)
      × (f.le (f.lit 1 4) d.bbox_width ≡ true)
      × (f.le d.bbox_width (f.lit 1 0) ≡ true)
      × (f.le (f.lit 1 4) d.bbox_height ≡ true)
      × (f.le d.bbox_height (f.lit 1 0) ≡ true)
      × (f.le d.severity (f.lit 1 0) ≡ true)

  module _ (laws : IsOrdered W) where
    -- Rounding to four places keeps a bound that has at most four.
    round_low : (n : ℕ) (x : W) → f.le (f.lit n 4) x ≡ true → f.le (f.lit n 4) (f.round x 4) ≡ true
    round_low n x h = rw (← laws.round-lit n) (laws.round_mono (f.lit n 4) x h)

    round_high : (n : ℕ) (x : W) → f.le x (f.lit n 4) ≡ true → f.le (f.round x 4) (f.lit n 4) ≡ true
    round_high n x h = rw (← laws.round-lit n) (laws.round_mono x (f.lit n 4) h)

    pub round_nonneg : (x : W) → f.le (f.lit 0 0) x ≡ true → f.le (f.lit 0 0) (f.round x 4) ≡ true
    round_nonneg x h = rw (← laws.lit_wide 0) (round_low 0 x (rw (laws.lit_wide 0) h))

    pub round_unit : (x : W) → f.le x (f.lit 1 0) ≡ true → f.le (f.round x 4) (f.lit 1 0) ≡ true
    round_unit x h = rw (← laws.lit_wide 1) (round_high 10000 x (rw (laws.lit_wide 1) h))

    max_low : (a b : W) → f.le a a ≡ true → f.le a (py_max a b) ≡ true
    unfolding py_max
    max_low a b h = elim (Bool-cases (f.lt a b)) [
      | inl e ↦ rw e (laws.lt_le a b e)
      | inr e ↦ rw e h
    ]

    pub corner_low : (centre size : W) → f.le (f.lit 0 0) (corner centre size) ≡ true
    unfolding corner
    corner_low centre size =
        max_low (f.lit 0 0) (f.sub centre (f.div size (f.lit 2 0)))
          (laws.lit_mono 0 0 0 (omega arith))

    pub extent_low : (size : W) → f.le (f.lit 1 4) (extent size) ≡ true
    unfolding extent
    extent_low size =
        max_low (f.lit 1 4) (py_min size (f.lit 1 0)) (laws.lit_mono 1 1 4 (omega arith))

    small : f.le (f.lit 1 4) (f.lit 1 0) ≡ true
    small = rw (← laws.lit_wide 1) (laws.lit_mono 1 10000 4 (omega arith))

    pub extent_high : (size : W) → f.le (extent size) (f.lit 1 0) ≡ true
    unfolding extent py_max py_min
    extent_high size = elim (Bool-cases (f.lt (f.lit 1 0) size)) [
      | inl e ↦ elim (Bool-cases (f.lt (f.lit 1 4) (f.lit 1 0))) [
        | inl g ↦ rw (e, g) (laws.lit_mono 1 1 0 (omega arith))
        | inr g ↦ rw (e, g) small
      ]
      | inr e ↦ elim (Bool-cases (f.lt (f.lit 1 4) size)) [
        | inl g ↦
            rw (e, g)
              (laws.not_lt_le (f.lit 1 0) size (laws.lit_mono 1 1 0 (omega arith))
                (laws.lt-number (f.lit 1 4) size g) e)
        | inr g ↦ rw (e, g) small
      ]
    ]

    min_high : (a b : W) → f.le a a ≡ true → f.le (py_min a b) a ≡ true
    unfolding py_min
    min_high a b h = elim (Bool-cases (f.lt b a)) [
      | inl e ↦ rw e (laws.lt_le b a e)
      | inr e ↦ rw e h
    ]

    severity_high :
        (confidence area : W) → f.le (provisional_severity confidence area) (f.lit 1 0) ≡ true
    unfolding provisional_severity
    severity_high confidence area =
        round_unit
          (py_min (f.lit 1 0) (
            f.add (f.mul (f.lit 4 1) confidence)
              (f.mul (f.lit 6 1) (py_min (f.lit 1 0) (f.mul area (f.lit 10 0))))))
          (min_high (f.lit 1 0)
            (f.add (f.mul (f.lit 4 1) confidence)
              (f.mul (f.lit 6 1) (py_min (f.lit 1 0) (f.mul area (f.lit 10 0)))))
            (laws.lit_mono 1 1 0 (omega arith)))

    pub detection_of-IsInBounds :
        (upper : String → String) (mapping : List (String × String)) (box : Box W)
        → IsInBounds (detection_of upper mapping box)
    unfolding detection_of
    detection_of-IsInBounds upper mapping box = (
      round_nonneg (corner box.xc box.w) (corner_low box.xc box.w),
      round_nonneg (corner box.yc box.h) (corner_low box.yc box.h),
      round_low 1 (extent box.w) (extent_low box.w),
      round_unit (extent box.w) (extent_high box.w),
      round_low 1 (extent box.h) (extent_low box.h),
      round_unit (extent box.h) (extent_high box.h),
      severity_high box.conf (f.mul (extent box.w) (extent box.h)),
    )

    -- Every detection has a corner with coordinates of at least 0, a width and a height from 0.0001
    -- to 1, and a severity of at most 1, whatever boxes the model returns (NaN included).
    pub detect-IsInBounds :
        (upper : String → String) (mapping : List (String × String)) (boxes : List (Box W))
        → All IsInBounds (detect upper mapping boxes)
    unfolding detect
    detect-IsInBounds upper mapping [] = tt
    detect-IsInBounds upper mapping (box ∷ boxes) =
        (detection_of-IsInBounds upper mapping box, detect-IsInBounds upper mapping boxes)
