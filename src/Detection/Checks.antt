-- ===== src/Detection/Checks.antt =====
-- The detections that the detector returns meet the checks of `damage_detections`, if the confidences
-- of the model's boxes lie in the unit interval.
use road_vision_ai.Base.{arith, ◌≡◌, true, String, List, [], ◌∷◌, All}
use road_vision_ai.Float.{Float, IsOrdered, py_min}
use road_vision_ai.Float.Sums.{IsArithmetic, InUnit, min_nonneg, min_one}
use road_vision_ai.Detection.{Detection, Box, provisional_severity, extent, detection_of, detect}
use road_vision_ai.Detection.Bounds.{
  round_nonneg, round_unit, extent_low, extent_high, detection_of-IsInBounds,
}

module _ {W : Type 0} ⦃f : Float W⦄ where
  abbrev pub IsStorable : Detection W → Type 0
  IsStorable d =
      (f.lt (f.lit 0 0) d.bbox_height ≡ true)
      × (f.lt (f.lit 0 0) d.bbox_width ≡ true)
      × (f.le (f.lit 0 0) d.bbox_x ≡ true)
      × (f.le (f.lit 0 0) d.bbox_y ≡ true)
      × InUnit d.confidence
      × InUnit d.severity

  module _ (laws : IsOrdered W) (more : IsArithmetic W) where
    extent_nonneg : (size : W) → f.le (f.lit 0 0) (extent size) ≡ true
    extent_nonneg size =
        laws.lt_le _ _ (more.lt-le-trans _ _ _ more.lit_small (extent_low laws size))

    below_ten : (x : W) → f.le x (f.lit 1 0) ≡ true → f.le x (f.lit 10 0) ≡ true
    below_ten x h = laws.le_trans x _ _ h (laws.lit_mono 1 10 0 (omega arith))

    extent_unit : (size : W) → InUnit (extent size)
    extent_unit size = (extent_nonneg size, extent_high laws size)

    area_unit : (w h : W) → InUnit w → InUnit h → InUnit (f.mul w h)
    area_unit w h p q = (
      more.mul_nonneg w h p.0 (below_ten w p.1) q.0 (below_ten h q.1),
      more.mul_unit w h p.0 p.1 q.0 q.1,
    )

    severity_low :
        (confidence area : W)
        → InUnit confidence
        → InUnit area
        → f.le (f.lit 0 0) (provisional_severity confidence area) ≡ true
    unfolding provisional_severity
    severity_low confidence area h k =
        let term = py_min (f.lit 1 0) (f.mul area (f.lit 10 0)) in
        let term_low = min_nonneg (f.lit 1 0) (f.mul area (f.lit 10 0)) (more.lit_nonneg 1 0) (
          more.mul_nonneg area (f.lit 10 0) k.0 (below_ten area k.1) (more.lit_nonneg 10 0)
            (laws.lit_mono 10 10 0 (omega arith))) in
        let weighted = f.mul (f.lit 4 1) confidence in
        let scaled = f.mul (f.lit 6 1) term in
        round_nonneg laws (py_min (f.lit 1 0) (f.add weighted scaled)) (
          min_nonneg (f.lit 1 0) (f.add weighted scaled) (more.lit_nonneg 1 0) (
            more.add_nonneg weighted scaled
              (more.mul_nonneg (f.lit 4 1) confidence (more.lit_nonneg 4 1)
                (more.lit_tenths 4 (omega arith)) h.0 (below_ten confidence h.1))
              (more.mul_nonneg (f.lit 6 1) term (more.lit_nonneg 6 1)
                (more.lit_tenths 6 (omega arith)) term_low (below_ten term (min_one laws _)))))

    detection_of-IsStorable :
        (upper : String → String) (mapping : List (String × String)) (box : Box W)
        → InUnit box.conf
        → IsStorable (detection_of upper mapping box)
    unfolding detection_of
    detection_of-IsStorable upper mapping box h =
        let b = detection_of-IsInBounds laws upper mapping box in
        (
          more.lt-le-trans _ _ _ more.lit_small b.4,
          more.lt-le-trans _ _ _ more.lit_small b.2,
          b.0,
          b.1,
          (round_nonneg laws box.conf h.0, round_unit laws box.conf h.1),
          (
            severity_low box.conf _ h
                (area_unit (extent box.w) (extent box.h) (extent_unit box.w) (extent_unit box.h)),
            b.6,
          ),
        )

    pub detect-IsStorable :
        (upper : String → String) (mapping : List (String × String)) (boxes : List (Box W))
        → All (λ (b : Box W). InUnit b.conf) boxes
        → All IsStorable (detect upper mapping boxes)
    unfolding detect
    detect-IsStorable upper mapping [] h = tt
    detect-IsStorable upper mapping (box ∷ boxes) h =
        (detection_of-IsStorable upper mapping box h.0, detect-IsStorable upper mapping boxes h.1)
