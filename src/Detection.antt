-- ===== src/Detection.antt =====
-- Detection (backend/app/ai/detection/class_mapping.py and detector.py): from the boxes that the
-- YOLO model returns to detections. The model itself is no code of the repository: its boxes are
-- an argument.
pub mod Bounds
pub mod Checks
use Prim.Native.Char.{Char, code}
use road_vision_ai.Base.{
  ℕ, ◌+◌, ◌-◌, ◌≡◌, refl, Bool, true, false, ◌&&◌, ◌||◌, String, List, [], ◌∷◌, ◌++◌, map, Option,
  none, some, str_eq, ◌==◌, leb, if◌then◌else◌,
}
use road_vision_ai.Text.{Text, codes, text_eq, is_space}
use road_vision_ai.Float.{Float, py_min, py_max}

-- A dict of texts.
lookup : String → List (String × String) → Option String
lookup k [] = none
lookup k ((j, v) ∷ d) = if str_eq j k then some v else lookup k d

unfoldable pub default_class_to_code : List (String × String)
default_class_to_code =
    ("pothole", "POTHOLE")
    ∷ ("Alligator", "ALLIGATOR_CRACK")
    ∷ ("Longitudinal-Crack", "LONGITUDINAL_CRACK")
    ∷ ("Lateral-Crack", "LATERAL_CRACK")
    ∷ ("Edge Cracking", "EDGE_CRACKING")
    ∷ ("Ravelling", "RAVELLING")
    ∷ ("Rutting", "RUTTING")
    ∷ ("Striping", "STRIPING")
    ∷ []

-- `name.strip()`, on the characters.
strip_left : String → String
unfolding is_space
strip_left String.[] = String.[]
strip_left (String.◌∷◌ c s) =
    let rest = strip_left s in if is_space (code c) then rest else String.◌∷◌ c s

or_blank : Char → String → String
unfolding is_space
or_blank c String.[] = if is_space (code c) then String.[] else String.◌∷◌ c String.[]
or_blank c (String.◌∷◌ d s) = String.◌∷◌ c (String.◌∷◌ d s)

strip_right : String → String
unfolding or_blank
strip_right String.[] = String.[]
strip_right (String.◌∷◌ c s) = or_blank c (strip_right s)

-- `.replace("-", "_").replace(" ", "_")`
underscored : String → String
underscored String.[] = String.[]
underscored (String.◌∷◌ c s) =
    String.◌∷◌ (if code c == 45 || code c == 32 then "_" else c) (underscored s)

-- `normalise`; `upper` is Python's.
unfoldable pub normalise : (String → String) → String → String
unfolding strip_left strip_right underscored
normalise upper name = upper (underscored (strip_right (strip_left name)))

edge_cracking : normalise (λ s. s) " Edge Cracking " ≡ "Edge_Cracking"
unfolding normalise
edge_cracking = refl

module _ (upper : String → String) where
  -- `resolve_code`; the empty mapping is false, as a missing one.
  unfoldable pub resolve_code : String → Option (List (String × String)) → String
  unfolding lookup default_class_to_code normalise
  resolve_code class_name config_mapping =
      let built_in : String = elim (lookup class_name default_class_to_code) [
        | some code ↦ code
        | none ↦ normalise upper class_name
      ] in
      elim config_mapping [
        | none ↦ built_in
        | some mapping ↦ elim (lookup class_name mapping) [ some code ↦ code | none ↦ built_in ]
      ]

pub record Detection (W : Type 0) : Type 0 where
  pub damage_code : String
  pub confidence : W
  pub severity : W
  pub bbox_x : W
  pub bbox_y : W
  pub bbox_width : W
  pub bbox_height : W

-- A box of the model: the name of its class, its confidence, and its centre and size, normalised.
pub record Box (W : Type 0) : Type 0 where
  pub class_name : String
  pub conf : W
  pub xc : W
  pub yc : W
  pub w : W
  pub h : W

module _ {W : Type 0} ⦃f : Float W⦄ where
  -- `_provisional_severity`
  unfoldable pub provisional_severity : W → W → W
  provisional_severity confidence rel_area =
      let area_term = py_min (f.lit 1 0) (f.mul rel_area (f.lit 10 0)) in
      f.round
        (py_min (f.lit 1 0) (f.add (f.mul (f.lit 4 1) confidence) (f.mul (f.lit 6 1) area_term))) 4

  -- `max(0.0, centre - size / 2)`
  unfoldable pub corner : W → W → W
  corner centre size = py_max (f.lit 0 0) (f.sub centre (f.div size (f.lit 2 0)))

  -- `max(1e-4, min(size, 1.0))`
  unfoldable pub extent : W → W
  extent size = py_max (f.lit 1 4) (py_min size (f.lit 1 0))

  -- One round of the loop of `Detector.detect`.
  unfoldable pub detection_of : (String → String) → List (String × String) → Box W → Detection W
  unfolding provisional_severity corner extent
  detection_of upper mapping box =
      let x = corner box.xc box.w in
      let y = corner box.yc box.h in
      let w = extent box.w in
      let h = extent box.h in
      record {
        damage_code = resolve_code upper box.class_name (some mapping);
        confidence = f.round box.conf 4;
        severity = provisional_severity box.conf (f.mul w h);
        bbox_x = f.round x 4;
        bbox_y = f.round y 4;
        bbox_width = f.round w 4;
        bbox_height = f.round h 4;
      }

  -- `Detector.detect`, after the prediction.
  unfoldable pub detect :
      (String → String) → List (String × String) → List (Box W) → List (Detection W)
  unfolding detection_of
  detect upper mapping = map (detection_of upper mapping)
