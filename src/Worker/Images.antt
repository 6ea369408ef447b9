-- ===== src/Worker/Images.antt =====
-- The outer loop over the images (`_run` of backend/app/workers/analysis_worker.py).
use mathlib.Core.List.{append_assoc, append-nil, map-append}
use road_vision_ai.Base.{
  ℕ, ◌≡◌, true, List, [], ◌∷◌, ◌++◌, map, ok, arith, ◌==◌, any, All, All-append,
}
use road_vision_ai.Text.{Text}
use road_vision_ai.Float.{Float, IsOrdered}
use road_vision_ai.Float.Sums.{IsArithmetic, InUnit}
use road_vision_ai.Schema.{RoadImage, AiModel}
use road_vision_ai.Constraints.{References}
use road_vision_ai.Detection.{Box, detect}
use road_vision_ai.Detection.Checks.{detect-IsStorable}
use road_vision_ai.Pci.{DetectionInput}
use road_vision_ai.Store.{Db, Detector, lift, pure}
use road_vision_ai.Store.Ensures.{Ensures, Ensures-bind, Ensures-lift, Ensures-given}
use road_vision_ai.Storage.{partition, get_object}
use road_vision_ai.Worker.{Runtime, Found, pci_input, store_detections, analyse_images}
use road_vision_ai.Worker.Storing.{During, Stored, IsSure, store_detections-Stored}

-- What is relied on of YOLO: the confidence of a box lies in the unit interval.
abbrev pub IsCalibrated : {W : Type 0} ⦃f : Float W⦄ → Runtime W → Type 0
IsCalibrated {W} rt =
    (weights content : Text) (boxes : List (Box W))
    → rt.predict weights content ≡ ok boxes
    → All (λ (x : Box W). InUnit x.conf) boxes

get_object-Ensures :
    {W D : Type 0} (P : Db W D → Type 0) (bucket name : Text)
    → Ensures P (get_object bucket name) (λ _ db. P db)
unfolding get_object
get_object-Ensures P bucket name = record { at = λ s p. ground arith }

module _ {W D : Type 0} ⦃f : Float W⦄ (laws : IsOrdered W) (more : IsArithmetic W) (rt : Runtime W)
    (calibrated : IsCalibrated rt) (b : Db W D) (id : ℕ) (images : List (RoadImage W))
    (detector : Detector)
    (model : References (λ (m : AiModel W). m.id) b.ai_models detector.model_id) where
  -- An image of the inspection.
  abbrev pub IsOurs : RoadImage W → Type 0
  IsOurs image =
      (any (λ (i : RoadImage W). i.id == image.id) images ≡ true)
      × References (λ (i : RoadImage W). i.id) b.road_images image.id

  joined :
      (inputs : List (DetectionInput W)) (found others : List (Found W))
      → All (IsSure rt b id images) found
      → Ensures
          (Stored rt b id images (inputs ++ map (pci_input rt) found) others)
          (pure (found ++ others))
          (Stored rt b id images inputs)
  joined inputs found others certain = record {
    at = λ s q. (
      rw (map-append, ← append_assoc) q.0,
      All-append (IsSure rt b id images) found others certain q.1,
    );
  }

  pub analyse_images-Stored :
      (rest : List (RoadImage W)) (inputs : List (DetectionInput W))
      → All IsOurs rest
      → Ensures
          (During rt b id images inputs)
          (analyse_images rt detector rest)
          (Stored rt b id images inputs)
  unfolding analyse_images
  analyse_images-Stored [] inputs ours = record { at = λ s w. (rw (append-nil inputs) w, tt) }
  analyse_images-Stored (image ∷ rest) inputs ours =
      let place = partition image.storage_path in
      Ensures-bind (λ _. During rt b id images inputs) (get_object place.0 place.1) _
        (get_object-Ensures (During rt b id images inputs) place.0 place.1)
        (λ content.
          Ensures-bind
            (λ boxes db. During rt b id images inputs db × All (λ (x : Box W). InUnit x.conf) boxes)
            (lift (rt.predict detector.weights content)) _
            (Ensures-lift _ (λ boxes db e w. (w, calibrated detector.weights content boxes e)))
            (λ boxes. Ensures-given _ (λ sure.
              let dets = detect rt.upper detector.class_mapping boxes in
              Ensures-bind (Stored rt b id images inputs)
                (store_detections detector.model_id image dets) _
                (store_detections-Stored rt b id images detector.model_id image ours.0.0 ours.0.1
                  model dets inputs (detect-IsStorable laws more rt.upper _ boxes sure))
                (λ found. Ensures-given _ (λ certain.
                  let so_far = inputs ++ map (pci_input rt) found in
                  Ensures-bind (Stored rt b id images so_far) (analyse_images rt detector rest) _
                    (analyse_images-Stored rest so_far ours.1)
                    (λ others. joined inputs found others certain))))))
