-- ===== src/Worker/Keeps.antt =====
-- What an analysis, up to its last write, leaves alone
-- (backend/app/workers/analysis_worker.py).
use road_vision_ai.Base.{
  ℕ, ◌≡◌, refl, ◌∙◌, inl, inr, Bool, List, [], ◌∷◌, ◌++◌, map, Option, none, some, Exn,
  runtime_error, Result, ok, err, arith, ◌==◌, str_eq, find, Option-cases, length, select,
}
use road_vision_ai.Text.{Text}
use road_vision_ai.Registry.{get_active}
use road_vision_ai.Float.{Float}
use road_vision_ai.Schema.{AiModel, DamageType, RoadImage, Inspection}
use road_vision_ai.Detection.{Detection, detect}
use road_vision_ai.Pci.{PciResult, compute_pci}
use road_vision_ai.Store.{
  Db, Detector, World, Exec, pure, lift, query, or_raise, raise_when, gets, ◌>>=◌,
}
use road_vision_ai.Storage.{partition, get_object}
use road_vision_ai.Worker.{
  Runtime, Found, pci_input, store_detections, analyse_images, clear_outputs, save_outputs,
  load_artifacts, load_detector, get_detector, analyse,
}

-- An action that writes no inspection and commits nothing.
pub record Keeps {W D A : Type 0} (m : Exec W D A) : Type 0 where
  pub rows : (s : World W D) → (m s).1.working.inspections ≡ s.working.inspections
  pub seen : (s : World W D) → (m s).1.committed ≡ s.committed

module _ {W D A B : Type 0} where
  Keeps-bind :
      (m : Exec W D A) (f : A → Exec W D B) → Keeps m → ((a : A) → Keeps (f a)) → Keeps (m >>= f)
  Keeps-bind m f km kf = record {
    rows = λ s. rows_after (m s).0 s (m s).1 (km.rows s);
    seen = λ s. seen_after (m s).0 s (m s).1 (km.seen s);
  }
    where
      rows_after :
          (r : Result A) (s t : World W D)
          → t.working.inspections ≡ s.working.inspections
          → (let k : Exec W D A = λ x. (r, x) in (k >>= f) t).1.working.inspections
            ≡ s.working.inspections
      rows_after (ok a) s t h = (kf a).rows t ∙ h
      rows_after (err e) s t h = h

      seen_after :
          (r : Result A) (s t : World W D)
          → t.committed ≡ s.committed
          → (let k : Exec W D A = λ x. (r, x) in (k >>= f) t).1.committed ≡ s.committed
      seen_after (ok a) s t h = (kf a).seen t ∙ h
      seen_after (err e) s t h = h

  Keeps-map : (m : Exec W D A) (g : A → B) → Keeps m → Keeps (m >>= λ a. pure (g a))
  Keeps-map m g k =
      Keeps-bind m (λ a. pure (g a)) k (λ a. record { rows = λ s. refl; seen = λ s. refl })

module _ {W D : Type 0} where
  store_detections-Keeps :
      (model_id : ℕ) (image : RoadImage W) (dets : List (Detection W))
      → Keeps (store_detections {W = W} {D = D} model_id image dets)
  unfolding store_detections
  store_detections-Keeps model_id image [] = record { rows = λ s. refl; seen = λ s. refl }
  store_detections-Keeps model_id image (det ∷ dets) =
      let ih = store_detections-Keeps model_id image dets in
      let step = λ (t : DamageType W).
        Keeps-map (store_detections {W = W} {D = D} model_id image dets)
          (λ (rest : List (Found W)). record { image = image; det = det; damage_type = t } ∷ rest)
          ih in
      record {
        rows = λ s.
            elim (Option-cases
              (find (λ (t : DamageType W). str_eq t.code det.damage_code) s.working.damage_types)) [
                | inl e ↦ rw e (ih.rows s)
                | inr (t, e) ↦ rw e ((step t).rows _)
              ];
        seen = λ s.
            elim (Option-cases
              (find (λ (t : DamageType W). str_eq t.code det.damage_code) s.working.damage_types)) [
                | inl e ↦ rw e (ih.seen s)
                | inr (t, e) ↦ rw e ((step t).seen _)
              ];
      }

  get_object-Keeps : (bucket name : Text) → Keeps (get_object {W = W} {D = D} bucket name)
  unfolding get_object
  get_object-Keeps bucket name = record { rows = λ s. ground arith; seen = λ s. ground arith }

  clear_outputs-Keeps :
      (id : ℕ) (images : List (RoadImage W)) → Keeps (clear_outputs {W = W} {D = D} id images)
  unfolding clear_outputs
  clear_outputs-Keeps id images = record { rows = λ s. refl; seen = λ s. refl }

  query-Keeps : {A : Type 0} (g : Db W D → A) → Keeps (query g)
  query-Keeps g = record { rows = λ s. refl; seen = λ s. refl }

  gets-Keeps : {A : Type 0} (g : World W D → A) → Keeps (gets g)
  gets-Keeps g = record { rows = λ s. refl; seen = λ s. refl }

  raise_when-Keeps : (test : Bool) (e : Exn) → Keeps (raise_when {W = W} {D = D} test e)
  raise_when-Keeps test e = record { rows = λ s. refl; seen = λ s. refl }

  or_raise-Keeps : {A : Type 0} (o : Option A) (e : Exn) → Keeps (or_raise {W = W} {D = D} o e)
  or_raise-Keeps none e = record { rows = λ s. refl; seen = λ s. refl }
  or_raise-Keeps (some a) e = record { rows = λ s. refl; seen = λ s. refl }

  lift-Keeps : {A : Type 0} (r : Result A) → Keeps (lift {W = W} {D = D} r)
  lift-Keeps r = record { rows = λ s. refl; seen = λ s. refl }

module _ {W D : Type 0} ⦃f : Float W⦄ (rt : Runtime W) where
  load_detector-Keeps : (model : AiModel W) → Keeps (load_detector {W = W} {D = D} rt model)
  unfolding load_detector load_artifacts get_object
  load_detector-Keeps model = record { rows = λ s. ground arith; seen = λ s. ground arith }

  analyse_images-Keeps :
      (detector : Detector) (images : List (RoadImage W))
      → Keeps (analyse_images {W = W} {D = D} rt detector images)
  unfolding analyse_images
  analyse_images-Keeps detector [] = record { rows = λ s. refl; seen = λ s. refl }
  analyse_images-Keeps detector (image ∷ images) =
      let place = partition image.storage_path in
      Keeps-bind (get_object place.0 place.1) _ (get_object-Keeps place.0 place.1) (λ content.
        Keeps-bind (lift (rt.predict detector.weights content)) _ (lift-Keeps _) (λ boxes.
          Keeps-bind
            (store_detections detector.model_id image
              (detect rt.upper detector.class_mapping boxes))
            _ (store_detections-Keeps detector.model_id image _)
            (λ found.
              Keeps-map (analyse_images {W = W} {D = D} rt detector images) (λ rest. found ++ rest)
                (analyse_images-Keeps detector images))))

  cached-Keeps :
      (model : AiModel W) (cached : Option Detector)
      → Keeps (elim cached as (λ _. Exec W D Detector) [
        | some d ↦ pure d
        | none ↦ load_detector rt model
      ])
  cached-Keeps model none = load_detector-Keeps model
  cached-Keeps model (some d) = record { rows = λ s. refl; seen = λ s. refl }

  get_detector-Keeps : Keeps (get_detector {W = W} {D = D} rt)
  unfolding get_detector get_active
  get_detector-Keeps = Keeps-bind get_active _ (query-Keeps _) (λ active.
      Keeps-bind (or_raise active runtime_error) _ (or_raise-Keeps active runtime_error) (λ model.
        Keeps-bind (gets (λ s. find (λ (d : Detector). d.model_id == model.id) s.detectors)) _
          (gets-Keeps _) (cached-Keeps model)))

  save_outputs-Keeps :
      (id : ℕ) (found : List (Found W)) (pci : PciResult W)
      → Keeps (save_outputs {W = W} {D = D} rt id found pci)
  unfolding save_outputs
  save_outputs-Keeps id found pci = record { rows = λ s. refl; seen = λ s. refl }

  pub analyse-Keeps : (id : ℕ) → Keeps (analyse {W = W} {D = D} rt id)
  unfolding analyse
  analyse-Keeps id =
      Keeps-bind (query (λ db. find (λ (r : Inspection). r.id == id) db.inspections)) _
        (query-Keeps _)
        (λ inspection.
          Keeps-bind (or_raise inspection runtime_error) _ (or_raise-Keeps inspection runtime_error)
            (λ r.
              Keeps-bind
                (query (λ db. select (λ (i : RoadImage W). i.inspection_id == id) db.road_images)) _
                (query-Keeps _)
                (λ images.
                  Keeps-bind (raise_when (length images == 0) runtime_error) _
                    (raise_when-Keeps _ _)
                    (λ _. Keeps-bind (get_detector rt) _ get_detector-Keeps (λ detector.
                      Keeps-bind (clear_outputs id images) _ (clear_outputs-Keeps id images) (λ _.
                        Keeps-bind (analyse_images rt detector images) _
                          (analyse_images-Keeps detector images)
                          (λ found.
                            Keeps-bind
                              (lift (compute_pci (map (pci_input rt) found) (length images))) _
                              (lift-Keeps _) (λ pci. save_outputs-Keeps id found pci))))))))
