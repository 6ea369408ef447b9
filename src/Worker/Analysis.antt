-- ===== src/Worker/Analysis.antt =====
-- An analysis from its first query to the rows of its result (`_run` of
-- backend/app/workers/analysis_worker.py).
use road_vision_ai.Base.{
  ℕ, ◌≡◌, refl, inl, inr, true, false, List, [], map, Option, none, some, ok, arith, runtime_error,
  ◌==◌, ==_refl, ==_iff, find, find_sound, any, any-find, any-select, any_own, select, length, All,
  All-map, Option-cases,
}
use road_vision_ai.Float.{Float, IsOrdered}
use road_vision_ai.Float.Sums.{IsArithmetic}
use road_vision_ai.Schema.{RoadImage, Inspection, AiModel}
use road_vision_ai.Constraints.{References, OrNull, IsConsistent}
use road_vision_ai.Pci.{DetectionInput, PciResult, compute_pci}
use road_vision_ai.Pci.Levels.{compute_pci-IsScored}
use road_vision_ai.Registry.{get_active}
use road_vision_ai.Store.{
  Db, Detector, Exec, pure, lift, query, gets, or_raise, raise_when, ◌>>=◌, ◌>>◌,
}
use road_vision_ai.Store.Ensures.{
  Ensures, Ensures-bind, Ensures-query, Ensures-or_raise, Ensures-raise_when, Ensures-lift,
  Ensures-given, Ensures-after,
}
use road_vision_ai.Storage.{get_object}
use road_vision_ai.Worker.{
  Runtime, Found, pci_input, load_artifacts, load_detector, get_detector, clear_outputs,
  analyse_images, save_outputs, analyse,
}
use road_vision_ai.Worker.Storing.{During, Stored}
use road_vision_ai.Worker.Images.{IsCalibrated, analyse_images-Stored}
use road_vision_ai.Worker.Outputs.{Scored, clear_outputs-During, save_outputs-Scored}

-- The images of an inspection.
abbrev pub images_in : {W D : Type 0} → ℕ → Db W D → List (RoadImage W)
images_in {W} {D} id db = select (λ (i : RoadImage W). i.inspection_id == id) db.road_images

module _ {W D : Type 0} ⦃f : Float W⦄ (rt : Runtime W) (b : Db W D) where
  -- The detector of a model that is registered.
  abbrev IsRegistered : Detector → Type 0
  IsRegistered d = References (λ (m : AiModel W). m.id) b.ai_models d.model_id

  abbrev FoundFor : AiModel W → Option Detector → Type 0
  FoundFor model = OrNull (λ (d : Detector). (d.model_id == model.id) ≡ true)

  find-FoundFor :
      (model : AiModel W) (ds : List Detector)
      → FoundFor model (find (λ (d : Detector). d.model_id == model.id) ds)
  find-FoundFor model ds =
      elim (Option-cases (find (λ (d : Detector). d.model_id == model.id) ds)) [
        | inl e ↦ rw e tt
        | inr (d, e) ↦ rw e (find_sound (λ (x : Detector). x.model_id == model.id) ds e)
      ]

  load_detector-Ensures :
      (model : AiModel W)
      → References (λ (m : AiModel W). m.id) b.ai_models model.id
      → Ensures (λ db. db ≡ b) (load_detector rt model) (λ d db. (db ≡ b) × IsRegistered d)
  unfolding load_detector load_artifacts get_object
  load_detector-Ensures model there = record { at = λ s e. ground arith }

  cached-Ensures :
      (model : AiModel W) (cached : Option Detector)
      → References (λ (m : AiModel W). m.id) b.ai_models model.id
      → FoundFor model cached
      → Ensures
          (λ db. db ≡ b)
          (elim cached as (λ _. Exec W D Detector) [
            | some d ↦ pure d
            | none ↦ load_detector rt model
          ])
          (λ d db. (db ≡ b) × IsRegistered d)
  cached-Ensures model none there h = load_detector-Ensures model there
  cached-Ensures model (some d) there h = record {
    at = λ s e. (e, let same = (==_iff d.model_id model.id).0 h in rw same there);
  }

  get_detector-Ensures :
      Ensures (λ db. db ≡ b) (get_detector rt) (λ d db. (db ≡ b) × IsRegistered d)
  unfolding get_detector get_active
  get_detector-Ensures =
      let active = λ (m : AiModel W). m.is_active in
      Ensures-bind (λ o db. (db ≡ b) × (o ≡ find active b.ai_models)) get_active _
        (Ensures-query _ (λ db e. (e, rw e refl)))
        (λ o. Ensures-given _ (λ is.
          Ensures-bind (λ model db. (db ≡ b) × (find active b.ai_models ≡ some model))
            (or_raise o runtime_error) _ (Ensures-or_raise o _ (λ model db h e. (e, rw is at h)))
            (λ model. Ensures-given _ (λ h.
              let there =
                any-find _ (λ (m : AiModel W). m.id == model.id) b.ai_models h (==_refl model.id) in
              Ensures-bind (λ cached db. (db ≡ b) × FoundFor model cached)
                (gets (λ s. find (λ (d : Detector). d.model_id == model.id) s.detectors)) _
                (record { at = λ s e. (e, find-FoundFor model s.detectors) })
                (λ cached. Ensures-given _ (λ k. cached-Ensures model cached there k))))))

module _ {W D : Type 0} ⦃f : Float W⦄ (rt : Runtime W) (id : ℕ) (b : Db W D) where
  -- What is left in the session: the rows of some inputs, and their result.
  abbrev pub Analysed : Db W D → Type 0
  Analysed db =
      (inputs : List (DetectionInput W)) × (pci : PciResult W) × (compute_pci inputs
          (length (images_in id b))
        ≡ ok pci)
      × Scored rt b id (images_in id b) inputs pci db

module _ {W D : Type 0} ⦃f : Float W⦄ (laws : IsOrdered W) (more : IsArithmetic W) (rt : Runtime W)
    (calibrated : IsCalibrated rt) (id : ℕ) (b : Db W D) where
  images_in-IsOurs :
      All
        (λ (image : RoadImage W).
          (any (λ (i : RoadImage W). i.id == image.id) (images_in id b) ≡ true)
          × References (λ (i : RoadImage W). i.id) b.road_images image.id)
        (images_in id b)
  images_in-IsOurs =
      All-map (images_in id b)
        (λ image own. (own, any-select _ (λ (i : RoadImage W). i.id == image.id) b.road_images own))
        (any_own (λ (i : RoadImage W). i.id) (images_in id b))

  -- The engine, and the rows of its result.
  score-Analysed :
      (found : List (Found W))
      → References (λ (r : Inspection). r.id) b.inspections id
      → Ensures
          (Stored rt b id (images_in id b) [] found)
          (do
            pci ← lift (compute_pci (map (pci_input rt) found) (length (images_in id b)))
            save_outputs rt id found pci)
          (λ _ db. Analysed rt id b db)
  score-Analysed found there =
      let inputs = map (pci_input rt) found in
      Ensures-bind
        (λ pci db.
          Stored rt b id (images_in id b) [] found db
          × (compute_pci inputs (length (images_in id b)) ≡ ok pci))
        (lift (compute_pci inputs (length (images_in id b)))) _
        (Ensures-lift _ (λ pci db e w. (w, e)))
        (λ pci. Ensures-given _ (λ e.
          Ensures-after _ _ (save_outputs rt id found pci)
            (save_outputs-Scored laws more rt b id (images_in id b) found pci there
              (compute_pci-IsScored laws inputs (length (images_in id b)) e).0)
            (λ _ db w. (inputs, pci, e, w))))

  -- From the detector on.
  detector-Analysed :
      (detector : Detector) (images : List (RoadImage W))
      → images ≡ images_in id b
      → References (λ (r : Inspection). r.id) b.inspections id
      → References (λ (m : AiModel W). m.id) b.ai_models detector.model_id
      → IsConsistent b
      → Ensures
          (λ db. db ≡ b)
          (do
            clear_outputs id images
            found ← analyse_images rt detector images
            pci ← lift (compute_pci (map (pci_input rt) found) (length images))
            save_outputs rt id found pci)
          (λ _ db. Analysed rt id b db)
  detector-Analysed detector _ same there model c =
      let images = images_in id b in
      rw same (
        Ensures-bind (λ _ db. During rt b id images [] db) (clear_outputs id images) _
          (clear_outputs-During rt b id images c)
          (λ _.
            Ensures-bind (Stored rt b id images []) (analyse_images rt detector images) _
              (analyse_images-Stored laws more rt calibrated b id images detector model images []
                images_in-IsOurs)
              (λ found. score-Analysed found there)))

  pub analyse-Analysed :
      IsConsistent b → Ensures (λ db. db ≡ b) (analyse rt id) (λ _ db. Analysed rt id b db)
  unfolding analyse
  analyse-Analysed c =
      let mine = λ (r : Inspection). r.id == id in
      Ensures-bind (λ o db. (db ≡ b) × (o ≡ find mine b.inspections))
        (query (λ db. find mine db.inspections)) _
        (Ensures-query (λ (db : Db W D). find mine db.inspections) (λ db e. (e, rw e refl)))
        (λ o. Ensures-given _ (λ is.
          Ensures-bind (λ r db. (db ≡ b) × (find mine b.inspections ≡ some r))
            (or_raise o runtime_error) _ (Ensures-or_raise o _ (λ r db h e. (e, rw is at h)))
            (λ r. Ensures-given _ (λ h.
              let there = any-find mine mine b.inspections h (find_sound mine b.inspections h) in
              Ensures-bind (λ images db. (db ≡ b) × (images ≡ images_in id b))
                (query (images_in id)) _ (Ensures-query (images_in id) (λ db e. (e, rw e refl)))
                (λ images. Ensures-given _ (λ same.
                  Ensures-bind (λ _ db. (db ≡ b) × ((length images == 0) ≡ false))
                    (raise_when (length images == 0) runtime_error) _
                    (Ensures-raise_when (length images == 0) runtime_error)
                    (λ _. Ensures-given _ (λ _.
                      Ensures-bind (λ d db. (db ≡ b) × IsRegistered rt b d) (get_detector rt) _
                        (get_detector-Ensures rt b)
                        (λ detector.
                          Ensures-given _
                            (λ model. detector-Analysed detector images same there model c))))))))))
