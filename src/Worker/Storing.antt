-- ===== src/Worker/Storing.antt =====
-- What the loop over the images stores (`_run` of backend/app/workers/analysis_worker.py): rows that
-- meet the constraints, each the source of one input of the PCI engine.
use mathlib.Core.List.{append_assoc, append-nil}
use road_vision_ai.Base.{
  ℕ, ◌≡◌, refl, inl, inr, Bool, true, false, not, List, [], ◌∷◌, ◌++◌, map, none, some, ◌==◌,
  str_eq, find, any, select, Option-cases, All, All-append, All2, All2-append, UniqueBy, ==_refl,
  any-find, select-append,
}
use road_vision_ai.Float.{Float}
use road_vision_ai.Float.Sums.{InUnit}
use road_vision_ai.Schema.{
  DamageType, RoadImage, Inspection, DamageDetection, PciScore, AnalysisResult, AiModel,
}
use road_vision_ai.Constraints.{
  References, DetectionChecks, DetectionKeys, ScoreChecks, ResultChecks,
}
use road_vision_ai.Detection.{Detection}
use road_vision_ai.Detection.Checks.{IsStorable}
use road_vision_ai.Pci.{DetectionInput}
use road_vision_ai.Store.{Db, pure}
use road_vision_ai.Store.Ensures.{Ensures, Ensures-bind}
use road_vision_ai.Worker.{Runtime, Found, pci_input, store_detections}

module _ {W : Type 0} ⦃f : Float W⦄ (rt : Runtime W) where
  -- The input of the PCI engine that a stored detection stands for.
  abbrev pub IsInputOf : List (DamageType W) → DamageDetection W → DetectionInput W → Type 0
  IsInputOf types d x =
      (t : DamageType W) × (find (λ (u : DamageType W). str_eq u.code x.damage_code) types ≡ some t)
      × (t.id ≡ d.damage_type_id)
      × (x.pci_weight ≡ t.pci_weight)
      × (x.severity ≡ d.severity_score)
      × (x.rel_area ≡ f.mul d.bbox_width d.bbox_height)
      × (x.image_id ≡ rt.key_text d.road_image_id)

-- The detections of some images.
abbrev pub is_of : {W : Type 0} → List (RoadImage W) → DamageDetection W → Bool
is_of {W} images d = any (λ (i : RoadImage W). i.id == d.road_image_id) images

module _ {W D : Type 0} ⦃f : Float W⦄ (rt : Runtime W) (b : Db W D) (id : ℕ)
    (images : List (RoadImage W)) where
  -- The session during the loop that began at the tables `b`: `inputs` are those so far.
  pub record During (inputs : List (DetectionInput W)) (db : Db W D) : Type 0 where
    pub images_kept : db.road_images ≡ b.road_images
    pub types_kept : db.damage_types ≡ b.damage_types
    pub models_kept : db.ai_models ≡ b.ai_models
    pub inspections_kept : db.inspections ≡ b.inspections
    pub detections :
        All
          (λ d. DetectionChecks d × DetectionKeys b.road_images b.damage_types b.ai_models d)
          db.damage_detections
    pub stored :
        All2 (IsInputOf rt b.damage_types) (select (is_of images) db.damage_detections) inputs
    pub scores :
        All
          (λ (p : PciScore W).
            ScoreChecks p × References (λ (r : Inspection). r.id) b.inspections p.inspection_id)
          db.pci_scores
    pub results :
        All
          (λ (a : AnalysisResult W).
            ResultChecks a × References (λ (r : Inspection). r.id) b.inspections a.inspection_id)
          db.analysis_results
    pub one_score : UniqueBy (λ (p : PciScore W). p.inspection_id) db.pci_scores
    pub one_result : UniqueBy (λ (a : AnalysisResult W). a.inspection_id) db.analysis_results
    pub other_detections :
        select (λ d. not (is_of images d)) db.damage_detections
        ≡ select (λ d. not (is_of images d)) b.damage_detections
    pub other_scores :
        select (λ (p : PciScore W). not (p.inspection_id == id)) db.pci_scores
        ≡ select (λ (p : PciScore W). not (p.inspection_id == id)) b.pci_scores
    pub other_results :
        select (λ (a : AnalysisResult W). not (a.inspection_id == id)) db.analysis_results
        ≡ select (λ (a : AnalysisResult W). not (a.inspection_id == id)) b.analysis_results
    pub no_score : All (λ (p : PciScore W). (p.inspection_id == id) ≡ false) db.pci_scores
    pub no_result :
        All (λ (a : AnalysisResult W). (a.inspection_id == id) ≡ false) db.analysis_results

  abbrev pub IsSure : Found W → Type 0
  IsSure x = InUnit x.det.confidence

  abbrev pub Stored : List (DetectionInput W) → List (Found W) → Db W D → Type 0
  Stored inputs found db = During (inputs ++ map (pci_input rt) found) db × All IsSure found

  -- One detection more.
  During-add :
      (inputs : List (DetectionInput W)) (db : Db W D) (d : DamageDetection W)
      (x : DetectionInput W)
      → During inputs db
      → DetectionChecks d × DetectionKeys b.road_images b.damage_types b.ai_models d
      → is_of images d ≡ true
      → IsInputOf rt b.damage_types d x
      → During (inputs ++ x ∷ []) (record db { damage_detections = db.damage_detections ++ d ∷ [] })
  During-add inputs db d x w fine ours input = record {
    images_kept = w.images_kept;
    types_kept = w.types_kept;
    models_kept = w.models_kept;
    inspections_kept = w.inspections_kept;
    detections = All-append _ db.damage_detections (d ∷ []) w.detections (fine, tt);
    stored =
        let one : select (is_of images) (d ∷ []) ≡ d ∷ [] = rw ours refl in
        rw (select-append (is_of images) db.damage_detections (d ∷ []), one)
          (All2-append (IsInputOf rt b.damage_types) (select (is_of images) db.damage_detections)
            inputs (d ∷ []) (x ∷ []) w.stored (input, tt));
    scores = w.scores;
    results = w.results;
    one_score = w.one_score;
    one_result = w.one_result;
    other_detections =
        rw
          (
            select-append (λ e. not (is_of images e)) db.damage_detections (d ∷ []),
            ours,
            append-nil,
          )
          w.other_detections;
    other_scores = w.other_scores;
    other_results = w.other_results;
    no_score = w.no_score;
    no_result = w.no_result;
  }

  -- A detection as it is kept, and its row.
  abbrev kept : RoadImage W → Detection W → DamageType W → Found W
  kept image det t = record { image = image; det = det; damage_type = t }

  abbrev row_of : ℕ → ℕ → ℕ → RoadImage W → Detection W → DamageType W → DamageDetection W
  row_of key now model_id image det t = record {
    id = key;
    road_image_id = image.id;
    damage_type_id = t.id;
    bbox_x = det.bbox_x;
    bbox_y = det.bbox_y;
    bbox_width = det.bbox_width;
    bbox_height = det.bbox_height;
    confidence_score = det.confidence;
    severity_score = det.severity;
    detected_at = now;
    created_at = now;
    area_m2 = none;
    model_id = some model_id;
  }

  module _ (model_id : ℕ) (image : RoadImage W)
      (ours : any (λ (i : RoadImage W). i.id == image.id) images ≡ true)
      (there : References (λ (i : RoadImage W). i.id) b.road_images image.id)
      (model : References (λ (m : AiModel W). m.id) b.ai_models model_id) where
    During-row :
        (inputs : List (DetectionInput W)) (db : Db W D) (key now : ℕ) (det : Detection W)
        (t : DamageType W)
        → During inputs db
        → IsStorable det
        → find (λ (u : DamageType W). str_eq u.code det.damage_code) db.damage_types ≡ some t
        → During (inputs ++ pci_input rt (kept image det t) ∷ []) (record db {
          damage_detections = db.damage_detections ++ row_of key now model_id image det t ∷ [];
        })
    unfolding pci_input
    During-row inputs db key now det t w fine e =
        let found = rw w.types_kept at e in
        let known =
          any-find _ (λ (u : DamageType W). u.id == t.id) b.damage_types found (==_refl t.id) in
        During-add inputs db (row_of key now model_id image det t) (pci_input rt (kept image det t))
          w (fine, (there, known, model)) ours (t, found, refl, refl, refl, refl, refl)

    -- The inner loop.
    pub store_detections-Stored :
        (dets : List (Detection W)) (inputs : List (DetectionInput W))
        → All IsStorable dets
        → Ensures (During inputs) (store_detections model_id image dets) (Stored inputs)
    unfolding store_detections
    store_detections-Stored [] inputs fine = record { at = λ s w. (rw (append-nil inputs) w, tt) }
    store_detections-Stored (det ∷ dets) inputs fine = record {
      at = λ s w.
          elim (Option-cases
            (find (λ (t : DamageType W). str_eq t.code det.damage_code) s.working.damage_types)) [
              | inl e ↦ rw e ((store_detections-Stored dets inputs fine.1).at s w)
              | inr (t, e) ↦
                  let input = pci_input rt (kept image det t) in
                  rw e (
                    (Ensures-bind (Stored (inputs ++ input ∷ []))
                        (store_detections model_id image dets)
                        (λ (rest : List (Found W)). pure (kept image det t ∷ rest))
                        (store_detections-Stored dets (inputs ++ input ∷ []) fine.1)
                        (λ rest. record {
                          at = λ s' q. (
                            rw (append_assoc inputs (input ∷ []) (map (pci_input rt) rest)) at q.0,
                            (fine.0.4, q.1),
                          );
                        })).at
                      _ (During-row inputs s.working s.next_id s.now det t w fine.0 e))
            ];
    }
