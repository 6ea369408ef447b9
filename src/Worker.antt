-- ===== src/Worker.antt =====
-- The analysis worker (backend/app/workers/analysis_worker.py). Temporary files, the lock of the cache and log lines
-- are not modelled. The codes of damage types are unique, so the dict of them is a search.
pub mod Detectors
unfoldable pub use Detectors.*
pub mod Keeps
pub mod Storing
pub mod Images
pub mod Outputs
pub mod Analysis
pub mod Outcome
pub mod Consistency
use road_vision_ai.Base.{
  ℕ, zero, suc, ◌+◌, ◌≡◌, Bool, true, false, not, ◌&&◌, String, List, [], ◌∷◌, ◌++◌, map, Option,
  none, some, Result, ok, err, runtime_error, http, ◌==◌, str_eq, length, select, find, any,
  if◌then◌else◌,
}
use road_vision_ai.Text.{Text, codes}
use road_vision_ai.Float.{Float}
use road_vision_ai.Enums.{InspectionStatus}
use road_vision_ai.Schema.{
  DamageType, RoadImage, Inspection, DamageDetection, PciScore, AnalysisResult, AiModel,
  MaintenanceRecommendation, MaintenancePlan, InspectionReport,
}
use road_vision_ai.Pci.{DetectionInput, TypeDeduction, PciResult, compute_pci}
use road_vision_ai.Detection.{Detection, Box, detect}
use road_vision_ai.Store.{
  Db, Detector, World, Exec, pure, raise, lift, query, gets, or_raise, raise_when, write, new_key,
  commit, rollback, in_session, ◌>>=◌, ◌>>◌,
}
use road_vision_ai.Storage.{slash, partition, get_object}
use road_vision_ai.Repository.{update_rows}
use road_vision_ai.Repository.Inspections.{inspections}
use road_vision_ai.InspectionService.{set_status}
use road_vision_ai.Registry.{get_active}

-- A detection that is kept, with its image and its damage type.
pub record Found (W : Type 0) : Type 0 where
  pub image : RoadImage W
  pub det : Detection W
  pub damage_type : DamageType W

module _ {W : Type 0} ⦃f : Float W⦄ where
  -- The inputs of the PCI engine.
  unfoldable pub pci_input : Runtime W → Found W → DetectionInput W
  pci_input rt x = record {
    damage_code = x.det.damage_code;
    pci_weight = x.damage_type.pci_weight;
    severity = x.det.severity;
    rel_area = f.mul x.det.bbox_width x.det.bbox_height;
    image_id = rt.key_text x.image.id;
  }

  -- `max(deductions, key=...)`: the first of the greatest.
  max_from : TypeDeduction W → List (TypeDeduction W) → TypeDeduction W
  max_from best [] = best
  max_from best (d ∷ ds) = max_from (if f.lt best.deduction d.deduction then d else best) ds

  unfoldable pub dominant_of : List (TypeDeduction W) → Option String
  unfolding max_from
  dominant_of [] = none
  dominant_of (d ∷ ds) = some ((max_from d ds).damage_code)

  unfoldable pub confidence_of : List (Found W) → Option W
  confidence_of [] = none
  confidence_of (x ∷ xs) = some (
      f.round
        (f.div (f.sum (map (λ (y : Found W). y.det.confidence) (x ∷ xs)))
          (f.lit (length (x ∷ xs)) 0))
        4)

module _ {W D : Type 0} where
  -- The inner loop: the detections of one image whose code is known are stored.
  unfoldable pub store_detections : ℕ → RoadImage W → List (Detection W) → Exec W D (List (Found W))
  store_detections model_id image [] = pure []
  store_detections model_id image (det ∷ dets) = do
    known ← query (λ db. find (λ (t : DamageType W). str_eq t.code det.damage_code) db.damage_types)
    (elim known [
      | none ↦ store_detections model_id image dets
      | some damage_type ↦ (do
        id ← new_key
        now ← gets (λ s. s.now)
        let row : DamageDetection W = record {
          id = id;
          road_image_id = image.id;
          damage_type_id = damage_type.id;
          bbox_x = det.bbox_x;
          bbox_y = det.bbox_y;
          bbox_width = det.bbox_width;
          bbox_height = det.bbox_height;
          confidence_score = det.confidence;
          severity_score = det.severity;
          detected_at = now;
          created_at = now;
          area_m2 = none;
          model_id = some model_id;
        }
        write (λ db. record db { damage_detections = db.damage_detections ++ row ∷ [] })
        rest ← store_detections model_id image dets
        pure (record { image = image; det = det; damage_type = damage_type } ∷ rest))
    ])

  -- ON DELETE CASCADE: what goes with results that are deleted, their recommendations, the plans of
  -- these and the reports of those.
  unfoldable pub cascade : (AnalysisResult W → Bool) → Db W D → Db W D
  cascade gone db =
      let lost = λ (r : MaintenanceRecommendation W D).
        any (λ (a : AnalysisResult W). gone a && a.id == r.analysis_result_id)
          db.analysis_results in
      let dropped = λ (p : MaintenancePlan W).
        any (λ (r : MaintenanceRecommendation W D). lost r && r.id == p.recommendation_id)
          db.maintenance_recommendations in
      record db {
        maintenance_recommendations = select (λ r. not (lost r)) db.maintenance_recommendations;
        maintenance_plans = select (λ p. not (dropped p)) db.maintenance_plans;
        inspection_reports =
            select
              (λ (i : InspectionReport W). not (
                any (λ (p : MaintenancePlan W). dropped p && p.id == i.plan_id)
                  db.maintenance_plans))
              db.inspection_reports;
      }

  -- Re-analysis: the previous outputs are deleted.
  unfoldable pub clear_outputs : ℕ → List (RoadImage W) → Exec W D (Unit {0})
  unfolding cascade
  clear_outputs inspection_id images = do
    write (λ db. record db {
      damage_detections =
          select
            (λ (d : DamageDetection W).
              not (any (λ (i : RoadImage W). i.id == d.road_image_id) images))
            db.damage_detections;
      pci_scores =
          select (λ (p : PciScore W). not (p.inspection_id == inspection_id)) db.pci_scores;
    })
    write (cascade (λ a. a.inspection_id == inspection_id))
    write (λ db. record db {
      analysis_results =
          select (λ (a : AnalysisResult W). not (a.inspection_id == inspection_id))
            db.analysis_results;
    })

  -- `inspection.status = ...` and the commit.
  unfoldable pub finish : ℕ → InspectionStatus → Exec W D (Unit {0})
  unfolding inspections update_rows
  finish inspection_id status = do
    now ← gets (λ s. s.now)
    write (
        update_rows inspections (λ (r : Inspection). r.id == inspection_id) (set_status status) now)
    commit

  -- The `except` clause of `run_analysis`.
  unfoldable pub recover : ℕ → Exec W D (Unit {0})
  unfolding finish
  recover inspection_id = do
    rollback
    inspection ← query (λ db. find (λ (r : Inspection). r.id == inspection_id) db.inspections)
    (elim inspection [ none ↦ pure tt | some r ↦ finish inspection_id InspectionStatus.erreur ])

-- The `try` of `run_analysis`, from what `_run` led to.
unfoldable pub settle :
    {W D : Type 0} → ℕ → Result (Unit {0}) × World W D → Result (Unit {0}) × World W D
unfolding recover
settle inspection_id (ok a, s) = (ok tt, s)
settle inspection_id (err e, s) = recover inspection_id s

module _ {W D : Type 0} ⦃f : Float W⦄ (rt : Runtime W) where
  -- The loop over the images.
  unfoldable pub analyse_images : Detector → List (RoadImage W) → Exec W D (List (Found W))
  unfolding store_detections get_object
  analyse_images detector [] = pure []
  analyse_images detector (image ∷ images) = do
    let (bucket, object_name) = partition image.storage_path
    content ← get_object bucket object_name
    boxes ← lift (rt.predict detector.weights content)
    found ← store_detections detector.model_id image (detect rt.upper detector.class_mapping boxes)
    rest ← analyse_images detector images
    pure (found ++ rest)

  -- The rows of `pci_scores` and `analysis_results`.
  unfoldable pub save_outputs : ℕ → List (Found W) → PciResult W → Exec W D (Unit {0})
  unfolding dominant_of confidence_of
  save_outputs inspection_id found pci = do
    score_id ← new_key
    result_id ← new_key
    now ← gets (λ s. s.now)
    let score : PciScore W = record {
      id = score_id;
      inspection_id = inspection_id;
      score = pci.score;
      severity_level = pci.severity_level;
      priority_level = pci.priority_level;
      computed_at = now;
      priority_score = none;
    }
    let result : AnalysisResult W = record {
      id = result_id;
      inspection_id = inspection_id;
      total_detections = length found;
      created_at = now;
      dominant_damage_type = dominant_of pci.deductions;
      overall_severity = some pci.severity_level;
      recommendation_confidence = confidence_of found;
      processing_time_ms = some rt.elapsed_ms;
    }
    write (λ db. record db {
      pci_scores = db.pci_scores ++ score ∷ [];
      analysis_results = db.analysis_results ++ result ∷ [];
    })

  -- `_run` up to the last change of status.
  unfoldable pub analyse : ℕ → Exec W D (Unit {0})
  unfolding get_detector clear_outputs analyse_images save_outputs
  analyse inspection_id = do
    inspection ← query (λ db. find (λ (r : Inspection). r.id == inspection_id) db.inspections)
    or_raise inspection runtime_error
    images ←
        query (λ db. select (λ (i : RoadImage W). i.inspection_id == inspection_id) db.road_images)
    raise_when (length images == 0) runtime_error
    detector ← get_detector rt
    clear_outputs inspection_id images
    found ← analyse_images detector images
    pci ← lift (compute_pci (map (pci_input rt) found) (length images))
    save_outputs inspection_id found pci

  -- `_run`
  unfoldable pub run : ℕ → Exec W D (Unit {0})
  unfolding finish
  run inspection_id = do analyse inspection_id; finish inspection_id InspectionStatus.terminee

  -- `run_analysis`, without its session.
  unfoldable pub attempt : ℕ → Exec W D (Unit {0})
  unfolding settle
  attempt inspection_id s = settle inspection_id (run inspection_id s)

  -- `run_analysis`
  unfoldable pub run_analysis : ℕ → Exec W D (Unit {0})
  unfolding attempt
  run_analysis inspection_id = in_session (attempt inspection_id)
