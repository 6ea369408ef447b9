-- ===== src/AuditTrail/Tasks.antt =====
-- The analysis worker, as far as the audit log goes: it writes no entry and drops none.
use road_vision_ai.Base.{
  ℕ, ◌==◌, inl, inr, List, [], ◌∷◌, ◌++◌, Result, ok, err, find, str_eq, runtime_error,
  Result-cases, Option-cases,
}
use road_vision_ai.Text.{Text}
use road_vision_ai.Float.{Float}
use road_vision_ai.Enums.{InspectionStatus}
use road_vision_ai.Schema.{AuditLog, AiModel, Inspection, DamageType, RoadImage}
use road_vision_ai.Detection.{Detection, detect}
use road_vision_ai.Pci.{PciResult}
use road_vision_ai.Store.{Exec, World, Detector, pure, lift, gets, or_raise}
use road_vision_ai.Store.Preserves.{
  Preserves, Preserves-cases, Preserves-lift, Preserves-bind, Preserves-pure, Preserves-query,
  Preserves-gets, Preserves-or_raise, reading,
}
use road_vision_ai.Storage.{partition, get_object}
use road_vision_ai.Registry.{get_active}
use road_vision_ai.Repository.Inspections.{inspections}
use road_vision_ai.Worker.{
  Found, store_detections, clear_outputs, finish, recover, settle, analyse_images, save_outputs,
  analyse, run, attempt, run_analysis,
}
use road_vision_ai.Worker.Detectors.{
  Runtime, config_of, load_artifacts, load_detector, get_detector,
}
use road_vision_ai.AuditTrail.{Extends, IsLogged, in_session-Extends, writing}

module _ {W D : Type 0} (old : List (AuditLog W)) where
  abbrev Logs : {A : Type 0} → Exec W D A → Type 0
  Logs m = Preserves (IsLogged {D = D} old) m

  store_detections-IsLogged :
      (model_id : ℕ) (image : RoadImage W) (dets : List (Detection W))
      → Logs (store_detections model_id image dets)
  unfolding store_detections
  store_detections-IsLogged model_id image [] = search (reading, writing) depth 60 fits 3000
  store_detections-IsLogged model_id image (det ∷ dets) =
      let rest = store_detections-IsLogged model_id image dets in
      record {
        at = λ s p.
            (Preserves-cases
                (find (λ (t : DamageType W). str_eq t.code det.damage_code) s.working.damage_types)
                _ _ rest
                (λ kind. record {
                  at = λ t q.
                      (Preserves-bind _
                          (λ found.
                            pure (record { image = image; det = det; damage_type = kind } ∷ found))
                          rest (λ found. Preserves-pure _)).at
                        _ q;
                })).at
              s p;
      }

  clear_outputs-IsLogged : (id : ℕ) (images : List (RoadImage W)) → Logs (clear_outputs id images)
  unfolding clear_outputs
  clear_outputs-IsLogged id images = search (reading, writing) depth 60 fits 5000

  finish-IsLogged : (id : ℕ) (status : InspectionStatus) → Logs (finish id status)
  unfolding finish inspections
  finish-IsLogged id status = search (reading, writing) depth 60 fits 5000

  recover-IsLogged : (id : ℕ) → Logs (recover id)
  unfolding recover
  recover-IsLogged id = record {
    at = λ s p.
        (Preserves-cases (find (λ (r : Inspection). r.id == id) s.committed.inspections) _ _
            (Preserves-pure tt) (λ r. finish-IsLogged id InspectionStatus.erreur)).at
          _ (p.1, p.1);
  }

  module _ ⦃f : Float W⦄ (rt : Runtime W) where
    save_outputs-IsLogged :
        (id : ℕ) (found : List (Found W)) (pci : PciResult W) → Logs (save_outputs rt id found pci)
    unfolding save_outputs
    save_outputs-IsLogged id found pci = search (reading, writing) depth 60 fits 5000

    get_object-IsLogged : (bucket name : Text) → Logs (get_object bucket name)
    unfolding get_object
    get_object-IsLogged bucket name = search (reading, writing) depth 60 fits 3000

    config_of-IsLogged : (bucket name : Text) → Logs (config_of rt bucket name)
    unfolding config_of
    config_of-IsLogged bucket name = record {
      at = λ s p. elim (Result-cases (get_object bucket name s).0) [
        | inl (a, e) ↦ rw (e, config_of) p
        | inr (a, e) ↦ rw (e, config_of) p
      ];
    }

    load_artifacts-IsLogged : (model : AiModel W) → Logs (load_artifacts rt model)
    unfolding load_artifacts
    load_artifacts-IsLogged model =
        search (reading, writing, get_object-IsLogged, config_of-IsLogged) depth 60 fits 3000

    load_detector-IsLogged : (model : AiModel W) → Logs (load_detector rt model)
    unfolding load_detector
    load_detector-IsLogged model = Preserves-bind _ _ (load_artifacts-IsLogged model) (λ artifacts.
        record {
          at = λ s p. elim (Option-cases (rt.load_fault artifacts.0)) [
            | inl e ↦ rw e p
            | inr (x, e) ↦ rw e p
          ];
        })

    get_detector-IsLogged : Logs (get_detector rt)
    unfolding get_detector get_active
    get_detector-IsLogged = Preserves-bind get_active _ (Preserves-query _) (λ active.
        Preserves-bind (or_raise active runtime_error) _ (Preserves-or_raise _ _) (λ model.
          Preserves-bind (gets (λ s. find (λ (d : Detector). d.model_id == model.id) s.detectors)) _
            (Preserves-gets _)
            (λ cached.
              Preserves-cases cached _ _ (load_detector-IsLogged model) (λ d. Preserves-pure d))))

    analyse_images-IsLogged :
        (detector : Detector) (images : List (RoadImage W))
        → Logs (analyse_images rt detector images)
    unfolding analyse_images
    analyse_images-IsLogged detector [] = search (reading, writing) depth 60 fits 3000
    analyse_images-IsLogged detector (image ∷ images) =
        let (bucket, object_name) = partition image.storage_path in
        Preserves-bind (get_object bucket object_name) _ (get_object-IsLogged bucket object_name)
          (λ content.
            Preserves-bind (lift (rt.predict detector.weights content)) _ (Preserves-lift _)
              (λ boxes.
                let dets = detect rt.upper detector.class_mapping boxes in
                Preserves-bind (store_detections detector.model_id image dets) _
                  (store_detections-IsLogged detector.model_id image dets)
                  (λ found.
                    Preserves-bind (analyse_images rt detector images) _
                      (analyse_images-IsLogged detector images)
                      (λ rest. Preserves-pure (found ++ rest)))))

    analyse-IsLogged : (id : ℕ) → Logs (analyse rt id)
    unfolding analyse
    analyse-IsLogged id =
        search
          (
            reading, writing, get_detector-IsLogged, clear_outputs-IsLogged,
            analyse_images-IsLogged, save_outputs-IsLogged,
          )
          depth 60 fits 5000

    run-IsLogged : (id : ℕ) → Logs (run rt id)
    unfolding run
    run-IsLogged id =
        search (reading, writing, analyse-IsLogged, finish-IsLogged) depth 60 fits 3000

    settle-IsLogged :
        (id : ℕ) (r : Result (Unit {0})) (s : World W D)
        → IsLogged old s
        → IsLogged old (settle id (r, s)).1
    unfolding settle
    settle-IsLogged id (ok a) s p = p
    settle-IsLogged id (err e) s p = (recover-IsLogged id).at s p

    attempt-IsLogged : (id : ℕ) → Logs (attempt rt id)
    unfolding attempt
    attempt-IsLogged id = record {
      at = λ s p. settle-IsLogged id (run rt id s).0 (run rt id s).1 ((run-IsLogged id).at s p);
    }

    pub run_analysis-Extends :
        (id : ℕ) (s : World W D)
        → Extends old s.committed.audit_logs
        → Extends old (run_analysis rt id s).1.committed.audit_logs
    unfolding run_analysis
    run_analysis-Extends id s = in_session-Extends old (attempt rt id) s (attempt-IsLogged id)
