-- ===== src/Tests/Requests.antt =====
-- Examples of requests, on a small world.
use road_vision_ai.Base.{ℕ, true, map, ◌≡◌, refl, false, [], ◌∷◌, none, some, http, ok, err}
use road_vision_ai.Text.{codes}
use road_vision_ai.Float.Fixed.{Fixed, fixed}
use road_vision_ai.Enums.{InspectionStatus}
use road_vision_ai.Schema.{Inspection}
use road_vision_ai.Store.{World, in_session}
use road_vision_ai.Storage.{Settings}
use road_vision_ai.Repository.Inspections.{images_of}
use road_vision_ai.Repository.Laws.{live_row}
use road_vision_ai.InspectionService.{
  InspectionUpdate, AnalysisAccepted, patch, has_values, can_start, update, request_analysis,
}
use road_vision_ai.InspectionService.Revision.{revised}
use road_vision_ai.InspectionService.Locking.{update_answer, update_conflict}
use road_vision_ai.InspectionService.Workflow.{
  accepted, request_analysis_answer, request_analysis_once,
}
use road_vision_ai.InspectionService.Atomic.{Request, serve, serve_raised}
use road_vision_ai.Registry.{promote}
use road_vision_ai.Registry.SingleActive.{in_production, active, promote_ok, promote_answer}
use road_vision_ai.InspectionService.{UploadFile, delete, detail, upload_image}
use road_vision_ai.InspectionService.Deletion.{delete_hides}
use road_vision_ai.Worker.{Runtime, analyse, get_detector, load_artifacts, run_analysis}
use road_vision_ai.Worker.Outcome.{status_of, closed, start, run_analysis_ends, run_analysis_failed}
use road_vision_ai.Tests.{engineer, waiting, model, world}

abbrev rain : InspectionUpdate
rain = record { version = 1; weather_cond = some "pluie"; notes = none }

abbrev note : InspectionUpdate
note = record { version = 1; weather_cond = none; notes = some "rive" }

update_answer_example : (update 5 rain engineer world).0 ≡ ok (revised rain 200 waiting)
update_answer_example = update_answer 5 rain engineer world

rained : (r : Inspection) × ((in_session (update 5 rain engineer) world).0 ≡ ok r)
unfolding in_session update has_values road_vision_ai.Repository.Inspections.increment_version
    road_vision_ai.Repository.Inspections.same_row
    road_vision_ai.Repository.Inspections.set_updated_at patch
rained = (_, refl)

update_conflict_example :
    let s' = (in_session (update 5 rain engineer) world).1 in
    let (answer, s'') = in_session (update 5 note engineer) s' in
    (answer ≡ err (http 409)) × (s''.committed ≡ s'.committed)
unfolding patch has_values road_vision_ai.Repository.Inspections.opt_eq
update_conflict_example =
    update_conflict 5 rain note engineer engineer world {r = waiting} {r' = rained.0} refl
      ((λ h. refl), tt) refl refl refl rained.1

request_analysis_answer_example : (request_analysis 5 engineer world).0 ≡ ok (accepted waiting)
unfolding images_of
request_analysis_answer_example = request_analysis_answer 5 engineer world

begun : (a : AnalysisAccepted) × ((in_session (request_analysis 5 engineer) world).0 ≡ ok a)
unfolding in_session request_analysis can_start
begun = (_, refl)

request_analysis_once_example :
    let s' = (in_session (request_analysis 5 engineer) world).1 in
    let (answer, s'') = in_session (request_analysis 5 engineer) s' in
    (r' : Inspection) × (live_row 5 s'.committed.inspections ≡ some r')
    × (r'.status ≡ InspectionStatus.en_cours)
    × (r'.version ≡ 2)
    × (answer ≡ err (http 409))
    × (s''.committed ≡ s'.committed)
request_analysis_once_example =
    request_analysis_once 5 engineer engineer world {r = waiting} {a = begun.0} refl begun.1

abbrev pub settings : Settings Fixed
settings = record {
  jwt_secret_key = "0123456789abcdef0123456789abcdef";
  jwt_algorithm = "HS256";
  access_token_expire_minutes = 30;
  refresh_token_expire_days = 7;
  minio_bucket_road_images = codes "road-images";
  minio_bucket_reports = codes "reports";
  minio_bucket_models = codes "models";
  rag_chunk_size = 500;
  rag_chunk_overlap = 50;
  rag_top_k = 5;
  rag_similarity_threshold = 750000;
}

abbrev stale : Request Fixed
stale = Request.change 5 (record rain { version = 7 })

refused : (in_session (serve settings (λ t. none) engineer stale) world).0 ≡ err (http 409)
unfolding in_session serve update has_values
refused = refl

serve_raised_example :
    ((in_session (serve settings (λ t. none) engineer stale) world).1.committed ≡ world.committed)
    × ((in_session (serve settings (λ t. none) engineer stale) world).1.working ≡ world.committed)
serve_raised_example = serve_raised settings (λ t. none) engineer stale world {e = http 409} refused

promote_ok_example :
    let (answer, s') = promote 2 engineer world in
    (answer ≡ ok (in_production 200 (model 2 false)))
    × (s'.committed ≡ s'.working)
    × (active s'.committed.ai_models ≡ in_production 200 (model 2 false) ∷ [])
promote_ok_example =
    promote_ok 2 engineer world {m = model 2 false} ((refl, tt), (tt, tt)) refl refl

promote_answer_example : (promote 1 engineer world).0 ≡ err (http 409)
promote_answer_example = promote_answer 1 engineer world ((refl, tt), (tt, tt))

abbrev pub runtime : Runtime Fixed
runtime = record {
  upper = λ s. s;
  predict = λ weights content. ok [];
  load_fault = λ weights. none;
  class_mapping_of = λ t. ok [];
  key_text = λ n. "8";
  elapsed_ms = 40;
}

-- A world whose active model has its weights in the store, with the image.
abbrev pub equipped : World Fixed Fixed
equipped = record world {
  committed = record world.committed {
    ai_models = record (model 1 true) { weights_path = some (codes "models/yolo/1/best.pt") } ∷ [];
  };
  objects =
      record { bucket = codes "models"; object_name = codes "yolo/1/best.pt"; content = 1 ∷ [] }
      ∷ record { bucket = codes "road-images"; object_name = codes "5/a.jpg"; content = 2 ∷ [] }
      ∷ [];
}

run_analysis_ends_example :
    ((run_analysis runtime 5 equipped).0 ≡ ok tt)
    × (status_of 5 (run_analysis runtime 5 equipped).1.committed.inspections
        ≡ elim (analyse runtime 5 (start runtime 5 equipped)).0 [
          | ok u ↦ some InspectionStatus.terminee
          | err e ↦ some InspectionStatus.erreur
        ])
run_analysis_ends_example = run_analysis_ends runtime 5 equipped

-- The active model of this world has no weights.
unarmed : (analyse runtime 5 (start runtime 5 world)).0 ≡ err (http 409)
unfolding analyse get_detector load_artifacts
unarmed = refl

run_analysis_failed_example :
    (now : ℕ) × ((run_analysis runtime 5 world).1.committed ≡ record world.committed {
      inspections = map (closed 5 InspectionStatus.erreur now) world.committed.inspections;
    })
run_analysis_failed_example =
    run_analysis_failed runtime 5 world {e = http 409} {r = waiting} unarmed refl

deleted : (in_session (delete 5 engineer) world).0 ≡ ok tt
unfolding in_session delete
deleted = refl

abbrev file : UploadFile
file = record { filename = none; content_type = some (codes "image/png"); content = 1 ∷ [] }

delete_hides_example :
    let s' = (in_session (delete 5 engineer) world).1 in
    ((in_session (detail 5) s').0 ≡ err (http 404))
    × ((in_session (update 5 rain engineer) s').0 ≡ err (http 404))
    × ((in_session (upload_image settings (λ t. none) 5 file none none engineer) s').0
        ≡ err (http 404))
    × ((in_session (request_analysis 5 engineer) s').0 ≡ err (http 404))
    × ((in_session (delete 5 engineer) s').0 ≡ err (http 404))
delete_hides_example =
    delete_hides 5 engineer world rain settings (λ t. none) file none none deleted
