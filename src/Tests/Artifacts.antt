-- ===== src/Tests/Artifacts.antt =====
-- Examples of registrations.
use road_vision_ai.Base.{◌≡◌, refl, false, [], ◌∷◌, none, ok, any}
use road_vision_ai.Float.Fixed.{Fixed, fixed}
use road_vision_ai.Schema.{AiModel}
use road_vision_ai.Store.{World}
use road_vision_ai.Storage.{HasNoSlash}
use road_vision_ai.Registry.{Metadata, is_named, register}
use road_vision_ai.Worker.{load_artifacts}
use road_vision_ai.Worker.Detectors.Artifacts.{load_artifacts-register, register_collides}
use road_vision_ai.Tests.{engineer, world}
use road_vision_ai.Tests.Requests.{settings, runtime}

abbrev unknown : Metadata Fixed
unknown = record {
  framework = none;
  description = none;
  dataset_name = none;
  dataset_version = none;
  dataset_size = none;
  num_classes = none;
  epochs = none;
  batch_size = none;
  image_size = none;
  learning_rate = none;
  map50 = none;
  map50_95 = none;
  precision_score = none;
  recall_score = none;
  f1_score = none;
  inference_ms = none;
  notes = none;
}

abbrev nested : World Fixed Fixed
nested = (register settings "yolo/nano" "v1" (1 ∷ []) (2 ∷ []) unknown engineer world).1

first :
    (m : AiModel Fixed) × ((register settings "yolo/nano" "v1"
        (1 ∷ [])
        (2 ∷ [])
        unknown
        engineer
        world).0
      ≡ ok m)
unfolding register is_named
first = (_, refl)

bucket-HasNoSlash : HasNoSlash settings.minio_bucket_models
bucket-HasNoSlash = (refl, (refl, (refl, (refl, (refl, (refl, tt))))))

load_artifacts-register_example : (load_artifacts runtime first.0 nested).0 ≡ ok (1 ∷ [], [])
load_artifacts-register_example =
    load_artifacts-register settings "yolo/nano" "v1" (1 ∷ []) (2 ∷ []) unknown engineer world
      runtime {m = first.0} nested bucket-HasNoSlash first.1 refl

fresh : any (is_named "yolo" "nano/v1") nested.working.ai_models ≡ false
unfolding register is_named road_vision_ai.Registry.new_model
fresh = refl

register_collides_example :
    let (answer, t) =
      register settings "yolo" "nano/v1" (3 ∷ []) (4 ∷ []) unknown engineer nested in
    (m' : AiModel Fixed) × (answer ≡ ok m')
    × ((load_artifacts runtime first.0 t).0 ≡ ok (3 ∷ [], []))
register_collides_example =
    register_collides runtime settings "yolo/nano" "v1" "yolo" "nano/v1" (1 ∷ []) (2 ∷ []) (3 ∷ [])
      (4 ∷ []) unknown unknown engineer engineer world {m = first.0} bucket-HasNoSlash refl first.1
      fresh
