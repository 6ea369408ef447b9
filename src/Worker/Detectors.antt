-- ===== src/Worker/Detectors.antt =====
-- The worker's detector: `_get_detector` of backend/app/workers/analysis_worker.py, and
-- `load_artifacts` of backend/app/ai/detection/model_registry.py.
pub mod Artifacts
use road_vision_ai.Base.{
  ℕ, String, List, [], ◌∷◌, ◌++◌, Option, none, some, Exn, Result, ok, err, runtime_error, http,
  ◌==◌, find, if◌then◌else◌,
}
use road_vision_ai.Text.{Text, codes}
use road_vision_ai.Float.{Float}
use road_vision_ai.Schema.{AiModel}
use road_vision_ai.Detection.{Box}
use road_vision_ai.Store.{Detector, Exec, pure, gets, or_raise, raise_fault, ◌>>=◌, ◌>>◌}
use road_vision_ai.Storage.{slash, partition, get_object}
use road_vision_ai.Registry.{get_active}

-- What is no code of the repository: Python's `upper`, the prediction of YOLO (from the weights and
-- an image) and what the loading of weights raises, if anything, `json.loads(config).get("class_mapping", {})`, `str` of a key, and the clock.
pub record Runtime (W : Type 0) : Type 0 where
  pub upper : String → String
  pub predict : Text → Text → Result (List (Box W))
  pub load_fault : Text → Option Exn
  pub class_mapping_of : Text → Result (List (String × String))
  pub key_text : ℕ → String
  pub elapsed_ms : ℕ

-- `path.rsplit("/", 1)[0]`: up to the last slash, or the whole.
rsplit_from : Text → Option Text
rsplit_from [] = none
rsplit_from (c ∷ s) = elim (rsplit_from s) [
  | some t ↦ some (c ∷ t)
  | none ↦ if c == slash then some [] else none
]

unfoldable pub rsplit : Text → Text
unfolding rsplit_from
rsplit s = elim (rsplit_from s) [ some t ↦ t | none ↦ s ]

-- The value, or nothing if it raised.
abbrev pub or_empty {ℓ} : {A : Type ℓ} → Result (List A) → List A
or_empty (ok xs) = xs
or_empty (err e) = []

-- `not model.weights_path`: the empty path is false too.
unfoldable pub path_of : Option Text → Option Text
path_of none = none
path_of (some []) = none
path_of (some (c ∷ s)) = some (c ∷ s)

module _ {W D : Type 0} ⦃f : Float W⦄ (rt : Runtime W) where
  -- The class mapping, or the empty one after any exception.
  unfoldable pub config_of : Text → Text → Exec W D (List (String × String))
  config_of bucket name s = elim ((get_object bucket name s).0) [
    | ok raw ↦ (ok (or_empty (rt.class_mapping_of raw)), s)
    | err e ↦ (ok [], s)
  ]

  -- `load_artifacts`
  unfoldable pub load_artifacts : AiModel W → Exec W D (Text × List (String × String))
  unfolding config_of rsplit get_object path_of
  load_artifacts model = do
    path ← or_raise (path_of model.weights_path) (http 409)
    let (bucket, object_name) = partition path
    weights ← get_object bucket object_name
    mapping ← config_of bucket (rsplit object_name ++ slash ∷ codes "model_config.json")
    pure (weights, mapping)

  -- `_get_detector` for a model that is not in the cache
  unfoldable pub load_detector : AiModel W → Exec W D Detector
  unfolding load_artifacts
  load_detector model = do
    artifacts ← load_artifacts model
    raise_fault (rt.load_fault artifacts.0)
    let detector : Detector = record {
      model_id = model.id;
      weights = artifacts.0;
      class_mapping = artifacts.1;
    }
    (λ s. (ok tt, record s { detectors = detector ∷ s.detectors }))
    pure detector

  -- `_get_detector`
  unfoldable pub get_detector : Exec W D Detector
  unfolding load_detector get_active
  get_detector = do
    active ← get_active
    model ← or_raise active runtime_error
    cached ← gets (λ s. find (λ (d : Detector). d.model_id == model.id) s.detectors)
    (elim cached [ some d ↦ pure d | none ↦ load_detector model ])
