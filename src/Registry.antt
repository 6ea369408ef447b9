-- ===== src/Registry.antt =====
-- ModelRegistryService (backend/app/ai/detection/model_registry.py): the model registry (SM4).
pub mod SingleActive
use road_vision_ai.Base.{
  ℕ, zero, suc, ◌+◌, ◌*◌, ◌≡◌, Bool, true, false, not, ◌&&◌, String, List, [], ◌∷◌, ◌++◌, map,
  Option, none, some, http, ◌==◌, str_eq, find, any, length, is_some, Result, ok, err,
  integrity_error, ltb, select, if◌then◌else◌,
}
use road_vision_ai.Text.{Text, codes}
use road_vision_ai.Float.{Float}
use road_vision_ai.Json.{Json, Fields}
use road_vision_ai.Enums.{ModelStatus, ModelFramework}
use road_vision_ai.Schema.{AiModel, User}
use road_vision_ai.Base.Sort.{sorted}
use road_vision_ai.Store.{
  Db, World, Exec, pure, raise, query, gets, or_raise, raise_when, write, new_key, commit, ◌>>=◌,
  ◌>>◌,
}
use road_vision_ai.Storage.{Settings, slash, partition, put_object, get_object}
use road_vision_ai.Repository.{audit_log}

-- The optional columns of a new model that its metadata may give.
pub record Metadata (W : Type 0) : Type 0 where
  pub framework : Option ModelFramework
  pub description : Option String
  pub dataset_name : Option String
  pub dataset_version : Option String
  pub dataset_size : Option ℕ
  pub num_classes : Option ℕ
  pub epochs : Option ℕ
  pub batch_size : Option ℕ
  pub image_size : Option ℕ
  pub learning_rate : Option W
  pub map50 : Option W
  pub map50_95 : Option W
  pub precision_score : Option W
  pub recall_score : Option W
  pub f1_score : Option W
  pub inference_ms : Option W
  pub notes : Option String

or_framework : Option ModelFramework → ModelFramework
or_framework none = ModelFramework.yolov11
or_framework (some x) = x

module _ {W : Type 0} where
  unfoldable pub is_named : String → String → AiModel W → Bool
  is_named name version m = str_eq m.name name && str_eq m.version version

  -- `UPDATE ai_models SET is_active = false, ... WHERE is_active`
  unfoldable pub retire : ℕ → AiModel W → AiModel W
  retire now m =
      if m.is_active
      then record m {
        is_active = false;
        status = ModelStatus.deprecated;
        deprecated_at = some now;
        updated_at = now;
      }
      else m

  unfoldable pub crown : ℕ → ℕ → AiModel W → AiModel W
  crown id now m =
      if m.id == id
      then record m {
        is_active = true;
        status = ModelStatus.production;
        deployed_at = some now;
        updated_at = now;
      }
      else m

  -- uq_one_active_model
  unfoldable pub one_active : List (AiModel W) → Bool
  one_active ms = ltb (length (select (λ (m : AiModel W). m.is_active) ms)) 2

module _ {W : Type 0} ⦃f : Float W⦄ where
  -- `round(len(weights) / (1024 * 1024), 2)`
  unfoldable pub size_mb : Text → W
  size_mb weights = f.round (f.div (f.lit (length weights) 0) (f.lit 1048576 0)) 2

  -- The row of a new model: it is in STAGING and not active.
  unfoldable pub new_model :
      ℕ → ℕ → Settings W → String → String → Text → Metadata W → User → AiModel W
  unfolding or_framework size_mb
  new_model id now settings name version weights metadata actor = record {
    id = id;
    name = name;
    version = version;
    framework = or_framework metadata.framework;
    status = ModelStatus.staging;
    is_active = false;
    trained_at = now;
    created_at = now;
    updated_at = now;
    description = metadata.description;
    dataset_name = metadata.dataset_name;
    dataset_version = metadata.dataset_version;
    dataset_size = metadata.dataset_size;
    num_classes = metadata.num_classes;
    epochs = metadata.epochs;
    batch_size = metadata.batch_size;
    image_size = metadata.image_size;
    learning_rate = metadata.learning_rate;
    map50 = metadata.map50;
    map50_95 = metadata.map50_95;
    precision_score = metadata.precision_score;
    recall_score = metadata.recall_score;
    f1_score = metadata.f1_score;
    inference_ms = metadata.inference_ms;
    weights_path = some (
        settings.minio_bucket_models
        ++ slash ∷ codes name
        ++ slash ∷ codes version
        ++ slash ∷ codes "best.pt");
    model_size_mb = some (size_mb weights);
    deployed_at = none;
    deprecated_at = none;
    trained_by = some actor.id;
    notes = metadata.notes;
  }

module _ {W D : Type 0} ⦃f : Float W⦄ where
  -- `config_text` is the JSON text of the class mapping and the time, which Python's library makes.
  unfoldable pub register :
      Settings W → String → String → Text → Text → Metadata W → User → Exec W D (AiModel W)
  unfolding put_object audit_log is_named
  register settings name version weights config_text metadata actor = do
    exists ← query (λ db. any (is_named name version) db.ai_models)
    raise_when exists (http 409)
    let prefix = codes name ++ slash ∷ codes version
    put_object settings.minio_bucket_models (prefix ++ slash ∷ codes "best.pt") weights
    put_object settings.minio_bucket_models (prefix ++ slash ∷ codes "model_config.json")
        config_text
    id ← new_key
    now ← gets (λ s. s.now)
    let model : AiModel W = new_model id now settings name version weights metadata actor
    write (λ db. record db { ai_models = db.ai_models ++ model ∷ [] })
    audit_log "MODEL_REGISTERED" "ai_models" id (some actor.id)
        (some (
          Json.obj (
            Fields.field "name" (Json.str name) (
              Fields.field "version" (Json.str version)
                (Fields.field "size_mb" (Json.real (size_mb weights)) Fields.end)))))
        none none
    commit
    pure model

  unfoldable pub promote : ℕ → User → Exec W D (AiModel W)
  unfolding retire crown one_active audit_log
  promote model_id actor = do
    found ← query (λ db. find (λ (m : AiModel W). m.id == model_id) db.ai_models)
    model ← or_raise found (http 404)
    raise_when model.is_active (http 409)
    now ← gets (λ s. s.now)
    write (λ db. record db { ai_models = map (retire now) db.ai_models })
    write (λ db. record db { ai_models = map (crown model_id now) db.ai_models })
    unique ← query (λ db. one_active db.ai_models)
    raise_when (not unique) integrity_error
    audit_log "MODEL_PROMOTED" "ai_models" model.id (some actor.id)
        (some (
          Json.obj (
            Fields.field "name" (Json.str model.name)
              (Fields.field "version" (Json.str model.version) Fields.end))))
        none none
    commit
    promoted ← query (λ db. find (λ (m : AiModel W). m.id == model_id) db.ai_models)
    or_raise promoted (http 404)

  unfoldable pub get_active : Exec W D (Option (AiModel W))
  get_active = query (λ db. find (λ (m : AiModel W). m.is_active) db.ai_models)

  -- The latest training first.
  unfoldable pub list_models : Exec W D (List (AiModel W))
  list_models =
      query (λ db. sorted (λ (a b : AiModel W). ltb b.trained_at a.trained_at) db.ai_models)
