-- ===== src/Api/Models.antt =====
-- backend/app/api/v1/endpoints/models.py, with ModelRegisterMetadata of
-- backend/app/schemas/ai_model.py.
use road_vision_ai.Base.{
  ℕ, Bool, ◌&&◌, String, List, [], ◌∷◌, Option, none, some, http, ◌==◌, ltb, leb, length,
  if◌then◌else◌,
}
use road_vision_ai.Text.{Text}
use road_vision_ai.Float.{Float}
use road_vision_ai.Json.{Json, Fields}
use road_vision_ai.Enums.{UserRole}
use road_vision_ai.Schema.{AiModel}
use road_vision_ai.Detection.{default_class_to_code}
use road_vision_ai.Store.{Exec, gets, or_raise, raise_when, ◌>>=◌, ◌>>◌}
use road_vision_ai.Auth.{get_current_user, require_roles}
use road_vision_ai.Registry
use road_vision_ai.Registry.{Metadata}
use road_vision_ai.Api.{ModelRegisterMetadata, Outside, validate, has_length, optional}

abbrev pub max_weights_bytes : ℕ
max_weights_bytes = 524288000

-- The bounds of the fields.
unfoldable pub is_in_bounds : {W : Type 0} ⦃f : Float W⦄ → ModelRegisterMetadata W → Bool
is_in_bounds {W} ⦃f⦄ m =
    let is_unit = λ (x : W). f.le (f.lit 0 0) x && f.le x (f.lit 1 0) in
    optional (leb 1) m.dataset_size
    && optional (leb 1) m.num_classes
    && optional (leb 1) m.epochs
    && optional (leb 1) m.batch_size
    && optional (leb 32) m.image_size
    && optional is_unit m.map50
    && optional is_unit m.map50_95
    && optional is_unit m.precision_score
    && optional is_unit m.recall_score

-- `meta.model_dump()`
unfoldable pub dumped : {W : Type 0} → ModelRegisterMetadata W → Metadata W
dumped m = record {
  framework = none;
  description = m.description;
  dataset_name = m.dataset_name;
  dataset_version = m.dataset_version;
  dataset_size = m.dataset_size;
  num_classes = m.num_classes;
  epochs = m.epochs;
  batch_size = m.batch_size;
  image_size = m.image_size;
  learning_rate = none;
  map50 = m.map50;
  map50_95 = m.map50_95;
  precision_score = m.precision_score;
  recall_score = m.recall_score;
  f1_score = none;
  inference_ms = none;
  notes = m.notes;
}

-- `{}`
abbrev pub no_metadata : {W : Type 0} → ModelRegisterMetadata W
no_metadata = record {
  description = none;
  dataset_name = none;
  dataset_version = none;
  dataset_size = none;
  num_classes = none;
  epochs = none;
  batch_size = none;
  image_size = none;
  map50 = none;
  map50_95 = none;
  precision_score = none;
  recall_score = none;
  notes = none;
}

fields_of : {W : Type 0} → List (String × String) → Fields W
fields_of [] = Fields.end
fields_of ((k, v) ∷ d) = Fields.field k (Json.str v) (fields_of d)

-- `json.loads(class_mapping) if class_mapping else dict(DEFAULT_CLASS_TO_CODE)`; `none` stands for
-- the exception.
unfoldable pub mapping_of : {W : Type 0} → (Text → Option (Json W)) → Option Text → Option (Json W)
unfolding fields_of default_class_to_code
mapping_of loads none = some (Json.obj (fields_of default_class_to_code))
mapping_of loads (some []) = some (Json.obj (fields_of default_class_to_code))
mapping_of loads (some (c ∷ s)) = loads (c ∷ s)

in_bounds : {W : Type 0} ⦃f : Float W⦄ → Option (ModelRegisterMetadata W) → Option (Metadata W)
unfolding is_in_bounds dumped
in_bounds none = none
in_bounds (some m) = if is_in_bounds m then some (dumped m) else none

-- `ModelRegisterMetadata.model_validate_json(metadata) if metadata else None`, dumped.
unfoldable pub metadata_of :
    {W : Type 0} ⦃f : Float W⦄
    → (Text → Option (ModelRegisterMetadata W))
    → Option Text
    → Option (Metadata W)
unfolding in_bounds dumped
metadata_of read none = some (dumped no_metadata)
metadata_of read (some []) = some (dumped no_metadata)
metadata_of read (some (c ∷ s)) = in_bounds (read (c ∷ s))

module _ {W D T : Type 0} ⦃f : Float W⦄ (outside : Outside W D T) (credentials : Option T) where
  open outside use {settings, crypto, loads, dumps, read_metadata}

  -- The parts of the form: the weights, `name`, `version`, `class_mapping` and `metadata`.
  unfoldable pub register_model :
      Text → String → String → Option Text → Option Text → Exec W D (AiModel W)
  unfolding validate has_length mapping_of metadata_of
  register_model weights name version class_mapping metadata = do
    actor ← require_roles crypto settings (UserRole.administrator ∷ []) credentials
    validate (has_length 3 200 name && has_length 1 50 version)
    raise_when (length weights == 0) (http 400)
    raise_when (ltb max_weights_bytes (length weights)) (http 413)
    mapping ← or_raise (mapping_of loads class_mapping) (http 422)
    meta ← or_raise (metadata_of read_metadata metadata) (http 422)
    now ← gets (λ s. s.now)
    Registry.register settings name version weights (dumps mapping now) meta actor

  unfoldable pub list_models : Exec W D (List (AiModel W))
  list_models = do user ← get_current_user crypto settings credentials; Registry.list_models

  unfoldable pub promote_model : ℕ → Exec W D (AiModel W)
  promote_model model_id = do
    actor ← require_roles crypto settings (UserRole.administrator ∷ []) credentials
    Registry.promote model_id actor
