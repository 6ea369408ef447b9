-- ===== src/Api.antt =====
-- The HTTP endpoints (backend/app/api/v1/endpoints/): the guard of each, the validation of its
-- parameters by FastAPI (422), which follows the guard, and the call of its service. Response
-- models are left out: a handler answers with the service's value.
pub mod Accounts
pub mod Inspections
pub mod Resources
pub mod Models
pub mod Calls
pub mod Guards
use road_vision_ai.Base.{ℕ, Bool, not, ◌&&◌, String, List, Option, none, some, http, leb, length}
use road_vision_ai.Text.{Text, codes}
use road_vision_ai.Json.{Json, Python}
use road_vision_ai.Schema.{User}
use road_vision_ai.Store.{Exec, raise_when}
use road_vision_ai.Storage.{Settings}
use road_vision_ai.Security.{Crypto}
use road_vision_ai.Recommendations.{Agents}
use road_vision_ai.Reports.{Publishing}
use road_vision_ai.Knowledge.{Retrieval}
use road_vision_ai.Dashboard.{Sql}
use road_vision_ai.Worker.{Runtime}

-- ModelRegisterMetadata (backend/app/schemas/ai_model.py).
pub record ModelRegisterMetadata (W : Type 0) : Type 0 where
  pub description : Option String
  pub dataset_name : Option String
  pub dataset_version : Option String
  pub dataset_size : Option ℕ
  pub num_classes : Option ℕ
  pub epochs : Option ℕ
  pub batch_size : Option ℕ
  pub image_size : Option ℕ
  pub map50 : Option W
  pub map50_95 : Option W
  pub precision_score : Option W
  pub recall_score : Option W
  pub notes : Option String

-- What is no code of the repository. `is_email` is Pydantic's EmailStr; `loads` and `dumps` are of
-- Python's `json` (`none` stands for a ValueError), `dumps` with the time of the registration;
-- `read_metadata` is Pydantic's reading of the fields, without their bounds.
pub record Outside (W D T : Type 0) : Type 0 where
  pub settings : Settings W
  pub crypto : Crypto W T
  pub same_email : String → String → Bool
  pub is_email : String → Bool
  pub image_size : Text → Option (ℕ × ℕ)
  pub py : Python W D
  pub agents : Agents W D
  pub press : Publishing
  pub retrieval : Retrieval W
  pub sql : Sql W
  pub runtime : Runtime W
  pub loads : Text → Option (Json W)
  pub dumps : Json W → ℕ → Text
  pub read_metadata : Text → Option (ModelRegisterMetadata W)

-- FastAPI refuses parameters that are out of bounds.
unfoldable pub validate : {W D : Type 0} → Bool → Exec W D (Unit {0})
validate is_valid = raise_when (not is_valid) (http 422)

-- `Field(min_length=low, max_length=high)`
unfoldable pub has_length : ℕ → ℕ → String → Bool
has_length low high s = leb low (length (codes s)) && leb (length (codes s)) high

-- `Query(ge=1, le=200)` of a limit; an offset is a natural number.
unfoldable pub is_limit : ℕ → Bool
is_limit limit = leb 1 limit && leb limit 200

-- A bound of a parameter that may be missing.
abbrev pub optional {ℓ} : {A : Type ℓ} → (A → Bool) → Option A → Bool
optional test none = Bool.true
optional test (some a) = test a
