-- ===== src/InspectionService.antt =====
-- InspectionService (backend/app/services/inspection_service.py): the inspection workflow.
pub mod Revision
pub mod Locking
pub mod Workflow
pub mod Deletion
pub mod Atomic
use road_vision_ai.Base.{
  ℕ, zero, suc, ◌+◌, ◌*◌, ◌≡◌, Bool, true, false, not, ◌&&◌, ◌||◌, String, List, [], ◌∷◌, ◌++◌, map,
  Option, none, some, http, ◌==◌, ltb, leb, length, is_some, any, if◌then◌else◌, str_eq,
}
use road_vision_ai.Text.{Text, codes, text_eq}
use road_vision_ai.Json.{Json, Fields, ℤ}
use road_vision_ai.Enums.{InspectionStatus}
use road_vision_ai.Schema.{Inspection, RoadImage, User}
use road_vision_ai.Store.{
  Db, World, Exec, pure, raise, query, gets, or_raise, raise_when, write, new_key, commit, ◌>>=◌,
  ◌>>◌,
}
use road_vision_ai.Storage.{Settings, StoredObject, storage_path, put_image}
use road_vision_ai.Repository.{get_or_404, list, add, update_with_version, soft_delete, audit_log}
use road_vision_ai.Repository.Inspections.{
  inspections, images_of, get_detail, list_filtered, road_section_exists, next_sequence_num,
  status_eq,
}

-- The bodies of the requests (backend/app/schemas/inspection.py).
pub record InspectionCreate : Type 0 where
  pub road_section_id : ℕ
  pub inspection_date : Option ℕ
  pub weather_cond : Option String
  pub notes : Option String

pub record InspectionUpdate : Type 0 where
  pub version : ℕ
  pub weather_cond : Option String
  pub notes : Option String

-- An uploaded file: its bytes, and what the client says of it.
pub record UploadFile : Type 0 where
  pub filename : Option String
  pub content_type : Option Text
  pub content : Text

pub record AnalysisAccepted : Type 0 where
  pub inspection_id : ℕ
  pub status : InspectionStatus

abbrev pub max_image_bytes : ℕ
max_image_bytes = 26214400

-- `str.lower`, which differs from this only for texts that are no allowed type either way.
unfoldable pub lower : Text → Text
lower = map (λ c. if leb b'A' c && leb c b'Z' then c + 32 else c)

unfoldable pub allowed_image_type : Text → Bool
allowed_image_type t = text_eq t (codes "image/jpeg") || text_eq t (codes "image/png")

-- `upload.filename or "image.jpg"`
unfoldable pub filename_or_default : Option String → String
filename_or_default none = "image.jpg"
filename_or_default (some s) = if str_eq s "" then "image.jpg" else s

-- `(upload.content_type or "").lower()`
unfoldable pub content_type_of : Option Text → Text
unfolding lower
content_type_of none = []
content_type_of (some t) = lower t

or_default {ℓ} : {A : Type ℓ} → Option A → A → A
or_default none d = d
or_default (some a) d = a

-- The columns that a PATCH sets: those that are given. `version` is never written.
unfoldable pub patch : InspectionUpdate → Inspection → Inspection
patch body r = record r {
  weather_cond = elim body.weather_cond [ none ↦ r.weather_cond | some w ↦ some w ];
  notes = elim body.notes [ none ↦ r.notes | some n ↦ some n ];
}

-- `if values`
unfoldable pub has_values : InspectionUpdate → Bool
has_values body = is_some body.weather_cond || is_some body.notes

unfoldable pub set_status : InspectionStatus → Inspection → Inspection
set_status status r = record r { status = status }

unfoldable pub can_start : InspectionStatus → Bool
unfolding status_eq
can_start status =
    status_eq status InspectionStatus.en_attente || status_eq status InspectionStatus.erreur

-- A new row with the defaults of its columns.
unfoldable pub new_inspection : ℕ → ℕ → InspectionCreate → User → Inspection
unfolding or_default
new_inspection id now body actor = record {
  id = id;
  road_section_id = body.road_section_id;
  created_by = actor.id;
  status = InspectionStatus.en_attente;
  inspection_date = or_default body.inspection_date now;
  created_at = now;
  updated_at = now;
  version = 1;
  validated_by = none;
  weather_cond = body.weather_cond;
  notes = body.notes;
  deleted_at = none;
}

notes_field : {W : Type 0} → Option String → Fields W
notes_field none = Fields.end
notes_field (some n) = Fields.field "notes" (Json.str n) Fields.end

weather_field : {W : Type 0} → Option String → Fields W → Fields W
weather_field none rest = rest
weather_field (some w) rest = Fields.field "weather_cond" (Json.str w) rest

-- `values` as JSON, for the audit log
unfoldable pub values_json : {W : Type 0} → InspectionUpdate → Json W
unfolding notes_field weather_field
values_json body = Json.obj (weather_field body.weather_cond (notes_field body.notes))

module _ {W D : Type 0} where
  unfoldable pub audit : String → String → ℕ → User → Option (Json W) → Exec W D (Unit {0})
  unfolding audit_log
  audit action entity_type entity_id actor new_value =
      audit_log action entity_type entity_id (some actor.id) new_value none none

  unfoldable pub create : InspectionCreate → User → Exec W D Inspection
  unfolding inspections road_section_exists new_inspection add audit
  create body actor = do
    exists ← road_section_exists body.road_section_id
    raise_when (not exists) (http 404)
    id ← new_key
    now ← gets (λ s. s.now)
    inspection ← add inspections (new_inspection id now body actor)
    audit "INSPECTION_CREATED" "inspections" inspection.id actor none
    commit
    pure inspection

  unfoldable pub detail : ℕ → Exec W D (Inspection × List (RoadImage W))
  unfolding get_detail
  detail inspection_id = do found ← get_detail inspection_id; or_raise found (http 404)

  -- The writes of a PATCH that sets something.
  unfoldable pub apply_patch : ℕ → InspectionUpdate → User → Exec W D (Unit {0})
  unfolding update_with_version audit
  apply_patch inspection_id body actor = do
    update_with_version inspections inspection_id body.version (patch body)
    audit "INSPECTION_UPDATED" "inspections" inspection_id actor (some (values_json body))
    commit

  unfoldable pub update : ℕ → InspectionUpdate → User → Exec W D Inspection
  unfolding inspections get_or_404 apply_patch
  update inspection_id body actor = do
    get_or_404 inspections inspection_id
    if has_values body then apply_patch inspection_id body actor else pure tt
    get_or_404 inspections inspection_id

  unfoldable pub delete : ℕ → User → Exec W D (Unit {0})
  unfolding inspections soft_delete audit
  delete inspection_id actor = do
    soft_delete inspections inspection_id
    audit "INSPECTION_DELETED" "inspections" inspection_id actor none
    commit

  -- `image_size` is Pillow's reading of the dimensions; `none` stands for its exception.
  unfoldable pub upload_image :
      Settings W
      → (Text → Option (ℕ × ℕ))
      → ℕ
      → UploadFile
      → Option W
      → Option W
      → User
      → Exec W D (RoadImage W)
  unfolding inspections get_or_404 put_image next_sequence_num audit
  upload_image settings image_size inspection_id upload gps_lat gps_lng actor = do
    inspection ← get_or_404 inspections inspection_id
    let content_type = content_type_of upload.content_type
    raise_when (not (allowed_image_type content_type)) (http 415)
    raise_when (length upload.content == 0) (http 400)
    raise_when (ltb max_image_bytes (length upload.content)) (http 413)
    dimensions ← or_raise (image_size upload.content) (http 400)
    let filename = filename_or_default upload.filename
    stored ← put_image settings inspection.id (codes filename) upload.content
    sequence_num ← next_sequence_num inspection.id
    id ← new_key
    now ← gets (λ s. s.now)
    let image : RoadImage W = record {
      id = id;
      inspection_id = inspection.id;
      filename = filename;
      storage_path = storage_path stored;
      mime_type = content_type;
      sequence_num = sequence_num;
      captured_at = now;
      created_at = now;
      file_size = some (length upload.content);
      width = some dimensions.0;
      height = some dimensions.1;
      gps_lat = gps_lat;
      gps_lng = gps_lng;
    }
    write (λ db. record db { road_images = db.road_images ++ image ∷ [] })
    audit "IMAGE_UPLOADED" "road_images" id actor (
        some (
          Json.obj (
            Fields.field "inspection_id" (Json.int (ℤ.pos inspection.id))
              (Fields.field "filename" (Json.str filename) Fields.end))))
    commit
    pure image

  unfoldable pub request_analysis : ℕ → User → Exec W D AnalysisAccepted
  unfolding inspections get_detail update_with_version audit
  request_analysis inspection_id actor = do
    found ← get_detail inspection_id
    (inspection, road_images) ← or_raise found (http 404)
    raise_when (length road_images == 0) (http 400)
    raise_when (not (can_start inspection.status)) (http 409)
    update_with_version inspections inspection.id inspection.version
        (set_status InspectionStatus.en_cours)
    audit "ANALYSIS_REQUESTED" "inspections" inspection.id actor none
    commit
    pure (record { inspection_id = inspection.id; status = InspectionStatus.en_cours })
