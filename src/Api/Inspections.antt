-- ===== src/Api/Inspections.antt =====
-- backend/app/api/v1/endpoints/inspections.py.
use road_vision_ai.Base.{ℕ, Bool, ◌&&◌, String, List, [], ◌∷◌, Option, leb}
use road_vision_ai.Float.{Float}
use road_vision_ai.Enums.{InspectionStatus, UserRole}
use road_vision_ai.Schema.{Inspection, RoadImage}
use road_vision_ai.Store.{Exec, pure, lift, ◌>>=◌, ◌>>◌}
use road_vision_ai.Storage.{partition}
use road_vision_ai.Repository.Inspections.{list_filtered}
use road_vision_ai.Auth.{get_current_user, require_roles}
use road_vision_ai.InspectionService
use road_vision_ai.InspectionService.{
  InspectionCreate, InspectionUpdate, UploadFile, AnalysisAccepted,
}
use road_vision_ai.Api.{Outside, validate, has_length, is_limit, optional}

-- `Form(ge=-n, le=n)`
unfoldable pub is_within : {W : Type 0} ⦃f : Float W⦄ → ℕ → W → Bool
is_within ⦃f⦄ n x = f.le (f.sub (f.lit 0 0) (f.lit n 0)) x && f.le x (f.lit n 0)

abbrev agent_or_admin : List UserRole
agent_or_admin = UserRole.inspection_agent ∷ UserRole.administrator ∷ []

module _ {W D T : Type 0} ⦃f : Float W⦄ (outside : Outside W D T) (credentials : Option T) where
  open outside use {settings, crypto, image_size, press}

  unfoldable pub create_inspection : InspectionCreate → Exec W D Inspection
  unfolding validate has_length
  create_inspection body = do
    actor ← require_roles crypto settings agent_or_admin credentials
    validate (optional (has_length 0 100) body.weather_cond)
    InspectionService.create body actor

  unfoldable pub list_inspections :
      Option InspectionStatus → Option ℕ → ℕ → ℕ → Exec W D (List Inspection × ℕ)
  unfolding validate is_limit
  list_inspections status_filter road_section_id limit offset = do
    user ← get_current_user crypto settings credentials
    validate (is_limit limit)
    list_filtered status_filter road_section_id Option.none limit offset

  -- The links of the images, in order.
  presigned : List (RoadImage W) → Exec W D (List String)
  presigned [] = pure []
  presigned (image ∷ images) = do
    let (bucket, object_name) = partition image.storage_path
    url ← lift (press.sign bucket object_name)
    urls ← presigned images
    pure (url ∷ urls)

  unfoldable pub get_inspection : ℕ → Exec W D (Inspection × List (RoadImage W) × List String)
  unfolding presigned
  get_inspection inspection_id = do
    user ← get_current_user crypto settings credentials
    (inspection, images) ← InspectionService.detail inspection_id
    urls ← presigned images
    pure (inspection, images, urls)

  unfoldable pub update_inspection : ℕ → InspectionUpdate → Exec W D Inspection
  unfolding validate has_length
  update_inspection inspection_id body = do
    actor ← require_roles crypto settings agent_or_admin credentials
    validate (leb 1 body.version && optional (has_length 0 100) body.weather_cond)
    InspectionService.update inspection_id body actor

  unfoldable pub delete_inspection : ℕ → Exec W D (Unit {0})
  delete_inspection inspection_id = do
    actor ← require_roles crypto settings (UserRole.administrator ∷ []) credentials
    InspectionService.delete inspection_id actor

  unfoldable pub upload_image : ℕ → UploadFile → Option W → Option W → Exec W D (RoadImage W)
  unfolding validate is_within
  upload_image inspection_id file gps_lat gps_lng = do
    actor ← require_roles crypto settings agent_or_admin credentials
    validate (optional (is_within 90) gps_lat && optional (is_within 180) gps_lng)
    InspectionService.upload_image settings image_size inspection_id file gps_lat gps_lng actor

  -- The background task is added by Api.Calls.
  unfoldable pub request_analysis : ℕ → Exec W D AnalysisAccepted
  request_analysis inspection_id = do
    actor ← get_current_user crypto settings credentials
    InspectionService.request_analysis inspection_id actor
