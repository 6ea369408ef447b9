-- ===== src/Api/Calls.antt =====
-- The calls of the API (backend/app/api/v1/router.py puts the routers together), and the service in
-- time: requests in sessions of their own, and the background tasks that accepted requests for an
-- analysis leave (backend/app/api/v1/endpoints/inspections.py). A task runs as a whole.
use road_vision_ai.Base.{ℕ, String, List, [], ◌∷◌, ◌++◌, Option, Result, ok}
use road_vision_ai.Text.{Text}
use road_vision_ai.Float.{Float}
use road_vision_ai.Store.{World, Exec, pure, in_session, ◌>>◌}
use road_vision_ai.InspectionService.{InspectionCreate, InspectionUpdate, UploadFile}
use road_vision_ai.Worker.{run_analysis}
use road_vision_ai.Api.{Outside}
use road_vision_ai.Api.Accounts
use road_vision_ai.Api.Inspections
use road_vision_ai.Api.Resources
use road_vision_ai.Api.Models

-- The calls with a bearer token that may write. Calls that only read are left out.
pub data Write (W : Type 0) : Type 0 where
  create_inspection : InspectionCreate → Write W
  update_inspection : ℕ → InspectionUpdate → Write W
  delete_inspection : ℕ → Write W
  upload_image : ℕ → UploadFile → Option W → Option W → Write W
  request_analysis : ℕ → Write W
  generate_recommendation : ℕ → Write W
  generate_report : ℕ → String → Option String → Write W
  ingest_document : UploadFile → String → String → Option String → Option String → Write W
  trigger_snapshot : Write W
  register_model : Text → String → String → Option Text → Option Text → Write W
  promote_model : ℕ → Write W
  logout : Option String → Option String → Write W

pub data Call (W T : Type 0) : Type 0 where
  login : String → String → Option String → Option String → Call W T
  refresh : T → Call W T
  guarded : Option T → Write W → Call W T

module _ {W D T : Type 0} ⦃f : Float W⦄ (outside : Outside W D T) where
  -- The handler of a call that wants a bearer token, its answer left out.
  unfoldable pub handle_write : Option T → Write W → Exec W D (Unit {0})
  handle_write c (create_inspection body) = do Inspections.create_inspection outside c body; pure tt
  handle_write c (update_inspection id body) = do
    Inspections.update_inspection outside c id body
    pure tt
  handle_write c (delete_inspection id) = Inspections.delete_inspection outside c id
  handle_write c (upload_image id file lat lng) = do
    Inspections.upload_image outside c id file lat lng
    pure tt
  handle_write c (request_analysis id) = do Inspections.request_analysis outside c id; pure tt
  handle_write c (generate_recommendation id) = do
    Resources.generate_recommendation outside c id
    pure tt
  handle_write c (generate_report id title summary) = do
    Resources.generate_report outside c id title summary
    pure tt
  handle_write c (ingest_document file title kind source version) = do
    Resources.ingest_document outside c file title kind source version
    pure tt
  handle_write c trigger_snapshot = do Resources.trigger_snapshot outside c; pure tt
  handle_write c (register_model weights name version mapping metadata) = do
    Models.register_model outside c weights name version mapping metadata
    pure tt
  handle_write c (promote_model id) = do Models.promote_model outside c id; pure tt
  handle_write c (logout ip agent) = Accounts.logout outside c ip agent

  unfoldable pub handle : Call W T → Exec W D (Unit {0})
  unfolding handle_write
  handle (login email password ip agent) = do
    Accounts.login outside email password ip agent
    pure tt
  handle (refresh token) = do Accounts.refresh outside token; pure tt
  handle (guarded credentials w) = handle_write credentials w

-- The tasks that a call leaves: an accepted request for an analysis adds one.
unfoldable pub tasks_of : {W T : Type 0} → Call W T → Result (Unit {0}) → List ℕ
tasks_of (guarded credentials (request_analysis id)) (ok a) = id ∷ []
tasks_of call answer = []

-- The process: its world, and the tasks that wait.
pub record Process (W D : Type 0) : Type 0 where
  pub world : World W D
  pub tasks : List ℕ

pub data Event (W T : Type 0) : Type 0 where
  call : Call W T → Event W T
  task : Event W T

module _ {W D T : Type 0} ⦃f : Float W⦄ (outside : Outside W D T) where
  open outside use {runtime}

  unfoldable pub answer_call : Call W T → World W D → List ℕ → Process W D
  unfolding handle tasks_of
  answer_call c world tasks =
      let (answer, world') = in_session (handle outside c) world in
      record { world = world'; tasks = tasks ++ tasks_of c answer }

  unfoldable pub run_task : World W D → List ℕ → Process W D
  run_task world [] = record { world = world; tasks = [] }
  run_task world (id ∷ tasks) = record { world = (run_analysis runtime id world).1; tasks = tasks }

  unfoldable pub happen : Event W T → Process W D → Process W D
  unfolding answer_call run_task
  happen (call c) p = answer_call c p.world p.tasks
  happen task p = run_task p.world p.tasks

  -- A history of events, the first first.
  unfoldable pub history : List (Event W T) → Process W D → Process W D
  unfolding happen
  history [] p = p
  history (e ∷ es) p = history es (happen e p)
