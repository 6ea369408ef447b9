-- ===== src/AuditTrail/Services.antt =====
-- The operations of the services, and the guards, as far as the audit log goes.
use road_vision_ai.Base.{ℕ, Bool, String, List, Option, [], ◌∷◌}
use road_vision_ai.Text.{Text}
use road_vision_ai.Float.{Float}
use road_vision_ai.Json.{Python}
use road_vision_ai.Repository.{Model, get_or_404, get}
use road_vision_ai.Rules.{AnalysisContext}
use road_vision_ai.Pipeline.{PipelineResult}
use road_vision_ai.Repository.Inspections.{inspections}
use road_vision_ai.Enums.{UserRole, DocType}
use road_vision_ai.Schema.{AuditLog, AnalysisResult, KnowledgeDocument, User}
use road_vision_ai.Store.{Exec, VectorEntry}
use road_vision_ai.Store.Preserves.{Preserves, reading}
use road_vision_ai.Storage.{Settings, put_object, put_image}
use road_vision_ai.Security.{Crypto, create_access_token, create_refresh_token}
use road_vision_ai.Auth.{get_current_user, require_roles, login, refresh, logout, issue_tokens}
use road_vision_ai.Registry.{Metadata, register, promote}
use road_vision_ai.InspectionService.{
  InspectionCreate, InspectionUpdate, UploadFile, audit, create, apply_patch, update, delete,
  upload_image, request_analysis,
}
use road_vision_ai.Recommendations.{Agents, generate_for_analysis, save_recommendation}
use road_vision_ai.Reports.{Publishing, generate_for_plan}
use road_vision_ai.Knowledge.{Retrieval, ingest_pdf, ingest_document, index_document, store_entries}
use road_vision_ai.Dashboard.{Sql, add_stats, compute_snapshot, trigger_snapshot}
use road_vision_ai.AuditTrail.{IsLogged, writing}

module _ {W D : Type 0} (old : List (AuditLog W)) where
  abbrev Logs : {A : Type 0} → Exec W D A → Type 0
  Logs m = Preserves (IsLogged {D = D} old) m

  pub create-IsLogged : (body : InspectionCreate) (actor : User) → Logs (create body actor)
  unfolding create audit
  create-IsLogged body actor = search (reading, writing) depth 60 fits 3000

  apply_patch-IsLogged :
      (id : ℕ) (body : InspectionUpdate) (actor : User) → Logs (apply_patch id body actor)
  unfolding apply_patch audit inspections
  apply_patch-IsLogged id body actor = search (reading, writing) depth 60 fits 3000

  get_or_404-IsLogged : {R : Type 0} (table : Model W D R) (id : ℕ) → Logs (get_or_404 table id)
  unfolding get_or_404 get
  get_or_404-IsLogged table id = search (reading, writing) depth 60 fits 3000

  pub update-IsLogged :
      (id : ℕ) (body : InspectionUpdate) (actor : User) → Logs (update id body actor)
  unfolding update
  update-IsLogged id body actor =
      search (reading, writing, get_or_404-IsLogged, apply_patch-IsLogged) depth 60 fits 3000

  pub delete-IsLogged : (id : ℕ) (actor : User) → Logs (delete id actor)
  unfolding delete audit
  delete-IsLogged id actor = search (reading, writing) depth 60 fits 3000

  put_object-IsLogged : (bucket name content : Text) → Logs (put_object bucket name content)
  unfolding put_object
  put_object-IsLogged bucket name content = record { at = λ s p. p }

  pub request_analysis-IsLogged : (id : ℕ) (actor : User) → Logs (request_analysis id actor)
  unfolding request_analysis audit
  request_analysis-IsLogged id actor = search (reading, writing) depth 60 fits 3000

  pub promote-IsLogged : ⦃f : Float W⦄ (id : ℕ) (actor : User) → Logs (promote id actor)
  unfolding promote
  promote-IsLogged id actor = search (reading, writing) depth 60 fits 3000

  pub upload_image-IsLogged :
      (settings : Settings W) (image_size : Text → Option (ℕ × ℕ)) (id : ℕ) (file : UploadFile)
      (lat lng : Option W) (actor : User)
      → Logs (upload_image settings image_size id file lat lng actor)
  unfolding upload_image audit put_image
  upload_image-IsLogged settings image_size id file lat lng actor =
      search (reading, writing, put_object-IsLogged) depth 60 fits 5000

  pub register-IsLogged :
      ⦃f : Float W⦄ (settings : Settings W) (name version : String) (weights config : Text)
      (metadata : Metadata W) (actor : User)
      → Logs (register settings name version weights config metadata actor)
  unfolding register
  register-IsLogged settings name version weights config metadata actor =
      search (reading, writing, put_object-IsLogged) depth 60 fits 5000

  pub generate_for_plan-IsLogged :
      (press : Publishing) (settings : Settings W) (id : ℕ) (title : String)
      (summary : Option String) (actor : User)
      → Logs (generate_for_plan press settings id title summary actor)
  unfolding generate_for_plan
  generate_for_plan-IsLogged press settings id title summary actor =
      search (reading, writing, put_object-IsLogged) depth 60 fits 5000

  save_recommendation-IsLogged :
      ⦃f : Float W⦄ (py : Python W D) (agents : Agents W D) (id : ℕ) (ctx : AnalysisContext W)
      (analysis : AnalysisResult W) (result : PipelineResult W D) (actor : User)
      → Logs (save_recommendation py agents id ctx analysis result actor)
  unfolding save_recommendation
  save_recommendation-IsLogged py agents id ctx analysis result actor =
      search (reading, writing) depth 60 fits 5000

  pub generate_for_analysis-IsLogged :
      ⦃f : Float W⦄ (py : Python W D) (agents : Agents W D) (id : ℕ) (actor : User)
      → Logs (generate_for_analysis py agents id actor)
  unfolding generate_for_analysis
  generate_for_analysis-IsLogged py agents id actor =
      search (reading, writing, save_recommendation-IsLogged) depth 60 fits 5000

  store_entries-IsLogged : (entries : List (VectorEntry W)) → Logs (store_entries entries)
  unfolding store_entries
  store_entries-IsLogged entries = record { at = λ s p. p }

  index_document-IsLogged :
      (r : Retrieval W) (settings : Settings W) (document : KnowledgeDocument) (pages : List Text)
      (chunks : ℕ) (entries : List (VectorEntry W)) (title : String) (actor : User)
      → Logs (index_document r settings document pages chunks entries title actor)
  unfolding index_document
  index_document-IsLogged r settings document pages chunks entries title actor =
      search (reading, writing, store_entries-IsLogged) depth 60 fits 5000

  ingest_pdf-IsLogged :
      (r : Retrieval W) (settings : Settings W) (content : Text) (title : String) (kind : DocType)
      (source version : Option String) (actor : User)
      → Logs (ingest_pdf r settings content title kind source version actor)
  unfolding ingest_pdf
  ingest_pdf-IsLogged r settings content title kind source version actor =
      search (reading, writing, index_document-IsLogged) depth 60 fits 5000

  pub ingest_document-IsLogged :
      (r : Retrieval W) (settings : Settings W) (file : UploadFile) (title kind : String)
      (source version : Option String) (actor : User)
      → Logs (ingest_document r settings file title kind source version actor)
  unfolding ingest_document
  ingest_document-IsLogged r settings file title kind source version actor =
      search (reading, writing, ingest_pdf-IsLogged) depth 60 fits 5000

  add_stats-IsLogged :
      ⦃f : Float W⦄ (id total : ℕ) (rows : List (String × ℕ)) → Logs (add_stats id total rows)
  unfolding add_stats
  add_stats-IsLogged id total [] = search (reading, writing) depth 60 fits 3000
  add_stats-IsLogged id total ((code, count) ∷ rows) = record {
    at = λ s p. (add_stats-IsLogged id total rows).at _ p;
  }

  pub trigger_snapshot-IsLogged :
      ⦃f : Float W⦄ (sql : Sql W) (actor : User) → Logs (trigger_snapshot sql actor)
  unfolding trigger_snapshot compute_snapshot
  trigger_snapshot-IsLogged sql actor =
      search (reading, writing, add_stats-IsLogged) depth 60 fits 5000

  module _ {T : Type 0} (crypto : Crypto W T) (settings : Settings W) where
    pub get_current_user-IsLogged :
        (credentials : Option T) → Logs (get_current_user crypto settings credentials)
    unfolding get_current_user
    get_current_user-IsLogged credentials = search (reading, writing) depth 60 fits 3000

    pub require_roles-IsLogged :
        (roles : List UserRole) (credentials : Option T)
        → Logs (require_roles crypto settings roles credentials)
    unfolding require_roles
    require_roles-IsLogged roles credentials =
        search (reading, writing, get_current_user-IsLogged) depth 60 fits 3000

    issue_tokens-IsLogged : (user : User) → Logs (issue_tokens crypto settings user)
    unfolding issue_tokens create_access_token create_refresh_token
    issue_tokens-IsLogged user = search (reading, writing) depth 60 fits 3000

    pub login-IsLogged :
        (same : String → String → Bool) (email password : String) (ip agent : Option String)
        → Logs (login crypto settings same email password ip agent)
    unfolding login
    login-IsLogged same email password ip agent =
        search (reading, writing, issue_tokens-IsLogged) depth 60 fits 5000

    pub refresh-IsLogged : (token : T) → Logs (refresh crypto settings token)
    unfolding refresh
    refresh-IsLogged token = search (reading, writing, issue_tokens-IsLogged) depth 60 fits 3000

  pub logout-IsLogged : (user : User) (ip agent : Option String) → Logs (logout user ip agent)
  unfolding logout
  logout-IsLogged user ip agent = search (reading, writing) depth 60 fits 3000

  -- What the handlers are made of.
  pub ruleset serving = (
    reading, create-IsLogged, update-IsLogged, delete-IsLogged, request_analysis-IsLogged,
    promote-IsLogged, upload_image-IsLogged, register-IsLogged, generate_for_plan-IsLogged,
    generate_for_analysis-IsLogged, ingest_document-IsLogged, trigger_snapshot-IsLogged,
    get_current_user-IsLogged, require_roles-IsLogged, login-IsLogged, refresh-IsLogged,
    logout-IsLogged,
  )
