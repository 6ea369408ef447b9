-- ===== src/Api/Guards.antt =====
-- About the guards of the endpoints that write (backend/app/api/v1/endpoints/).
use road_vision_ai.Base.{
  ◌≡◌, refl, ◌⊎◌, inl, inr, true, List, [], ◌∷◌, Option, Exn, err, any, Result-cases,
}
use road_vision_ai.Float.{Float}
use road_vision_ai.Enums.{UserRole}
use road_vision_ai.Schema.{User}
use road_vision_ai.Store.{World}
use road_vision_ai.Store.Preserves.{Preserves, reading}
use road_vision_ai.Storage.{Settings}
use road_vision_ai.Repository.Users.{role_eq}
use road_vision_ai.Security.{Crypto}
use road_vision_ai.Auth.{get_current_user, require_roles}
use road_vision_ai.Auth.Guards.{Known, get_current_user_ok, require_roles_ok}
use road_vision_ai.Api.{Outside}
use road_vision_ai.Api.Accounts
use road_vision_ai.Api.Inspections
use road_vision_ai.Api.Resources
use road_vision_ai.Api.Models
use road_vision_ai.Api.Calls.{Write, handle_write}

abbrev admin : List UserRole
admin = UserRole.administrator ∷ []

abbrev engineers : List UserRole
engineers = UserRole.road_engineer ∷ UserRole.administrator ∷ []

abbrev agents : List UserRole
agents = UserRole.inspection_agent ∷ UserRole.administrator ∷ []

abbrev everyone : List UserRole
everyone = UserRole.road_engineer ∷ UserRole.inspection_agent ∷ UserRole.administrator ∷ []

-- Who may write what.
abbrev pub allowed : {W : Type 0} → Write W → List UserRole
allowed (Write.create_inspection body) = agents
allowed (Write.update_inspection id body) = agents
allowed (Write.delete_inspection id) = admin
allowed (Write.upload_image id file lat lng) = agents
allowed (Write.request_analysis id) = everyone
allowed (Write.generate_recommendation id) = engineers
allowed (Write.generate_report id title summary) = engineers
allowed (Write.ingest_document file title kind source version) = engineers
allowed Write.trigger_snapshot = admin
allowed (Write.register_model weights name version mapping metadata) = admin
allowed (Write.promote_model id) = admin
allowed (Write.logout ip agent) = everyone

-- The bearer token is an access token of an account that is not deleted, is active, and has one of
-- the roles.
abbrev pub IsEntitled :
    {W D T : Type 0} → Crypto W T → Settings W → List UserRole → Option T → World W D → Type 0
IsEntitled {T = T} crypto settings roles credentials s =
    (u : User) × (token : T) × (credentials ≡ Option.some token)
    × Known crypto settings s.working.users s.now token u
    × (any (role_eq u.role) roles ≡ true)

any_role : (role : UserRole) → any (role_eq role) everyone ≡ true
unfolding role_eq
any_role UserRole.road_engineer = refl
any_role UserRole.inspection_agent = refl
any_role UserRole.administrator = refl

module _ {W D T : Type 0} (crypto : Crypto W T) (settings : Settings W) where
  user_same :
      (credentials : Option T) (s : World W D)
      → Preserves (λ t. t ≡ s) (get_current_user crypto settings credentials)
  unfolding get_current_user
  user_same credentials s = search (reading) depth 60 fits 3000

  roles_same :
      (roles : List UserRole) (credentials : Option T) (s : World W D)
      → Preserves (λ t. t ≡ s) (require_roles crypto settings roles credentials)
  unfolding require_roles
  roles_same roles credentials s = search (reading) depth 60 fits 3000

  -- A guard that raises leaves the world as it was.
  pub require_roles-cases :
      (roles : List UserRole) (credentials : Option T) (s : World W D)
      → IsEntitled crypto settings roles credentials s
        ⊎ ((e : Exn) × (require_roles crypto settings roles credentials s ≡ (err e, s)))
  require_roles-cases roles credentials s =
      let same = (roles_same roles credentials s).at s refl in
      elim (Result-cases (require_roles crypto settings roles credentials s).0) [
        | inl (e, p) ↦ inr (e, λ i. (p i, same i))
        | inr (u, p) ↦
            (let (token, given, known, has) =
                require_roles_ok crypto settings roles credentials s p in
              inl (u, token, given, known, has))
      ]

  pub get_current_user-cases :
      (credentials : Option T) (s : World W D)
      → IsEntitled crypto settings everyone credentials s
        ⊎ ((e : Exn) × (get_current_user crypto settings credentials s ≡ (err e, s)))
  get_current_user-cases credentials s =
      let same = (user_same credentials s).at s refl in
      elim (Result-cases (get_current_user crypto settings credentials s).0) [
        | inl (e, p) ↦ inr (e, λ i. (p i, same i))
        | inr (u, p) ↦
            (let (token, given, known) = get_current_user_ok crypto settings credentials s p in
              inl (u, token, given, known, any_role u.role))
      ]

module _ {W D T : Type 0} ⦃f : Float W⦄ (outside : Outside W D T) where
  open outside use {settings, crypto}

  -- A call that raises as its guard does.
  with_role :
      (c : Option T) (w : Write W) (s : World W D)
      → ((e : Exn)
          → require_roles crypto settings (allowed w) c s ≡ (err e, s)
          → handle_write outside c w s ≡ (err e, s))
      → IsEntitled crypto settings (allowed w) c s
        ⊎ ((e : Exn) × (handle_write outside c w s ≡ (err e, s)))
  with_role c w s raises = elim (require_roles-cases crypto settings (allowed w) c s) [
    | inl entitled ↦ inl entitled
    | inr (e, p) ↦ inr (e, raises e p)
  ]

  with_account :
      (c : Option T) (w : Write W) (s : World W D)
      → ((e : Exn)
          → get_current_user crypto settings c s ≡ (err e, s)
          → handle_write outside c w s ≡ (err e, s))
      → IsEntitled crypto settings everyone c s
        ⊎ ((e : Exn) × (handle_write outside c w s ≡ (err e, s)))
  with_account c w s raises = elim (get_current_user-cases crypto settings c s) [
    | inl entitled ↦ inl entitled
    | inr (e, p) ↦ inr (e, raises e p)
  ]

  -- A call that may write either comes with the access token of an account that is not deleted, is
  -- active, and has one of the roles that may make this call, or it raises and changes nothing.
  pub handle_write-IsEntitled :
      (c : Option T) (w : Write W) (s : World W D)
      → IsEntitled crypto settings (allowed w) c s
        ⊎ ((e : Exn) × (handle_write outside c w s ≡ (err e, s)))
  unfolding handle_write Inspections.create_inspection Inspections.update_inspection
      Inspections.delete_inspection Inspections.upload_image Inspections.request_analysis
      Resources.generate_recommendation Resources.generate_report Resources.ingest_document
      Resources.trigger_snapshot Models.register_model Models.promote_model Accounts.logout
  handle_write-IsEntitled c (Write.create_inspection body) s =
      with_role c (Write.create_inspection body) s (λ e p. rw p refl)
  handle_write-IsEntitled c (Write.update_inspection id body) s =
      with_role c (Write.update_inspection id body) s (λ e p. rw p refl)
  handle_write-IsEntitled c (Write.delete_inspection id) s =
      with_role c (Write.delete_inspection id) s (λ e p. rw p refl)
  handle_write-IsEntitled c (Write.upload_image id file lat lng) s =
      with_role c (Write.upload_image id file lat lng) s (λ e p. rw p refl)
  handle_write-IsEntitled c (Write.request_analysis id) s =
      with_account c (Write.request_analysis id) s (λ e p. rw p refl)
  handle_write-IsEntitled c (Write.generate_recommendation id) s =
      with_role c (Write.generate_recommendation id) s (λ e p. rw p refl)
  handle_write-IsEntitled c (Write.generate_report id title summary) s =
      with_role c (Write.generate_report id title summary) s (λ e p. rw p refl)
  handle_write-IsEntitled c (Write.ingest_document file title kind source version) s =
      with_role c (Write.ingest_document file title kind source version) s (λ e p. rw p refl)
  handle_write-IsEntitled c Write.trigger_snapshot s =
      with_role c Write.trigger_snapshot s (λ e p. rw p refl)
  handle_write-IsEntitled c (Write.register_model weights name version mapping metadata) s =
      with_role c (Write.register_model weights name version mapping metadata) s (λ e p. rw p refl)
  handle_write-IsEntitled c (Write.promote_model id) s =
      with_role c (Write.promote_model id) s (λ e p. rw p refl)
  handle_write-IsEntitled c (Write.logout ip agent) s =
      with_account c (Write.logout ip agent) s (λ e p. rw p refl)
