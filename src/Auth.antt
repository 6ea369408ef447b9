-- ===== src/Auth.antt =====
-- Authentication: AuthService (backend/app/services/auth_service.py), and the dependencies that
-- guard the endpoints (backend/app/core/dependencies.py).
pub mod Guards
pub mod Login
pub mod Tokens
pub mod Sessions
use road_vision_ai.Base.{
  ℕ, ◌*◌, Bool, true, false, not, String, List, Option, none, some, Result, ok, err, Exn, http, any,
  if◌then◌else◌,
}
use road_vision_ai.Json.{Fields}
use road_vision_ai.Enums.{UserRole}
use road_vision_ai.Schema.{User}
use road_vision_ai.Store.{
  World, Exec, pure, raise, lift, gets, or_raise, raise_when, commit, ◌>>=◌, ◌>>◌,
}
use road_vision_ai.Storage.{Settings}
use road_vision_ai.Repository.{audit_log}
use road_vision_ai.Repository.Users.{role_eq, get_by_email, get_by_id, touch_last_login}
use road_vision_ai.Security.{
  Crypto, TokenType, verify_password, create_access_token, create_refresh_token, decode_token,
  subject_of,
}

-- backend/app/schemas/auth.py
pub record TokenResponse (T : Type 0) : Type 0 where
  pub access_token : T
  pub refresh_token : T
  pub token_type : String
  pub expires_in : ℕ

token_error_401 : Exn → Exn
token_error_401 Exn.token_error = http 401
token_error_401 e = e

-- `except TokenError as exc: raise HTTPException(401, ...)`
unfoldable pub unauthorized {ℓ} : {A : Type ℓ} → Result A → Result A
unfolding token_error_401
unauthorized (ok a) = ok a
unauthorized (err e) = err (token_error_401 e)

-- `user is None or not user.is_active`
unfoldable pub active_user : Option User → Option User
active_user none = none
active_user (some u) = if u.is_active then some u else none

-- The account of an address, if the password is its own.
unfoldable pub credentials_ok :
    {W T : Type 0} → Crypto W T → String → Option User → Result (Option User)
unfolding verify_password
credentials_ok crypto password none = ok none
credentials_ok crypto password (some u) = elim (verify_password crypto password u.password_hash) [
  | err e ↦ err e
  | ok true ↦ ok (some u)
  | ok false ↦ ok none
]

module _ {W D T : Type 0} (crypto : Crypto W T) (settings : Settings W) where
  unfoldable pub issue_tokens : User → Exec W D (TokenResponse T)
  unfolding create_access_token create_refresh_token
  issue_tokens user = do
    access_token ← create_access_token crypto settings user.id user.role
    refresh_token ← create_refresh_token crypto settings user.id
    pure (record {
      access_token = access_token;
      refresh_token = refresh_token;
      token_type = "bearer";
      expires_in = settings.access_token_expire_minutes * 60;
    })

  unfoldable pub login :
      (String → String → Bool)
      → String
      → String
      → Option String
      → Option String
      → Exec W D (TokenResponse T)
  unfolding get_by_email credentials_ok touch_last_login audit_log
  login same_email email password ip user_agent = do
    found ← get_by_email same_email email
    checked ← lift (credentials_ok crypto password found)
    user ← or_raise checked (http 401)
    raise_when (not user.is_active) (http 403)
    touch_last_login user
    audit_log "LOGIN" "users" user.id (some user.id) none ip user_agent
    commit
    issue_tokens user

  unfoldable pub refresh : T → Exec W D (TokenResponse T)
  unfolding unauthorized active_user get_by_id issue_tokens
  refresh refresh_token = do
    now ← gets (λ s. s.now)
    fields ← lift (unauthorized (decode_token crypto settings now refresh_token TokenType.refresh))
    user_id ← lift (subject_of crypto fields)
    found ← get_by_id user_id
    user ← or_raise (active_user found) (http 401)
    issue_tokens user

  unfoldable pub get_current_user : Option T → Exec W D User
  unfolding unauthorized active_user get_by_id
  get_current_user credentials = do
    token ← or_raise credentials (http 401)
    now ← gets (λ s. s.now)
    fields ← lift (unauthorized (decode_token crypto settings now token TokenType.access))
    user_id ← lift (subject_of crypto fields)
    found ← get_by_id user_id
    or_raise (active_user found) (http 401)

  -- The guard of an endpoint that requires one of some roles.
  unfoldable pub require_roles : List UserRole → Option T → Exec W D User
  unfolding get_current_user role_eq
  require_roles roles credentials = do
    user ← get_current_user credentials
    raise_when (not (any (role_eq user.role) roles)) (http 403)
    pure user

module _ {W D : Type 0} where
  unfoldable pub logout : User → Option String → Option String → Exec W D (Unit {0})
  unfolding audit_log
  logout user ip user_agent = do
    audit_log "LOGOUT" "users" user.id (some user.id) none ip user_agent
    commit
