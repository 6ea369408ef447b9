-- ===== src/Security.antt =====
-- Passwords and tokens (backend/app/core/security.py). Argon2, PyJWT and `uuid.UUID` are no code of
-- the repository: they are the interface `Crypto`.
use road_vision_ai.Base.{
  ℕ, ◌+◌, ◌*◌, Bool, true, false, String, Option, none, some, Result, ok, err, str_eq, value_error,
  type_error, attribute_error, key_error, token_error, if◌then◌else◌,
}
use road_vision_ai.Json.{Json, Fields, ℤ, get_field}
use road_vision_ai.Enums.{UserRole}
use road_vision_ai.Store.{Exec, pure, gets, new_key, ◌>>=◌}
use road_vision_ai.Storage.{Settings}

-- What `PasswordHasher.verify` does: it returns True, or raises VerifyMismatchError, another
-- VerificationError, or InvalidHashError, which is a ValueError.
pub data Verdict : Type 0 where
  matches mismatch verification_error invalid_hash : Verdict

-- What `jwt.decode` does: it raises ExpiredSignatureError, another InvalidTokenError, or returns
-- the payload.
pub data Decoded (W : Type 0) : Type 0 where
  expired invalid : Decoded W
  payload : Fields W → Decoded W

-- T is the type of the texts of tokens.
pub record Crypto (W T : Type 0) : Type 0 where
  -- of a hash and a password
  pub verify : String → String → Verdict
  -- of a payload, a key and an algorithm
  pub encode : Fields W → String → String → T
  -- at a time in seconds, of a token, a key and an algorithm
  pub decode : ℕ → T → String → String → Decoded W
  -- `str` of a key
  pub key_text : ℕ → String
  -- `uuid.UUID` of a text; `none` stands for its ValueError
  pub key_of : String → Option ℕ

pub data TokenType : Type 0 where
  access refresh : TokenType

unfoldable pub type_value : TokenType → String
type_value TokenType.access = "access"
type_value TokenType.refresh = "refresh"

unfoldable pub role_value : UserRole → String
role_value UserRole.administrator = "ADMINISTRATOR"
role_value UserRole.road_engineer = "ROAD_ENGINEER"
role_value UserRole.inspection_agent = "INSPECTION_AGENT"

unfoldable pub verify_password : {W T : Type 0} → Crypto W T → String → String → Result Bool
verify_password crypto plain password_hash = elim (crypto.verify password_hash plain) [
  | Verdict.matches ↦ ok true
  | Verdict.mismatch ↦ ok false
  | Verdict.verification_error ↦ ok false
  | Verdict.invalid_hash ↦ err value_error
]

-- The payload of a token: `iat` and `exp` are times in seconds, as PyJWT writes a datetime.
unfoldable pub claims : {W : Type 0} → String → TokenType → ℕ → ℕ → String → Fields W → Fields W
unfolding type_value
claims subject token_type issued expiry jti extra_claims = Fields.field "sub" (Json.str subject) (
    Fields.field "type" (Json.str (type_value token_type)) (
      Fields.field "iat" (Json.int (ℤ.pos issued)) (
        Fields.field "exp" (Json.int (ℤ.pos expiry))
          (Fields.field "jti" (Json.str jti) extra_claims))))

-- `value == text`
unfoldable pub is_text : {W : Type 0} → Option (Json W) → String → Bool
is_text (some (Json.str s)) t = str_eq s t
is_text v t = false

-- `uuid.UUID(value)`, where `none` is a key that the payload does not have.
unfoldable pub uuid_of : {W T : Type 0} → Crypto W T → Option (Json W) → Result ℕ
uuid_of crypto none = err key_error
uuid_of crypto (some (Json.str s)) = elim (crypto.key_of s) [
  | none ↦ err value_error
  | some k ↦ ok k
]
uuid_of crypto (some Json.null) = err type_error
uuid_of crypto (some v) = err attribute_error

-- `uuid.UUID(payload["sub"])`
unfoldable pub subject_of : {W T : Type 0} → Crypto W T → Fields W → Result ℕ
unfolding uuid_of
subject_of crypto fields = uuid_of crypto (get_field "sub" fields)

module _ {W D T : Type 0} (crypto : Crypto W T) (settings : Settings W) where
  unfoldable pub create_token : String → TokenType → ℕ → Fields W → Exec W D T
  create_token subject token_type expires_delta extra_claims = do
    now ← gets (λ s. s.now)
    jti ← new_key
    pure (
        crypto.encode
          (claims subject token_type now (now + expires_delta) (crypto.key_text jti) extra_claims)
          settings.jwt_secret_key settings.jwt_algorithm)

  unfoldable pub create_access_token : ℕ → UserRole → Exec W D T
  unfolding create_token role_value
  create_access_token user_id role =
      create_token (crypto.key_text user_id) TokenType.access
        (settings.access_token_expire_minutes * 60)
        (Fields.field "role" (Json.str (role_value role)) Fields.end)

  unfoldable pub create_refresh_token : ℕ → Exec W D T
  unfolding create_token
  create_refresh_token user_id =
      create_token (crypto.key_text user_id) TokenType.refresh
        (settings.refresh_token_expire_days * 86400) Fields.end

-- What the handlers of `decode_token` make of PyJWT's answer.
unfoldable pub checked : {W : Type 0} → Decoded W → TokenType → Result (Fields W)
unfolding is_text type_value
checked Decoded.expired expected_type = err token_error
checked Decoded.invalid expected_type = err token_error
checked (Decoded.payload fields) expected_type =
    if is_text (get_field "type" fields) (type_value expected_type)
    then ok fields
    else err token_error

-- At a time.
unfoldable pub decode_token :
    {W T : Type 0} → Crypto W T → Settings W → ℕ → T → TokenType → Result (Fields W)
unfolding checked
decode_token crypto settings now token expected_type =
    checked (crypto.decode now token settings.jwt_secret_key settings.jwt_algorithm) expected_type
