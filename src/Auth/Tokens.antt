-- ===== src/Auth/Tokens.antt =====
-- What the program relies on of PyJWT, and about one token in time (backend/app/core/security.py).
use road_vision_ai.Base.{
  ℕ, ◌≤◌, ◌<◌, ◌≡◌, refl, inl, inr, false, String, none, some, ok, err, token_error, arith, ltb,
  Bool-cases, if◌then◌else◌,
}
use road_vision_ai.Json.{Json, Fields, ℤ, get_field}
use road_vision_ai.Storage.{Settings}
use road_vision_ai.Security.{
  Crypto, TokenType, Decoded, type_value, is_text, subject_of, uuid_of, checked, decode_token,
}

-- A payload that PyJWT checks for nothing but its times and the types of `sub` and `jti`.
abbrev pub IsPlain : {W : Type 0} → ℕ → ℕ → Fields W → Type 0
IsPlain issued expiry p =
    (get_field "iat" p ≡ some (Json.int (ℤ.pos issued)))
    × (get_field "exp" p ≡ some (Json.int (ℤ.pos expiry)))
    × ((t : String) × (get_field "sub" p ≡ some (Json.str t)))
    × ((t : String) × (get_field "jti" p ≡ some (Json.str t)))
    × (get_field "nbf" p ≡ none)
    × (get_field "aud" p ≡ none)
    × (get_field "iss" p ≡ none)

-- What the program relies on of PyJWT, with one key and algorithm, and of `uuid`.
pub record IsJwt {W T : Type 0} (crypto : Crypto W T) (settings : Settings W) : Type 0 where
  -- A token is accepted from its issue until its expiry.
  pub decodes :
      (p : Fields W) (issued expiry now : ℕ)
      → IsPlain issued expiry p
      → issued ≤ now
      → now < expiry
      → crypto.decode now
          (crypto.encode p settings.jwt_secret_key settings.jwt_algorithm)
          settings.jwt_secret_key
          settings.jwt_algorithm
        ≡ Decoded.payload p
  -- From its expiry on it is refused.
  pub expires :
      (p : Fields W) (issued expiry now : ℕ)
      → IsPlain issued expiry p
      → issued ≤ now
      → expiry ≤ now
      → crypto.decode now
          (crypto.encode p settings.jwt_secret_key settings.jwt_algorithm)
          settings.jwt_secret_key
          settings.jwt_algorithm
        ≡ Decoded.expired
  -- A token that is accepted holds the payload it was made of.
  pub decodes_only :
      (p q : Fields W) (now : ℕ)
      → crypto.decode now
          (crypto.encode p settings.jwt_secret_key settings.jwt_algorithm)
          settings.jwt_secret_key
          settings.jwt_algorithm
        ≡ Decoded.payload q
      → q ≡ p
  -- The text of a key reads back as the key.
  pub reads : (k : ℕ) → crypto.key_of (crypto.key_text k) ≡ some k

checked-accepts :
    {W : Type 0} (p : Fields W) (t : TokenType)
    → get_field "type" p ≡ some (Json.str (type_value t))
    → checked (Decoded.payload p) t ≡ ok p
unfolding checked is_text
checked-accepts p TokenType.access h = rw h refl
checked-accepts p TokenType.refresh h = rw h refl

checked-refuses :
    {W : Type 0} (d : Decoded W) (p : Fields W) (t : TokenType)
    → ((q : Fields W) → d ≡ Decoded.payload q → q ≡ p)
    → is_text (get_field "type" p) (type_value t) ≡ false
    → checked d t ≡ err token_error
unfolding checked
checked-refuses Decoded.expired p t only h = refl
checked-refuses Decoded.invalid p t only h = refl
checked-refuses (Decoded.payload q) p t only h = rw (only q refl, h) refl

module _ {W T : Type 0} (crypto : Crypto W T) (settings : Settings W)
    (jwt : IsJwt crypto settings) where
  -- The token of a payload.
  abbrev pub token_of : Fields W → T
  token_of p = crypto.encode p settings.jwt_secret_key settings.jwt_algorithm

  -- Within its life a token is accepted as its own type.
  pub decode_token_own :
      (p : Fields W) (t : TokenType) (issued expiry now : ℕ)
      → IsPlain issued expiry p
      → issued ≤ now
      → get_field "type" p ≡ some (Json.str (type_value t))
      → decode_token crypto settings now (token_of p) t
        ≡ (if ltb now expiry then ok p else err token_error)
  unfolding decode_token checked
  decode_token_own p t issued expiry now plain a h = elim (Bool-cases (ltb now expiry)) [
    | inl e ↦
        rw (e, jwt.decodes p issued expiry now plain a (ground (arith, e))) (checked-accepts p t h)
    | inr e ↦ rw (e, jwt.expires p issued expiry now plain a (ground (arith, e))) refl
  ]

  -- A token is never accepted as another type.
  pub decode_token_other :
      (p : Fields W) (t : TokenType) (now : ℕ)
      → is_text (get_field "type" p) (type_value t) ≡ false
      → decode_token crypto settings now (token_of p) t ≡ err token_error
  unfolding decode_token
  decode_token_other p t now h = checked-refuses _ p t (λ q. jwt.decodes_only p q now) h

  pub subject_of_lem :
      (p : Fields W) (k : ℕ)
      → get_field "sub" p ≡ some (Json.str (crypto.key_text k))
      → subject_of crypto p ≡ ok k
  unfolding subject_of uuid_of
  subject_of_lem p k h = rw (h, uuid_of, jwt.reads k) refl
