-- ===== src/Auth/Sessions.antt =====
-- About logins and the life of their tokens
-- (backend/app/services/auth_service.py, backend/app/core/security.py).
use road_vision_ai.Base.{
  ℕ, ◌+◌, ◌*◌, ◌≤◌, ◌≡◌, refl, Bool, true, false, some, ok, err, http, token_error, ltb,
  if◌then◌else◌,
}
use road_vision_ai.Json.{Json, Fields, get_field}
use road_vision_ai.Schema.{User}
use road_vision_ai.Store.{World}
use road_vision_ai.Storage.{Settings}
use road_vision_ai.Repository.{base_query, is_live}
use road_vision_ai.Repository.Users.{users}
use road_vision_ai.Security.{
  Crypto, TokenType, type_value, role_value, claims, is_text, subject_of, decode_token,
}
use road_vision_ai.Auth.{
  TokenResponse, active_user, unauthorized, issue_tokens, refresh, get_current_user,
}
use road_vision_ai.Auth.Guards.{live_user}
use road_vision_ai.Auth.Tokens.{
  IsJwt, token_of, decode_token_own, decode_token_other, subject_of_lem,
}

module _ {W D T : Type 0} (crypto : Crypto W T) (settings : Settings W)
    (jwt : IsJwt crypto settings) where
  -- A token that names an active account that is not deleted lets its bearer in if it decodes.
  get_current_user_by :
      (token : T) (s : World W D) (p : Fields W) (k : ℕ) (v : User) (b : Bool)
      → decode_token crypto settings s.now token TokenType.access
        ≡ (if b then ok p else err token_error)
      → subject_of crypto p ≡ ok k
      → live_user k s.working.users ≡ some v
      → v.is_active ≡ true
      → (get_current_user crypto settings (some token) s).0 ≡ (if b then ok v else err (http 401))
  unfolding get_current_user unauthorized active_user users base_query is_live
  get_current_user_by token s p k v true h1 h2 h3 h4 = rw (h1, h2, h3, h4) refl
  get_current_user_by token s p k v false h1 h2 h3 h4 = rw h1 refl

  refresh_by :
      (token : T) (s : World W D) (p : Fields W) (k : ℕ) (v : User) (b : Bool)
      → decode_token crypto settings s.now token TokenType.refresh
        ≡ (if b then ok p else err token_error)
      → subject_of crypto p ≡ ok k
      → live_user k s.working.users ≡ some v
      → v.is_active ≡ true
      → refresh crypto settings token s
        ≡ (if b then issue_tokens crypto settings v s else (err (http 401), s))
  unfolding refresh unauthorized active_user users base_query is_live
  refresh_by token s p k v true h1 h2 h3 h4 = rw (h1, h2, h3, h4) refl
  refresh_by token s p k v false h1 h2 h3 h4 = rw h1 refl

  -- The payloads of the tokens of an account.
  abbrev access_payload : User → World W D → Fields W
  access_payload u s =
      claims (crypto.key_text u.id) TokenType.access s.now
        (s.now + settings.access_token_expire_minutes * 60) (crypto.key_text s.next_id)
        (Fields.field "role" (Json.str (role_value u.role)) Fields.end)

  abbrev refresh_payload : User → World W D → Fields W
  refresh_payload u s =
      claims (crypto.key_text u.id) TokenType.refresh s.now
        (s.now + settings.refresh_token_expire_days * 86400) (crypto.key_text (s.next_id + 1))
        Fields.end

  issue_tokens_lem :
      (u : User) (s : World W D) {r : TokenResponse T}
      → (issue_tokens crypto settings u s).0 ≡ ok r
      → (r.access_token ≡ token_of crypto settings jwt (access_payload u s))
        × (r.refresh_token ≡ token_of crypto settings jwt (refresh_payload u s))
  unfolding issue_tokens
  issue_tokens_lem u s h = (cc, cc)

  -- The tokens of an account, decoded at a later time.
  payloads_decoded :
      (u : User) (s : World W D) (now : ℕ)
      → s.now ≤ now
      → (decode_token crypto settings now
            (token_of crypto settings jwt (access_payload u s))
            TokenType.access
          ≡ (if ltb now (s.now + settings.access_token_expire_minutes * 60)
              then ok (access_payload u s)
              else err token_error))
        × (decode_token crypto settings now
              (token_of crypto settings jwt (refresh_payload u s))
              TokenType.refresh
            ≡ (if ltb now (s.now + settings.refresh_token_expire_days * 86400)
                then ok (refresh_payload u s)
                else err token_error))
        × (decode_token crypto settings now
              (token_of crypto settings jwt (refresh_payload u s))
              TokenType.access
            ≡ err token_error)
        × (decode_token crypto settings now
              (token_of crypto settings jwt (access_payload u s))
              TokenType.refresh
            ≡ err token_error)
  unfolding claims get_field is_text type_value
  payloads_decoded u s now later = (
    decode_token_own crypto settings jwt (access_payload u s) TokenType.access s.now
        (s.now + settings.access_token_expire_minutes * 60) now
        (refl, refl, (_, refl), (_, refl), refl, refl, refl) later refl,
    decode_token_own crypto settings jwt (refresh_payload u s) TokenType.refresh s.now
        (s.now + settings.refresh_token_expire_days * 86400) now
        (refl, refl, (_, refl), (_, refl), refl, refl, refl) later refl,
    decode_token_other crypto settings jwt (refresh_payload u s) TokenType.access now refl,
    decode_token_other crypto settings jwt (access_payload u s) TokenType.refresh now refl,
  )

  payloads_named :
      (u : User) (s : World W D)
      → (subject_of crypto (access_payload u s) ≡ ok u.id)
        × (subject_of crypto (refresh_payload u s) ≡ ok u.id)
  unfolding claims get_field
  payloads_named u s = (
    subject_of_lem crypto settings jwt (access_payload u s) u.id refl,
    subject_of_lem crypto settings jwt (refresh_payload u s) u.id refl,
  )

  -- The tokens of an account that is active and not deleted, at a later time: the access token lets
  -- its bearer in until it expires, the refresh token is exchanged for new tokens until it expires,
  -- and neither is ever taken for the other.
  pub issue_tokens_life :
      (u : User) (s : World W D) (s' : World W D) {r : TokenResponse T} {v : User}
      → (issue_tokens crypto settings u s).0 ≡ ok r
      → s.now ≤ s'.now
      → live_user u.id s'.working.users ≡ some v
      → v.is_active ≡ true
      → ((get_current_user crypto settings (some r.access_token) s').0 ≡ (
          if ltb s'.now (s.now + settings.access_token_expire_minutes * 60)
          then ok v
          else err (http 401)))
        × (refresh crypto settings r.refresh_token s' ≡ (
            if ltb s'.now (s.now + settings.refresh_token_expire_days * 86400)
            then issue_tokens crypto settings v s'
            else (err (http 401), s')))
        × ((get_current_user crypto settings (some r.refresh_token) s').0 ≡ err (http 401))
        × (refresh crypto settings r.access_token s' ≡ (err (http 401), s'))
  issue_tokens_life u s s' {r} {v} issued later here active =
      let (own_access, own_refresh, other_refresh, other_access) =
        payloads_decoded u s s'.now later in
      let (named_access, named_refresh) = payloads_named u s in
      let (access_is, refresh_is) = issue_tokens_lem u s issued in
      rw (access_is, refresh_is)
        (
          get_current_user_by _ s' (access_payload u s) u.id v _ own_access named_access here
              active,
          refresh_by _ s' (refresh_payload u s) u.id v _ own_refresh named_refresh here active,
          get_current_user_by _ s' (refresh_payload u s) u.id v false other_refresh named_refresh
              here active,
          refresh_by _ s' (access_payload u s) u.id v false other_access named_access here active,
        )
