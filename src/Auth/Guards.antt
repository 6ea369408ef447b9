-- ===== src/Auth/Guards.antt =====
-- About the guard of the endpoints (backend/app/core/dependencies.py).
use road_vision_ai.Base.{
  ℕ, ◌≡◌, refl, sym, ap, ◌∙◌, Bool, true, false, not, List, Option, none, some, Result, ok, err,
  arith, ◌==◌, any, find, select, is_none, find_sound, find-select_sound, ==_iff, http,
}
use road_vision_ai.Json.{Fields}
use road_vision_ai.Enums.{UserRole}
use road_vision_ai.Schema.{User}
use road_vision_ai.Store.{World, lift, pure}
use road_vision_ai.Store.Rules.{bind-eq-ok, or_raise-eq-ok, raise_when-eq-ok}
use road_vision_ai.Storage.{Settings}
use road_vision_ai.Repository.{base_query, is_live}
use road_vision_ai.Repository.Users.{role_eq, users}
use road_vision_ai.Security.{Crypto, TokenType, decode_token, subject_of}
use road_vision_ai.Auth.{active_user, unauthorized, get_current_user, require_roles}

-- The account of a key that is not deleted.
abbrev pub live_user : ℕ → List User → Option User
live_user k rows = find (λ (u : User). u.id == k) (select (λ (u : User). is_none u.deleted_at) rows)

pub unauthorized-eq-ok {ℓ} : {A : Type ℓ} (r : Result A) {a : A} → unauthorized r ≡ ok a → r ≡ ok a
unfolding unauthorized
unauthorized-eq-ok (ok a) h = h
unauthorized-eq-ok (err e) h = cc

active_user-eq-some :
    (o : Option User) {u : User} → active_user o ≡ some u → (o ≡ some u) × (u.is_active ≡ true)
unfolding active_user
active_user-eq-some none h = cc
active_user-eq-some (some v) h = ground arith

-- What the guard has seen of an account u, on the rows, at a time.
abbrev pub Known : {W T : Type 0} → Crypto W T → Settings W → List User → ℕ → T → User → Type 0
Known {W} crypto settings rows now token u =
    (fields : Fields W) × (decode_token crypto settings now token TokenType.access ≡ ok fields)
    × (subject_of crypto fields ≡ ok u.id)
    × (live_user u.id rows ≡ some u)
    × (u.deleted_at ≡ none)
    × (u.is_active ≡ true)

is_none-eq {ℓ} : {A : Type ℓ} (o : Option A) → is_none o ≡ true → o ≡ none
is_none-eq none h = refl
is_none-eq (some a) h = cc

live_user_sound :
    (k : ℕ) (rows : List User) {u : User}
    → live_user k rows ≡ some u
    → (k ≡ u.id) × (u.deleted_at ≡ none)
live_user_sound k rows {u} h = (
  sym ((==_iff u.id k).0 (find_sound (λ (u : User). u.id == k) _ h)),
  is_none-eq u.deleted_at
      (find-select_sound (λ (u : User). u.id == k) (λ (u : User). is_none u.deleted_at) rows h),
)

not-eq-false : (b : Bool) → not b ≡ false → b ≡ true
not-eq-false true h = refl
not-eq-false false h = cc

module _ {W D T : Type 0} (crypto : Crypto W T) (settings : Settings W) where
  pub get_current_user_ok :
      (credentials : Option T) (s : World W D) {u : User}
      → (get_current_user crypto settings credentials s).0 ≡ ok u
      → (token : T) × (credentials ≡ some token)
        × Known crypto settings s.working.users s.now token u
  unfolding get_current_user users base_query is_live
  get_current_user_ok none s h = cc
  get_current_user_ok (some token) s {u} h =
      let (fields, decoded, h1) =
        bind-eq-ok (lift (unauthorized (decode_token crypto settings s.now token TokenType.access)))
          _ s h in
      let (id, known, h2) = bind-eq-ok (lift (subject_of crypto fields)) _ s h1 in
      let (found, active) =
        active_user-eq-some (live_user id s.working.users)
          (or_raise-eq-ok (active_user (live_user id s.working.users)) (http 401) s h2) in
      let (same, kept) = live_user_sound id s.working.users found in
      let here : live_user u.id s.working.users ≡ some u =
        ap (λ k. live_user k s.working.users) (sym same) ∙ found in
      let subject : subject_of crypto fields ≡ ok u.id = known ∙ ap ok same in
      (token, refl, (fields, unauthorized-eq-ok _ decoded, subject, here, kept, active))

  -- An endpoint that requires a role is entered only with a bearer token that decodes as an access
  -- token, whose subject is an account that is not deleted, is active, and has one of the roles.
  pub require_roles_ok :
      (roles : List UserRole) (credentials : Option T) (s : World W D) {u : User}
      → (require_roles crypto settings roles credentials s).0 ≡ ok u
      → (token : T) × (credentials ≡ some token)
        × Known crypto settings s.working.users s.now token u
        × (any (role_eq u.role) roles ≡ true)
  unfolding require_roles
  require_roles_ok roles credentials s {u} h =
      let (v, entered, h1) = bind-eq-ok (get_current_user crypto settings credentials) _ s h in
      let (token, given, known) = get_current_user_ok credentials s entered in
      let (allowed, kept) =
        raise_when-eq-ok (not (any (role_eq v.role) roles)) (http 403) (pure v) _ h1 in
      let same : v ≡ u = cc in rw (← same) (token, given, known, (not-eq-false _ allowed))
