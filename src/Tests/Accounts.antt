-- ===== src/Tests/Accounts.antt =====
-- Examples of logins and tokens. A token is here a payload with its key and algorithm.
use road_vision_ai.Base.{
  ℕ, zero, suc, ◌≤◌, ◌<◌, ◌≡◌, refl, ap, ◌⊎◌, inl, inr, Bool, true, false, ◌&&◌, String, [], ◌∷◌,
  Option, none, some, ok, err, http, database_error, arith, any, Bool-cases, leb, str_eq,
  if◌then◌else◌,
}
use road_vision_ai.Float.Fixed.{Fixed}
use road_vision_ai.Json.{Json, Fields, ℤ, get_field}
use road_vision_ai.Enums.{UserRole}
use road_vision_ai.Store.{World}
use road_vision_ai.Repository.Users.{role_eq}
use road_vision_ai.Security.{Crypto, Verdict, Decoded, TokenType}
use road_vision_ai.Auth.{
  TokenResponse, issue_tokens, login, refresh, get_current_user, require_roles,
}
use road_vision_ai.Auth.Guards.{Known, require_roles_ok}
use road_vision_ai.Auth.Login.{IsReadable, login_entry, login_refused, login_admitted}
use road_vision_ai.Auth.Tokens.{IsJwt}
use road_vision_ai.Auth.Sessions.{issue_tokens_life}
use road_vision_ai.Tests.{engineer, world}
use road_vision_ai.Tests.Requests.{settings}

abbrev pub Token : Type 0
Token = Fields Fixed × String × String

-- A key in unary.
abbrev unary : ℕ → String
unary zero = ""
unary (suc n) = String.◌∷◌ "i" (unary n)

abbrev of_unary : String → ℕ
of_unary String.[] = zero
of_unary (String.◌∷◌ c s) = suc (of_unary s)

of_unary-unary : (n : ℕ) → of_unary (unary n) ≡ n
of_unary-unary zero = refl
of_unary-unary (suc n) = rw (of_unary-unary n) refl

-- Whether a payload's `exp` has passed.
abbrev is_over : ℕ → Option (Json Fixed) → Bool
is_over now (some (Json.int (ℤ.pos expiry))) = leb expiry now
is_over now _ = false

abbrev opened : ℕ → Fields Fixed → Decoded Fixed
opened now p = if is_over now (get_field "exp" p) then Decoded.expired else Decoded.payload p

abbrev pub crypto : Crypto Fixed Token
crypto = record {
  verify = λ hash plain. if str_eq hash plain then Verdict.matches else Verdict.mismatch;
  encode = λ p key algorithm. (p, key, algorithm);
  decode = λ now token key algorithm.
      if str_eq token.1 key && str_eq token.2 algorithm
      then opened now token.0
      else Decoded.invalid;
  key_text = unary;
  key_of = λ s. some (of_unary s);
}

opened_only : (now : ℕ) (p q : Fields Fixed) → opened now p ≡ Decoded.payload q → q ≡ p
opened_only now p q h = elim (Bool-cases (is_over now (get_field "exp" p))) [
  | inl e ↦ cc (rw e at h)
  | inr e ↦ cc (rw e at h)
]

opened_alive :
    (now expiry : ℕ) (p : Fields Fixed)
    → get_field "exp" p ≡ some (Json.int (ℤ.pos expiry))
    → now < expiry
    → opened now p ≡ Decoded.payload p
opened_alive now expiry p h k = rw h (ground arith)

opened_over :
    (now expiry : ℕ) (p : Fields Fixed)
    → get_field "exp" p ≡ some (Json.int (ℤ.pos expiry))
    → expiry ≤ now
    → opened now p ≡ Decoded.expired
opened_over now expiry p h k = rw h (ground arith)

crypto-IsJwt : IsJwt crypto settings
crypto-IsJwt = record {
  decodes = λ p issued expiry now plain a b. opened_alive now expiry p plain.1 b;
  expires = λ p issued expiry now plain a b. opened_over now expiry p plain.1 b;
  decodes_only = λ p q now h. opened_only now p q h;
  reads = λ k. ap some (of_unary-unary k);
}

login_refused_example :
    login crypto settings str_eq "karim@example.org" "hash" none none world
    ≡ (err (http 401), world)
login_refused_example =
    login_refused crypto settings str_eq "karim@example.org" "hash" none none world (inl refl)

login_admitted_example :
    ((engineer.is_active ≡ false)
      × (login crypto settings str_eq "samira@example.org" "hash" (some "196.12.3.4") none world
          ≡ (err (http 403), world)))
    ⊎ ((x : String) × (engineer.is_active ≡ true)
        × (some "196.12.3.4" ≡ some x)
        × (world.is_inet x ≡ false)
        × ((login crypto settings str_eq "samira@example.org" "hash"
              (some "196.12.3.4")
              none
              world).0
            ≡ err database_error)
        × ((login crypto settings str_eq "samira@example.org" "hash"
              (some "196.12.3.4")
              none
              world).1.committed
            ≡ world.committed))
    ⊎ ((t : World Fixed Fixed) × (engineer.is_active ≡ true)
        × IsReadable world.is_inet (some "196.12.3.4")
        × (login crypto settings str_eq "samira@example.org" "hash" (some "196.12.3.4") none world
            ≡ issue_tokens crypto settings engineer t)
        × (t.now ≡ 200)
        × (t.committed ≡ t.working)
        × (t.committed.audit_logs ≡ login_entry 100 200 engineer (some "196.12.3.4") none ∷ []))
login_admitted_example =
    login_admitted crypto settings str_eq "samira@example.org" "hash" (some "196.12.3.4") none world
      {u = engineer} refl refl

pub tokens : (r : TokenResponse Token) × ((issue_tokens crypto settings engineer world).0 ≡ ok r)
unfolding issue_tokens
tokens = (_, refl)

-- Ten minutes later.
abbrev later : World Fixed Fixed
later = record world { now = 800 }

issue_tokens_life_example :
    ((get_current_user crypto settings (some tokens.0.access_token) later).0 ≡ ok engineer)
    × (refresh crypto settings tokens.0.refresh_token later
        ≡ issue_tokens crypto settings engineer later)
    × ((get_current_user crypto settings (some tokens.0.refresh_token) later).0 ≡ err (http 401))
    × (refresh crypto settings tokens.0.access_token later ≡ (err (http 401), later))
issue_tokens_life_example =
    issue_tokens_life crypto settings crypto-IsJwt engineer world later {r = tokens.0}
      {v = engineer} tokens.1 (omega arith) refl refl

entered :
    (require_roles crypto settings
      (UserRole.road_engineer ∷ [])
      (some tokens.0.access_token)
      later).0
    ≡ ok engineer
unfolding require_roles road_vision_ai.Security.decode_token tokens get_field
    road_vision_ai.Security.claims road_vision_ai.Security.subject_of
entered = refl

require_roles_ok_example :
    (token : Token) × (some tokens.0.access_token ≡ some token)
    × Known crypto settings later.working.users 800 token engineer
    × (any (role_eq UserRole.road_engineer) (UserRole.road_engineer ∷ []) ≡ true)
require_roles_ok_example =
    require_roles_ok crypto settings (UserRole.road_engineer ∷ []) (some tokens.0.access_token)
      later entered
