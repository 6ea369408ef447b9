-- ===== src/Auth/Login.antt =====
-- About the answers to a login (backend/app/services/auth_service.py).
use road_vision_ai.Base.{
  ℕ, ◌≡◌, refl, ◌⊎◌, inl, inr, Bool, true, false, String, List, [], ◌∷◌, ◌++◌, Option, none, some,
  err, ok, http, database_error, find, select, is_none, Bool-cases, arith,
}
use road_vision_ai.Schema.{User, AuditLog}
use road_vision_ai.Store.{World, commit, ◌>>◌}
use road_vision_ai.Storage.{Settings}
use road_vision_ai.Repository.{base_query, is_live, is_malformed, audit_log}
use road_vision_ai.Repository.Users.{users, touch_last_login}
use road_vision_ai.Security.{Crypto, Verdict, verify_password}
use road_vision_ai.Auth.{credentials_ok, issue_tokens, login}

-- The account of an address that is not deleted.
abbrev pub account : (String → String → Bool) → String → List User → Option User
account same_email email rows =
    find (λ (u : User). same_email u.email email) (select (λ (u : User). is_none u.deleted_at) rows)

-- The row that the audit log gets.
abbrev pub login_entry : {W : Type 0} → ℕ → ℕ → User → Option String → Option String → AuditLog W
login_entry id now u ip user_agent = record {
  id = id;
  user_id = some u.id;
  action = "LOGIN";
  entity_type = "users";
  entity_id = u.id;
  old_value = none;
  new_value = none;
  ip_address = ip;
  user_agent = user_agent;
  timestamp = now;
}

-- No address, or one that PostgreSQL reads.
abbrev pub IsReadable : (String → Bool) → Option String → Type 0
IsReadable is_inet none = Unit
IsReadable is_inet (some x) = (is_inet x ≡ true)

malformed_some :
    (is_inet : String → Bool) (ip : Option String)
    → is_malformed is_inet ip ≡ true
    → (x : String) × (ip ≡ some x) × (is_inet x ≡ false)
malformed_some is_inet none h = cc
malformed_some is_inet (some x) h = (x, refl, ground arith)

readable :
    (is_inet : String → Bool) (ip : Option String)
    → is_malformed is_inet ip ≡ false
    → IsReadable is_inet ip
readable is_inet none h = tt
readable is_inet (some x) h = ground arith

module _ {W T : Type 0} (crypto : Crypto W T) (password : String) (u : User) where
  credentials_wrong :
      crypto.verify u.password_hash password ≡ Verdict.mismatch
      → credentials_ok crypto password (some u) ≡ ok none
  unfolding credentials_ok verify_password
  credentials_wrong h = rw (credentials_ok, verify_password, h) refl

  credentials_right :
      crypto.verify u.password_hash password ≡ Verdict.matches
      → credentials_ok crypto password (some u) ≡ ok (some u)
  unfolding credentials_ok verify_password
  credentials_right h = rw (credentials_ok, verify_password, h) refl

module _ {W D T : Type 0} (crypto : Crypto W T) (settings : Settings W)
    (same_email : String → String → Bool) (email password : String) (ip user_agent : Option String)
    (s : World W D) where
  -- An address without an account and a wrong password of an account, active or not, get the same
  -- answer, 401, and both leave the world as it was.
  pub login_refused :
      (account same_email email s.working.users ≡ none)
        ⊎ ((u : User) × (account same_email email s.working.users ≡ some u)
            × (crypto.verify u.password_hash password ≡ Verdict.mismatch))
      → login crypto settings same_email email password ip user_agent s ≡ (err (http 401), s)
  unfolding login users base_query is_live credentials_ok
  login_refused (inl missing) = rw missing refl
  login_refused (inr (u, found, wrong)) = rw (found, credentials_wrong crypto password u wrong) refl

  -- With the right password an account that is not active is answered 403, and nothing changes. An
  -- active one, at an address that PostgreSQL does not read as an INET, gets an exception of the
  -- database, and nothing is committed. At any other address, or none, it gets its tokens from a
  -- world at the same time, in which one entry has been added to the audit log and all is committed.
  pub login_admitted :
      {u : User}
      → account same_email email s.working.users ≡ some u
      → crypto.verify u.password_hash password ≡ Verdict.matches
      → ((u.is_active ≡ false)
          × (login crypto settings same_email email password ip user_agent s ≡ (err (http 403), s)))
        ⊎ ((x : String) × (u.is_active ≡ true)
            × (ip ≡ some x)
            × (s.is_inet x ≡ false)
            × ((login crypto settings same_email email password ip user_agent s).0
                ≡ err database_error)
            × ((login crypto settings same_email email password ip user_agent s).1.committed
                ≡ s.committed))
        ⊎ ((t : World W D) × (u.is_active ≡ true)
            × IsReadable s.is_inet ip
            × (login crypto settings same_email email password ip user_agent s
                ≡ issue_tokens crypto settings u t)
            × (t.now ≡ s.now)
            × (t.committed ≡ t.working)
            × (t.committed.audit_logs
                ≡ s.working.audit_logs ++ login_entry s.next_id s.now u ip user_agent ∷ []))
  unfolding login users base_query is_live touch_last_login audit_log
  login_admitted {u} found right =
      let right' = credentials_right crypto password u right in
      let t =
        ((do
          touch_last_login u
          audit_log "LOGIN" "users" u.id (some u.id) none ip user_agent
          commit)
          s).1 in
      elim (Bool-cases u.is_active) [
        | inr e ↦ inl (e, rw (found, right', e) refl)
        | inl e ↦ elim (Bool-cases (is_malformed s.is_inet ip)) [
          | inl k ↦
              let (x, same, bad) = malformed_some s.is_inet ip k in
              inr (
                inl (x, e, same, bad, rw (found, right', e, k) refl, rw (found, right', e, k) refl))
          | inr k ↦ inr (
              inr (
                t,
                e,
                readable s.is_inet ip k,
                rw (found, right', e, k) refl,
                rw k refl,
                rw k refl,
                rw k refl,
              ))
        ]
      ]
