-- ===== src/AuditTrail.antt =====
-- The audit log is only ever appended to: every operation of the services
-- (backend/app/repositories/audit_repository.py writes the entries).
pub mod Services
pub mod Tasks
pub mod Trail
use mathlib.Core.List.{append_assoc, append-nil}
use road_vision_ai.Base.{
  ℕ, ◌≡◌, refl, sym, ap, ◌∙◌, inl, inr, Bool-cases, String, List, [], ◌∷◌, ◌++◌, Option, none, some,
}
use road_vision_ai.Text.{Text}
use road_vision_ai.Json.{Json}
use road_vision_ai.Schema.{AuditLog, User}
use road_vision_ai.Store.{Db, World, Exec, write, new_key, commit, rollback, in_session}
use road_vision_ai.Store.Preserves.{Preserves, reading}
use road_vision_ai.Repository.{is_malformed, audit_log}

-- The second list begins with the first.
abbrev pub Extends {ℓ} : {A : Type ℓ} → List A → List A → Type ℓ
Extends {A} xs ys = (zs : List A) × (ys ≡ xs ++ zs)

Extends-add {ℓ} : {A : Type ℓ} (xs ys : List A) (y : A) → Extends xs ys → Extends xs (ys ++ y ∷ [])
Extends-add xs ys y (zs, e) = (zs ++ y ∷ [], ap (λ l. l ++ y ∷ []) e ∙ append_assoc xs zs (y ∷ []))

module _ {W D : Type 0} (old : List (AuditLog W)) where
  -- The log of the session and the committed one begin with the entries of `old`.
  abbrev pub IsLogged : World W D → Type 0
  IsLogged s = Extends old s.working.audit_logs × Extends old s.committed.audit_logs

  pub new_key-IsLogged : Preserves IsLogged new_key
  new_key-IsLogged = record { at = λ s p. p }

  pub commit-IsLogged : Preserves IsLogged commit
  commit-IsLogged = record { at = λ s p. (p.0, p.0) }

  pub rollback-IsLogged : Preserves IsLogged rollback
  rollback-IsLogged = record { at = λ s p. (p.1, p.1) }

  pub write-IsLogged :
      (g : Db W D → Db W D)
      → ((db : Db W D) → (g db).audit_logs ≡ db.audit_logs)
      → Preserves IsLogged (write g)
  write-IsLogged g same = record { at = λ s p. ((p.0.0, same s.working ∙ p.0.1), p.1) }

  -- A session begins at what is committed.
  pub in_session-Extends :
      {A : Type 0} (m : Exec W D A) (s : World W D)
      → Preserves IsLogged m
      → Extends old s.committed.audit_logs
      → Extends old (in_session m s).1.committed.audit_logs
  unfolding in_session
  in_session-Extends m s keeps p = (keeps.at (record s { working = s.committed }) (p, p)).1

  pub audit_log-IsLogged :
      (action entity_type : String) (entity_id : ℕ) (user_id : Option ℕ)
      (new_value : Option (Json W)) (ip user_agent : Option String)
      → Preserves IsLogged (audit_log action entity_type entity_id user_id new_value ip user_agent)
  unfolding audit_log
  audit_log-IsLogged action entity_type entity_id user_id new_value ip user_agent = record {
    at = λ s p. elim (Bool-cases (is_malformed s.is_inet ip)) [
      | inl e ↦ rw e p
      | inr e ↦ rw e (Extends-add old s.working.audit_logs _ p.0, p.1)
    ];
  }

  pub ruleset writing =
      (new_key-IsLogged, commit-IsLogged, rollback-IsLogged, write-IsLogged, audit_log-IsLogged)
