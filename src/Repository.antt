-- ===== src/Repository.antt =====
-- The repositories (backend/app/repositories/): queries and flushed writes on one table.
pub mod Laws
pub mod Inspections
pub mod Users
use road_vision_ai.Base.{
  ℕ, zero, suc, ◌+◌, ◌≡◌, Bool, true, false, not, ◌&&◌, String, List, [], ◌∷◌, ◌++◌, map, Option,
  none, some, http, not_implemented, database_error, ◌==◌, length, find, select, take, drop, any,
  is_none, if◌then◌else◌,
}
use road_vision_ai.Json.{Json}
use road_vision_ai.Schema.{AuditLog}
use road_vision_ai.Store.{
  Db, World, Exec, pure, raise, query, gets, or_raise, raise_when, write, new_key, ◌>>=◌, ◌>>◌,
}

-- A mapped class: its table, its key, its `deleted_at` column (`soft` says whether it has one), its
-- `version` column, and the triggers that run before an UPDATE of a row (old, then new).
pub record Model (W D Row : Type 0) : Type 0 where
  pub rows : Db W D → List Row
  pub with_rows : List Row → Db W D → Db W D
  pub key : Row → ℕ
  pub soft : Bool
  pub deleted_at : Row → Option ℕ
  pub delete_at : ℕ → Row → Row
  pub version : Row → ℕ
  pub before_update : ℕ → Row → Row → Row

module _ {W D Row : Type 0} (m : Model W D Row) where
  -- `hasattr(model, "deleted_at")` and a time in it
  unfoldable pub is_live : Row → Bool
  is_live r = if m.soft then is_none (m.deleted_at r) else true

  -- `_base_query`
  unfoldable pub base_query : Db W D → List Row
  unfolding is_live
  base_query db = select is_live (m.rows db)

  abbrev pub has_key : ℕ → Row → Bool
  has_key id r = m.key r == id

  -- `UPDATE ... SET ... WHERE`, with the triggers
  unfoldable pub update_rows : (Row → Bool) → (Row → Row) → ℕ → Db W D → Db W D
  update_rows test f now db =
      m.with_rows (map (λ r. if test r then m.before_update now r (f r) else r) (m.rows db)) db

  unfoldable pub get : ℕ → Exec W D (Option Row)
  unfolding base_query
  get entity_id = query (λ db. find (has_key entity_id) (base_query db))

  unfoldable pub get_or_404 : ℕ → Exec W D Row
  unfolding get
  get_or_404 entity_id = do entity ← get entity_id; or_raise entity (http 404)

  unfoldable pub list : ℕ → ℕ → Exec W D (List Row × ℕ)
  unfolding base_query
  list limit offset =
      query (λ db. (take limit (drop offset (base_query db)), length (base_query db)))

  -- The row has its key and its defaults already.
  unfoldable pub add : Row → Exec W D Row
  add entity = do write (λ db. m.with_rows (m.rows db ++ entity ∷ []) db); pure entity

  abbrev pub is_version : ℕ → ℕ → Row → Bool
  is_version entity_id expected r = m.key r == entity_id && m.version r == expected

  -- The rowcount is 0 if no row fits.
  unfoldable pub update_with_version : ℕ → ℕ → (Row → Row) → Exec W D (Unit {0})
  unfolding update_rows
  update_with_version entity_id expected values = do
    now ← gets (λ s. s.now)
    fits ← query (λ db. any (is_version entity_id expected) (m.rows db))
    write (update_rows (is_version entity_id expected) values now)
    raise_when (not fits) (http 409)

  unfoldable pub soft_delete : ℕ → Exec W D (Unit {0})
  unfolding get_or_404 update_rows
  soft_delete entity_id = do
    raise_when (not m.soft) not_implemented
    entity ← get_or_404 entity_id
    now ← gets (λ s. s.now)
    write (update_rows (has_key (m.key entity)) (m.delete_at now) now)

-- The column `ip_address` is an INET.
abbrev pub is_malformed : (String → Bool) → Option String → Bool
is_malformed is_inet none = false
is_malformed is_inet (some ip) = not (is_inet ip)

-- AuditRepository.log: one row is inserted, and none is ever changed. The INSERT raises for an
-- address that PostgreSQL does not read.
unfoldable pub audit_log :
    {W D : Type 0}
    → String
    → String
    → ℕ
    → Option ℕ
    → Option (Json W)
    → Option String
    → Option String
    → Exec W D (Unit {0})
audit_log action entity_type entity_id user_id new_value ip_address user_agent = do
  malformed ← gets (λ s. is_malformed s.is_inet ip_address)
  raise_when malformed database_error
  id ← new_key
  now ← gets (λ s. s.now)
  write (λ db. record db {
    audit_logs =
        db.audit_logs
        ++ record {
          id = id;
          user_id = user_id;
          action = action;
          entity_type = entity_type;
          entity_id = entity_id;
          old_value = none;
          new_value = new_value;
          ip_address = ip_address;
          user_agent = user_agent;
          timestamp = now;
        }
          ∷ [];
  })
