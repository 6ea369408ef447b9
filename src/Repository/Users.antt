-- ===== src/Repository/Users.antt =====
-- `users` as a model with its triggers (infrastructure/postgres/init/01_schema_v4.2.sql), and
-- UserRepository (backend/app/repositories/user_repository.py).
use road_vision_ai.Base.{
  ℕ, ◌+◌, Bool, true, false, ◌&&◌, not, String, Option, some, str_eq, ◌==◌, find, if◌then◌else◌,
}
use road_vision_ai.Enums.{UserRole}
use road_vision_ai.Schema.{User}
use road_vision_ai.Store.{Exec, query, gets, write, ◌>>=◌}
use road_vision_ai.Repository.{Model, base_query, get, has_key, update_rows}
use road_vision_ai.Repository.Inspections.{opt_eq}

abbrev role_code : UserRole → ℕ
role_code UserRole.administrator = 0
role_code UserRole.road_engineer = 1
role_code UserRole.inspection_agent = 2

unfoldable pub role_eq : UserRole → UserRole → Bool
role_eq a b = role_code a == role_code b

bool_eq : Bool → Bool → Bool
bool_eq true b = b
bool_eq false b = not b

-- `NEW IS DISTINCT FROM OLD` is the negation of this.
unfoldable pub same_user : User → User → Bool
unfolding role_eq bool_eq opt_eq
same_user a b =
    a.id == b.id
    && str_eq a.username b.username
    && str_eq a.email b.email
    && str_eq a.password_hash b.password_hash
    && role_eq a.role b.role
    && bool_eq a.is_active b.is_active
    && opt_eq str_eq a.specialization b.specialization
    && opt_eq str_eq a.region b.region
    && opt_eq str_eq a.vehicle_id b.vehicle_id
    && opt_eq str_eq a.equipment_id b.equipment_id
    && opt_eq bool_eq a.can_manage_users b.can_manage_users
    && opt_eq bool_eq a.can_manage_models b.can_manage_models
    && opt_eq bool_eq a.can_configure_ai b.can_configure_ai
    && opt_eq (λ x y. x == y) a.last_login b.last_login
    && a.created_at == b.created_at
    && a.updated_at == b.updated_at
    && opt_eq (λ x y. x == y) a.deleted_at b.deleted_at
    && a.version == b.version

-- fn_set_updated_at, then fn_increment_version
unfoldable pub user_triggers : ℕ → User → User → User
user_triggers now old new =
    let stamped = if same_user new old then new else record new { updated_at = now } in
    if same_user stamped old then stamped else record stamped { version = old.version + 1 }

unfoldable pub set_last_login : ℕ → User → User
set_last_login now u = record u { last_login = some now }

module _ {W D : Type 0} where
  unfoldable pub users : Model W D User
  users = record {
    rows = λ db. db.users;
    with_rows = λ rows db. record db { users = rows };
    key = λ u. u.id;
    soft = true;
    deleted_at = λ u. u.deleted_at;
    delete_at = λ now u. record u { deleted_at = some now };
    version = λ u. u.version;
    before_update = user_triggers;
  }

  -- `same_email` is the equality of CITEXT, which does not see the case of letters; an address is
  -- unique among the accounts that are not deleted.
  unfoldable pub get_by_email : (String → String → Bool) → String → Exec W D (Option User)
  unfolding users base_query
  get_by_email same_email email =
      query (λ db. find (λ (u : User). same_email u.email email) (base_query users db))

  unfoldable pub get_by_id : ℕ → Exec W D (Option User)
  unfolding users get
  get_by_id = get users

  unfoldable pub touch_last_login : User → Exec W D (Unit {0})
  unfolding users update_rows set_last_login
  touch_last_login user = do
    now ← gets (λ s. s.now)
    write (update_rows users (has_key users user.id) (set_last_login now) now)
