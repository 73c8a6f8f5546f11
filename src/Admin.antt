-- ===== src/Admin.antt =====
-- plugins/admin/operations.go: `SetRole`, `Disable` and `Enable`, and the guard of the last administrator.
-- A hook is a function of the changed row that can refuse; that it writes no row is assumed. The actor,
-- method and address of an event are left out.
mod Examples
pub mod Owners
pub mod History
use auth_all.Prelude.{
  ℕ, ◌+◌, Bool, true, false, ◌&&◌, ◌||◌, not, List, [], ◌∷◌, ◌++◌, Option, none, some, Str, str_beq,
  leb, if◌then◌else◌, ◌==◌, nat_eq, str_eq, is_empty, length,
}
use auth_all.Errors.{
  Error, Result, ok, err, guard, refuse_by, ◌>>=◌, ◌>>◌, role_unknown, last_admin, row_not_found,
  row_conflict, private_error, not_found, email_already_exists, internal,
}
use auth_all.Roles.{Roles, at_least, rank, effective}
use auth_all.Accounts.{
  User, Db, is_enabled, user_by_id, update_user, lock_enabled_users_with_role, delete_sessions_of,
}

pub record Plugin : Type 0 where
  pub roles : Roles
  pub admin_role : Str

pub data Event : Type 0 where
  role_changed : Str → Str → Str → Event
  user_disabled : Str → Event
  user_enabled : Str → Event
  user_updated : Str → Event

pub record Hooks : Type 0 where
  pub before_role_change : User → Option Error
  pub before_user_update : User → Option Error

pub record Change : Type 0 where
  pub db : Db
  pub user : User
  pub events : List Event

unfoldable pub public_error : Error → Error
public_error row_conflict = email_already_exists
public_error row_not_found = not_found
public_error (private_error n) = internal
public_error e = e

unfoldable pub publicly {ℓ} : {A : Type ℓ} → Result A → Result A
unfolding public_error
publicly (ok a) = ok a
publicly (err e) = err (public_error e)

-- `roleOf`.
abbrev pub role_of : Plugin → User → Str
role_of p u = if is_empty u.role then p.roles.default_role else u.role

-- The loop over the locked rows.
unfoldable pub count_others : Str → List Str → ℕ
count_others user [] = 0
count_others user (id ∷ ids) =
    let rest = count_others user ids in if id == user then rest else rest + 1

-- An empty role column means the default role.
unfoldable pub role_names : Plugin → List Str
role_names p =
    if p.roles.default_role == p.admin_role then p.admin_role ∷ [] ∷ [] else p.admin_role ∷ []

unfoldable pub remaining_admins : Db → Str → List Str → ℕ
unfolding count_others
remaining_admins db user [] = 0
remaining_admins db user (name ∷ names) =
    count_others user (lock_enabled_users_with_role db name) + remaining_admins db user names

unfoldable pub guard_last_admin : Plugin → Db → Str → Result (Unit {0})
unfolding remaining_admins role_names
guard_last_admin p db user = guard (not (remaining_admins db user (role_names p) == 0)) last_admin

-- The transaction of `SetRole`: the tables and the row.
unfoldable pub set_role_tx : Plugin → Hooks → Db → Str → Str → ℕ → Result (Db × User)
set_role_tx p hooks db user role now = do
  u ← user_by_id db user
  let from = role_of p u
  let u' = record u { role = role; updated_at = now }
  let lowers = at_least p.roles from p.admin_role && not (at_least p.roles role p.admin_role)
  let changed : Result (Db × User) = (do
    if lowers then guard_last_admin p db user else ok tt
    refuse_by (hooks.before_role_change u')
    refuse_by (hooks.before_user_update u')
    db' ← update_user db u'
    ok (db', u'))
  if from == role then ok (db, u) else changed

-- The role before the call.
unfoldable pub role_before : Plugin → Db → Str → Str
role_before p db user = elim (user_by_id db user) [ ok u ↦ role_of p u | err e ↦ [] ]

-- `SetRole`.
unfoldable pub set_role : Plugin → Hooks → Db → Str → Str → ℕ → Result Change
unfolding role_before
set_role p hooks db user role now = do
  elim (rank p.roles role) [ none ↦ err role_unknown | some i ↦ ok tt ]
  done ← publicly (set_role_tx p hooks db user role now)
  let from = role_before p db user
  ok (record {
    db = done.0;
    user = done.1;
    events = if from == role then [] else role_changed user from role ∷ user_updated user ∷ [];
  })

unfoldable pub disable_tx : Plugin → Hooks → Db → Str → ℕ → Result (Db × User)
disable_tx p hooks db user now = do
  u ← user_by_id db user
  let u' = record u { disabled_at = some now; updated_at = now }
  let changed : Result (Db × User) = (do
    if at_least p.roles (role_of p u) p.admin_role then guard_last_admin p db user else ok tt
    refuse_by (hooks.before_user_update u')
    db' ← update_user db u'
    ok (delete_sessions_of db' user, u'))
  if not (is_enabled u) then ok (db, u) else changed

-- `Disable`; it sends its events whether it changed the row or not.
unfoldable pub disable : Plugin → Hooks → Db → Str → ℕ → Result Change
disable p hooks db user now = do
  done ← publicly (disable_tx p hooks db user now)
  ok (record { db = done.0; user = done.1; events = user_disabled user ∷ user_updated user ∷ [] })

unfoldable pub enable_tx : Plugin → Hooks → Db → Str → ℕ → Result (Db × User)
enable_tx p hooks db user now = do
  u ← user_by_id db user
  let u' = record u { disabled_at = none; updated_at = now }
  let changed : Result (Db × User) = (do
    refuse_by (hooks.before_user_update u')
    db' ← update_user db u'
    ok (db', u'))
  if is_enabled u then ok (db, u) else changed

-- `Enable`.
unfoldable pub enable : Plugin → Hooks → Db → Str → ℕ → Result Change
enable p hooks db user now = do
  done ← publicly (enable_tx p hooks db user now)
  ok (record { db = done.0; user = done.1; events = user_enabled user ∷ user_updated user ∷ [] })
