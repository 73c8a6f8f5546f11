-- ===== src/Organizations/Custom.antt =====
-- plugins/organizations/customroles.go: the roles that an organization declares at run time.
use auth_all.Prelude.{
  ℕ, Bool, true, false, ◌&&◌, ◌||◌, not, List, [], ◌∷◌, Option, none, some, Str, codes, leb, ◌==◌,
  nat_eq, str_eq, all, length,
}
use auth_all.Errors.{
  Error, Result, ok, ◌>>=◌, ◌>>◌, guard, or_fail, forbidden, invalid_request, row_conflict,
}
use auth_all.Strings.{trim_space, join}
use auth_all.Permission.{new_set, is_empty_set, statements}
use auth_all.Organizations.Store.{
  CustomRole, User, Db, create_custom_role, delete_custom_role, organization_by_id,
}
use auth_all.Organizations.Events.{Change, actor_id, custom_role_created, custom_role_deleted}
use auth_all.Organizations.Access.{Plugin, permissions_of, map_error, not_found_error}
use auth_all.Organizations.Members.{check_grant, check_actor}
use auth_all.Organizations.Lifecycle.{lower_or_digit}

abbrev pub role_write : Str
role_write = codes "role:write"

-- `^[a-z0-9][a-z0-9_-]{0,62}$`
unfoldable pub role_name_matches : Str → Bool
role_name_matches [] = false
role_name_matches (c ∷ s) =
    lower_or_digit c
    && (all (λ x. lower_or_digit x || (x == b'_' || x == b'-')) s && leb (length s) 62)

abbrev pub is_none {ℓ} : {A : Type ℓ} → Option A → Bool
is_none none = true
is_none (some a) = false

abbrev pub name_taken_error : Error → Error
name_taken_error row_conflict = invalid_request
name_taken_error e = e

-- `CreateRole`; the identifier and the time are arguments.
unfoldable pub create_role :
    Plugin → Db → Option User → Str → Str → List Str → Str → ℕ → Result (Change CustomRole)
create_role p db actor org name texts id now = do
  guard p.allow_custom_roles forbidden
  let name' = trim_space name
  guard (role_name_matches name') invalid_request
  guard (is_none (permissions_of p name')) invalid_request
  granted ← or_fail (new_set texts) invalid_request
  guard (not (is_empty_set granted)) invalid_request
  check_grant p db actor org role_write granted
  let r : CustomRole = record {
    id = id;
    org_id = org;
    name = name';
    permissions = join (statements granted) (codes " ");
    created_at = now;
  }
  o ← map_error not_found_error (organization_by_id db org)
  db' ← map_error name_taken_error (create_custom_role db r)
  ok (record {
    db = db';
    value = r;
    events = custom_role_created (actor_id actor) org name' r.permissions ∷ [];
  })

unfoldable pub delete_role : Plugin → Db → Option User → Str → Str → Result (Change (Unit {0}))
delete_role p db actor org name = do
  check_actor p db actor org role_write
  db' ← map_error not_found_error (delete_custom_role db org name)
  ok (record { db = db'; value = tt; events = custom_role_deleted (actor_id actor) org name ∷ [] })
