-- ===== src/Organizations/Lifecycle.antt =====
-- plugins/organizations/operations.go and active.go: create, update, delete and activate an
-- organization. The new identifiers and the time are arguments; host-owned fields are left out.
use auth_all.Prelude.{
  ℕ, Bool, false, ◌&&◌, ◌||◌, not, [], ◌∷◌, Option, none, some, Str, leb, if◌then◌else◌, ◌==◌,
  nat_eq, str_eq, is_empty, all, length,
}
use auth_all.Errors.{
  Error, Result, ok, err, ◌>>=◌, ◌>>◌, guard, refuse_by, invalid_request, unauthorized, slug_taken,
  row_conflict, not_a_member,
}
use auth_all.Strings.{trim_space, byte_length}
use auth_all.Organizations.Store.{
  Organization, Membership, User, active, Db, create_organization, create_membership,
  organization_by_id, update_organization, delete_organization, set_active_organization,
}
use auth_all.Organizations.Events.{
  Hooks, Change, actor_id, organization_created, organization_updated, organization_deleted,
  member_added, active_organization_set,
}
use auth_all.Organizations.Access.{Plugin, map_error, not_found_error, plugin_membership_of}

abbrev pub max_name_length : ℕ
max_name_length = 200

unfoldable pub lower_or_digit : ℕ → Bool
lower_or_digit c = (leb b'a' c && leb c b'z') || (leb b'0' c && leb c b'9')

-- `^[a-z0-9][a-z0-9-]{0,62}$`
unfoldable pub slug_matches : Str → Bool
slug_matches [] = false
slug_matches (c ∷ s) =
    lower_or_digit c && (all (λ x. lower_or_digit x || x == b'-') s && leb (length s) 62)

unfoldable pub valid_name : Str → Bool
valid_name name = not (is_empty name) && leb (byte_length name) max_name_length

abbrev pub slug_error : Error → Error
slug_error row_conflict = slug_taken
slug_error e = e

-- The owner of `Create`: the named one, or the caller.
unfoldable pub owner_of : Option User → Str → Result Str
owner_of none [] = err unauthorized
owner_of (some actor) [] = ok actor.id
owner_of actor (c ∷ owner) = ok (c ∷ owner)

-- The transaction of `Create`.
unfoldable pub create_tx : Hooks → Db → Organization → Membership → Result Db
create_tx hooks db o m = do
  refuse_by (hooks.before_organization_create o)
  db' ← map_error slug_error (create_organization db o)
  create_membership db' m

unfoldable pub create :
    Plugin
    → Hooks
    → Db
    → Option User
    → Str
    → Str
    → Str
    → Str
    → Str
    → ℕ
    → Result (Change Organization)
create p hooks db actor name slug owner_id org_id member_id now = do
  let name' = trim_space name
  let slug' = trim_space slug
  guard (valid_name name') invalid_request
  guard (not (is_empty slug')) invalid_request
  guard (slug_matches slug') invalid_request
  owner ← owner_of actor owner_id
  let o : Organization = record {
    id = org_id;
    name = name';
    slug = slug';
    created_at = now;
    updated_at = now;
  }
  let m : Membership = record {
    id = member_id;
    org_id = org_id;
    user_id = owner;
    role = p.owner_role;
    status = active;
    joined_at = now;
    permissions = [];
    team_roles = [];
  }
  db' ← create_tx hooks db o m
  ok (record {
    db = db';
    value = o;
    events =
        organization_created (actor_id actor) org_id
        ∷ member_added (actor_id actor) org_id owner p.owner_role
        ∷ [];
  })

-- A nil field of `UpdateInput` keeps the stored value.
unfoldable pub new_name : Option Str → Str → Result Str
new_name none old = ok old
new_name (some name) old =
    guard (valid_name (trim_space name)) invalid_request >> ok (trim_space name)

unfoldable pub new_slug : Option Str → Str → Result Str
new_slug none old = ok old
new_slug (some slug) old =
    guard (slug_matches (trim_space slug)) invalid_request >> ok (trim_space slug)

-- The checks of the input run before the transaction.
unfoldable pub update :
    Hooks → Db → Option User → Str → Option Str → Option Str → ℕ → Result (Change Organization)
update hooks db actor org name slug now = do
  checked_name ← new_name name []
  checked_slug ← new_slug slug []
  o ← map_error not_found_error (organization_by_id db org)
  name' ← new_name name o.name
  slug' ← new_slug slug o.slug
  let o' = record o { name = name'; slug = slug'; updated_at = now }
  refuse_by (hooks.before_organization_update o')
  db' ← map_error slug_error (update_organization db o')
  ok (record { db = db'; value = o'; events = organization_updated (actor_id actor) org ∷ [] })

unfoldable pub delete : Hooks → Db → Option User → Str → Result (Change Organization)
delete hooks db actor org = do
  o ← map_error not_found_error (organization_by_id db org)
  refuse_by (hooks.before_organization_delete o)
  db' ← map_error not_found_error (delete_organization db org)
  ok (record { db = db'; value = o; events = organization_deleted (actor_id actor) o.id ∷ [] })

-- `setActiveSession` for the session and the user of the principal.
unfoldable pub set_active_session : Db → Str → Str → Str → Result (Change (Unit {0}))
set_active_session db session user org =
    if is_empty org
    then (do
      db' ← set_active_organization db session []
      ok (record { db = db'; value = tt; events = [] }))
    else (do
      o ← map_error not_found_error (organization_by_id db org)
      m ← plugin_membership_of db org user
      guard (m.status == active) not_a_member
      db' ← set_active_organization db session org
      ok (record { db = db'; value = tt; events = active_organization_set user org ∷ [] }))
