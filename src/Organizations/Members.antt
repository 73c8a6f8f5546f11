-- ===== src/Organizations/Members.antt =====
-- plugins/organizations/members.go: the operations on a membership, and their guards. An operation is
-- a function from the tables to the changed tables or an error; a refused transaction is rolled back.
pub mod Rows
pub mod Owner
pub mod Keeps
use auth_all.Prelude.{
  ℕ, zero, ◌+◌, Bool, true, false, ◌&&◌, ◌||◌, not, List, [], ◌∷◌, Option, none, some, Str, codes,
  str_beq, leb, if◌then◌else◌, ◌==◌, nat_eq, str_eq,
}
use auth_all.Errors.{
  Error, Result, ok, err, ◌>>=◌, ◌>>◌, guard, or_fail, refuse_by, role_unknown, role_not_allowed,
  last_owner, invalid_request, member_limit,
}
use auth_all.Permission.{Set, covers_set}
use auth_all.Organizations.Store.{
  Organization, Membership, User, active, suspended, Db, organization_by_id, membership_of,
  update_membership, delete_membership, lock_active_members_with_role, count_members,
  count_pending_invitations, clear_active_organization,
}
use auth_all.Organizations.Events.{
  Event, Hooks, Change, actor_id, member_role_changed, member_suspended, member_restored,
  member_removed,
}
use auth_all.Organizations.Access.{
  Plugin, known_role, authorize, map_error, not_found_error, not_a_member_error,
}

abbrev pub member_write : Str
member_write = codes "member:write"

-- The loop of `guardOwner` over the locked owners.
unfoldable pub count_others : Str → List Str → ℕ
count_others user [] = 0
count_others user (id ∷ ids) =
    let rest = count_others user ids in if id == user then rest else rest + 1

unfoldable pub guard_owner : Plugin → Db → Str → Membership → Str → Str → Result (Unit {0})
guard_owner p db org m next_role next_status =
    if not (m.role == p.owner_role) || not (m.status == active)
    then ok tt
    else if next_role == p.owner_role && next_status == active
    then ok tt
    else guard
        (not (count_others m.user_id (lock_active_members_with_role db org p.owner_role) == 0))
        last_owner

-- HC-04: the actor, if there is one, holds the permission and covers the granted set.
unfoldable pub check_grant : Plugin → Db → Option User → Str → Str → Set → Result (Unit {0})
check_grant p db none org statement granted = ok tt
check_grant p db (some actor) org statement granted = do
  held ← authorize p db org actor.id statement
  guard (covers_set held.1 granted) role_not_allowed

unfoldable pub check_actor : Plugin → Db → Option User → Str → Str → Result (Unit {0})
check_actor p db none org statement = ok tt
check_actor p db (some actor) org statement = do held ← authorize p db org actor.id statement; ok tt

abbrev pub unchanged : Db → Membership → Change Membership
unchanged db m = record { db = db; value = m; events = [] }

-- The transaction of `SetRole`.
unfoldable pub set_role_tx :
    Plugin → Hooks → Db → Option User → Str → Str → Str → Result (Change Membership)
set_role_tx p hooks db actor org user role = do
  o ← map_error not_found_error (organization_by_id db org)
  m ← map_error not_a_member_error (membership_of db org user)
  let m' = record m { role = role }
  let changed : Result (Change Membership) = (do
    guard_owner p db org m role m.status
    refuse_by (hooks.before_membership_change m')
    db' ← map_error not_a_member_error (update_membership db m')
    ok (record {
      db = db';
      value = m';
      events = member_role_changed (actor_id actor) org user m.role role ∷ [];
    }))
  if m.role == role then ok (unchanged db m) else changed

-- `SetRole`.
unfoldable pub set_role :
    Plugin → Hooks → Db → Option User → Str → Str → Str → Result (Change Membership)
set_role p hooks db actor org user role = do
  known ← known_role p db org role
  granted ← or_fail known role_unknown
  check_grant p db actor org member_write granted
  set_role_tx p hooks db actor org user role

unfoldable pub set_status_tx :
    Plugin → Hooks → Db → Option User → Str → Str → Str → Result (Change Membership)
set_status_tx p hooks db actor org user status = do
  o ← map_error not_found_error (organization_by_id db org)
  m ← map_error not_a_member_error (membership_of db org user)
  let m' = record m { status = status }
  let changed : Result (Change Membership) = (do
    guard_owner p db org m m.role status
    refuse_by (hooks.before_membership_change m')
    db' ← map_error not_a_member_error (update_membership db m')
    ok (record {
      db = db';
      value = m';
      events =
          (if status == suspended
            then member_suspended (actor_id actor) org user
            else member_restored (actor_id actor) org user)
          ∷ [];
    }))
  if m.status == status then ok (unchanged db m) else changed

-- `SetStatus`, which `Suspend` and `Restore` call.
unfoldable pub set_status :
    Plugin → Hooks → Db → Option User → Str → Str → Str → Result (Change Membership)
set_status p hooks db actor org user status = do
  guard (status == active || status == suspended) invalid_request
  check_actor p db actor org member_write
  set_status_tx p hooks db actor org user status

unfoldable pub suspend : Plugin → Hooks → Db → Option User → Str → Str → Result (Change Membership)
suspend p hooks db actor org user = set_status p hooks db actor org user suspended

unfoldable pub restore : Plugin → Hooks → Db → Option User → Str → Str → Result (Change Membership)
restore p hooks db actor org user = set_status p hooks db actor org user active

-- A member leaves on its own without the permission.
unfoldable pub check_removal : Plugin → Db → Option User → Str → Str → Result (Unit {0})
unfolding check_actor
check_removal p db none org user = ok tt
check_removal p db (some actor) org user =
    if actor.id == user then ok tt else check_actor p db (some actor) org member_write

unfoldable pub remove_tx :
    Plugin → Hooks → Db → Option User → Str → Str → Result (Change Membership)
remove_tx p hooks db actor org user = do
  o ← map_error not_found_error (organization_by_id db org)
  m ← map_error not_a_member_error (membership_of db org user)
  guard_owner p db org m [] suspended
  refuse_by (hooks.before_membership_change m)
  db' ← map_error not_a_member_error (delete_membership db org user)
  ok (record {
    db = clear_active_organization db' org user;
    value = m;
    events = member_removed (actor_id actor) org user m.role ∷ [];
  })

-- `Remove`.
unfoldable pub remove : Plugin → Hooks → Db → Option User → Str → Str → Result (Change Membership)
remove p hooks db actor org user = do
  check_removal p db actor org user
  remove_tx p hooks db actor org user

-- The members and the open invitations stay below the limit; 0 sets no limit.
unfoldable pub guard_member_limit : Plugin → Db → Str → ℕ → Result (Unit {0})
guard_member_limit p db org now =
    if p.max_members == 0
    then ok tt
    else guard
        (not (leb p.max_members (count_members db org + count_pending_invitations db org now)))
        member_limit
