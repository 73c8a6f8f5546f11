-- ===== src/Organizations/Teams.antt =====
-- plugins/organizations/teams.go: the teams of an organization.
use auth_all.Prelude.{
  ℕ, ◌&&◌, not, [], ◌∷◌, Option, Str, codes, leb, if◌then◌else◌, ◌==◌, nat_eq, str_eq, is_empty,
  length,
}
use auth_all.Errors.{
  Result, ok, ◌>>=◌, ◌>>◌, guard, or_fail, invalid_request, role_unknown, not_found,
}
use auth_all.Strings.{trim_space}
use auth_all.Organizations.Store.{
  Team, User, Db, create_team, team_by_id, delete_team, add_team_member, remove_team_member,
  organization_by_id,
}
use auth_all.Organizations.Events.{
  Change, actor_id, team_created, team_deleted, team_member_added, team_member_removed,
}
use auth_all.Organizations.Access.{
  Plugin, known_role, map_error, not_found_error, plugin_membership_of,
}
use auth_all.Organizations.Members.{check_grant, check_actor}
use auth_all.Organizations.Custom.{name_taken_error}
use auth_all.Organizations.Invitations.{already_member_error}

abbrev pub team_write : Str
team_write = codes "team:write"

-- The check of the team's role, or of the permission alone for a team with none.
unfoldable pub check_team_role : Plugin → Db → Option User → Str → Str → Result (Unit {0})
check_team_role p db actor org role =
    if is_empty role then check_actor p db actor org team_write else (do
      known ← known_role p db org role
      granted ← or_fail known role_unknown
      check_grant p db actor org team_write granted)

-- `CreateTeam`; the length of the name is counted in code points.
unfoldable pub create_new_team :
    Plugin → Db → Option User → Str → Str → Str → Str → ℕ → Result (Change Team)
create_new_team p db actor org name role id now = do
  let name' = trim_space name
  guard (not (is_empty name') && leb (length name') 100) invalid_request
  check_team_role p db actor org role
  o ← map_error not_found_error (organization_by_id db org)
  let t : Team = record { id = id; org_id = org; name = name'; role = role; created_at = now }
  db' ← map_error name_taken_error (create_team db t)
  ok (record { db = db'; value = t; events = team_created (actor_id actor) org id role ∷ [] })

unfoldable pub team_of : Db → Str → Str → Result Team
team_of db org team = do
  t ← map_error not_found_error (team_by_id db team)
  guard (t.org_id == org) not_found
  ok t

-- `DeleteTeam`.
unfoldable pub drop_team : Plugin → Db → Option User → Str → Str → Result (Change (Unit {0}))
drop_team p db actor org team = do
  t ← team_of db org team
  check_actor p db actor org team_write
  db' ← map_error not_found_error (delete_team db t.id)
  ok (record { db = db'; value = tt; events = team_deleted (actor_id actor) org team ∷ [] })

-- `AddTeamMember`.
unfoldable pub join_team : Plugin → Db → Option User → Str → Str → Str → Result (Change (Unit {0}))
join_team p db actor org team user = do
  t ← team_of db org team
  check_actor p db actor org team_write
  m ← plugin_membership_of db org user
  db' ← map_error already_member_error (add_team_member db t.id user)
  ok (record {
    db = db';
    value = tt;
    events = team_member_added (actor_id actor) org t.id user ∷ [];
  })

-- `RemoveTeamMember`.
unfoldable pub leave_team : Plugin → Db → Option User → Str → Str → Str → Result (Change (Unit {0}))
leave_team p db actor org team user = do
  t ← team_of db org team
  check_actor p db actor org team_write
  db' ← map_error not_found_error (remove_team_member db t.id user)
  ok (record {
    db = db';
    value = tt;
    events = team_member_removed (actor_id actor) org t.id user ∷ [];
  })
