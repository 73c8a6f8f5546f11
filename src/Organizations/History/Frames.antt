-- ===== src/Organizations/History/Frames.antt =====
-- The calls that leave the members and the organizations alone.
use auth_all.Prelude.{ℕ, ◌≡◌, List, Option, Str, arith}
use auth_all.Errors.{ok}
use auth_all.Organizations.Store.{
  User, Db, Invitation, CustomRole, Team, create_invitation, set_invitation_status,
  create_custom_role, delete_custom_role, create_team, delete_team, add_team_member,
  remove_team_member, set_active_organization,
}
use auth_all.Organizations.Events.{Change}
use auth_all.Organizations.Access.{Plugin}
use auth_all.Organizations.Lifecycle.{set_active_session}
use auth_all.Organizations.Custom.{create_role, delete_role}
use auth_all.Organizations.Invitations.{invite, revoke}
use auth_all.Organizations.Teams.{create_new_team, drop_team, join_team, leave_team}

abbrev pub SameMembers : Db → Db → Type 0
SameMembers db db' = (db'.members ≡ db.members) × (db'.organizations ≡ db.organizations)

module _ (p : Plugin) (db : Db) (actor : Option User) (org : Str) where
  pub create_role-SameMembers :
      (name : Str) (texts : List Str) (id : Str) (now : ℕ) (c : Change CustomRole)
      → create_role p db actor org name texts id now ≡ ok c
      → SameMembers db c.db
  unfolding create_role create_custom_role
  create_role-SameMembers name texts id now c h = ground arith

  pub delete_role-SameMembers :
      (name : Str) (c : Change (Unit {0}))
      → delete_role p db actor org name ≡ ok c
      → SameMembers db c.db
  unfolding delete_role delete_custom_role
  delete_role-SameMembers name c h = ground arith

  pub revoke-SameMembers :
      (id : Str) (c : Change (Unit {0})) → revoke p db actor org id ≡ ok c → SameMembers db c.db
  unfolding revoke set_invitation_status
  revoke-SameMembers id c h = ground arith

  pub create_new_team-SameMembers :
      (name role id : Str) (now : ℕ) (c : Change Team)
      → create_new_team p db actor org name role id now ≡ ok c
      → SameMembers db c.db
  unfolding create_new_team create_team
  create_new_team-SameMembers name role id now c h = ground arith

  pub drop_team-SameMembers :
      (team : Str) (c : Change (Unit {0}))
      → drop_team p db actor org team ≡ ok c
      → SameMembers db c.db
  unfolding drop_team delete_team
  drop_team-SameMembers team c h = ground arith

  pub join_team-SameMembers :
      (team user : Str) (c : Change (Unit {0}))
      → join_team p db actor org team user ≡ ok c
      → SameMembers db c.db
  unfolding join_team add_team_member
  join_team-SameMembers team user c h = ground arith

  pub leave_team-SameMembers :
      (team user : Str) (c : Change (Unit {0}))
      → leave_team p db actor org team user ≡ ok c
      → SameMembers db c.db
  unfolding leave_team remove_team_member
  leave_team-SameMembers team user c h = ground arith

pub set_active_session-SameMembers :
    (db : Db) (session user org : Str) (c : Change (Unit {0}))
    → set_active_session db session user org ≡ ok c
    → SameMembers db c.db
unfolding set_active_session set_active_organization
set_active_session-SameMembers db session user org c h = ground arith

pub invite-SameMembers :
    (lower : Str → Str) (parse_address : Str → Option Str) (digest : Str → Str) (p : Plugin)
    (db : Db) (actor : Option User) (org email role token id : Str) (now : ℕ)
    (c : Change Invitation)
    → invite lower parse_address digest p db actor org email role token id now ≡ ok c
    → SameMembers db c.db
unfolding invite create_invitation
invite-SameMembers lower parse_address digest p db actor org email role token id now c h =
    ground arith
