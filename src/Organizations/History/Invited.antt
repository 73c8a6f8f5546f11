-- ===== src/Organizations/History/Invited.antt =====
-- What a history of calls leaves of an invitation that can no longer be accepted.
use auth_all.Prelude.{
  ℕ, ◌≤◌, ◌≡◌, refl, Bool, true, false, not, List, [], ◌∷◌, Option, Str, arith, str_beq, str_eq,
  any, delete_where, update_where,
}
use auth_all.Errors.{ok}
use auth_all.Organizations.Store.{
  Organization, Membership, User, Db, Invitation, CustomRole, Team, pending, accepted, consumable,
  create_membership, create_organization, update_organization, update_membership, delete_membership,
  clear_active_organization, create_custom_role, delete_custom_role, create_team, delete_team,
  add_team_member, remove_team_member, set_active_organization,
}
use auth_all.Organizations.Events.{Hooks, Change}
use auth_all.Organizations.Access.{Plugin}
use auth_all.Organizations.Members.{
  set_role, set_role_tx, set_status, set_status_tx, remove, remove_tx,
}
use auth_all.Organizations.Lifecycle.{create, create_tx, update, set_active_session}
use auth_all.Organizations.Custom.{create_role, delete_role}
use auth_all.Organizations.Teams.{create_new_team, drop_team, join_team, leave_team}

-- No row of the digest can be accepted at the time or later.
abbrev pub is_closed : Str → ℕ → List Invitation → Bool
is_closed hash now is = not (any (consumable hash now) is)

pub any-consumable_delete :
    (hash : Str) (now : ℕ) (p : Invitation → Bool) (is : List Invitation)
    → is_closed hash now is ≡ true
    → is_closed hash now (delete_where p is) ≡ true
unfolding delete_where
any-consumable_delete hash now p [] h = refl
any-consumable_delete hash now p (i ∷ is) h = ground (arith, any-consumable_delete hash now p is)

pub any-consumable_update :
    (hash status : Str) (now : ℕ) (p : Invitation → Bool) (is : List Invitation)
    → str_beq status pending ≡ false
    → is_closed hash now is ≡ true
    → is_closed hash now (update_where p (λ i. record i { status = status }) is) ≡ true
unfolding update_where
any-consumable_update hash status now p [] n h = refl
any-consumable_update hash status now p (i ∷ is) n h =
    ground (arith, any-consumable_update hash status now p is n)

pub closed-later :
    (hash : Str) (now later : ℕ) (is : List Invitation)
    → now ≤ later
    → is_closed hash now is ≡ true
    → any (consumable hash later) is ≡ false
closed-later hash now later [] l h = refl
closed-later hash now later (i ∷ is) l h = ground (arith, closed-later hash now later is l)

pub consume-closed :
    (hash : Str) (now : ℕ) (is : List Invitation)
    → is_closed hash now
        (update_where (consumable hash now) (λ i. record i { status = accepted }) is)
      ≡ true
unfolding update_where str_beq
consume-closed hash now [] = refl
consume-closed hash now (i ∷ is) = ground (arith, consume-closed hash now is)

module _ (p : Plugin) (hooks : Hooks) (db : Db) (actor : Option User) (org : Str) where
  pub set_role-invitations :
      (user role : Str) (c : Change Membership)
      → set_role p hooks db actor org user role ≡ ok c
      → c.db.invitations ≡ db.invitations
  unfolding set_role set_role_tx update_membership
  set_role-invitations user role c h = ground arith

  pub set_status-invitations :
      (user status : Str) (c : Change Membership)
      → set_status p hooks db actor org user status ≡ ok c
      → c.db.invitations ≡ db.invitations
  unfolding set_status set_status_tx update_membership
  set_status-invitations user status c h = ground arith

  pub remove-invitations :
      (user : Str) (c : Change Membership)
      → remove p hooks db actor org user ≡ ok c
      → c.db.invitations ≡ db.invitations
  unfolding remove remove_tx delete_membership clear_active_organization
  remove-invitations user c h = ground arith

  pub update-invitations :
      (name slug : Option Str) (now : ℕ) (c : Change Organization)
      → update hooks db actor org name slug now ≡ ok c
      → c.db.invitations ≡ db.invitations
  unfolding update update_organization
  update-invitations name slug now c h = ground arith

  pub create-invitations :
      (name slug owner member : Str) (now : ℕ) (c : Change Organization)
      → create p hooks db actor name slug owner org member now ≡ ok c
      → c.db.invitations ≡ db.invitations
  unfolding create create_tx create_organization create_membership
  create-invitations name slug owner member now c h = ground arith

  pub create_role-invitations :
      (name : Str) (texts : List Str) (id : Str) (now : ℕ) (c : Change CustomRole)
      → create_role p db actor org name texts id now ≡ ok c
      → c.db.invitations ≡ db.invitations
  unfolding create_role create_custom_role
  create_role-invitations name texts id now c h = ground arith

  pub delete_role-invitations :
      (name : Str) (c : Change (Unit {0}))
      → delete_role p db actor org name ≡ ok c
      → c.db.invitations ≡ db.invitations
  unfolding delete_role delete_custom_role
  delete_role-invitations name c h = ground arith

  pub create_new_team-invitations :
      (name role id : Str) (now : ℕ) (c : Change Team)
      → create_new_team p db actor org name role id now ≡ ok c
      → c.db.invitations ≡ db.invitations
  unfolding create_new_team create_team
  create_new_team-invitations name role id now c h = ground arith

  pub drop_team-invitations :
      (team : Str) (c : Change (Unit {0}))
      → drop_team p db actor org team ≡ ok c
      → c.db.invitations ≡ db.invitations
  unfolding drop_team delete_team
  drop_team-invitations team c h = ground arith

  pub join_team-invitations :
      (team user : Str) (c : Change (Unit {0}))
      → join_team p db actor org team user ≡ ok c
      → c.db.invitations ≡ db.invitations
  unfolding join_team add_team_member
  join_team-invitations team user c h = ground arith

  pub leave_team-invitations :
      (team user : Str) (c : Change (Unit {0}))
      → leave_team p db actor org team user ≡ ok c
      → c.db.invitations ≡ db.invitations
  unfolding leave_team remove_team_member
  leave_team-invitations team user c h = ground arith

pub set_active_session-invitations :
    (db : Db) (session user org : Str) (c : Change (Unit {0}))
    → set_active_session db session user org ≡ ok c
    → c.db.invitations ≡ db.invitations
unfolding set_active_session set_active_organization
set_active_session-invitations db session user org c h = ground arith
