-- ===== src/Organizations/History/Runs.antt =====
-- Every organization has an active owner, after any history of calls.
use auth_all.Prelude.{Option, List, [], ◌∷◌, Str, str_eq}
use auth_all.Organizations.Store.{Db}
use auth_all.Organizations.Events.{Hooks}
use auth_all.Organizations.Access.{Plugin}
use auth_all.Organizations.Members.Keeps.{
  set_role-KeepsOwners, set_status-KeepsOwners, remove-KeepsOwners,
}
use auth_all.Organizations.History.{
  Call, creates, updates, deletes, sets_role, sets_status, removes, invites, accepts, revokes,
  creates_role, deletes_role, creates_team, drops_team, joins_team, leaves_team, activates, step,
  run,
}
use auth_all.Organizations.History.Frames.{
  create_role-SameMembers, delete_role-SameMembers, revoke-SameMembers, create_new_team-SameMembers,
  drop_team-SameMembers, join_team-SameMembers, leave_team-SameMembers,
  set_active_session-SameMembers, invite-SameMembers,
}
use auth_all.Organizations.History.Owned.{
  IsOwned, KeepsOwners-IsOwned, SameMembers-IsOwned, accept-IsOwned, after-IsOwned, create-IsOwned,
  delete-IsOwned, update-IsOwned,
}

module _ (lower : Str → Str) (parse_address : Str → Option Str) (digest : Str → Str) (p : Plugin)
    (hooks : Hooks) where
  pub step-IsOwned :
      (db : Db) (c : Call) → IsOwned p db → IsOwned p (step lower parse_address digest p hooks db c)
  unfolding step
  step-IsOwned db (creates actor name slug owner org member now) v =
      after-IsOwned p db _ v (create-IsOwned p db v hooks actor name slug owner org member now)
  step-IsOwned db (updates actor org name slug now) v =
      after-IsOwned p db _ v (update-IsOwned p db v hooks actor org name slug now)
  step-IsOwned db (deletes actor org) v =
      after-IsOwned p db _ v (delete-IsOwned p db v hooks actor org)
  step-IsOwned db (sets_role actor org user role) v = after-IsOwned p db _ v λ c h.
      KeepsOwners-IsOwned p db v c.db
        (set_role-KeepsOwners p hooks db actor org user v.unique role c h)
  step-IsOwned db (sets_status actor org user status) v = after-IsOwned p db _ v λ c h.
      KeepsOwners-IsOwned p db v c.db
        (set_status-KeepsOwners p hooks db actor org user v.unique status c h)
  step-IsOwned db (removes actor org user) v = after-IsOwned p db _ v λ c h.
      KeepsOwners-IsOwned p db v c.db (remove-KeepsOwners p hooks db actor org user v.unique c h)
  step-IsOwned db (invites actor org email role token id now) v = after-IsOwned p db _ v λ c h.
      SameMembers-IsOwned p db v c.db
        (invite-SameMembers lower parse_address digest p db actor org email role token id now c h)
  step-IsOwned db (accepts user token id now) v =
      after-IsOwned p db _ v λ c h. accept-IsOwned p db digest user token id now c v h
  step-IsOwned db (revokes actor org id) v =
      after-IsOwned p db _ v
        λ c h. SameMembers-IsOwned p db v c.db (revoke-SameMembers p db actor org id c h)
  step-IsOwned db (creates_role actor org name texts id now) v = after-IsOwned p db _ v λ c h.
      SameMembers-IsOwned p db v c.db (create_role-SameMembers p db actor org name texts id now c h)
  step-IsOwned db (deletes_role actor org name) v =
      after-IsOwned p db _ v
        λ c h. SameMembers-IsOwned p db v c.db (delete_role-SameMembers p db actor org name c h)
  step-IsOwned db (creates_team actor org name role id now) v = after-IsOwned p db _ v λ c h.
      SameMembers-IsOwned p db v c.db
        (create_new_team-SameMembers p db actor org name role id now c h)
  step-IsOwned db (drops_team actor org team) v =
      after-IsOwned p db _ v
        λ c h. SameMembers-IsOwned p db v c.db (drop_team-SameMembers p db actor org team c h)
  step-IsOwned db (joins_team actor org team user) v =
      after-IsOwned p db _ v
        λ c h. SameMembers-IsOwned p db v c.db (join_team-SameMembers p db actor org team user c h)
  step-IsOwned db (leaves_team actor org team user) v =
      after-IsOwned p db _ v
        λ c h. SameMembers-IsOwned p db v c.db (leave_team-SameMembers p db actor org team user c h)
  step-IsOwned db (activates session user org) v = after-IsOwned p db _ v λ c h.
      SameMembers-IsOwned p db v c.db (set_active_session-SameMembers db session user org c h)

  -- After any sequence of calls, by any callers, accepted or refused, each organization has an
  -- active member with the owner role and no user has two memberships of one organization, if
  -- that was so before.
  pub run-IsOwned :
      (db : Db) (cs : List Call)
      → IsOwned p db
      → IsOwned p (run lower parse_address digest p hooks db cs)
  unfolding run
  run-IsOwned db [] v = v
  run-IsOwned db (c ∷ cs) v =
      run-IsOwned (step lower parse_address digest p hooks db c) cs (step-IsOwned db c v)
