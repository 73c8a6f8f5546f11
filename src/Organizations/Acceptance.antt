-- ===== src/Organizations/Acceptance.antt =====
-- One invitation makes one membership, whatever is called between two acceptances.
use auth_all.Prelude.{
  ℕ, ◌≤◌, ◌≡◌, refl, ◌∙◌, ◌&&◌, ap, Bool, true, false, not, List, [], ◌∷◌, Option, Str, some, none,
  arith, str_beq, any, all, str_eq, nat_eq, ◌==◌,
}
use auth_all.Errors.{Result, ok, err, invitation_invalid}
use auth_all.Organizations.Store.{
  Membership, User, Db, pending, revoked, accepted, consumable, consume_invitation,
  create_membership, invitation_by_token_hash, create_invitation, set_invitation_status,
  delete_organization,
}
use auth_all.Organizations.Events.{Change, Hooks}
use auth_all.Organizations.Access.{Plugin}
use auth_all.Organizations.Lifecycle.{delete}
use auth_all.Organizations.Invitations.{invite, accept, accept_tx, revoke}
use auth_all.Organizations.History.{
  Call, creates, updates, deletes, sets_role, sets_status, removes, invites, accepts, revokes,
  creates_role, deletes_role, creates_team, drops_team, joins_team, leaves_team, activates, after,
  step, run,
}
use auth_all.Organizations.History.Invited.{
  is_closed, any-consumable_delete, any-consumable_update, closed-later, consume-closed,
  set_role-invitations, set_status-invitations, remove-invitations, update-invitations,
  create-invitations, create_role-invitations, delete_role-invitations, create_new_team-invitations,
  drop_team-invitations, join_team-invitations, leave_team-invitations,
  set_active_session-invitations,
}

after-closed :
    {A : Type 0} (hash : Str) (now : ℕ) (db : Db) (r : Result (Change A))
    → ((c : Change A) → r ≡ ok c → is_closed hash now c.db.invitations ≡ true)
    → is_closed hash now db.invitations ≡ true
    → is_closed hash now (after db r).invitations ≡ true
after-closed hash now db (ok c) k h = k c refl
after-closed hash now db (err e) k h = h

after-same :
    {A : Type 0} (hash : Str) (now : ℕ) (db : Db) (r : Result (Change A))
    → ((c : Change A) → r ≡ ok c → c.db.invitations ≡ db.invitations)
    → is_closed hash now db.invitations ≡ true
    → is_closed hash now (after db r).invitations ≡ true
after-same hash now db (ok c) k h = ap (is_closed hash now) (k c refl) ∙ h
after-same hash now db (err e) k h = h

delete-closed :
    (hash : Str) (now : ℕ) (hooks : Hooks) (db : Db) (actor : Option User) (org : Str)
    → is_closed hash now db.invitations ≡ true
    → is_closed hash now (after db (delete hooks db actor org)).invitations ≡ true
unfolding delete delete_organization
delete-closed hash now hooks db actor org h =
    after-closed hash now db (delete hooks db actor org)
      (λ c e.
        ground (arith, any-consumable_delete hash now (λ i. i.org_id == org) db.invitations h))
      h

accept-closed :
    (hash : Str) (now : ℕ) (digest : Str → Str) (db : Db) (user : Option User) (token id : Str)
    (at : ℕ)
    → is_closed hash now db.invitations ≡ true
    → is_closed hash now (after db (accept digest db user token id at)).invitations ≡ true
unfolding accept accept_tx consume_invitation create_membership str_beq
accept-closed hash now digest db none token id at h = h
accept-closed hash now digest db (some user) token id at h =
    after-closed hash now db (accept digest db (some user) token id at)
      (λ c e. ground (
        arith,
        any-consumable_update hash accepted now (consumable (digest token) at) db.invitations refl
            h,
      ))
      h

revoke-closed :
    (hash : Str) (now : ℕ) (p : Plugin) (db : Db) (actor : Option User) (org id : Str)
    → is_closed hash now db.invitations ≡ true
    → is_closed hash now (after db (revoke p db actor org id)).invitations ≡ true
unfolding revoke set_invitation_status str_beq
revoke-closed hash now p db actor org id h =
    after-closed hash now db (revoke p db actor org id)
      (λ c e. ground (
        arith,
        any-consumable_update hash revoked now (λ i. i.id == id && i.status == pending)
            db.invitations refl h,
      ))
      h

module _ (lower : Str → Str) (parse_address : Str → Option Str) (digest : Str → Str) (p : Plugin)
    (hooks : Hooks) where
  -- The call invites with no token of the digest.
  unfoldable pub draws_no : Str → Call → Bool
  draws_no hash (invites actor org email role token id now) = not (digest token == hash)
  draws_no hash c = true

  invite-closed :
      (hash : Str) (now : ℕ) (db : Db) (actor : Option User) (org email role token id : Str)
      (at : ℕ)
      → (digest token == hash) ≡ false
      → is_closed hash now db.invitations ≡ true
      → is_closed hash now
          (after db
            (invite lower parse_address digest p db actor org email role token id at)).invitations
        ≡ true
  unfolding invite create_invitation
  invite-closed hash now db actor org email role token id at n h =
      after-closed hash now db
        (invite lower parse_address digest p db actor org email role token id at)
        (λ c e. ground arith) h

  step-closed :
      (hash : Str) (now : ℕ) (db : Db) (c : Call)
      → draws_no hash c ≡ true
      → is_closed hash now db.invitations ≡ true
      → is_closed hash now (step lower parse_address digest p hooks db c).invitations ≡ true
  unfolding step draws_no
  step-closed hash now db (creates actor name slug owner org member at) n h =
      after-same hash now db _ (create-invitations p hooks db actor org name slug owner member at) h
  step-closed hash now db (updates actor org name slug at) n h =
      after-same hash now db _ (update-invitations p hooks db actor org name slug at) h
  step-closed hash now db (deletes actor org) n h = delete-closed hash now hooks db actor org h
  step-closed hash now db (sets_role actor org user role) n h =
      after-same hash now db _ (set_role-invitations p hooks db actor org user role) h
  step-closed hash now db (sets_status actor org user status) n h =
      after-same hash now db _ (set_status-invitations p hooks db actor org user status) h
  step-closed hash now db (removes actor org user) n h =
      after-same hash now db _ (remove-invitations p hooks db actor org user) h
  step-closed hash now db (invites actor org email role token id at) n h =
      invite-closed hash now db actor org email role token id at (ground arith) h
  step-closed hash now db (accepts user token id at) n h =
      accept-closed hash now digest db user token id at h
  step-closed hash now db (revokes actor org id) n h = revoke-closed hash now p db actor org id h
  step-closed hash now db (creates_role actor org name texts id at) n h =
      after-same hash now db _ (create_role-invitations p hooks db actor org name texts id at) h
  step-closed hash now db (deletes_role actor org name) n h =
      after-same hash now db _ (delete_role-invitations p hooks db actor org name) h
  step-closed hash now db (creates_team actor org name role id at) n h =
      after-same hash now db _ (create_new_team-invitations p hooks db actor org name role id at) h
  step-closed hash now db (drops_team actor org team) n h =
      after-same hash now db _ (drop_team-invitations p hooks db actor org team) h
  step-closed hash now db (joins_team actor org team user) n h =
      after-same hash now db _ (join_team-invitations p hooks db actor org team user) h
  step-closed hash now db (leaves_team actor org team user) n h =
      after-same hash now db _ (leave_team-invitations p hooks db actor org team user) h
  step-closed hash now db (activates session user org) n h =
      after-same hash now db _ (set_active_session-invitations db session user org) h

  run-closed :
      (hash : Str) (now : ℕ) (db : Db) (cs : List Call)
      → all (draws_no hash) cs ≡ true
      → is_closed hash now db.invitations ≡ true
      → is_closed hash now (run lower parse_address digest p hooks db cs).invitations ≡ true
  unfolding run
  run-closed hash now db [] n h = h
  run-closed hash now db (c ∷ cs) n h =
      run-closed hash now (step lower parse_address digest p hooks db c) cs (ground arith)
        (step-closed hash now db c (ground arith) h)

  accepted-closed :
      (db : Db) (user : User) (token id : Str) (now : ℕ) (c : Change Membership)
      → accept digest db (some user) token id now ≡ ok c
      → is_closed (digest token) now c.db.invitations ≡ true
  unfolding accept accept_tx consume_invitation create_membership
  accepted-closed db user token id now c h =
      ground (arith, consume-closed (digest token) now db.invitations)

  closed-refused :
      (db : Db) (user : User) (token id : Str) (now : ℕ)
      → any (consumable (digest token) now) db.invitations ≡ false
      → accept digest db (some user) token id now ≡ err invitation_invalid
  unfolding accept accept_tx consume_invitation invitation_by_token_hash
  closed-refused db user token id now h = ground arith

  -- An acceptance that succeeds spends the invitation: after any history of calls in which no later
  -- invitation draws a token of the same digest, each later acceptance of the token, by any user, answers
  -- INVITATION_INVALID.
  pub accept_once :
      (db : Db) (user other : User) (token id id' : Str) (now later : ℕ) (c : Change Membership)
      (cs : List Call)
      → accept digest db (some user) token id now ≡ ok c
      → all (draws_no (digest token)) cs ≡ true
      → now ≤ later
      → accept digest (run lower parse_address digest p hooks c.db cs) (some other) token id' later
        ≡ err invitation_invalid
  accept_once db user other token id id' now later c cs h n l =
      let spent =
        run-closed (digest token) now c.db cs n (accepted-closed db user token id now c h) in
      closed-refused (run lower parse_address digest p hooks c.db cs) other token id' later (
        closed-later (digest token) now later
          (run lower parse_address digest p hooks c.db cs).invitations l spent)
