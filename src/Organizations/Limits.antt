-- ===== src/Organizations/Limits.antt =====
-- The member limit, and what it does not see.
use auth_all.Prelude.{
  ℕ, ◌+◌, ◌≤◌, ◌<◌, ◌≡◌, refl, subst, ◌≢◌, inl, inr, Bool, true, false, ◌&&◌, List, [], ◌∷◌, Option,
  none, some, Str, arith, str_beq, str_beq_iff, str_beq_refl, any, Option-cases, str_eq, nat_eq,
  find_where, update_where, count_where, find_where-any, find_where-some,
}
use auth_all.Errors.{ok}
use auth_all.Organizations.Store.{
  Membership, User, Db, Invitation, active, pending, plain, of_user, count_members,
  count_pending_invitations, create_invitation, membership_of, update_membership,
  organization_by_id, Organization,
}
use auth_all.Organizations.Events.{Hooks, Change, member_restored}
use auth_all.Organizations.Access.{Plugin}
use auth_all.Organizations.Members.{
  guard_member_limit, set_status_tx, set_status, restore, guard_owner, check_actor,
}
use auth_all.Organizations.Members.Rows.{unique_members, set_row}
use auth_all.Organizations.Invitations.{invite, invitation_ttl}

-- What the limit counts.
abbrev pub taken : Db → Str → ℕ → ℕ
taken db org now = count_members db org + count_pending_invitations db org now

invitation_ttl-pos : (p : Plugin) → 0 < invitation_ttl p
unfolding invitation_ttl
invitation_ttl-pos p = ground arith

-- With a limit set, an invitation that is sent takes exactly one more place and stays within the limit.
pub invite-within_limit :
    (lower : Str → Str) (parse_address : Str → Option Str) (digest : Str → Str) (p : Plugin)
    (db : Db) (actor : Option User) (org email role token id : Str) (now : ℕ)
    (c : Change Invitation)
    → p.max_members ≢ 0
    → invite lower parse_address digest p db actor org email role token id now ≡ ok c
    → (taken c.db org now ≡ taken db org now + 1) × (taken c.db org now ≤ p.max_members)
unfolding invite guard_member_limit create_invitation count_pending_invitations count_members
    count_where
invite-within_limit lower parse_address digest p db actor org email role token id now c n h =
    ground (arith, invitation_ttl-pos p, str_beq_refl org, str_beq_refl pending)

no_row_same :
    (org user : Str) (f : Membership → Membership) (ms : List Membership)
    → any (of_user org user) ms ≡ false
    → update_where (of_user org user) f ms ≡ ms
unfolding update_where
no_row_same org user f [] h = refl
no_row_same org user f (m ∷ ms) h = ground (arith, no_row_same org user f ms)

abbrev counted : Str → Membership → Bool
counted org m = str_beq m.org_id org && str_beq m.status active

count-activated :
    (org user role : Str) (ms : List Membership) (m : Membership)
    → unique_members ms ≡ true
    → find_where (of_user org user) ms ≡ some m
    → str_beq m.status active ≡ false
    → count_where (counted org) (update_where (of_user org user) (set_row role active) ms)
      ≡ count_where (counted org) ms + 1
unfolding update_where count_where find_where unique_members
count-activated org user role [] m u f s = ground arith
count-activated org user role (x ∷ ms) m u f s = ground (
  arith,
  count-activated org user role ms m,
  no_row_same org user (set_row role active) ms,
  str_beq_refl active,
  str_beq_iff x.org_id org,
  str_beq_iff x.user_id user,
)

abbrev restored : Db → Str → Str → Membership → Change Membership
restored db org user m = record {
  db = record db { members = update_where (of_user org user) (set_row m.role active) db.members };
  value = record m { status = active };
  events = member_restored [] org user ∷ [];
}

not_active-unguarded :
    (p : Plugin) (db : Db) (org : Str) (m : Membership) (role status : Str)
    → str_beq m.status active ≡ false
    → guard_owner p db org m role status ≡ ok tt
unfolding guard_owner
not_active-unguarded p db org m role status h = ground arith

restore_tx-ok :
    (p : Plugin) (hooks : Hooks) (db : Db) (org user : Str) (o : Organization) (r : Membership)
    → organization_by_id db org ≡ ok o
    → find_where (of_user org user) db.members ≡ some r
    → str_beq r.status active ≡ false
    → hooks.before_membership_change (record (plain r) { status = active }) ≡ none
    → set_status_tx p hooks db none org user active ≡ ok (restored db org user (plain r))
unfolding set_status_tx membership_of update_membership str_beq
restore_tx-ok p hooks db org user o r eo e s k =
    let e1 =
      (str_beq_iff r.org_id org).0
        (ground (arith, find_where-some (of_user org user) db.members r e)) in
    let e2 =
      (str_beq_iff r.user_id user).0
        (ground (arith, find_where-some (of_user org user) db.members r e)) in
    ground (
      arith,
      e1,
      e2,
      find_where-any (of_user org user) db.members r e,
      not_active-unguarded p db org (plain r) r.role active,
    )

-- With no acting user, in a table with unique memberships, `Restore` of a member that is not
-- active succeeds and adds one to the active members, for every value of the limit and every
-- number of members and open invitations, when the organization exists and no hook refuses.
pub restore-ignores_limit :
    (p : Plugin) (hooks : Hooks) (db : Db) (org user : Str) (o : Organization) (m : Membership)
    → unique_members db.members ≡ true
    → organization_by_id db org ≡ ok o
    → membership_of db org user ≡ ok m
    → str_beq m.status active ≡ false
    → hooks.before_membership_change (record m { status = active }) ≡ none
    → (c : Change Membership) × (restore p hooks db none org user ≡ ok c)
      × (count_members c.db org ≡ count_members db org + 1)
unfolding restore set_status membership_of count_members check_actor str_beq set_status_tx
restore-ignores_limit p hooks db org user o m u eo f s k =
    elim (Option-cases (find_where (of_user org user) db.members)) [
      | inl n ↦ absurd (ground arith)
      | inr (r, e) ↦
          let em : m ≡ plain r = ground arith in
          (
            restored db org user (plain r),
            restore_tx-ok p hooks db org user o r eo e (ground arith) (
                subst (λ x. hooks.before_membership_change (record x { status = active }) ≡ none) em
                  k),
            count-activated org user r.role db.members r u e (ground arith),
          )
    ]
