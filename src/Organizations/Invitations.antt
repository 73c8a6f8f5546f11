-- ===== src/Organizations/Invitations.antt =====
-- plugins/organizations/invitations.go. Lower case, the parser of an address and the digest of a
-- token are parameters; the new token, the identifiers and the time are arguments.
use auth_all.Prelude.{
  ℕ, ◌+◌, ◌*◌, ◌&&◌, not, [], ◌∷◌, Option, none, some, Str, codes, if◌then◌else◌, ◌==◌, nat_eq,
  str_eq, is_empty, find_where,
}
use auth_all.Errors.{
  Error, Result, ok, err, ◌>>=◌, ◌>>◌, guard, or_fail, invalid_request, role_unknown,
  already_member, invitation_invalid, row_not_found, row_conflict, unauthorized,
}
use auth_all.Email.{normalize, valid}
use auth_all.Organizations.Store.{
  Invitation, Membership, User, Db, pending, revoked, active, organization_by_id, membership_of,
  create_invitation, invitation_by_token_hash, invitation_by_id, consume_invitation,
  create_membership, set_invitation_status,
}
use auth_all.Organizations.Events.{
  Change, actor_id, invitation_created, invitation_accepted, invitation_revoked, member_added,
}
use auth_all.Organizations.Access.{Plugin, known_role, map_error, not_found_error}
use auth_all.Organizations.Members.{check_grant, check_actor, guard_member_limit}

abbrev pub member_add : Str
member_add = codes "member:invite"

-- Seven days, in nanoseconds.
abbrev pub default_invitation_ttl : ℕ
default_invitation_ttl = 7 * 24 * 3600 * 1_000_000_000

unfoldable pub invitation_ttl : Plugin → ℕ
invitation_ttl p =
    if p.invitation_lifetime == 0 then default_invitation_ttl else p.invitation_lifetime

abbrev pub invitation_error : Error → Error
invitation_error row_not_found = invitation_invalid
invitation_error e = e

abbrev pub already_member_error : Error → Error
already_member_error row_conflict = already_member
already_member_error e = e

-- An address whose user holds a membership needs no invitation.
unfoldable pub check_no_member : Db → Str → Str → Result (Unit {0})
check_no_member db org address = elim (find_where (λ u. u.email_normalized == address) db.users) [
  | none ↦ ok tt
  | some u ↦ elim (membership_of db org u.id) [
    | ok m ↦ err already_member
    | err row_not_found ↦ ok tt
    | err e ↦ err e
  ]
]

module _ (lower : Str → Str) (parse_address : Str → Option Str) (digest : Str → Str) where
  -- `Invite`.
  unfoldable pub invite :
      Plugin → Db → Option User → Str → Str → Str → Str → Str → ℕ → Result (Change Invitation)
  invite p db actor org email role token id now = do
    let address = normalize lower email
    guard (not (is_empty address) && valid parse_address address) invalid_request
    let role' = if is_empty role then p.default_role else role
    known ← known_role p db org role'
    granted ← or_fail known role_unknown
    check_grant p db actor org member_add granted
    let i : Invitation = record {
      id = id;
      org_id = org;
      email_normalized = address;
      role = role';
      invited_by = actor_id actor;
      token_hash = digest token;
      status = pending;
      expires_at = now + invitation_ttl p;
      created_at = now;
    }
    o ← map_error not_found_error (organization_by_id db org)
    check_no_member db org address
    guard_member_limit p db org now
    db' ← create_invitation db i
    ok (record {
      db = db';
      value = i;
      events = invitation_created (actor_id actor) org address ∷ [];
    })

-- The transaction of `AcceptInvitation`.
unfoldable pub accept_tx : Db → User → Str → Str → ℕ → Result (Db × Membership)
accept_tx db user hash id now = do
  i ← map_error invitation_error (invitation_by_token_hash db hash)
  guard (i.email_normalized == user.email_normalized) invitation_invalid
  consumed ← map_error invitation_error (consume_invitation db hash now)
  let m : Membership = record {
    id = id;
    org_id = consumed.1.org_id;
    user_id = user.id;
    role = consumed.1.role;
    status = active;
    joined_at = now;
    permissions = [];
    team_roles = [];
  }
  db' ← map_error already_member_error (create_membership consumed.0 m)
  ok (db', m)

unfoldable pub accept :
    (digest : Str → Str) → Db → Option User → Str → Str → ℕ → Result (Change Membership)
accept digest db none token id now = err unauthorized
accept digest db (some user) token id now = do
  guard (not (is_empty token)) invitation_invalid
  done ← accept_tx db user (digest token) id now
  ok (record {
    db = done.0;
    value = done.1;
    events =
        invitation_accepted user.id done.1.org_id done.1.role
        ∷ member_added user.id done.1.org_id user.id done.1.role
        ∷ [];
  })

-- `RevokeInvitation`.
unfoldable pub revoke : Plugin → Db → Option User → Str → Str → Result (Change (Unit {0}))
revoke p db actor org id = do
  check_actor p db actor org member_add
  i ← map_error invitation_error (invitation_by_id db id)
  guard (i.org_id == org) invitation_invalid
  db' ← map_error invitation_error (set_invitation_status db id pending revoked)
  ok (record { db = db'; value = tt; events = invitation_revoked (actor_id actor) org id ∷ [] })
