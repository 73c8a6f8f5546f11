-- ===== src/Organizations/Examples.antt =====
-- An organization of an owner and a suspended member, and what the owner does.
use auth_all.Prelude.{
  ◌+◌, ◌≡◌, refl, true, false, if◌then◌else◌, List, [], ◌∷◌, Option, some, none, codes, str_beq,
  Str, arith, find_where, update_where,
}
use auth_all.Errors.{Result, ok, err, no_active_organization, permission_denied, invitation_invalid}
use auth_all.Strings.{fields, fields_from, sort_strings, insert_sorted}
use auth_all.Permission.{
  Statement, Set, covers, covers_set, covers_all, allows, holds, statement_beq, add, new_set,
  add_parsed, parse, cut, valid_segment, allowed_char, to_string, statements,
}
use auth_all.Organizations.Store.{
  Organization, Membership, Invitation, CustomRole, Team, User, Db, active, suspended, pending,
  organization_by_id, membership_of, update_membership, consume_invitation,
  invitation_by_token_hash, create_membership, count_members,
}
use auth_all.Organizations.Events.{Hooks, Change}
use auth_all.Organizations.Access.{
  Plugin, OrganizationContext, role_named, permissions_of, known_role, add_team_roles,
  permissions_of_membership, plugin_membership_of, authorize, require, key_credential, intersect,
  keep_covered, or_none,
}
use auth_all.Organizations.Access.Gate.{HasBuiltRoles, member_covers, require_lem}
use auth_all.Organizations.Access.Keys.{key_credential_bounded}
use auth_all.Organizations.Members.{
  set_role, set_role_tx, restore, guard_owner, check_grant, member_write,
}
use auth_all.Organizations.Members.Rows.{unique_members}
use auth_all.Organizations.Invitations.{invite, accept, accept_tx}
use auth_all.Organizations.Custom.{create_role}
use auth_all.Organizations.Teams.{create_new_team}
use auth_all.Organizations.Grants.{ActorCovers, set_role-ActorCovers}
use auth_all.Organizations.Limits.{restore-ignores_limit}
use auth_all.Organizations.Acceptance.{accept_once, draws_no}
use auth_all.Organizations.History.{Call, run, creates, sets_status, removes, accepts}
use auth_all.Organizations.History.Owned.{IsOwned}
use auth_all.Organizations.History.Runs.{run-IsOwned}

abbrev all_of : Set
all_of = record {
  every = true;
  grants = record { resource = []; action = []; whole = true } ∷ [];
  sources = codes "*" ∷ [];
}

abbrev reads : Statement
reads = record { resource = codes "doc"; action = codes "read"; whole = false }

abbrev reader : Set
reader = record { every = false; grants = reads ∷ []; sources = codes "doc:read" ∷ [] }

abbrev plugin : Plugin
plugin = record {
  roles =
      record { name = codes "owner"; granted = all_of }
      ∷ record { name = codes "member"; granted = reader }
      ∷ [];
  default_role = codes "member";
  owner_role = codes "owner";
  allow_custom_roles = true;
  max_members = 3;
  invitation_lifetime = 100;
}

built : HasBuiltRoles plugin
unfolding new_set add_parsed parse cut valid_segment allowed_char add holds statement_beq str_beq
    to_string
built = ((codes "*" ∷ [], refl), ((codes "doc:read" ∷ [], refl), tt))

abbrev hooks : Hooks
hooks = record {
  before_membership_change = λ m. none;
  before_organization_create = λ o. none;
  before_organization_update = λ o. none;
  before_organization_delete = λ o. none;
}

abbrev same : Str → Str
same s = s

abbrev as_it_is : Str → Option Str
as_it_is s = some s

abbrev acme : Organization
acme = record {
  id = codes "o";
  name = codes "Acme";
  slug = codes "acme";
  created_at = 0;
  updated_at = 0;
}

abbrev member : Str → Str → Str → Membership
member user role status = record {
  id = user;
  org_id = codes "o";
  user_id = user;
  role = role;
  status = status;
  joined_at = 0;
  permissions = [];
  team_roles = [];
}

abbrev ada : User
ada = record { id = codes "ada"; email_normalized = codes "ada@x" }

abbrev bob : User
bob = record { id = codes "bob"; email_normalized = codes "bob@x" }

abbrev eve : User
eve = record { id = codes "eve"; email_normalized = codes "eve@x" }

abbrev offer : Invitation
offer = record {
  id = codes "i";
  org_id = codes "o";
  email_normalized = codes "eve@x";
  role = codes "member";
  invited_by = codes "ada";
  token_hash = codes "t";
  status = pending;
  expires_at = 100;
  created_at = 0;
}

abbrev db : Db
db = record {
  organizations = acme ∷ [];
  members =
      member (codes "ada") (codes "owner") active
      ∷ member (codes "bob") (codes "member") suspended
      ∷ [];
  roles = [];
  invitations = offer ∷ [];
  teams = [];
  team_members = [];
  users = ada ∷ bob ∷ eve ∷ [];
  sessions = [];
}

abbrev no_rows : Db
no_rows = record {
  organizations = [];
  members = [];
  roles = [];
  invitations = [];
  teams = [];
  team_members = [];
  users = [];
  sessions = [];
}

-- The change of a call that succeeds.
abbrev outcome : {A : Type 0} → A → Result (Change A) → Change A
outcome a (ok c) = c
outcome a (err e) = record { db = no_rows; value = a; events = [] }

no_rows-IsOwned : IsOwned plugin no_rows
unfolding unique_members
no_rows-IsOwned = record { unique = refl; owned = λ org h. absurd (ground arith) }

run-IsOwned_example : IsOwned plugin (
    run same as_it_is same plugin hooks no_rows (
      creates (some ada) (codes "Acme") (codes "acme") (codes "ada") (codes "o") (codes "m") 0
      ∷ sets_status none (codes "o") (codes "ada") suspended
      ∷ []))
run-IsOwned_example =
    run-IsOwned same as_it_is same plugin hooks no_rows
      (creates (some ada) (codes "Acme") (codes "acme") (codes "ada") (codes "o") (codes "m") 0
        ∷ sets_status none (codes "o") (codes "ada") suspended
        ∷ [])
      no_rows-IsOwned

abbrev promoted : Change Membership
promoted =
    outcome (member [] [] [])
      (set_role plugin hooks db (some ada) (codes "o") (codes "bob") (codes "owner"))

set_role-ActorCovers_example : ActorCovers plugin db ada (codes "o") member_write reads
unfolding set_role set_role_tx known_role permissions_of role_named check_grant authorize
    plugin_membership_of membership_of permissions_of_membership add_team_roles fields fields_from
    allows covers covers_set covers_all organization_by_id update_membership guard_owner find_where
    update_where parse cut valid_segment allowed_char holds statement_beq str_beq
set_role-ActorCovers_example =
    set_role-ActorCovers plugin db ada (codes "o") built hooks (codes "bob") (codes "owner")
      promoted all_of reads refl refl refl

abbrev invited : Change Invitation
invited = outcome offer (
    invite same as_it_is same plugin db (some ada) (codes "o") (codes "joe@x.io") (codes "member")
      (codes "t2") (codes "i2") 5)

abbrev teamed : Change Team
teamed =
    outcome (record { id = []; org_id = []; name = []; role = []; created_at = 0 })
      (create_new_team plugin db (some ada) (codes "o") (codes "core") (codes "member") (codes "t")
        5)

abbrev declared : Change CustomRole
declared =
    outcome (record { id = []; org_id = []; name = []; permissions = []; created_at = 0 })
      (create_role plugin db (some ada) (codes "o") (codes "reader") (codes "doc:read" ∷ [])
        (codes "r") 5)

abbrev context : OrganizationContext
context = record {
  organization = acme;
  membership = member (codes "bob") (codes "member") active;
  permissions = [];
}

require_lem_example :
    (require plugin reads none ≡ err no_active_organization)
    × (require plugin reads (some context)
        ≡ (if member_covers plugin context reads then ok tt else err permission_denied))
require_lem_example = require_lem plugin reads context built

key_credential_bounded_example :
    (active ≡ active)
    × ((live : Set) × (permissions_of_membership plugin db
            (member (codes "ada") (codes "owner") active)
          ≡ ok live)
        × (covers live reads ≡ true))
    × ((known : Option Set) × (known_role plugin db (codes "o") (codes "member") ≡ ok known)
        × (covers (or_none known) reads ≡ true))
unfolding key_credential intersect keep_covered statements sort_strings insert_sorted new_set
    add_parsed add to_string permissions_of role_named known_role plugin_membership_of membership_of
    permissions_of_membership add_team_roles fields fields_from covers organization_by_id find_where
    parse cut valid_segment allowed_char holds statement_beq str_beq
key_credential_bounded_example =
    key_credential_bounded plugin db (codes "o") (codes "ada") (codes "member") acme
      (member (codes "ada") (codes "owner") active) (codes "doc:read" ∷ []) reader reads built refl
      refl refl

abbrev joined : Change Membership
joined = outcome (member [] [] []) (accept same db (some eve) (codes "t") (codes "m3") 50)

-- The member leaves and tries the token again.
abbrev left_and_back : List Call
left_and_back =
    removes none (codes "o") (codes "eve") ∷ accepts (some eve) (codes "t") (codes "m4") 55 ∷ []

accept_once_example :
    accept same
      (run same as_it_is same plugin hooks joined.db left_and_back)
      (some eve)
      (codes "t")
      (codes "m5")
      60
    ≡ err invitation_invalid
unfolding accept accept_tx consume_invitation invitation_by_token_hash create_membership find_where
    update_where str_beq draws_no
accept_once_example =
    accept_once same as_it_is same plugin hooks db eve eve (codes "t") (codes "m3") (codes "m5") 50
      60 joined left_and_back refl refl (ground arith)

restore-ignores_limit_example :
    (c : Change Membership) × (restore
        (record plugin { max_members = 1 })
        hooks
        db
        none
        (codes "o")
        (codes "bob")
      ≡ ok c)
    × (count_members c.db (codes "o") ≡ count_members db (codes "o") + 1)
unfolding unique_members organization_by_id membership_of find_where str_beq
restore-ignores_limit_example =
    restore-ignores_limit (record plugin { max_members = 1 }) hooks db (codes "o") (codes "bob")
      acme (member (codes "bob") (codes "member") suspended) refl refl refl refl refl
