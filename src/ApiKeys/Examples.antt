-- ===== src/ApiKeys/Examples.antt =====
-- A key of a user, and a key of an organization.
use auth_all.Prelude.{
  ℕ, ◌≡◌, ◌↔◌, refl, true, false, [], ◌∷◌, Option, none, some, Str, codes, str_beq, str_eq,
  contains, find_where, update_where, is_empty,
}
use auth_all.Errors.{Error, ok, err, unauthorized}
use auth_all.Strings.{
  fields, fields_from, is_space, join, trim_space, trim_left, trim_right, sort_strings,
  insert_sorted, after_prefix, trim_prefix,
}
use auth_all.Permission.{
  Set, Statement, covers, new_set, add_parsed, add, holds, statement_beq, parse,
}
use auth_all.Permission as Permission
use auth_all.Roles.{Roles, rank, effective, index_of}
use auth_all.Accounts.{User, Session, is_enabled}
use auth_all.Accounts as Accounts
use auth_all.Organizations.Store.{
  Organization, Membership, active, organization_by_id, membership_of,
}
use auth_all.Organizations.Store as Tables
use auth_all.Organizations.Access.{
  RoleDefinition, permissions_of, role_named, known_role, key_credential, require, intersect,
  plugin_membership_of, permissions_of_membership, keep_covered, add_team_roles,
}
use auth_all.Organizations.Access as Access
use auth_all.Organizations.Access.Gate.{HasBuiltRoles}
use auth_all.Principals.Types.{
  ApiKey, ResolvedPrincipal, organization_context, from_plugin_principal,
}
use auth_all.ApiKeys.Store.{api_key_by_hash, create_api_key, revoke_api_key, is_live, api_key_by_id}
use auth_all.ApiKeys.Scopes.{Plugin, scopes_of, compact, normalize_scopes, effective_scopes}
use auth_all.ApiKeys.Resolve.{
  rank_below, is_expired, lower_role, named_org, principal_of, plain_principal, refused, resolve,
  resolver_of, require_scope, touch,
}
use auth_all.ApiKeys.Create.{
  CreateInput, create, new_key, plaintext_of, revoke, check_expiry, app_key_role, create_tx, start,
}
use auth_all.ApiKeys.Power.{resolve-not_above_owner}
use auth_all.ApiKeys.Granted.{IsLifetime, create-bounds, create-resolve}
use auth_all.ApiKeys.Declared.{create-require_scope}
use auth_all.ApiKeys.Revoked.{unique_hashes, run, never_creates, requests, revokes, revoke-final}
use auth_all.ApiKeys.OrganizationKeys.{require-key_of_member}

abbrev same : Str → Str
same s = s

abbrev plugin : Plugin
plugin = record {
  prefix = codes "ak_";
  max_ttl = 1000;
  require_expiry = true;
  touch_interval = 60;
  admin_role = codes "admin";
  scopes = codes "read" ∷ codes "write" ∷ [];
  default_scopes = [];
  defaults_set = false;
}

abbrev roles : Roles
roles = record { hierarchy = codes "user" ∷ codes "admin" ∷ []; default_role = codes "user" }

abbrev ada : User
ada = record {
  id = codes "ada";
  role = codes "admin";
  disabled_at = none;
  must_change_password = false;
  updated_at = 0;
}

abbrev accounts : Accounts.Db
accounts = record { users = ada ∷ []; sessions = [] }

abbrev input : CreateInput
input = record {
  name = codes "ci";
  role = codes "user";
  expires_at = some 900;
  org_id = [];
  scopes = codes "read";
}

abbrev no_hook : ApiKey → User → Option Error
no_hook k u = none

abbrev key : ApiKey
key =
    new_key plugin roles none same ada input (codes "read") (codes "user") (codes "r1") (codes "k1")
      100

abbrev value : Str
value = plaintext_of plugin roles none (codes "r1")

created_key :
    create plugin roles none same no_hook [] ada input (codes "r1") (codes "k1") 100
    ≡ ok (key, key ∷ [])
unfolding create check_expiry scopes_of normalize_scopes compact sort_strings insert_sorted fields
    fields_from is_space join trim_space trim_left trim_right app_key_role rank effective index_of
    rank_below contains str_beq create_tx create_api_key start trim_prefix after_prefix
created_key = refl

create-bounds_example :
    IsLifetime plugin 100 (some 900)
    × (is_empty input.org_id ≡ true
        → ((i : ℕ) × (rank roles (codes "user") ≡ some i))
          × (rank_below (rank roles (effective roles ada.role)) (rank roles (codes "user"))
              ≡ false))
create-bounds_example =
    create-bounds plugin roles none same no_hook [] ada input (codes "r1") (codes "k1") 100 key
      (key ∷ []) created_key

create-resolve_example :
    ((resolve plugin roles none same (key ∷ []) accounts value 200).0
      ≡ ok (plain_principal plugin roles none key ada))
    × ((plain_principal plugin roles none key ada).role ≡ codes "user")
unfolding find_where str_beq is_expired
create-resolve_example =
    create-resolve plugin roles none same no_hook [] ada input (codes "r1") (codes "k1") 100 key
      (key ∷ []) accounts 200 created_key refl refl refl refl

create-require_scope_example :
    ((require_scope (codes "read") (some (plain_principal plugin roles none key ada)) ≡ ok tt)
      ↔ (contains (fields (codes "read")) (codes "read") ≡ true))
    × (contains (fields (codes "read")) (codes "read") ≡ true
        → contains plugin.scopes (codes "read") ≡ true)
unfolding fields fields_from is_space
create-require_scope_example =
    create-require_scope plugin roles none same no_hook [] ada input (codes "r1") (codes "k1") 100
      key (key ∷ []) created_key refl refl (codes "read")

resolve-not_above_owner_example :
    (k : ApiKey) × (owner : User) × (api_key_by_hash (key ∷ []) accounts value ≡ ok (k, owner))
    × (is_live k ≡ true)
    × (is_expired k 200 ≡ false)
    × (is_enabled owner ≡ true)
    × (some ada ≡ some owner)
    × (rank_below (rank roles (effective roles owner.role)) (rank roles (codes "user")) ≡ false)
    × (rank_below (rank roles k.role) (rank roles (codes "user")) ≡ false)
unfolding resolve api_key_by_hash principal_of refused touch lower_role named_org find_where str_beq
    is_expired rank effective index_of rank_below effective_scopes
resolve-not_above_owner_example =
    resolve-not_above_owner plugin roles none same (key ∷ []) accounts value 200
      (plain_principal plugin roles none key ada) refl

abbrev revoked_key : ApiKey
revoked_key = record key { revoked_at = some 300; revoked_by = some (codes "ada") }

revoke-final_example :
    (resolve plugin roles none same
      (run plugin roles none same no_hook
        (revoked_key ∷ [])
        (requests accounts value 310 ∷ revokes (codes "k1") (codes "ada") false 320 ∷ []))
      accounts
      value
      400).0
    ≡ err unauthorized
unfolding unique_hashes find_where revoke revoke_api_key api_key_by_id update_where never_creates
    str_beq
revoke-final_example =
    revoke-final plugin roles none same no_hook (key ∷ []) (revoked_key ∷ []) key value
      (codes "ada") false 300
      (requests accounts value 310 ∷ revokes (codes "k1") (codes "ada") false 320 ∷ []) accounts 400
      refl refl refl refl

abbrev all_of : Set
all_of = record {
  every = true;
  grants = record { resource = []; action = []; whole = true } ∷ [];
  sources = codes "*" ∷ [];
}

abbrev reader : Set
reader = record {
  every = false;
  grants = record { resource = codes "doc"; action = codes "read"; whole = false } ∷ [];
  sources = codes "doc:read" ∷ [];
}

abbrev writes : Statement
writes = record { resource = codes "doc"; action = codes "write"; whole = false }

abbrev orgs : Access.Plugin
orgs = record {
  roles =
      record { name = codes "owner"; granted = all_of }
      ∷ record { name = codes "member"; granted = reader }
      ∷ [];
  default_role = codes "member";
  owner_role = codes "owner";
  allow_custom_roles = false;
  max_members = 0;
  invitation_lifetime = 100;
}

orgs-HasBuiltRoles : HasBuiltRoles orgs
unfolding new_set add_parsed parse Permission.cut Permission.valid_segment Permission.allowed_char
    add holds statement_beq str_beq Permission.to_string
orgs-HasBuiltRoles = ((codes "*" ∷ [], refl), ((codes "doc:read" ∷ [], refl), tt))

abbrev acme : Organization
acme = record {
  id = codes "o";
  name = codes "Acme";
  slug = codes "acme";
  created_at = 0;
  updated_at = 0;
}

abbrev owner_of_acme : Membership
owner_of_acme = record {
  id = codes "m";
  org_id = codes "o";
  user_id = codes "ada";
  role = codes "owner";
  status = active;
  joined_at = 0;
  permissions = [];
  team_roles = [];
}

abbrev tables : Tables.Db
tables = record {
  organizations = acme ∷ [];
  members = owner_of_acme ∷ [];
  roles = [];
  invitations = [];
  teams = [];
  team_members = [];
  users = [];
  sessions = [];
}

-- A key for reading only.
abbrev reading_key : ApiKey
reading_key = record key { org_id = some (codes "o"); role = codes "member" }

abbrev shown : Membership
shown = record owner_of_acme { permissions = codes "doc:read" }

abbrev reading : ResolvedPrincipal
reading = record (plain_principal plugin roles (some (resolver_of orgs tables)) reading_key ada) {
  organization = some acme;
  membership = some shown;
}

require-key_of_member_example :
    require orgs writes (organization_context (from_plugin_principal reading)) ≡ ok tt
unfolding principal_of named_org key_credential organization_by_id plugin_membership_of
    membership_of permissions_of_membership known_role permissions_of role_named add_team_roles
    intersect keep_covered covers Permission.statements sort_strings insert_sorted parse
    Permission.cut Permission.valid_segment Permission.allowed_char Permission.covers_all holds
    statement_beq fields fields_from join find_where str_beq
require-key_of_member_example =
    require-key_of_member plugin roles orgs tables reading_key ada reading shown writes
      orgs-HasBuiltRoles refl refl refl
