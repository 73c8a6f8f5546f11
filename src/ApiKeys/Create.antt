-- ===== src/ApiKeys/Create.antt =====
-- plugins/apikeys/apikeys.go: `Create`, `Revoke` and `List`. The random part of a key and the id of a row
-- are arguments. The hook before the insertion can refuse and is taken to write no row; the hooks after a
-- change and the audit events are left out.
use auth_all.Prelude.{
  ℕ, ◌+◌, Bool, ◌&&◌, ◌||◌, not, List, ◌++◌, Option, none, some, Str, ltb, if◌then◌else◌, ◌==◌,
  nat_eq, str_eq, is_empty, length, map,
}
use auth_all.Errors.{
  Error, Result, ok, err, guard, refuse_by, ◌>>=◌, ◌>>◌, from, invalid_request, internal, not_found,
  row_not_found, role_unknown, role_not_allowed, api_key_expiry_required, api_key_expiry_too_long,
}
use auth_all.Strings.{trim_space, trim_prefix, has_prefix, take}
use auth_all.Roles.{Roles, rank, effective}
use auth_all.Accounts.{User}
use auth_all.Principals.Types.{ApiKey}
use auth_all.ApiKeys.Store.{create_api_key, api_key_by_id, revoke_api_key, list_api_keys}
use auth_all.ApiKeys.Scopes.{Plugin, scopes_of, effective_scopes}
use auth_all.ApiKeys.Resolve.{OrganizationResolver, rank_below}

pub record CreateInput : Type 0 where
  pub name : Str
  pub role : Str
  pub expires_at : Option ℕ
  pub org_id : Str
  pub scopes : Str

unfoldable pub check_expiry : Plugin → Option ℕ → ℕ → Result (Unit {0})
check_expiry p none now = guard (not p.require_expiry) api_key_expiry_required
check_expiry p (some t) now = do
  guard (ltb now t) invalid_request
  guard (not (ltb 0 p.max_ttl && ltb (now + p.max_ttl) t)) api_key_expiry_too_long

-- The role of the new key.
unfoldable pub org_key_role : Option OrganizationResolver → User → CreateInput → Result Str
org_key_role none owner input = err invalid_request
org_key_role (some resolver) owner input = do
  credential ← resolver.key_credential input.org_id owner.id input.role
  if is_empty input.role then ok input.role else (do
    known ← resolver.known_role input.org_id input.role
    guard known role_unknown
    ok input.role)

unfoldable pub app_key_role : Roles → User → CreateInput → Result Str
unfolding rank effective rank_below
app_key_role roles owner input = do
  let owner_role = effective roles owner.role
  let role = if is_empty input.role then owner_role else input.role
  guard (not (rank_below (rank roles role) (some 0))) role_unknown
  guard (not (rank_below (rank roles owner_role) (rank roles role))) role_not_allowed
  ok role

abbrev pub key_role : Roles → Option OrganizationResolver → User → CreateInput → Result Str
key_role roles organizations owner input =
    if is_empty input.org_id
    then app_key_role roles owner input
    else org_key_role organizations owner input

-- The first characters of the random part that a list shows.
abbrev start_random_chars : ℕ
start_random_chars = 4

unfoldable pub start : Str → Str → Str
start plaintext prefix = prefix ++ take start_random_chars (trim_prefix plaintext prefix)

-- `Claims`.
unfoldable pub claims : Plugin → Str → Bool
claims p bearer = has_prefix bearer p.prefix

module _ (p : Plugin) (roles : Roles) (organizations : Option OrganizationResolver) where
  -- `newKey`.
  abbrev pub plaintext_of : Str → Str
  plaintext_of random = p.prefix ++ random

  abbrev pub new_key : (Str → Str) → User → CreateInput → Str → Str → Str → Str → ℕ → ApiKey
  new_key digest owner input scopes role random id now = record {
    id = id;
    user_id = owner.id;
    name = trim_space input.name;
    start = start (plaintext_of random) p.prefix;
    key_hash = digest (plaintext_of random);
    role = role;
    org_id = if is_empty input.org_id then none else some input.org_id;
    scopes = scopes;
    created_at = now;
    expires_at = input.expires_at;
    last_used_at = none;
    revoked_at = none;
    revoked_by = none;
  }

  -- The transaction of `Create`.
  unfoldable pub create_tx :
      (ApiKey → User → Option Error) → List ApiKey → User → ApiKey → Result (ApiKey × List ApiKey)
  unfolding create_api_key
  create_tx before keys owner k = do
    refuse_by (before k owner)
    keys' ← create_api_key keys k
    ok (k, keys')

  -- `Create`: the key and the rows; the plaintext is `plaintext_of` the random part.
  unfoldable pub create :
      (Str → Str)
      → (ApiKey → User → Option Error)
      → List ApiKey
      → User
      → CreateInput
      → Str
      → Str
      → ℕ
      → Result (ApiKey × List ApiKey)
  unfolding check_expiry scopes_of app_key_role org_key_role create_tx from
  create digest before keys owner input random id now = do
    guard (not (is_empty (trim_space input.name) || ltb 100 (length (trim_space input.name))))
        invalid_request
    check_expiry p input.expires_at now
    scopes ← scopes_of p input.scopes
    role ← key_role roles organizations owner input
    elim (create_tx before keys owner (new_key digest owner input scopes role random id now)) [
      | ok done ↦ ok done
      | err e ↦ err (from e)
    ]

-- `Revoke`: the actor is named by its id.
unfoldable pub revoke : List ApiKey → Str → Str → Bool → ℕ → Result (List ApiKey)
unfolding api_key_by_id revoke_api_key
revoke keys id actor is_admin now = elim (api_key_by_id keys id) [
  | err row_not_found ↦ err not_found
  | err e ↦ err internal
  | ok k ↦
      if not (k.user_id == actor) && not is_admin
      then err not_found
      else elim (revoke_api_key keys k.id actor now) [
        | ok keys' ↦ ok keys'
        | err row_not_found ↦ err not_found
        | err e ↦ err internal
      ]
]

-- `List`.
unfoldable pub list : Plugin → List ApiKey → Str → List ApiKey
unfolding list_api_keys effective_scopes
list p keys user =
    map {A = ApiKey} (λ k. record k { scopes = effective_scopes p k.scopes })
      (list_api_keys keys user)
