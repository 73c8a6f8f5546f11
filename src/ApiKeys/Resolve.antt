-- ===== src/ApiKeys/Resolve.antt =====
-- plugins/apikeys/apikeys.go: how a key authenticates a request, and the gate of a scope. SHA-256 is the
-- parameter `digest`; the clock is an argument. A failure of the database is not modelled.
use auth_all.Prelude.{
  ℕ, ◌+◌, Bool, true, false, ◌||◌, not, List, Option, none, some, Str, ltb, if◌then◌else◌, str_eq,
  is_empty,
}
use auth_all.Errors.{Result, ok, err, guard, unauthorized, internal, scope_missing, row_not_found}
use auth_all.Strings.{join}
use auth_all.Strings.Fields.{space}
use auth_all.Roles.{Roles, rank, effective}
use auth_all.Accounts.{Db, User, is_enabled}
use auth_all.Organizations.Store.{Organization, Membership}
use auth_all.Organizations.Access.{key_credential, known_role}
use auth_all.Organizations.Store as Tables
use auth_all.Organizations.Access as Access
use auth_all.Principals.Types.{ApiKey, ResolvedPrincipal, method_api_key}
use auth_all.ApiKeys.Store.{api_key_by_hash, touch_api_key, is_live}
use auth_all.ApiKeys.Scopes.{Plugin, effective_scopes, has_scope}

-- What the plugin asks of the organizations.
pub record OrganizationResolver : Type 0 where
  pub key_credential : Str → Str → Str → Result (Organization × Membership × List Str)
  pub known_role : Str → Str → Result Bool

abbrev is_known {ℓ} : {A : Type ℓ} → Result (Option A) → Result Bool
is_known (err e) = err e
is_known (ok none) = ok false
is_known (ok (some set)) = ok true

-- The organizations plugin as a resolver.
abbrev pub resolver_of : Access.Plugin → Tables.Db → OrganizationResolver
resolver_of orgs db = record {
  key_credential = λ org owner role. key_credential orgs db org owner role;
  known_role = λ org role. is_known (known_role orgs db org role);
}

-- `<` on ranks; `none` is the rank -1 of an unknown role.
unfoldable pub rank_below : Option ℕ → Option ℕ → Bool
rank_below none none = false
rank_below none (some j) = true
rank_below (some i) none = false
rank_below (some i) (some j) = ltb i j

unfoldable pub is_expired : ApiKey → ℕ → Bool
is_expired k now = elim k.expires_at [ none ↦ false | some t ↦ not (ltb now t) ]

-- The lower of the role of the key and the role of its owner.
unfoldable pub lower_role : Roles → Str → User → Str
unfolding rank_below rank effective
lower_role roles role owner =
    let owner_role = effective roles owner.role in
    if rank_below (rank roles owner_role) (rank roles role) then owner_role else role

-- The organization that a key names.
unfoldable pub named_org : ApiKey → Option Str
named_org k = elim k.org_id [ none ↦ none | some org ↦ if is_empty org then none else some org ]

-- `touch`: the last use is written at most once in an interval.
unfoldable pub touch : Plugin → List ApiKey → ApiKey → ℕ → List ApiKey
touch p keys k now = elim k.last_used_at [
  | none ↦ touch_api_key keys k.id now
  | some at ↦ if ltb now (at + p.touch_interval) then keys else touch_api_key keys k.id now
]

module _ (p : Plugin) (roles : Roles) (organizations : Option OrganizationResolver) where
  abbrev pub plain_principal : ApiKey → User → ResolvedPrincipal
  plain_principal k owner = record {
    user = some owner;
    session = none;
    api_key = some (record k { scopes = effective_scopes p k.scopes });
    role = lower_role roles k.role owner;
    method = method_api_key;
    organization = none;
    membership = none;
  }

  -- The principal of a key that is neither revoked nor expired.
  unfoldable pub principal_of : ApiKey → User → Result ResolvedPrincipal
  unfolding lower_role named_org
  principal_of k owner = elim (named_org k) [
    | none ↦ ok (plain_principal k owner)
    | some org ↦ elim organizations [
      | none ↦ err unauthorized
      | some resolver ↦ elim (resolver.key_credential org owner.id k.role) [
        | err e ↦ err unauthorized
        | ok (o, m, permissions) ↦ ok (record (plain_principal k owner) {
          organization = some o;
          membership = some (record m { permissions = join permissions space });
        })
      ]
    ]
  ]

  unfoldable pub refused : ApiKey → User → ℕ → Bool
  unfolding is_expired
  refused k owner now = not (is_live k) || (is_expired k now || not (is_enabled owner))

  -- `Resolve`.
  unfoldable pub resolve :
      (Str → Str) → List ApiKey → Db → Str → ℕ → Result ResolvedPrincipal × List ApiKey
  unfolding principal_of refused touch
  resolve digest keys db bearer now = elim (api_key_by_hash keys db (digest bearer)) [
    | err row_not_found ↦ (err unauthorized, keys)
    | err e ↦ (err internal, keys)
    | ok (k, owner) ↦
        if refused k owner now then (err unauthorized, keys) else elim (principal_of k owner) [
          | err e ↦ (err e, keys)
          | ok principal ↦ (ok principal, touch p keys k now)
        ]
  ]

-- The gate of `RequireScope`, which the registration of a route refuses for a scope that is not declared.
unfoldable pub require_scope : Str → Option ResolvedPrincipal → Result (Unit {0})
unfolding has_scope
require_scope scope none = err unauthorized
require_scope scope (some principal) = guard (has_scope (some principal) scope) scope_missing
