-- ===== src/Principals/Types.antt =====
-- store/apikey.go, plugin/plugin.go and principal.go: the row of an API key and the two forms of a
-- principal. A nil pointer is `none`.
use auth_all.Prelude.{
  ℕ, Bool, false, ◌||◌, List, Option, none, some, Str, codes, if◌then◌else◌, ◌==◌, str_eq, is_empty,
  contains,
}
use auth_all.Strings.{fields}
use auth_all.Accounts.{User, Session}
use auth_all.Organizations.Store.{Organization, Membership, active}
use auth_all.Organizations.Access.{OrganizationContext}

pub record ApiKey : Type 0 where
  pub id : Str
  pub user_id : Str
  pub name : Str
  pub start : Str
  pub key_hash : Str
  pub role : Str
  pub org_id : Option Str
  pub scopes : Str
  pub created_at : ℕ
  pub expires_at : Option ℕ
  pub last_used_at : Option ℕ
  pub revoked_at : Option ℕ
  pub revoked_by : Option Str

-- `ScopeList`.
unfoldable pub scope_list : ApiKey → List Str
scope_list k = fields k.scopes

abbrev pub method_session : Str
method_session = codes "session"

abbrev pub method_api_key : Str
method_api_key = codes "api_key"

-- plugin.Principal
pub record ResolvedPrincipal : Type 0 where
  pub user : Option User
  pub session : Option Session
  pub api_key : Option ApiKey
  pub role : Str
  pub method : Str
  pub organization : Option Organization
  pub membership : Option Membership

pub record Principal : Type 0 where
  pub user : Option User
  pub session : Option Session
  pub api_key : Option ApiKey
  pub role : Str
  pub method : Str
  pub via_cookie : Bool
  pub organization : Option Organization
  pub membership : Option Membership

unfoldable pub from_plugin_principal : ResolvedPrincipal → Principal
from_plugin_principal p = record {
  user = p.user;
  session = p.session;
  api_key = p.api_key;
  role = p.role;
  method = p.method;
  via_cookie = false;
  organization = p.organization;
  membership = p.membership;
}

-- `HasScope` of a principal.
unfoldable pub has_scope : Option Principal → Str → Bool
unfolding scope_list
has_scope none scope = false
has_scope (some p) scope = elim p.api_key [
  | some k ↦ is_empty k.scopes || contains (scope_list k) scope
  | none ↦ p.method == method_session
]

-- `withOrganization`.
unfoldable pub with_organization : Principal → Option Organization → Option Membership → Principal
with_organization p (some o) (some m) =
    if m.status == active then record p { organization = some o; membership = some m } else p
with_organization p _ _ = p

-- The organization that `withPrincipal` puts in the context of the request.
unfoldable pub organization_context : Principal → Option OrganizationContext
organization_context p = elim p.organization [
  | none ↦ none
  | some o ↦ elim p.membership [
    | none ↦ none
    | some m ↦
        some (record { organization = o; membership = m; permissions = fields m.permissions })
  ]
]
