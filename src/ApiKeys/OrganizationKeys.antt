-- ===== src/ApiKeys/OrganizationKeys.antt =====
-- A key of an organization at the gate of plugins/organizations/organizations.go.
use auth_all.Prelude.{◌≡◌, inl, inr, true, List, some, Str, arith, str_beq, str_eq}
use auth_all.Errors.{ok, Result-cases}
use auth_all.Strings.{fields, join}
use auth_all.Strings.Fields.{space}
use auth_all.Permission.{Statement}
use auth_all.Roles.{Roles}
use auth_all.Accounts.{User}
use auth_all.Organizations.Store.{Organization, Membership, active, Db, organization_by_id}
use auth_all.Organizations.Access.{
  OrganizationContext, key_credential, plugin_membership_of, permissions_of_membership, require,
  known_role,
}
use auth_all.Organizations.Access as Access
use auth_all.Organizations.Access.Gate.{HasBuiltRoles, role_covers, require_lem}
use auth_all.Principals.Types.{
  ApiKey, ResolvedPrincipal, organization_context, from_plugin_principal,
}
use auth_all.ApiKeys.Scopes.{Plugin}
use auth_all.ApiKeys.Resolve.{principal_of, resolver_of}
use auth_all.ApiKeys.Power.{of_application, of_organization, principal_of-cases}

key_credential-active :
    (p : Access.Plugin) (db : Db) (org owner role : Str) (o : Organization) (m : Membership)
    (texts : List Str)
    → key_credential p db org owner role ≡ ok (o, m, texts)
    → str_beq m.status active ≡ true
unfolding key_credential
key_credential-active p db org owner role o m texts h =
    elim (Result-cases (organization_by_id db org)) [
      | inr (x, e) ↦ absurd (ground arith)
      | inl (o', e) ↦ elim (Result-cases (plugin_membership_of db org owner)) [
        | inr (x, e') ↦ absurd (ground arith)
        | inl (m', e') ↦ elim (Result-cases (permissions_of_membership p db m')) [
          | inr (x, e'') ↦ absurd (ground arith)
          | inl (live, e'') ↦ elim (Result-cases (known_role p db org role)) [
            | inr (x, e''') ↦ absurd (ground arith)
            | inl (known, e''') ↦
                let same : m' ≡ m = ground arith in
                let is_active : str_beq m'.status active ≡ true = ground arith in
                rw (← same) is_active
          ]
        ]
      ]
    ]

-- The gate of an organization does not read the role of a key: a request with a key of the organization
-- passes it whenever the declared role of the owner's membership covers the permission, whatever the role
-- that the key was created with.
pub require-key_of_member :
    (p : Plugin) (roles : Roles) (orgs : Access.Plugin) (db : Db) (k : ApiKey) (owner : User)
    (principal : ResolvedPrincipal) (m : Membership) (stmt : Statement)
    → HasBuiltRoles orgs
    → principal_of p roles (some (resolver_of orgs db)) k owner ≡ ok principal
    → principal.membership ≡ some m
    → role_covers orgs stmt m.role ≡ true
    → require orgs stmt (organization_context (from_plugin_principal principal)) ≡ ok tt
unfolding organization_context from_plugin_principal
require-key_of_member p roles orgs db k owner principal m stmt w h e c =
    elim (principal_of-cases p roles (some (resolver_of orgs db)) k owner principal h) [
      | of_application n same ↦ absurd (ground arith)
      | of_organization org resolver o m' texts n r q same ↦
          let value : OrganizationContext = record {
            organization = o;
            membership = m;
            permissions = fields m.permissions;
          } in
          let read : key_credential orgs db org owner.id k.role ≡ ok (o, m', texts) =
            ground arith in
          let live = key_credential-active orgs db org owner.id k.role o m' texts read in
          let carried : record m' { permissions = join texts space } ≡ m = ground arith in
          let shown : organization_context (from_plugin_principal principal) ≡ some value =
            ground arith in
          rw shown (ground (arith, (require_lem orgs stmt value w).1))
    ]
