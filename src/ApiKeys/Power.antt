-- ===== src/ApiKeys/Power.antt =====
-- What a key that authenticates can be, and how much it can do.
use auth_all.Prelude.{
  ℕ, ◌≡◌, sym, subst, inl, inr, true, false, List, Option, none, some, Str, arith, Option-cases,
  Bool-cases,
}
use auth_all.Errors.{ok, Result-cases}
use auth_all.Strings.{join}
use auth_all.Strings.Fields.{space}
use auth_all.Roles.{Roles, rank, effective}
use auth_all.Accounts.{Db, User, is_enabled}
use auth_all.Organizations.Store.{Organization, Membership}
use auth_all.Principals.Types.{ApiKey, ResolvedPrincipal}
use auth_all.ApiKeys.Store.{api_key_by_hash, is_live}
use auth_all.ApiKeys.Scopes.{Plugin}
use auth_all.ApiKeys.Resolve.{
  OrganizationResolver, rank_below, is_expired, lower_role, named_org, principal_of,
  plain_principal, refused, resolve,
}

lower_role-bounds :
    (roles : Roles) (role : Str) (owner : User)
    → (rank_below
          (rank roles (effective roles owner.role))
          (rank roles (lower_role roles role owner))
        ≡ false)
      × (rank_below (rank roles role) (rank roles (lower_role roles role owner)) ≡ false)
unfolding lower_role
lower_role-bounds roles role owner = elim (Option-cases (rank roles (effective roles owner.role))) [
  | inl e ↦ elim (Option-cases (rank roles role)) [
    | inl e' ↦ ground (arith, e, e')
    | inr (j, e') ↦ ground (arith, e, e')
  ]
  | inr (i, e) ↦ elim (Option-cases (rank roles role)) [
    | inl e' ↦ ground (arith, e, e')
    | inr (j, e') ↦ ground (arith, e, e')
  ]
]

module _ (p : Plugin) (roles : Roles) (organizations : Option OrganizationResolver) where
  -- The two shapes of a principal.
  pub data IsPrincipal (k : ApiKey) (owner : User) (principal : ResolvedPrincipal) : Type 0 where
    of_application :
        named_org k ≡ none
        → plain_principal p roles organizations k owner ≡ principal
        → IsPrincipal k owner principal
    of_organization :
        (org : Str) (resolver : OrganizationResolver) (o : Organization) (m : Membership)
        (texts : List Str)
        → named_org k ≡ some org
        → organizations ≡ some resolver
        → resolver.key_credential org owner.id k.role ≡ ok (o, m, texts)
        → record (plain_principal p roles organizations k owner) {
          organization = some o;
          membership = some (record m { permissions = join texts space });
        }
          ≡ principal
        → IsPrincipal k owner principal

  pub principal_of-cases :
      (k : ApiKey) (owner : User) (principal : ResolvedPrincipal)
      → principal_of p roles organizations k owner ≡ ok principal
      → IsPrincipal k owner principal
  unfolding principal_of
  principal_of-cases k owner principal h = elim (Option-cases (named_org k)) [
    | inl e ↦ of_application e (ground arith)
    | inr (org, e) ↦ elim (Option-cases organizations) [
      | inl e' ↦ absurd (ground arith)
      | inr (resolver, e') ↦ elim (Result-cases (resolver.key_credential org owner.id k.role)) [
        | inr (x, e'') ↦ absurd (ground arith)
        | inl ((o, m, texts), e'') ↦ of_organization org resolver o m texts e e' e'' (ground arith)
      ]
    ]
  ]

  pub resolve-cases :
      (digest : Str → Str) (keys : List ApiKey) (db : Db) (bearer : Str) (now : ℕ)
      (principal : ResolvedPrincipal)
      → (resolve p roles organizations digest keys db bearer now).0 ≡ ok principal
      → (k : ApiKey) × (owner : User) × (api_key_by_hash keys db (digest bearer) ≡ ok (k, owner))
        × (refused p roles organizations k owner now ≡ false)
        × (principal_of p roles organizations k owner ≡ ok principal)
  unfolding resolve
  resolve-cases digest keys db bearer now principal h =
      elim (Result-cases (api_key_by_hash keys db (digest bearer))) [
        | inr (x, e) ↦ absurd (ground arith)
        | inl ((k, owner), e) ↦ elim (Bool-cases (refused p roles organizations k owner now)) [
          | inl r ↦ absurd (ground arith)
          | inr r ↦ elim (Result-cases (principal_of p roles organizations k owner)) [
            | inr (x, e') ↦ absurd (ground arith)
            | inl (q, e') ↦ (k, owner, e, r, ground arith)
          ]
        ]
      ]

  principal-bounds :
      (k : ApiKey) (owner : User) (principal : ResolvedPrincipal)
      → IsPrincipal k owner principal
      → (principal.user ≡ some owner) × (principal.role ≡ lower_role roles k.role owner)
  principal-bounds k owner principal (of_application e h) = ground arith
  principal-bounds k owner principal (of_organization org resolver o m texts e e' e'' h) =
      ground arith

  -- A bearer value that authenticates is the value of a stored key that is neither revoked nor
  -- expired, of an owner who is not disabled; the principal is that owner, and its role ranks neither
  -- above the current role of the owner nor above the role of the key.
  pub resolve-not_above_owner :
      (digest : Str → Str) (keys : List ApiKey) (db : Db) (bearer : Str) (now : ℕ)
      (principal : ResolvedPrincipal)
      → (resolve p roles organizations digest keys db bearer now).0 ≡ ok principal
      → (k : ApiKey) × (owner : User) × (api_key_by_hash keys db (digest bearer) ≡ ok (k, owner))
        × (is_live k ≡ true)
        × (is_expired k now ≡ false)
        × (is_enabled owner ≡ true)
        × (principal.user ≡ some owner)
        × (rank_below (rank roles (effective roles owner.role)) (rank roles principal.role) ≡ false)
        × (rank_below (rank roles k.role) (rank roles principal.role) ≡ false)
  unfolding refused
  resolve-not_above_owner digest keys db bearer now principal h =
      let (k, owner, e, r, q) = resolve-cases digest keys db bearer now principal h in
      let (u, s) = principal-bounds k owner principal (principal_of-cases k owner principal q) in
      (
        k,
        owner,
        e,
        ground arith,
        ground arith,
        ground arith,
        u,
        subst
            (λ role. rank_below (rank roles (effective roles owner.role)) (rank roles role) ≡ false)
            (sym s) (lower_role-bounds roles k.role owner).0,
        subst (λ role. rank_below (rank roles k.role) (rank roles role) ≡ false) (sym s)
            (lower_role-bounds roles k.role owner).1,
      )
