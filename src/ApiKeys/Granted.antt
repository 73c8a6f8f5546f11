-- ===== src/ApiKeys/Granted.antt =====
-- What a created key is: its lifetime, its role, its scopes.
use auth_all.Prelude.{
  ℕ, ◌+◌, ◌<◌, ◌≤◌, ◌≡◌, inl, inr, true, false, ◌||◌, List, Option, none, some, Str, arith,
  is_empty, any, find_where, str_beq_refl, ◌==◌, str_eq, if◌then◌else◌, Bool-cases, Option-cases,
}
use auth_all.Errors.{Error, ok, Result-cases}
use auth_all.Roles.{Roles, rank, effective}
use auth_all.Accounts.{Db, User, is_enabled}
use auth_all.Principals.Types.{ApiKey}
use auth_all.ApiKeys.Store.{create_api_key, api_key_by_hash}
use auth_all.ApiKeys.Scopes.{Plugin, scopes_of}
use auth_all.ApiKeys.Resolve.{
  OrganizationResolver, rank_below, resolve, plain_principal, refused, is_expired, principal_of,
}
use auth_all.ApiKeys.Create.{
  CreateInput, create, create_tx, new_key, key_role, check_expiry, app_key_role, plaintext_of,
}

-- The lifetimes that the configuration accepts.
unfoldable pub IsLifetime : Plugin → ℕ → Option ℕ → Type 0
IsLifetime p now none = p.require_expiry ≡ false
IsLifetime p now (some t) = (now < t) × (0 < p.max_ttl → t ≤ now + p.max_ttl)

check_expiry-IsLifetime :
    (p : Plugin) (expires : Option ℕ) (now : ℕ)
    → check_expiry p expires now ≡ ok tt
    → IsLifetime p now expires
unfolding check_expiry IsLifetime
check_expiry-IsLifetime p none now h = ground arith
check_expiry-IsLifetime p (some t) now h = (ground arith, λ m. ground arith)

app_key_role-bounds :
    (roles : Roles) (owner : User) (input : CreateInput) (role : Str)
    → app_key_role roles owner input ≡ ok role
    → ((i : ℕ) × (rank roles role ≡ some i))
      × (rank_below (rank roles (effective roles owner.role)) (rank roles role) ≡ false)
unfolding app_key_role
app_key_role-bounds roles owner input role h =
    let asked = if is_empty input.role then effective roles owner.role else input.role in
    elim (Option-cases (rank roles asked)) [
      | inl e ↦ absurd (ground arith)
      | inr (i, e) ↦ ((i, ground (arith, e)), ground (arith, e))
    ]

module _ (p : Plugin) (roles : Roles) (organizations : Option OrganizationResolver)
    (digest : Str → Str) (before : ApiKey → User → Option Error) (keys : List ApiKey) (owner : User)
    (input : CreateInput) (random id : Str) (now : ℕ) where
  -- What a successful call of `Create` went through.
  pub create-cases :
      (k : ApiKey) (keys' : List ApiKey)
      → create p roles organizations digest before keys owner input random id now ≡ ok (k, keys')
      → (scopes role : Str) × (check_expiry p input.expires_at now ≡ ok tt)
        × (scopes_of p input.scopes ≡ ok scopes)
        × (key_role roles organizations owner input ≡ ok role)
        × (before (new_key p roles organizations digest owner input scopes role random id now) owner
            ≡ none)
        × (k ≡ new_key p roles organizations digest owner input scopes role random id now)
        × (create_api_key keys k ≡ ok keys')
  unfolding create create_tx
  create-cases k keys' h = elim (Result-cases (check_expiry p input.expires_at now)) [
    | inr (x, e) ↦ absurd (ground arith)
    | inl (t, e) ↦ elim (Result-cases (scopes_of p input.scopes)) [
      | inr (x, e') ↦ absurd (ground arith)
      | inl (scopes, e') ↦ elim (Result-cases (key_role roles organizations owner input)) [
        | inr (x, e'') ↦ absurd (ground arith)
        | inl (role, e'') ↦
            let made = new_key p roles organizations digest owner input scopes role random id now in
            elim (Option-cases (before made owner)) [
              | inr (x, b) ↦ absurd (ground arith)
              | inl b ↦ elim (Result-cases (create_api_key keys made)) [
                | inr (x, c) ↦ absurd (ground arith)
                | inl (rows, c) ↦
                    (scopes, role, ground arith, e', e'', b, ground arith, ground arith)
              ]
            ]
      ]
    ]
  ]

  -- A created key has a lifetime that the configuration accepts: it ends after its creation and within
  -- the highest lifetime, or it does not end where no expiry is required. A key of the application has a
  -- role of the hierarchy that does not rank above the role of its owner.
  pub create-bounds :
      (k : ApiKey) (keys' : List ApiKey)
      → create p roles organizations digest before keys owner input random id now ≡ ok (k, keys')
      → IsLifetime p now k.expires_at
        × (is_empty input.org_id ≡ true
            → ((i : ℕ) × (rank roles k.role ≡ some i))
              × (rank_below (rank roles (effective roles owner.role)) (rank roles k.role) ≡ false))
  create-bounds k keys' h =
      let (scopes, role, expiry, s, r, b, made, c) = create-cases k keys' h in
      rw made (
        check_expiry-IsLifetime p input.expires_at now expiry,
        λ m. app_key_role-bounds roles owner input role (ground (arith, m)),
      )

  create-found :
      (k : ApiKey) (keys' : List ApiKey) (db : Db)
      → create_api_key keys k ≡ ok keys'
      → find_where (λ u. u.id == k.user_id) db.users ≡ some owner
      → api_key_by_hash keys' db k.key_hash ≡ ok (k, owner)
  unfolding create_api_key api_key_by_hash find_where
  create-found k keys' db c f =
      elim (Bool-cases (any (λ r. r.id == k.id || r.key_hash == k.key_hash) keys)) [
        | inl a ↦ absurd (ground arith)
        | inr a ↦ ground (arith, a, str_beq_refl k.key_hash)
      ]

  -- The value of a created key of the application authenticates its owner at each time before the key
  -- ends, as long as the row of the owner is as at the creation and not disabled, and with the role of
  -- the key.
  pub create-resolve :
      (k : ApiKey) (keys' : List ApiKey) (db : Db) (later : ℕ)
      → create p roles organizations digest before keys owner input random id now ≡ ok (k, keys')
      → is_empty input.org_id ≡ true
      → find_where (λ u. u.id == owner.id) db.users ≡ some owner
      → is_enabled owner ≡ true
      → is_expired k later ≡ false
      → ((resolve p roles organizations digest keys' db
            (plaintext_of p roles organizations random)
            later).0
          ≡ ok (plain_principal p roles organizations k owner))
        × ((plain_principal p roles organizations k owner).role ≡ k.role)
  unfolding resolve principal_of refused
  create-resolve k keys' db later h m f l x =
      let (scopes, role, expiry, s, r, b, made, c) = create-cases k keys' h in
      let bounds = (create-bounds k keys' h).1 m in
      let found = create-found k keys' db c (rw made f) in
      (ground (arith, made, found), ground (arith, bounds))
