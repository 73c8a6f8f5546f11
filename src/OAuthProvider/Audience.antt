-- ===== src/OAuthProvider/Audience.antt =====
-- What an access token opens: the routes of the server only with the audience of the server.
use auth_all.Prelude.{
  ℕ, ◌+◌, ◌≡◌, refl, inl, inr, Bool, true, false, List, [], ◌∷◌, Option, none, some, Str, arith,
  leb, is_empty, str_beq, str_beq_refl, ◌==◌, str_eq, any, find_where, Bool-cases, Option-cases,
}
use auth_all.Errors.{ok, Result-cases}
use auth_all.Accounts.{User, is_enabled, user_by_id}
use auth_all.Accounts as Accounts
use auth_all.Principals.Types.{ResolvedPrincipal}
use auth_all.OAuthProvider.Rows.{Db, OAuthGrant, OAuthAccessToken}
use auth_all.OAuthProvider.Store.{
  create_oauth_access_token, oauth_access_token_by_id, oauth_grant_by_id,
}
use auth_all.OAuthProvider.Clients.{Provider, Client}
use auth_all.OAuthProvider.Issue.{
  AccessClaims, IdClaims, mint_access_token, access_claims, access_row, audience_of, ttl_of, unix,
}
use auth_all.OAuthProvider.Exchange.{Proof}
use auth_all.OAuthProvider.Resource.{
  VerifiedToken, oauth_method, verify_access_token, authenticate_resource_request,
  principal_of_token, resolve, resolve_request,
}

module _ (verify : Str → Option AccessClaims) (sign_access : AccessClaims → Str)
    (sign_id : IdClaims → Str) (digest : Str → Str) (p : Provider) where
  minted-token :
      (db : Db) (c : Client) (g : OAuthGrant) (scopes resources : List Str) (jkt id : Str) (now : ℕ)
      (access : Str) (expires : ℕ) (db' : Db)
      → mint_access_token sign_access sign_id digest p db c g scopes resources jkt id now
        ≡ some (access, expires, db')
      → (access
          ≡ sign_access
              (access_claims sign_access sign_id digest p c g scopes resources jkt id now))
        × (db'.access_tokens
            ≡ access_row sign_access sign_id digest p c g scopes resources jkt id now
              ∷ db.access_tokens)
        × (db'.grants ≡ db.grants)
  unfolding mint_access_token create_oauth_access_token
  minted-token db c g scopes resources jkt id now access expires db' h =
      elim (Bool-cases (any (λ r. r.id == id) db.access_tokens)) [
        | inl a ↦ absurd (ground arith)
        | inr a ↦ (ground arith, ground arith, ground arith)
      ]

  minted-expiry :
      (db : Db) (c : Client) (g : OAuthGrant) (scopes resources : List Str) (jkt id : Str) (now : ℕ)
      (access : Str) (expires : ℕ) (db' : Db)
      → mint_access_token sign_access sign_id digest p db c g scopes resources jkt id now
        ≡ some (access, expires, db')
      → expires ≡ now + ttl_of p resources
  unfolding mint_access_token create_oauth_access_token
  minted-expiry db c g scopes resources jkt id now access expires db' h =
      elim (Bool-cases (any (λ r. r.id == id) db.access_tokens)) [
        | inl a ↦ absurd (ground arith)
        | inr a ↦ ground arith
      ]

  verified-claims :
      (db : Db) (token : Str) (now : ℕ) (claims : AccessClaims) (v : VerifiedToken)
      → verify token ≡ some claims
      → verify_access_token verify p db token now ≡ some v
      → v.claims ≡ claims
  unfolding verify_access_token
  verified-claims db token now claims v s e =
      elim (Result-cases (oauth_access_token_by_id db claims.id)) [
        | inr (x, b) ↦ absurd (ground arith)
        | inl (row, b) ↦ elim (Result-cases (oauth_grant_by_id db row.grant_id)) [
          | inr (x, d) ↦ absurd (ground arith)
          | inl (g, d) ↦ ground arith
        ]
      ]

  -- If a signature verifies to the claims that were signed and the name of the issuer is not empty, an
  -- access token that was made for one resource with another name than the issuer's authenticates no
  -- request of the host application, by either route, whatever the tables hold then and however the key
  -- of the token is proved.
  pub resolve-foreign_audience :
      (db : Db) (c : Client) (g : OAuthGrant) (scopes : List Str) (resource jkt id : Str) (now : ℕ)
      (access : Str) (expires : ℕ) (db' other : Db) (accounts : Accounts.Db) (dpop : Bool)
      (proof : Proof) (later : ℕ)
      → ((claims : AccessClaims) → verify (sign_access claims) ≡ some claims)
      → mint_access_token sign_access sign_id digest p db c g scopes (resource ∷ []) jkt id now
        ≡ some (access, expires, db')
      → str_beq resource p.issuer ≡ false
      → is_empty p.issuer ≡ false
      → (resolve verify p other accounts access later ≡ none)
        × (resolve_request verify p other accounts access dpop proof later ≡ none)
  unfolding resolve resolve_request authenticate_resource_request audience_of
  resolve-foreign_audience db c g scopes resource jkt id now access expires db' other accounts dpop
        proof later sound h n m =
      let (signed, rows, grants) =
        minted-token db c g scopes (resource ∷ []) jkt id now access expires db' h in
      let claims =
        access_claims sign_access sign_id digest p c g scopes (resource ∷ []) jkt id now in
      let read : verify access ≡ some claims = rw signed (sound claims) in
      elim (Option-cases (verify_access_token verify p other access later)) [
        | inl e ↦ (ground arith, ground arith)
        | inr (v, e) ↦
            let same = verified-claims other access later claims v read e in
            (ground (arith, same), ground (arith, same))
      ]

  -- If a signature verifies to the claims that were signed, an access token that was made with the server
  -- as its audience and bound to no key authenticates the user of its grant, with the user's role then,
  -- until the second in which it ends, in all tables that still hold the row of the token as it was made,
  -- so that it was not revoked, and a grant of that identifier that is not revoked, as long as the user
  -- is not disabled.
  pub mint-resolve :
      (db : Db) (c : Client) (g : OAuthGrant) (scopes resources : List Str) (id : Str) (now : ℕ)
      (access : Str) (expires : ℕ) (db' other : Db) (row : OAuthAccessToken) (kept : OAuthGrant)
      (accounts : Accounts.Db) (user : Str) (u : User) (later : ℕ)
      → ((claims : AccessClaims) → verify (sign_access claims) ≡ some claims)
      → audience_of p resources ≡ p.issuer
      → mint_access_token sign_access sign_id digest p db c g scopes resources [] id now
        ≡ some (access, expires, db')
      → oauth_access_token_by_id db' id ≡ ok row
      → oauth_access_token_by_id other id ≡ ok row
      → oauth_grant_by_id other g.id ≡ ok kept
      → kept.revoked_at ≡ none
      → g.user_id ≡ some user
      → user_by_id accounts user ≡ ok u
      → is_enabled u ≡ true
      → leb (unix expires) (unix later) ≡ false
      → (principal : ResolvedPrincipal) × (resolve verify p other accounts access later
          ≡ some principal)
        × (principal.user ≡ some u)
        × (principal.role ≡ u.role)
  unfolding resolve principal_of_token verify_access_token
  mint-resolve db c g scopes resources id now access expires db' other row kept accounts user u
        later sound own h r t f n o k e l =
      let (signed, rows, grants) =
        minted-token db c g scopes resources [] id now access expires db' h in
      let claims = access_claims sign_access sign_id digest p c g scopes resources [] id now in
      let read : verify access ≡ some claims = rw signed (sound claims) in
      let made : row ≡ access_row sign_access sign_id digest p c g scopes resources [] id now =
        unfold oauth_access_token_by_id find_where in (ground (arith, rows, r, str_beq_refl id)) in
      let ends : expires ≡ now + ttl_of p resources =
        minted-expiry db c g scopes resources [] id now access expires db' h in
      let v : VerifiedToken = record { claims = claims; row = row } in
      let checked : verify_access_token verify p other access later ≡ some v =
        ground (arith, read, made, ends, str_beq_refl p.issuer) in
      (
        record {
          user = some u;
          session = none;
          api_key = none;
          role = u.role;
          method = oauth_method;
          organization = none;
          membership = none;
        },
        ground (arith, checked, own, made, str_beq_refl p.issuer),
        refl,
        refl,
      )
