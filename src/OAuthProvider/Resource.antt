-- ===== src/OAuthProvider/Resource.antt =====
-- plugins/oauthprovider/resource.go: what an access token opens. The verification of a signed token is the
-- parameter `verify`, which gives the claims of a token of type at+jwt whose signature holds; the outcome of
-- `checkDPoP` is an argument.
use auth_all.Prelude.{
  ℕ, Bool, false, ◌&&◌, ◌||◌, not, List, Option, none, some, Str, codes, leb, if◌then◌else◌, ◌==◌,
  str_eq, is_empty, contains,
}
use auth_all.Errors.{ok, err}
use auth_all.Accounts.{User, user_by_id, is_enabled}
use auth_all.Accounts as Accounts
use auth_all.Principals.Types.{ResolvedPrincipal}
use auth_all.OAuthProvider.Rows.{Db, OAuthAccessToken}
use auth_all.OAuthProvider.Store.{
  oauth_access_token_by_id, oauth_grant_by_id, oauth_refresh_token_by_hash, revoke_oauth_grant,
  revoke_oauth_access_token, unset,
}
use auth_all.OAuthProvider.Clients.{
  Provider, Client, Reply, answer, refuse, invalid_token, scope_openid,
}
use auth_all.OAuthProvider.Issue.{AccessClaims, unix}
use auth_all.OAuthProvider.Exchange.{Proof, proves}

pub record VerifiedToken : Type 0 where
  pub claims : AccessClaims
  pub row : OAuthAccessToken

abbrev pub oauth_method : Str
oauth_method = codes "oauthprovider"

module _ (verify : Str → Option AccessClaims) (p : Provider) where
  -- `verifyAccessToken`.
  unfoldable pub verify_access_token : Db → Str → ℕ → Option VerifiedToken
  unfolding oauth_access_token_by_id oauth_grant_by_id
  verify_access_token db token now = elim (verify token) [
    | none ↦ none
    | some claims ↦
        if not (claims.issuer == p.issuer) || leb claims.expiry (unix now)
        then none
        else elim (oauth_access_token_by_id db claims.id) [
          | err e ↦ none
          | ok row ↦
              if not (unset row.revoked_at)
              then none
              else elim (oauth_grant_by_id db row.grant_id) [
                | err e ↦ none
                | ok g ↦
                    if unset g.revoked_at
                    then some (record { claims = claims; row = row })
                    else none
              ]
        ]
  ]

  -- The proof of a token: `dpop` tells the scheme of the request.
  unfoldable pub possession : OAuthAccessToken → Bool → Proof → Bool
  possession row dpop proof =
      if is_empty row.jkt
      then not dpop
      else dpop && elim proof [ proves jkt ↦ jkt == row.jkt | _ ↦ false ]

  -- `authenticateResourceRequest` of a request that carries the token.
  unfoldable pub authenticate_resource_request :
      Db → Str → Bool → Proof → Str → ℕ → Option VerifiedToken
  unfolding verify_access_token possession
  authenticate_resource_request db token dpop proof audience now =
      if is_empty token then none else elim (verify_access_token db token now) [
        | none ↦ none
        | some v ↦
            if not (is_empty audience) && not (v.claims.audience == audience)
            then none
            else if possession v.row dpop proof
            then some v
            else none
      ]

  -- The user of a verified token, for `Resolve` and `ResolveRequest`.
  unfoldable pub principal_of_token : Accounts.Db → VerifiedToken → Option ResolvedPrincipal
  unfolding user_by_id
  principal_of_token accounts v = elim v.row.user_id [
    | none ↦ none
    | some id ↦ elim (user_by_id accounts id) [
      | err e ↦ none
      | ok u ↦
          if is_enabled u
          then some (record {
            user = some u;
            session = none;
            api_key = none;
            role = u.role;
            method = oauth_method;
            organization = none;
            membership = none;
          })
          else none
    ]
  ]

  -- `Resolve`.
  unfoldable pub resolve : Db → Accounts.Db → Str → ℕ → Option ResolvedPrincipal
  unfolding verify_access_token principal_of_token
  resolve db accounts bearer now = elim (verify_access_token db bearer now) [
    | none ↦ none
    | some v ↦
        if v.claims.audience == p.issuer && is_empty v.row.jkt
        then principal_of_token accounts v
        else none
  ]

  -- `ResolveRequest`.
  unfoldable pub resolve_request :
      Db → Accounts.Db → Str → Bool → Proof → ℕ → Option ResolvedPrincipal
  unfolding authenticate_resource_request principal_of_token
  resolve_request db accounts token dpop proof now =
      elim (authenticate_resource_request db token dpop proof p.issuer now) [
        | none ↦ none
        | some v ↦ principal_of_token accounts v
      ]

  -- `handleUserInfo` up to the user whose claims it shows.
  unfoldable pub user_info : Db → Accounts.Db → Str → Bool → Proof → ℕ → Reply (User × List Str)
  unfolding authenticate_resource_request user_by_id
  user_info db accounts token dpop proof now =
      elim (authenticate_resource_request db token dpop proof p.issuer now) [
        | none ↦ refuse invalid_token
        | some v ↦ elim v.row.user_id [
          | none ↦ refuse invalid_token
          | some id ↦
              if not (contains v.row.scopes scope_openid)
              then refuse invalid_token
              else elim (user_by_id accounts id) [
                | err e ↦ refuse invalid_token
                | ok u ↦ answer (u, v.row.scopes)
              ]
        ]
      ]

  -- The tables after `handleRevoke` of an authenticated client; the answer is always the same.
  unfoldable pub handle_revoke : (Str → Str) → Db → Client → Str → ℕ → Db
  unfolding oauth_refresh_token_by_hash revoke_oauth_grant revoke_oauth_access_token
      verify_access_token
  handle_revoke digest db c token now =
      if is_empty token then db else elim (oauth_refresh_token_by_hash db (digest token)) [
        | ok row ↦
            if row.client_id == c.client_id then revoke_oauth_grant db row.grant_id now else db
        | err e ↦ elim (verify_access_token db token now) [
          | none ↦ db
          | some v ↦
              if v.claims.client_id == c.client_id
              then revoke_oauth_access_token db v.claims.id now
              else db
        ]
      ]
