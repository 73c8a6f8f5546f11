-- ===== src/OAuthProvider/Issue.antt =====
-- plugins/oauthprovider/token.go: how the tokens of a grant are made. The signatures of package jws are the
-- parameters `sign_access` and `sign_id`, SHA-256 is `digest`; the identifiers of new rows, the plaintext of
-- a refresh token and the clock are arguments. Times are in nanoseconds, a claim has seconds.
use auth_all.Prelude.{
  ℕ, ◌+◌, ◌-◌, ◌/◌, List, [], ◌∷◌, Option, none, some, Str, codes, ltb, if◌then◌else◌, ◌==◌, str_eq,
  is_empty, contains, find_where,
}
use auth_all.Errors.{ok, err}
use auth_all.Strings.{join}
use auth_all.Strings.Fields.{space}
use auth_all.OAuthProvider.Rows.{Db, OAuthGrant, OAuthAccessToken, OAuthRefreshToken}
use auth_all.OAuthProvider.Store.{create_oauth_access_token, create_oauth_refresh_token}
use auth_all.OAuthProvider.Clients.{
  Provider, Client, Reply, answer, refuse, server_error, scope_offline_access, scope_openid,
}

pub record AccessClaims : Type 0 where
  pub issuer : Str
  pub subject : Str
  pub audience : Str
  pub client_id : Str
  pub scope : Str
  pub issued_at : ℕ
  pub expiry : ℕ
  pub id : Str
  pub auth_time : ℕ
  pub confirm_jkt : Str
  pub grant_id : Str

pub record IdClaims : Type 0 where
  pub issuer : Str
  pub subject : Str
  pub audience : Str
  pub issued_at : ℕ
  pub expiry : ℕ
  pub auth_time : ℕ
  pub nonce : Str

pub record TokenResponse : Type 0 where
  pub access_token : Str
  pub token_type : Str
  pub expires_in : ℕ
  pub refresh_token : Option Str
  pub id_token : Option Str
  pub scope : Str

-- `Unix` of a time.
abbrev pub unix : ℕ → ℕ
unix t = t / 1000000000

unfoldable pub token_type : Str → Str
token_type jkt = if is_empty jkt then codes "Bearer" else codes "DPoP"

-- The audience of a token: the one named resource, or the issuer.
unfoldable pub audience_of : Provider → List Str → Str
audience_of p (resource ∷ []) = resource
audience_of p _ = p.issuer

unfoldable pub ttl_of : Provider → List Str → ℕ
ttl_of p (resource ∷ []) = elim (find_where (λ r. r.identifier == resource) p.resources) [
  | none ↦ p.access_token_ttl
  | some r ↦ if ltb 0 r.access_token_ttl then r.access_token_ttl else p.access_token_ttl
]
ttl_of p _ = p.access_token_ttl

abbrev auth_seconds : OAuthGrant → ℕ
auth_seconds g = elim g.auth_time [ none ↦ 0 | some t ↦ unix t ]

module _ (sign_access : AccessClaims → Str) (sign_id : IdClaims → Str) (digest : Str → Str)
    (p : Provider) where
  abbrev pub access_row :
      Client → OAuthGrant → List Str → List Str → Str → Str → ℕ → OAuthAccessToken
  access_row c g scopes resources jkt id now = record {
    id = id;
    grant_id = g.id;
    client_id = c.client_id;
    user_id = g.user_id;
    scopes = scopes;
    audience = audience_of p resources;
    jkt = jkt;
    created_at = now;
    expires_at = now + ttl_of p resources;
    revoked_at = none;
  }

  abbrev pub access_claims :
      Client → OAuthGrant → List Str → List Str → Str → Str → ℕ → AccessClaims
  access_claims c g scopes resources jkt id now = record {
    issuer = p.issuer;
    subject = elim g.user_id [ none ↦ c.client_id | some user ↦ user ];
    audience = audience_of p resources;
    client_id = c.client_id;
    scope = join scopes space;
    issued_at = unix now;
    expiry = unix (now + ttl_of p resources);
    id = id;
    auth_time = auth_seconds g;
    confirm_jkt = jkt;
    grant_id = g.id;
  }

  -- `mintAccessToken`: the token, its end, and the tables.
  unfoldable pub mint_access_token :
      Db → Client → OAuthGrant → List Str → List Str → Str → Str → ℕ → Option (Str × ℕ × Db)
  unfolding audience_of ttl_of create_oauth_access_token
  mint_access_token db c g scopes resources jkt id now =
      elim (create_oauth_access_token db (access_row c g scopes resources jkt id now)) [
        | err e ↦ none
        | ok db' ↦ some (
          sign_access (access_claims c g scopes resources jkt id now),
          now + ttl_of p resources,
          db',
        )
      ]

  -- `mintIDToken` of a grant of the user.
  abbrev pub mint_id_token : Client → OAuthGrant → Str → Str → ℕ → Str
  mint_id_token c g user nonce now = sign_id (record {
    issuer = p.issuer;
    subject = user;
    audience = c.client_id;
    issued_at = unix now;
    expiry = unix (now + p.access_token_ttl);
    auth_time = auth_seconds g;
    nonce = nonce;
  })

  abbrev pub refresh_row :
      Client → OAuthGrant → List Str → List Str → Str → Str → Str → ℕ → OAuthRefreshToken
  refresh_row c g scopes resources jkt id plaintext now = record {
    id = id;
    token_hash = digest plaintext;
    grant_id = g.id;
    client_id = c.client_id;
    user_id = g.user_id;
    scopes = scopes;
    resources = resources;
    jkt = jkt;
    created_at = now;
    expires_at = now + p.refresh_token_ttl;
    rotated_at = none;
    successor_id = none;
    revoked_at = none;
  }

  abbrev pub response : Str → List Str → Str → ℕ → ℕ → TokenResponse
  response jkt scopes access expires now = record {
    access_token = access;
    token_type = token_type jkt;
    expires_in = (expires - now) / 1000000000;
    refresh_token = none;
    id_token = none;
    scope = join scopes space;
  }

  abbrev pub id_token_for : Client → OAuthGrant → List Str → Str → ℕ → Option Str
  id_token_for c g scopes nonce now = elim g.user_id [
    | none ↦ none
    | some user ↦
        if contains scopes scope_openid then some (mint_id_token c g user nonce now) else none
  ]

  -- `issueTokensWithID`. The access token stays in its table when the refresh token is refused.
  unfoldable pub issue_tokens_with_id :
      Db
      → Client
      → OAuthGrant
      → List Str
      → List Str
      → Str
      → Str
      → Str
      → Str
      → Str
      → ℕ
      → Reply TokenResponse × Db
  unfolding mint_access_token token_type create_oauth_refresh_token
  issue_tokens_with_id db c g scopes resources nonce jkt access_id refresh_id plaintext now =
      elim (mint_access_token db c g scopes resources jkt access_id now) [
        | none ↦ (refuse server_error, db)
        | some (access, expires, db') ↦
            let out = record (response jkt scopes access expires now) {
              id_token = id_token_for c g scopes nonce now;
            } in
            if contains scopes scope_offline_access
            then elim (create_oauth_refresh_token db'
                (refresh_row c g scopes resources jkt refresh_id plaintext now)) [
                  | err e ↦ (refuse server_error, db')
                  | ok db'' ↦ (answer (record out { refresh_token = some plaintext }), db'')
                ]
            else (answer out, db')
      ]
