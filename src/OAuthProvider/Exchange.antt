-- ===== src/OAuthProvider/Exchange.antt =====
-- plugins/oauthprovider/token.go: the token endpoint. The challenge of a PKCE verifier (the encoded SHA-256)
-- is the parameter `challenge_of`; the outcome of `checkDPoP` is an argument.
use auth_all.Prelude.{
  ℕ, ◌+◌, Bool, true, false, ◌&&◌, ◌||◌, not, List, [], none, some, Str, ltb, if◌then◌else◌, ◌==◌,
  str_eq, is_empty, contains,
}
use auth_all.Errors.{ok, err}
use auth_all.Strings.{fields}
use auth_all.OAuthProvider.Rows.{Db, OAuthGrant, OAuthCode, OAuthRefreshToken}
use auth_all.OAuthProvider.Store.{
  consume_oauth_code, revoke_oauth_grant, oauth_grant_by_id, create_oauth_grant,
  oauth_refresh_token_by_hash, oauth_refresh_token_by_id, rotate_oauth_refresh_token, unset,
}
use auth_all.OAuthProvider.Clients.{
  Provider, Client, Credentials, Reply, answer, refuse, demand, ◌>>◌, invalid_request,
  invalid_grant, unauthorized_client, unsupported_grant_type, invalid_scope, invalid_target,
  server_error, invalid_dpop_proof, invalid_client, allows_grant, authenticate_client,
  requested_scopes, requested_resources, covers_all, auth_none, grant_authorization_code,
  grant_refresh_token, grant_client_credentials, scope_openid, scope_offline_access,
}
use auth_all.OAuthProvider.Issue.{
  AccessClaims, IdClaims, TokenResponse, response, mint_access_token, issue_tokens_with_id,
}

-- The form of the call, with an empty text for an absent field.
pub record Form : Type 0 where
  pub grant_type : Str
  pub code : Str
  pub code_verifier : Str
  pub redirect_uri : Str
  pub refresh_token : Str
  pub scope : Str
  pub resource : List Str

-- What the call draws: the identifiers of the rows and the plaintext of the refresh token.
pub record Fresh : Type 0 where
  pub access_id : Str
  pub refresh_id : Str
  pub grant_id : Str
  pub plaintext : Str

pub data Proof : Type 0 where
  no_proof invalid_proof : Proof
  proves : Str → Proof

-- The live grant of a row.
unfoldable pub live_grant : Db → Str → Reply OAuthGrant
unfolding oauth_grant_by_id
live_grant db id = elim (oauth_grant_by_id db id) [
  | err e ↦ refuse invalid_grant
  | ok g ↦ if unset g.revoked_at then answer g else refuse invalid_grant
]

abbrev pub binds : Str → Str → Bool
binds jkt presented = is_empty jkt || jkt == presented

module _ (challenge_of : Str → Str) (sign_access : AccessClaims → Str) (sign_id : IdClaims → Str)
    (digest : Str → Str) (p : Provider) where
  -- The tests of a consumed code that belongs to the client.
  unfoldable pub check_code : Db → OAuthCode → Form → Str → Reply OAuthGrant
  unfolding live_grant
  check_code db row form jkt = do
    demand (form.redirect_uri == row.redirect_uri) invalid_grant
    demand (challenge_of form.code_verifier == row.code_challenge) invalid_grant
    demand (binds row.dpop_jkt jkt) invalid_dpop_proof
    live_grant db row.grant_id

  -- `tokenFromCode`.
  unfoldable pub token_from_code : Db → Client → Form → Str → Fresh → ℕ → Reply TokenResponse × Db
  unfolding allows_grant consume_oauth_code revoke_oauth_grant check_code issue_tokens_with_id
  token_from_code db c form jkt fresh now =
      if not (allows_grant c grant_authorization_code)
      then (refuse unauthorized_client, db)
      else if is_empty form.code || is_empty form.code_verifier
      then (refuse invalid_request, db)
      else elim (consume_oauth_code db (digest form.code) now) [
        | err e ↦ (refuse invalid_grant, db)
        | ok (row, db') ↦
            if not (row.client_id == c.client_id)
            then (refuse invalid_grant, revoke_oauth_grant db' row.grant_id now)
            else elim (check_code db' row form jkt) [
              | refuse e ↦ (refuse e, db')
              | answer g ↦
                  issue_tokens_with_id sign_access sign_id digest p db' c g row.scopes row.resources
                    row.nonce jkt fresh.access_id fresh.refresh_id fresh.plaintext now
            ]
      ]

  -- `replayRotation`.
  unfoldable pub replay_rotation : Db → Client → Str → Str → Fresh → ℕ → Reply TokenResponse × Db
  unfolding oauth_refresh_token_by_id live_grant mint_access_token
  replay_rotation db c successor_id jkt fresh now =
      elim (oauth_refresh_token_by_id db successor_id) [
        | err e ↦ (refuse invalid_grant, db)
        | ok successor ↦
            if not (unset successor.revoked_at)
            then (refuse invalid_grant, db)
            else elim (live_grant db successor.grant_id) [
              | refuse e ↦ (refuse e, db)
              | answer g ↦
                  elim (mint_access_token sign_access sign_id digest p db c g successor.scopes
                    successor.resources jkt fresh.access_id now) [
                      | none ↦ (refuse server_error, db)
                      | some (access, expires, db') ↦ (
                        answer (
                            response sign_access sign_id digest p jkt successor.scopes access
                              expires now),
                        db',
                      )
                    ]
            ]
      ]

  -- The scopes and the resources of a refresh.
  unfoldable pub narrowed : OAuthRefreshToken → Form → Reply (List Str × List Str)
  unfolding covers_all requested_resources
  narrowed row form =
      let wanted = (if is_empty form.scope then row.scopes else fields form.scope) in
      if not (is_empty form.scope) && not (covers_all row.scopes wanted)
      then refuse invalid_scope
      else if is_empty form.resource
      then answer (wanted, row.resources)
      else elim (requested_resources p form.resource wanted) [
        | none ↦ refuse invalid_target
        | some resources ↦
            if covers_all row.resources resources
            then answer (wanted, resources)
            else refuse invalid_target
      ]

  -- The part of `tokenFromRefresh` for a token that was not rotated.
  unfoldable pub rotate :
      Db → Client → OAuthRefreshToken → Form → Str → Fresh → ℕ → Reply TokenResponse × Db
  unfolding live_grant narrowed rotate_oauth_refresh_token issue_tokens_with_id
  rotate db c row form jkt fresh now = elim (live_grant db row.grant_id) [
    | refuse e ↦ (refuse e, db)
    | answer g ↦ elim (narrowed row form) [
      | refuse e ↦ (refuse e, db)
      | answer (scopes, resources) ↦
          elim (rotate_oauth_refresh_token db row.id fresh.refresh_id now) [
            | err e ↦ (refuse invalid_grant, db)
            | ok db' ↦
                issue_tokens_with_id sign_access sign_id digest p db' c g scopes resources [] jkt
                  fresh.access_id fresh.refresh_id fresh.plaintext now
          ]
    ]
  ]

  -- A token that was rotated: a retry in the grace window, or a replay.
  unfoldable pub present_rotated :
      Db → Client → OAuthRefreshToken → ℕ → Str → Fresh → ℕ → Reply TokenResponse × Db
  unfolding revoke_oauth_grant replay_rotation
  present_rotated db c row at jkt fresh now = elim row.successor_id [
    | none ↦ (refuse invalid_grant, revoke_oauth_grant db row.grant_id now)
    | some successor ↦
        if ltb (at + p.rotation_grace) now
        then (refuse invalid_grant, revoke_oauth_grant db row.grant_id now)
        else replay_rotation db c successor jkt fresh now
  ]

  -- `tokenFromRefresh`.
  unfoldable pub token_from_refresh :
      Db → Client → Form → Str → Fresh → ℕ → Reply TokenResponse × Db
  unfolding allows_grant oauth_refresh_token_by_hash revoke_oauth_grant rotate present_rotated
  token_from_refresh db c form jkt fresh now =
      if not (allows_grant c grant_refresh_token)
      then (refuse unauthorized_client, db)
      else if is_empty form.refresh_token
      then (refuse invalid_request, db)
      else elim (oauth_refresh_token_by_hash db (digest form.refresh_token)) [
        | err e ↦ (refuse invalid_grant, db)
        | ok row ↦
            if not (row.client_id == c.client_id)
            then (refuse invalid_grant, revoke_oauth_grant db row.grant_id now)
            else if not (unset row.revoked_at) || not (ltb now row.expires_at)
            then (refuse invalid_grant, db)
            else if not (binds row.jkt jkt)
            then (refuse invalid_dpop_proof, db)
            else elim row.rotated_at [
              | none ↦ rotate db c row form jkt fresh now
              | some at ↦ present_rotated db c row at jkt fresh now
            ]
      ]

  -- The scopes and the resources of `tokenFromClientCredentials`.
  unfoldable pub client_request : Client → Form → Reply (List Str × List Str)
  unfolding allows_grant requested_scopes requested_resources
  client_request c form = do
    demand (allows_grant c grant_client_credentials) unauthorized_client
    demand (not (c.auth_method == auth_none)) invalid_client
    elim (requested_scopes p form.scope c) [
      | none ↦ refuse invalid_scope
      | some scopes ↦
          if contains scopes scope_openid || contains scopes scope_offline_access
          then refuse invalid_scope
          else elim (requested_resources p form.resource scopes) [
            | none ↦ refuse invalid_target
            | some resources ↦ answer (scopes, resources)
          ]
    ]

  abbrev pub client_grant : Client → List Str → List Str → Str → ℕ → OAuthGrant
  client_grant c scopes resources id now = record {
    id = id;
    client_id = c.client_id;
    user_id = none;
    scopes = scopes;
    resources = resources;
    auth_time = none;
    session_id = none;
    created_at = now;
    revoked_at = none;
  }

  -- `tokenFromClientCredentials`.
  unfoldable pub token_from_client_credentials :
      Db → Client → Form → Str → Fresh → ℕ → Reply TokenResponse × Db
  unfolding client_request create_oauth_grant mint_access_token
  token_from_client_credentials db c form jkt fresh now = elim (client_request c form) [
    | refuse e ↦ (refuse e, db)
    | answer (scopes, resources) ↦
        let g = client_grant c scopes resources fresh.grant_id now in
        elim (create_oauth_grant db g) [
          | err e ↦ (refuse server_error, db)
          | ok db' ↦
              elim (mint_access_token sign_access sign_id digest p db' c g scopes resources jkt
                fresh.access_id now) [
                  | none ↦ (refuse server_error, db')
                  | some (access, expires, db'') ↦ (
                    answer (response sign_access sign_id digest p jkt scopes access expires now),
                    db'',
                  )
                ]
        ]
  ]

  -- The dispatch of `handleToken` on the grant type.
  unfoldable pub token_of_grant : Db → Client → Form → Str → Fresh → ℕ → Reply TokenResponse × Db
  unfolding token_from_code token_from_refresh token_from_client_credentials
  token_of_grant db c form jkt fresh now =
      if form.grant_type == grant_authorization_code
      then token_from_code db c form jkt fresh now
      else if form.grant_type == grant_refresh_token
      then token_from_refresh db c form jkt fresh now
      else if form.grant_type == grant_client_credentials
      then token_from_client_credentials db c form jkt fresh now
      else (refuse unsupported_grant_type, db)

  abbrev pub jkt_of : Proof → Str
  jkt_of (proves jkt) = jkt
  jkt_of _ = []

  abbrev pub is_invalid : Proof → Bool
  is_invalid invalid_proof = true
  is_invalid _ = false

  -- The part of `handleToken` after the authentication of the client.
  unfoldable pub token_of_client :
      Db → Reply Client → Form → Proof → Fresh → ℕ → Reply TokenResponse × Db
  unfolding token_of_grant
  token_of_client db (refuse e) form proof fresh now = (refuse e, db)
  token_of_client db (answer c) form proof fresh now =
      if is_invalid proof || (c.dpop_required && is_empty (jkt_of proof))
      then (refuse invalid_dpop_proof, db)
      else token_of_grant db c form (jkt_of proof) fresh now

  -- `handleToken` of a readable form.
  unfoldable pub handle_token :
      Db → Credentials → Form → Proof → Fresh → ℕ → Reply TokenResponse × Db
  unfolding authenticate_client token_of_client
  handle_token db call form proof fresh now =
      token_of_client db (authenticate_client digest p db call) form proof fresh now
