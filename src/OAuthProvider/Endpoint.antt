-- ===== src/OAuthProvider/Endpoint.antt =====
-- What the token endpoint keeps: the tests of a `Watch`, for rows that are not watched.
use auth_all.Prelude.{
  ℕ, ◌≡◌, inl, inr, true, false, ◌&&◌, ◌||◌, List, [], some, Str, arith, is_empty, contains, any,
  ◌==◌, str_eq, Bool-cases, Option-cases,
}
use auth_all.Errors.{ok, Result-cases}
use auth_all.OAuthProvider.Rows.{Db, OAuthGrant, OAuthRefreshToken}
use auth_all.OAuthProvider.Store.{
  revoke_oauth_grant, create_oauth_grant, create_oauth_refresh_token, create_oauth_access_token,
  consume_oauth_code, oauth_refresh_token_by_hash, oauth_refresh_token_by_id,
  rotate_oauth_refresh_token,
}
use auth_all.OAuthProvider.Clients.{
  Provider, Client, Credentials, Reply, answer, refuse, Reply-cases, authenticate_client,
  grant_authorization_code, grant_refresh_token, grant_client_credentials, scope_offline_access,
}
use auth_all.OAuthProvider.Issue.{
  AccessClaims, IdClaims, mint_access_token, issue_tokens_with_id, refresh_row,
}
use auth_all.OAuthProvider.Exchange.{
  Form, Fresh, Proof, live_grant, check_code, token_from_code, replay_rotation, narrowed, rotate,
  present_rotated, token_from_refresh, client_request, client_grant, jkt_of, is_invalid,
  token_from_client_credentials, token_of_grant, token_of_client, handle_token,
}
use auth_all.OAuthProvider.History.{
  Watch, IsStable, passes, revoke-passes, consume_code-passes, rotate-passes,
}

module _ (w : Watch) (stable : IsStable w) (challenge_of : Str → Str)
    (sign_access : AccessClaims → Str) (sign_id : IdClaims → Str) (digest : Str → Str)
    (p : Provider) where
  mint-passes :
      (db : Db) (c : Client) (g : OAuthGrant) (scopes resources : List Str) (jkt id : Str) (now : ℕ)
      (access : Str) (expires : ℕ) (db' : Db)
      → passes w stable db ≡ true
      → mint_access_token sign_access sign_id digest p db c g scopes resources jkt id now
        ≡ some (access, expires, db')
      → passes w stable db' ≡ true
  unfolding mint_access_token create_oauth_access_token
  mint-passes db c g scopes resources jkt id now access expires db' h e =
      elim (Bool-cases (any (λ r. r.id == id) db.access_tokens)) [
        | inl a ↦ absurd (ground arith)
        | inr a ↦ ground arith
      ]

  refresh-passes :
      (db : Db) (t : OAuthRefreshToken) (db' : Db)
      → passes w stable db ≡ true
      → w.watches_token t.token_hash ≡ false
      → create_oauth_refresh_token db t ≡ ok db'
      → passes w stable db' ≡ true
  unfolding create_oauth_refresh_token
  refresh-passes db t db' h n e = let kept = stable.other_token t n in ground arith

  pub issue-passes :
      (db : Db) (c : Client) (g : OAuthGrant) (scopes resources : List Str)
      (nonce jkt access_id refresh_id plaintext : Str) (now : ℕ)
      → passes w stable db ≡ true
      → w.watches_token (digest plaintext) ≡ false
      → passes w stable
          (issue_tokens_with_id sign_access sign_id digest p db c g scopes resources nonce jkt
            access_id refresh_id plaintext now).1
        ≡ true
  unfolding issue_tokens_with_id
  issue-passes db c g scopes resources nonce jkt access_id refresh_id plaintext now h n =
      elim (Option-cases (
        mint_access_token sign_access sign_id digest p db c g scopes resources jkt access_id now)) [
          | inl e ↦ ground arith
          | inr ((access, expires, db'), e) ↦
              let minted =
                mint-passes db c g scopes resources jkt access_id now access expires db' h e in
              let row =
                refresh_row sign_access sign_id digest p c g scopes resources jkt refresh_id
                  plaintext now in
              elim (Bool-cases (contains scopes scope_offline_access)) [
                | inr o ↦ ground arith
                | inl o ↦ elim (Result-cases (create_oauth_refresh_token db' row)) [
                  | inr (x, f) ↦ ground arith
                  | inl (db'', f) ↦
                      let made = refresh-passes db' row db'' minted n f in ground arith
                ]
              ]
        ]

  replay-passes :
      (db : Db) (c : Client) (successor jkt : Str) (fresh : Fresh) (now : ℕ)
      → passes w stable db ≡ true
      → passes w stable
          (replay_rotation challenge_of sign_access sign_id digest p db c successor jkt fresh now).1
        ≡ true
  unfolding replay_rotation
  replay-passes db c successor jkt fresh now h =
      elim (Result-cases (oauth_refresh_token_by_id db successor)) [
        | inr (x, e) ↦ ground arith
        | inl (t, e) ↦ elim (Reply-cases (live_grant db t.grant_id)) [
          | inr (x, e') ↦ ground arith
          | inl (g, e') ↦
              elim (Option-cases (
                mint_access_token sign_access sign_id digest p db c g t.scopes t.resources jkt
                  fresh.access_id now)) [
                    | inl m ↦ ground arith
                    | inr ((access, expires, db'), m) ↦
                        let minted =
                          mint-passes db c g t.scopes t.resources jkt fresh.access_id now access
                            expires db' h m in
                        ground arith
                  ]
        ]
      ]

  rotation-passes :
      (db : Db) (c : Client) (row : OAuthRefreshToken) (form : Form) (jkt : Str) (fresh : Fresh)
      (now : ℕ)
      → passes w stable db ≡ true
      → w.watches_token (digest fresh.plaintext) ≡ false
      → passes w stable
          (rotate challenge_of sign_access sign_id digest p db c row form jkt fresh now).1
        ≡ true
  unfolding rotate
  rotation-passes db c row form jkt fresh now h n =
      elim (Reply-cases (live_grant db row.grant_id)) [
        | inr (x, e) ↦ ground arith
        | inl (g, e) ↦
            elim (Reply-cases (narrowed challenge_of sign_access sign_id digest p row form)) [
              | inr (x, e') ↦ ground arith
              | inl ((scopes, resources), e') ↦
                  elim (Result-cases (rotate_oauth_refresh_token db row.id fresh.refresh_id now)) [
                    | inr (x, e'') ↦ ground arith
                    | inl (db', e'') ↦
                        let kept =
                          rotate-passes w stable db row.id fresh.refresh_id now db' h e'' in
                        let issued =
                          issue-passes db' c g scopes resources [] jkt fresh.access_id
                            fresh.refresh_id fresh.plaintext now kept n in
                        ground arith
                  ]
            ]
      ]

  present-passes :
      (db : Db) (c : Client) (row : OAuthRefreshToken) (at : ℕ) (jkt : Str) (fresh : Fresh)
      (now : ℕ)
      → passes w stable db ≡ true
      → passes w stable
          (present_rotated challenge_of sign_access sign_id digest p db c row at jkt fresh now).1
        ≡ true
  unfolding present_rotated revoke_oauth_grant
  present-passes db c row at jkt fresh now h =
      let ended = revoke-passes w stable db (λ g. g.id == row.grant_id) now h in
      elim (Option-cases row.successor_id) [
        | inl e ↦ ground arith
        | inr (successor, e) ↦
            let replayed = replay-passes db c successor jkt fresh now h in ground arith
      ]

  pub token_from_refresh-passes :
      (db : Db) (c : Client) (form : Form) (jkt : Str) (fresh : Fresh) (now : ℕ)
      → passes w stable db ≡ true
      → w.watches_token (digest fresh.plaintext) ≡ false
      → passes w stable
          (token_from_refresh challenge_of sign_access sign_id digest p db c form jkt fresh now).1
        ≡ true
  unfolding token_from_refresh revoke_oauth_grant
  token_from_refresh-passes db c form jkt fresh now h n =
      elim (Result-cases (oauth_refresh_token_by_hash db (digest form.refresh_token))) [
        | inr (x, e) ↦ ground arith
        | inl (row, e) ↦
            let ended = revoke-passes w stable db (λ g. g.id == row.grant_id) now h in
            elim (Option-cases row.rotated_at) [
              | inl r ↦
                  let rotated = rotation-passes db c row form jkt fresh now h n in ground arith
              | inr (at, r) ↦
                  let presented = present-passes db c row at jkt fresh now h in ground arith
            ]
      ]

  token_from_code-passes :
      (db : Db) (c : Client) (form : Form) (jkt : Str) (fresh : Fresh) (now : ℕ)
      → passes w stable db ≡ true
      → w.watches_token (digest fresh.plaintext) ≡ false
      → passes w stable
          (token_from_code challenge_of sign_access sign_id digest p db c form jkt fresh now).1
        ≡ true
  unfolding token_from_code revoke_oauth_grant
  token_from_code-passes db c form jkt fresh now h n =
      elim (Result-cases (consume_oauth_code db (digest form.code) now)) [
        | inr (x, e) ↦ ground arith
        | inl ((row, db'), e) ↦
            let kept = consume_code-passes w stable db (digest form.code) now row db' h e in
            let ended = revoke-passes w stable db' (λ g. g.id == row.grant_id) now kept in
            elim (Reply-cases
              (check_code challenge_of sign_access sign_id digest p db' row form jkt)) [
                | inr (x, e') ↦ ground arith
                | inl (g, e') ↦
                    let issued =
                      issue-passes db' c g row.scopes row.resources row.nonce jkt fresh.access_id
                        fresh.refresh_id fresh.plaintext now kept n in
                    ground arith
              ]
      ]

  grant-passes :
      (db : Db) (g : OAuthGrant) (db' : Db)
      → passes w stable db ≡ true
      → w.watches_grant g.id ≡ false
      → create_oauth_grant db g ≡ ok db'
      → passes w stable db' ≡ true
  unfolding create_oauth_grant
  grant-passes db g db' h n e = let kept = stable.other_grant g n in ground arith

  token_from_client_credentials-passes :
      (db : Db) (c : Client) (form : Form) (jkt : Str) (fresh : Fresh) (now : ℕ)
      → passes w stable db ≡ true
      → w.watches_grant fresh.grant_id ≡ false
      → passes w stable
          (token_from_client_credentials challenge_of sign_access sign_id digest p db c form jkt
            fresh now).1
        ≡ true
  unfolding token_from_client_credentials
  token_from_client_credentials-passes db c form jkt fresh now h n =
      elim (Reply-cases (client_request challenge_of sign_access sign_id digest p c form)) [
        | inr (x, e) ↦ ground arith
        | inl ((scopes, resources), e) ↦
            let g =
              client_grant challenge_of sign_access sign_id digest p c scopes resources
                fresh.grant_id now in
            elim (Result-cases (create_oauth_grant db g)) [
              | inr (x, e') ↦ ground arith
              | inl (db', e') ↦
                  let made = grant-passes db g db' h n e' in
                  elim (Option-cases (
                    mint_access_token sign_access sign_id digest p db' c g scopes resources jkt
                      fresh.access_id now)) [
                        | inl m ↦ ground arith
                        | inr ((access, expires, db''), m) ↦
                            let minted =
                              mint-passes db' c g scopes resources jkt fresh.access_id now access
                                expires db'' made m in
                            ground arith
                      ]
            ]
      ]

  token_of_grant-passes :
      (db : Db) (c : Client) (form : Form) (jkt : Str) (fresh : Fresh) (now : ℕ)
      → passes w stable db ≡ true
      → w.watches_token (digest fresh.plaintext) ≡ false
      → w.watches_grant fresh.grant_id ≡ false
      → passes w stable
          (token_of_grant challenge_of sign_access sign_id digest p db c form jkt fresh now).1
        ≡ true
  token_of_grant-passes db c form jkt fresh now h n m =
      elim (Bool-cases (form.grant_type == grant_authorization_code)) [
        | inl a ↦
            unfold token_of_grant in (rw a (token_from_code-passes db c form jkt fresh now h n))
        | inr a ↦ elim (Bool-cases (form.grant_type == grant_refresh_token)) [
          | inl b ↦
              unfold token_of_grant in
              (rw (a, b) (token_from_refresh-passes db c form jkt fresh now h n))
          | inr b ↦ elim (Bool-cases (form.grant_type == grant_client_credentials)) [
            | inl d ↦
                unfold token_of_grant in
                (rw (a, b, d) (token_from_client_credentials-passes db c form jkt fresh now h m))
            | inr d ↦ unfold token_of_grant in (rw (a, b, d) h)
          ]
        ]
      ]

  token_of_client-passes :
      (db : Db) (c : Reply Client) (form : Form) (proof : Proof) (fresh : Fresh) (now : ℕ)
      → passes w stable db ≡ true
      → w.watches_token (digest fresh.plaintext) ≡ false
      → w.watches_grant fresh.grant_id ≡ false
      → passes w stable
          (token_of_client challenge_of sign_access sign_id digest p db c form proof fresh now).1
        ≡ true
  token_of_client-passes db (refuse e) form proof fresh now h n m = unfold token_of_client in h
  token_of_client-passes db (answer c) form proof fresh now h n m =
      let jkt = jkt_of challenge_of sign_access sign_id digest p proof in
      elim (Bool-cases (
        is_invalid challenge_of sign_access sign_id digest p proof
        || (c.dpop_required && is_empty jkt))) [
          | inl i ↦ unfold token_of_client in (rw i h)
          | inr i ↦
              unfold token_of_client in (rw i (token_of_grant-passes db c form jkt fresh now h n m))
        ]

  -- The token endpoint keeps the tests if it draws nothing that is watched.
  pub handle_token-passes :
      (db : Db) (call : Credentials) (form : Form) (proof : Proof) (fresh : Fresh) (now : ℕ)
      → passes w stable db ≡ true
      → w.watches_token (digest fresh.plaintext) ≡ false
      → w.watches_grant fresh.grant_id ≡ false
      → passes w stable
          (handle_token challenge_of sign_access sign_id digest p db call form proof fresh now).1
        ≡ true
  handle_token-passes db call form proof fresh now h n m =
      unfold handle_token in
      (token_of_client-passes db (authenticate_client digest p db call) form proof fresh now h n m)
