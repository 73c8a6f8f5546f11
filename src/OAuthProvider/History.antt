-- ===== src/OAuthProvider/History.antt =====
-- Any sequence of calls on the authorization server, and what every row keeps through it.
use auth_all.Prelude.{
  ℕ, ◌≡◌, Bool, true, false, ◌&&◌, some, Str, arith, ltb, str_eq, all, all-update_where,
  all-delete_where,
}
use auth_all.Errors.{ok}
use auth_all.OAuthProvider.Rows.{
  Db, OAuthGrant, OAuthCode, OAuthRefreshToken, OAuthAuthorizationRequest,
}
use auth_all.OAuthProvider.Store.{
  revoke_grant_rows, delete_expired_oauth_rows, consume_oauth_code, consume_oauth_request,
  rotate_oauth_refresh_token, unset, selects, open_code, rotatable,
}

-- A test for each row of three tables, with the digests and identifiers that it watches.
pub record Watch : Type 0 where
  pub watches_code : Str → Bool
  pub watches_token : Str → Bool
  pub watches_grant : Str → Bool
  pub code_test : OAuthCode → Bool
  pub token_test : OAuthRefreshToken → Bool
  pub grant_test : OAuthGrant → Bool

-- The updates of the statements keep the tests, and a row that is not watched passes them.
pub record IsStable (w : Watch) : Type 0 where
  pub consumed :
      (c : OAuthCode) (at : ℕ)
      → w.code_test c ≡ true
      → w.code_test (record c { consumed_at = some at }) ≡ true
  pub rotated :
      (t : OAuthRefreshToken) (id : Str) (at : ℕ)
      → w.token_test t ≡ true
      → w.token_test (record t { rotated_at = some at; successor_id = some id }) ≡ true
  pub revoked :
      (t : OAuthRefreshToken) (at : ℕ)
      → w.token_test t ≡ true
      → w.token_test (record t { revoked_at = some at }) ≡ true
  pub ended :
      (g : OAuthGrant) (at : ℕ)
      → w.grant_test g ≡ true
      → w.grant_test (record g { revoked_at = some at }) ≡ true
  pub other_code : (c : OAuthCode) → w.watches_code c.code_hash ≡ false → w.code_test c ≡ true
  pub other_token :
      (t : OAuthRefreshToken) → w.watches_token t.token_hash ≡ false → w.token_test t ≡ true
  pub other_grant : (g : OAuthGrant) → w.watches_grant g.id ≡ false → w.grant_test g ≡ true

module _ (w : Watch) (stable : IsStable w) where
  abbrev pub passes : Db → Bool
  passes db =
      all w.code_test db.codes && (all w.token_test db.refresh_tokens && all w.grant_test db.grants)

  pub revoke-passes :
      (db : Db) (p : OAuthGrant → Bool) (at : ℕ)
      → passes db ≡ true
      → passes (revoke_grant_rows db p at) ≡ true
  unfolding revoke_grant_rows
  revoke-passes db p at h = ground (
    arith,
    all-update_where w.token_test (λ t. unset t.revoked_at && selects p db.grants t.grant_id)
        (λ t. record t { revoked_at = some at }) db.refresh_tokens (λ t. stable.revoked t at),
    all-update_where w.grant_test (λ g. unset g.revoked_at && p g)
        (λ g. record g { revoked_at = some at }) db.grants (λ g. stable.ended g at),
  )

  pub delete-passes :
      (db : Db) (before : ℕ)
      → passes db ≡ true
      → passes (delete_expired_oauth_rows db before) ≡ true
  unfolding delete_expired_oauth_rows
  delete-passes db before h = ground (
    arith,
    all-delete_where w.code_test (λ c. ltb c.expires_at before) db.codes,
    all-delete_where w.token_test (λ t. ltb t.expires_at before) db.refresh_tokens,
  )

  pub consume_code-passes :
      (db : Db) (hash : Str) (now : ℕ) (c : OAuthCode) (db' : Db)
      → passes db ≡ true
      → consume_oauth_code db hash now ≡ ok (c, db')
      → passes db' ≡ true
  unfolding consume_oauth_code
  consume_code-passes db hash now c db' h e =
      let kept =
        all-update_where w.code_test (open_code hash now) (λ c. record c { consumed_at = some now })
          db.codes (λ c. stable.consumed c now) in
      ground arith

  pub consume_request-passes :
      (db : Db) (id : Str) (now : ℕ) (r : OAuthAuthorizationRequest) (db' : Db)
      → passes db ≡ true
      → consume_oauth_request db id now ≡ ok (r, db')
      → passes db' ≡ true
  unfolding consume_oauth_request
  consume_request-passes db id now r db' h e = ground arith

  pub rotate-passes :
      (db : Db) (id successor : Str) (now : ℕ) (db' : Db)
      → passes db ≡ true
      → rotate_oauth_refresh_token db id successor now ≡ ok db'
      → passes db' ≡ true
  unfolding rotate_oauth_refresh_token
  rotate-passes db id successor now db' h e =
      let kept =
        all-update_where w.token_test (rotatable id)
          (λ t. record t { rotated_at = some now; successor_id = some successor }) db.refresh_tokens
          (λ t. stable.rotated t successor now) in
      ground arith
