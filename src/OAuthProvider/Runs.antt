-- ===== src/OAuthProvider/Runs.antt =====
-- Any sequence of calls on the authorization server.
use auth_all.Prelude.{
  ℕ, ◌≡◌, inl, inr, Bool, true, false, ◌&&◌, ◌||◌, not, List, [], ◌∷◌, Option, none, some, Str,
  arith, all, any, ◌==◌, str_eq, Bool-cases, Option-cases, codes, contains,
}
use auth_all.Errors.{ok, Result-cases}
use auth_all.Accounts.{User, Session}
use auth_all.OAuthProvider.Rows.{Db, OAuthAuthorizationRequest, OAuthConsent}
use auth_all.OAuthProvider.Store.{
  revoke_oauth_grant, revoke_oauth_grants_of_consent, revoke_oauth_access_token, owned_by,
  delete_expired_oauth_rows, create_oauth_grant, create_oauth_code, create_oauth_request,
  consume_oauth_request, oauth_refresh_token_by_hash, upsert_oauth_consent, delete_oauth_consent,
}
use auth_all.OAuthProvider.Clients.{
  Provider, Client, Uri, Credentials, Reply-cases, match_redirect_uri, lookup_client,
}
use auth_all.OAuthProvider.Issue.{AccessClaims, IdClaims}
use auth_all.OAuthProvider.Exchange.{Form, Fresh, Proof, handle_token}
use auth_all.OAuthProvider.Resource.{handle_revoke, verify_access_token}
use auth_all.OAuthProvider.Authorize.{
  Query, Drawn, Next, accept_request, finish_request, continue_request, approve, handle_decide,
  decide_request, decide_of_client, handle_withdraw_consent, open_request_by_id, check_query,
  new_grant, new_code, new_consent, consent_missing, too_old,
}
use auth_all.OAuthProvider.History.{
  Watch, IsStable, passes, revoke-passes, delete-passes, consume_request-passes,
}
use auth_all.OAuthProvider.Endpoint.{handle_token-passes}

-- A call with what it draws and its time: the authorize route of a signed-in user or of none, a decision,
-- the token endpoint, the revocation of a token by a client, the withdrawal of a consent, the cleanup.
pub data Call : Type 0 where
  authorizes : Query → Str → Option (Session × User) → Drawn → ℕ → Call
  decides : Str → Bool → Option (Session × User) → Str → Drawn → ℕ → Call
  exchanges : Credentials → Form → Proof → Fresh → ℕ → Call
  revokes : Client → Str → ℕ → Call
  withdraws : Str → Str → ℕ → Call
  cleans : ℕ → Call

module _ (parse_uri : Str → Option Uri) (verify : Str → Option AccessClaims)
    (challenge_of : Str → Str) (sign_access : AccessClaims → Str) (sign_id : IdClaims → Str)
    (digest : Str → Str) (p : Provider) where
  -- `handleAuthorize` with the page that follows.
  unfoldable pub continued :
      ((Option (OAuthAuthorizationRequest × Client) × Next) × Db)
      → Option (Session × User)
      → Drawn
      → ℕ
      → Db
  continued ((none, next), db) current drawn now = db
  continued ((some (row, c), next), db) current drawn now =
      (continue_request parse_uri digest p db row c current drawn now).1

  unfoldable pub after : Db → Call → Db
  unfolding continued
  after db (authorizes q id current drawn now) =
      continued (accept_request parse_uri digest p db q id now) current drawn now
  after db (decides id approved current consent_id drawn now) =
      (handle_decide parse_uri digest p db id approved current consent_id drawn now).1
  after db (exchanges call form proof fresh now) =
      (handle_token challenge_of sign_access sign_id digest p db call form proof fresh now).1
  after db (revokes c token now) = handle_revoke verify p digest db c token now
  after db (withdraws user client now) = handle_withdraw_consent db user client now
  after db (cleans before) = delete_expired_oauth_rows db before

  unfoldable pub run : Db → List Call → Db
  unfolding after
  run db [] = db
  run db (c ∷ cs) = run (after db c) cs

  -- The call draws nothing that is watched.
  unfoldable pub is_unwatched : Watch → Call → Bool
  is_unwatched w (authorizes q id current drawn now) =
      not (w.watches_code (digest drawn.code)) && not (w.watches_grant drawn.grant_id)
  is_unwatched w (decides id approved current consent_id drawn now) =
      not (w.watches_code (digest drawn.code)) && not (w.watches_grant drawn.grant_id)
  is_unwatched w (exchanges call form proof fresh now) =
      not (w.watches_token (digest fresh.plaintext)) && not (w.watches_grant fresh.grant_id)
  is_unwatched w _ = true

  module _ (w : Watch) (stable : IsStable w) where
    finish-passes :
        (db : Db) (row : OAuthAuthorizationRequest) (c : Client) (session : Session) (user : User)
        (drawn : Drawn) (now : ℕ)
        → passes w stable db ≡ true
        → w.watches_code (digest drawn.code) ≡ false
        → w.watches_grant drawn.grant_id ≡ false
        → passes w stable (finish_request parse_uri digest p db row c session user drawn now).1
          ≡ true
    unfolding finish_request create_oauth_grant create_oauth_code
    finish-passes db row c session user drawn now h n m =
        elim (Result-cases (consume_oauth_request db row.id now)) [
          | inr (x, e) ↦ ground arith
          | inl ((consumed, db1), e) ↦
              let kept = consume_request-passes w stable db row.id now consumed db1 h e in
              let g = new_grant parse_uri digest p consumed c session user drawn.grant_id now in
              let code = new_code parse_uri digest p consumed c drawn now in
              let g_fine = stable.other_grant g m in
              let code_fine = stable.other_code code n in
              elim (Bool-cases (any (λ r. r.id == g.id) db1.grants)) [
                | inl a ↦ ground arith
                | inr a ↦
                    elim (Bool-cases
                      (any (λ r. r.id == code.id || r.code_hash == code.code_hash) db1.codes)) [
                        | inl b ↦ ground arith
                        | inr b ↦ ground arith
                      ]
              ]
        ]

    continue-passes :
        (db : Db) (row : OAuthAuthorizationRequest) (c : Client) (current : Option (Session × User))
        (drawn : Drawn) (now : ℕ)
        → passes w stable db ≡ true
        → w.watches_code (digest drawn.code) ≡ false
        → w.watches_grant drawn.grant_id ≡ false
        → passes w stable (continue_request parse_uri digest p db row c current drawn now).1 ≡ true
    unfolding continue_request
    continue-passes db row c none drawn now h n m =
        elim (Bool-cases (contains row.prompt (codes "none"))) [ inl a ↦ rw a h | inr a ↦ rw a h ]
    continue-passes db row c (some (session, user)) drawn now h n m =
        let finished = finish-passes db row c session user drawn now h n m in
        elim (Bool-cases (
          contains row.prompt (codes "none")
          && consent_missing parse_uri digest p db row c user.id)) [
            | inl a ↦ rw a h
            | inr a ↦
                elim (Bool-cases (
                  contains row.prompt (codes "login")
                  || too_old parse_uri digest p row session now)) [
                    | inl b ↦ rw (a, b) h
                    | inr b ↦
                        elim (Bool-cases (
                          contains row.prompt (codes "consent")
                          || consent_missing parse_uri digest p db row c user.id)) [
                            | inl d ↦ rw (a, b, d) h
                            | inr d ↦ rw (a, b, d) finished
                          ]
                  ]
          ]

    accept-passes :
        (db : Db) (q : Query) (id : Str) (now : ℕ)
        → passes w stable db ≡ true
        → passes w stable (accept_request parse_uri digest p db q id now).1 ≡ true
    unfolding accept_request create_oauth_request
    accept-passes db q id now h = elim (Option-cases (lookup_client digest p db q.client_id)) [
      | inl e ↦ ground arith
      | inr (c, e) ↦ elim (Option-cases (match_redirect_uri parse_uri c q.redirect_uri)) [
        | inl e' ↦ ground arith
        | inr (matched, e') ↦ elim (Reply-cases (check_query parse_uri digest p c q)) [
          | inr (x, e'') ↦ ground arith
          | inl ((scopes, resources), e'') ↦ elim (Bool-cases (any (λ r. r.id == id) db.requests)) [
            | inl a ↦ ground arith
            | inr a ↦ ground arith
          ]
        ]
      ]
    ]

    continued-passes :
        (o : (Option (OAuthAuthorizationRequest × Client) × Next) × Db)
        (current : Option (Session × User)) (drawn : Drawn) (now : ℕ)
        → passes w stable o.1 ≡ true
        → w.watches_code (digest drawn.code) ≡ false
        → w.watches_grant drawn.grant_id ≡ false
        → passes w stable (continued o current drawn now) ≡ true
    unfolding continued
    continued-passes ((none, next), db) current drawn now h n m = h
    continued-passes ((some (row, c), next), db) current drawn now h n m =
        continue-passes db row c current drawn now h n m

    approve-passes :
        (db : Db) (row : OAuthAuthorizationRequest) (c : Client) (session : Session) (user : User)
        (consent_id : Str) (drawn : Drawn) (now : ℕ)
        → passes w stable db ≡ true
        → w.watches_code (digest drawn.code) ≡ false
        → w.watches_grant drawn.grant_id ≡ false
        → passes w stable (approve parse_uri digest p db row c session user consent_id drawn now).1
          ≡ true
    unfolding approve
    approve-passes db row c session user consent_id drawn now h n m =
        let consent = new_consent parse_uri digest p row c user consent_id now in
        elim (Bool-cases c.is_static) [
          | inl s ↦ rw s (finish-passes db row c session user drawn now h n m)
          | inr s ↦ elim (Result-cases (upsert_oauth_consent db consent)) [
            | inr (x, e) ↦ rw (s, e) h
            | inl (db', e) ↦
                rw (s, e)
                  (finish-passes db' row c session user drawn now (upsert-passes db consent db' h e)
                    n m)
          ]
        ]
      where
        upsert-passes :
            (db : Db) (consent : OAuthConsent) (db' : Db)
            → passes w stable db ≡ true
            → upsert_oauth_consent db consent ≡ ok db'
            → passes w stable db' ≡ true
        upsert-passes db consent db' h e = unfold upsert_oauth_consent in (ground arith)

    client-passes :
        (db : Db) (row : OAuthAuthorizationRequest) (c : Option Client) (approved : Bool)
        (session : Session) (user : User) (consent_id : Str) (drawn : Drawn) (now : ℕ)
        → passes w stable db ≡ true
        → w.watches_code (digest drawn.code) ≡ false
        → w.watches_grant drawn.grant_id ≡ false
        → passes w stable
            (decide_of_client parse_uri digest p db row c approved session user consent_id drawn
              now).1
          ≡ true
    unfolding decide_of_client
    client-passes db row none approved session user consent_id drawn now h n m = h
    client-passes db row (some c) true session user consent_id drawn now h n m =
        approve-passes db row c session user consent_id drawn now h n m
    client-passes db row (some c) false session user consent_id drawn now h n m =
        elim (Result-cases (consume_oauth_request db row.id now)) [
          | inr (x, e) ↦ rw (e, decide_of_client) h
          | inl ((consumed, db'), e) ↦
              rw (e, decide_of_client)
                (consume_request-passes w stable db row.id now consumed db' h e)
        ]

    request-passes :
        (db : Db) (row : Option OAuthAuthorizationRequest) (approved : Bool)
        (current : Option (Session × User)) (consent_id : Str) (drawn : Drawn) (now : ℕ)
        → passes w stable db ≡ true
        → w.watches_code (digest drawn.code) ≡ false
        → w.watches_grant drawn.grant_id ≡ false
        → passes w stable
            (decide_request parse_uri digest p db row approved current consent_id drawn now).1
          ≡ true
    unfolding decide_request
    request-passes db none approved current consent_id drawn now h n m = h
    request-passes db (some row) approved none consent_id drawn now h n m = h
    request-passes db (some row) approved (some (session, user)) consent_id drawn now h n m =
        client-passes db row (lookup_client digest p db row.client_id) approved session user
          consent_id drawn now h n m

    decide-passes :
        (db : Db) (id : Str) (approved : Bool) (current : Option (Session × User))
        (consent_id : Str) (drawn : Drawn) (now : ℕ)
        → passes w stable db ≡ true
        → w.watches_code (digest drawn.code) ≡ false
        → w.watches_grant drawn.grant_id ≡ false
        → passes w stable
            (handle_decide parse_uri digest p db id approved current consent_id drawn now).1
          ≡ true
    decide-passes db id approved current consent_id drawn now h n m =
        unfold handle_decide in
        (request-passes db (open_request_by_id parse_uri digest p db id now) approved current
          consent_id drawn now h n m)

    revoke_token-passes :
        (db : Db) (c : Client) (token : Str) (now : ℕ)
        → passes w stable db ≡ true
        → passes w stable (handle_revoke verify p digest db c token now) ≡ true
    unfolding handle_revoke revoke_oauth_grant revoke_oauth_access_token
    revoke_token-passes db c token now h =
        elim (Result-cases (oauth_refresh_token_by_hash db (digest token))) [
          | inl (row, e) ↦
              let ended = revoke-passes w stable db (λ g. g.id == row.grant_id) now h in
              ground arith
          | inr (x, e) ↦ elim (Option-cases (verify_access_token verify p db token now)) [
            | inl v ↦ ground arith
            | inr (t, v) ↦ ground arith
          ]
        ]

    withdraw-passes :
        (db : Db) (user client : Str) (now : ℕ)
        → passes w stable db ≡ true
        → passes w stable (handle_withdraw_consent db user client now) ≡ true
    unfolding handle_withdraw_consent revoke_oauth_grants_of_consent delete_oauth_consent
    withdraw-passes db user client now h =
        let ended =
          revoke-passes w stable db (λ g. owned_by g.user_id user && g.client_id == client) now h in
        ground arith

    after-passes :
        (db : Db) (c : Call)
        → passes w stable db ≡ true
        → is_unwatched w c ≡ true
        → passes w stable (after db c) ≡ true
    unfolding after is_unwatched
    after-passes db (authorizes q id current drawn now) h n =
        continued-passes (accept_request parse_uri digest p db q id now) current drawn now
          (accept-passes db q id now h) (ground arith) (ground arith)
    after-passes db (decides id approved current consent_id drawn now) h n =
        decide-passes db id approved current consent_id drawn now h (ground arith) (ground arith)
    after-passes db (exchanges call form proof fresh now) h n =
        handle_token-passes w stable challenge_of sign_access sign_id digest p db call form proof
          fresh now h (ground arith) (ground arith)
    after-passes db (revokes c token now) h n = revoke_token-passes db c token now h
    after-passes db (withdraws user client now) h n = withdraw-passes db user client now h
    after-passes db (cleans before) h n = delete-passes w stable db before h

    -- Every row keeps a stable test through any history of calls that draw nothing watched.
    pub run-passes :
        (db : Db) (cs : List Call)
        → passes w stable db ≡ true
        → all (is_unwatched w) cs ≡ true
        → passes w stable (run db cs) ≡ true
    unfolding run
    run-passes db [] h n = h
    run-passes db (c ∷ cs) h n =
        run-passes (after db c) cs (after-passes db c h (ground arith)) (ground arith)
