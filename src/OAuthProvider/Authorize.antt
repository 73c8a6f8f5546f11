-- ===== src/OAuthProvider/Authorize.antt =====
-- plugins/oauthprovider/authorize.go and pages.go: the authorization request, the decision of the user, and
-- the withdrawal of a consent. The parser of net/url is the parameter `parse_uri`; a redirect is its target
-- with the values to add. The identifiers and the plaintext of a code are arguments.
use auth_all.Prelude.{
  ℕ, ◌+◌, ◌*◌, Bool, true, false, ◌&&◌, ◌||◌, not, List, Option, none, some, Str, codes, ltb,
  if◌then◌else◌, ◌==◌, str_eq, is_empty, contains,
}
use auth_all.Errors.{ok, err}
use auth_all.Strings.{fields}
use auth_all.Accounts.{User, Session}
use auth_all.OAuthProvider.Rows.{Db, OAuthAuthorizationRequest, OAuthGrant, OAuthCode, OAuthConsent}
use auth_all.OAuthProvider.Store.{
  create_oauth_request, oauth_request_by_id, consume_oauth_request, create_oauth_grant,
  create_oauth_code, oauth_consent, upsert_oauth_consent, delete_oauth_consent,
  revoke_oauth_grants_of_consent, unset,
}
use auth_all.OAuthProvider.Clients.{
  Provider, Client, Uri, Reply, answer, refuse, demand, ◌>>◌, OAuthError, invalid_request,
  invalid_client, unauthorized_client, unsupported_response, invalid_scope, invalid_target,
  server_error, access_denied, login_required, consent_required, lookup_client, match_redirect_uri,
  allows_grant, grant_authorization_code, requested_scopes, requested_resources, covers_all,
}

-- The query of the authorize call, with an empty text for an absent value; `max_age` is `none` where the
-- number is not a whole one.
pub record Query : Type 0 where
  pub client_id : Str
  pub redirect_uri : Str
  pub response_type : Str
  pub request : Str
  pub request_uri : Str
  pub code_challenge : Str
  pub code_challenge_method : Str
  pub scope : Str
  pub resource : List Str
  pub state : Str
  pub nonce : Str
  pub prompt : Str
  pub has_max_age : Bool
  pub max_age : Option ℕ
  pub dpop_jkt : Str

-- Where the browser goes.
pub data Next : Type 0 where
  login_page consent_page : Str → Next
  back_with_code : Str → Str → Str → Next
  back_with_error : Str → Str → OAuthError → Next
  -- an error of the server's own, without a redirect
  plain_error : OAuthError → Next

-- What the completion draws.
pub record Drawn : Type 0 where
  pub grant_id : Str
  pub code_id : Str
  pub code : Str

module _ (parse_uri : Str → Option Uri) (digest : Str → Str) (p : Provider) where
  -- The tests of `handleAuthorize` after the redirect URI.
  unfoldable pub check_query : Client → Query → Reply (List Str × List Str)
  unfolding allows_grant requested_scopes requested_resources
  check_query c q = do
    demand (allows_grant c grant_authorization_code) unauthorized_client
    demand (q.response_type == codes "code") unsupported_response
    demand (is_empty q.request && is_empty q.request_uri) invalid_request
    demand (not (is_empty q.code_challenge)) invalid_request
    demand (q.code_challenge_method == codes "S256") invalid_request
    elim (requested_scopes p q.scope c) [
      | none ↦ refuse invalid_scope
      | some scopes ↦ elim (requested_resources p q.resource scopes) [
        | none ↦ refuse invalid_target
        | some resources ↦ do
          demand (not q.has_max_age || elim q.max_age [ none ↦ false | some n ↦ true ])
              invalid_request
          answer (scopes, resources)
      ]
    ]

  abbrev pub new_request :
      Client → Query → Str → List Str → List Str → Str → ℕ → OAuthAuthorizationRequest
  new_request c q matched scopes resources id now = record {
    id = id;
    client_id = c.client_id;
    redirect_uri = matched;
    scopes = scopes;
    resources = resources;
    state = q.state;
    nonce = q.nonce;
    code_challenge = q.code_challenge;
    code_challenge_method = codes "S256";
    prompt = fields q.prompt;
    max_age = if q.has_max_age then q.max_age else none;
    dpop_jkt = q.dpop_jkt;
    created_at = now;
    expires_at = now + p.request_ttl;
    consumed_at = none;
  }

  -- `handleAuthorize` up to the stored request: the request with its client, or where the browser goes.
  unfoldable pub accept_request :
      Db → Query → Str → ℕ → (Option (OAuthAuthorizationRequest × Client) × Next) × Db
  unfolding lookup_client match_redirect_uri check_query create_oauth_request
  accept_request db q id now =
      if is_empty q.client_id
      then ((none, plain_error invalid_request), db)
      else elim (lookup_client digest p db q.client_id) [
        | none ↦ ((none, plain_error invalid_client), db)
        | some c ↦
            if is_empty q.redirect_uri
            then ((none, plain_error invalid_request), db)
            else elim (match_redirect_uri parse_uri c q.redirect_uri) [
              | none ↦ ((none, plain_error invalid_request), db)
              | some matched ↦ elim (check_query c q) [
                | refuse e ↦ ((none, back_with_error matched q.state e), db)
                | answer (scopes, resources) ↦
                    let row = new_request c q matched scopes resources id now in
                    elim (create_oauth_request db row) [
                      | err e ↦ ((none, back_with_error matched q.state server_error), db)
                      | ok db' ↦ ((some (row, c), login_page id), db')
                    ]
              ]
            ]
      ]

  -- `consentMissing`.
  unfoldable pub consent_missing : Db → OAuthAuthorizationRequest → Client → Str → Bool
  unfolding oauth_consent covers_all
  consent_missing db row c user =
      if c.is_static then false else elim (oauth_consent db user c.client_id) [
        | err e ↦ true
        | ok consent ↦
            not (covers_all consent.scopes row.scopes)
            || not (covers_all consent.resources row.resources)
      ]

  -- `tooOld`, with times in nanoseconds.
  unfoldable pub too_old : OAuthAuthorizationRequest → Session → ℕ → Bool
  too_old row session now = elim row.max_age [
    | none ↦ false
    | some seconds ↦ ltb (session.created_at + seconds * 1000000000) now
  ]

  abbrev pub new_grant : OAuthAuthorizationRequest → Client → Session → User → Str → ℕ → OAuthGrant
  new_grant consumed c session user id now = record {
    id = id;
    client_id = c.client_id;
    user_id = some user.id;
    scopes = consumed.scopes;
    resources = consumed.resources;
    auth_time = some session.created_at;
    session_id = some session.id;
    created_at = now;
    revoked_at = none;
  }

  abbrev pub new_code : OAuthAuthorizationRequest → Client → Drawn → ℕ → OAuthCode
  new_code consumed c drawn now = record {
    id = drawn.code_id;
    code_hash = digest drawn.code;
    grant_id = drawn.grant_id;
    client_id = c.client_id;
    redirect_uri = consumed.redirect_uri;
    code_challenge = consumed.code_challenge;
    nonce = consumed.nonce;
    scopes = consumed.scopes;
    resources = consumed.resources;
    dpop_jkt = consumed.dpop_jkt;
    created_at = now;
    expires_at = now + p.code_ttl;
    consumed_at = none;
  }

  -- `finishRequest`; it runs in no transaction, so what was written before a failure stays.
  unfoldable pub finish_request :
      Db → OAuthAuthorizationRequest → Client → Session → User → Drawn → ℕ → Option Next × Db
  unfolding consume_oauth_request create_oauth_grant create_oauth_code
  finish_request db row c session user drawn now = elim (consume_oauth_request db row.id now) [
    | err e ↦ (none, db)
    | ok (consumed, db1) ↦
        elim (create_oauth_grant db1 (new_grant consumed c session user drawn.grant_id now)) [
          | err e ↦ (none, db1)
          | ok db2 ↦ elim (create_oauth_code db2 (new_code consumed c drawn now)) [
            | err e ↦ (none, db2)
            | ok db3 ↦ (some (back_with_code consumed.redirect_uri consumed.state drawn.code), db3)
          ]
        ]
  ]

  -- `continueRequest` of a signed-in user, or of none.
  unfoldable pub continue_request :
      Db → OAuthAuthorizationRequest → Client → Option (Session × User) → Drawn → ℕ → Next × Db
  unfolding consent_missing too_old finish_request
  continue_request db row c none drawn now =
      if contains row.prompt (codes "none")
      then (back_with_error row.redirect_uri row.state login_required, db)
      else (login_page row.id, db)
  continue_request db row c (some (session, user)) drawn now =
      if contains row.prompt (codes "none") && consent_missing db row c user.id
      then (back_with_error row.redirect_uri row.state consent_required, db)
      else if contains row.prompt (codes "login") || too_old row session now
      then (login_page row.id, db)
      else if contains row.prompt (codes "consent") || consent_missing db row c user.id
      then (consent_page row.id, db)
      else (let (done, db') = finish_request db row c session user drawn now in
          (
            elim done [
              | some next ↦ next
              | none ↦ back_with_error row.redirect_uri row.state server_error
            ],
            db',
          ))

  -- The authorization request that `handleDecide` accepts.
  unfoldable pub open_request_by_id : Db → Str → ℕ → Option OAuthAuthorizationRequest
  unfolding oauth_request_by_id
  open_request_by_id db id now = elim (oauth_request_by_id db id) [
    | err e ↦ none
    | ok row ↦ if unset row.consumed_at && ltb now row.expires_at then some row else none
  ]

  abbrev pub new_consent : OAuthAuthorizationRequest → Client → User → Str → ℕ → OAuthConsent
  new_consent row c user id now = record {
    id = id;
    client_id = c.client_id;
    user_id = user.id;
    scopes = row.scopes;
    resources = row.resources;
    created_at = now;
    updated_at = now;
  }

  -- The approval in `handleDecide`.
  unfoldable pub approve :
      Db → OAuthAuthorizationRequest → Client → Session → User → Str → Drawn → ℕ → Option Next × Db
  unfolding upsert_oauth_consent finish_request
  approve db row c session user consent_id drawn now =
      if c.is_static
      then finish_request db row c session user drawn now
      else elim (upsert_oauth_consent db (new_consent row c user consent_id now)) [
        | err e ↦ (none, db)
        | ok db' ↦ finish_request db' row c session user drawn now
      ]

  -- The decision on the request of a known client.
  unfoldable pub decide_of_client :
      Db
      → OAuthAuthorizationRequest
      → Option Client
      → Bool
      → Session
      → User
      → Str
      → Drawn
      → ℕ
      → Option Next × Db
  unfolding approve consume_oauth_request
  decide_of_client db row none approved session user consent_id drawn now = (none, db)
  decide_of_client db row (some c) true session user consent_id drawn now =
      approve db row c session user consent_id drawn now
  decide_of_client db row (some c) false session user consent_id drawn now =
      elim (consume_oauth_request db row.id now) [
        | err e ↦ (none, db)
        | ok (consumed, db') ↦
            (some (back_with_error row.redirect_uri row.state access_denied), db')
      ]

  -- `handleDecide` after the read of the request.
  unfoldable pub decide_request :
      Db
      → Option OAuthAuthorizationRequest
      → Bool
      → Option (Session × User)
      → Str
      → Drawn
      → ℕ
      → Option Next × Db
  unfolding lookup_client decide_of_client
  decide_request db none approved current consent_id drawn now = (none, db)
  decide_request db (some row) approved none consent_id drawn now = (none, db)
  decide_request db (some row) approved (some (session, user)) consent_id drawn now =
      decide_of_client db row (lookup_client digest p db row.client_id) approved session user
        consent_id drawn now

  -- `handleDecide` after the origin check: where the browser goes, or `none` for an error.
  unfoldable pub handle_decide :
      Db → Str → Bool → Option (Session × User) → Str → Drawn → ℕ → Option Next × Db
  unfolding open_request_by_id decide_request
  handle_decide db id approved current consent_id drawn now =
      decide_request db (open_request_by_id db id now) approved current consent_id drawn now

-- `handleWithdrawConsent` after the origin check and the authentication.
unfoldable pub handle_withdraw_consent : Db → Str → Str → ℕ → Db
unfolding delete_oauth_consent revoke_oauth_grants_of_consent
handle_withdraw_consent db user client now = elim (delete_oauth_consent db user client) [
  | ok db' ↦ revoke_oauth_grants_of_consent db' user client now
  | err e ↦ revoke_oauth_grants_of_consent db user client now
]
