-- ===== src/OAuthProvider/Store.antt =====
-- internal/sqlstore/oauthprovider.go: the statements on the tables of the authorization server. A primary
-- key or a unique index of schema/oauthprovider.go refuses an insertion with `row_conflict`.
use auth_all.Prelude.{
  ℕ, Bool, true, false, ◌&&◌, ◌||◌, List, ◌∷◌, Option, none, some, Str, ltb, if◌then◌else◌, ◌==◌,
  str_eq, any, find_where, update_where, delete_where,
}
use auth_all.Errors.{Result, ok, err, row_not_found, row_conflict, or_fail}
use auth_all.OAuthProvider.Rows.{
  Db, OAuthClient, OAuthAuthorizationRequest, OAuthGrant, OAuthCode, OAuthAccessToken,
  OAuthRefreshToken, OAuthConsent,
}

abbrev pub unset : Option ℕ → Bool
unset none = true
unset (some at) = false

abbrev pub owned_by : Option Str → Str → Bool
owned_by none user = false
owned_by (some id) user = id == user

unfoldable pub oauth_client_by_client_id : Db → Str → Result OAuthClient
oauth_client_by_client_id db id =
    or_fail (find_where (λ c. c.client_id == id) db.clients) row_not_found

unfoldable pub create_oauth_request : Db → OAuthAuthorizationRequest → Result Db
create_oauth_request db a =
    if any (λ r. r.id == a.id) db.requests
    then err row_conflict
    else ok (record db { requests = a ∷ db.requests })

unfoldable pub oauth_request_by_id : Db → Str → Result OAuthAuthorizationRequest
oauth_request_by_id db id = or_fail (find_where (λ r. r.id == id) db.requests) row_not_found

-- `WHERE id = ? AND consumed_at IS NULL AND expires_at > ?`
abbrev pub open_request : Str → ℕ → OAuthAuthorizationRequest → Bool
open_request id now r = r.id == id && (unset r.consumed_at && ltb now r.expires_at)

-- One conditional update, then a read of the row.
unfoldable pub consume_oauth_request : Db → Str → ℕ → Result (OAuthAuthorizationRequest × Db)
unfolding oauth_request_by_id
consume_oauth_request db id now =
    let db' = record db {
      requests =
          update_where (open_request id now) (λ r. record r { consumed_at = some now }) db.requests;
    } in
    if any (open_request id now) db.requests
    then elim (oauth_request_by_id db' id) [ ok r ↦ ok (r, db') | err e ↦ err e ]
    else err row_not_found

unfoldable pub create_oauth_grant : Db → OAuthGrant → Result Db
create_oauth_grant db g =
    if any (λ r. r.id == g.id) db.grants
    then err row_conflict
    else ok (record db { grants = g ∷ db.grants })

unfoldable pub oauth_grant_by_id : Db → Str → Result OAuthGrant
oauth_grant_by_id db id = or_fail (find_where (λ g. g.id == id) db.grants) row_not_found

-- `grant_id IN (SELECT id … WHERE p)`
abbrev pub selects : (OAuthGrant → Bool) → List OAuthGrant → Str → Bool
selects p grants id = any (λ g. p g && g.id == id) grants

-- `revokeGrantRows`: the tokens of the selected grants, then the grants.
unfoldable pub revoke_grant_rows : Db → (OAuthGrant → Bool) → ℕ → Db
revoke_grant_rows db p at = record db {
  access_tokens =
      update_where (λ t. unset t.revoked_at && selects p db.grants t.grant_id)
        (λ t. record t { revoked_at = some at }) db.access_tokens;
  refresh_tokens =
      update_where (λ t. unset t.revoked_at && selects p db.grants t.grant_id)
        (λ t. record t { revoked_at = some at }) db.refresh_tokens;
  grants =
      update_where (λ g. unset g.revoked_at && p g) (λ g. record g { revoked_at = some at })
        db.grants;
}

unfoldable pub revoke_oauth_grant : Db → Str → ℕ → Db
unfolding revoke_grant_rows
revoke_oauth_grant db id at = revoke_grant_rows db (λ g. g.id == id) at

unfoldable pub revoke_oauth_grants_of_user : Db → Str → ℕ → Db
unfolding revoke_grant_rows
revoke_oauth_grants_of_user db user at = revoke_grant_rows db (λ g. owned_by g.user_id user) at

unfoldable pub revoke_oauth_grants_of_consent : Db → Str → Str → ℕ → Db
unfolding revoke_grant_rows
revoke_oauth_grants_of_consent db user client at =
    revoke_grant_rows db (λ g. owned_by g.user_id user && g.client_id == client) at

unfoldable pub create_oauth_code : Db → OAuthCode → Result Db
create_oauth_code db c =
    if any (λ r. r.id == c.id || r.code_hash == c.code_hash) db.codes
    then err row_conflict
    else ok (record db { codes = c ∷ db.codes })

unfoldable pub oauth_code_by_hash : Db → Str → Result OAuthCode
oauth_code_by_hash db hash = or_fail (find_where (λ c. c.code_hash == hash) db.codes) row_not_found

-- `WHERE code_hash = ? AND consumed_at IS NULL AND expires_at > ?`
abbrev pub open_code : Str → ℕ → OAuthCode → Bool
open_code hash now c = c.code_hash == hash && (unset c.consumed_at && ltb now c.expires_at)

-- One conditional update, then a read of the row.
unfoldable pub consume_oauth_code : Db → Str → ℕ → Result (OAuthCode × Db)
unfolding oauth_code_by_hash
consume_oauth_code db hash now =
    let db' = record db {
      codes = update_where (open_code hash now) (λ c. record c { consumed_at = some now }) db.codes;
    } in
    if any (open_code hash now) db.codes
    then elim (oauth_code_by_hash db' hash) [ ok c ↦ ok (c, db') | err e ↦ err e ]
    else err row_not_found

unfoldable pub create_oauth_access_token : Db → OAuthAccessToken → Result Db
create_oauth_access_token db t =
    if any (λ r. r.id == t.id) db.access_tokens
    then err row_conflict
    else ok (record db { access_tokens = t ∷ db.access_tokens })

unfoldable pub oauth_access_token_by_id : Db → Str → Result OAuthAccessToken
oauth_access_token_by_id db id =
    or_fail (find_where (λ t. t.id == id) db.access_tokens) row_not_found

unfoldable pub revoke_oauth_access_token : Db → Str → ℕ → Db
revoke_oauth_access_token db id at = record db {
  access_tokens =
      update_where (λ t. t.id == id && unset t.revoked_at) (λ t. record t { revoked_at = some at })
        db.access_tokens;
}

unfoldable pub create_oauth_refresh_token : Db → OAuthRefreshToken → Result Db
create_oauth_refresh_token db t =
    if any (λ r. r.id == t.id || r.token_hash == t.token_hash) db.refresh_tokens
    then err row_conflict
    else ok (record db { refresh_tokens = t ∷ db.refresh_tokens })

unfoldable pub oauth_refresh_token_by_hash : Db → Str → Result OAuthRefreshToken
oauth_refresh_token_by_hash db hash =
    or_fail (find_where (λ t. t.token_hash == hash) db.refresh_tokens) row_not_found

unfoldable pub oauth_refresh_token_by_id : Db → Str → Result OAuthRefreshToken
oauth_refresh_token_by_id db id =
    or_fail (find_where (λ t. t.id == id) db.refresh_tokens) row_not_found

-- `WHERE id = ? AND rotated_at IS NULL AND revoked_at IS NULL`
abbrev pub rotatable : Str → OAuthRefreshToken → Bool
rotatable id t = t.id == id && (unset t.rotated_at && unset t.revoked_at)

unfoldable pub rotate_oauth_refresh_token : Db → Str → Str → ℕ → Result Db
rotate_oauth_refresh_token db id successor at =
    if any (rotatable id) db.refresh_tokens
    then ok (record db {
      refresh_tokens =
          update_where (rotatable id)
            (λ t. record t { rotated_at = some at; successor_id = some successor })
            db.refresh_tokens;
    })
    else err row_not_found

abbrev pub consent_of : Str → Str → OAuthConsent → Bool
consent_of user client c = c.user_id == user && c.client_id == client

unfoldable pub upsert_oauth_consent : Db → OAuthConsent → Result Db
upsert_oauth_consent db c =
    if any (consent_of c.user_id c.client_id) db.consents
    then ok (record db {
      consents =
          update_where (consent_of c.user_id c.client_id)
            (λ r. record r {
              scopes = c.scopes;
              resources = c.resources;
              updated_at = c.updated_at;
            })
            db.consents;
    })
    else if any (λ r. r.id == c.id) db.consents
    then err row_conflict
    else ok (record db { consents = c ∷ db.consents })

unfoldable pub oauth_consent : Db → Str → Str → Result OAuthConsent
oauth_consent db user client =
    or_fail (find_where (consent_of user client) db.consents) row_not_found

unfoldable pub delete_oauth_consent : Db → Str → Str → Result Db
delete_oauth_consent db user client =
    if any (consent_of user client) db.consents
    then ok (record db { consents = delete_where (consent_of user client) db.consents })
    else err row_not_found

unfoldable pub claim_oauth_proof : Db → Str → ℕ → Result Db
claim_oauth_proof db id expires_at =
    if any (λ p. p.id == id) db.proofs
    then err row_conflict
    else ok (record db { proofs = record { id = id; expires_at = expires_at } ∷ db.proofs })

-- The rows that are left; the count of the deleted ones is left out.
unfoldable pub delete_expired_oauth_rows : Db → ℕ → Db
delete_expired_oauth_rows db before = record db {
  requests = delete_where (λ r. ltb r.expires_at before) db.requests;
  codes = delete_where (λ c. ltb c.expires_at before) db.codes;
  access_tokens = delete_where (λ t. ltb t.expires_at before) db.access_tokens;
  refresh_tokens = delete_where (λ t. ltb t.expires_at before) db.refresh_tokens;
  proofs = delete_where (λ p. ltb p.expires_at before) db.proofs;
}
