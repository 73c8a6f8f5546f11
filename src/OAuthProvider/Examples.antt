-- ===== src/OAuthProvider/Examples.antt =====
-- A code, its refresh token and the tokens of a grant.
use auth_all.Prelude.{
  ◌≡◌, ◌+◌, ◌⊎◌, refl, true, false, [], ◌∷◌, none, some, Str, codes, arith, str_beq, str_eq,
  contains, find_where, update_where, delete_where,
}
use auth_all.Errors.{ok}
use auth_all.Accounts.{user_by_id}
use auth_all.Principals.Types.{ResolvedPrincipal}
use auth_all.OAuthProvider.Rows.{Db, OAuthGrant, OAuthCode, OAuthAccessToken, OAuthRefreshToken}
use auth_all.OAuthProvider.Store.{
  consume_oauth_code, oauth_code_by_hash, oauth_grant_by_id, create_oauth_access_token,
  create_oauth_refresh_token, oauth_refresh_token_by_hash, oauth_refresh_token_by_id,
  oauth_access_token_by_id, rotate_oauth_refresh_token, revoke_oauth_grants_of_consent,
  revoke_grant_rows, delete_oauth_consent, delete_expired_oauth_rows,
}
use auth_all.OAuthProvider.Clients.{
  Reply, refuse, is_answer, invalid_grant, static_to_client, allows_grant,
}
use auth_all.OAuthProvider.Issue.{
  TokenResponse, mint_access_token, issue_tokens_with_id, audience_of, ttl_of, token_type,
  access_row,
}
use auth_all.OAuthProvider.Exchange.{
  Fresh, no_proof, binds, token_from_code, check_code, live_grant, token_from_refresh, rotate,
  narrowed, present_rotated, replay_rotation,
}
use auth_all.OAuthProvider.Resource.{verify_access_token, resolve, resolve_request}
use auth_all.OAuthProvider.Authorize.{handle_withdraw_consent}
use auth_all.OAuthProvider.Runs.{run, is_unwatched, cleans}
use auth_all.OAuthProvider.Codes.{unique_codes, token_from_code-once, token_from_code-bound}
use auth_all.OAuthProvider.Refresh.{unique_tokens}
use auth_all.OAuthProvider.Rotation.{rotate-narrows, token_from_refresh-once}
use auth_all.OAuthProvider.Revocation.{replay-revokes, withdraw-revokes}
use auth_all.OAuthProvider.Audience.{resolve-foreign_audience, mint-resolve}
use auth_all.OAuthProvider.Fixtures.{
  same, no_uri, sign, verify, verify-sign, provider, client, grant, refresh_row, db, form, fresh,
  answer_of, no_id, ada, accounts, shown, verifies_shown, foreign, own,
}

abbrev exchanged : Reply TokenResponse × Db
exchanged = token_from_code same sign no_id same provider (db none) client form [] fresh 10

abbrev refreshed : Reply TokenResponse × Db
refreshed = token_from_refresh same sign no_id same provider (db none) client form [] fresh 10

token_from_code-once_example :
    is_answer
      (token_from_code same sign no_id same provider
        (run no_uri verify same sign no_id same provider exchanged.1 (cleans 5 ∷ []))
        client
        form
        []
        fresh
        20).0
    ≡ false
unfolding unique_codes token_from_code static_to_client allows_grant consume_oauth_code
    oauth_code_by_hash find_where update_where check_code live_grant oauth_grant_by_id
    issue_tokens_with_id mint_access_token create_oauth_access_token create_oauth_refresh_token
    contains str_beq token_type is_unwatched
token_from_code-once_example =
    token_from_code-once same sign no_id same provider no_uri verify (db none) client form [] fresh
      10 (answer_of exchanged.0) exchanged.1 (cleans 5 ∷ []) client form [] fresh 20 refl refl refl
      refl

token_from_code-bound_example :
    (row : OAuthCode) × (db1 : Db) × (g : OAuthGrant) × (a : OAuthAccessToken) × (consume_oauth_code
        (db none)
        (codes "code")
        10
      ≡ ok (row, db1))
    × (row.client_id ≡ client.client_id)
    × (form.redirect_uri ≡ row.redirect_uri)
    × (same form.code_verifier ≡ row.code_challenge)
    × (binds row.dpop_jkt [] ≡ true)
    × (oauth_grant_by_id db1 row.grant_id ≡ ok g)
    × (g.revoked_at ≡ none)
    × (exchanged.1.access_tokens ≡ a ∷ db1.access_tokens)
    × ((a.scopes ≡ row.scopes) × (a.client_id ≡ client.client_id) × (a.grant_id ≡ g.id))
unfolding token_from_code static_to_client allows_grant consume_oauth_code oauth_code_by_hash
    find_where update_where check_code live_grant oauth_grant_by_id issue_tokens_with_id
    mint_access_token create_oauth_access_token create_oauth_refresh_token contains str_beq
    token_type
token_from_code-bound_example =
    token_from_code-bound same sign no_id same provider (db none) client form [] fresh 10
      (answer_of exchanged.0) exchanged.1 refl

abbrev again : Fresh
again = record fresh { access_id = codes "a2" }

abbrev repeated : Reply TokenResponse × Db
repeated =
    token_from_refresh same sign no_id same provider
      (run no_uri verify same sign no_id same provider refreshed.1 []) client form [] again 15

token_from_refresh-once_example : (answer_of repeated.0).refresh_token ≡ none
unfolding unique_tokens static_to_client allows_grant token_from_refresh oauth_refresh_token_by_hash
    rotate live_grant oauth_grant_by_id narrowed rotate_oauth_refresh_token issue_tokens_with_id
    mint_access_token create_oauth_access_token create_oauth_refresh_token find_where update_where
    contains str_beq token_type run present_rotated replay_rotation oauth_refresh_token_by_id
    is_unwatched
token_from_refresh-once_example =
    token_from_refresh-once same sign no_id same provider no_uri verify (db none) client form []
      fresh 10 (answer_of refreshed.0) refreshed.1 [] client form [] again 15 (answer_of repeated.0)
      refl refl refl refl refl refl

rotate-narrows_example :
    (a : OAuthAccessToken) × (db1 : Db) × (refreshed.1.access_tokens ≡ a ∷ [])
    × (rotate_oauth_refresh_token (db none) (refresh_row none).id fresh.refresh_id 10 ≡ ok db1)
    × ((q : Str) → contains a.scopes q ≡ true → contains (refresh_row none).scopes q ≡ true)
    × ((a.audience ≡ audience_of provider (refresh_row none).resources)
        ⊎ (contains (refresh_row none).resources a.audience ≡ true))
    × ((refreshed.1.refresh_tokens ≡ db1.refresh_tokens)
        ⊎ ((t : OAuthRefreshToken) × (refreshed.1.refresh_tokens ≡ t ∷ db1.refresh_tokens)
            × ((q : Str) → contains t.scopes q ≡ true → contains (refresh_row none).scopes q ≡ true)
            × ((q : Str)
                → contains t.resources q ≡ true
                → contains (refresh_row none).resources q ≡ true)
            × (audience_of provider t.resources ≡ a.audience)))
unfolding static_to_client allows_grant token_from_refresh oauth_refresh_token_by_hash rotate
    live_grant oauth_grant_by_id narrowed rotate_oauth_refresh_token issue_tokens_with_id
    mint_access_token create_oauth_access_token create_oauth_refresh_token find_where update_where
    contains str_beq token_type
rotate-narrows_example =
    rotate-narrows same sign no_id same provider (db none) client (refresh_row none) form [] fresh
      10 (answer_of refreshed.0) refreshed.1 refl

replay-revokes_example :
    ((token_from_refresh same sign no_id same provider (db (some 10)) client form [] fresh 100).0
      ≡ refuse invalid_grant)
    × (verify_access_token verify provider
            (run no_uri verify same sign no_id same provider
              (token_from_refresh same sign no_id same provider
                (db (some 10))
                client
                form
                []
                fresh
                100).1
              [])
            []
            110
          ≡ some shown
        → str_beq shown.row.grant_id (codes "g") ≡ false)
unfolding static_to_client allows_grant oauth_refresh_token_by_hash find_where str_beq contains
    is_unwatched
replay-revokes_example =
    replay-revokes no_uri verify same sign no_id same provider (db (some 10)) client form [] fresh
      100 (refresh_row (some 10)) 10 [] [] 110 shown refl refl refl refl refl (ground arith) refl
      refl (ground arith) refl

withdraw-revokes_example : str_beq shown.row.grant_id (codes "g") ≡ false
unfolding handle_withdraw_consent delete_oauth_consent revoke_oauth_grants_of_consent
    revoke_grant_rows verify_access_token oauth_access_token_by_id oauth_grant_by_id find_where
    update_where str_beq run is_unwatched delete_expired_oauth_rows delete_where
withdraw-revokes_example =
    withdraw-revokes no_uri verifies_shown same sign no_id same provider
      (record (db none) {
        grants =
            grant (codes "g") ∷ record (grant (codes "g2")) { user_id = some (codes "bob") } ∷ [];
        access_tokens = shown.row ∷ [];
      })
      (codes "ada") (codes "app") 20 (codes "g") (cleans 5 ∷ []) (codes "x") 30 shown refl refl refl

resolve-foreign_audience_example :
    (resolve verify provider (db none) accounts foreign 20 ≡ none)
    × (resolve_request verify provider (db none) accounts foreign false no_proof 20 ≡ none)
unfolding mint_access_token create_oauth_access_token audience_of ttl_of find_where str_beq
resolve-foreign_audience_example =
    resolve-foreign_audience verify sign no_id same provider (db none) client (grant (codes "g"))
      (codes "doc" ∷ []) (codes "api") [] (codes "a1") 10 foreign (10 + 600000000000)
      (record (db none) {
        access_tokens =
            access_row sign no_id same provider client (grant (codes "g")) (codes "doc" ∷ [])
              (codes "api" ∷ []) [] (codes "a1") 10
            ∷ [];
      })
      (db none) accounts false no_proof 20 verify-sign refl refl refl

abbrev minted : Db
minted = record (db none) {
  access_tokens =
      access_row sign no_id same provider client (grant (codes "g")) (codes "doc" ∷ []) [] []
        (codes "a1") 10
      ∷ [];
}

mint-resolve_example :
    (principal : ResolvedPrincipal) × (resolve verify provider
        (record minted { refresh_tokens = [] })
        accounts
        own
        20
      ≡ some principal)
    × (principal.user ≡ some ada)
    × (principal.role ≡ ada.role)
unfolding mint_access_token create_oauth_access_token audience_of ttl_of oauth_grant_by_id
    oauth_access_token_by_id find_where str_beq user_by_id static_to_client
mint-resolve_example =
    mint-resolve verify sign no_id same provider (db none) client (grant (codes "g"))
      (codes "doc" ∷ []) [] (codes "a1") 10 own (10 + 600000000000) minted
      (record minted { refresh_tokens = [] })
      (access_row sign no_id same provider client (grant (codes "g")) (codes "doc" ∷ []) [] []
        (codes "a1") 10)
      (grant (codes "g")) accounts (codes "ada") ada 20 verify-sign refl refl refl refl refl refl
      refl refl refl refl
