-- ===== src/OAuthProvider/Rotation.antt =====
-- The rotation of a refresh token.
use auth_all.Prelude.{
  ℕ, ◌≡◌, refl, subst, ◌∙◌, ◌⊎◌, inl, inr, true, false, List, [], ◌∷◌, Option, none, Str, arith,
  str_beq, ◌==◌, str_eq, all, contains, find_where, Option-cases,
}
use auth_all.Errors.{ok, Result-cases}
use auth_all.OAuthProvider.Rows.{Db, OAuthGrant, OAuthAccessToken, OAuthRefreshToken}
use auth_all.OAuthProvider.Store.{oauth_refresh_token_by_hash, rotate_oauth_refresh_token}
use auth_all.OAuthProvider.Clients.{Provider, Client, Uri, answer, Reply-cases}
use auth_all.OAuthProvider.Issue.{
  AccessClaims, IdClaims, TokenResponse, issue_tokens_with_id, access_row, refresh_row, audience_of,
}
use auth_all.OAuthProvider.Exchange.{Form, Fresh, live_grant, narrowed, rotate, token_from_refresh}
use auth_all.OAuthProvider.Narrowing.{
  within-contains, IsNarrower-contains, audience_of-within, narrowed-within, issue-refresh,
}
use auth_all.OAuthProvider.History.{passes}
use auth_all.OAuthProvider.Endpoint.{issue-passes, token_from_refresh-passes}
use auth_all.OAuthProvider.Runs.{Call, run, is_unwatched, run-passes}
use auth_all.OAuthProvider.Codes.{issue-access}
use auth_all.OAuthProvider.Refresh.{
  unique_tokens, token_watch, token_watch-IsStable, spent-passes, rotated-spent, found-spent,
  spent-no_refresh,
}

module _ (challenge_of : Str → Str) (sign_access : AccessClaims → Str) (sign_id : IdClaims → Str)
    (digest : Str → Str) (p : Provider) where
  pub rotate-cases :
      (db : Db) (c : Client) (row : OAuthRefreshToken) (form : Form) (jkt : Str) (fresh : Fresh)
      (now : ℕ) (r : TokenResponse) (db' : Db)
      → rotate challenge_of sign_access sign_id digest p db c row form jkt fresh now
        ≡ (answer r, db')
      → (g : OAuthGrant) × (scopes resources : List Str) × (db1 : Db) × (live_grant db row.grant_id
          ≡ answer g)
        × (narrowed challenge_of sign_access sign_id digest p row form ≡ answer (scopes, resources))
        × (rotate_oauth_refresh_token db row.id fresh.refresh_id now ≡ ok db1)
        × (issue_tokens_with_id sign_access sign_id digest p db1 c g scopes resources [] jkt
              fresh.access_id fresh.refresh_id fresh.plaintext now
            ≡ (answer r, db'))
  unfolding rotate
  rotate-cases db c row form jkt fresh now r db' h =
      elim (Reply-cases (live_grant db row.grant_id)) [
        | inr (x, e) ↦ absurd (ground arith)
        | inl (g, e) ↦
            elim (Reply-cases (narrowed challenge_of sign_access sign_id digest p row form)) [
              | inr (x, e') ↦ absurd (ground arith)
              | inl ((scopes, resources), e') ↦
                  elim (Result-cases (rotate_oauth_refresh_token db row.id fresh.refresh_id now)) [
                    | inr (x, e'') ↦ absurd (ground arith)
                    | inl (db1, e'') ↦ (g, scopes, resources, db1, e, e', e'', ground arith)
                  ]
            ]
      ]

  -- A rotation that was answered widens nothing. The new access token has only scopes of the refresh token,
  -- and its audience is that of the refresh token or one of its resources: a token for one resource stays
  -- for that resource. The refresh tokens are those with the rotated row marked, or there is one new row,
  -- whose scopes and resources are among those of the refresh token and whose audience is that of the
  -- new access token.
  pub rotate-narrows :
      (db : Db) (c : Client) (row : OAuthRefreshToken) (form : Form) (jkt : Str) (fresh : Fresh)
      (now : ℕ) (r : TokenResponse) (db' : Db)
      → rotate challenge_of sign_access sign_id digest p db c row form jkt fresh now
        ≡ (answer r, db')
      → (a : OAuthAccessToken) × (db1 : Db) × (db'.access_tokens ≡ a ∷ db.access_tokens)
        × (rotate_oauth_refresh_token db row.id fresh.refresh_id now ≡ ok db1)
        × ((q : Str) → contains a.scopes q ≡ true → contains row.scopes q ≡ true)
        × ((a.audience ≡ audience_of p row.resources) ⊎ (contains row.resources a.audience ≡ true))
        × ((db'.refresh_tokens ≡ db1.refresh_tokens)
            ⊎ ((t : OAuthRefreshToken) × (db'.refresh_tokens ≡ t ∷ db1.refresh_tokens)
                × ((q : Str) → contains t.scopes q ≡ true → contains row.scopes q ≡ true)
                × ((q : Str) → contains t.resources q ≡ true → contains row.resources q ≡ true)
                × (audience_of p t.resources ≡ a.audience)))
  rotate-narrows db c row form jkt fresh now r db' h =
      let (g, scopes, resources, db1, e, n, o, i) =
        rotate-cases db c row form jkt fresh now r db' h in
      let (s, t) =
        narrowed-within challenge_of sign_access sign_id digest p row form scopes resources n in
      (
        access_row sign_access sign_id digest p c g scopes resources jkt fresh.access_id now,
        db1,
        issue-access challenge_of sign_access sign_id digest p db1 c g scopes resources [] jkt
              fresh.access_id fresh.refresh_id fresh.plaintext now r db' i
            ∙ unfold rotate_oauth_refresh_token in (ground arith),
        o,
        λ q k. within-contains scopes row.scopes q s k,
        audience_of-within p row.resources resources t,
        elim (issue-refresh challenge_of sign_access sign_id digest p db1 c g scopes resources []
            jkt fresh.access_id fresh.refresh_id fresh.plaintext now r db' i) [
              | inl u ↦ inl u
              | inr u ↦ inr (
                refresh_row sign_access sign_id digest p c g scopes resources jkt fresh.refresh_id
                    fresh.plaintext now,
                u,
                λ q k. within-contains scopes row.scopes q s k,
                λ q k. IsNarrower-contains row.resources resources q t k,
                refl,
              )
            ],
      )

  answered-spent :
      (db : Db) (c : Client) (form : Form) (jkt : Str) (fresh : Fresh) (now : ℕ) (r : TokenResponse)
      (db' : Db)
      → unique_tokens db.refresh_tokens ≡ true
      → str_beq (digest fresh.plaintext) (digest form.refresh_token) ≡ false
      → token_from_refresh challenge_of sign_access sign_id digest p db c form jkt fresh now
        ≡ (answer r, db')
      → passes
          (token_watch (digest form.refresh_token))
          (token_watch-IsStable (digest form.refresh_token))
          db'
        ≡ true
  unfolding token_from_refresh oauth_refresh_token_by_hash
  answered-spent db c form jkt fresh now r db' u n h =
      let hash = digest form.refresh_token in
      let w = token_watch hash in
      let stable = token_watch-IsStable hash in
      elim (Option-cases (find_where (λ t. t.token_hash == hash) db.refresh_tokens)) [
        | inl e ↦ absurd (ground arith)
        | inr (row, e) ↦ elim (Option-cases row.rotated_at) [
          | inr (at, m) ↦
              subst (λ o. passes w stable o.1 ≡ true)
                {x = token_from_refresh challenge_of sign_access sign_id digest p db c form jkt
                  fresh now}
                h
                (token_from_refresh-passes w stable challenge_of sign_access sign_id digest p db c
                  form jkt fresh now
                  (spent-passes hash db (found-spent hash row db.refresh_tokens u e (ground arith)))
                  n)
          | inl m ↦
              let (g, scopes, resources, db1, e1, e2, o, i) =
                rotate-cases db c row form jkt fresh now r db' (ground arith) in
              let turned =
                rotated-spent hash fresh.refresh_id now row db.refresh_tokens u e (ground arith) in
              subst (λ o. passes w stable o.1 ≡ true) i
                (issue-passes w stable challenge_of sign_access sign_id digest p db1 c g scopes
                  resources [] jkt fresh.access_id fresh.refresh_id fresh.plaintext now
                  (spent-passes hash db1 (unfold rotate_oauth_refresh_token in (ground arith))) n)
        ]
      ]

  -- In a table with unique digests, a refresh token has one successor at most: after a refresh that was
  -- answered and any history of calls on the server, where neither draws a token of the same digest, each
  -- answer to a token of that digest carries no refresh token.
  pub token_from_refresh-once :
      (parse_uri : Str → Option Uri) (verify : Str → Option AccessClaims) (db : Db) (c : Client)
      (form : Form) (jkt : Str) (fresh : Fresh) (now : ℕ) (r : TokenResponse) (db' : Db)
      (cs : List Call) (other : Client) (again : Form) (key : Str) (drawn : Fresh) (later : ℕ)
      (answered : TokenResponse)
      → unique_tokens db.refresh_tokens ≡ true
      → str_beq (digest fresh.plaintext) (digest form.refresh_token) ≡ false
      → token_from_refresh challenge_of sign_access sign_id digest p db c form jkt fresh now
        ≡ (answer r, db')
      → all
          (is_unwatched parse_uri verify challenge_of sign_access sign_id digest p
            (token_watch (digest form.refresh_token)))
          cs
        ≡ true
      → digest again.refresh_token ≡ digest form.refresh_token
      → (token_from_refresh challenge_of sign_access sign_id digest p
          (run parse_uri verify challenge_of sign_access sign_id digest p db' cs)
          other
          again
          key
          drawn
          later).0
        ≡ answer answered
      → answered.refresh_token ≡ none
  token_from_refresh-once parse_uri verify db c form jkt fresh now r db' cs other again key drawn
        later answered u n h k s a =
      let hash = digest form.refresh_token in
      let start = answered-spent db c form jkt fresh now r db' u n h in
      let kept =
        run-passes parse_uri verify challenge_of sign_access sign_id digest p (token_watch hash)
          (token_watch-IsStable hash) db' cs start k in
      spent-no_refresh challenge_of sign_access sign_id digest p
        (run parse_uri verify challenge_of sign_access sign_id digest p db' cs) other again key
        drawn later answered (rw s (ground (arith, kept))) a
