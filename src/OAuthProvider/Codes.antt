-- ===== src/OAuthProvider/Codes.antt =====
-- What the exchange of an authorization code tests, and that it happens once.
use auth_all.Prelude.{
  ℕ, ◌≡◌, refl, subst, inl, inr, Bool, true, false, ◌&&◌, ◌||◌, not, List, [], ◌∷◌, Option, none,
  some, Str, arith, str_beq, str_beq_iff, ◌==◌, str_eq, all, any, update_where, all-true,
  Bool-cases, Option-cases, contains,
}
use auth_all.Errors.{ok, Result-cases}
use auth_all.OAuthProvider.Rows.{Db, OAuthGrant, OAuthCode, OAuthAccessToken}
use auth_all.OAuthProvider.Store.{
  consume_oauth_code, open_code, unset, oauth_grant_by_id, create_oauth_access_token,
  create_oauth_refresh_token,
}
use auth_all.OAuthProvider.Clients.{
  Provider, Client, Uri, answer, is_answer, Reply-cases, scope_offline_access,
}
use auth_all.OAuthProvider.Issue.{
  AccessClaims, IdClaims, TokenResponse, issue_tokens_with_id, mint_access_token, access_row,
}
use auth_all.OAuthProvider.Exchange.{Form, Fresh, binds, live_grant, check_code, token_from_code}
use auth_all.OAuthProvider.History.{Watch, IsStable, passes}
use auth_all.OAuthProvider.Endpoint.{issue-passes}
use auth_all.OAuthProvider.Runs.{Call, run, is_unwatched, run-passes}

-- The unique index on the digest of a code.
unfoldable pub unique_codes : List OAuthCode → Bool
unique_codes [] = true
unique_codes (c ∷ cs) = not (any (λ r. r.code_hash == c.code_hash) cs) && unique_codes cs

-- The rows of the digest are consumed.
abbrev pub spent : Str → OAuthCode → Bool
spent hash c = not (c.code_hash == hash) || not (unset c.consumed_at)

abbrev pub code_watch : Str → Watch
code_watch hash = record {
  watches_code = λ h. h == hash;
  watches_token = λ h. false;
  watches_grant = λ h. false;
  code_test = spent hash;
  token_test = λ t. true;
  grant_test = λ g. true;
}

code_watch-IsStable : (hash : Str) → IsStable (code_watch hash)
code_watch-IsStable hash = record {
  consumed = λ c at h. ground arith;
  rotated = λ t id at h. refl;
  revoked = λ t at h. refl;
  ended = λ g at h. refl;
  other_code = λ c n. ground arith;
  other_token = λ t n. refl;
  other_grant = λ g n. refl;
}

spent-passes :
    (hash : Str) (db : Db)
    → all (spent hash) db.codes ≡ true
    → passes (code_watch hash) (code_watch-IsStable hash) db ≡ true
spent-passes hash db h = ground (arith, all-true db.refresh_tokens, all-true db.grants)

consume_without_hash :
    (hash : Str) (now : ℕ) (cs : List OAuthCode)
    → any (λ r. r.code_hash == hash) cs ≡ false
    → (all
          (spent hash)
          (update_where (open_code hash now) (λ c. record c { consumed_at = some now }) cs)
        ≡ true)
      × (any (open_code hash now) cs ≡ false)
unfolding update_where
consume_without_hash hash now [] h = (refl, refl)
consume_without_hash hash now (c ∷ cs) h =
    let rest = consume_without_hash hash now cs (ground arith) in (ground arith, ground arith)

consumed-spent :
    (hash : Str) (now : ℕ) (cs : List OAuthCode)
    → unique_codes cs ≡ true
    → any (open_code hash now) cs ≡ true
    → all
        (spent hash)
        (update_where (open_code hash now) (λ c. record c { consumed_at = some now }) cs)
      ≡ true
unfolding unique_codes update_where
consumed-spent hash now [] u f = refl
consumed-spent hash now (x ∷ cs) u f = elim (Bool-cases (str_beq x.code_hash hash)) [
  | inl e ↦
      let same = (str_beq_iff x.code_hash hash).0 e in
      let rest = consume_without_hash hash now cs (ground (arith, same)) in ground arith
  | inr e ↦ let rest = consumed-spent hash now cs in ground arith
]

spent-open :
    (hash : Str) (now : ℕ) (cs : List OAuthCode)
    → all (spent hash) cs ≡ true
    → any (open_code hash now) cs ≡ false
spent-open hash now [] h = refl
spent-open hash now (c ∷ cs) h = ground (arith, spent-open hash now cs)

module _ (challenge_of : Str → Str) (sign_access : AccessClaims → Str) (sign_id : IdClaims → Str)
    (digest : Str → Str) (p : Provider) where
  pub issue-access :
      (db : Db) (c : Client) (g : OAuthGrant) (scopes resources : List Str)
      (nonce jkt access_id refresh_id plaintext : Str) (now : ℕ) (r : TokenResponse) (db' : Db)
      → issue_tokens_with_id sign_access sign_id digest p db c g scopes resources nonce jkt
          access_id refresh_id plaintext now
        ≡ (answer r, db')
      → db'.access_tokens
        ≡ access_row sign_access sign_id digest p c g scopes resources jkt access_id now
          ∷ db.access_tokens
  unfolding issue_tokens_with_id mint_access_token create_oauth_access_token
      create_oauth_refresh_token
  issue-access db c g scopes resources nonce jkt access_id refresh_id plaintext now r db' h =
      elim (Bool-cases (any (λ r. r.id == access_id) db.access_tokens)) [
        | inl a ↦ absurd (ground arith)
        | inr a ↦ elim (Bool-cases (contains scopes scope_offline_access)) [
          | inr o ↦ ground arith
          | inl o ↦
              elim (Bool-cases (
                any (λ r. r.id == refresh_id || r.token_hash == digest plaintext)
                  db.refresh_tokens)) [ inl b ↦ absurd (ground arith) | inr b ↦ ground arith ]
        ]
      ]

  -- What a code that was exchanged went through.
  token_from_code-cases :
      (db : Db) (c : Client) (form : Form) (jkt : Str) (fresh : Fresh) (now : ℕ) (r : TokenResponse)
      (db' : Db)
      → token_from_code challenge_of sign_access sign_id digest p db c form jkt fresh now
        ≡ (answer r, db')
      → (row : OAuthCode) × (db1 : Db) × (g : OAuthGrant) × (consume_oauth_code db
            (digest form.code)
            now
          ≡ ok (row, db1))
        × (str_beq row.client_id c.client_id ≡ true)
        × (check_code challenge_of sign_access sign_id digest p db1 row form jkt ≡ answer g)
        × (issue_tokens_with_id sign_access sign_id digest p db1 c g row.scopes row.resources
              row.nonce jkt fresh.access_id fresh.refresh_id fresh.plaintext now
            ≡ (answer r, db'))
  unfolding token_from_code
  token_from_code-cases db c form jkt fresh now r db' h =
      elim (Result-cases (consume_oauth_code db (digest form.code) now)) [
        | inr (x, e) ↦ absurd (ground arith)
        | inl ((row, db1), e) ↦ elim (Bool-cases (str_beq row.client_id c.client_id)) [
          | inr s ↦ absurd (ground arith)
          | inl s ↦
              elim (Reply-cases
                (check_code challenge_of sign_access sign_id digest p db1 row form jkt)) [
                  | inr (x, e') ↦ absurd (ground arith)
                  | inl (g, e') ↦ (row, db1, g, e, s, e', ground arith)
                ]
        ]
      ]

  -- A code is exchanged only by the client that it was issued to, with the redirect URI of the authorize
  -- call, a verifier of its PKCE challenge and the key that it is bound to, while its grant is not revoked;
  -- the access token that is made has the scopes of the code and names its grant.
  pub token_from_code-bound :
      (db : Db) (c : Client) (form : Form) (jkt : Str) (fresh : Fresh) (now : ℕ) (r : TokenResponse)
      (db' : Db)
      → token_from_code challenge_of sign_access sign_id digest p db c form jkt fresh now
        ≡ (answer r, db')
      → (row : OAuthCode) × (db1 : Db) × (g : OAuthGrant) × (a : OAuthAccessToken)
        × (consume_oauth_code db (digest form.code) now ≡ ok (row, db1))
        × (row.client_id ≡ c.client_id)
        × (form.redirect_uri ≡ row.redirect_uri)
        × (challenge_of form.code_verifier ≡ row.code_challenge)
        × (binds row.dpop_jkt jkt ≡ true)
        × (oauth_grant_by_id db1 row.grant_id ≡ ok g)
        × (g.revoked_at ≡ none)
        × (db'.access_tokens ≡ a ∷ db1.access_tokens)
        × ((a.scopes ≡ row.scopes) × (a.client_id ≡ c.client_id) × (a.grant_id ≡ g.id))
  unfolding check_code live_grant
  token_from_code-bound db c form jkt fresh now r db' h =
      let (row, db1, g, e, s, k, i) = token_from_code-cases db c form jkt fresh now r db' h in
      elim (Result-cases (oauth_grant_by_id db1 row.grant_id)) [
        | inr (x, f) ↦ absurd (ground arith)
        | inl (g', f) ↦ elim (Option-cases g'.revoked_at) [
          | inr (at, v) ↦ absurd (ground arith)
          | inl v ↦
              let same : g' ≡ g = ground arith in
              (
                row,
                db1,
                g,
                access_row sign_access sign_id digest p c g row.scopes row.resources jkt
                    fresh.access_id now,
                e,
                (str_beq_iff row.client_id c.client_id).0 s,
                (str_beq_iff form.redirect_uri row.redirect_uri).0 (ground arith),
                (str_beq_iff (challenge_of form.code_verifier) row.code_challenge).0 (ground arith),
                ground arith,
                ground arith,
                ground arith,
                issue-access db1 c g row.scopes row.resources row.nonce jkt fresh.access_id
                    fresh.refresh_id fresh.plaintext now r db' i,
                (refl, refl, refl),
              )
        ]
      ]

  spent-refused :
      (db : Db) (c : Client) (form : Form) (jkt : Str) (fresh : Fresh) (now : ℕ)
      → all (spent (digest form.code)) db.codes ≡ true
      → is_answer
          (token_from_code challenge_of sign_access sign_id digest p db c form jkt fresh now).0
        ≡ false
  unfolding token_from_code consume_oauth_code
  spent-refused db c form jkt fresh now h =
      let closed = spent-open (digest form.code) now db.codes h in ground arith

  -- In a table with unique digests, an authorization code is exchanged at most once: after an exchange
  -- that was answered and any history of calls on the server that draws no code of the same digest, each
  -- exchange of a code of that digest is refused, whichever client asks and at every time.
  pub token_from_code-once :
      (parse_uri : Str → Option Uri) (verify : Str → Option AccessClaims) (db : Db) (c : Client)
      (form : Form) (jkt : Str) (fresh : Fresh) (now : ℕ) (r : TokenResponse) (db' : Db)
      (cs : List Call) (other : Client) (again : Form) (key : Str) (drawn : Fresh) (later : ℕ)
      → unique_codes db.codes ≡ true
      → token_from_code challenge_of sign_access sign_id digest p db c form jkt fresh now
        ≡ (answer r, db')
      → all
          (is_unwatched parse_uri verify challenge_of sign_access sign_id digest p
            (code_watch (digest form.code)))
          cs
        ≡ true
      → digest again.code ≡ digest form.code
      → is_answer
          (token_from_code challenge_of sign_access sign_id digest p
            (run parse_uri verify challenge_of sign_access sign_id digest p db' cs)
            other
            again
            key
            drawn
            later).0
        ≡ false
  token_from_code-once parse_uri verify db c form jkt fresh now r db' cs other again key drawn later
        u h n s =
      let (row, db1, g, e, t, k, i) = token_from_code-cases db c form jkt fresh now r db' h in
      let w = code_watch (digest form.code) in
      let stable = code_watch-IsStable (digest form.code) in
      let first : all (spent (digest form.code)) db1.codes ≡ true =
        consumed db form now row db1 u e in
      let issued =
        issue-passes w stable challenge_of sign_access sign_id digest p db1 c g row.scopes
          row.resources row.nonce jkt fresh.access_id fresh.refresh_id fresh.plaintext now
          (spent-passes (digest form.code) db1 first) refl in
      let start = subst (λ o. passes w stable o.1 ≡ true) i issued in
      let kept =
        run-passes parse_uri verify challenge_of sign_access sign_id digest p w stable db' cs start
          n in
      spent-refused (run parse_uri verify challenge_of sign_access sign_id digest p db' cs) other
        again key drawn later (rw s (ground (arith, kept)))
    where
      consumed :
          (db : Db) (form : Form) (now : ℕ) (row : OAuthCode) (db1 : Db)
          → unique_codes db.codes ≡ true
          → consume_oauth_code db (digest form.code) now ≡ ok (row, db1)
          → all (spent (digest form.code)) db1.codes ≡ true
      consumed db form now row db1 u e =
          let all_spent = consumed-spent (digest form.code) now db.codes u in
          unfold consume_oauth_code in (ground arith)
