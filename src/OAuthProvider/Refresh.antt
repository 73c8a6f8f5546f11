-- ===== src/OAuthProvider/Refresh.antt =====
-- What a refresh token gives: a narrower access token, and one successor at most.
use auth_all.Prelude.{
  ℕ, ◌≡◌, refl, ◌∙◌, inl, inr, Bool, true, false, ◌&&◌, ◌||◌, not, List, [], ◌∷◌, none, some, Str,
  arith, str_beq, str_beq_iff, str_beq_refl, ◌==◌, str_eq, all, any, find_where, update_where,
  all-true, Bool-cases, Option-cases,
}
use auth_all.Errors.{Result-cases}
use auth_all.OAuthProvider.Rows.{Db, OAuthRefreshToken}
use auth_all.OAuthProvider.Store.{
  oauth_refresh_token_by_hash, oauth_refresh_token_by_id, rotatable, unset,
}
use auth_all.OAuthProvider.Clients.{Provider, Client, answer, Reply-cases}
use auth_all.OAuthProvider.Issue.{AccessClaims, IdClaims, TokenResponse, mint_access_token}
use auth_all.OAuthProvider.Exchange.{
  Form, Fresh, live_grant, replay_rotation, present_rotated, token_from_refresh,
}
use auth_all.OAuthProvider.History.{Watch, IsStable, passes}

-- The unique index on the digest of a refresh token.
unfoldable pub unique_tokens : List OAuthRefreshToken → Bool
unique_tokens [] = true
unique_tokens (t ∷ ts) = not (any (λ r. r.token_hash == t.token_hash) ts) && unique_tokens ts

-- The rows of the digest were rotated.
abbrev pub spent : Str → OAuthRefreshToken → Bool
spent hash t = not (t.token_hash == hash) || not (unset t.rotated_at)

abbrev pub token_watch : Str → Watch
token_watch hash = record {
  watches_code = λ h. false;
  watches_token = λ h. h == hash;
  watches_grant = λ h. false;
  code_test = λ c. true;
  token_test = spent hash;
  grant_test = λ g. true;
}

pub token_watch-IsStable : (hash : Str) → IsStable (token_watch hash)
token_watch-IsStable hash = record {
  consumed = λ c at h. refl;
  rotated = λ t id at h. ground arith;
  revoked = λ t at h. h;
  ended = λ g at h. refl;
  other_code = λ c n. refl;
  other_token = λ t n. ground arith;
  other_grant = λ g n. refl;
}

pub spent-passes :
    (hash : Str) (db : Db)
    → all (spent hash) db.refresh_tokens ≡ true
    → passes (token_watch hash) (token_watch-IsStable hash) db ≡ true
spent-passes hash db h = ground (arith, all-true db.codes, all-true db.grants)

all-other :
    (hash : Str) (ts : List OAuthRefreshToken)
    → any (λ r. r.token_hash == hash) ts ≡ false
    → all (spent hash) ts ≡ true
all-other hash [] h = refl
all-other hash (t ∷ ts) h = ground (arith, all-other hash ts)

any-hash_rotate :
    (hash id successor : Str) (now : ℕ) (ts : List OAuthRefreshToken)
    → any
        (λ r. r.token_hash == hash)
        (update_where
          (rotatable id)
          (λ t. record t { rotated_at = some now; successor_id = some successor })
          ts)
      ≡ any (λ r. r.token_hash == hash) ts
unfolding update_where
any-hash_rotate hash id successor now [] = refl
any-hash_rotate hash id successor now (t ∷ ts) =
    ground (arith, any-hash_rotate hash id successor now ts)

-- The row that a digest finds is the only one of the digest.
pub rotated-spent :
    (hash successor : Str) (now : ℕ) (row : OAuthRefreshToken) (ts : List OAuthRefreshToken)
    → unique_tokens ts ≡ true
    → find_where (λ t. t.token_hash == hash) ts ≡ some row
    → unset row.revoked_at ≡ true
    → all (spent hash) (
        update_where
          (rotatable row.id)
          (λ t. record t { rotated_at = some now; successor_id = some successor })
          ts)
      ≡ true
unfolding unique_tokens find_where update_where
rotated-spent hash successor now row [] u f v = refl
rotated-spent hash successor now row (x ∷ ts) u f v =
    elim (Bool-cases (str_beq x.token_hash hash)) [
      | inr e ↦ let rest = rotated-spent hash successor now row ts in ground arith
      | inl e ↦
          let same = (str_beq_iff x.token_hash hash).0 e in
          let found : x ≡ row = ground (arith, e) in
          let rest =
            all-other hash
              (update_where (rotatable row.id)
                (λ t. record t { rotated_at = some now; successor_id = some successor }) ts)
              (any-hash_rotate hash row.id successor now ts ∙ ground (arith, same)) in
          ground (arith, str_beq_refl row.id)
    ]

pub found-spent :
    (hash : Str) (row : OAuthRefreshToken) (ts : List OAuthRefreshToken)
    → unique_tokens ts ≡ true
    → find_where (λ t. t.token_hash == hash) ts ≡ some row
    → unset row.rotated_at ≡ false
    → all (spent hash) ts ≡ true
unfolding unique_tokens find_where
found-spent hash row [] u f v = refl
found-spent hash row (x ∷ ts) u f v = elim (Bool-cases (str_beq x.token_hash hash)) [
  | inr e ↦ let rest = found-spent hash row ts in ground arith
  | inl e ↦
      let same = (str_beq_iff x.token_hash hash).0 e in
      let found : x ≡ row = ground (arith, e) in
      let rest = all-other hash ts (ground (arith, same)) in ground arith
]

find-spent :
    (hash : Str) (row : OAuthRefreshToken) (ts : List OAuthRefreshToken)
    → all (spent hash) ts ≡ true
    → find_where (λ t. t.token_hash == hash) ts ≡ some row
    → unset row.rotated_at ≡ false
unfolding find_where
find-spent hash row [] h f = ground arith
find-spent hash row (t ∷ ts) h f = ground (arith, find-spent hash row ts)

module _ (challenge_of : Str → Str) (sign_access : AccessClaims → Str) (sign_id : IdClaims → Str)
    (digest : Str → Str) (p : Provider) where
  replay-no_refresh :
      (db : Db) (c : Client) (successor jkt : Str) (fresh : Fresh) (now : ℕ) (r : TokenResponse)
      → (replay_rotation challenge_of sign_access sign_id digest p db c successor jkt fresh now).0
        ≡ answer r
      → r.refresh_token ≡ none
  unfolding replay_rotation
  replay-no_refresh db c successor jkt fresh now r h =
      elim (Result-cases (oauth_refresh_token_by_id db successor)) [
        | inr (x, e) ↦ absurd (ground arith)
        | inl (t, e) ↦ elim (Reply-cases (live_grant db t.grant_id)) [
          | inr (x, e') ↦ absurd (ground arith)
          | inl (g, e') ↦
              elim (Option-cases (
                mint_access_token sign_access sign_id digest p db c g t.scopes t.resources jkt
                  fresh.access_id now)) [
                    | inl m ↦ absurd (ground arith)
                    | inr ((access, expires, db'), m) ↦ ground arith
                  ]
        ]
      ]

  -- A token that was rotated.
  pub spent-no_refresh :
      (db : Db) (c : Client) (form : Form) (jkt : Str) (fresh : Fresh) (now : ℕ) (r : TokenResponse)
      → all (spent (digest form.refresh_token)) db.refresh_tokens ≡ true
      → (token_from_refresh challenge_of sign_access sign_id digest p db c form jkt fresh now).0
        ≡ answer r
      → r.refresh_token ≡ none
  unfolding token_from_refresh present_rotated oauth_refresh_token_by_hash
  spent-no_refresh db c form jkt fresh now r s h =
      elim (Option-cases
        (find_where (λ t. t.token_hash == digest form.refresh_token) db.refresh_tokens)) [
          | inl e ↦ absurd (ground arith)
          | inr (row, e) ↦
              let v = find-spent (digest form.refresh_token) row db.refresh_tokens s e in
              elim (Option-cases row.rotated_at) [
                | inl n ↦ absurd (ground arith)
                | inr (at, n) ↦ elim (Option-cases row.successor_id) [
                  | inl m ↦ absurd (ground arith)
                  | inr (successor, m) ↦
                      replay-no_refresh db c successor jkt fresh now r (ground arith)
                ]
              ]
        ]
