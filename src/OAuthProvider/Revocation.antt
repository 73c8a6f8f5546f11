-- ===== src/OAuthProvider/Revocation.antt =====
-- What a revoked grant leaves: nothing that opens or refreshes, ever again.
use auth_all.Prelude.{
  ℕ, ◌+◌, ◌<◌, ◌≡◌, refl, ap, inl, inr, Bool, true, false, ◌&&◌, ◌||◌, not, List, [], ◌∷◌, Option,
  none, some, Str, arith, is_empty, str_beq, str_beq_iff, str_beq_refl, ◌==◌, str_eq, all,
  find_where, update_where, all-true, all-find_where, find_where-some, Bool-cases, Option-cases,
}
use auth_all.Errors.{ok, Result-cases}
use auth_all.OAuthProvider.Rows.{Db, OAuthGrant, OAuthRefreshToken}
use auth_all.OAuthProvider.Store.{
  revoke_oauth_grant, revoke_oauth_grants_of_consent, delete_oauth_consent, oauth_grant_by_id,
  oauth_access_token_by_id, oauth_refresh_token_by_hash, unset, owned_by,
}
use auth_all.OAuthProvider.Clients.{
  Provider, Client, Uri, refuse, is_answer, invalid_grant, allows_grant, grant_refresh_token,
}
use auth_all.OAuthProvider.Issue.{AccessClaims, IdClaims}
use auth_all.OAuthProvider.Exchange.{
  Form, Fresh, binds, live_grant, present_rotated, token_from_refresh,
}
use auth_all.OAuthProvider.Resource.{VerifiedToken, verify_access_token}
use auth_all.OAuthProvider.Authorize.{handle_withdraw_consent}
use auth_all.OAuthProvider.History.{Watch, IsStable, passes}
use auth_all.OAuthProvider.Runs.{Call, run, is_unwatched, run-passes}

-- The grants of the identifier are revoked.
abbrev pub dead : Str → OAuthGrant → Bool
dead id g = not (g.id == id) || not (unset g.revoked_at)

abbrev pub grant_watch : Str → Watch
grant_watch id = record {
  watches_code = λ h. false;
  watches_token = λ h. false;
  watches_grant = λ g. g == id;
  code_test = λ c. true;
  token_test = λ t. true;
  grant_test = dead id;
}

grant_watch-IsStable : (id : Str) → IsStable (grant_watch id)
grant_watch-IsStable id = record {
  consumed = λ c at h. refl;
  rotated = λ t i at h. refl;
  revoked = λ t at h. refl;
  ended = λ g at h. ground arith;
  other_code = λ c n. refl;
  other_token = λ t n. refl;
  other_grant = λ g n. ground arith;
}

dead-passes :
    (id : Str) (db : Db)
    → all (dead id) db.grants ≡ true
    → passes (grant_watch id) (grant_watch-IsStable id) db ≡ true
dead-passes id db h = ground (arith, all-true db.codes, all-true db.refresh_tokens)

-- The rows of the identifier that an update selects are dead after it.
revoked-dead :
    (id : Str) (p : OAuthGrant → Bool) (at : ℕ) (gs : List OAuthGrant)
    → all (λ g. not (g.id == id) || p g) gs ≡ true
    → all
        (dead id)
        (update_where (λ g. unset g.revoked_at && p g) (λ g. record g { revoked_at = some at }) gs)
      ≡ true
unfolding update_where
revoked-dead id p at [] h = refl
revoked-dead id p at (g ∷ gs) h = ground (arith, revoked-dead id p at gs)

all-own : (id : Str) (gs : List OAuthGrant) → all (λ g. not (g.id == id) || g.id == id) gs ≡ true
all-own id [] = refl
all-own id (g ∷ gs) = ground (arith, all-own id gs)

dead-unset :
    (id : Str) (gs : List OAuthGrant) (g : OAuthGrant)
    → all (dead id) gs ≡ true
    → find_where (λ g. g.id == id) gs ≡ some g
    → unset g.revoked_at ≡ false
dead-unset id gs g h f =
    let t = all-find_where (dead id) (λ g. g.id == id) gs g h f in
    let s = find_where-some (λ g. g.id == id) gs g f in ground arith

-- No access token of the grant verifies.
dead-verify :
    (verify : Str → Option AccessClaims) (p : Provider) (db : Db) (id token : Str) (now : ℕ)
    (v : VerifiedToken)
    → all (dead id) db.grants ≡ true
    → verify_access_token verify p db token now ≡ some v
    → str_beq v.row.grant_id id ≡ false
unfolding verify_access_token oauth_grant_by_id
dead-verify verify p db id token now v h e = elim (Option-cases (verify token)) [
  | inl a ↦ absurd (ground arith)
  | inr (claims, a) ↦ elim (Result-cases (oauth_access_token_by_id db claims.id)) [
    | inr (x, b) ↦ absurd (ground arith)
    | inl (row, b) ↦ elim (Option-cases (find_where (λ g. g.id == row.grant_id) db.grants)) [
      | inl d ↦ absurd (ground arith)
      | inr (g, d) ↦ elim (Bool-cases (str_beq row.grant_id id)) [
        | inr n ↦ ground arith
        | inl n ↦
            let same = (str_beq_iff row.grant_id id).0 n in
            let found : find_where (λ g. g.id == id) db.grants ≡ some g = rw (← same) d in
            let closed = dead-unset id db.grants g h found in absurd (ground arith)
      ]
    ]
  ]
]

dead-live_grant :
    (db : Db) (id : Str) → all (dead id) db.grants ≡ true → is_answer (live_grant db id) ≡ false
unfolding live_grant oauth_grant_by_id
dead-live_grant db id h = elim (Option-cases (find_where (λ g. g.id == id) db.grants)) [
  | inl e ↦ ground arith
  | inr (g, e) ↦ let closed = dead-unset id db.grants g h e in ground arith
]

module _ (parse_uri : Str → Option Uri) (verify : Str → Option AccessClaims)
    (challenge_of : Str → Str) (sign_access : AccessClaims → Str) (sign_id : IdClaims → Str)
    (digest : Str → Str) (p : Provider) where
  -- After any history of calls that makes no grant of the identifier.
  run-dead :
      (db : Db) (id : Str) (cs : List Call)
      → all (dead id) db.grants ≡ true
      → all
          (is_unwatched parse_uri verify challenge_of sign_access sign_id digest p (grant_watch id))
          cs
        ≡ true
      → all (dead id) (run parse_uri verify challenge_of sign_access sign_id digest p db cs).grants
        ≡ true
  run-dead db id cs h n =
      let kept =
        run-passes parse_uri verify challenge_of sign_access sign_id digest p (grant_watch id)
          (grant_watch-IsStable id) db cs (dead-passes id db h) n in
      ground arith

  -- A replay ends the grant: when a client that may refresh presents a refresh token of its own that was
  -- rotated and is neither revoked nor expired, with the key that the token is bound to if it is bound to
  -- one, after the grace window, the call is refused, and from then on, through any history of calls that
  -- makes no grant of the same identifier, no access token of the grant verifies.
  pub replay-revokes :
      (db : Db) (c : Client) (form : Form) (jkt : Str) (fresh : Fresh) (now : ℕ)
      (row : OAuthRefreshToken) (at : ℕ) (cs : List Call) (token : Str) (later : ℕ)
      (v : VerifiedToken)
      → allows_grant c grant_refresh_token ≡ true
      → is_empty form.refresh_token ≡ false
      → oauth_refresh_token_by_hash db (digest form.refresh_token) ≡ ok row
      → row.client_id ≡ c.client_id
      → row.revoked_at ≡ none
      → now < row.expires_at
      → binds row.jkt jkt ≡ true
      → row.rotated_at ≡ some at
      → at + p.rotation_grace < now
      → all
          (is_unwatched parse_uri verify challenge_of sign_access sign_id digest p
            (grant_watch row.grant_id))
          cs
        ≡ true
      → ((token_from_refresh challenge_of sign_access sign_id digest p db c form jkt fresh now).0
          ≡ refuse invalid_grant)
        × (verify_access_token verify p
                (run parse_uri verify challenge_of sign_access sign_id digest p
                  (token_from_refresh challenge_of sign_access sign_id digest p db c form jkt fresh
                    now).1
                  cs)
                token
                later
              ≡ some v
            → str_beq v.row.grant_id row.grant_id ≡ false)
  replay-revokes db c form jkt fresh now row at cs token later v a b f s u l k r g n =
      let done = refused in
      (
        ap (λ o. o.0) done,
        λ e.
            dead-verify verify p _ row.grant_id token later v
              (run-dead _ row.grant_id cs (rw done ended) n) e,
      )
    where
      refused :
          token_from_refresh challenge_of sign_access sign_id digest p db c form jkt fresh now
          ≡ (refuse invalid_grant, revoke_oauth_grant db row.grant_id now)
      refused = elim (Option-cases row.successor_id) [
        | inl m ↦
            unfold token_from_refresh present_rotated in (ground (arith, str_beq_refl c.client_id))
        | inr (successor, m) ↦
            unfold token_from_refresh present_rotated in (ground (arith, str_beq_refl c.client_id))
      ]

      ended : all (dead row.grant_id) (revoke_oauth_grant db row.grant_id now).grants ≡ true
      ended =
          unfold revoke_oauth_grant in
          (revoked-dead row.grant_id (λ g. g.id == row.grant_id) now db.grants
            (all-own row.grant_id db.grants))

  -- The withdrawal of a consent ends each grant that the user gave the client: from then on, through any
  -- history of calls that makes no grant of the same identifier, no access token of it verifies.
  pub withdraw-revokes :
      (db : Db) (user client : Str) (now : ℕ) (id : Str) (cs : List Call) (token : Str) (later : ℕ)
      (v : VerifiedToken)
      → all (λ g. not (g.id == id) || (owned_by g.user_id user && g.client_id == client)) db.grants
        ≡ true
      → all
          (is_unwatched parse_uri verify challenge_of sign_access sign_id digest p (grant_watch id))
          cs
        ≡ true
      → verify_access_token verify p
          (run parse_uri verify challenge_of sign_access sign_id digest p
            (handle_withdraw_consent db user client now)
            cs)
          token
          later
        ≡ some v
      → str_beq v.row.grant_id id ≡ false
  withdraw-revokes db user client now id cs token later v h n e =
      dead-verify verify p _ id token later v (run-dead _ id cs ended n) e
    where
      selected : OAuthGrant → Bool
      selected g = owned_by g.user_id user && g.client_id == client

      ended : all (dead id) (handle_withdraw_consent db user client now).grants ≡ true
      ended =
          let closed =
            revoked-dead id (λ g. owned_by g.user_id user && g.client_id == client) now db.grants
              h in
          unfold handle_withdraw_consent delete_oauth_consent revoke_oauth_grants_of_consent in
          (ground arith)
