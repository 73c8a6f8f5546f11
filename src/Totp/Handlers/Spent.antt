-- ===== src/Totp/Handlers/Spent.antt =====
-- A challenge is spent by the first attempt, at either endpoint and whatever its outcome.
use auth_all.Prelude.{
  ℕ, ◌≡◌, ◌∙◌, ap, inl, inr, Bool, true, List, Option, none, Str, arith, any, Bool-cases,
}
use auth_all.Errors.{Error, Result, ok, err, invalid_token, totp_not_enrolled, Result-cases}
use auth_all.Accounts.{User, Session}
use auth_all.Sessions.{Settings}
use auth_all.Tokens.{Token, consume_token}
use auth_all.Tokens.Once.{Call, run, unique_hashes, never_issues, consume_token-once}
use auth_all.Totp.Recovery.{coded, consume_code, normalize_recovery_code}
use auth_all.Totp.Enrolment.{Callees, State, mfa_kind, hour, check_code}
use auth_all.Totp.Handlers.{
  Request, request_mfa_token, redeem, forget_factor, sign_in, recovered, handle_verify,
  handle_recovery,
}

pub data Endpoint : Type 0 where
  verify recovery : Endpoint

check_code-tokens :
    (lib : Callees) (db : State) (user : Str) (c : Bool) (e : Error) (code : Str) (now : ℕ)
    (db' : State)
    → check_code lib db user c e code now ≡ ok db'
    → db'.tokens ≡ db.tokens
unfolding check_code
check_code-tokens lib db user c e code now db' h = ground arith

module _ (lib : Callees) (cfg : Settings) (before : Session → User → Option Error) where
  unfoldable pub attempt : Endpoint → State → Request → Result Session × State
  attempt verify db r = handle_verify lib cfg before db r
  attempt recovery db r = handle_recovery lib cfg before db r

  attempt-tokens :
      (at : Endpoint) (db : State) (r : Request)
      → (attempt at db r).1.tokens ≡ (redeem lib db r).1.tokens
  unfolding attempt handle_verify handle_recovery recovered consume_code sign_in forget_factor
  attempt-tokens verify db r = elim (Result-cases (redeem lib db r).0) [
    | inr (e, p) ↦ ground (arith, p)
    | inl (user, p) ↦
        let db1 = (redeem lib db r).1 in
        elim (Result-cases (check_code lib db1 user.id true totp_not_enrolled r.code r.now)) [
          | inr (e, q) ↦ ground (arith, p, q)
          | inl (db2, q) ↦
              let k = check_code-tokens lib db1 user.id true totp_not_enrolled r.code r.now db2 q in
              ground (arith, p, q, k)
        ]
  ]
  attempt-tokens recovery db r = elim (Result-cases (redeem lib db r).0) [
    | inr (e, p) ↦ ground (arith, p)
    | inl (user, p) ↦
        let db1 = (redeem lib db r).1 in
        let hash = lib.digest (normalize_recovery_code lib.lower r.code) in
        elim (Bool-cases (any (coded user.id hash) db1.recovery)) [
          | inl q ↦ ground (arith, p, q)
          | inr q ↦ ground (arith, p, q)
        ]
  ]

  redeem-consumed :
      (db : State) (r : Request) (t : Token) (rows : List Token)
      → r.limited ≡ none
      → consume_token lib.digest hour db.tokens mfa_kind (request_mfa_token r) r.now ≡ ok (t, rows)
      → (redeem lib db r).1.tokens ≡ rows
  unfolding redeem consume_token
  redeem-consumed db r t rows l h = ground arith

  redeem-refused :
      (db : State) (r : Request)
      → r.limited ≡ none
      → consume_token lib.digest hour db.tokens mfa_kind (request_mfa_token r) r.now
        ≡ err invalid_token
      → redeem lib db r ≡ (err invalid_token, db)
  unfolding redeem
  redeem-refused db r l h = ground arith

  attempt-refused :
      (at : Endpoint) (db : State) (r : Request)
      → redeem lib db r ≡ (err invalid_token, db)
      → attempt at db r ≡ (err invalid_token, db)
  unfolding attempt handle_verify handle_recovery
  attempt-refused verify db r h = ground arith
  attempt-refused recovery db r h = ground arith

  -- In a table with unique digests, one attempt that reaches a live challenge spends it, whether its
  -- code is right or wrong: in every later state whose tokens went through a history that issued no
  -- token of the same digest, an attempt with the same challenge that the rate limit lets through
  -- is refused as an invalid token and changes nothing. Both attempts can be at either endpoint.
  pub attempt-spends :
      (at at' : Endpoint) (db later : State) (r r' : Request) (t : Token) (rows : List Token)
      (cs : List Call)
      → unique_hashes db.tokens ≡ true
      → r.limited ≡ none
      → consume_token lib.digest hour db.tokens mfa_kind (request_mfa_token r) r.now ≡ ok (t, rows)
      → never_issues lib.digest hour (lib.digest (request_mfa_token r)) cs ≡ true
      → later.tokens ≡ run lib.digest hour (attempt at db r).1.tokens cs
      → request_mfa_token r' ≡ request_mfa_token r
      → r'.limited ≡ none
      → attempt at' later r' ≡ (err invalid_token, later)
  attempt-spends at at' db later r r' t rows cs u l h n e same l' = attempt-refused at' later r' (
      redeem-refused later r' l' (
        ap (λ xs. consume_token lib.digest hour xs mfa_kind (request_mfa_token r') r'.now)
          (e
            ∙ ap (λ xs. run lib.digest hour xs cs)
                (attempt-tokens at db r ∙ redeem-consumed db r t rows l h))
        ∙ ap (λ c. consume_token lib.digest hour (run lib.digest hour rows cs) mfa_kind c r'.now)
            same
        ∙ consume_token-once lib.digest hour db.tokens mfa_kind (request_mfa_token r) r.now t rows
            cs mfa_kind r'.now u h n))
