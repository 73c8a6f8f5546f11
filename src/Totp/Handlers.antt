-- ===== src/Totp/Handlers.antt =====
-- handlers_totp.go: the endpoints of the second factor. The random secret, codes and tokens, the id of a
-- row and the clock are arguments. An endpoint of a signed-in user is modelled after its gates, for the
-- session and the user that `requireSession` found; the endpoints of a pending sign-in are modelled from
-- the challenge on. Events, the cookie and the log are left out. A failure of the database is not modelled.
mod Examples
pub mod Spent
pub mod Recovered
pub mod Confirmed
use auth_all.Prelude.{
  ℕ, ◌+◌, Bool, true, false, ◌&&◌, ◌||◌, not, List, [], ◌∷◌, Option, none, some, Str, if◌then◌else◌,
  ◌==◌, nat_eq, str_eq, is_empty, keep_if,
}
use auth_all.Errors.{
  Error, Result, ok, err, guard, ◌>>=◌, ◌>>◌, invalid_token, totp_not_enrolled,
  totp_already_enrolled, invalid_recovery_code,
}
use auth_all.Accounts.{User, Session, Db, user_by_id, delete_session}
use auth_all.Sessions.{Settings, public_error, create_session}
use auth_all.Tokens.{Token, consume_token}
use auth_all.Totp.{Totp, upsert, verify_totp_code}
use auth_all.Totp.Recovery.{
  RecoveryCode, normalize_recovery_code, confirm, delete_enrolment, consume_code, delete_by_user,
}
use auth_all.Totp.Enrolment.{
  totp_enrolment, totp_confirmed, mfa_kind, hour, issue_recovery_codes, check_code, Callees, State,
}

abbrev pub new_enrolment : Callees → User → Str → ℕ → Totp
new_enrolment lib user raw now = record {
  user_id = user.id;
  secret = lib.base32_encode raw;
  confirmed_at = none;
  last_step = 0;
  created_at = now;
  updated_at = now;
}

-- `handleTOTPEnrol`.
unfoldable pub handle_enrol : Callees → State → User → Str → ℕ → Result State
unfolding totp_confirmed upsert
handle_enrol lib db user raw now = do
  guard (not (totp_confirmed db user.id)) totp_already_enrolled
  ok (record db { enrolments = upsert db.enrolments (new_enrolment lib user raw now) })

-- `revokeOtherSessions` over the list of the user's sessions.
unfoldable pub revoke_others : Db → Str → List Session → Db
unfolding delete_session
revoke_others db keep [] = db
revoke_others db keep (s ∷ ss) =
    revoke_others (if s.id == keep then db else delete_session db s.id) keep ss

unfoldable pub revoke_other_sessions : Db → Str → Str → Db
unfolding revoke_others
revoke_other_sessions db user keep =
    revoke_others db keep (keep_if (λ s. s.user_id == user) db.sessions)

-- `handleTOTPConfirm`.
unfoldable pub handle_confirm : Callees → State → Session → User → Str → List Str → ℕ → Result State
unfolding check_code confirm issue_recovery_codes revoke_other_sessions
handle_confirm lib db s user code plaintexts now = do
  db1 ← check_code lib db user.id false totp_already_enrolled code now
  elim (confirm db1.enrolments user.id now) [
    | err e ↦ err (public_error e)
    | ok rows ↦
        let db2 =
          issue_recovery_codes lib (record db1 { enrolments = rows }) user.id plaintexts now in
        ok (record db2 { accounts = revoke_other_sessions db2.accounts user.id s.id })
  ]

-- Both tables of the second factor, without the rows of a user.
unfoldable pub forget_factor : State → Str → State
unfolding delete_enrolment delete_by_user
forget_factor db user = record db {
  enrolments = delete_enrolment db.enrolments user;
  recovery = delete_by_user db.recovery user;
}

-- `handleTOTPDisable`: the enrolment can be unconfirmed.
unfoldable pub handle_disable : Callees → State → User → Str → ℕ → Result State
unfolding totp_enrolment verify_totp_code forget_factor
handle_disable lib db user code now = do
  found ← totp_enrolment lib db user.id
  rows ← verify_totp_code lib.code db.enrolments user.id found.1 code now
  ok (forget_factor (record db { enrolments = rows }) user.id)

-- `handleTOTPRegenerate`.
unfoldable pub handle_regenerate : Callees → State → User → Str → List Str → ℕ → Result State
unfolding check_code issue_recovery_codes
handle_regenerate lib db user code plaintexts now = do
  db1 ← check_code lib db user.id true totp_not_enrolled code now
  ok (issue_recovery_codes lib db1 user.id plaintexts now)

-- A request of a pending sign-in: the challenge of its body and of its cookie, whether the rate limit
-- refuses it, its code, the token of a session it already carries, and what the answer draws.
pub record Request : Type 0 where
  pub body_token : Str
  pub cookie_token : Str
  pub limited : Option Error
  pub code : Str
  pub previous : Str
  pub token : Str
  pub id : Str
  pub now : ℕ

-- `requestMFAToken`.
unfoldable pub request_mfa_token : Request → Str
request_mfa_token r = if is_empty r.body_token then r.cookie_token else r.body_token

unfoldable pub owner : State → Token → Result User
owner db t = elim t.user_id [
  | none ↦ err invalid_token
  | some id ↦ elim (user_by_id db.accounts id) [ err e ↦ err (public_error e) | ok user ↦ ok user ]
]

-- The part that the two endpoints share: the challenge is consumed before the code is checked.
unfoldable pub redeem : Callees → State → Request → Result User × State
unfolding request_mfa_token consume_token owner
redeem lib db r =
    if is_empty (request_mfa_token r) then (err invalid_token, db) else elim r.limited [
      | some e ↦ (err e, db)
      | none ↦ elim (consume_token lib.digest hour db.tokens mfa_kind (request_mfa_token r) r.now) [
        | err e ↦ (err e, db)
        | ok (t, rows) ↦ (owner db t, record db { tokens = rows })
      ]
    ]

-- `issueSession`, with the hooks' answer.
unfoldable pub sign_in :
    Callees
    → Settings
    → (Session → User → Option Error)
    → State
    → User
    → Request
    → Result Session × State
unfolding create_session
sign_in lib cfg before db user r =
    let done =
      create_session lib.digest cfg before db.accounts user r.previous r.token r.id r.now in
    (done.0, record db { accounts = done.1 })

module _ (lib : Callees) (cfg : Settings) (before : Session → User → Option Error) where
  -- `handleTOTPVerify`.
  unfoldable pub handle_verify : State → Request → Result Session × State
  unfolding redeem check_code sign_in
  handle_verify db r =
      let spent = redeem lib db r in
      elim spent.0 [
        | err e ↦ (err e, spent.1)
        | ok user ↦ elim (check_code lib spent.1 user.id true totp_not_enrolled r.code r.now) [
          | err e ↦ (err e, spent.1)
          | ok db' ↦ sign_in lib cfg before db' user r
        ]
      ]

  -- `handleTOTPRecovery` after the challenge, for the outcome of the consumed code.
  unfoldable pub recovered :
      State → User → Request → Bool × List RecoveryCode → Result Session × State
  unfolding forget_factor sign_in
  recovered db user r (false, rows) = (err invalid_recovery_code, record db { recovery = rows })
  recovered db user r (true, rows) =
      sign_in lib cfg before (forget_factor (record db { recovery = rows }) user.id) user r

  unfoldable pub handle_recovery : State → Request → Result Session × State
  unfolding redeem recovered consume_code normalize_recovery_code
  handle_recovery db r =
      let spent = redeem lib db r in
      elim spent.0 [
        | err e ↦ (err e, spent.1)
        | ok user ↦ recovered spent.1 user r (
            consume_code spent.1.recovery user.id
              (lib.digest (normalize_recovery_code lib.lower r.code)))
      ]
