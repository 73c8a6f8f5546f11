-- ===== src/Totp/Enrolment.antt =====
-- The enrolment of a user and the challenge of a pending sign-in, of handlers_totp.go; `DecodeSecret` of
-- internal/totp/totp.go. The random tokens, the id of a row and the clock are arguments. A failure of the
-- database is not modelled.
use auth_all.Prelude.{
  ℕ, Bool, true, false, ◌&&◌, not, List, [], ◌∷◌, Option, none, some, Str, if◌then◌else◌, ◌==◌,
  nat_eq, str_eq, is_empty, keep_if, map,
}
use auth_all.Errors.{Error, Result, ok, err, guard, ◌>>=◌, ◌>>◌, internal, totp_not_enrolled}
use auth_all.Strings.{trim_space}
use auth_all.Accounts.{Db}
use auth_all.Tokens.{Token, IssueTokenInput, issue_token}
use auth_all.Totp.{Totp, get, verify_totp_code}
use auth_all.Totp.Recovery.{RecoveryCode, normalize_recovery_code, replace_all}

-- What the endpoints call outside the repository: SHA-256, base32, `strings.ToLower`, `ToUpper`, and the
-- HMAC code of a secret and a step.
pub record Callees : Type 0 where
  pub digest : Str → Str
  pub lower : Str → Str
  pub upper : Str → Str
  pub base32_encode : Str → Str
  pub base32_decode : Str → Option Str
  pub code : Str → ℕ → ℕ → Str

pub record State : Type 0 where
  pub accounts : Db
  pub tokens : List Token
  pub enrolments : List Totp
  pub recovery : List RecoveryCode

-- `strings.TrimRight(s, "=")`
unfoldable pub trim_padding : Str → Str
trim_padding [] = []
trim_padding (c ∷ cs) =
    let rest = trim_padding cs in if is_empty rest && c == 61 then [] else c ∷ rest

-- `DecodeSecret`; every refusal is one error.
unfoldable pub decode_secret : Callees → Str → Option Str
unfolding trim_padding
decode_secret lib s =
    let bare = trim_padding (keep_if (λ c. not (c == 32)) (lib.upper (trim_space s))) in
    if is_empty bare then none else elim (lib.base32_decode bare) [
      | none ↦ none
      | some raw ↦ if is_empty raw then none else some raw
    ]

-- `totpEnrolment`.
unfoldable pub totp_enrolment : Callees → State → Str → Result (Totp × Str)
unfolding get decode_secret
totp_enrolment lib db user = elim (get db.enrolments user) [
  | err e ↦ err totp_not_enrolled
  | ok row ↦ elim (decode_secret lib row.secret) [
    | none ↦ err internal
    | some secret ↦ ok (row, secret)
  ]
]

abbrev pub is_confirmed : Totp → Bool
is_confirmed row = elim row.confirmed_at [ none ↦ false | some at ↦ true ]

-- `totpConfirmed` of a program with the second factor enabled.
unfoldable pub totp_confirmed : State → Str → Bool
unfolding get
totp_confirmed db user = elim (get db.enrolments user) [ err e ↦ false | ok row ↦ is_confirmed row ]

abbrev pub mfa_kind : Str
mfa_kind = 109 ∷ 102 ∷ 97 ∷ []

-- A challenge lives five minutes; a token of no lifetime, an hour.
abbrev pub mfa_challenge_ttl : ℕ
mfa_challenge_ttl = 300

abbrev pub hour : ℕ
hour = 3600

abbrev pub challenge_input : Str → IssueTokenInput
challenge_input user = record {
  kind = mfa_kind;
  identifier = user;
  user_id = some user;
  ttl = mfa_challenge_ttl;
  replace_existing = true;
}

-- `mfaChallenge`: the state, and whether the user must pass a second factor.
unfoldable pub mfa_challenge : Callees → State → Str → Str → Str → ℕ → Result (Bool × State)
unfolding totp_confirmed issue_token
mfa_challenge lib db user plaintext id now =
    if totp_confirmed db user
    then (do
      let issued = issue_token lib.digest hour db.tokens (challenge_input user) plaintext id now
      elim issued [ err e ↦ err e | ok (t, rows) ↦ ok (true, record db { tokens = rows }) ])
    else ok (false, db)

-- `issueRecoveryCodes` of the plaintext codes.
unfoldable pub issue_recovery_codes : Callees → State → Str → List Str → ℕ → State
unfolding replace_all normalize_recovery_code
issue_recovery_codes lib db user plaintexts now = record db {
  recovery =
      replace_all db.recovery user
        (map (λ c. lib.digest (normalize_recovery_code lib.lower c)) plaintexts) now;
}

-- The check of a code in the endpoints of a confirmed enrolment, and of an unconfirmed one.
unfoldable pub check_code : Callees → State → Str → Bool → Error → Str → ℕ → Result State
unfolding totp_enrolment verify_totp_code
check_code lib db user confirmed otherwise code now = do
  found ← totp_enrolment lib db user
  guard (if confirmed then is_confirmed found.0 else not (is_confirmed found.0)) otherwise
  rows ← verify_totp_code lib.code db.enrolments user found.1 code now
  ok (record db { enrolments = rows })
