-- ===== src/Totp/Handlers/Examples.antt =====
-- Sign-ins with a second factor, with small functions in place of the digests and the HMAC.
use auth_all.Prelude.{
  ◌≡◌, refl, ap, nat_eq, ◌<◌, true, false, [], ◌∷◌, Option, some, none, Str, String, ℕ, ◌+◌, ◌%◌,
  codes, str_beq, arith, update_where, ◌==◌, str_eq, inl, inr, List, any, length, contains,
  find_where, delete_where, sym, ◌∙◌, subst, Bool-cases, str_beq_iff,
}
use auth_all.Errors.{Error, err, ok, invalid_token}
use auth_all.Strings.{trim_space, trim_left, trim_right, is_space}
use auth_all.Accounts.{User, Session, user_by_id, delete_session, insert_session}
use auth_all.Sessions.{Settings, create_session, revoke_previous}
use auth_all.Tokens.{Token, consume_token, consume_row}
use auth_all.Tokens.Once.{unique_hashes, never_issues, run}
use auth_all.Totp.{
  normalize, step, well_formed, last_match, validate, advance_step, verify_totp_code, get,
}
use auth_all.Totp.Examples.{digit_code, enrolled}
use auth_all.Totp.Recovery.{
  RecoveryCode, normalize_recovery_code, confirm, delete_enrolment, coded, consume_code,
  delete_by_user, count_by_user, code_row, replace_all,
}
use auth_all.Totp.Recovery.Generation.{
  char_at, characters, new_recovery_code, new_recovery_codes, IsVaried, distinct,
  new_recovery_codes-terminates,
}
use auth_all.Totp.Enrolment.{
  Callees, State, trim_padding, decode_secret, totp_enrolment, totp_confirmed, mfa_kind,
  mfa_challenge, issue_recovery_codes, check_code,
}
use auth_all.Totp.Handlers.{
  Request, revoke_others, revoke_other_sessions, handle_confirm, forget_factor, request_mfa_token,
  owner, redeem, sign_in, handle_verify, recovered, handle_recovery,
}
use auth_all.Totp.Handlers.Spent.{verify, recovery, attempt, attempt-spends}
use auth_all.Totp.Handlers.Recovered.{handle_recovery-clears}
use auth_all.Totp.Handlers.Confirmed.{other_session, handle_confirm-enrols}

abbrev same : Str → Str
same s = s

-- A base32 that writes the secret as it is, and takes the lower case for the upper.
abbrev callees : Callees
callees = record {
  digest = same;
  lower = same;
  upper = same;
  base32_encode = same;
  base32_decode = λ s. some s;
  code = digit_code;
}

abbrev user : User
user = record {
  id = codes "u";
  role = [];
  disabled_at = none;
  must_change_password = false;
  updated_at = 0;
}

abbrev session_at : String → ℕ → Session
session_at name now = record {
  id = codes name;
  user_id = codes "u";
  token_hash = codes name;
  created_at = now;
  expires_at = now + 500;
  last_seen_at = now;
}

abbrev challenge : Token
challenge = record {
  id = codes "c";
  user_id = some (codes "u");
  kind = mfa_kind;
  identifier = codes "u";
  token_hash = codes "m";
  created_at = 90;
  expires_at = 390;
  consumed_at = none;
}

abbrev listed : String → RecoveryCode
listed hash = code_row (codes "u") 1 (codes hash)

abbrev pending : State
pending = record {
  accounts = record { users = user ∷ []; sessions = [] };
  tokens = challenge ∷ [];
  enrolments = enrolled 0 ∷ [];
  recovery = listed "a2" ∷ listed "b3" ∷ [];
}

abbrev request : String → Request
request code = record {
  body_token = [];
  cookie_token = codes "m";
  limited = none;
  code = codes code;
  previous = [];
  token = codes "s1";
  id = codes "s1";
  now = 100;
}

abbrev settings : Settings
settings = record { ttl = 500; idle_timeout = 50; touch_interval = 5 }

abbrev accepts_all : Session → User → Option Error
accepts_all s u = none

-- The code of the first attempt is wrong.
abbrev refused : State
refused = record pending { tokens = record challenge { consumed_at = some 100 } ∷ [] }

attempt-spends_example :
    attempt callees settings accepts_all recovery refused (request "a-2")
    ≡ (err invalid_token, refused)
unfolding attempt handle_verify redeem request_mfa_token consume_token consume_row find_where
    update_where str_beq unique_hashes never_issues owner user_by_id check_code totp_enrolment get
    decode_secret trim_padding verify_totp_code validate normalize step well_formed last_match run
    trim_space trim_left trim_right is_space
attempt-spends_example =
    attempt-spends callees settings accepts_all verify recovery pending refused (request "000001")
      (request "a-2") (record challenge { consumed_at = some 100 })
      (record challenge { consumed_at = some 100 } ∷ []) [] refl refl refl refl refl refl refl

abbrev recovered_state : State
recovered_state = record {
  accounts = record { users = user ∷ []; sessions = session_at "s1" 100 ∷ [] };
  tokens = record challenge { consumed_at = some 100 } ∷ [];
  enrolments = [];
  recovery = [];
}

handle_recovery-clears_example :
    (owner : User) × ((redeem callees pending (request "a-2")).0 ≡ ok owner)
    × (any (coded owner.id (codes "a2")) pending.recovery ≡ true)
    × ((session_at "s1" 100).user_id ≡ owner.id)
    × (find_where (λ x. x.id == codes "s1") recovered_state.accounts.sessions
        ≡ some (session_at "s1" 100))
    × (any (λ e. e.user_id == owner.id) recovered_state.enrolments ≡ false)
    × (count_by_user [] owner.id ≡ 0)
    × ((plaintext id : Str) (now : ℕ)
        → mfa_challenge callees recovered_state owner.id plaintext id now
          ≡ ok (false, recovered_state))
unfolding handle_recovery recovered redeem request_mfa_token consume_token consume_row find_where
    update_where delete_where str_beq owner user_by_id consume_code normalize_recovery_code
    forget_factor delete_enrolment delete_by_user sign_in create_session revoke_previous
    insert_session
handle_recovery-clears_example =
    handle_recovery-clears callees settings accepts_all pending (request "a-2")
      (session_at "s1" 100) recovered_state refl

abbrev unconfirmed : State
unconfirmed = record {
  accounts = record { users = user ∷ []; sessions = session_at "s1" 90 ∷ session_at "s0" 10 ∷ [] };
  tokens = [];
  enrolments = record (enrolled 0) { confirmed_at = none } ∷ [];
  recovery = [];
}

abbrev confirmed_state : State
confirmed_state = record {
  accounts = record { users = user ∷ []; sessions = session_at "s1" 90 ∷ [] };
  tokens = [];
  enrolments = record (enrolled 3) { confirmed_at = some 100; updated_at = 100 } ∷ [];
  recovery = code_row (codes "u") 100 (codes "a2") ∷ [];
}

handle_confirm-enrols_example :
    (totp_confirmed confirmed_state (codes "u") ≡ true)
    × (count_by_user confirmed_state.recovery (codes "u") ≡ 1)
    × ((typed : Str)
        → any
            (λ c. normalize_recovery_code same c == normalize_recovery_code same typed)
            (codes "a-2" ∷ [])
          ≡ true
        → (consume_code confirmed_state.recovery (codes "u") (normalize_recovery_code same typed)).0
          ≡ true)
    × (any (other_session (codes "u") (codes "s1")) confirmed_state.accounts.sessions ≡ false)
unfolding handle_confirm check_code totp_enrolment get decode_secret trim_padding trim_space
    trim_left trim_right is_space verify_totp_code validate normalize step well_formed last_match
    advance_step confirm issue_recovery_codes replace_all delete_by_user normalize_recovery_code
    revoke_other_sessions revoke_others delete_session find_where update_where delete_where str_beq
handle_confirm-enrols_example =
    handle_confirm-enrols callees unconfirmed (session_at "s1" 90) user (codes "000003")
      (codes "a-2" ∷ []) 100 confirmed_state refl

-- A source that draws the first character and the second by turns.
abbrev by_turns : ℕ → ℕ → ℕ
by_turns i k = i % 2

abbrev all_twos : Str
all_twos = codes "22222-22222"

abbrev all_threes : Str
all_threes = codes "33333-33333"

code_of : (i b : ℕ) → i % 2 ≡ b → new_recovery_code by_turns i ≡ new_recovery_code (λ j k. b) 0
unfolding new_recovery_code characters
code_of i b e = ap (λ x. new_recovery_code (λ j k. x) 0) e

twos : new_recovery_code (λ j k. 0) 0 ≡ all_twos
unfolding new_recovery_code characters char_at
twos = refl

threes : new_recovery_code (λ j k. 1) 0 ≡ all_threes
unfolding new_recovery_code characters char_at
threes = refl

-- Of two codes in a row, one differs from any text.
by_turns-fresh :
    (i : ℕ) (c : Str) → (j : ℕ) × (j < 2) × (str_beq c (new_recovery_code by_turns (i + j)) ≡ false)
unfolding str_beq
by_turns-fresh i c = elim (Bool-cases (str_beq c (new_recovery_code by_turns (i + 0)))) [
  | inr e ↦ (0, omega arith, e)
  | inl e ↦
      let same = (str_beq_iff c (new_recovery_code by_turns (i + 0))).0 e in
      elim (Bool-cases (i % 2 == 0)) [
        | inl z ↦
            let first = code_of (i + 0) 0 (ground arith) ∙ twos in
            let second = code_of (i + 1) 1 (ground arith) ∙ threes in
            (
              1,
              omega arith,
              subst (λ x. str_beq x (new_recovery_code by_turns (i + 1)) ≡ false)
                  (sym (same ∙ first)) (ap (str_beq all_twos) second),
            )
        | inr z ↦
            let first = code_of (i + 0) 1 (ground arith) ∙ threes in
            let second = code_of (i + 1) 0 (ground arith) ∙ twos in
            (
              1,
              omega arith,
              subst (λ x. str_beq x (new_recovery_code by_turns (i + 1)) ≡ false)
                  (sym (same ∙ first)) (ap (str_beq all_threes) second),
            )
      ]
]

by_turns-IsVaried : IsVaried by_turns 2 2
unfolding contains
by_turns-IsVaried i [] l = (0, omega arith, refl)
by_turns-IsVaried i (c ∷ d ∷ out) l = absurd (omega arith)
by_turns-IsVaried i (c ∷ []) l = let (j, b, f) = by_turns-fresh i c in (j, b, ground (arith, f))

new_recovery_codes-terminates_example :
    (cs : List Str) × (new_recovery_codes by_turns 4 2 ≡ some cs)
    × (length cs ≡ 2)
    × (distinct cs ≡ true)
new_recovery_codes-terminates_example = new_recovery_codes-terminates by_turns 2 2 by_turns-IsVaried
