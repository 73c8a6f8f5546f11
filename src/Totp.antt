-- ===== src/Totp.antt =====
-- internal/totp/totp.go, internal/sqlstore/totp.go and `verifyTOTPCode` of handlers_totp.go: the codes of
-- the second factor. `code`, the HMAC-SHA-1 of a secret and a step in decimal digits, is a parameter. A
-- time is in seconds, a period in whole seconds; a negative skew is not a value of the model, nor is an
-- instant less than `skew` periods after 1970, where the source reads steps below zero.
mod Examples
pub mod Accepts
pub mod Replay
pub mod Recovery
pub mod Enrolment
pub mod Handlers
use auth_all.Prelude.{
  ℕ, zero, suc, ◌+◌, ◌-◌, ◌*◌, ◌/◌, Bool, true, false, ◌&&◌, ◌||◌, not, List, [], ◌∷◌, Option, none,
  some, Str, str_beq, ltb, leb, if◌then◌else◌, ◌==◌, nat_eq, str_eq, is_empty, length, all, any,
  find_where, update_where,
}
use auth_all.Errors.{
  Error, Result, ok, err, row_not_found, invalid_totp_code, totp_not_enrolled, or_fail,
}

pub record Params : Type 0 where
  pub digits : ℕ
  pub period : ℕ
  pub skew : ℕ

abbrev pub default_params : Params
default_params = record { digits = 6; period = 30; skew = 1 }

unfoldable pub normalize : Params → Params
normalize p = record p {
  digits = if p.digits == 0 then 6 else p.digits;
  period = if p.period == 0 then 30 else p.period;
}

-- `Step`.
unfoldable pub step : ℕ → Params → ℕ
unfolding normalize
step t p = t / (normalize p).period

-- The digits '0' to '9', and exactly as many of them.
unfoldable pub well_formed : Str → ℕ → Bool
well_formed input n = length input == n && all (λ c. leb 48 c && leb c 57) input

module _ (code : Str → ℕ → ℕ → Str) where
  -- The loop of `Validate`: `n` steps from the first, the last match kept.
  unfoldable pub last_match : Str → Str → ℕ → ℕ → ℕ → Option ℕ → Option ℕ
  last_match secret input digits first zero matched = matched
  last_match secret input digits first (suc n) matched =
      last_match secret input digits (first + 1) n
        (if code secret first digits == input then some first else matched)

  -- `Validate`.
  unfoldable pub validate : Str → Str → ℕ → Params → Option ℕ
  unfolding normalize step well_formed last_match
  validate secret input t p =
      let q = normalize p in
      if is_empty secret
      then none
      else if not (well_formed input q.digits)
      then none
      else last_match secret input q.digits (step t q - q.skew) (2 * q.skew + 1) none

-- The enrolment of a user.
pub record Totp : Type 0 where
  pub user_id : Str
  pub secret : Str
  pub confirmed_at : Option ℕ
  pub last_step : ℕ
  pub created_at : ℕ
  pub updated_at : ℕ

unfoldable pub get : List Totp → Str → Result Totp
get rows user = or_fail (find_where (λ r. r.user_id == user) rows) row_not_found

-- A new secret starts a new enrolment.
unfoldable pub upsert : List Totp → Totp → List Totp
upsert rows t =
    if any (λ r. r.user_id == t.user_id) rows
    then update_where (λ r. r.user_id == t.user_id)
        (λ r. record r {
          secret = t.secret;
          confirmed_at = none;
          last_step = 0;
          updated_at = t.updated_at;
        })
        rows
    else record t { confirmed_at = none; last_step = 0 } ∷ rows

-- `WHERE user_id = ? AND last_step < ?`
abbrev pub behind : Str → ℕ → Totp → Bool
behind user s r = r.user_id == user && ltb r.last_step s

-- `AdvanceStep`: one conditional update, and a read when it changed no row.
unfoldable pub advance_step : List Totp → Str → ℕ → Result (Bool × List Totp)
unfolding get
advance_step rows user s =
    if any (behind user s) rows
    then ok (true, update_where (behind user s) (λ r. record r { last_step = s }) rows)
    else elim (get rows user) [ err e ↦ err e | ok r ↦ ok (false, rows) ]

module _ (code : Str → ℕ → ℕ → Str) where
  -- `verifyTOTPCode`.
  unfoldable pub verify_totp_code : List Totp → Str → Str → Str → ℕ → Result (List Totp)
  unfolding validate advance_step
  verify_totp_code rows user secret input now =
      elim (validate code secret input now default_params) [
        | none ↦ err invalid_totp_code
        | some s ↦ elim (advance_step rows user s) [
          | err e ↦ err totp_not_enrolled
          | ok (true, rows') ↦ ok rows'
          | ok (false, rows') ↦ err invalid_totp_code
        ]
      ]
