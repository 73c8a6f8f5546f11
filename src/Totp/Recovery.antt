-- ===== src/Totp/Recovery.antt =====
-- internal/crypto/recovery.go, and the enrolments and recovery codes of internal/sqlstore/totp.go.
-- `strings.ToLower` is the parameter `lower`; a code is stored as its digest. A failure of the database
-- is not modelled.
pub mod Generation
use auth_all.Prelude.{
  ℕ, ◌+◌, ◌*◌, Bool, ◌&&◌, ◌||◌, not, List, ◌∷◌, ◌++◌, some, Str, if◌then◌else◌, ◌==◌, nat_eq,
  str_eq, any, keep_if, update_where, delete_where, count_where, map,
}
use auth_all.Errors.{Result, ok, err, row_not_found}
use auth_all.Totp.{Totp}

pub record RecoveryCode : Type 0 where
  pub user_id : Str
  pub code_hash : Str
  pub created_at : ℕ

-- `NormalizeRecoveryCode`: the case, the dashes, the spaces and the tabs do not count.
unfoldable pub normalize_recovery_code : (lower : Str → Str) → Str → Str
normalize_recovery_code lower code = keep_if (λ c. not (c == 45 || c == 32 || c == 9)) (lower code)

-- `totpStore.Confirm`.
unfoldable pub confirm : List Totp → Str → ℕ → Result (List Totp)
confirm rows user at =
    if any (λ r. r.user_id == user) rows
    then ok (
        update_where (λ r. r.user_id == user)
          (λ r. record r { confirmed_at = some at; updated_at = at }) rows)
    else err row_not_found

-- `totpStore.Delete`; the callers ignore that no row was there.
unfoldable pub delete_enrolment : List Totp → Str → List Totp
delete_enrolment rows user = delete_where (λ r. r.user_id == user) rows

abbrev pub coded : Str → Str → RecoveryCode → Bool
coded user hash r = r.user_id == user && r.code_hash == hash

-- `Consume`: one conditional deletion, and whether it removed a row.
unfoldable pub consume_code : List RecoveryCode → Str → Str → Bool × List RecoveryCode
consume_code rows user hash = (any (coded user hash) rows, delete_where (coded user hash) rows)

unfoldable pub delete_by_user : List RecoveryCode → Str → List RecoveryCode
delete_by_user rows user = delete_where (λ r. r.user_id == user) rows

unfoldable pub count_by_user : List RecoveryCode → Str → ℕ
count_by_user rows user = count_where (λ r. r.user_id == user) rows

abbrev pub code_row : Str → ℕ → Str → RecoveryCode
code_row user now hash = record { user_id = user; code_hash = hash; created_at = now }

-- `ReplaceAll`.
unfoldable pub replace_all : List RecoveryCode → Str → List Str → ℕ → List RecoveryCode
unfolding delete_by_user
replace_all rows user hashes now = map (code_row user now) hashes ++ delete_by_user rows user
