-- ===== src/Errors.antt =====
-- apierr/apierr.go: the public errors, and the sentinel errors of store/store.go. The message of an
-- error is left out. `Result` is Go's pair of a value and an error.
use auth_all.Prelude.{ℕ, Bool, Option, none, some, ◌≡◌, refl, ◌⊎◌, inl, inr, if◌then◌else◌}

pub data Error : Type 0 where
  invalid_request invalid_credentials email_already_exists weak_password invalid_token : Error
  unauthorized forbidden not_found method_not_allowed origin_not_allowed : Error
  email_not_verified no_password_credential account_already_linked account_not_linked : Error
  last_auth_method provider_not_found oauth_state_invalid oauth_failed rate_limited : Error
  invalid_totp_code totp_not_enrolled totp_already_enrolled invalid_recovery_code internal : Error
  insufficient_role role_unknown role_not_allowed user_disabled password_change_required : Error
  last_admin api_key_expiry_too_long api_key_expiry_required : Error
  slug_taken permission_denied no_active_organization not_a_member already_member : Error
  last_owner invitation_invalid member_limit scope_unknown scope_missing : Error
  -- store.ErrNotFound and store.ErrConflict
  row_not_found row_conflict : Error
  -- any other error of a callee
  private_error : ℕ → Error

-- The HTTP status of the public error; `From` sends every other error to INTERNAL.
unfoldable pub status : Error → ℕ
status invalid_request = 400
status invalid_credentials = 401
status email_already_exists = 409
status weak_password = 400
status invalid_token = 400
status unauthorized = 401
status forbidden = 403
status not_found = 404
status method_not_allowed = 405
status origin_not_allowed = 403
status email_not_verified = 403
status no_password_credential = 400
status account_already_linked = 409
status account_not_linked = 404
status last_auth_method = 409
status provider_not_found = 404
status oauth_state_invalid = 400
status oauth_failed = 400
status rate_limited = 429
status invalid_totp_code = 400
status totp_not_enrolled = 400
status totp_already_enrolled = 409
status invalid_recovery_code = 400
status insufficient_role = 403
status role_unknown = 400
status role_not_allowed = 403
status user_disabled = 403
status password_change_required = 403
status last_admin = 409
status api_key_expiry_too_long = 400
status api_key_expiry_required = 400
status slug_taken = 409
status permission_denied = 403
status no_active_organization = 403
status not_a_member = 403
status already_member = 409
status last_owner = 409
status invitation_invalid = 400
status member_limit = 409
status scope_unknown = 400
status scope_missing = 403
status internal = 500
status row_not_found = 500
status row_conflict = 500
status (private_error n) = 500

pub data Result {ℓ} (A : Type ℓ) : Type ℓ where
  ok : A → Result A
  err : Error → Result A

-- `if !test { return e }`
abbrev pub guard : Bool → Error → Result (Unit {0})
guard test e = if test then ok tt else err e

abbrev pub or_fail {ℓ} : {A : Type ℓ} → Option A → Error → Result A
or_fail none e = err e
or_fail (some a) e = ok a

-- A hook or another callee that can refuse.
abbrev pub refuse_by : Option Error → Result (Unit {0})
refuse_by none = ok tt
refuse_by (some e) = err e

-- `if err != nil { return err }` after a call
infixl 5 ◌>>=◌
abbrev pub ◌>>=◌ {κ ℓ} : {B : Type κ} {A : Type ℓ} → Result B → (B → Result A) → Result A
err failure >>= next = err failure
ok value >>= next = next value

infixl 5 ◌>>◌
abbrev pub ◌>>◌ {ℓ} : {A : Type ℓ} → Result (Unit {0}) → Result A → Result A
err failure >> next = err failure
ok value >> next = next

-- `From`: an error that is not public becomes INTERNAL.
unfoldable pub from : Error → Error
from row_not_found = internal
from row_conflict = internal
from (private_error n) = internal
from e = e

pub Result-cases {ℓ} :
    {A : Type ℓ} (m : Result A) → ((a : A) × (m ≡ ok a)) ⊎ ((e : Error) × (m ≡ err e))
Result-cases (ok a) = inl (a, refl)
Result-cases (err e) = inr (e, refl)
