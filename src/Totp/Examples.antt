-- ===== src/Totp/Examples.antt =====
-- Checks of codes with a small function in place of the HMAC.
use auth_all.Prelude.{
  ◌≡◌, refl, ◌≤◌, ◌<◌, true, [], ◌∷◌, some, Str, ℕ, ◌+◌, ◌%◌, codes, str_beq, arith, update_where,
  ◌==◌, str_eq,
}
use auth_all.Totp.{
  Totp, default_params, normalize, step, well_formed, last_match, validate, advance_step,
  verify_totp_code,
}
use auth_all.Totp.Accepts.{IsNear, validate-accepts}
use auth_all.Totp.Replay.{verify_totp_code-increases, run}

-- Six digits, the last the step's.
abbrev pub digit_code : Str → ℕ → ℕ → Str
digit_code secret s digits = 48 ∷ 48 ∷ 48 ∷ 48 ∷ 48 ∷ (48 + (s % 10)) ∷ []

abbrev pub secret : Str
secret = codes "s"

validate-accepts_example :
    (digit_code secret 4 6 ≡ codes "000004")
    × (well_formed (codes "000004") 6 ≡ true)
    × IsNear digit_code secret (codes "000004") 100 default_params 4
    × ((s' : ℕ)
        → IsNear digit_code secret (codes "000004") 100 default_params s'
        → (digit_code secret s' 6 == codes "000004") ≡ true
        → s' ≤ 4)
unfolding validate normalize step well_formed last_match str_beq
validate-accepts_example =
    validate-accepts digit_code secret (codes "000004") 100 default_params 4 (ground arith) refl

abbrev pub enrolled : ℕ → Totp
enrolled last = record {
  user_id = codes "u";
  secret = secret;
  confirmed_at = some 1;
  last_step = last;
  created_at = 0;
  updated_at = 1;
}

verify_totp_code-increases_example :
    (s : ℕ) × (s' : ℕ) × (validate digit_code secret (codes "000003") 100 default_params ≡ some s)
    × (validate digit_code secret (codes "000004") 130 default_params ≡ some s')
    × (s < s')
unfolding verify_totp_code validate normalize step well_formed last_match advance_step update_where
    str_beq run
verify_totp_code-increases_example =
    verify_totp_code-increases digit_code (enrolled 0 ∷ []) (codes "u") secret (codes "000003") 100
      (enrolled 3 ∷ []) [] secret (codes "000004") 130 (enrolled 4 ∷ []) refl refl
