-- ===== src/Totp/Accepts.antt =====
-- Which codes `Validate` accepts.
use auth_all.Prelude.{
  ℕ, zero, suc, ◌+◌, ◌-◌, ◌*◌, ◌≤◌, ◌<◌, ◌≡◌, refl, ◌⊎◌, inl, inr, true, false, Option, none, some,
  Str, arith, str_beq_iff, nat_beq, ◌==◌, nat_eq, str_eq, is_empty, Bool-cases,
}
use auth_all.Totp.{Params, normalize, step, well_formed, last_match, validate}

module _ (code : Str → ℕ → ℕ → Str) (secret input : Str) (digits : ℕ) where
  last_match-found :
      (first n : ℕ) (matched : Option ℕ) (s : ℕ)
      → last_match code secret input digits first n matched ≡ some s
      → (matched ≡ some s) ⊎ ((code secret s digits ≡ input) × (first ≤ s) × (s < first + n))
  unfolding last_match
  last_match-found first zero matched s h = inl h
  last_match-found first (suc n) matched s h = elim (last_match-found (first + 1) n _ s h) [
    | inr (a, b, c) ↦ inr (a, ground arith, ground arith)
    | inl m ↦ elim (Bool-cases (code secret first digits == input)) [
      | inl e ↦ inr (
        ground (arith, str_beq_iff (code secret first digits) input),
        ground (arith),
        ground (arith),
      )
      | inr e ↦ inl (ground (arith, e))
    ]
  ]

  last_match-keeps :
      (first n m : ℕ)
      → m < first
      → (s : ℕ) × (last_match code secret input digits first n (some m) ≡ some s) × (m ≤ s)
  unfolding last_match
  last_match-keeps first zero m h = (m, refl, ground arith)
  last_match-keeps first (suc n) m h = elim (Bool-cases (code secret first digits == input)) [
    | inl e ↦
        let (s, a, b) = last_match-keeps (first + 1) n first (ground arith) in
        (s, ground (arith, e, a), ground (arith, b))
    | inr e ↦
        let (s, a, b) = last_match-keeps (first + 1) n m (ground arith) in
        (s, ground (arith, e, a), b)
  ]

  -- A match in the range gives a match that is not before it.
  last_match_complete :
      (first n s : ℕ) (matched : Option ℕ)
      → first ≤ s
      → s < first + n
      → (code secret s digits == input) ≡ true
      → (s' : ℕ) × (last_match code secret input digits first n matched ≡ some s') × (s ≤ s')
  unfolding last_match
  last_match_complete first zero s matched a b e = absurd (ground arith)
  last_match_complete first (suc n) s matched a b e = elim (Bool-cases (nat_beq s first)) [
    | inl k ↦
        let k' : s ≡ first = ground arith in
        let (s', c, d) = last_match-keeps (first + 1) n first (ground arith) in
        (s', ground (arith, k', c, e), ground (arith, k', d))
    | inr k ↦ last_match_complete (first + 1) n s _ (ground arith) (ground arith) e
  ]

module _ (code : Str → ℕ → ℕ → Str) (secret input : Str) (t : ℕ) (p : Params) where
  -- The step is one that `Validate` tries at the instant: at most `skew` steps away.
  abbrev pub IsNear : ℕ → Type 0
  IsNear s = (step t p ≤ s + p.skew) × (s ≤ step t p + p.skew)

  step-normalize : step t (normalize p) ≡ step t p
  unfolding step normalize
  step-normalize = ground arith

  -- A code that `Validate` accepts is the code of the step that it returns, a well-formed one, and the
  -- step is at most `skew` away; and of the steps so near with that code it is the last. This is for an
  -- instant of at least `skew` steps.
  pub validate-accepts :
      (s : ℕ)
      → p.skew ≤ step t p
      → validate code secret input t p ≡ some s
      → (code secret s (normalize p).digits ≡ input)
        × (well_formed input (normalize p).digits ≡ true)
        × IsNear s
        × ((s' : ℕ) → IsNear s' → (code secret s' (normalize p).digits == input) ≡ true → s' ≤ s)
  unfolding validate normalize
  validate-accepts s l h = elim (Bool-cases (is_empty secret)) [
    | inl e ↦ absurd (ground (arith, e))
    | inr e ↦ elim (Bool-cases (well_formed input (normalize p).digits)) [
      | inr w ↦ absurd (ground (arith, e, w))
      | inl w ↦
          let digits = (normalize p).digits in
          let run : last_match code secret input digits (step t p - p.skew) (2 * p.skew + 1) none
              ≡ some s =
            ground (arith, e, w, step-normalize) in
          elim (last_match-found code secret input digits (step t p - p.skew) (2 * p.skew + 1) none
            s run) [
              | inl x ↦ absurd (ground arith)
              | inr (a, b, c) ↦ (
                a,
                w,
                (ground arith, ground arith),
                λ s' (x, y) k.
                    let (s'', d, f) =
                      last_match_complete code secret input digits (step t p - p.skew)
                        (2 * p.skew + 1) s' none (ground arith) (ground arith) k in
                    ground (arith, run, d, f),
              )
            ]
    ]
  ]

  -- With a secret that is not empty and at an instant of at least `skew` steps, a well-formed
  -- input that is the code of a step at most `skew` away is accepted.
  pub validate_complete :
      (s : ℕ)
      → p.skew ≤ step t p
      → is_empty secret ≡ false
      → well_formed input (normalize p).digits ≡ true
      → IsNear s
      → (code secret s (normalize p).digits == input) ≡ true
      → (s' : ℕ) × (validate code secret input t p ≡ some s') × (s ≤ s')
  unfolding validate normalize
  validate_complete s l e w (a, b) k =
      let (s', c, d) =
        last_match_complete code secret input (normalize p).digits (step t p - p.skew)
          (2 * p.skew + 1) s none (ground arith) (ground arith) k in
      (s', ground (arith, e, w, c, step-normalize), d)
