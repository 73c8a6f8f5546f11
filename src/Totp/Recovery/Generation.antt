-- ===== src/Totp/Recovery/Generation.antt =====
-- `NewRecoveryCodes` of internal/crypto/recovery.go. `rand.Int` is the parameter `draw`, for the index of
-- a code and of a character in it; it answers below the length of the alphabet. The loop runs on fuel,
-- one unit for each code that is drawn.
use auth_all.Prelude.{
  ℕ, zero, suc, ◌+◌, ◌*◌, ◌≤◌, ◌<◌, ◌≡◌, subst, refl, ◌∙◌, inl, inr, Bool, true, false, ◌&&◌, not,
  List, [], ◌∷◌, ◌++◌, Option, none, some, Str, codes, if◌then◌else◌, str_eq, contains, length,
  length-append, contains-append, arith, Bool-cases, str_beq_iff, nat_eq,
}
use native.Mathlib.Nat.{suc-mul}

abbrev pub recovery_alphabet : Str
recovery_alphabet = codes "23456789abcdefghjkmnpqrstuvwxyz"

unfoldable pub char_at : Str → ℕ → ℕ
char_at [] n = 0
char_at (c ∷ cs) zero = c
char_at (c ∷ cs) (suc n) = char_at cs n

module _ (draw : ℕ → ℕ → ℕ) where
  -- `n` characters of a code, from the one at `k`.
  unfoldable pub characters : ℕ → ℕ → ℕ → Str
  unfolding char_at
  characters i k zero = []
  characters i k (suc n) = char_at recovery_alphabet (draw i k) ∷ characters i (suc k) n

  -- `newRecoveryCode`, for the code at an index: two groups of five.
  unfoldable pub new_recovery_code : ℕ → Str
  unfolding characters
  new_recovery_code i = characters i 0 5 ++ (45 ∷ characters i 5 5)

  -- The loop: the codes taken so far, and how many are left to take.
  unfoldable pub take_codes : ℕ → ℕ → ℕ → List Str → Option (List Str)
  unfolding new_recovery_code
  take_codes zero i zero out = some out
  take_codes zero i (suc n) out = none
  take_codes (suc fuel) i zero out = some out
  take_codes (suc fuel) i (suc n) out =
      let code = new_recovery_code i in
      let seen = contains out code in
      take_codes fuel (suc i) (if seen then suc n else n) (if seen then out else out ++ (code ∷ []))

  unfoldable pub new_recovery_codes : ℕ → ℕ → Option (List Str)
  unfolding take_codes
  new_recovery_codes fuel n = take_codes fuel 0 n []

  -- From every draw on, one of the next `m` codes is not among fewer than `n` taken ones.
  abbrev pub IsVaried : ℕ → ℕ → Type 0
  IsVaried n m =
      (i : ℕ) (out : List Str)
      → length out < n
      → (j : ℕ) × (j < m) × (contains out (new_recovery_code (i + j)) ≡ false)

unfoldable pub distinct : List Str → Bool
distinct [] = true
distinct (c ∷ cs) = not (contains cs c) && distinct cs

distinct-append :
    (out : List Str) (c : Str)
    → distinct out ≡ true
    → contains out c ≡ false
    → distinct (out ++ (c ∷ [])) ≡ true
unfolding distinct contains
distinct-append [] c d h = refl
distinct-append (x ∷ xs) c d h =
    ground
      (arith, str_beq_iff x c, str_beq_iff c x, contains-append xs (c ∷ []) x, distinct-append xs c)

add_zero : (i : ℕ) → i + 0 ≡ i
add_zero i = omega arith

add_suc : (i j : ℕ) → i + suc j ≡ suc i + j
add_suc i j = omega arith

enough : (n m fuel j : ℕ) → suc n * m ≤ fuel → j < m → j < fuel
enough n m fuel j l b = omega (arith, suc-mul n m)

left : (n m fuel fuel' j : ℕ) → suc n * m ≤ fuel → j < m → fuel ≤ fuel' + suc j → n * m ≤ fuel'
left n m fuel fuel' j l b q = omega (arith, suc-mul n m)

module _ (draw : ℕ → ℕ → ℕ) where
  take_codes-done : (fuel i : ℕ) (out : List Str) → take_codes draw fuel i 0 out ≡ some out
  unfolding take_codes
  take_codes-done zero i out = refl
  take_codes-done (suc fuel) i out = refl

  -- The loop reaches the next fresh code.
  reach :
      (j fuel i n : ℕ) (out : List Str)
      → j < fuel
      → contains out (new_recovery_code draw (i + j)) ≡ false
      → (fuel' : ℕ) × (k : ℕ) × (take_codes draw fuel i (suc n) out
          ≡ take_codes draw fuel' (suc k) n (out ++ (new_recovery_code draw k ∷ [])))
        × (fuel ≤ fuel' + suc j)
        × (contains out (new_recovery_code draw k) ≡ false)
  unfolding take_codes
  reach j zero i n out l h = absurd (ground arith)
  reach zero (suc fuel) i n out l h =
      let e = subst (λ x. contains out (new_recovery_code draw x) ≡ false) (add_zero i) h in
      (fuel, i, ground (arith, e), ground arith, e)
  reach (suc j) (suc fuel) i n out l h =
      elim (Bool-cases (contains out (new_recovery_code draw i))) [
        | inr e ↦ (fuel, i, ground (arith, e), ground arith, e)
        | inl e ↦
            let h' = subst (λ x. contains out (new_recovery_code draw x) ≡ false) (add_suc i j) h in
            let (fuel', k, p, q, f) = reach j fuel (suc i) n out (ground arith) h' in
            (fuel', k, ground (arith, e, p), ground arith, f)
      ]

  take_codes-enough :
      (N m n fuel i : ℕ) (out : List Str)
      → IsVaried draw N m
      → length out + n ≡ N
      → distinct out ≡ true
      → n * m ≤ fuel
      → (cs : List Str) × (take_codes draw fuel i n out ≡ some cs)
        × (length cs ≡ N)
        × (distinct cs ≡ true)
  take_codes-enough N m zero fuel i out v s d l = (out, take_codes-done fuel i out, ground arith, d)
  take_codes-enough N m (suc n) fuel i out v s d l =
      let (j, b, fresh) = v i out (ground arith) in
      let (fuel', k, p, q, f) = reach j fuel i n out (enough n m fuel j l b) fresh in
      let (cs, r, t, u) =
        take_codes-enough N m n fuel' (suc k) (out ++ (new_recovery_code draw k ∷ [])) v
          (ground (arith, length-append out (new_recovery_code draw k ∷ [])))
          (distinct-append out (new_recovery_code draw k) d f) (left n m fuel fuel' j l b q) in
      (cs, p ∙ r, t, u)

  -- Where one of every `m` draws in a row is a code that is not among fewer than `n` taken ones,
  -- the loop ends within `n * m` draws, with exactly `n` codes, no two of them the same.
  pub new_recovery_codes-terminates :
      (n m : ℕ)
      → IsVaried draw n m
      → (cs : List Str) × (new_recovery_codes draw (n * m) n ≡ some cs)
        × (length cs ≡ n)
        × (distinct cs ≡ true)
  unfolding new_recovery_codes distinct
  new_recovery_codes-terminates n m v =
      take_codes-enough n m n (n * m) 0 [] v (omega arith) refl (omega arith)
