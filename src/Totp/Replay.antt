-- ===== src/Totp/Replay.antt =====
-- A code that was accepted is not accepted again.
use auth_all.Prelude.{
  ℕ, ◌<◌, ◌≡◌, refl, inl, inr, Bool, true, ◌||◌, not, List, [], ◌∷◌, some, Str, arith, leb, ◌==◌,
  nat_eq, str_eq, all, any, find_where, update_where, Option-cases, find_where-none,
}
use auth_all.Errors.{ok, err, invalid_totp_code}
use auth_all.Totp.{Totp, default_params, validate, get, behind, advance_step, verify_totp_code}

-- Every enrolment of the user has taken the step or a later one.
abbrev pub past : Str → ℕ → Totp → Bool
past user s r = not (r.user_id == user) || leb s r.last_step

all-advance :
    (user other : Str) (s n : ℕ) (rows : List Totp)
    → all (past user s) rows ≡ true
    → all (past user s) (update_where (behind other n) (λ r. record r { last_step = n }) rows)
      ≡ true
unfolding update_where
all-advance user other s n [] h = refl
all-advance user other s n (r ∷ rows) h = ground (arith, all-advance user other s n rows)

advanced-past :
    (user : Str) (s : ℕ) (rows : List Totp)
    → all (past user s) (update_where (behind user s) (λ r. record r { last_step = s }) rows) ≡ true
unfolding update_where
advanced-past user s [] = refl
advanced-past user s (r ∷ rows) = ground (arith, advanced-past user s rows)

past-behind :
    (user : Str) (s n : ℕ) (rows : List Totp)
    → all (past user s) rows ≡ true
    → any (behind user n) rows ≡ true
    → s < n
past-behind user s n [] h b = ground arith
past-behind user s n (r ∷ rows) h b = ground (arith, past-behind user s n rows)

-- A check of a code by some user, with the secret of its enrolment.
pub record Check : Type 0 where
  pub user : Str
  pub secret : Str
  pub input : Str
  pub now : ℕ

module _ (code : Str → ℕ → ℕ → Str) where
  -- A refused check changes nothing.
  unfoldable pub after : List Totp → Check → List Totp
  after rows c = elim (verify_totp_code code rows c.user c.secret c.input c.now) [
    | ok rows' ↦ rows'
    | err e ↦ rows
  ]

  unfoldable pub run : List Totp → List Check → List Totp
  unfolding after
  run rows [] = rows
  run rows (c ∷ cs) = run (after rows c) cs

  after-past :
      (user : Str) (s : ℕ) (rows : List Totp) (c : Check)
      → all (past user s) rows ≡ true
      → all (past user s) (after rows c) ≡ true
  unfolding after verify_totp_code advance_step
  after-past user s rows c h =
      elim (Option-cases (validate code c.secret c.input c.now default_params)) [
        | inl e ↦ ground (arith, e)
        | inr (n, e) ↦ ground (arith, e, all-advance user c.user s n rows h)
      ]

  run-past :
      (user : Str) (s : ℕ) (rows : List Totp) (cs : List Check)
      → all (past user s) rows ≡ true
      → all (past user s) (run rows cs) ≡ true
  unfolding run
  run-past user s rows [] h = h
  run-past user s rows (c ∷ cs) h = run-past user s (after rows c) cs (after-past user s rows c h)

  verified :
      (rows : List Totp) (user secret input : Str) (now : ℕ) (rows' : List Totp)
      → verify_totp_code code rows user secret input now ≡ ok rows'
      → (s : ℕ) × (validate code secret input now default_params ≡ some s)
        × (any (behind user s) rows ≡ true)
        × (all (past user s) rows' ≡ true)
  unfolding verify_totp_code advance_step
  verified rows user secret input now rows' h =
      elim (Option-cases (validate code secret input now default_params)) [
        | inl e ↦ absurd (ground (arith, e))
        | inr (s, e) ↦ (s, e, ground (arith, e), ground (arith, e, advanced-past user s rows))
      ]

  -- The steps of the accepted codes of a user strictly increase: after an accepted code and any
  -- checks of any users, a code is accepted only at a later step.
  pub verify_totp_code-increases :
      (rows : List Totp) (user secret input : Str) (now : ℕ) (rows' : List Totp) (cs : List Check)
      (secret' input' : Str) (later : ℕ) (rows'' : List Totp)
      → verify_totp_code code rows user secret input now ≡ ok rows'
      → verify_totp_code code (run rows' cs) user secret' input' later ≡ ok rows''
      → (s : ℕ) × (s' : ℕ) × (validate code secret input now default_params ≡ some s)
        × (validate code secret' input' later default_params ≡ some s')
        × (s < s')
  verify_totp_code-increases rows user secret input now rows' cs secret' input' later rows'' h k =
      let (s, a, b, c) = verified rows user secret input now rows' h in
      let (s', a', b', c') = verified (run rows' cs) user secret' input' later rows'' k in
      (s, s', a, a', past-behind user s s' (run rows' cs) (run-past user s rows' cs c) b')

  -- While the user has an enrolment, the code that was accepted is refused the second time at the
  -- same instant, whatever checks come between.
  verify_totp_code-replay :
      (rows : List Totp) (user secret input : Str) (now : ℕ) (rows' : List Totp) (cs : List Check)
      → any (λ r. r.user_id == user) (run rows' cs) ≡ true
      → verify_totp_code code rows user secret input now ≡ ok rows'
      → verify_totp_code code (run rows' cs) user secret input now ≡ err invalid_totp_code
  unfolding verify_totp_code advance_step get
  verify_totp_code-replay rows user secret input now rows' cs a h =
      let (s, e, b, c) = verified rows user secret input now rows' h in
      let late = past-behind user s s (run rows' cs) (run-past user s rows' cs c) in
      elim (Option-cases (find_where (λ r. r.user_id == user) (run rows' cs))) [
        | inl f ↦
            absurd (ground (arith, a, find_where-none (λ r. r.user_id == user) (run rows' cs) f))
        | inr (r, f) ↦ ground (arith, e, f, late)
      ]
