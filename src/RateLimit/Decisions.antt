-- ===== src/RateLimit/Decisions.antt =====
-- `Decide` over all its rules, and `Decide` of one rule beside `Memory.Allow`.
use auth_all.Prelude.{
  ℕ, ◌+◌, ◌≤◌, ◌≡◌, refl, ◌∙◌, inl, inr, Bool, true, false, ◌&&◌, List, [], ◌∷◌, Option, none, some,
  Str, arith, str_beq_refl, leb, ◌==◌, nat_eq, str_eq, find_where, Bool-cases, Option-cases,
  find_where-update_where,
}
use auth_all.RateLimit.{
  Memory, Bucket, Counter, Rule, Key, allow_id, count_attempt, counted_up, decide, decide_rules,
  judge, applies, counter_key, new_memory,
}
use auth_all.RateLimit.Window.{bucket_of, least}

-- The counter row and the bucket of one key describe the same window: the row counts refused attempts
-- too, the bucket stops at the limit.
unfoldable pub matches : ℕ → Option Bucket → Option Counter → Bool
matches limit none none = true
matches limit (some b) (some r) = b.start == r.window_start && b.count == least r.count limit
matches limit _ _ = false

abbrev pub counter_of : List Counter → Str → Option Counter
counter_of rows key = find_where (λ r. r.key == key) rows

counted_up-key :
    (key : Str) (window now : ℕ) (r : Counter)
    → (r.key == key) ≡ true
    → ((counted_up window now r).key == key) ≡ true
unfolding counted_up
counted_up-key key window now r h = ground arith

-- The row after an attempt is the row that the attempt returned.
pub count_attempt-counter_of :
    (rows : List Counter) (key : Str) (window now : ℕ)
    → counter_of (count_attempt rows key window now).1 key
      ≡ some (count_attempt rows key window now).0
unfolding count_attempt find_where
count_attempt-counter_of rows key window now = elim (Option-cases (counter_of rows key)) [
  | inl n ↦ ground (arith, str_beq_refl key)
  | inr (r, e) ↦ ground (
    arith,
    find_where-update_where (λ x. x.key == key) (counted_up window now) rows r
        (counted_up-key key window now) e,
  )
]

-- One attempt in both limiters gives one answer, and the states still match.
count_attempt-allow_id :
    (m : Memory) (rows : List Counter) (id key : Str) (now : ℕ)
    → 1 ≤ m.limit
    → matches m.limit (bucket_of m id) (counter_of rows key) ≡ true
    → ((allow_id m id now).0 ≡ leb (count_attempt rows key m.window now).0.count m.limit)
      × (matches m.limit
            (bucket_of (allow_id m id now).1 id)
            (some (count_attempt rows key m.window now).0)
          ≡ true)
unfolding allow_id count_attempt counted_up matches find_where
count_attempt-allow_id m rows id key now l h = elim (Option-cases (bucket_of m id)) [
  | inl n ↦ elim (Option-cases (counter_of rows key)) [
    | inl n' ↦ ground (arith, str_beq_refl id)
    | inr (r, e) ↦ absurd (ground arith)
  ]
  | inr (b, e) ↦ elim (Option-cases (counter_of rows key)) [
    | inl n' ↦ absurd (ground arith)
    | inr (r, e') ↦ ground (arith, str_beq_refl id)
  ]
]

allow_id-settings :
    (m : Memory) (id : Str) (now : ℕ)
    → ((allow_id m id now).1.limit ≡ m.limit) × ((allow_id m id now).1.window ≡ m.window)
unfolding allow_id
allow_id-settings m id now = ground arith

count_attempt-started :
    (rows : List Counter) (key : Str) (window later : ℕ) (r : Counter)
    → counter_of rows key ≡ some r
    → r.window_start + window ≤ later
    → (count_attempt rows key window later).0.count ≡ 1
unfolding count_attempt counted_up
count_attempt-started rows key window later r e h = ground (arith, e)

-- A counter whose window has ended starts again at one.
count_attempt-again :
    (rows : List Counter) (key : Str) (window now later : ℕ)
    → (count_attempt rows key window now).0.window_start + window ≤ later
    → (count_attempt (count_attempt rows key window now).1 key window later).0.count ≡ 1
count_attempt-again rows key window now later h =
    count_attempt-started (count_attempt rows key window now).1 key window later
      (count_attempt rows key window now).0 (count_attempt-counter_of rows key window now) h

-- The answers of a run of attempts of one key.
unfoldable pub memory_answers : Memory → Str → List ℕ → List Bool
memory_answers m id [] = []
memory_answers m id (t ∷ ts) = let step = allow_id m id t in step.0 ∷ memory_answers step.1 id ts

module _ (lower digest ip_key : Str → Str) where
  unfoldable pub answers : List Rule → List Counter → Key → List ℕ → List Bool
  answers rules rows k [] = []
  answers rules rows k (t ∷ ts) =
      let step = decide lower digest ip_key rules rows k t in
      step.0.allowed ∷ answers rules step.1 k ts

  one_rule :
      (rule : Rule) (rows : List Counter) (k : Key) (now : ℕ)
      → applies lower digest ip_key rule k ≡ true
      → let counted = count_attempt rows (counter_key lower digest ip_key rule k) rule.window now in
        ((decide lower digest ip_key (rule ∷ []) rows k now).0.allowed
          ≡ leb counted.0.count rule.limit)
        × ((decide lower digest ip_key (rule ∷ []) rows k now).1 ≡ counted.1)
  unfolding decide decide_rules judge
  one_rule rule rows k now h = ground arith

  answers-memory_answers :
      (rule : Rule) (m : Memory) (rows : List Counter) (k : Key) (id : Str) (ts : List ℕ)
      → 1 ≤ rule.limit
      → m.limit ≡ rule.limit
      → m.window ≡ rule.window
      → applies lower digest ip_key rule k ≡ true
      → matches m.limit (bucket_of m id) (counter_of rows (counter_key lower digest ip_key rule k))
        ≡ true
      → answers (rule ∷ []) rows k ts ≡ memory_answers m id ts
  unfolding answers memory_answers
  answers-memory_answers rule m rows k id [] l el ew a h = refl
  answers-memory_answers rule m rows k id (t ∷ ts) l el ew a h =
      let key = counter_key lower digest ip_key rule k in
      let one = one_rule rule rows k t a in
      let same = count_attempt-allow_id m rows id key t (ground arith) h in
      let kept = allow_id-settings m id t in
      let found = count_attempt-counter_of rows key m.window t in
      let rest =
        answers-memory_answers rule (allow_id m id t).1 (count_attempt rows key m.window t).1 k id
          ts l (kept.0 ∙ el) (kept.1 ∙ ew) a (ground (arith, kept, found, same)) in
      ground (arith, one, same, rest)

  -- Starting with no counter and with one rule of a limit of at least one, the limiter in the
  -- database answers every run of attempts that the rule counts as the in-process limiter of the
  -- same limit and window does.
  pub answers-memory :
      (rule : Rule) (k : Key) (id : Str) (ts : List ℕ)
      → 1 ≤ rule.limit
      → applies lower digest ip_key rule k ≡ true
      → answers (rule ∷ []) [] k ts ≡ memory_answers (new_memory rule.limit rule.window) id ts
  unfolding matches find_where
  answers-memory rule k id ts l a =
      answers-memory_answers rule (new_memory rule.limit rule.window) [] k id ts l refl refl a refl

  skipped :
      (rule : Rule) (rows : List Counter) (k : Key) (now : ℕ)
      → applies lower digest ip_key rule k ≡ false
      → (decide lower digest ip_key (rule ∷ []) rows k now).0.allowed ≡ true
  unfolding decide decide_rules
  skipped rule rows k now h = ground arith

  waits :
      (rule : Rule) (rows : List Counter) (k : Key) (now : ℕ)
      → applies lower digest ip_key rule k ≡ true
      → (decide lower digest ip_key (rule ∷ []) rows k now).0.allowed ≡ false
      → (count_attempt rows (counter_key lower digest ip_key rule k) rule.window now).0.window_start
          + rule.window
        ≤ now + (decide lower digest ip_key (rule ∷ []) rows k now).0.retry_after
  unfolding decide decide_rules judge
  waits rule rows k now a h = ground arith

  -- With a single rule of a limit of at least one, a refused attempt is let pass when it comes
  -- again after `RetryAfter`, if no other attempt comes between.
  pub decide-retry :
      (rule : Rule) (rows : List Counter) (k : Key) (now later : ℕ)
      → 1 ≤ rule.limit
      → (decide lower digest ip_key (rule ∷ []) rows k now).0.allowed ≡ false
      → now + (decide lower digest ip_key (rule ∷ []) rows k now).0.retry_after ≤ later
      → (decide lower digest ip_key
          (rule ∷ [])
          (decide lower digest ip_key (rule ∷ []) rows k now).1
          k
          later).0.allowed
        ≡ true
  decide-retry rule rows k now later l h w =
      elim (Bool-cases (applies lower digest ip_key rule k)) [
        | inr n ↦ absurd (ground (arith, skipped rule rows k now n))
        | inl a ↦
            let key = counter_key lower digest ip_key rule k in
            let again =
              count_attempt-again rows key rule.window now later
                (ground (arith, waits rule rows k now a h)) in
            ground (
              arith,
              one_rule rule (count_attempt rows key rule.window now).1 k later a,
              one_rule rule rows k now a,
              again,
            )
      ]
