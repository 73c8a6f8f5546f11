-- ===== src/Tokens/Once.antt =====
-- A one-time token is consumed at most once.
use auth_all.Prelude.{
  ℕ, ◌≡◌, refl, ◌∙◌, inl, inr, Bool, true, false, ◌&&◌, ◌||◌, not, List, [], ◌∷◌, none, some, Str,
  arith, str_beq, str_beq_iff, leb, ◌==◌, nat_eq, str_eq, all, any, find_where, update_where,
  delete_where, Bool-cases, Option-cases,
}
use auth_all.Errors.{Result, ok, err, invalid_token}
use auth_all.Tokens.{
  Token, IssueTokenInput, unconsumed, consumable, create_row, consume_row, delete_by_identifier,
  delete_expired, replaced, issue_token, consume_token,
}

-- The unique index on the digest.
unfoldable pub unique_hashes : List Token → Bool
unique_hashes [] = true
unique_hashes (t ∷ ts) = not (any (λ r. r.token_hash == t.token_hash) ts) && unique_hashes ts

-- No row of the digest can still be consumed.
abbrev pub spent : Str → Token → Bool
spent hash t = not (t.token_hash == hash) || not (unconsumed t)

all-spent_update :
    (hash : Str) (p : Token → Bool) (now : ℕ) (ts : List Token)
    → all (spent hash) ts ≡ true
    → all (spent hash) (update_where p (λ r. record r { consumed_at = some now }) ts) ≡ true
unfolding update_where
all-spent_update hash p now [] h = refl
all-spent_update hash p now (t ∷ ts) h = ground (arith, all-spent_update hash p now ts)

all-spent_delete :
    (hash : Str) (p : Token → Bool) (ts : List Token)
    → all (spent hash) ts ≡ true
    → all (spent hash) (delete_where p ts) ≡ true
unfolding delete_where
all-spent_delete hash p [] h = refl
all-spent_delete hash p (t ∷ ts) h = ground (arith, all-spent_delete hash p ts)

all-other :
    (hash : Str) (ts : List Token)
    → any (λ r. r.token_hash == hash) ts ≡ false
    → all (spent hash) ts ≡ true
all-other hash [] h = refl
all-other hash (t ∷ ts) h = ground (arith, all-other hash ts)

any-hash_update :
    (hash : Str) (p : Token → Bool) (now : ℕ) (ts : List Token)
    → any (λ r. r.token_hash == hash) (update_where p (λ r. record r { consumed_at = some now }) ts)
      ≡ any (λ r. r.token_hash == hash) ts
unfolding update_where
any-hash_update hash p now [] = refl
any-hash_update hash p now (t ∷ ts) = ground (arith, any-hash_update hash p now ts)

pub no_consumable :
    (kind hash : Str) (now : ℕ) (ts : List Token)
    → any (λ r. r.token_hash == hash) ts ≡ false
    → find_where (consumable kind hash now) ts ≡ none
unfolding find_where
no_consumable kind hash now [] h = refl
no_consumable kind hash now (t ∷ ts) h = ground (arith, no_consumable kind hash now ts)

spent-consumable :
    (kind hash : Str) (now : ℕ) (ts : List Token)
    → all (spent hash) ts ≡ true
    → find_where (consumable kind hash now) ts ≡ none
unfolding find_where
spent-consumable kind hash now [] h = refl
spent-consumable kind hash now (t ∷ ts) h = ground (arith, spent-consumable kind hash now ts)

consumed-spent :
    (kind hash : Str) (now : ℕ) (t : Token) (ts : List Token)
    → unique_hashes ts ≡ true
    → find_where (consumable kind hash now) ts ≡ some t
    → all
        (spent hash)
        (update_where (consumable kind hash now) (λ r. record r { consumed_at = some now }) ts)
      ≡ true
unfolding unique_hashes find_where update_where
consumed-spent kind hash now t [] u f = refl
consumed-spent kind hash now t (x ∷ ts) u f = elim (Bool-cases (str_beq x.token_hash hash)) [
  | inl e ↦
      let e' = (str_beq_iff x.token_hash hash).0 e in
      let rest =
        all-other hash
          (update_where (consumable kind hash now) (λ r. record r { consumed_at = some now }) ts)
          (any-hash_update hash (consumable kind hash now) now ts ∙ ground (arith, e')) in
      ground (arith, e, rest, no_consumable kind hash now ts)
  | inr e ↦ ground (arith, e, consumed-spent kind hash now t ts)
]

-- What happens to the tokens: an issue with a new token, the use of a token, the cleanup.
pub data Call : Type 0 where
  issues : IssueTokenInput → Str → Str → ℕ → Call
  consumes : Str → Str → ℕ → Call
  cleans : ℕ → Call

abbrev rows_of : List Token → Result (Token × List Token) → List Token
rows_of rows (ok (t, rows')) = rows'
rows_of rows (err e) = rows

module _ (digest : Str → Str) (hour : ℕ) where
  unfoldable pub after : List Token → Call → List Token
  after rows (issues input plaintext id now) =
      rows_of rows (issue_token digest hour rows input plaintext id now)
  after rows (consumes kind plaintext now) =
      rows_of rows (consume_token digest hour rows kind plaintext now)
  after rows (cleans before) = delete_expired rows before

  unfoldable pub run : List Token → List Call → List Token
  unfolding after
  run rows [] = rows
  run rows (c ∷ cs) = run (after rows c) cs

  -- No call issues a token of the digest.
  unfoldable pub never_issues : Str → List Call → Bool
  never_issues hash [] = true
  never_issues hash (issues input plaintext id now ∷ cs) =
      not (digest plaintext == hash) && never_issues hash cs
  never_issues hash (c ∷ cs) = never_issues hash cs

  issue-spent :
      (hash : Str) (rows : List Token) (input : IssueTokenInput) (plaintext id : Str) (now : ℕ)
      → (digest plaintext == hash) ≡ false
      → all (spent hash) rows ≡ true
      → all (spent hash) (rows_of rows (issue_token digest hour rows input plaintext id now)) ≡ true
  unfolding issue_token replaced create_row delete_by_identifier
  issue-spent hash rows input plaintext id now n h = ground (
    arith,
    all-spent_delete hash (λ t. t.kind == input.kind && t.identifier == input.identifier) rows h,
  )

  consume-spent :
      (hash : Str) (rows : List Token) (kind plaintext : Str) (now : ℕ)
      → all (spent hash) rows ≡ true
      → all (spent hash) (rows_of rows (consume_token digest hour rows kind plaintext now)) ≡ true
  unfolding consume_token consume_row
  consume-spent hash rows kind plaintext now h =
      ground (arith, all-spent_update hash (consumable kind (digest plaintext) now) now rows h)

  run-spent :
      (hash : Str) (rows : List Token) (cs : List Call)
      → never_issues hash cs ≡ true
      → all (spent hash) rows ≡ true
      → all (spent hash) (run rows cs) ≡ true
  unfolding run never_issues after delete_expired
  run-spent hash rows [] n h = h
  run-spent hash rows (issues input plaintext id now ∷ cs) n h =
      run-spent hash (after rows (issues input plaintext id now)) cs (ground arith)
        (issue-spent hash rows input plaintext id now (ground arith) h)
  run-spent hash rows (consumes kind plaintext now ∷ cs) n h =
      run-spent hash (after rows (consumes kind plaintext now)) cs n
        (consume-spent hash rows kind plaintext now h)
  run-spent hash rows (cleans before ∷ cs) n h =
      run-spent hash (after rows (cleans before)) cs n
        (all-spent_delete hash (λ t. leb t.expires_at before) rows h)

  -- In a table with unique digests, a token that was consumed is never consumed again: after any
  -- history in which no later issue draws a token of the same digest, its use is refused, for
  -- every kind and at every time.
  pub consume_token-once :
      (rows : List Token) (kind plaintext : Str) (now : ℕ) (t : Token) (rows' : List Token)
      (cs : List Call) (kind' : Str) (later : ℕ)
      → unique_hashes rows ≡ true
      → consume_token digest hour rows kind plaintext now ≡ ok (t, rows')
      → never_issues (digest plaintext) cs ≡ true
      → consume_token digest hour (run rows' cs) kind' plaintext later ≡ err invalid_token
  unfolding consume_token consume_row
  consume_token-once rows kind plaintext now t rows' cs kind' later u h n =
      elim (Option-cases (find_where (consumable kind (digest plaintext) now) rows)) [
        | inl e ↦ absurd (ground arith)
        | inr (r, e) ↦
            let s = consumed-spent kind (digest plaintext) now r rows u e in
            let s' = run-spent (digest plaintext) rows' cs n (ground (arith, e, s)) in
            ground (arith, spent-consumable kind' (digest plaintext) later (run rows' cs) s')
      ]
