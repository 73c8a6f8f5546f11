-- ===== src/Tokens/Issued.antt =====
-- What an issued token is good for, and how reading it compares with consuming it.
use auth_all.Prelude.{
  ℕ, ◌+◌, ◌≡◌, refl, inl, inr, Bool, true, false, ◌&&◌, ◌||◌, List, [], ◌∷◌, some, Str, arith,
  str_beq, str_beq_iff, str_beq_refl, ltb, ◌==◌, nat_eq, str_eq, any, find_where, update_where,
  delete_where, is_empty, Option-cases, find_where-some, delete_where-found,
}
use auth_all.Errors.{ok, err, invalid_token}
use auth_all.Tokens.{
  Token, IssueTokenInput, unconsumed, matches, consumable, create_row, get_row, consume_row,
  delete_by_identifier, lifetime, new_token, replaced, issue_token, peek_token, consume_token,
}
use auth_all.Tokens.Once.{unique_hashes, no_consumable}

same_row :
    (kind hash : Str) (now : ℕ) (ts : List Token) (t : Token)
    → unique_hashes ts ≡ true
    → find_where (matches kind hash) ts ≡ some t
    → (unconsumed t && ltb now t.expires_at) ≡ true
    → find_where (consumable kind hash now) ts ≡ some t
unfolding unique_hashes find_where
same_row kind hash now [] t u f c = ground arith
same_row kind hash now (x ∷ ts) t u f c = ground (arith, same_row kind hash now ts t)

found_row :
    (kind hash : Str) (now : ℕ) (ts : List Token) (t : Token)
    → unique_hashes ts ≡ true
    → find_where (consumable kind hash now) ts ≡ some t
    → (find_where (matches kind hash) ts ≡ some t) × ((unconsumed t && ltb now t.expires_at) ≡ true)
unfolding unique_hashes find_where
found_row kind hash now [] t u f = ground arith
found_row kind hash now (x ∷ ts) t u f = ground (
  arith,
  found_row kind hash now ts t,
  no_consumable kind hash now ts,
  str_beq_iff x.token_hash hash,
)

no_hash :
    (t : Token) (ts : List Token)
    → any (λ r. r.id == t.id || r.token_hash == t.token_hash) ts ≡ false
    → any (λ r. r.token_hash == t.token_hash) ts ≡ false
no_hash t [] h = refl
no_hash t (x ∷ ts) h = ground (arith, no_hash t ts)

module _ (digest : Str → Str) (hour : ℕ) where
  -- In a table with unique digests, reading a token succeeds exactly when consuming it at the
  -- same time does, and for the same row.
  pub peek_token-consume_token :
      (rows : List Token) (kind plaintext : Str) (now : ℕ)
      → unique_hashes rows ≡ true
      → ((t : Token)
          → peek_token digest hour rows kind plaintext now ≡ ok t
          → (rows' : List Token) × (consume_token digest hour rows kind plaintext now
              ≡ ok (record t { consumed_at = some now }, rows')))
        × ((t' : Token) (rows' : List Token)
            → consume_token digest hour rows kind plaintext now ≡ ok (t', rows')
            → (t : Token) × (peek_token digest hour rows kind plaintext now ≡ ok t)
              × (t' ≡ record t { consumed_at = some now }))
  unfolding peek_token consume_token get_row consume_row
  peek_token-consume_token rows kind plaintext now u = (
    λ t h. elim (Option-cases (find_where (matches kind (digest plaintext)) rows)) [
      | inl e ↦ absurd (ground arith)
      | inr (r, e) ↦
          let e' = same_row kind (digest plaintext) now rows r u e (ground arith) in
          (
            update_where (consumable kind (digest plaintext) now)
                (λ r. record r { consumed_at = some now }) rows,
            ground (arith, e, e'),
          )
    ],
    λ t' rows' h. elim (Option-cases (find_where (consumable kind (digest plaintext) now) rows)) [
      | inl e ↦ absurd (ground arith)
      | inr (r, e) ↦
          let e' = found_row kind (digest plaintext) now rows r u e in
          (r, ground (arith, e, e'), ground (arith, e))
    ],
  )

  issued :
      (rows : List Token) (input : IssueTokenInput) (plaintext id : Str) (now : ℕ) (t : Token)
      (rows' : List Token)
      → issue_token digest hour rows input plaintext id now ≡ ok (t, rows')
      → (t ≡ new_token digest hour input plaintext id now)
        × (rows' ≡ new_token digest hour input plaintext id now ∷ replaced digest hour rows input)
        × (any (λ r. r.token_hash == digest plaintext) (replaced digest hour rows input) ≡ false)
  unfolding issue_token create_row
  issued rows input plaintext id now t rows' h = ground (
    arith,
    no_hash (new_token digest hour input plaintext id now) (replaced digest hour rows input),
  )

  -- A non-empty token that was issued is consumed, for its own kind alone, until its lifetime
  -- ends, and refused from then on.
  pub issue_token-consume_token :
      (rows : List Token) (input : IssueTokenInput) (plaintext id : Str) (now later : ℕ) (t : Token)
      (rows' : List Token) (kind : Str)
      → issue_token digest hour rows input plaintext id now ≡ ok (t, rows')
      → is_empty plaintext ≡ false
      → (((input.kind == kind && ltb later (now + lifetime digest hour input)) ≡ true)
          → (rows'' : List Token) × (consume_token digest hour rows' kind plaintext later
              ≡ ok (record t { consumed_at = some later }, rows'')))
        × (((input.kind == kind && ltb later (now + lifetime digest hour input)) ≡ false)
            → consume_token digest hour rows' kind plaintext later ≡ err invalid_token)
  unfolding consume_token consume_row find_where
  issue_token-consume_token rows input plaintext id now later t rows' kind h n =
      let i = issued rows input plaintext id now t rows' h in
      (
        λ c. (
          update_where (consumable kind (digest plaintext) later)
              (λ r. record r { consumed_at = some later }) rows',
          ground (arith, i, str_beq_refl (digest plaintext)),
        ),
        λ c. ground (
          arith,
          i,
          no_consumable kind (digest plaintext) later (replaced digest hour rows input),
        ),
      )

  -- After an issue with `ReplaceExisting` and an identifier, a token of the same kind and another
  -- digest is consumed only if it was for another identifier.
  pub issue_token-replaces :
      (rows : List Token) (input : IssueTokenInput) (plaintext id : Str) (now later : ℕ) (t : Token)
      (rows' : List Token) (old : Str) (r : Token) (rows'' : List Token)
      → issue_token digest hour rows input plaintext id now ≡ ok (t, rows')
      → input.replace_existing ≡ true
      → is_empty input.identifier ≡ false
      → str_beq (digest plaintext) (digest old) ≡ false
      → consume_token digest hour rows' input.kind old later ≡ ok (r, rows'')
      → str_beq r.identifier input.identifier ≡ false
  unfolding consume_token consume_row find_where replaced delete_by_identifier
  issue_token-replaces rows input plaintext id now later t rows' old r rows'' h e n d c =
      let i = issued rows input plaintext id now t rows' h in
      let q : Token → Bool = λ t. t.kind == input.kind && t.identifier == input.identifier in
      let p = consumable input.kind (digest old) later in
      elim (Option-cases (find_where p (delete_where q rows))) [
        | inl f ↦ absurd (ground (arith, i))
        | inr (x, f) ↦
            let y = find_where-some p (delete_where q rows) x f in
            let z = delete_where-found p q rows x f in ground (arith, i, y, z)
      ]
