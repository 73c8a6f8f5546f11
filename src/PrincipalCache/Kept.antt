-- ===== src/PrincipalCache/Kept.antt =====
-- What a live entry of the cache outlasts.
use auth_all.Prelude.{
  ℕ, ◌+◌, ◌<◌, ◌≡◌, sym, ◌∙◌, inl, inr, Bool, false, not, List, [], ◌∷◌, Option, some, Str, arith,
  str_beq, str_beq_iff, str_beq_refl, ltb, ◌==◌, str_eq, find_where, delete_where, length,
  find_where-some, Bool-cases, Option-cases,
}
use auth_all.PrincipalCache.{CacheEntry, full_size, dropped_ended, get, put}

-- A deletion that does not meet the row found leaves it the row found.
find_where-kept :
    {A : Type 0} (p q : A → Bool) (xs : List A) (a : A)
    → find_where p xs ≡ some a
    → q a ≡ false
    → find_where p (delete_where q xs) ≡ some a
unfolding find_where delete_where
find_where-kept p q [] a f n = absurd (ground arith)
find_where-kept p q (x ∷ xs) a f n = elim (Bool-cases (p x)) [
  | inl b ↦
      let same : x ≡ a = ground (arith, b) in
      let stays : q x ≡ false = rw same n in ground (arith, b, stays)
  | inr b ↦ ground (arith, b, find_where-kept p q xs a)
]

module _ {Principal : Type 0} (digest : Str → Str) (ttl : ℕ) where
  -- The entry of a digest.
  abbrev pub entry_of : Str → List (CacheEntry Principal) → Option (CacheEntry Principal)
  entry_of key entries = find_where (λ e. e.key == key) entries

  pub get-kept :
      (key : Str) (entries : List (CacheEntry Principal)) (credential : Str) (at : ℕ)
      (e : CacheEntry Principal)
      → entry_of key entries ≡ some e
      → at < e.expires
      → entry_of key (get digest entries credential at).1 ≡ some e
  unfolding get
  get-kept key entries credential at e f l =
      let mine = find_where-some (λ x. x.key == key) entries e f in
      elim (Bool-cases (str_beq key (digest credential))) [
        | inl k ↦
            let found : entry_of (digest credential) entries ≡ some e =
              rw (← (str_beq_iff key (digest credential)).0 k) f in
            ground (arith, found)
        | inr k ↦
            let same = (str_beq_iff e.key key).0 mine in
            let other : str_beq e.key (digest credential) ≡ false = rw same k in
            let kept =
              find_where-kept (λ x. x.key == key) (λ x. x.key == digest credential) entries e f
                other in
            elim (Option-cases (entry_of (digest credential) entries)) [
              | inl g ↦ ground (arith, g)
              | inr (x, g) ↦ elim (Bool-cases (ltb at x.expires)) [
                | inl b ↦ ground (arith, g, b)
                | inr b ↦ ground (arith, g, b, kept)
              ]
            ]
      ]

  -- A live entry answers.
  pub get-live :
      (entries : List (CacheEntry Principal)) (credential : Str) (at : ℕ) (e : CacheEntry Principal)
      → entry_of (digest credential) entries ≡ some e
      → at < e.expires
      → (get digest entries credential at).0 ≡ some e.principal
  unfolding get
  get-live entries credential at e f l = ground arith

  other-key :
      (key credential : Str) (entries : List (CacheEntry Principal)) (e : CacheEntry Principal)
      → entry_of key entries ≡ some e
      → str_beq (digest credential) key ≡ false
      → str_beq e.key (digest credential) ≡ false
  other-key key credential entries e f n =
      let mine = find_where-some (λ x. x.key == key) entries e f in
      let same = (str_beq_iff e.key key).0 mine in
      elim (Bool-cases (str_beq e.key (digest credential))) [
        | inr k ↦ k
        | inl k ↦
            let both = sym ((str_beq_iff e.key (digest credential)).0 k) ∙ same in
            absurd (ground (arith, (str_beq_iff (digest credential) key).1 both))
      ]

  dropped-kept :
      (key : Str) (entries : List (CacheEntry Principal)) (at : ℕ) (e : CacheEntry Principal)
      → entry_of key entries ≡ some e
      → at < e.expires
      → entry_of key (dropped_ended digest entries at) ≡ some e
  unfolding dropped_ended
  dropped-kept key entries at e f l =
      let kept =
        find_where-kept (λ x. x.key == key) (λ x. not (ltb at x.expires)) entries e f
          (ground arith) in
      elim (Bool-cases (ltb full_size (length entries))) [
        | inl b ↦ ground (arith, b, kept)
        | inr b ↦ ground (arith, b)
      ]

  pub put-kept :
      (key : Str) (entries : List (CacheEntry Principal)) (credential : Str) (p : Principal)
      (at : ℕ) (e : CacheEntry Principal)
      → entry_of key entries ≡ some e
      → at < e.expires
      → str_beq (digest credential) key ≡ false
      → entry_of key (put digest ttl entries credential p at) ≡ some e
  unfolding put dropped_ended find_where
  put-kept key entries credential p at e f l n =
      let kept =
        find_where-kept (λ x. x.key == key) (λ x. x.key == digest credential)
          (dropped_ended digest entries at) e (dropped-kept key entries at e f l)
          (other-key key credential entries e f n) in
      ground (arith, kept)

  pub put-entry :
      (entries : List (CacheEntry Principal)) (credential : Str) (p : Principal) (now : ℕ)
      → entry_of (digest credential) (put digest ttl entries credential p now)
        ≡ some (record { key = digest credential; principal = p; expires = now + ttl })
  unfolding put find_where
  put-entry entries credential p now = ground (arith, str_beq_refl (digest credential))
