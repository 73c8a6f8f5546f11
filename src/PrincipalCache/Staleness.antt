-- ===== src/PrincipalCache/Staleness.antt =====
-- How old an answer of the cache can be, and how far the cache grows.
use auth_all.Prelude.{
  ℕ, ◌+◌, ◌<◌, ◌≡◌, refl, subst, ◌⊎◌, inl, inr, Bool, true, false, not, List, [], ◌∷◌, some, Str,
  arith, str_beq_iff, ltb, ◌==◌, str_eq, length, any, find_where, delete_where, Bool-cases,
  Option-cases, find_where-some, All,
}
use auth_all.PrincipalCache.{CacheEntry, full_size, get, dropped_ended, put}

-- The calls on the cache, with their times.
pub data Call (Principal : Type 0) : Type 0 where
  gets : Str → ℕ → Call Principal
  puts : Str → Principal → ℕ → Call Principal

module _ {Principal : Type 0} (digest : Str → Str) (ttl : ℕ) where
  unfoldable pub after : List (CacheEntry Principal) → Call Principal → List (CacheEntry Principal)
  after entries (gets credential now) = (get digest entries credential now).1
  after entries (puts credential p now) = put digest ttl entries credential p now

  -- The entries after the calls, the last call first.
  unfoldable pub run : List (Call Principal) → List (CacheEntry Principal)
  unfolding after
  run [] = []
  run (c ∷ cs) = after (run cs) c

  -- Among the calls, a `put` of the principal under the digest whose entry ends at the given time.
  unfoldable pub IsPut : List (Call Principal) → Str → Principal → ℕ → Type 0
  IsPut [] key p expires = true ≡ false
  IsPut (gets credential now ∷ cs) key p expires = IsPut cs key p expires
  IsPut (puts credential q now ∷ cs) key p expires =
      ((digest credential ≡ key) × (q ≡ p) × (now + ttl ≡ expires)) ⊎ IsPut cs key p expires

  -- Among the calls, a `put` of the principal under the digest, less than the entry time ago.
  unfoldable pub IsFresh : List (Call Principal) → Str → Principal → ℕ → Type 0
  IsFresh [] key p now = true ≡ false
  IsFresh (gets credential at ∷ cs) key p now = IsFresh cs key p now
  IsFresh (puts credential q at ∷ cs) key p now =
      ((digest credential ≡ key) × (q ≡ p) × (now < at + ttl)) ⊎ IsFresh cs key p now

  abbrev IsSourced : List (Call Principal) → CacheEntry Principal → Type 0
  IsSourced cs e = IsPut cs e.key e.principal e.expires

  All-delete :
      (P : CacheEntry Principal → Type 0) (q : CacheEntry Principal → Bool)
      (es : List (CacheEntry Principal))
      → All P es
      → All P (delete_where q es)
  unfolding delete_where
  All-delete P q [] h = tt
  All-delete P q (e ∷ es) (h, hs) = elim (Bool-cases (q e)) [
    | inl b ↦
        subst (All P) {x = delete_where q es} {y = delete_where q (e ∷ es)} (ground (arith, b))
          (All-delete P q es hs)
    | inr b ↦
        subst (All P) {x = e ∷ delete_where q es} {y = delete_where q (e ∷ es)} (ground (arith, b))
          (h, All-delete P q es hs)
  ]

  All-imp :
      (P Q : CacheEntry Principal → Type 0) (es : List (CacheEntry Principal))
      → ((e : CacheEntry Principal) → P e → Q e)
      → All P es
      → All Q es
  All-imp P Q [] f h = tt
  All-imp P Q (e ∷ es) f (h, hs) = (f e h, All-imp P Q es f hs)

  All-find :
      (P : CacheEntry Principal → Type 0) (q : CacheEntry Principal → Bool)
      (es : List (CacheEntry Principal)) (a : CacheEntry Principal)
      → All P es
      → find_where q es ≡ some a
      → P a
  unfolding find_where
  All-find P q [] a h f = absurd (ground arith)
  All-find P q (e ∷ es) a (h, hs) f = elim (Bool-cases (q e)) [
    | inl b ↦ subst P {x = e} {y = a} (ground (arith, b)) h
    | inr b ↦ All-find P q es a hs (ground (arith, b))
  ]

  run-IsSourced : (cs : List (Call Principal)) → All (IsSourced cs) (run cs)
  unfolding run get put dropped_ended IsPut
  run-IsSourced [] = tt
  run-IsSourced (gets credential now ∷ cs) =
      elim (Option-cases (find_where (λ e. e.key == digest credential) (run cs))) [
        | inl n ↦
            subst (All (IsSourced cs)) {x = run cs} {y = run (gets credential now ∷ cs)}
              (ground (arith, n)) (run-IsSourced cs)
        | inr (e, f) ↦ elim (Bool-cases (ltb now e.expires)) [
          | inl l ↦
              subst (All (IsSourced cs)) {x = run cs} {y = run (gets credential now ∷ cs)}
                (ground (arith, f, l)) (run-IsSourced cs)
          | inr l ↦
              subst (All (IsSourced cs))
                {x = delete_where (λ x. x.key == digest credential) (run cs)}
                {y = run (gets credential now ∷ cs)} (ground (arith, f, l))
                (All-delete (IsSourced cs) (λ x. x.key == digest credential) (run cs)
                  (run-IsSourced cs))
        ]
      ]
  run-IsSourced (puts credential p now ∷ cs) = (
    inl (refl, refl, refl),
    All-imp (IsSourced cs) (IsSourced (puts credential p now ∷ cs))
        (delete_where (λ e. e.key == digest credential) (dropped_ended digest (run cs) now))
        (λ e h. inr h)
        (All-delete (IsSourced cs) (λ e. e.key == digest credential)
          (dropped_ended digest (run cs) now)
          (elim (Bool-cases (ltb full_size (length (run cs)))) [
            | inl l ↦
                subst (All (IsSourced cs))
                  {x = delete_where (λ e. not (ltb now e.expires)) (run cs)}
                  {y = dropped_ended digest (run cs) now} (ground (arith, l))
                  (All-delete (IsSourced cs) (λ e. not (ltb now e.expires)) (run cs)
                    (run-IsSourced cs))
            | inr l ↦
                subst (All (IsSourced cs)) {x = run cs} {y = dropped_ended digest (run cs) now}
                  (ground (arith, l)) (run-IsSourced cs)
          ])),
  )

  IsPut-IsFresh :
      (cs : List (Call Principal)) (key : Str) (p : Principal) (expires now : ℕ)
      → IsPut cs key p expires
      → now < expires
      → IsFresh cs key p now
  unfolding IsPut IsFresh
  IsPut-IsFresh [] key p expires now h l = h
  IsPut-IsFresh (gets credential at ∷ cs) key p expires now h l =
      IsPut-IsFresh cs key p expires now h l
  IsPut-IsFresh (puts credential q at ∷ cs) key p expires now (inl (a, b, c)) l =
      inl (a, b, ground arith)
  IsPut-IsFresh (puts credential q at ∷ cs) key p expires now (inr h) l =
      inr (IsPut-IsFresh cs key p expires now h l)

  -- Whatever calls came before, an answer of the cache is a principal that was put under the
  -- digest of the same credential less than the entry time ago.
  pub get-IsFresh :
      (cs : List (Call Principal)) (credential : Str) (now : ℕ) (p : Principal)
      → (get digest (run cs) credential now).0 ≡ some p
      → IsFresh cs (digest credential) p now
  unfolding get
  get-IsFresh cs credential now p h =
      elim (Option-cases (find_where (λ e. e.key == digest credential) (run cs))) [
        | inl n ↦ absurd (ground arith)
        | inr (e, f) ↦
            let same =
              (str_beq_iff e.key (digest credential)).0
                (find_where-some (λ e. e.key == digest credential) (run cs) e f) in
            let put : IsPut cs e.key e.principal e.expires =
              All-find (IsSourced cs) (λ e. e.key == digest credential) (run cs) e
                (run-IsSourced cs) f in
            let put' = subst (λ k. IsPut cs k e.principal e.expires) same put in
            IsPut-IsFresh cs (digest credential) p e.expires now
              (subst (λ q. IsPut cs (digest credential) q e.expires) {x = e.principal} {y = p}
                (ground arith) put')
              (ground arith)
      ]

  delete-none :
      (q : CacheEntry Principal → Bool) (es : List (CacheEntry Principal))
      → any q es ≡ false
      → delete_where q es ≡ es
  unfolding delete_where
  delete-none q [] h = refl
  delete-none q (e ∷ es) h = ground (arith, delete-none q es)

  -- The size of the cache has no bound: a `put` of a credential that has no entry adds one entry however
  -- many there are, as long as none has ended.
  pub put-length :
      (es : List (CacheEntry Principal)) (credential : Str) (p : Principal) (now : ℕ)
      → any (λ e. e.key == digest credential) es ≡ false
      → any (λ e. not (ltb now e.expires)) es ≡ false
      → length (put digest ttl es credential p now) ≡ length es + 1
  unfolding put dropped_ended
  put-length es credential p now k l = ground (
    arith,
    delete-none (λ e. e.key == digest credential) es k,
    delete-none (λ e. not (ltb now e.expires)) es l,
  )
