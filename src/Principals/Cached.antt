-- ===== src/Principals/Cached.antt =====
-- The cache of principals under the requests that fill it.
use auth_all.Prelude.{
  ℕ, ◌+◌, ◌<◌, ◌≡◌, refl, subst, ◌⊎◌, inl, inr, true, false, List, [], ◌∷◌, Option, none, some, Str,
  arith, if◌then◌else◌, Bool-cases, Option-cases,
}
use auth_all.Errors.{Result, ok, err, Result-cases}
use auth_all.Roles.{Roles}
use auth_all.PrincipalCache.{CacheEntry, get}
use auth_all.PrincipalCache.Staleness as Staleness
use auth_all.PrincipalCache.Staleness.{gets, puts, IsFresh, get-IsFresh}
use auth_all.Principals.Types.{Principal}
use auth_all.Principals.Request.{Request, request_token}
use auth_all.Principals.Resolution.{
  CredentialResolver, SessionRead, read_principal, is_cached, read_and_put, resolve_principal,
}

module _ {S : Type 0} (roles : Roles) (resolvers : List (CredentialResolver S))
    (lookup : S → Str → ℕ → Result (Option SessionRead) × S) where
  module _ (digest : Str → Str) (ttl : ℕ) where
    abbrev resolved :
        S
        → List (CacheEntry Principal)
        → Request
        → ℕ
        → Result (Option Principal) × S × List (CacheEntry Principal)
    resolved s entries r now = resolve_principal roles resolvers lookup digest ttl s entries r now

    -- A request with the state of the store at its time.
    pub data Served : Type 0 where
      serves : S → Request → ℕ → Served

    -- The entries after the requests, the last request first.
    unfoldable pub run : List Served → List (CacheEntry Principal)
    unfolding resolve_principal
    run [] = []
    run (serves s r now ∷ es) = (resolved s (run es) r now).2

    -- Among the requests, one with a credential of the digest, less than the entry time ago, to which
    -- the store gave this principal.
    unfoldable pub IsServed : List Served → Str → Principal → ℕ → Type 0
    IsServed [] key p now = true ≡ false
    IsServed (serves s r at ∷ es) key p now =
        ((digest (request_token r) ≡ key)
          × ((read_principal roles resolvers lookup s r at).0 ≡ ok (some p))
          × (now < at + ttl))
        ⊎ IsServed es key p now

    -- The calls on the cache that a request makes after others.
    abbrev calls_of : List (Staleness.Call Principal) → Served → List (Staleness.Call Principal)
    calls_of before (serves s r now) =
        if is_cached roles resolvers lookup digest ttl r
        then elim (get digest (Staleness.run digest ttl before) (request_token r) now).0 [
          | some p ↦ gets (request_token r) now ∷ before
          | none ↦ elim (read_principal roles resolvers lookup s r now).0 [
            | err e ↦ gets (request_token r) now ∷ before
            | ok none ↦ gets (request_token r) now ∷ before
            | ok (some p) ↦ puts (request_token r) p now ∷ (gets (request_token r) now ∷ before)
          ]
        ]
        else before

    unfoldable calls : List Served → List (Staleness.Call Principal)
    calls [] = []
    calls (e ∷ es) = calls_of (calls es) e

    -- The entries are those that the calls leave.
    run-calls : (es : List Served) → Staleness.run digest ttl (calls es) ≡ run es
    unfolding run calls Staleness.run read_and_put is_cached
    run-calls [] = refl
    run-calls (serves s r now ∷ es) =
        let same = run-calls es in
        elim (Bool-cases (is_cached roles resolvers lookup digest ttl r)) [
          | inr c ↦ elim (Result-cases (read_principal roles resolvers lookup s r now).0) [
            | inr (x, e) ↦ ground arith
            | inl (answer, e) ↦ elim (Option-cases answer) [
              | inl n ↦ ground arith
              | inr (p, n) ↦ ground arith
            ]
          ]
          | inl c ↦
              elim (Option-cases
                (get digest (Staleness.run digest ttl (calls es)) (request_token r) now).0) [
                  | inr (p, g) ↦ ground arith
                  | inl g ↦ elim (Result-cases (read_principal roles resolvers lookup s r now).0) [
                    | inr (x, e) ↦ ground arith
                    | inl (answer, e) ↦ elim (Option-cases answer) [
                      | inl n ↦ ground arith
                      | inr (p, n) ↦ ground arith
                    ]
                  ]
                ]
        ]

    IsFresh-IsServed :
        (es : List Served) (key : Str) (p : Principal) (now : ℕ)
        → IsFresh digest ttl (calls es) key p now
        → IsServed es key p now
    unfolding IsServed calls IsFresh
    IsFresh-IsServed [] key p now h = h
    IsFresh-IsServed (serves s r at ∷ es) key p now h =
        let same : (cs : List (Staleness.Call Principal))
            → calls (serves s r at ∷ es) ≡ cs
            → IsFresh digest ttl cs key p now =
          λ cs e. subst (λ cs. IsFresh digest ttl cs key p now) e h in
        let rest : IsFresh digest ttl (calls es) key p now → IsServed es key p now =
          IsFresh-IsServed es key p now in
        elim (Bool-cases (is_cached roles resolvers lookup digest ttl r)) [
          | inr c ↦ inr (rest (same (calls es) (ground arith)))
          | inl c ↦
              elim (Option-cases
                (get digest (Staleness.run digest ttl (calls es)) (request_token r) at).0) [
                  | inr (q, g) ↦
                      inr (rest (same (gets (request_token r) at ∷ calls es) (ground arith)))
                  | inl g ↦ elim (Result-cases (read_principal roles resolvers lookup s r at).0) [
                    | inr (x, e) ↦
                        inr (rest (same (gets (request_token r) at ∷ calls es) (ground arith)))
                    | inl (answer, e) ↦ elim (Option-cases answer) [
                      | inl n ↦
                          inr (rest (same (gets (request_token r) at ∷ calls es) (ground arith)))
                      | inr (q, n) ↦
                          elim (same
                            (puts (request_token r) q at ∷ (gets (request_token r) at ∷ calls es))
                            (ground arith)) [
                              | inl (k, i, l) ↦ inl (k, ground arith, l)
                              | inr f ↦ inr (rest f)
                            ]
                    ]
                  ]
                ]
        ]

    -- The principal of a request is the one that the store gives at that time, or one that it gave less
    -- than the entry time ago to an earlier request with a credential of the same digest, whatever
    -- happened to the store between the requests.
    pub resolve_principal-IsServed :
        (es : List Served) (s : S) (r : Request) (now : ℕ) (p : Principal)
        → (resolved s (run es) r now).0 ≡ ok (some p)
        → ((read_principal roles resolvers lookup s r now).0 ≡ ok (some p))
          ⊎ IsServed es (digest (request_token r)) p now
    unfolding resolve_principal read_and_put
    resolve_principal-IsServed es s r now p h =
        elim (Bool-cases (is_cached roles resolvers lookup digest ttl r)) [
          | inr c ↦ inl (fresh (run es) (ground arith))
          | inl c ↦ elim (Option-cases (get digest (run es) (request_token r) now).0) [
            | inl g ↦ inl (fresh (get digest (run es) (request_token r) now).1 (ground arith))
            | inr (q, g) ↦ inr (
                IsFresh-IsServed es (digest (request_token r)) p now (
                  get-IsFresh digest ttl (calls es) (request_token r) now p
                    (rw (run-calls es) (ground arith))))
          ]
        ]
      where
        fresh :
            (entries : List (CacheEntry Principal))
            → (read_and_put roles resolvers lookup digest ttl s entries r now).0 ≡ ok (some p)
            → (read_principal roles resolvers lookup s r now).0 ≡ ok (some p)
        fresh entries k = elim (Result-cases (read_principal roles resolvers lookup s r now).0) [
          | inr (x, e) ↦ absurd (ground arith)
          | inl (answer, e) ↦ elim (Option-cases answer) [
            | inl n ↦ absurd (ground arith)
            | inr (q, n) ↦ ground arith
          ]
        ]
