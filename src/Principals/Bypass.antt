-- ===== src/Principals/Bypass.antt =====
-- A credential that was first seen in the Authorization header, and a cookie request with it.
use auth_all.Prelude.{
  ℕ, ◌+◌, ◌<◌, ◌≡◌, inl, inr, Bool, true, false, ◌&&◌, List, [], ◌∷◌, Option, none, some, Str,
  arith, is_empty, str_beq, str_beq_iff, ltb, str_eq, Bool-cases, Option-cases,
}
use auth_all.Errors.{Result, ok, Result-cases}
use auth_all.Roles.{Roles}
use auth_all.Accounts.{User}
use auth_all.PrincipalCache.{CacheEntry, get}
use auth_all.PrincipalCache.Kept.{entry_of, get-kept, get-live, put-kept, put-entry}
use auth_all.Principals.Types.{Principal, from_plugin_principal}
use auth_all.Principals.Request.{Request, cookie_value, request_token, bearer_token}
use auth_all.Principals.Resolution.{
  CredentialResolver, SessionRead, by_session, by_bearer, read_principal, is_cached, read_and_put,
  resolve_principal,
}
use auth_all.Principals.Gates.{require_auth}
use auth_all.Principals.Cached.{Served, serves}

module _ {S : Type 0} (roles : Roles) (resolvers : List (CredentialResolver S))
    (lookup : S → Str → ℕ → Result (Option SessionRead) × S) where
  by_session-bearer :
      (s : S) (token : Str) (now : ℕ) (p : Principal)
      → (by_session roles resolvers lookup s token false now).0 ≡ ok (some p)
      → p.via_cookie ≡ false
  unfolding by_session
  by_session-bearer s token now p h = elim (Result-cases (lookup s token now).0) [
    | inr (x, e) ↦ absurd (ground arith)
    | inl (answer, e) ↦ elim (Option-cases answer) [
      | inl n ↦ absurd (ground arith)
      | inr (read, n) ↦ elim (Option-cases read.organization) [
        | inl o ↦ ground arith
        | inr (org, o) ↦ elim (Option-cases read.membership) [
          | inl m ↦ ground arith
          | inr (member, m) ↦ ground arith
        ]
      ]
    ]
  ]

  by_bearer-bearer :
      (rs : List (CredentialResolver S)) (s : S) (bearer : Str) (r : Request) (now : ℕ)
      (p : Principal)
      → (by_bearer roles resolvers lookup rs s bearer r now).0 ≡ ok (some p)
      → p.via_cookie ≡ false
  unfolding by_bearer from_plugin_principal
  by_bearer-bearer [] s bearer r now p h = by_session-bearer s bearer now p h
  by_bearer-bearer (c ∷ cs) s bearer r now p h = elim (Bool-cases (c.claims bearer)) [
    | inr e ↦ by_bearer-bearer cs s bearer r now p (ground (arith, e))
    | inl e ↦ elim (Result-cases (c.resolve s bearer r now).0) [
      | inr (x, e') ↦ absurd (ground arith)
      | inl (answer, e') ↦ elim (Option-cases answer) [
        | inl n ↦ absurd (ground arith)
        | inr (q, n) ↦ ground arith
      ]
    ]
  ]

  read_principal-bearer :
      (s : S) (r : Request) (now : ℕ) (p : Principal)
      → cookie_value r ≡ none
      → (read_principal roles resolvers lookup s r now).0 ≡ ok (some p)
      → p.via_cookie ≡ false
  unfolding read_principal
  read_principal-bearer s r now p n h = elim (Bool-cases (is_empty (bearer_token r))) [
    | inl e ↦ absurd (ground arith)
    | inr e ↦ by_bearer-bearer resolvers s (bearer_token r) r now p (ground arith)
  ]

  module _ (digest : Str → Str) (ttl : ℕ) where
    resolve-kept :
        (s : S) (r : Request) (key : Str) (entries : List (CacheEntry Principal)) (at : ℕ)
        (e : CacheEntry Principal)
        → entry_of digest ttl key entries ≡ some e
        → at < e.expires
        → entry_of digest ttl key
            (resolve_principal roles resolvers lookup digest ttl s entries r at).2
          ≡ some e
    unfolding resolve_principal read_and_put
    resolve-kept s r key entries at e f l =
        let token = request_token r in
        let left = get-kept digest ttl key entries token at e f l in
        elim (Bool-cases (is_cached roles resolvers lookup digest ttl r)) [
          | inr c ↦ elim (Result-cases (read_principal roles resolvers lookup s r at).0) [
            | inr (x, g) ↦ ground (arith, c, g)
            | inl (answer, g) ↦ elim (Option-cases answer) [
              | inl n ↦ ground (arith, c, g, n)
              | inr (p, n) ↦ ground (arith, c, g, n)
            ]
          ]
          | inl c ↦ elim (Option-cases (get digest entries token at).0) [
            | inr (p, g) ↦ ground (arith, c, g, left)
            | inl g ↦ elim (Bool-cases (str_beq (digest token) key)) [
              | inl k ↦
                  let found : entry_of digest ttl (digest token) entries ≡ some e =
                    rw ((str_beq_iff (digest token) key).0 k) f in
                  absurd (ground (arith, g, get-live digest ttl entries token at e found l))
              | inr k ↦ elim (Result-cases (read_principal roles resolvers lookup s r at).0) [
                | inr (x, h) ↦ ground (arith, c, g, h, left)
                | inl (answer, h) ↦ elim (Option-cases answer) [
                  | inl n ↦ ground (arith, c, g, h, n, left)
                  | inr (p, n) ↦
                      let stored =
                        put-kept digest ttl key (get digest entries token at).1 token p at e left l
                          k in
                      ground (arith, c, g, h, n, stored)
                ]
              ]
            ]
          ]
        ]

    abbrev resolved :
        S
        → List (CacheEntry Principal)
        → Request
        → ℕ
        → Result (Option Principal) × S × List (CacheEntry Principal)
    resolved s entries r now = resolve_principal roles resolvers lookup digest ttl s entries r now

    -- The entries after more requests, the last request first.
    unfoldable pub served :
        List (CacheEntry Principal)
        → List (Served roles resolvers lookup digest ttl)
        → List (CacheEntry Principal)
    served entries [] = entries
    served entries (serves s r at ∷ es) = (resolved s (served entries es) r at).2

    -- Each request comes before the time.
    unfoldable pub all_before : ℕ → List (Served roles resolvers lookup digest ttl) → Bool
    all_before until [] = true
    all_before until (serves s r at ∷ es) = ltb at until && all_before until es

    served-kept :
        (key : Str) (entries : List (CacheEntry Principal))
        (es : List (Served roles resolvers lookup digest ttl)) (e : CacheEntry Principal)
        → entry_of digest ttl key entries ≡ some e
        → all_before e.expires es ≡ true
        → entry_of digest ttl key (served entries es) ≡ some e
    unfolding served all_before
    served-kept key entries [] e f b = f
    served-kept key entries (serves s r at ∷ es) e f b =
        resolve-kept s r key (served entries es) at e
          (served-kept key entries es e f (ground arith)) (ground arith)

    -- The cache keeps no trace of the way a credential came: after a request without a session cookie that
    -- missed the cache, authenticated as a user who need not change the password, and was put in the cache,
    -- and after any further requests before the entry ends, each request with the same credential, also one
    -- that carries it in the cookie, reaches the protected handler until the entry ends, whatever its
    -- origin, whatever the origin check says, and whatever the store holds by then.
    pub require_auth-cached_bearer :
        (s later_s : S) (entries : List (CacheEntry Principal)) (b r : Request) (now later : ℕ)
        (p : Principal) (u : User) (es : List (Served roles resolvers lookup digest ttl))
        (cross_origin : Option (Request → Bool)) (strict : Bool)
        → cookie_value b ≡ none
        → request_token r ≡ request_token b
        → is_cached roles resolvers lookup digest ttl b ≡ true
        → (get digest entries (request_token b) now).0 ≡ none
        → (read_principal roles resolvers lookup s b now).0 ≡ ok (some p)
        → p.user ≡ some u
        → u.must_change_password ≡ false
        → all_before (now + ttl) es ≡ true
        → later < now + ttl
        → require_auth cross_origin strict r
            (resolved later_s (served (resolved s entries b now).2 es) r later).0
          ≡ ok p
    unfolding resolve_principal read_and_put require_auth is_cached
    require_auth-cached_bearer s later_s entries b r now later p u es cross_origin strict c t i g h
          f m before l =
        let v = read_principal-bearer s b now p c h in
        let entry : CacheEntry Principal = record {
          key = digest (request_token b);
          principal = p;
          expires = now + ttl;
        } in
        let first : entry_of digest ttl (digest (request_token b)) (resolved s entries b now).2
            ≡ some entry =
          ground (
            arith,
            put-entry digest ttl (get digest entries (request_token b) now).1 (request_token b) p
                now,
          ) in
        let last =
          served-kept (digest (request_token b)) (resolved s entries b now).2 es entry first
            before in
        let hit =
          get-live digest ttl (served (resolved s entries b now).2 es) (request_token b) later entry
            last l in
        elim (Option-cases cross_origin) [ inl o ↦ ground arith | inr (passes, o) ↦ ground arith ]
