-- ===== src/Principals/Gates.antt =====
-- middleware.go: `RequireAuth`, `LoadSession` and `checkHostOrigin`. The cross-origin check of the
-- standard library is the parameter `cross_origin`, which is `none` when it is off.
use auth_all.Prelude.{
  ◌≡◌, ◌↔◌, inl, inr, arith, Bool, true, false, ◌&&◌, ◌||◌, not, Option, none, some, if◌then◌else◌,
  is_empty, Bool-cases, Option-cases,
}
use auth_all.Errors.{Result, ok, err, unauthorized, origin_not_allowed, password_change_required}
use auth_all.Strings.{trim_space}
use auth_all.Accounts.{User}
use auth_all.Principals.Types.{Principal}
use auth_all.Principals.Request.{Request, is_safe_method, strict_origin_ok}

module _ (cross_origin : Option (Request → Bool)) (strict : Bool) where
  -- `checkHostOrigin` of a request with a principal.
  unfoldable pub check_host_origin : Request → Principal → Result (Unit {0})
  unfolding is_safe_method strict_origin_ok
  check_host_origin r p = elim cross_origin [
    | none ↦ ok tt
    | some passes ↦
        if not p.via_cookie
        then ok tt
        else if not (passes r)
        then err origin_not_allowed
        else if strict
            && (not (is_safe_method r.method)
                && (is_empty (trim_space r.origin) && not (strict_origin_ok r)))
        then err origin_not_allowed
        else ok tt
  ]

  -- `RequireAuth` over the answer of `resolvePrincipal`: the principal that the protected handler sees.
  unfoldable pub require_auth : Request → Result (Option Principal) → Result Principal
  unfolding check_host_origin
  require_auth r (err e) = err e
  require_auth r (ok none) = err unauthorized
  require_auth r (ok (some p)) = elim p.user [
    | none ↦ err unauthorized
    | some u ↦ elim (check_host_origin r p) [
      | err e ↦ err e
      | ok done ↦ if u.must_change_password then err password_change_required else ok p
    ]
  ]

  -- `LoadSession`: an error of the lookup leaves the request anonymous.
  unfoldable pub load_session : Request → Result (Option Principal) → Result (Option Principal)
  unfolding check_host_origin
  load_session r (err e) = ok none
  load_session r (ok none) = ok none
  load_session r (ok (some p)) = elim p.user [
    | none ↦ ok none
    | some u ↦ elim (check_host_origin r p) [ err e ↦ err e | ok done ↦ ok (some p) ]
  ]

  -- The origin of the request is acceptable for a credential in a cookie.
  unfoldable pub origin_passes : Request → Bool
  origin_passes r = elim cross_origin [
    | none ↦ true
    | some passes ↦
        passes r
        && (not strict
            || (is_safe_method r.method
                || (not (is_empty (trim_space r.origin)) || strict_origin_ok r)))
  ]

  -- The protected handler of `RequireAuth` runs exactly for a principal with a user who need not change
  -- the password, and, if a cookie carried the credential, for a request of an acceptable origin.
  pub require_auth_iff :
      (r : Request) (answer : Result (Option Principal)) (p : Principal)
      → (require_auth r answer ≡ ok p) ↔ (
          (answer ≡ ok (some p))
          × ((u : User) × (p.user ≡ some u) × (u.must_change_password ≡ false))
          × (p.via_cookie ≡ true → origin_passes r ≡ true))
  unfolding require_auth origin_passes
  require_auth_iff r answer p = (reached r answer p, passed r answer p)
    where
      reached :
          (r : Request) (answer : Result (Option Principal)) (p : Principal)
          → require_auth r answer ≡ ok p
          → (answer ≡ ok (some p))
            × ((u : User) × (p.user ≡ some u) × (u.must_change_password ≡ false))
            × (p.via_cookie ≡ true → origin_passes r ≡ true)
      reached r (err e) p h = absurd (ground arith)
      reached r (ok none) p h = absurd (ground arith)
      reached r (ok (some q)) p h = elim (Option-cases q.user) [
        | inl n ↦ absurd (ground arith)
        | inr (u, f) ↦
            let same : q ≡ p = elim (Option-cases cross_origin) [
              | inl c ↦ ground arith
              | inr (passes, c) ↦ ground arith
            ] in
            elim (Option-cases cross_origin) [
              | inl c ↦
                  (ground (arith, same), (u, ground (arith, same), ground arith), λ m. ground arith)
              | inr (passes, c) ↦ (
                ground (arith, same),
                (u, ground (arith, same), ground arith),
                λ m. ground (arith, same),
              )
            ]
      ]

      passed :
          (r : Request) (answer : Result (Option Principal)) (p : Principal)
          → ((answer ≡ ok (some p))
              × ((u : User) × (p.user ≡ some u) × (u.must_change_password ≡ false))
              × (p.via_cookie ≡ true → origin_passes r ≡ true))
          → require_auth r answer ≡ ok p
      passed r answer p (a, (u, f, m), o) = elim (Option-cases cross_origin) [
        | inl c ↦ ground arith
        | inr (passes, c) ↦ elim (Bool-cases p.via_cookie) [
          | inl v ↦ ground (arith, o v)
          | inr v ↦ ground arith
        ]
      ]
