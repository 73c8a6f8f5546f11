-- ===== src/Admin/History.antt =====
-- The operations of an administrator, one after another.
use auth_all.Prelude.{
  ℕ, ◌≡◌, refl, subst, inl, inr, true, false, ◌&&◌, not, List, [], ◌∷◌, none, some, Str, arith,
  str_beq, str_beq_iff, ◌==◌, str_eq, find_where, Bool-cases, Option-cases, find_where-some,
  delete_where-found,
}
use auth_all.Errors.{Result, ok, err, Result-cases}
use auth_all.Roles.{rank, at_least, effective}
use auth_all.Roles.Order.{effective-at_least}
use auth_all.Accounts.{
  User, Session, Db, is_enabled, user_by_id, update_user, delete_sessions_of, session_with_user,
}
use auth_all.Admin.{
  Plugin, Hooks, Change, role_of, set_role_tx, set_role, disable_tx, disable, enable_tx, enable,
  publicly,
}
use auth_all.Admin.Owners.{
  IsAdministered, put_user, put_user-IsAdministered, guard_last_admin-other, at_least_self,
}

module _ (p : Plugin) (hooks : Hooks) (db : Db) (user : Str) (w : IsAdministered p db) where
  set_role_tx-IsAdministered :
      (role : Str) (now : ℕ) (done : Db × User)
      → set_role_tx p hooks db user role now ≡ ok done
      → IsAdministered p done.0
  unfolding set_role_tx user_by_id update_user effective
  set_role_tx-IsAdministered role now done h =
      elim (Option-cases (find_where (λ u. u.id == user) db.users)) [
        | inl n ↦ absurd (ground arith)
        | inr (u, f) ↦
            let u' = record u { role = role; updated_at = now } in
            let e = (str_beq_iff u.id user).0 (find_where-some (λ u. u.id == user) db.users u f) in
            elim (Bool-cases (role_of p u == role)) [
              | inl s ↦ subst (IsAdministered p) {x = db} {y = done.0} (ground arith) w
              | inr s ↦
                  elim (Bool-cases (
                    at_least p.roles (role_of p u) p.admin_role
                    && not (at_least p.roles role p.admin_role))) [
                      | inl l ↦
                          let o =
                            guard_last_admin-other p db user
                              (at_least_self p.roles (role_of p u) p.admin_role (ground arith))
                              (ground arith) in
                          subst (IsAdministered p) {x = put_user db user u'} {y = done.0}
                            (ground (arith, e))
                            (put_user-IsAdministered p db user u u' w f refl (inl o))
                      | inr l ↦
                          subst (IsAdministered p) {x = put_user db user u'} {y = done.0}
                            (ground (arith, e))
                            (put_user-IsAdministered p db user u u' w f refl (
                              inr (λ a. ground (
                                arith,
                                effective-at_least p.roles u.role p.admin_role,
                                effective-at_least p.roles role p.admin_role,
                              ))))
                    ]
            ]
      ]

  disable_tx-IsAdministered :
      (now : ℕ) (done : Db × User)
      → disable_tx p hooks db user now ≡ ok done
      → IsAdministered p done.0
  unfolding disable_tx user_by_id update_user delete_sessions_of
  disable_tx-IsAdministered now done h =
      elim (Option-cases (find_where (λ u. u.id == user) db.users)) [
        | inl n ↦ absurd (ground arith)
        | inr (u, f) ↦
            let u' = record u { disabled_at = some now; updated_at = now } in
            let e = (str_beq_iff u.id user).0 (find_where-some (λ u. u.id == user) db.users u f) in
            elim (Bool-cases (is_enabled u)) [
              | inr s ↦ subst (IsAdministered p) {x = db} {y = done.0} (ground arith) w
              | inl s ↦ elim (Bool-cases (at_least p.roles (role_of p u) p.admin_role)) [
                | inl l ↦
                    let o =
                      guard_last_admin-other p db user
                        (at_least_self p.roles (role_of p u) p.admin_role l) (ground arith) in
                    subst (IsAdministered p) {x = delete_sessions_of (put_user db user u') user}
                      {y = done.0} (ground (arith, e))
                      (put_user-IsAdministered p db user u u' w f refl (inl o))
                | inr l ↦
                    subst (IsAdministered p) {x = delete_sessions_of (put_user db user u') user}
                      {y = done.0} (ground (arith, e))
                      (put_user-IsAdministered p db user u u' w f refl
                        (inr (λ a. absurd (ground arith))))
              ]
            ]
      ]

  enable_tx-IsAdministered :
      (now : ℕ) (done : Db × User)
      → enable_tx p hooks db user now ≡ ok done
      → IsAdministered p done.0
  unfolding enable_tx user_by_id update_user
  enable_tx-IsAdministered now done h =
      elim (Option-cases (find_where (λ u. u.id == user) db.users)) [
        | inl n ↦ absurd (ground arith)
        | inr (u, f) ↦
            let u' = record u { disabled_at = none; updated_at = now } in
            let e = (str_beq_iff u.id user).0 (find_where-some (λ u. u.id == user) db.users u f) in
            elim (Bool-cases (is_enabled u)) [
              | inl s ↦ subst (IsAdministered p) {x = db} {y = done.0} (ground arith) w
              | inr s ↦
                  subst (IsAdministered p) {x = put_user db user u'} {y = done.0}
                    (ground (arith, e))
                    (put_user-IsAdministered p db user u u' w f refl
                      (inr (λ a. absurd (ground arith))))
            ]
      ]

-- A call of an administrator, with its time.
pub data Call : Type 0 where
  calls_set_role : Str → Str → ℕ → Call
  calls_disable : Str → ℕ → Call
  calls_enable : Str → ℕ → Call

abbrev committed : Db → Result Change → Db
committed db (ok c) = c.db
committed db (err e) = db

-- A refused call changes nothing.
unfoldable pub after : Plugin → Hooks → Db → Call → Db
after p hooks db (calls_set_role user role now) = committed db (set_role p hooks db user role now)
after p hooks db (calls_disable user now) = committed db (disable p hooks db user now)
after p hooks db (calls_enable user now) = committed db (enable p hooks db user now)

unfoldable pub run : Plugin → Hooks → Db → List Call → Db
unfolding after
run p hooks db [] = db
run p hooks db (c ∷ cs) = run p hooks (after p hooks db c) cs

after-IsAdministered :
    (p : Plugin) (hooks : Hooks) (db : Db) (c : Call)
    → IsAdministered p db
    → IsAdministered p (after p hooks db c)
unfolding after set_role disable enable publicly
after-IsAdministered p hooks db (calls_set_role user role now) w =
    elim (Option-cases (rank p.roles role)) [
      | inl n ↦
          subst (IsAdministered p) {x = db} {y = after p hooks db (calls_set_role user role now)}
            (ground (arith, n)) w
      | inr (i, r) ↦ elim (Result-cases (set_role_tx p hooks db user role now)) [
        | inr (x, e) ↦
            subst (IsAdministered p) {x = db} {y = after p hooks db (calls_set_role user role now)}
              (ground (arith, r, e)) w
        | inl (done, e) ↦
            subst (IsAdministered p) {x = done.0}
              {y = after p hooks db (calls_set_role user role now)} (ground (arith, r, e))
              (set_role_tx-IsAdministered p hooks db user w role now done e)
      ]
    ]
after-IsAdministered p hooks db (calls_disable user now) w =
    elim (Result-cases (disable_tx p hooks db user now)) [
      | inr (x, e) ↦
          subst (IsAdministered p) {x = db} {y = after p hooks db (calls_disable user now)}
            (ground (arith, e)) w
      | inl (done, e) ↦
          subst (IsAdministered p) {x = done.0} {y = after p hooks db (calls_disable user now)}
            (ground (arith, e)) (disable_tx-IsAdministered p hooks db user w now done e)
    ]
after-IsAdministered p hooks db (calls_enable user now) w =
    elim (Result-cases (enable_tx p hooks db user now)) [
      | inr (x, e) ↦
          subst (IsAdministered p) {x = db} {y = after p hooks db (calls_enable user now)}
            (ground (arith, e)) w
      | inl (done, e) ↦
          subst (IsAdministered p) {x = done.0} {y = after p hooks db (calls_enable user now)}
            (ground (arith, e)) (enable_tx-IsAdministered p hooks db user w now done e)
    ]

-- If each user has one row and an enabled user ranks at least as an administrator, that is so
-- after any history of changes of roles, disablings and enablings, successful or refused.
pub run-IsAdministered :
    (p : Plugin) (hooks : Hooks) (db : Db) (cs : List Call)
    → IsAdministered p db
    → IsAdministered p (run p hooks db cs)
unfolding run
run-IsAdministered p hooks db [] w = w
run-IsAdministered p hooks db (c ∷ cs) w =
    run-IsAdministered p hooks (after p hooks db c) cs (after-IsAdministered p hooks db c w)

-- A successful call that disables an enabled user leaves no session of the user: every token that still
-- resolves belongs to another user.
disable-revokes :
    (p : Plugin) (hooks : Hooks) (db : Db) (user : Str) (u : User) (now : ℕ) (c : Change)
    (hash : Str) (s : Session) (v : User)
    → user_by_id db user ≡ ok u
    → is_enabled u ≡ true
    → disable p hooks db user now ≡ ok c
    → session_with_user c.db hash ≡ ok (s, v)
    → str_beq v.id user ≡ false
unfolding disable publicly disable_tx delete_sessions_of session_with_user
disable-revokes p hooks db user u now c hash s v e n h k =
    elim (Option-cases (find_where (λ x. x.token_hash == hash) c.db.sessions)) [
      | inl g ↦ absurd (ground arith)
      | inr (x, g) ↦
          elim (Result-cases
            (update_user db (record u { disabled_at = some now; updated_at = now }))) [
              | inr (y, g') ↦ absurd (ground arith)
              | inl (db', g') ↦
                  elim (Option-cases (find_where (λ u. u.id == x.user_id) c.db.users)) [
                    | inl g'' ↦ absurd (ground arith)
                    | inr (y, g'') ↦
                        let same =
                          (str_beq_iff y.id x.user_id).0
                            (find_where-some (λ u. u.id == x.user_id) c.db.users y g'') in
                        ground (
                          arith,
                          same,
                          delete_where-found (λ s. s.token_hash == hash) (λ s. s.user_id == user)
                              db'.sessions x,
                        )
                  ]
            ]
    ]
