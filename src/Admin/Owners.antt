-- ===== src/Admin/Owners.antt =====
-- An enabled administrator is always left.
use auth_all.Prelude.{
  ◌≡◌, refl, ◌⊎◌, inl, inr, Bool, true, false, ◌&&◌, not, List, [], ◌∷◌, some, Str, arith, str_beq,
  str_beq_iff, ◌==◌, str_eq, nat_eq, nat_beq, any, find_where, update_where, Bool-cases,
  Option-cases, find_where-some, any-update_where,
}
use auth_all.Errors.{ok}
use auth_all.Roles.{Roles, rank, at_least, effective}
use auth_all.Accounts.{
  User, Db, is_enabled, enabled_with_role, ids_where, lock_enabled_users_with_role,
}
use auth_all.Admin.{Plugin, role_of, count_others, role_names, remaining_admins, guard_last_admin}

-- The primary key of the users.
unfoldable pub unique_users : List User → Bool
unique_users [] = true
unique_users (u ∷ us) = not (any (λ r. r.id == u.id) us) && unique_users us

-- A user who is enabled and ranks at least as an administrator.
abbrev pub administers : Plugin → User → Bool
administers p u = is_enabled u && at_least p.roles (role_of p u) p.admin_role

abbrev pub other : Plugin → Str → User → Bool
other p user u = administers p u && not (u.id == user)

count_others-any :
    (user role : Str) (us : List User)
    → nat_beq (count_others user (ids_where (enabled_with_role role) us)) 0
      ≡ not (any (λ u. enabled_with_role role u && not (u.id == user)) us)
unfolding count_others ids_where
count_others-any user role [] = refl
count_others-any user role (u ∷ us) = ground (arith, count_others-any user role us)

pub at_least_self : (r : Roles) (a b : Str) → at_least r a b ≡ true → at_least r b b ≡ true
unfolding at_least
at_least_self r a b h = elim (Option-cases (rank r b)) [
  | inl e ↦ ground (arith, e)
  | inr (i, e) ↦ ground (arith, e)
]

any-imp :
    (p q : User → Bool) (us : List User)
    → ((u : User) → p u ≡ true → q u ≡ true)
    → any p us ≡ true
    → any q us ≡ true
any-imp p q [] f h = h
any-imp p q (u ∷ us) f h = ground (arith, f u, any-imp p q us f)

named-administers :
    (p : Plugin) (u : User)
    → at_least p.roles p.admin_role p.admin_role ≡ true
    → enabled_with_role p.admin_role u ≡ true
    → administers p u ≡ true
unfolding at_least rank effective
named-administers p u a h = ground (arith, str_beq_iff u.role p.admin_role)

default-administers :
    (p : Plugin) (u : User)
    → at_least p.roles p.admin_role p.admin_role ≡ true
    → (p.roles.default_role == p.admin_role) ≡ true
    → enabled_with_role [] u ≡ true
    → administers p u ≡ true
default-administers p u a d h =
    let e = (str_beq_iff p.roles.default_role p.admin_role).0 d in
    let e' = (str_beq_iff u.role []).0 (ground arith) in ground (arith, e, e')

other_named :
    (p : Plugin) (user name : Str) (us : List User)
    → ((u : User) → enabled_with_role name u ≡ true → administers p u ≡ true)
    → nat_beq (count_others user (ids_where (enabled_with_role name) us)) 0 ≡ false
    → any (other p user) us ≡ true
other_named p user name us f h =
    any-imp (λ u. enabled_with_role name u && not (u.id == user)) (other p user) us
      (λ u k. ground (arith, f u)) (ground (arith, count_others-any user name us))

-- The guard passes only if another enabled administrator is there.
pub guard_last_admin-other :
    (p : Plugin) (db : Db) (user : Str)
    → at_least p.roles p.admin_role p.admin_role ≡ true
    → guard_last_admin p db user ≡ ok tt
    → any (other p user) db.users ≡ true
unfolding guard_last_admin remaining_admins role_names lock_enabled_users_with_role
guard_last_admin-other p db user a h =
    elim (Bool-cases
      (nat_beq (count_others user (ids_where (enabled_with_role p.admin_role) db.users)) 0)) [
        | inr n ↦ other_named p user p.admin_role db.users (λ u. named-administers p u a) n
        | inl z ↦ elim (Bool-cases (p.roles.default_role == p.admin_role)) [
          | inr d ↦ absurd (ground arith)
          | inl d ↦ other_named p user [] db.users (λ u. default-administers p u a d) (ground arith)
        ]
      ]

-- An update of one row: another administrator stays, or the row itself administers.
update-other :
    (p : Plugin) (user : Str) (f : User → User) (us : List User)
    → any (other p user) us ≡ true
    → any (administers p) (update_where (λ r. r.id == user) f us) ≡ true
update-other p user f us h =
    any-imp (other p user) (administers p) (update_where (λ r. r.id == user) f us)
      (λ u k. ground arith)
      (any-update_where (λ r. r.id == user) (other p user) f us (λ u k. ground arith) h)

no_row-update :
    (user : Str) (f : User → User) (us : List User)
    → any (λ r. r.id == user) us ≡ false
    → update_where (λ r. r.id == user) f us ≡ us
unfolding update_where
no_row-update user f [] h = refl
no_row-update user f (u ∷ us) h = ground (arith, no_row-update user f us)

update_self :
    (p : Plugin) (user : Str) (u u' : User) (us : List User)
    → unique_users us ≡ true
    → find_where (λ r. r.id == user) us ≡ some u
    → (administers p u ≡ true → administers p u' ≡ true)
    → any (administers p) us ≡ true
    → any (administers p) (update_where (λ r. r.id == user) (λ r. u') us) ≡ true
unfolding update_where unique_users find_where
update_self p user u u' [] w f i h = h
update_self p user u u' (x ∷ us) w f i h = elim (Bool-cases (str_beq x.id user)) [
  | inl e ↦
      let e' = (str_beq_iff x.id user).0 e in
      let alone : any (λ r. r.id == user) us ≡ false = ground (arith, e') in
      ground (arith, e, no_row-update user (λ r. u') us alone, i)
  | inr e ↦ ground (arith, e, update_self p user u u' us, i)
]

any-same_id :
    (id user : Str) (u' : User) (us : List User)
    → (u'.id == user) ≡ true
    → any (λ r. r.id == id) (update_where (λ r. r.id == user) (λ r. u') us)
      ≡ any (λ r. r.id == id) us
unfolding update_where
any-same_id id user u' [] h = refl
any-same_id id user u' (x ∷ us) h =
    ground (arith, any-same_id id user u' us, str_beq_iff x.id user, str_beq_iff u'.id user)

update_unique :
    (user : Str) (u' : User) (us : List User)
    → (u'.id == user) ≡ true
    → unique_users us ≡ true
    → unique_users (update_where (λ r. r.id == user) (λ r. u') us) ≡ true
unfolding unique_users update_where
update_unique user u' [] e h = refl
update_unique user u' (x ∷ us) e h = ground (
  arith,
  update_unique user u' us,
  any-same_id x.id user u' us,
  any-same_id u'.id user u' us,
  str_beq_iff x.id user,
  str_beq_iff u'.id user,
)

-- Each user has one row, and an enabled user ranks at least as an administrator.
abbrev pub IsAdministered : Plugin → Db → Type 0
IsAdministered p db = (unique_users db.users ≡ true) × (any (administers p) db.users ≡ true)

abbrev pub put_user : Db → Str → User → Db
put_user db user u = record db { users = update_where (λ r. r.id == user) (λ r. u) db.users }

pub put_user-IsAdministered :
    (p : Plugin) (db : Db) (user : Str) (u u' : User)
    → IsAdministered p db
    → find_where (λ r. r.id == user) db.users ≡ some u
    → u'.id ≡ u.id
    → (any (other p user) db.users ≡ true) ⊎ (administers p u ≡ true → administers p u' ≡ true)
    → IsAdministered p (put_user db user u')
put_user-IsAdministered p db user u u' (w, h) f e c = (
  update_unique user u' db.users
      (ground (arith, e, find_where-some (λ r. r.id == user) db.users u f)) w,
  elim c [
    | inl o ↦ update-other p user (λ r. u') db.users o
    | inr i ↦ update_self p user u u' db.users w f i h
  ],
)
