-- ===== src/Roles/Order.antt =====
-- The order of the roles.
use auth_all.Prelude.{
  ℕ, ◌<◌, ◌≡◌, refl, inl, inr, true, false, ◌&&◌, ◌||◌, List, [], ◌∷◌, Option, none, some, Str,
  arith, str_beq_iff, str_eq, contains, length, Option-cases,
}
use auth_all.Errors.{ok}
use auth_all.Roles.{Roles, index_of, effective, rank, at_least, set_roles}

pub index_of-bound :
    (names : List Str) (role : Str) (i : ℕ) → index_of names role ≡ some i → i < length names
unfolding index_of
index_of-bound [] role i h = ground arith
index_of-bound (n ∷ names) role i h = elim (Option-cases (index_of names role)) [
  | inl e ↦ ground (arith, e)
  | inr (j, e) ↦ ground (arith, e, index_of-bound names role j)
]

index_of-same :
    (names : List Str) (a b : Str) (i : ℕ)
    → index_of names a ≡ some i
    → index_of names b ≡ some i
    → a ≡ b
unfolding index_of
index_of-same [] a b i h k = ground arith
index_of-same (n ∷ names) a b i h k = elim (Option-cases (index_of names a)) [
  | inl e ↦ ground (arith, e, str_beq_iff n a, str_beq_iff n b)
  | inr (j, e) ↦ ground (arith, e, str_beq_iff n a, str_beq_iff n b, index_of-same names a b j e)
]

pub effective-at_least : (r : Roles) (a b : Str) → at_least r (effective r a) b ≡ at_least r a b
unfolding at_least rank effective
effective-at_least r a b = ground arith

index_of-unknown :
    (names : List Str) (role : Str) → contains names role ≡ false → index_of names role ≡ none
unfolding index_of contains
index_of-unknown [] role h = refl
index_of-unknown (n ∷ names) role h = ground (arith, index_of-unknown names role)

index_of-known :
    (names : List Str) (role : Str) → index_of names role ≡ none → contains names role ≡ false
unfolding index_of contains
index_of-known [] role h = refl
index_of-known (n ∷ names) role h = ground (arith, index_of-known names role)

-- The known roles are ordered: a role ranks at least as itself exactly if the hierarchy knows it, the
-- relation is transitive, and two roles that rank at least as each other are one role.
at_least-order :
    (r : Roles) (a b c : Str)
    → ((at_least r a b && at_least r b c) ≡ true → at_least r a c ≡ true)
      × ((at_least r a b && at_least r b a) ≡ true → effective r a ≡ effective r b)
      × ((at_least r a a && at_least r b b) ≡ true → (at_least r a b || at_least r b a) ≡ true)
unfolding at_least rank
at_least-order r a b c = elim (Option-cases (rank r a)) [
  | inl e ↦ ground (arith, e)
  | inr (i, e) ↦ elim (Option-cases (rank r b)) [
    | inl e' ↦ ground (arith, e, e')
    | inr (j, e') ↦
        ground (arith, e, e', index_of-same r.hierarchy (effective r a) (effective r b) i)
  ]
]

-- Default deny: a role that the hierarchy does not name ranks at least as no role, and no role ranks at
-- least as it.
pub at_least-unknown :
    (r : Roles) (a b : Str)
    → contains r.hierarchy (effective r a) ≡ false
    → (at_least r a b ≡ false) × (at_least r b a ≡ false)
unfolding at_least rank
at_least-unknown r a b h = ground (arith, index_of-unknown r.hierarchy (effective r a) h)

-- A hierarchy that was installed has the default role in it, so that a user with no role of its own
-- ranks, and no second hierarchy is ever installed.
pub set_roles-default :
    (installed : Option Roles) (names : List Str) (default_role : Str) (r : Roles)
    → set_roles installed names default_role ≡ ok r
    → (installed ≡ none)
      × (r.hierarchy ≡ names)
      × (contains names default_role ≡ true)
      × (at_least r [] default_role ≡ true)
unfolding set_roles at_least rank effective
set_roles-default installed names default_role r h =
    elim (Option-cases (index_of names default_role)) [
      | inl e ↦ ground (arith, e, index_of-known names default_role)
      | inr (i, e) ↦ ground (arith, e)
    ]
