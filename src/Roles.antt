-- ===== src/Roles.antt =====
-- roles_core.go: the ordered hierarchy of the global roles. `rank` is `none` where the source returns -1.
pub mod Order
use auth_all.Prelude.{
  ℕ, ◌+◌, Bool, true, false, ◌&&◌, ◌||◌, not, List, [], ◌∷◌, Option, none, some, Str, str_beq, leb,
  if◌then◌else◌, ◌==◌, str_eq, is_empty, contains,
}
use auth_all.Errors.{Result, ok, err, private_error, guard, ◌>>◌, ◌>>=◌}

pub record Roles : Type 0 where
  pub hierarchy : List Str
  pub default_role : Str

unfoldable pub index_of : List Str → Str → Option ℕ
index_of [] role = none
index_of (name ∷ names) role =
    let rest = index_of names role in
    if name == role then some 0 else elim rest [ none ↦ none | some i ↦ some (i + 1) ]

-- The effective role of an empty role column.
unfoldable pub effective : Roles → Str → Str
effective r role = if is_empty role then r.default_role else role

-- `Rank`.
unfoldable pub rank : Roles → Str → Option ℕ
unfolding effective index_of
rank r role = index_of r.hierarchy (effective r role)

-- `AtLeast`.
unfoldable pub at_least : Roles → Str → Str → Bool
unfolding rank
at_least r role min = elim (rank r min) [
  | none ↦ false
  | some m ↦ elim (rank r role) [ none ↦ false | some i ↦ leb m i ]
]

-- The loop of `SetRoles` over the names.
unfoldable pub distinct_names : List Str → List Str → Bool
distinct_names seen [] = true
distinct_names seen (name ∷ names) =
    let rest = distinct_names (name ∷ seen) names in
    not (is_empty name) && (not (contains seen name) && rest)

-- `SetRoles`; the message of an error is left out.
unfoldable pub set_roles : Option Roles → List Str → Str → Result Roles
unfolding distinct_names
set_roles installed names default_role = do
  guard (not (is_empty names)) (private_error 0)
  guard (distinct_names [] names) (private_error 0)
  guard (contains names default_role) (private_error 0)
  elim installed [
    | some r ↦ err (private_error 0)
    | none ↦ ok (record { hierarchy = names; default_role = default_role })
  ]
