-- ===== src/Organizations/Access/Gate.antt =====
-- What `Require` lets through, and what `authorize` answers.
use auth_all.Prelude.{
  ◌≡◌, refl, subst, inl, inr, Bool, false, ◌&&◌, ◌||◌, List, [], ◌∷◌, none, some, Str, arith,
  str_beq, any, Option-cases, Bool-cases, if◌then◌else◌, All,
}
use auth_all.Errors.{ok, err, no_active_organization, permission_denied}
use auth_all.Strings.{fields}
use auth_all.Permission.{Statement, Set, new_set, add_parsed, union, covers}
use auth_all.Permission.Wellformed.{
  IsWellFormed, empty-IsWellFormed, new_set-IsWellFormed, union-IsWellFormed,
}
use auth_all.Permission.Coverage.{covers-union}
use auth_all.Organizations.Store.{active}
use auth_all.Organizations.Access.{
  Plugin, RoleDefinition, role_named, permissions_of, or_none, add_team_roles, add_extra,
  OrganizationContext, active_permissions, require, no_permission,
}

-- The set is one that `NewSet` returned.
abbrev pub IsBuilt : Set → Type 0
IsBuilt s = (texts : List Str) × (new_set texts ≡ some s)

-- Each declared role holds such a set, as `Role` makes it.
abbrev pub HasBuiltRoles : Plugin → Type 0
HasBuiltRoles p = All (λ d. IsBuilt d.granted) p.roles

pub IsBuilt-IsWellFormed : (s : Set) → IsBuilt s → IsWellFormed s
IsBuilt-IsWellFormed s (texts, e) = new_set-IsWellFormed texts s e

-- A declared role of this name covers the statement.
abbrev pub role_covers : Plugin → Statement → Str → Bool
role_covers p stmt role = covers (or_none (permissions_of p role)) stmt

abbrev pub extra_covers : List Str → Statement → Bool
extra_covers texts stmt = elim (new_set texts) [ none ↦ false | some s ↦ covers s stmt ]

role_named-IsWellFormed :
    (ds : List RoleDefinition) (role : Str)
    → All (λ d. IsBuilt d.granted) ds
    → IsWellFormed (or_none (role_named ds role))
unfolding role_named
role_named-IsWellFormed [] role w = empty-IsWellFormed
role_named-IsWellFormed (d ∷ ds) role w = elim (Bool-cases (str_beq d.name role)) [
  | inl e ↦ rw (e, role_named) (IsBuilt-IsWellFormed d.granted w.0)
  | inr e ↦ rw (e, role_named) (role_named-IsWellFormed ds role w.1)
]

pub permissions_of-IsWellFormed :
    (p : Plugin) (role : Str) → HasBuiltRoles p → IsWellFormed (or_none (permissions_of p role))
unfolding permissions_of
permissions_of-IsWellFormed p role w = role_named-IsWellFormed p.roles role w

covers-no_permission : (stmt : Statement) → covers no_permission stmt ≡ false
unfolding covers
covers-no_permission stmt = refl

pub add_team_roles-lem :
    (p : Plugin) (set : Set) (roles : List Str) (stmt : Statement)
    → HasBuiltRoles p
    → IsWellFormed set
    → IsWellFormed (add_team_roles p set roles)
      × (covers (add_team_roles p set roles) stmt
          ≡ (covers set stmt || any (role_covers p stmt) roles))
unfolding add_team_roles
add_team_roles-lem p set [] stmt w v = (v, ground arith)
add_team_roles-lem p set (role ∷ rest) stmt w v = elim (Option-cases (permissions_of p role)) [
  | inl e ↦
      let (i, c) = add_team_roles-lem p set rest stmt w v in
      rw (e, add_team_roles) (i, ground (arith, c, covers-no_permission stmt))
  | inr (team, e) ↦
      let wt : IsWellFormed team =
        subst (λ o. IsWellFormed (or_none o)) e (permissions_of-IsWellFormed p role w) in
      let (i, c) =
        add_team_roles-lem p (union set team) rest stmt w (union-IsWellFormed set team v wt) in
      rw (e, add_team_roles) (i, ground (arith, c, covers-union set team stmt v wt))
]

covers-add_extra :
    (set : Set) (texts : List Str) (stmt : Statement)
    → IsWellFormed set
    → covers (add_extra set texts) stmt ≡ (covers set stmt || extra_covers texts stmt)
unfolding add_extra
covers-add_extra set texts stmt v = elim (Option-cases (new_set texts)) [
  | inl e ↦ ground arith
  | inr (extra, e) ↦
      ground (arith, covers-union set extra stmt v (new_set-IsWellFormed texts extra e))
]

extra_covers-nil : (stmt : Statement) → extra_covers [] stmt ≡ false
unfolding new_set add_parsed covers
extra_covers-nil stmt = refl

-- What the membership of the request holds of a statement: nothing unless it is active, and else what
-- its role, one of its team roles, or its extra statements cover.
abbrev pub member_covers : Plugin → OrganizationContext → Statement → Bool
member_covers p value stmt =
    str_beq value.membership.status active
    && (role_covers p stmt value.membership.role
        || (any (role_covers p stmt) (fields value.membership.team_roles)
            || extra_covers value.permissions stmt))

-- `Require` answers NO_ACTIVE_ORGANIZATION with no organization. With one, if each declared role
-- is made of statements that the grammar accepts, it lets the request through exactly when the
-- membership is active and its role, a team role or an extra statement covers the permission, and
-- answers PERMISSION_DENIED otherwise.
pub require_lem :
    (p : Plugin) (stmt : Statement) (value : OrganizationContext)
    → HasBuiltRoles p
    → (require p stmt none ≡ err no_active_organization)
      × (require p stmt (some value)
          ≡ (if member_covers p value stmt then ok tt else err permission_denied))
unfolding require active_permissions
require_lem p stmt value w =
    let (i, c) =
      add_team_roles-lem p (or_none (permissions_of p value.membership.role))
        (fields value.membership.team_roles) stmt w (permissions_of-IsWellFormed p _ w) in
    (
      refl,
      ground (
        arith,
        c,
        covers-add_extra
            (add_team_roles p (or_none (permissions_of p value.membership.role))
              (fields value.membership.team_roles))
            value.permissions stmt i,
        extra_covers-nil stmt,
        covers-no_permission stmt,
      ),
    )

pub add_extra-IsWellFormed :
    (set : Set) (texts : List Str) → IsWellFormed set → IsWellFormed (add_extra set texts)
unfolding add_extra
add_extra-IsWellFormed set texts v = elim (Option-cases (new_set texts)) [
  | inl e ↦ rw (e, add_extra) v
  | inr (extra, e) ↦
      rw (e, add_extra) (union-IsWellFormed set extra v (new_set-IsWellFormed texts extra e))
]
