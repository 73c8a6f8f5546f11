-- ===== src/Organizations/Access.antt =====
-- plugins/organizations/organizations.go, permissions.go and members.go: the roles of the
-- configuration, the permission set of a membership, and the checks that use it.
pub mod Gate
pub mod Keys
use auth_all.Prelude.{
  ℕ, Bool, true, false, ◌&&◌, ◌||◌, not, List, [], ◌∷◌, ◌++◌, Option, none, some, Str, codes,
  str_beq, leb, ltb, if◌then◌else◌, ◌==◌, nat_eq, str_eq, any, map, is_empty,
}
use auth_all.Errors.{
  Error, Result, ok, err, ◌>>=◌, ◌>>◌, guard, or_fail, row_not_found, not_a_member, not_found,
  permission_denied, no_active_organization,
}
use auth_all.Strings.{fields}
use auth_all.Permission.{Statement, Set, parse, new_set, union, covers, allows, statements}
use auth_all.Permission as Permission
use auth_all.Organizations.Store.{
  Organization, Membership, active, Db, membership_of, custom_role_by_name, CustomRole,
  organization_by_id,
}

pub record RoleDefinition : Type 0 where
  pub name : Str
  pub granted : Set

pub record Plugin : Type 0 where
  pub roles : List RoleDefinition
  pub default_role : Str
  pub owner_role : Str
  pub allow_custom_roles : Bool
  pub max_members : ℕ
  pub invitation_lifetime : ℕ

abbrev pub no_permission : Set
no_permission = Permission.empty

unfoldable pub role_named : List RoleDefinition → Str → Option Set
role_named [] role = none
role_named (d ∷ ds) role =
    let rest = role_named ds role in if d.name == role then some d.granted else rest

-- `PermissionsOf`; `none` for the second result `false`.
unfoldable pub permissions_of : Plugin → Str → Option Set
permissions_of p role = role_named p.roles role

abbrev pub or_none : Option Set → Set
or_none none = no_permission
or_none (some s) = s

-- The statements of a stored role; a statement that the grammar refuses leaves nothing.
unfoldable pub stored_set : Str → Set
stored_set text = or_none (new_set (fields text))

-- `knownRole`; `none` for the second result `false`.
unfoldable pub known_role : Plugin → Db → Str → Str → Result (Option Set)
known_role p db org role = if is_empty role then ok none else elim (permissions_of p role) [
  | some set ↦ ok (some set)
  | none ↦ elim (custom_role_by_name db org role) [
    | ok custom ↦ ok (some (stored_set custom.permissions))
    | err row_not_found ↦ ok none
    | err e ↦ err e
  ]
]

-- The loop over the team roles.
unfoldable pub add_team_roles : Plugin → Set → List Str → Set
add_team_roles p set [] = set
add_team_roles p set (role ∷ rest) = elim (permissions_of p role) [
  | none ↦ add_team_roles p set rest
  | some team ↦ add_team_roles p (union set team) rest
]

-- An invalid list of extra statements is dropped.
unfoldable pub add_extra : Set → List Str → Set
add_extra set texts = elim (new_set texts) [ none ↦ set | some extra ↦ union set extra ]

unfoldable pub permissions_of_membership : Plugin → Db → Membership → Result Set
permissions_of_membership p db m = if not (m.status == active) then ok no_permission else (do
  known ← known_role p db m.org_id m.role
  let set = add_team_roles p (or_none known) (fields m.team_roles)
  ok (if is_empty m.permissions then set else add_extra set (fields m.permissions)))

abbrev pub not_a_member_error : Error → Error
not_a_member_error row_not_found = not_a_member
not_a_member_error e = e

abbrev pub not_found_error : Error → Error
not_found_error row_not_found = not_found
not_found_error e = e

abbrev pub map_error {ℓ} : {A : Type ℓ} → (Error → Error) → Result A → Result A
map_error f (ok a) = ok a
map_error f (err e) = err (f e)

unfoldable pub plugin_membership_of : Db → Str → Str → Result Membership
plugin_membership_of db org user = map_error not_a_member_error (membership_of db org user)

unfoldable pub authorize : Plugin → Db → Str → Str → Str → Result (Membership × Set)
authorize p db org user statement = do
  m ← plugin_membership_of db org user
  set ← permissions_of_membership p db m
  guard (allows set statement) permission_denied
  ok (m, set)

-- plugin.OrganizationContext
pub record OrganizationContext : Type 0 where
  pub organization : Organization
  pub membership : Membership
  pub permissions : List Str

-- `activePermissions`; `none` for the second result `false`.
unfoldable pub active_permissions : Plugin → Option OrganizationContext → Option Set
active_permissions p none = none
active_permissions p (some value) =
    if not (value.membership.status == active)
    then some no_permission
    else (let set =
          add_team_roles p (or_none (permissions_of p value.membership.role))
            (fields value.membership.team_roles) in
        some (if is_empty value.permissions then set else add_extra set value.permissions))

-- The handler of `Require` before it calls the protected one.
unfoldable pub require : Plugin → Statement → Option OrganizationContext → Result (Unit {0})
require p stmt value = elim (active_permissions p value) [
  | none ↦ err no_active_organization
  | some set ↦ guard (covers set stmt) permission_denied
]

unfoldable pub can : Plugin → Option OrganizationContext → Str → Bool
can p value statement = elim (active_permissions p value) [
  | none ↦ false
  | some set ↦ allows set statement
]

-- The loop of `intersect`.
unfoldable pub keep_covered : Set → List Str → List Str
keep_covered live [] = []
keep_covered live (text ∷ rest) =
    let kept = keep_covered live rest in
    elim (parse text) [ none ↦ kept | some t ↦ if covers live t then text ∷ kept else kept ]

unfoldable pub intersect : Set → Set → List Str
intersect key live = keep_covered live (statements key)

-- `KeyCredential`.
unfoldable pub key_credential :
    Plugin → Db → Str → Str → Str → Result (Organization × Membership × List Str)
key_credential p db org owner key_role = do
  o ← map_error not_found_error (organization_by_id db org)
  m ← plugin_membership_of db org owner
  guard (m.status == active) not_a_member
  live ← permissions_of_membership p db m
  known ← known_role p db org key_role
  ok (o, m, intersect (or_none known) live)
