-- ===== src/Organizations/Grants.antt =====
-- HC-04: who gives a role holds what the role gives.
use auth_all.Prelude.{
  ℕ, ◌≡◌, refl, inl, inr, true, false, List, [], ◌∷◌, Option, some, Str, arith, str_beq_refl,
  str_eq, is_empty, find_where, codes,
}
use auth_all.Errors.{ok, Result-cases}
use auth_all.Strings.{join}
use auth_all.Permission.{Set, Statement, covers, new_set, holds, statements}
use auth_all.Permission.Coverage.{covers_set_iff, covers-covered, any_action, any_resource}
use auth_all.Permission.Wellformed.{IsWellFormed, new_set-IsWellFormed, whole_statement}
use auth_all.Permission.Texts.{reread, new_set-IsSourced}
use auth_all.Organizations.Store.{
  Membership, User, Db, Invitation, CustomRole, Team, create_custom_role, custom_role_by_name,
}
use auth_all.Organizations.Events.{Hooks, Change}
use auth_all.Organizations.Access.{
  Plugin, known_role, authorize, permissions_of_membership, plugin_membership_of, stored_set,
}
use auth_all.Organizations.Access.Gate.{HasBuiltRoles}
use auth_all.Organizations.Access.Keys.{known_role-good, permissions_of_membership-IsWellFormed}
use auth_all.Organizations.Members.{check_grant, set_role, member_write}
use auth_all.Organizations.Custom.{create_role, role_write, role_name_matches}
use auth_all.Organizations.Invitations.{invite, member_add}
use auth_all.Organizations.Teams.{create_new_team, check_team_role, team_write}

authorize-IsWellFormed :
    (p : Plugin) (db : Db) (org user statement : Str) (m : Membership) (held : Set)
    → HasBuiltRoles p
    → authorize p db org user statement ≡ ok (m, held)
    → IsWellFormed held
unfolding authorize
authorize-IsWellFormed p db org user statement m held w h =
    elim (Result-cases (plugin_membership_of db org user)) [
      | inr (x, e) ↦ absurd (ground arith)
      | inl (m', e) ↦ elim (Result-cases (permissions_of_membership p db m')) [
        | inr (x, e') ↦ absurd (ground arith)
        | inl (s, e') ↦ permissions_of_membership-IsWellFormed p db m' held w (ground arith)
      ]
    ]

-- The actor's live set in the organization covers the statement, and its membership holds the
-- permission that the operation asks for.
abbrev pub ActorCovers : Plugin → Db → User → Str → Str → Statement → Type 0
ActorCovers p db actor org asked t =
    (m : Membership) × (held : Set) × (authorize p db org actor.id asked ≡ ok (m, held))
    × (covers held t ≡ true)

check_grant-ActorCovers :
    (p : Plugin) (db : Db) (actor : User) (org asked : Str) (granted : Set) (t : Statement)
    → HasBuiltRoles p
    → IsWellFormed granted
    → check_grant p db (some actor) org asked granted ≡ ok tt
    → covers granted t ≡ true
    → ActorCovers p db actor org asked t
unfolding check_grant
check_grant-ActorCovers p db actor org asked granted t w wg h c =
    elim (Result-cases (authorize p db org actor.id asked)) [
      | inr (x, e) ↦ absurd (ground arith)
      | inl ((m, held), e) ↦ (
        m,
        held,
        e,
        (covers_set_iff held granted (authorize-IsWellFormed p db org actor.id asked m held w e)
              wg).0
            (ground arith) t c,
      )
    ]

module _ (p : Plugin) (db : Db) (actor : User) (org : Str) (w : HasBuiltRoles p) where
  -- If each declared role is made of statements that the grammar accepts, a role that an acting
  -- member sets covers no statement that the member's own live permissions do not cover.
  pub set_role-ActorCovers :
      (hooks : Hooks) (user role : Str) (c : Change Membership) (granted : Set) (t : Statement)
      → set_role p hooks db (some actor) org user role ≡ ok c
      → known_role p db org role ≡ ok (some granted)
      → covers granted t ≡ true
      → ActorCovers p db actor org member_write t
  unfolding set_role
  set_role-ActorCovers hooks user role c granted t h k =
      check_grant-ActorCovers p db actor org member_write granted t w
        (known_role-good p db org role (some granted) w k).0 (ground arith)

  -- If each declared role is made of statements that the grammar accepts, the role of an
  -- invitation that an acting member sends covers no statement that the member's own live
  -- permissions do not cover.
  pub invite-ActorCovers :
      (lower : Str → Str) (parse_address : Str → Option Str) (digest : Str → Str)
      (email role token id : Str) (now : ℕ) (c : Change Invitation) (granted : Set) (t : Statement)
      → invite lower parse_address digest p db (some actor) org email role token id now ≡ ok c
      → known_role p db org c.value.role ≡ ok (some granted)
      → covers granted t ≡ true
      → ActorCovers p db actor org member_add t
  unfolding invite
  invite-ActorCovers lower parse_address digest email role token id now c granted t h k =
      check_grant-ActorCovers p db actor org member_add granted t w
        (known_role-good p db org c.value.role (some granted) w k).0 (ground arith)

  -- If each declared role is made of statements that the grammar accepts, the role of a team that
  -- an acting member creates covers no statement that the member's own live permissions do not
  -- cover.
  pub create_new_team-ActorCovers :
      (name role id : Str) (now : ℕ) (c : Change Team) (granted : Set) (t : Statement)
      → create_new_team p db (some actor) org name role id now ≡ ok c
      → is_empty role ≡ false
      → known_role p db org role ≡ ok (some granted)
      → covers granted t ≡ true
      → ActorCovers p db actor org team_write t
  unfolding create_new_team check_team_role
  create_new_team-ActorCovers name role id now c granted t h n k =
      check_grant-ActorCovers p db actor org team_write granted t w
        (known_role-good p db org role (some granted) w k).0 (ground arith)

  -- If each declared role is made of statements that the grammar accepts, a custom role that an
  -- acting member declares covers no statement that the member's own live permissions do not
  -- cover.
  pub create_role-ActorCovers :
      (name : Str) (texts : List Str) (id : Str) (now : ℕ) (c : Change CustomRole) (granted : Set)
      (t : Statement)
      → create_role p db (some actor) org name texts id now ≡ ok c
      → new_set texts ≡ some granted
      → covers granted t ≡ true
      → ActorCovers p db actor org role_write t
  unfolding create_role
  create_role-ActorCovers name texts id now c granted t h k =
      check_grant-ActorCovers p db actor org role_write granted t w
        (new_set-IsWellFormed texts granted k) (ground arith)

role_name-not_empty : (name : Str) → role_name_matches name ≡ true → is_empty name ≡ false
unfolding role_name_matches
role_name-not_empty [] h = ground arith
role_name-not_empty (c ∷ s) h = refl

same_covers :
    (a b : Set)
    → IsWellFormed a
    → IsWellFormed b
    → ((q : Statement) → holds a.grants q ≡ holds b.grants q)
    → (t : Statement) → covers a t ≡ covers b t
same_covers a b wa wb h t =
    rw (covers-covered a t wa, covers-covered b t wb)
      (ground (arith, h t, h whole_statement, h (any_action t.resource), h (any_resource t.action)))

-- A custom role that was just created is known, and its stored text gives back a set that covers
-- exactly what the set of the given statements covers.
pub known_role-create_role :
    (p : Plugin) (db : Db) (actor : Option User) (org name : Str) (texts : List Str) (id : Str)
    (now : ℕ) (c : Change CustomRole) (granted : Set)
    → create_role p db actor org name texts id now ≡ ok c
    → new_set texts ≡ some granted
    → (s : Set) × (known_role p c.db org c.value.name ≡ ok (some s))
      × ((t : Statement) → covers s t ≡ covers granted t)
unfolding create_role known_role create_custom_role custom_role_by_name
known_role-create_role p db actor org name texts id now c granted h e =
    let (s, es, same) = reread granted (new_set-IsSourced texts granted e) in
    let stored : stored_set (join (statements granted) (codes " ")) ≡ s =
      unfold stored_set in (rw es) in
    (
      s,
      unfold find_where in
          ground (
            arith,
            stored,
            role_name-not_empty c.value.name,
            str_beq_refl org,
            str_beq_refl c.value.name,
          ),
      same_covers s granted (new_set-IsWellFormed _ s es) (new_set-IsWellFormed texts granted e)
          same,
    )
