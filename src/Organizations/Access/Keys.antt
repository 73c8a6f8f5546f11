-- ===== src/Organizations/Access/Keys.antt =====
-- The permissions of an API key of an organization.
use auth_all.Prelude.{
  ◌≡◌, refl, sym, ◌∙◌, subst, ◌⊎◌, inl, inr, Bool, true, false, ◌&&◌, List, [], ◌∷◌, Option, none,
  some, Str, arith, str_beq, str_beq_iff, any, is_empty, Option-cases, Bool-cases, All, find_where,
}
use auth_all.Errors.{ok, err, Error, Result-cases}
use auth_all.Strings.{fields}
use auth_all.Strings.Sorting.{any-sort_strings}
use auth_all.Permission.{Statement, Set, new_set, covers, parse, holds, statements, covers_set}
use auth_all.Permission.Equality.{statement_beq_iff, covers_all-of-holds}
use auth_all.Permission.Wellformed.{IsWellFormed, empty-IsWellFormed, new_set-IsWellFormed}
use auth_all.Permission.Texts.{
  IsSourced, reads_as, holds-new_set, new_set-IsSourced, empty-IsSourced,
}
use auth_all.Permission.Coverage.{covers-covered, covers_set_iff}
use auth_all.Organizations.Store.{
  Organization, Membership, active, Db, custom_role_by_name, CustomRole, organization_by_id,
}
use auth_all.Organizations.Access.{
  Plugin, RoleDefinition, role_named, permissions_of, or_none, add_team_roles, add_extra,
  no_permission, plugin_membership_of, keep_covered, intersect, key_credential, known_role,
  permissions_of_membership, stored_set,
}
use auth_all.Permission.Reach.{star_star}
use auth_all.Organizations.Access.Gate.{
  IsBuilt, HasBuiltRoles, permissions_of-IsWellFormed, add_team_roles-lem, add_extra-IsWellFormed,
}

any-keep_covered :
    (live : Set) (q : Statement) (texts : List Str)
    → any (reads_as q) (keep_covered live texts) ≡ true
    → (covers live q ≡ true) × (any (reads_as q) texts ≡ true)
unfolding keep_covered reads_as
any-keep_covered live q [] h = ground arith
any-keep_covered live q (text ∷ rest) h = elim (Option-cases (parse text)) [
  | inl e ↦ ground (arith, any-keep_covered live q rest)
  | inr (t, e) ↦ ground (arith, any-keep_covered live q rest, statement_beq_iff t q)
]

covers-of-holds :
    (s : Set) (q : Statement) → IsWellFormed s → holds s.grants q ≡ true → covers s q ≡ true
covers-of-holds s q w h = rw (covers-covered s q w) (ground arith)

-- What the intersected statements cover, the key's set and the live set both cover.
pub covers-intersect :
    (key live r : Set) (t : Statement)
    → IsWellFormed key
    → IsSourced key
    → IsWellFormed live
    → new_set (intersect key live) ≡ some r
    → covers r t ≡ true
    → (covers key t ≡ true) × (covers live t ≡ true)
unfolding intersect statements covers_set
covers-intersect key live r t wk sk wl e c =
    let wr = new_set-IsWellFormed _ r e in
    (
      (covers_set_iff key r wk wr).0
          (covers_all-of-holds key r.grants λ q h. covers-of-holds key q wk (
            sym (sk.same q)
            ∙ (sym (any-sort_strings (reads_as q) key.sources)
                ∙ (any-keep_covered live q _ (sym (holds-new_set _ r q e) ∙ h)).1)))
          t c,
      (covers_set_iff live r wl wr).0
          (covers_all-of-holds live r.grants
            λ q h. (any-keep_covered live q _ (sym (holds-new_set _ r q e) ∙ h)).0)
          t c,
    )

-- The sets that a stored or a declared role gives.
stored_set-IsBuilt : (text : Str) → IsWellFormed (stored_set text) × IsSourced (stored_set text)
unfolding stored_set
stored_set-IsBuilt text = elim (Option-cases (new_set (fields text))) [
  | inl e ↦ rw (e, stored_set) (empty-IsWellFormed, empty-IsSourced)
  | inr (s, e) ↦ rw (e, stored_set) (new_set-IsWellFormed _ s e, new_set-IsSourced _ s e)
]

declared-IsSourced :
    (ds : List RoleDefinition) (role : Str)
    → All (λ d. IsBuilt d.granted) ds
    → IsSourced (or_none (role_named ds role))
unfolding role_named
declared-IsSourced [] role w = empty-IsSourced
declared-IsSourced (d ∷ ds) role w = elim (Bool-cases (str_beq d.name role)) [
  | inl e ↦ rw (e, role_named) (new_set-IsSourced w.0.0 d.granted w.0.1)
  | inr e ↦ rw (e, role_named) (declared-IsSourced ds role w.1)
]

permissions_of-IsSourced :
    (p : Plugin) (role : Str) → HasBuiltRoles p → IsSourced (or_none (permissions_of p role))
unfolding permissions_of
permissions_of-IsSourced p role w = declared-IsSourced p.roles role w

abbrev IsGood : Option Set → Type 0
IsGood k = IsWellFormed (or_none k) × IsSourced (or_none k)

-- What `knownRole` answers: nothing for no name, else the declared role, else the stored one.
pub known_role-cases :
    (p : Plugin) (db : Db) (org role : Str)
    → ((known_role p db org role ≡ ok none))
      ⊎ ((s : Set) × (permissions_of p role ≡ some s) × (known_role p db org role ≡ ok (some s)))
      ⊎ ((c : CustomRole) × (custom_role_by_name db org role ≡ ok c)
          × (known_role p db org role ≡ ok (some (stored_set c.permissions))))
unfolding known_role custom_role_by_name
known_role-cases p db org role = elim (Bool-cases (is_empty role)) [
  | inl e ↦ inl (ground arith)
  | inr e ↦ elim (Option-cases (permissions_of p role)) [
    | inr (s, e') ↦ inr (inl (s, e', ground arith))
    | inl e' ↦
        elim (Option-cases
          (find_where (λ r. str_beq r.org_id org && str_beq r.name role) db.roles)) [
            | inl m ↦ inl (ground arith)
            | inr (c, m) ↦ inr (inr (c, rw m, ground arith))
          ]
  ]
]

pub known_role-good :
    (p : Plugin) (db : Db) (org role : Str) (known : Option Set)
    → HasBuiltRoles p
    → known_role p db org role ≡ ok known
    → IsWellFormed (or_none known) × IsSourced (or_none known)
known_role-good p db org role known w h = elim (known_role-cases p db org role) [
  | inl e ↦ subst IsGood {x = none} {y = known} (cc) (empty-IsWellFormed, empty-IsSourced)
  | inr (inl (s, e', e)) ↦
      subst IsGood {x = permissions_of p role} {y = known} (cc)
        (permissions_of-IsWellFormed p role w, permissions_of-IsSourced p role w)
  | inr (inr (c, e', e)) ↦
      subst IsGood {x = some (stored_set c.permissions)} {y = known} (cc)
        (stored_set-IsBuilt c.permissions)
]

pub permissions_of_membership-IsWellFormed :
    (p : Plugin) (db : Db) (m : Membership) (s : Set)
    → HasBuiltRoles p
    → permissions_of_membership p db m ≡ ok s
    → IsWellFormed s
unfolding permissions_of_membership
permissions_of_membership-IsWellFormed p db m s w h =
    elim (Result-cases (known_role p db m.org_id m.role)) [
      | inl (known, e) ↦
          let good = (known_role-good p db m.org_id m.role known w e).0 in
          let (team, c) =
            add_team_roles-lem p (or_none known) (fields m.team_roles) star_star w good in
          let extra =
            add_extra-IsWellFormed (add_team_roles p (or_none known) (fields m.team_roles))
              (fields m.permissions) team in
          pick (str_beq m.status active) (is_empty m.permissions) refl refl known e team extra
      | inr (x, e) ↦ pick_err (str_beq m.status active) refl x e
    ]
  where
    pick :
        (a b : Bool)
        → str_beq m.status active ≡ a
        → is_empty m.permissions ≡ b
        → (known : Option Set) → known_role p db m.org_id m.role ≡ ok known
        → IsWellFormed (add_team_roles p (or_none known) (fields m.team_roles))
        → IsWellFormed (
            add_extra
              (add_team_roles p (or_none known) (fields m.team_roles))
              (fields m.permissions))
        → IsWellFormed s
    pick false b ea eb known e team extra =
        subst IsWellFormed {x = no_permission} {y = s} (ground arith) empty-IsWellFormed
    pick true true ea eb known e team extra =
        subst IsWellFormed {x = add_team_roles p (or_none known) (fields m.team_roles)} {y = s}
          (ground arith) team
    pick true false ea eb known e team extra =
        subst IsWellFormed
          {x = add_extra (add_team_roles p (or_none known) (fields m.team_roles))
            (fields m.permissions)}
          {y = s} (ground arith) extra

    pick_err :
        (a : Bool)
        → str_beq m.status active ≡ a
        → (x : Error) → known_role p db m.org_id m.role ≡ err x
        → IsWellFormed s
    pick_err false ea x e =
        subst IsWellFormed {x = no_permission} {y = s} (ground arith) empty-IsWellFormed
    pick_err true ea x e = absurd (ground arith)

-- If each declared role is made of statements that the grammar accepts, a key of an organization
-- is issued to an active member only, and the statements that it carries cover nothing that the
-- key's role or the member's live permissions do not cover.
pub key_credential_bounded :
    (p : Plugin) (db : Db) (org owner key_role : Str) (o : Organization) (m : Membership)
    (texts : List Str) (r : Set) (t : Statement)
    → HasBuiltRoles p
    → key_credential p db org owner key_role ≡ ok (o, m, texts)
    → new_set texts ≡ some r
    → covers r t ≡ true
    → (m.status ≡ active)
      × ((live : Set) × (permissions_of_membership p db m ≡ ok live) × (covers live t ≡ true))
      × ((known : Option Set) × (known_role p db org key_role ≡ ok known)
          × (covers (or_none known) t ≡ true))
unfolding key_credential
key_credential_bounded p db org owner key_role o m texts r t w h e c =
    elim (Result-cases (organization_by_id db org)) [
      | inr (x, eo) ↦ absurd (ground arith)
      | inl (o', eo) ↦ elim (Result-cases (plugin_membership_of db org owner)) [
        | inr (x, em) ↦ absurd (ground arith)
        | inl (m', em) ↦ elim (Result-cases (permissions_of_membership p db m')) [
          | inr (x, el) ↦ absurd (ground arith)
          | inl (live, el) ↦ elim (Result-cases (known_role p db org key_role)) [
            | inr (x, ek) ↦ absurd (ground arith)
            | inl (known, ek) ↦
                let is_active : str_beq m'.status active ≡ true = ground arith in
                let same : m' ≡ m = ground arith in
                let listed : new_set (intersect (or_none known) live) ≡ some r = ground arith in
                let good = known_role-good p db org key_role known w ek in
                let wl = permissions_of_membership-IsWellFormed p db m' live w el in
                let both = covers-intersect (or_none known) live r t good.0 good.1 wl listed c in
                (
                  rw (← same) ((str_beq_iff m'.status active).0 is_active),
                  (live, rw (← same) el, both.1),
                  (known, ek, both.0),
                )
          ]
        ]
      ]
    ]
