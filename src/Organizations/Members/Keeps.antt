-- ===== src/Organizations/Members/Keeps.antt =====
-- `SetRole`, `SetStatus` and `Remove` keep an active owner in every organization that has one.
use auth_all.Prelude.{
  ◌≡◌, refl, subst, inl, inr, true, [], Option, some, Str, arith, str_beq, str_beq_iff, Bool-cases,
  Option-cases, find_where, update_where, delete_where, find_where-some, find_where-any, str_eq,
  nat_eq,
}
use auth_all.Errors.{ok, Result-cases}
use auth_all.Organizations.Store.{
  Membership, User, suspended, of_user, plain, Db, membership_of, update_membership,
  delete_membership, clear_active_organization, organization_by_id,
}
use auth_all.Organizations.Events.{Hooks, Change}
use auth_all.Organizations.Access.{Plugin}
use auth_all.Organizations.Members.{
  guard_owner, set_role_tx, set_role, set_status_tx, set_status, remove_tx, remove,
}
use auth_all.Organizations.Members.Rows.{unique_members, set_row, update_unique, delete_unique}
use auth_all.Organizations.Members.Owner.{
  KeepsOwners, KeepsOwners-refl, guard_owner-Guarded, update-keeps, delete-keeps,
}

module _ (p : Plugin) (hooks : Hooks) (db : Db) (actor : Option User) (org user : Str)
    (u : unique_members db.members ≡ true) where
  abbrev row_update : Str → Str → Db
  row_update role status = record db {
    members = update_where (of_user org user) (set_row role status) db.members;
  }

  row_update-KeepsOwners :
      (m : Membership) (role status : Str)
      → find_where (of_user org user) db.members ≡ some m
      → guard_owner p db org (plain m) role status ≡ ok tt
      → KeepsOwners p db (row_update role status)
  row_update-KeepsOwners m role status f g = record {
    organizations = refl;
    unique = update_unique org user role status db.members u;
    owners =
        update-keeps p db org user m u f role status
          (guard_owner-Guarded p db org (plain m) role status g);
  }

  -- The row that an update finds is the row that it was read from.
  same_row :
      (m m' : Membership)
      → find_where (of_user org user) db.members ≡ some m
      → of_user org user m ≡ true
  same_row m m' f = find_where-some (of_user org user) db.members m f

  set_role_tx-KeepsOwners :
      (role : Str) (c : Change Membership)
      → set_role_tx p hooks db actor org user role ≡ ok c
      → KeepsOwners p db c.db
  unfolding set_role_tx membership_of update_membership
  set_role_tx-KeepsOwners role c h = elim (Result-cases (organization_by_id db org)) [
    | inr (x, eo) ↦ absurd (ground arith)
    | inl (o, eo) ↦ elim (Option-cases (find_where (of_user org user) db.members)) [
      | inl f ↦ absurd (ground arith)
      | inr (m, f) ↦ elim (Bool-cases (str_beq m.role role)) [
        | inl e ↦
            subst (KeepsOwners p db) {x = db} {y = c.db} (ground arith) (KeepsOwners-refl p db u)
        | inr e ↦ elim (Result-cases (guard_owner p db org (plain m) role m.status)) [
          | inr (x, g) ↦ absurd (ground arith)
          | inl (t, g) ↦
              elim (Option-cases
                (hooks.before_membership_change (record (plain m) { role = role }))) [
                  | inr (x, k) ↦ absurd (ground arith)
                  | inl k ↦
                      let e1 = (str_beq_iff m.org_id org).0 (ground (arith, same_row m m f)) in
                      let e2 = (str_beq_iff m.user_id user).0 (ground (arith, same_row m m f)) in
                      subst (KeepsOwners p db) {x = row_update role m.status} {y = c.db}
                        (ground (arith, find_where-any (of_user org user) db.members m f, e1, e2))
                        (row_update-KeepsOwners m role m.status f g)
                ]
        ]
      ]
    ]
  ]

  set_status_tx-KeepsOwners :
      (status : Str) (c : Change Membership)
      → set_status_tx p hooks db actor org user status ≡ ok c
      → KeepsOwners p db c.db
  unfolding set_status_tx membership_of update_membership
  set_status_tx-KeepsOwners status c h = elim (Result-cases (organization_by_id db org)) [
    | inr (x, eo) ↦ absurd (ground arith)
    | inl (o, eo) ↦ elim (Option-cases (find_where (of_user org user) db.members)) [
      | inl f ↦ absurd (ground arith)
      | inr (m, f) ↦ elim (Bool-cases (str_beq m.status status)) [
        | inl e ↦
            subst (KeepsOwners p db) {x = db} {y = c.db} (ground arith) (KeepsOwners-refl p db u)
        | inr e ↦ elim (Result-cases (guard_owner p db org (plain m) m.role status)) [
          | inr (x, g) ↦ absurd (ground arith)
          | inl (t, g) ↦
              elim (Option-cases
                (hooks.before_membership_change (record (plain m) { status = status }))) [
                  | inr (x, k) ↦ absurd (ground arith)
                  | inl k ↦
                      let e1 = (str_beq_iff m.org_id org).0 (ground (arith, same_row m m f)) in
                      let e2 = (str_beq_iff m.user_id user).0 (ground (arith, same_row m m f)) in
                      subst (KeepsOwners p db) {x = row_update m.role status} {y = c.db}
                        (ground (arith, find_where-any (of_user org user) db.members m f, e1, e2))
                        (row_update-KeepsOwners m m.role status f g)
                ]
        ]
      ]
    ]
  ]

  abbrev row_delete : Db
  row_delete =
      clear_active_organization (record db { members = delete_where (of_user org user) db.members })
        org user

  row_delete-KeepsOwners :
      (m : Membership)
      → find_where (of_user org user) db.members ≡ some m
      → guard_owner p db org (plain m) [] suspended ≡ ok tt
      → KeepsOwners p db row_delete
  unfolding clear_active_organization
  row_delete-KeepsOwners m f g = record {
    organizations = refl;
    unique = delete_unique (of_user org user) db.members u;
    owners =
        delete-keeps p db org user m u f (guard_owner-Guarded p db org (plain m) [] suspended g);
  }

  remove_tx-KeepsOwners :
      (c : Change Membership) → remove_tx p hooks db actor org user ≡ ok c → KeepsOwners p db c.db
  unfolding remove_tx membership_of delete_membership
  remove_tx-KeepsOwners c h = elim (Result-cases (organization_by_id db org)) [
    | inr (x, eo) ↦ absurd (ground arith)
    | inl (o, eo) ↦ elim (Option-cases (find_where (of_user org user) db.members)) [
      | inl f ↦ absurd (ground arith)
      | inr (m, f) ↦ elim (Result-cases (guard_owner p db org (plain m) [] suspended)) [
        | inr (x, g) ↦ absurd (ground arith)
        | inl (t, g) ↦ elim (Option-cases (hooks.before_membership_change (plain m))) [
          | inr (x, k) ↦ absurd (ground arith)
          | inl k ↦
              subst (KeepsOwners p db) {x = row_delete} {y = c.db}
                (ground (arith, find_where-any (of_user org user) db.members m f))
                (row_delete-KeepsOwners m f g)
        ]
      ]
    ]
  ]

  pub set_role-KeepsOwners :
      (role : Str) (c : Change Membership)
      → set_role p hooks db actor org user role ≡ ok c
      → KeepsOwners p db c.db
  unfolding set_role
  set_role-KeepsOwners role c h = set_role_tx-KeepsOwners role c (ground arith)

  pub set_status-KeepsOwners :
      (status : Str) (c : Change Membership)
      → set_status p hooks db actor org user status ≡ ok c
      → KeepsOwners p db c.db
  unfolding set_status
  set_status-KeepsOwners status c h = set_status_tx-KeepsOwners status c (ground arith)

  pub remove-KeepsOwners :
      (c : Change Membership) → remove p hooks db actor org user ≡ ok c → KeepsOwners p db c.db
  unfolding remove
  remove-KeepsOwners c h = remove_tx-KeepsOwners c (ground arith)
