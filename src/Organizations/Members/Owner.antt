-- ===== src/Organizations/Members/Owner.antt =====
-- No operation on a membership takes the last active owner away from an organization.
use auth_all.Prelude.{
  ◌≡◌, refl, sym, ◌∙◌, subst, ◌⊎◌, inl, inr, Bool, true, false, [], some, Str, arith, str_beq,
  str_beq_iff, any, Bool-cases, find_where, update_where, delete_where, any-update_where,
  any-delete_where, find_where-some, find_where-any, str_eq, nat_eq,
}
use auth_all.Errors.{ok}
use auth_all.Organizations.Store.{
  Membership, active, suspended, of_user, active_with_role, plain, Db,
  lock_active_members_with_role,
}
use auth_all.Organizations.Access.{Plugin}
use auth_all.Organizations.Members.{guard_owner}
use auth_all.Organizations.Members.Rows.{
  unique_members, other_with_role, set_row, count_others-any, other-update, other-delete, row-other,
  made-owner, other_org-of_user,
}

-- The organization has an active member with the owner role.
abbrev pub has_owner : Plugin → Db → Str → Bool
has_owner p db org = any (active_with_role org p.owner_role) db.members

-- The rows of two tables are related by an operation that keeps an owner in each organization, keeps
-- the key of the members table, and leaves the table of the organizations alone.
pub record KeepsOwners (p : Plugin) (db db' : Db) : Type 0 where
  pub organizations : db'.organizations ≡ db.organizations
  pub unique : unique_members db'.members ≡ true
  pub owners : (org : Str) → has_owner p db org ≡ true → has_owner p db' org ≡ true

pub KeepsOwners-refl :
    (p : Plugin) (db : Db) → unique_members db.members ≡ true → KeepsOwners p db db
KeepsOwners-refl p db u = record { organizations = refl; unique = u; owners = λ org h. h }

-- What the owner guard establishes for an existing row `m`.
abbrev pub Guarded : Plugin → Db → Str → Membership → Str → Str → Type 0
Guarded p db org m next_role next_status =
    (active_with_role org p.owner_role m ≡ false)
    ⊎ ((str_beq next_role p.owner_role ≡ true) × (str_beq next_status active ≡ true))
    ⊎ (any (other_with_role org p.owner_role m.user_id) db.members ≡ true)

pub guard_owner-Guarded :
    (p : Plugin) (db : Db) (org : Str) (m : Membership) (next_role next_status : Str)
    → guard_owner p db org m next_role next_status ≡ ok tt
    → Guarded p db org m next_role next_status
unfolding guard_owner lock_active_members_with_role
guard_owner-Guarded p db org m next_role next_status h =
    ground (arith, count_others-any org p.owner_role m.user_id db.members)

-- Some other owner, or the row itself is left an owner.
others-or-next :
    (p : Plugin) (db : Db) (org user : Str) (m : Membership) (next_role next_status : Str)
    → unique_members db.members ≡ true
    → find_where (of_user org user) db.members ≡ some m
    → Guarded p db org (plain m) next_role next_status
    → has_owner p db org ≡ true
    → (any (other_with_role org p.owner_role user) db.members ≡ true)
      ⊎ ((str_beq next_role p.owner_role ≡ true) × (str_beq next_status active ≡ true))
others-or-next p db org user m next_role next_status u f (inl n) h =
    inl (row-other org user p.owner_role db.members m u f n h)
others-or-next p db org user m next_role next_status u f (inr (inl n)) h = inr n
others-or-next p db org user m next_role next_status u f (inr (inr n)) h = inl (
    subst (λ x. any (other_with_role org p.owner_role x) db.members ≡ true)
      ((str_beq_iff m.user_id user).0
        (ground (arith, find_where-some (of_user org user) db.members m f)))
      n)

module _ (p : Plugin) (db : Db) (org user : Str) (m : Membership)
    (u : unique_members db.members ≡ true)
    (f : find_where (of_user org user) db.members ≡ some m) where
  pub update-keeps :
      (role status : Str)
      → Guarded p db org (plain m) role status
      → (o : Str) → has_owner p db o ≡ true
      → any
          (active_with_role o p.owner_role)
          (update_where (of_user org user) (set_row role status) db.members)
        ≡ true
  update-keeps role status g o h = elim (Bool-cases (str_beq org o)) [
    | inr n ↦
        any-update_where (of_user org user) (active_with_role o p.owner_role) (set_row role status)
          db.members (λ x q. other_org-of_user org user o p.owner_role x n q) h
    | inl e ↦
        subst
          (λ x.
            any (active_with_role x p.owner_role)
              (update_where (of_user org user) (set_row role status) db.members)
            ≡ true)
          ((str_beq_iff org o).0 e)
          (same (subst (λ x. has_owner p db x ≡ true) (sym ((str_beq_iff org o).0 e)) h))
  ]
    where
      same :
          has_owner p db org ≡ true
          → any
              (active_with_role org p.owner_role)
              (update_where (of_user org user) (set_row role status) db.members)
            ≡ true
      same h' = elim (others-or-next p db org user m role status u f g h') [
        | inl others ↦ other-update org user p.owner_role (set_row role status) db.members others
        | inr (r, a) ↦
            subst
              (λ x.
                any (active_with_role org p.owner_role)
                  (update_where (of_user org user) (set_row x status) db.members)
                ≡ true)
              (sym ((str_beq_iff role p.owner_role).0 r))
              (made-owner org user p.owner_role status db.members
                (find_where-any (of_user org user) db.members m f) a)
      ]

  pub delete-keeps :
      Guarded p db org (plain m) [] suspended
      → (o : Str) → has_owner p db o ≡ true
      → any (active_with_role o p.owner_role) (delete_where (of_user org user) db.members) ≡ true
  delete-keeps g o h = elim (Bool-cases (str_beq org o)) [
    | inr n ↦
        any-delete_where (of_user org user) (active_with_role o p.owner_role) db.members
          (λ x q. other_org-of_user org user o p.owner_role x n q)
        ∙ h
    | inl e ↦
        subst
          (λ x.
            any (active_with_role x p.owner_role) (delete_where (of_user org user) db.members)
            ≡ true)
          ((str_beq_iff org o).0 e)
          (same (subst (λ x. has_owner p db x ≡ true) (sym ((str_beq_iff org o).0 e)) h))
  ]
    where
      same :
          has_owner p db org ≡ true
          → any (active_with_role org p.owner_role) (delete_where (of_user org user) db.members)
            ≡ true
      same h' = elim (others-or-next p db org user m [] suspended u f g h') [
        | inl others ↦ other-delete org user p.owner_role db.members others
        | inr (r, a) ↦ absurd (never a)
      ]
        where
          never : str_beq suspended active ≡ true → ⊥
          never a = (unfold str_beq in cc)
