-- ===== src/Organizations/History/Owned.antt =====
-- The operations that touch the organizations or their members keep an active owner in each.
use auth_all.Prelude.{
  ℕ, ◌≡◌, refl, sym, ◌∙◌, subst, inl, inr, Bool, true, false, ◌&&◌, ◌||◌, List, [], ◌∷◌, Option,
  none, some, Str, arith, str_beq, str_beq_iff, any, Bool-cases, update_where, delete_where,
  any-delete_where, any-delete_where_self, str_eq,
}
use auth_all.Errors.{Result, ok, err, Result-cases}
use auth_all.Organizations.Store.{
  Organization, Membership, User, Db, Invitation, active, of_user, active_with_role, plain,
  create_organization, create_membership, update_organization, delete_organization,
  consume_invitation,
}
use auth_all.Organizations.Events.{Hooks, Change}
use auth_all.Organizations.Access.{Plugin}
use auth_all.Organizations.Members.Rows.{unique_members, delete_unique}
use auth_all.Organizations.Members.Owner.{KeepsOwners, has_owner}
use auth_all.Organizations.Lifecycle.{create, create_tx, update, delete, owner_of}
use auth_all.Strings.{trim_space}
use auth_all.Organizations.Invitations.{accept, accept_tx}
use auth_all.Organizations.History.{after}
use auth_all.Organizations.History.Frames.{SameMembers}

abbrev pub has_id : Str → Organization → Bool
has_id org o = str_beq o.id org

-- Each organization of the table has an active member with the owner role, and the members table has
-- one row for a user of an organization.
pub record IsOwned (p : Plugin) (db : Db) : Type 0 where
  pub unique : unique_members db.members ≡ true
  pub owned : (org : Str) → any (has_id org) db.organizations ≡ true → has_owner p db org ≡ true

any-or_right :
    (f g : Membership → Bool) (ms : List Membership)
    → any (λ m. f m || g m) ms ≡ false
    → any g ms ≡ false
any-or_right f g [] h = refl
any-or_right f g (m ∷ ms) h = ground (arith, any-or_right f g ms)

any-has_id-update :
    (org id name slug : Str) (now : ℕ) (os : List Organization)
    → any (has_id org) (
        update_where
          (λ r. str_beq r.id id)
          (λ r. record r { name = name; slug = slug; updated_at = now })
          os)
      ≡ any (has_id org) os
unfolding update_where
any-has_id-update org id name slug now [] = refl
any-has_id-update org id name slug now (o ∷ os) =
    ground (arith, any-has_id-update org id name slug now os)

module _ (p : Plugin) (db : Db) (v : IsOwned p db) where
  pub SameMembers-IsOwned : (db' : Db) → SameMembers db db' → IsOwned p db'
  SameMembers-IsOwned db' s = record {
    unique = rw s.0 v.unique;
    owned = λ org h. rw s.0 (v.owned org (rw s.1 at h));
  }

  pub KeepsOwners-IsOwned : (db' : Db) → KeepsOwners p db db' → IsOwned p db'
  KeepsOwners-IsOwned db' k = record {
    unique = k.unique;
    owned = λ org h. k.owners org (v.owned org (rw k.organizations at h));
  }

  inserted : Membership → Db
  inserted m = record db { members = plain m ∷ db.members }

  inserted-IsOwned :
      (m : Membership)
      → any (of_user m.org_id m.user_id) db.members ≡ false
      → IsOwned p (inserted m)
  unfolding inserted unique_members
  inserted-IsOwned m n = record {
    unique = ground (arith, v.unique);
    owned = λ org q. ground (arith, v.owned org);
  }

  create_membership-IsOwned :
      (m : Membership) (db' : Db) → create_membership db m ≡ ok db' → IsOwned p db'
  unfolding create_membership inserted
  create_membership-IsOwned m db' h =
      elim (Bool-cases (any (λ r. str_beq r.id m.id || of_user m.org_id m.user_id r) db.members)) [
        | inl e ↦ absurd (ground arith)
        | inr e ↦
            subst (IsOwned p) {x = inserted m} {y = db'} (ground arith)
              (inserted-IsOwned m (any-or_right _ (of_user m.org_id m.user_id) db.members e))
      ]

  founded : Organization → Membership → Db
  founded o m = record db { members = plain m ∷ db.members; organizations = o ∷ db.organizations }

  founded-IsOwned :
      (o : Organization) (m : Membership)
      → m.org_id ≡ o.id
      → m.role ≡ p.owner_role
      → m.status ≡ active
      → any (of_user m.org_id m.user_id) db.members ≡ false
      → IsOwned p (founded o m)
  unfolding founded unique_members
  founded-IsOwned o m eo er es n = record {
    unique = ground (arith, v.unique);
    owned = λ org q. ground (
      arith,
      v.owned org,
      eo,
      str_beq_iff m.org_id org,
      str_beq_iff o.id org,
      str_beq_iff m.role p.owner_role,
      str_beq_iff m.status active,
    );
  }

  create_tx-IsOwned :
      (hooks : Hooks) (o : Organization) (m : Membership) (db' : Db)
      → m.org_id ≡ o.id
      → m.role ≡ p.owner_role
      → m.status ≡ active
      → create_tx hooks db o m ≡ ok db'
      → IsOwned p db'
  unfolding create_tx create_organization create_membership founded
  create_tx-IsOwned hooks o m db' eo er es h =
      elim (Bool-cases (any (λ r. str_beq r.id m.id || of_user m.org_id m.user_id r) db.members)) [
        | inl e ↦ absurd (ground arith)
        | inr e ↦ subst (IsOwned p) {x = founded o m} {y = db'} (ground arith) (
            founded-IsOwned o m eo er es (any-or_right _ (of_user m.org_id m.user_id) db.members e))
      ]

  pub create-IsOwned :
      (hooks : Hooks) (actor : Option User) (name slug owner org member : Str) (now : ℕ)
      (c : Change Organization)
      → create p hooks db actor name slug owner org member now ≡ ok c
      → IsOwned p c.db
  unfolding create
  create-IsOwned hooks actor name slug owner org member now c h =
      elim (Result-cases (owner_of actor owner)) [
        | inr (x, e) ↦ absurd (ground arith)
        | inl (user, e) ↦
            let m : Membership = record {
              id = member;
              org_id = org;
              user_id = user;
              role = p.owner_role;
              status = active;
              joined_at = now;
              permissions = [];
              team_roles = [];
            } in
            let o : Organization = record {
              id = org;
              name = trim_space name;
              slug = trim_space slug;
              created_at = now;
              updated_at = now;
            } in
            create_tx-IsOwned hooks o m c.db refl refl refl (ground arith)
      ]

  update_organization-IsOwned :
      (o : Organization) (db' : Db) → update_organization db o ≡ ok db' → IsOwned p db'
  unfolding update_organization
  update_organization-IsOwned o db' h =
      let ids =
        λ (org : Str). any-has_id-update org o.id o.name o.slug o.updated_at db.organizations in
      let moved : db'.members ≡ db.members = ground arith in
      let table : db'.organizations
          ≡ update_where (λ r. str_beq r.id o.id)
              (λ r. record r { name = o.name; slug = o.slug; updated_at = o.updated_at })
              db.organizations =
        ground arith in
      record {
        unique = rw moved v.unique;
        owned = λ org q. rw moved (v.owned org (sym (ids org) ∙ (rw table at q)));
      }

  pub update-IsOwned :
      (hooks : Hooks) (actor : Option User) (org : Str) (name slug : Option Str) (now : ℕ)
      (c : Change Organization)
      → update hooks db actor org name slug now ≡ ok c
      → IsOwned p c.db
  unfolding update
  update-IsOwned hooks actor org name slug now c h =
      update_organization-IsOwned c.value c.db (ground arith)

  deleted : Str → Db
  deleted org = record db {
    team_members =
        delete_where (λ m. any (λ t. str_beq t.id m.team_id && str_beq t.org_id org) db.teams)
          db.team_members;
    teams = delete_where (λ t. str_beq t.org_id org) db.teams;
    invitations = delete_where (λ i. str_beq i.org_id org) db.invitations;
    roles = delete_where (λ r. str_beq r.org_id org) db.roles;
    members = delete_where (λ m. str_beq m.org_id org) db.members;
    organizations = delete_where (has_id org) db.organizations;
  }

  deleted-IsOwned : (org : Str) → IsOwned p (deleted org)
  unfolding deleted
  deleted-IsOwned org = record {
    unique = delete_unique (λ m. str_beq m.org_id org) db.members v.unique;
    owned = λ other q. elim (Bool-cases (str_beq other org)) [
      | inl e ↦ absurd (gone other ((str_beq_iff other org).0 e) q)
      | inr e ↦
          any-delete_where (λ m. str_beq m.org_id org) (active_with_role other p.owner_role)
            db.members
            (λ m a.
              ground (
                arith,
                str_beq_iff m.org_id other,
                str_beq_iff m.org_id org,
                str_beq_iff other org,
              ))
          ∙ v.owned other (
              sym (
                any-delete_where (has_id org) (has_id other) db.organizations (λ o a.
                  ground
                    (arith, str_beq_iff o.id other, str_beq_iff o.id org, str_beq_iff other org)))
              ∙ q)
    ];
  }
    where
      gone :
          (other : Str)
          → other ≡ org
          → any (has_id other) (delete_where (has_id org) db.organizations) ≡ true
          → ⊥
      gone other e q = ground (
        arith,
        subst (λ x. any (has_id x) (delete_where (has_id org) db.organizations) ≡ true) e q,
        any-delete_where_self (has_id org) db.organizations,
      )

  pub delete-IsOwned :
      (hooks : Hooks) (actor : Option User) (org : Str) (c : Change Organization)
      → delete hooks db actor org ≡ ok c
      → IsOwned p c.db
  unfolding delete delete_organization deleted
  delete-IsOwned hooks actor org c h =
      subst (IsOwned p) {x = deleted org} {y = c.db} (ground arith) (deleted-IsOwned org)

  consume-IsOwned :
      (hash : Str) (now : ℕ) (r : Db × Invitation)
      → consume_invitation db hash now ≡ ok r
      → IsOwned p r.0
  unfolding consume_invitation
  consume-IsOwned hash now r h = SameMembers-IsOwned r.0 (ground arith)

pub accept-IsOwned :
    (p : Plugin) (db : Db) (digest : Str → Str) (user : Option User) (token id : Str) (now : ℕ)
    (c : Change Membership)
    → IsOwned p db
    → accept digest db user token id now ≡ ok c
    → IsOwned p c.db
unfolding accept accept_tx
accept-IsOwned p db digest none token id now c v h = absurd (ground arith)
accept-IsOwned p db digest (some user) token id now c v h =
    elim (Result-cases (consume_invitation db (digest token) now)) [
      | inr (x, e) ↦ absurd (ground arith)
      | inl (r, e) ↦
          create_membership-IsOwned p r.0 (consume-IsOwned p db v (digest token) now r e) c.value
            c.db (ground arith)
    ]

pub after-IsOwned :
    {A : Type 0} (p : Plugin) (db : Db) (r : Result (Change A))
    → IsOwned p db
    → ((c : Change A) → r ≡ ok c → IsOwned p c.db)
    → IsOwned p (after db r)
after-IsOwned p db (ok c) v f = f c refl
after-IsOwned p db (err e) v f = v
