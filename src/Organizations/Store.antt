-- ===== src/Organizations/Store.antt =====
-- internal/sqlstore/organizations.go: the statements on the rows of the organizations plugin. A unique
-- index refuses an insertion with `row_conflict`.
mod Rows
pub use Rows.*
use auth_all.Prelude.{
  ℕ, Bool, true, false, ◌&&◌, ◌||◌, not, List, [], ◌∷◌, Option, none, some, Str, codes, ltb,
  if◌then◌else◌, ◌==◌, nat_eq, str_eq, any, is_empty, find_where, update_where, delete_where,
  count_where,
}
use auth_all.Errors.{row_not_found, row_conflict, Result, ok, err, or_fail}

-- RowsAffected = 0 is ErrNotFound.
abbrev pub when_row {ℓ} : {A : Type ℓ} → Bool → A → Result A
when_row true a = ok a
when_row false a = err row_not_found

abbrev pub unless_row {ℓ} : {A : Type ℓ} → Bool → A → Result A
unless_row true a = err row_conflict
unless_row false a = ok a

unfoldable pub create_organization : Db → Organization → Result Db
create_organization db o =
    unless_row (any (λ r. r.id == o.id || r.slug == o.slug) db.organizations)
      (record db { organizations = o ∷ db.organizations })

unfoldable pub organization_by_id : Db → Str → Result Organization
organization_by_id db id = or_fail (find_where (λ o. o.id == id) db.organizations) row_not_found

-- `UPDATE … SET name, slug, updated_at`; another row with the slug refuses it.
unfoldable pub update_organization : Db → Organization → Result Db
update_organization db o =
    if any (λ r. r.slug == o.slug && not (r.id == o.id)) db.organizations
    then err row_conflict
    else when_row (any (λ r. r.id == o.id) db.organizations) (record db {
      organizations =
          update_where (λ r. r.id == o.id)
            (λ r. record r { name = o.name; slug = o.slug; updated_at = o.updated_at })
            db.organizations;
    })

unfoldable pub delete_organization : Db → Str → Result Db
delete_organization db id = when_row (any (λ o. o.id == id) db.organizations) (record db {
  team_members =
      delete_where (λ m. any (λ t. t.id == m.team_id && t.org_id == id) db.teams) db.team_members;
  teams = delete_where (λ t. t.org_id == id) db.teams;
  invitations = delete_where (λ i. i.org_id == id) db.invitations;
  roles = delete_where (λ r. r.org_id == id) db.roles;
  members = delete_where (λ m. m.org_id == id) db.members;
  organizations = delete_where (λ o. o.id == id) db.organizations;
})

-- `WHERE org_id = ? AND user_id = ?`
abbrev pub of_user : Str → Str → Membership → Bool
of_user org user m = m.org_id == org && m.user_id == user

-- A plain read returns neither the resolved statements nor the team roles.
abbrev pub plain : Membership → Membership
plain m = record m { permissions = []; team_roles = [] }

unfoldable pub create_membership : Db → Membership → Result Db
create_membership db m =
    unless_row (any (λ r. r.id == m.id || of_user m.org_id m.user_id r) db.members)
      (record db { members = plain m ∷ db.members })

unfoldable pub membership_of : Db → Str → Str → Result Membership
membership_of db org user = elim (find_where (of_user org user) db.members) [
  | none ↦ err row_not_found
  | some m ↦ ok (plain m)
]

unfoldable pub update_membership : Db → Membership → Result Db
update_membership db m = when_row (any (of_user m.org_id m.user_id) db.members) (record db {
  members =
      update_where (of_user m.org_id m.user_id) (λ r. record r { role = m.role; status = m.status })
        db.members;
})

unfoldable pub delete_membership : Db → Str → Str → Result Db
delete_membership db org user =
    when_row (any (of_user org user) db.members)
      (record db { members = delete_where (of_user org user) db.members })

-- `WHERE org_id = ? AND role = ? AND status = 'active'`
abbrev pub active_with_role : Str → Str → Membership → Bool
active_with_role org role m = m.org_id == org && (m.role == role && m.status == active)

unfoldable pub user_ids : (Membership → Bool) → List Membership → List Str
user_ids p [] = []
user_ids p (m ∷ ms) = let rest = user_ids p ms in if p m then m.user_id ∷ rest else rest

unfoldable pub lock_active_members_with_role : Db → Str → Str → List Str
lock_active_members_with_role db org role = user_ids (active_with_role org role) db.members

unfoldable pub count_members : Db → Str → ℕ
count_members db org = count_where (λ m. m.org_id == org && m.status == active) db.members

unfoldable pub clear_active_organization : Db → Str → Str → Db
clear_active_organization db org user = record db {
  sessions =
      update_where
        (λ s. s.user_id == user && elim s.active_org_id [ none ↦ false | some o ↦ o == org ])
        (λ s. record s { active_org_id = none }) db.sessions;
}

unfoldable pub set_active_organization : Db → Str → Str → Result Db
set_active_organization db session org =
    when_row (any (λ s. s.id == session) db.sessions) (record db {
      sessions =
          update_where (λ s. s.id == session)
            (λ s. record s { active_org_id = if is_empty org then none else some org }) db.sessions;
    })

unfoldable pub create_invitation : Db → Invitation → Result Db
create_invitation db i =
    unless_row (any (λ r. r.id == i.id || r.token_hash == i.token_hash) db.invitations)
      (record db { invitations = i ∷ db.invitations })

unfoldable pub invitation_by_token_hash : Db → Str → Result Invitation
invitation_by_token_hash db hash =
    or_fail (find_where (λ i. i.token_hash == hash) db.invitations) row_not_found

unfoldable pub invitation_by_id : Db → Str → Result Invitation
invitation_by_id db id = or_fail (find_where (λ i. i.id == id) db.invitations) row_not_found

-- `WHERE token_hash = ? AND status = 'pending' AND expires_at > ?`
abbrev pub consumable : Str → ℕ → Invitation → Bool
consumable hash now i = i.token_hash == hash && (i.status == pending && ltb now i.expires_at)

-- One conditional update, then a read of the row.
unfoldable pub consume_invitation : Db → Str → ℕ → Result (Db × Invitation)
unfolding invitation_by_token_hash
consume_invitation db hash now =
    if any (consumable hash now) db.invitations
    then (let db' = record db {
      invitations =
          update_where (consumable hash now) (λ i. record i { status = accepted }) db.invitations;
    } in
        elim (invitation_by_token_hash db' hash) [ ok i ↦ ok (db', i) | err e ↦ err e ])
    else err row_not_found

unfoldable pub set_invitation_status : Db → Str → Str → Str → Result Db
set_invitation_status db id from to =
    when_row (any (λ i. i.id == id && i.status == from) db.invitations) (record db {
      invitations =
          update_where (λ i. i.id == id && i.status == from) (λ i. record i { status = to })
            db.invitations;
    })

unfoldable pub count_pending_invitations : Db → Str → ℕ → ℕ
count_pending_invitations db org now =
    count_where (λ i. i.org_id == org && (i.status == pending && ltb now i.expires_at))
      db.invitations

unfoldable pub create_custom_role : Db → CustomRole → Result Db
create_custom_role db r =
    unless_row (any (λ x. x.id == r.id || (x.org_id == r.org_id && x.name == r.name)) db.roles)
      (record db { roles = r ∷ db.roles })

unfoldable pub custom_role_by_name : Db → Str → Str → Result CustomRole
custom_role_by_name db org name =
    or_fail (find_where (λ r. r.org_id == org && r.name == name) db.roles) row_not_found

unfoldable pub delete_custom_role : Db → Str → Str → Result Db
delete_custom_role db org name =
    when_row (any (λ r. r.org_id == org && r.name == name) db.roles)
      (record db { roles = delete_where (λ r. r.org_id == org && r.name == name) db.roles })

unfoldable pub create_team : Db → Team → Result Db
create_team db t =
    unless_row (any (λ x. x.id == t.id || (x.org_id == t.org_id && x.name == t.name)) db.teams)
      (record db { teams = t ∷ db.teams })

unfoldable pub team_by_id : Db → Str → Result Team
team_by_id db id = or_fail (find_where (λ t. t.id == id) db.teams) row_not_found

unfoldable pub delete_team : Db → Str → Result Db
delete_team db id = when_row (any (λ t. t.id == id) db.teams) (record db {
  team_members = delete_where (λ m. m.team_id == id) db.team_members;
  teams = delete_where (λ t. t.id == id) db.teams;
})

unfoldable pub add_team_member : Db → Str → Str → Result Db
add_team_member db team user =
    unless_row (any (λ m. m.team_id == team && m.user_id == user) db.team_members)
      (record db { team_members = record { team_id = team; user_id = user } ∷ db.team_members })

unfoldable pub remove_team_member : Db → Str → Str → Result Db
remove_team_member db team user =
    when_row (any (λ m. m.team_id == team && m.user_id == user) db.team_members) (record db {
      team_members = delete_where (λ m. m.team_id == team && m.user_id == user) db.team_members;
    })
