-- ===== src/Organizations/Store/Rows.antt =====
-- store/organizations.go: the rows of the organizations plugin, and the tables.
use auth_all.Prelude.{ℕ, List, Option, Str, codes}

pub record Organization : Type 0 where
  pub id : Str
  pub name : Str
  pub slug : Str
  pub created_at : ℕ
  pub updated_at : ℕ

pub record Membership : Type 0 where
  pub id : Str
  pub org_id : Str
  pub user_id : Str
  pub role : Str
  pub status : Str
  pub joined_at : ℕ
  pub permissions : Str
  pub team_roles : Str

abbrev pub active : Str
active = codes "active"

abbrev pub suspended : Str
suspended = codes "suspended"

pub record Invitation : Type 0 where
  pub id : Str
  pub org_id : Str
  pub email_normalized : Str
  pub role : Str
  pub invited_by : Str
  pub token_hash : Str
  pub status : Str
  pub expires_at : ℕ
  pub created_at : ℕ

abbrev pub pending : Str
pending = codes "pending"

abbrev pub accepted : Str
accepted = codes "accepted"

abbrev pub revoked : Str
revoked = codes "revoked"

pub record CustomRole : Type 0 where
  pub id : Str
  pub org_id : Str
  pub name : Str
  pub permissions : Str
  pub created_at : ℕ

pub record Team : Type 0 where
  pub id : Str
  pub org_id : Str
  pub name : Str
  pub role : Str
  pub created_at : ℕ

pub record TeamMember : Type 0 where
  pub team_id : Str
  pub user_id : Str

-- The columns of a user row and of a session row that the plugin reads or writes.
pub record User : Type 0 where
  pub id : Str
  pub email_normalized : Str

pub record SessionRow : Type 0 where
  pub id : Str
  pub user_id : Str
  pub active_org_id : Option Str

pub record Db : Type 0 where
  pub organizations : List Organization
  pub members : List Membership
  pub roles : List CustomRole
  pub invitations : List Invitation
  pub teams : List Team
  pub team_members : List TeamMember
  pub users : List User
  pub sessions : List SessionRow
