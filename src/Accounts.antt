-- ===== src/Accounts.antt =====
-- store/store.go, internal/sqlstore/users.go, internal/sqlstore/sessions.go and
-- internal/sqlstore/useradmin.go: the rows of users and sessions, with the columns that the modelled code
-- reads or writes, and the statements on them. A token is stored as its digest.
use auth_all.Prelude.{
  ℕ, Bool, true, false, ◌&&◌, ◌||◌, not, List, [], ◌∷◌, Option, none, some, Str, leb, if◌then◌else◌,
  ◌==◌, nat_eq, str_eq, any, find_where, update_where, delete_where,
}
use auth_all.Errors.{row_not_found, row_conflict, Result, ok, err, or_fail}

pub record User : Type 0 where
  pub id : Str
  pub role : Str
  pub disabled_at : Option ℕ
  pub must_change_password : Bool
  pub updated_at : ℕ

pub record Session : Type 0 where
  pub id : Str
  pub user_id : Str
  pub token_hash : Str
  pub created_at : ℕ
  pub expires_at : ℕ
  pub last_seen_at : ℕ

pub record Db : Type 0 where
  pub users : List User
  pub sessions : List Session

abbrev pub is_enabled : User → Bool
is_enabled u = elim u.disabled_at [ none ↦ true | some t ↦ false ]

unfoldable pub user_by_id : Db → Str → Result User
user_by_id db id = or_fail (find_where (λ u. u.id == id) db.users) row_not_found

unfoldable pub update_user : Db → User → Result Db
update_user db u =
    if any (λ r. r.id == u.id) db.users
    then ok (record db { users = update_where (λ r. r.id == u.id) (λ r. u) db.users })
    else err row_not_found

-- `SELECT id … WHERE role = ? AND disabled_at IS NULL`
abbrev pub enabled_with_role : Str → User → Bool
enabled_with_role role u = u.role == role && is_enabled u

unfoldable pub ids_where : (User → Bool) → List User → List Str
ids_where p [] = []
ids_where p (u ∷ us) = let rest = ids_where p us in if p u then u.id ∷ rest else rest

unfoldable pub lock_enabled_users_with_role : Db → Str → List Str
lock_enabled_users_with_role db role = ids_where (enabled_with_role role) db.users

unfoldable pub insert_session : Db → Session → Result Db
insert_session db s =
    if any (λ r. r.id == s.id || r.token_hash == s.token_hash) db.sessions
    then err row_conflict
    else ok (record db { sessions = s ∷ db.sessions })

unfoldable pub session_by_token_hash : Db → Str → Result Session
session_by_token_hash db hash =
    or_fail (find_where (λ s. s.token_hash == hash) db.sessions) row_not_found

unfoldable pub touch_session : Db → Str → ℕ → Result Db
touch_session db id at =
    if any (λ s. s.id == id) db.sessions
    then ok (record db {
      sessions = update_where (λ s. s.id == id) (λ s. record s { last_seen_at = at }) db.sessions;
    })
    else err row_not_found

-- The result of the call is ignored by the callers that the model has.
unfoldable pub delete_session : Db → Str → Db
delete_session db id = record db { sessions = delete_where (λ s. s.id == id) db.sessions }

unfoldable pub delete_sessions_of : Db → Str → Db
delete_sessions_of db user = record db {
  sessions = delete_where (λ s. s.user_id == user) db.sessions;
}

unfoldable pub delete_expired : Db → ℕ → Db
delete_expired db before = record db {
  sessions = delete_where (λ s. leb s.expires_at before) db.sessions;
}

-- `id <> ? AND user_id = (SELECT user_id … WHERE id = ?)`; no row has a NULL owner.
unfoldable pub delete_sessions_except : Db → Str → Db
delete_sessions_except db id = elim (find_where (λ s. s.id == id) db.sessions) [
  | none ↦ db
  | some kept ↦ record db {
    sessions = delete_where (λ s. not (s.id == id) && s.user_id == kept.user_id) db.sessions;
  }
]

-- The join of a session and its user.
unfoldable pub session_with_user : Db → Str → Result (Session × User)
session_with_user db hash = elim (find_where (λ s. s.token_hash == hash) db.sessions) [
  | none ↦ err row_not_found
  | some s ↦ elim (find_where (λ u. u.id == s.user_id) db.users) [
    | none ↦ err row_not_found
    | some u ↦ ok (s, u)
  ]
]
