-- ===== src/Sessions.antt =====
-- sessions.go: how a request's token becomes a session, and how a session is made. SHA-256 is the
-- parameter `digest`; the random token, the id of a row and the clock are arguments. A failure of the
-- database is not modelled.
mod Examples
pub mod Lifetime
pub mod Fixation
use auth_all.Prelude.{
  ℕ, ◌+◌, Bool, true, false, ◌&&◌, ◌||◌, not, List, [], ◌∷◌, Option, none, some, Str, str_beq, ltb,
  leb, if◌then◌else◌, ◌==◌, nat_eq, str_eq, is_empty,
}
use auth_all.Errors.{
  Error, Result, ok, err, row_not_found, row_conflict, private_error, internal, not_found,
  email_already_exists,
}
use auth_all.Accounts.{
  User, Session, Db, is_enabled, session_with_user, session_by_token_hash, touch_session,
  delete_session, insert_session,
}

pub record Settings : Type 0 where
  pub ttl : ℕ
  pub idle_timeout : ℕ
  pub touch_interval : ℕ

unfoldable pub public_error : Error → Error
public_error row_conflict = email_already_exists
public_error row_not_found = not_found
public_error (private_error n) = internal
public_error e = e

-- A session ends at the first of three deadlines.
unfoldable pub has_ended : Settings → Session → ℕ → Bool
has_ended cfg s now =
    not (ltb now s.expires_at)
    || (not (ltb now (s.created_at + cfg.ttl)) || not (ltb now (s.last_seen_at + cfg.idle_timeout)))

-- The tail of `lookupSession`: the last request is written at most once in an interval.
unfoldable pub seen : Settings → Db → Session → User → ℕ → Option (Session × User) × Db
seen cfg db s u now =
    if leb (s.last_seen_at + cfg.touch_interval) now
    then elim (touch_session db s.id now) [
      | ok db' ↦ (some (record s { last_seen_at = now }, u), db')
      | err e ↦ (some (s, u), db)
    ]
    else (some (s, u), db)

-- `lookupSession` over the join of `readSessionAndUser`.
unfoldable pub lookup_session : Settings → Db → Str → ℕ → Option (Session × User) × Db
unfolding has_ended seen
lookup_session cfg db hash now = elim (session_with_user db hash) [
  | err e ↦ (none, db)
  | ok (s, u) ↦
      if not (is_enabled u)
      then (none, db)
      else if has_ended cfg s now
      then (none, delete_session db s.id)
      else seen cfg db s u now
]

module _ (digest : Str → Str) where
  -- `resolveSession` of a request that carries the token.
  unfoldable pub resolve_session : Settings → Db → Str → ℕ → Option (Session × User) × Db
  unfolding lookup_session
  resolve_session cfg db token now =
      if is_empty token then (none, db) else lookup_session cfg db (digest token) now

  unfoldable pub revoke_previous : Db → Str → Db
  revoke_previous db previous =
      if is_empty previous then db else elim (session_by_token_hash db (digest previous)) [
        | ok s ↦ delete_session db s.id
        | err e ↦ db
      ]

  abbrev pub new_session : Settings → User → Str → Str → ℕ → Session
  new_session cfg user token id now = record {
    id = id;
    user_id = user.id;
    token_hash = digest token;
    created_at = now;
    expires_at = now + cfg.ttl;
    last_seen_at = now;
  }

  -- `createSession`; a refusal after the revocation leaves the revocation in place.
  unfoldable pub create_session :
      Settings
      → (Session → User → Option Error)
      → Db
      → User
      → Str
      → Str
      → Str
      → ℕ
      → Result Session × Db
  unfolding revoke_previous public_error
  create_session cfg before db user previous token id now =
      let db' = revoke_previous db previous in
      let s = new_session cfg user token id now in
      elim (before s user) [
        | some e ↦ (err (public_error e), db')
        | none ↦ elim (insert_session db' s) [
          | ok db'' ↦ (ok s, db'')
          | err e ↦ (err (public_error e), db')
        ]
      ]
