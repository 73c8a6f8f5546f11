-- ===== src/Sessions/Fixation.antt =====
-- What a sign-in leaves of the session that the request carried before.
use auth_all.Prelude.{
  ℕ, ◌+◌, ◌≤◌, ◌<◌, ◌≡◌, refl, inl, inr, Bool, true, false, ◌&&◌, not, List, [], ◌∷◌, Option, none,
  some, Str, arith, str_beq_iff, str_beq_refl, leb, ◌==◌, nat_eq, str_eq, any, find_where,
  delete_where, Bool-cases, Option-cases, find_where-none, is_empty,
}
use auth_all.Errors.{Error, ok}
use auth_all.Accounts.{
  User, Session, Db, is_enabled, session_with_user, touch_session, delete_session, insert_session,
  session_by_token_hash,
}
use auth_all.Sessions.{
  Settings, lookup_session, resolve_session, create_session, revoke_previous, new_session,
  has_ended, seen,
}

-- The unique index on the digest of the token.
unfoldable pub unique_hashes : List Session → Bool
unique_hashes [] = true
unique_hashes (s ∷ ss) = not (any (λ r. r.token_hash == s.token_hash) ss) && unique_hashes ss

none-any :
    (hash : Str) (ss : List Session)
    → any (λ s. s.token_hash == hash) ss ≡ false
    → find_where (λ s. s.token_hash == hash) ss ≡ none
unfolding find_where
none-any hash [] h = refl
none-any hash (s ∷ ss) h = ground (arith, none-any hash ss)

any-delete :
    (p q : Session → Bool) (ss : List Session)
    → any q ss ≡ false
    → any q (delete_where p ss) ≡ false
unfolding delete_where
any-delete p q [] h = refl
any-delete p q (s ∷ ss) h = ground (arith, any-delete p q ss)

-- The row found by the token is the token's only row, so that its deletion by id ends the token.
delete-hash :
    (hash : Str) (ss : List Session) (s : Session)
    → unique_hashes ss ≡ true
    → find_where (λ r. r.token_hash == hash) ss ≡ some s
    → any (λ r. r.token_hash == hash) (delete_where (λ r. r.id == s.id) ss) ≡ false
unfolding unique_hashes find_where delete_where
delete-hash hash [] s u f = ground arith
delete-hash hash (x ∷ ss) s u f = ground (
  arith,
  delete-hash hash ss s,
  str_beq_iff x.token_hash hash,
  str_beq_refl x.id,
  any-delete (λ r. r.id == s.id) (λ r. r.token_hash == hash) ss,
)

module _ (digest : Str → Str) (cfg : Settings) (before : Session → User → Option Error) where
  revoke_previous-none :
      (db : Db) (previous : Str)
      → unique_hashes db.sessions ≡ true
      → is_empty previous ≡ false
      → any (λ r. r.token_hash == digest previous) (revoke_previous digest db previous).sessions
        ≡ false
  unfolding revoke_previous session_by_token_hash delete_session
  revoke_previous-none db previous u n =
      elim (Option-cases (find_where (λ s. s.token_hash == digest previous) db.sessions)) [
        | inl e ↦
            ground (arith, e, find_where-none (λ s. s.token_hash == digest previous) db.sessions)
        | inr (s, e) ↦ ground (arith, e, delete-hash (digest previous) db.sessions s u e)
      ]

  -- In a table with unique digests, after a sign-in the non-empty token that the request carried
  -- before resolves to no user at any time, unless it has the digest of the new token. This holds
  -- when the sign-in is refused, too.
  pub create_session-revokes :
      (db : Db) (user : User) (previous token id : Str) (now later : ℕ)
      → unique_hashes db.sessions ≡ true
      → is_empty previous ≡ false
      → (digest token == digest previous) ≡ false
      → (resolve_session digest cfg
          (create_session digest cfg before db user previous token id now).1
          previous
          later).0
        ≡ none
  unfolding create_session resolve_session lookup_session session_with_user insert_session
  create_session-revokes db user previous token id now later u n d =
      let gone = revoke_previous-none db previous u n in
      let lost =
        none-any (digest previous)
          (create_session digest cfg before db user previous token id now).1.sessions in
      ground (arith, gone, lost)

  revoke_previous-users :
      (db : Db) (previous : Str) → (revoke_previous digest db previous).users ≡ db.users
  unfolding revoke_previous session_by_token_hash delete_session
  revoke_previous-users db previous = ground arith

  -- The non-empty token of a sign-in that succeeds resolves to the user who signed in, until the
  -- idle timeout or the absolute lifetime passes, if the user has a row and is enabled.
  pub create_session-resolves :
      (db : Db) (user : User) (previous token id : Str) (now later : ℕ) (s : Session)
      → (create_session digest cfg before db user previous token id now).0 ≡ ok s
      → find_where (λ u. u.id == user.id) db.users ≡ some user
      → is_enabled user ≡ true
      → is_empty token ≡ false
      → now ≤ later
      → later < now + cfg.ttl
      → later < now + cfg.idle_timeout
      → (s' : Session) × ((resolve_session digest cfg
            (create_session digest cfg before db user previous token id now).1
            token
            later).0
          ≡ some (s', user))
        × (s'.id ≡ id)
  unfolding create_session resolve_session lookup_session session_with_user insert_session has_ended
      seen touch_session find_where
  create_session-resolves db user previous token id now later s h f e n l a b =
      let s0 = new_session digest cfg user token id now in
      let k = revoke_previous-users db previous in
      elim (Bool-cases (leb (now + cfg.touch_interval) later)) [
        | inl t ↦ (
          record s0 { last_seen_at = later },
          ground (arith, k, f, str_beq_refl id, str_beq_refl (digest token)),
          refl,
        )
        | inr t ↦ (s0, ground (arith, k, f, str_beq_refl id, str_beq_refl (digest token)), refl)
      ]
