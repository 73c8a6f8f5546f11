-- ===== src/Sessions/Lifetime.antt =====
-- No request keeps a session past its absolute lifetime.
use auth_all.Prelude.{
  ℕ, ◌+◌, ◌≤◌, ◌≡◌, refl, inl, inr, Bool, true, ◌&&◌, ◌||◌, not, List, [], ◌∷◌, none, some, Str,
  arith, leb, ◌==◌, nat_eq, str_eq, all, find_where, update_where, delete_where, Option-cases,
  find_where-some,
}
use auth_all.Errors.{Result-cases}
use auth_all.Accounts.{
  Session, Db, session_with_user, touch_session, delete_session, delete_sessions_of,
  delete_sessions_except, delete_expired,
}
use auth_all.Sessions.{Settings, lookup_session, has_ended, seen}

-- What happens to the sessions after one is made: requests with some token, sign-outs, revocations and
-- the cleanup of ended rows.
pub data Call : Type 0 where
  request : Str → ℕ → Call
  sign_out : Str → Call
  revoke_all : Str → Call
  revoke_others : Str → Call
  clean : ℕ → Call

unfoldable pub after : Settings → Db → Call → Db
after cfg db (request hash now) = (lookup_session cfg db hash now).1
after cfg db (sign_out id) = delete_session db id
after cfg db (revoke_all user) = delete_sessions_of db user
after cfg db (revoke_others id) = delete_sessions_except db id
after cfg db (clean before) = delete_expired db before

unfoldable pub run : Settings → Db → List Call → Db
unfolding after
run cfg db [] = db
run cfg db (c ∷ cs) = run cfg (after cfg db c) cs

-- The rows of the token were made at the given time.
abbrev pub made_at : Str → ℕ → Session → Bool
made_at hash created s = not (s.token_hash == hash) || s.created_at == created

all-delete :
    (p q : Session → Bool) (ss : List Session) → all q ss ≡ true → all q (delete_where p ss) ≡ true
unfolding delete_where
all-delete p q [] h = refl
all-delete p q (s ∷ ss) h = ground (arith, all-delete p q ss)

all-touch :
    (hash id : Str) (created at : ℕ) (ss : List Session)
    → all (made_at hash created) ss ≡ true
    → all
        (made_at hash created)
        (update_where (λ s. s.id == id) (λ s. record s { last_seen_at = at }) ss)
      ≡ true
unfolding update_where
all-touch hash id created at [] h = refl
all-touch hash id created at (s ∷ ss) h = ground (arith, all-touch hash id created at ss)

all-find :
    (p q : Session → Bool) (ss : List Session) (s : Session)
    → all q ss ≡ true
    → find_where p ss ≡ some s
    → q s ≡ true
unfolding find_where
all-find p q [] s h f = ground arith
all-find p q (x ∷ ss) s h f = ground (arith, all-find p q ss s)

module _ (cfg : Settings) (hash : Str) (created : ℕ) where
  after-made_at :
      (db : Db) (c : Call)
      → all (made_at hash created) db.sessions ≡ true
      → all (made_at hash created) (after cfg db c).sessions ≡ true
  unfolding after lookup_session seen touch_session delete_session delete_sessions_of
      delete_sessions_except delete_expired
  after-made_at db (request h' now) h = elim (Result-cases (session_with_user db h')) [
    | inr (e, k) ↦ ground (arith, k)
    | inl ((s, u), k) ↦ ground (
      arith,
      k,
      all-delete (λ x. x.id == s.id) (made_at hash created) db.sessions h,
      all-touch hash s.id created now db.sessions h,
    )
  ]
  after-made_at db (sign_out id) h =
      all-delete (λ s. s.id == id) (made_at hash created) db.sessions h
  after-made_at db (revoke_all user) h =
      all-delete (λ s. s.user_id == user) (made_at hash created) db.sessions h
  after-made_at db (revoke_others id) h =
      elim (Option-cases (find_where (λ s. s.id == id) db.sessions)) [
        | inl n ↦ ground (arith, n)
        | inr (kept, e) ↦ ground (
          arith,
          e,
          all-delete (λ s. not (s.id == id) && s.user_id == kept.user_id) (made_at hash created)
              db.sessions h,
        )
      ]
  after-made_at db (clean before) h =
      all-delete (λ s. leb s.expires_at before) (made_at hash created) db.sessions h

  run-made_at :
      (db : Db) (cs : List Call)
      → all (made_at hash created) db.sessions ≡ true
      → all (made_at hash created) (run cfg db cs).sessions ≡ true
  unfolding run
  run-made_at db [] h = h
  run-made_at db (c ∷ cs) h = run-made_at (after cfg db c) cs (after-made_at db c h)

  -- After any history of requests, sign-outs, revocations and cleanups, a token whose session was made
  -- at `created` resolves to no user once the absolute lifetime has passed, however often it was used.
  pub run-lifetime :
      (db : Db) (cs : List Call) (now : ℕ)
      → all (made_at hash created) db.sessions ≡ true
      → created + cfg.ttl ≤ now
      → (lookup_session cfg (run cfg db cs) hash now).0 ≡ none
  unfolding lookup_session session_with_user has_ended
  run-lifetime db cs now h l =
      elim (Option-cases (find_where (λ s. s.token_hash == hash) (run cfg db cs).sessions)) [
        | inl n ↦ ground (arith, n)
        | inr (s, e) ↦ ground (
          arith,
          e,
          all-find (λ s. s.token_hash == hash) (made_at hash created) (run cfg db cs).sessions s
              (run-made_at db cs h) e,
          find_where-some (λ s. s.token_hash == hash) (run cfg db cs).sessions s e,
        )
      ]
