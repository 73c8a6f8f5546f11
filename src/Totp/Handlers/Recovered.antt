-- ===== src/Totp/Handlers/Recovered.antt =====
-- What a recovery and a confirmation leave.
use auth_all.Prelude.{
  ℕ, ◌≡◌, refl, sym, ◌∙◌, ap, inl, inr, true, false, List, [], ◌∷◌, Option, Str, arith, ◌==◌,
  str_eq, any, ◌||◌, str_beq_refl, some, find_where, delete_where, count_where, Bool-cases,
  Option-cases, find_where-any, any-delete_where_self,
}
use auth_all.Errors.{Error, ok, Result-cases}
use auth_all.Accounts.{User, Session, insert_session}
use auth_all.Sessions.{Settings, new_session, revoke_previous, create_session}
use auth_all.Totp.{get}
use auth_all.Totp.Recovery.{
  RecoveryCode, coded, count_by_user, consume_code, delete_by_user, delete_enrolment,
  normalize_recovery_code,
}
use auth_all.Totp.Enrolment.{Callees, State, totp_confirmed, mfa_challenge}
use auth_all.Totp.Handlers.{Request, redeem, forget_factor, sign_in, recovered, handle_recovery}

count_where-delete_where :
    (user : Str) (rows : List RecoveryCode)
    → count_where (λ r. r.user_id == user) (delete_where (λ r. r.user_id == user) rows) ≡ 0
unfolding count_where delete_where
count_where-delete_where user [] = refl
count_where-delete_where user (r ∷ rows) = ground (arith, count_where-delete_where user rows)

forgotten :
    (db : State) (user : Str)
    → (any (λ r. r.user_id == user) (forget_factor db user).enrolments ≡ false)
      × (count_by_user (forget_factor db user).recovery user ≡ 0)
unfolding forget_factor delete_enrolment delete_by_user count_by_user
forgotten db user = (
  any-delete_where_self (λ r. r.user_id == user) db.enrolments,
  count_where-delete_where user db.recovery,
)

module _ (lib : Callees) (cfg : Settings) (before : Session → User → Option Error) where
  redeem-recovery : (db : State) (r : Request) → (redeem lib db r).1.recovery ≡ db.recovery
  unfolding redeem
  redeem-recovery db r = ground arith

  signed_in :
      (db : State) (user : User) (r : Request) (s : Session) (db' : State)
      → sign_in lib cfg before db user r ≡ (ok s, db')
      → (s.user_id ≡ user.id)
        × (db'.enrolments ≡ db.enrolments)
        × (db'.recovery ≡ db.recovery)
        × (find_where (λ x. x.id == r.id) db'.accounts.sessions ≡ some s)
  unfolding sign_in create_session insert_session find_where
  signed_in db user r s db' h =
      let prior = revoke_previous lib.digest db.accounts r.previous in
      let made = new_session lib.digest cfg user r.token r.id r.now in
      elim (Option-cases (before made user)) [
        | inr (e, b) ↦ absurd (ground arith)
        | inl b ↦
            elim (Bool-cases
              (any (λ x. x.id == made.id || x.token_hash == made.token_hash) prior.sessions)) [
                | inl c ↦ absurd (ground arith)
                | inr c ↦
                    let same : s ≡ made = ground arith in
                    let stored : db'.accounts.sessions ≡ made ∷ prior.sessions = ground arith in
                    (
                      ground (arith, same),
                      ground arith,
                      ground arith,
                      ground (arith, same, stored, str_beq_refl r.id),
                    )
              ]
      ]

  -- A user without an enrolment is asked for no second factor.
  no_challenge :
      (db : State) (user plaintext id : Str) (now : ℕ)
      → any (λ r. r.user_id == user) db.enrolments ≡ false
      → mfa_challenge lib db user plaintext id now ≡ ok (false, db)
  unfolding mfa_challenge totp_confirmed get
  no_challenge db user plaintext id now h =
      elim (Option-cases (find_where (λ r. r.user_id == user) db.enrolments)) [
        | inl e ↦ ground arith
        | inr (row, e) ↦
            let there = find_where-any (λ r. r.user_id == user) db.enrolments row e in
            absurd (ground arith)
      ]

  -- A recovery that signs in was for the owner of the challenge, with a code that the owner's list held,
  -- and the session that it stores is the owner's. It leaves the owner without an enrolment, confirmed or
  -- not, and without recovery codes, so that the next sign-in asks for no second factor.
  pub handle_recovery-clears :
      (db : State) (r : Request) (s : Session) (db' : State)
      → handle_recovery lib cfg before db r ≡ (ok s, db')
      → (user : User) × ((redeem lib db r).0 ≡ ok user)
        × (any (coded user.id (lib.digest (normalize_recovery_code lib.lower r.code))) db.recovery
            ≡ true)
        × (s.user_id ≡ user.id)
        × (find_where (λ x. x.id == r.id) db'.accounts.sessions ≡ some s)
        × (any (λ e. e.user_id == user.id) db'.enrolments ≡ false)
        × (count_by_user db'.recovery user.id ≡ 0)
        × ((plaintext id : Str) (now : ℕ)
            → mfa_challenge lib db' user.id plaintext id now ≡ ok (false, db'))
  unfolding handle_recovery recovered consume_code
  handle_recovery-clears db r s db' h = elim (Result-cases (redeem lib db r).0) [
    | inr (e, p) ↦ absurd (ground (arith, p))
    | inl (user, p) ↦
        let db1 = (redeem lib db r).1 in
        let hash = lib.digest (normalize_recovery_code lib.lower r.code) in
        elim (Bool-cases (any (coded user.id hash) db1.recovery)) [
          | inr q ↦ absurd (ground (arith, p, q))
          | inl q ↦
              let rows = delete_where (coded user.id hash) db1.recovery in
              let db2 = forget_factor (record db1 { recovery = rows }) user.id in
              let (own, same, kept, stored) = signed_in db2 user r s db' (ground (arith, p, q)) in
              let (free, none_left) = forgotten (record db1 { recovery = rows }) user.id in
              let clear = ap (any (λ e. e.user_id == user.id)) same ∙ free in
              (
                user,
                p,
                sym (ap (any (coded user.id hash)) (redeem-recovery db r)) ∙ q,
                own,
                stored,
                clear,
                ap (λ xs. count_by_user xs user.id) kept ∙ none_left,
                λ plaintext id now. no_challenge db' user.id plaintext id now clear,
              )
        ]
  ]
