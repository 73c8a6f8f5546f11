-- ===== src/Totp/Handlers/Confirmed.antt =====
-- What the confirmation of an enrolment leaves.
use auth_all.Prelude.{
  ℕ, suc, if◌then◌else◌, find_where-update_where, find_where-any, ◌≡◌, refl, sym, ◌∙◌, ap, inl, inr,
  Bool, true, false, ◌&&◌, ◌||◌, not, List, [], ◌∷◌, ◌++◌, some, Str, arith, str_beq, str_beq_iff,
  ◌==◌, str_eq, any, all, find_where, delete_where, count_where, map, length, keep_if, Bool-cases,
  Option-cases, find_where-none,
}
use auth_all.Errors.{ok, totp_already_enrolled, Result-cases}
use auth_all.Accounts.{User, Session, Db, delete_session}
use auth_all.Totp.{Totp, get}
use auth_all.Totp.Recovery.{
  RecoveryCode, coded, code_row, count_by_user, consume_code, delete_by_user, replace_all,
  normalize_recovery_code, confirm,
}
use auth_all.Totp.Enrolment.{
  Callees, State, is_confirmed, totp_confirmed, check_code, issue_recovery_codes,
}
use auth_all.Totp.Handlers.{revoke_others, revoke_other_sessions, handle_confirm}

-- Another session of the user than the one kept.
abbrev pub other_session : Str → Str → Session → Bool
other_session user keep s = s.user_id == user && not (s.id == keep)

-- Each other session of the user is in the list.
abbrev covered : Str → Str → List Session → Session → Bool
covered user keep list r = not (other_session user keep r) || any (λ s. s.id == r.id) list

all-covered_kept :
    (user keep : Str) (s : Session) (ss rows : List Session)
    → s.id ≡ keep
    → all (covered user keep (s ∷ ss)) rows ≡ true
    → all (covered user keep ss) rows ≡ true
all-covered_kept user keep s ss [] e h = refl
all-covered_kept user keep s ss (r ∷ rows) e h = elim (Bool-cases (str_beq s.id r.id)) [
  | inl g ↦
      let q = (str_beq_iff r.id keep).1 (sym ((str_beq_iff s.id r.id).0 g) ∙ e) in
      ground (arith, q, all-covered_kept user keep s ss rows e)
  | inr g ↦ ground (arith, g, all-covered_kept user keep s ss rows e)
]

all-covered_deleted :
    (user keep : Str) (s : Session) (ss rows : List Session)
    → all (covered user keep (s ∷ ss)) rows ≡ true
    → all (covered user keep ss) (delete_where (λ r. r.id == s.id) rows) ≡ true
unfolding delete_where
all-covered_deleted user keep s ss [] h = refl
all-covered_deleted user keep s ss (r ∷ rows) h = elim (Bool-cases (str_beq s.id r.id)) [
  | inl g ↦
      let q = (str_beq_iff r.id s.id).1 (sym ((str_beq_iff s.id r.id).0 g)) in
      ground (arith, q, all-covered_deleted user keep s ss rows)
  | inr g ↦ ground (arith, g, all-covered_deleted user keep s ss rows)
]

uncovered :
    (user keep : Str) (rows : List Session)
    → all (covered user keep []) rows ≡ true
    → any (other_session user keep) rows ≡ false
uncovered user keep [] h = refl
uncovered user keep (r ∷ rows) h = ground (arith, uncovered user keep rows)

revoke_others-none :
    (user keep : Str) (db : Db) (ss : List Session)
    → all (covered user keep ss) db.sessions ≡ true
    → any (other_session user keep) (revoke_others db keep ss).sessions ≡ false
unfolding revoke_others delete_session
revoke_others-none user keep db [] h = uncovered user keep db.sessions h
revoke_others-none user keep db (s ∷ ss) h =
    revoke_others-none user keep (if s.id == keep then db else delete_session db s.id) ss
      (elim (Bool-cases (str_beq s.id keep)) [
        | inl e ↦
            let kept = (str_beq_iff s.id keep).0 e in
            ground (arith, e, all-covered_kept user keep s ss db.sessions kept h)
        | inr e ↦ ground (arith, e, all-covered_deleted user keep s ss db.sessions h)
      ])

all-covered_more :
    (user keep : Str) (s : Session) (ss rows : List Session)
    → all (covered user keep ss) rows ≡ true
    → all (covered user keep (s ∷ ss)) rows ≡ true
all-covered_more user keep s ss [] h = refl
all-covered_more user keep s ss (r ∷ rows) h = ground (arith, all-covered_more user keep s ss rows)

all-covered_list :
    (user keep : Str) (rows : List Session)
    → all (covered user keep (keep_if (λ s. s.user_id == user) rows)) rows ≡ true
all-covered_list user keep [] = refl
all-covered_list user keep (r ∷ rows) = ground (
  arith,
  str_beq_iff r.id r.id,
  all-covered_list user keep rows,
  all-covered_more user keep r (keep_if (λ s. s.user_id == user) rows) rows,
)

revoke_other_sessions-none :
    (user keep : Str) (db : Db)
    → any (other_session user keep) (revoke_other_sessions db user keep).sessions ≡ false
unfolding revoke_other_sessions
revoke_other_sessions-none user keep db =
    revoke_others-none user keep db (keep_if (λ s. s.user_id == user) db.sessions)
      (all-covered_list user keep db.sessions)

-- The rows of a new set, each counted for the user and found by its digest.
count-replaced :
    (user : Str) (now : ℕ) (hashes : List Str) (rows : List RecoveryCode)
    → count_where
        (λ r. r.user_id == user)
        (map (code_row user now) hashes ++ delete_where (λ r. r.user_id == user) rows)
      ≡ length hashes
unfolding count_where delete_where
count-replaced user now [] [] = refl
count-replaced user now [] (r ∷ rows) = ground (arith, count-replaced user now [] rows)
count-replaced user now (h ∷ hs) rows =
    ground (arith, (str_beq_iff user user).1 refl, count-replaced user now hs rows)

module _ (lib : Callees) where
  abbrev pub digest_of : Str → Str
  digest_of c = lib.digest (normalize_recovery_code lib.lower c)

  issued_code :
      (user typed : Str) (now : ℕ) (cs : List Str) (rows : List RecoveryCode)
      → any (λ c. normalize_recovery_code lib.lower c == normalize_recovery_code lib.lower typed) cs
        ≡ true
      → any (coded user (digest_of typed)) (map (code_row user now) (map digest_of cs) ++ rows)
        ≡ true
  issued_code user typed now [] rows h = ground arith
  issued_code user typed now (c ∷ cs) rows h =
      elim (Bool-cases
        (str_beq (normalize_recovery_code lib.lower c) (normalize_recovery_code lib.lower typed))) [
          | inl e ↦
              let same = ap lib.digest (
                (str_beq_iff (normalize_recovery_code lib.lower c)
                    (normalize_recovery_code lib.lower typed)).0
                  e) in
              ground (
                arith,
                (str_beq_iff user user).1 refl,
                (str_beq_iff (digest_of c) (digest_of typed)).1 same,
              )
          | inr e ↦ ground (arith, e, issued_code user typed now cs rows)
        ]

  length-digests : (cs : List Str) → length (map digest_of cs) ≡ length cs
  length-digests [] = refl
  length-digests (c ∷ cs) = ap suc (length-digests cs)

confirmed_rows :
    (user : Str) (at : ℕ) (rows rows' : List Totp)
    → confirm rows user at ≡ ok rows'
    → (row : Totp) × (find_where (λ r. r.user_id == user) rows' ≡ some row)
      × (is_confirmed row ≡ true)
unfolding confirm
confirmed_rows user at rows rows' h =
    elim (Option-cases (find_where (λ r. r.user_id == user) rows)) [
      | inl e ↦ absurd (ground (arith, find_where-none (λ r. r.user_id == user) rows e))
      | inr (row, e) ↦
          let after : Totp → Totp = λ r. record r { confirmed_at = some at; updated_at = at } in
          let found =
            find_where-update_where (λ r. r.user_id == user) after rows row (λ x k. k) e in
          let there = find_where-any (λ r. r.user_id == user) rows row e in
          (after row, ground (arith, found, there), refl)
    ]

-- A confirmation leaves the user with a confirmed enrolment, exactly the issued recovery codes, each of
-- which is accepted however its case, dashes and spaces are typed, and no session but the current one.
pub handle_confirm-enrols :
    (lib : Callees) (db : State) (s : Session) (user : User) (code : Str) (plaintexts : List Str)
    (now : ℕ) (db' : State)
    → handle_confirm lib db s user code plaintexts now ≡ ok db'
    → (totp_confirmed db' user.id ≡ true)
      × (count_by_user db'.recovery user.id ≡ length plaintexts)
      × ((typed : Str)
          → any
              (λ c. normalize_recovery_code lib.lower c == normalize_recovery_code lib.lower typed)
              plaintexts
            ≡ true
          → (consume_code db'.recovery user.id (digest_of lib typed)).0 ≡ true)
      × (any (other_session user.id s.id) db'.accounts.sessions ≡ false)
unfolding handle_confirm issue_recovery_codes replace_all count_by_user consume_code delete_by_user
    totp_confirmed get
handle_confirm-enrols lib db s user code plaintexts now db' h =
    elim (Result-cases (check_code lib db user.id false totp_already_enrolled code now)) [
      | inr (e, p) ↦ absurd (ground (arith, p))
      | inl (db1, p) ↦ elim (Result-cases (confirm db1.enrolments user.id now)) [
        | inr (e, q) ↦ absurd (ground (arith, p, q))
        | inl (rows, q) ↦
            let (row, f, c) = confirmed_rows user.id now db1.enrolments rows q in
            let digests = map (digest_of lib) plaintexts in
            let kept =
              map (code_row user.id now) digests
              ++ delete_where (λ r. r.user_id == user.id) db1.recovery in
            let at : db'.recovery ≡ kept = ground (arith, p, q) in
            (
              ground (arith, p, q, f, c),
              ap (count_where (λ r. r.user_id == user.id)) at
                  ∙ (count-replaced user.id now digests db1.recovery
                      ∙ length-digests lib plaintexts),
              λ typed t.
                  ap (any (coded user.id (digest_of lib typed))) at
                  ∙ issued_code lib user.id typed now plaintexts
                      (delete_where (λ r. r.user_id == user.id) db1.recovery) t,
              ground (arith, p, q, revoke_other_sessions-none user.id s.id db1.accounts),
            )
      ]
    ]
