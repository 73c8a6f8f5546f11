-- ===== src/Tokens.antt =====
-- tokens.go and internal/sqlstore/tokens.go: the one-time tokens. SHA-256 is the parameter `digest`; the
-- random token, the id of a row and the clock are arguments. A failure of the database is not modelled.
mod Examples
pub mod Once
pub mod Issued
use auth_all.Prelude.{
  ℕ, ◌+◌, Bool, true, false, ◌&&◌, ◌||◌, not, List, [], ◌∷◌, Option, none, some, Str, str_beq, ltb,
  leb, if◌then◌else◌, ◌==◌, nat_eq, str_eq, is_empty, any, find_where, update_where, delete_where,
}
use auth_all.Errors.{
  Error, Result, ok, err, guard, ◌>>=◌, ◌>>◌, invalid_token, internal, row_conflict, row_not_found,
  email_already_exists, or_fail,
}

pub record Token : Type 0 where
  pub id : Str
  pub user_id : Option Str
  pub kind : Str
  pub identifier : Str
  pub token_hash : Str
  pub created_at : ℕ
  pub expires_at : ℕ
  pub consumed_at : Option ℕ

abbrev pub unconsumed : Token → Bool
unconsumed t = elim t.consumed_at [ none ↦ true | some at ↦ false ]

abbrev pub matches : Str → Str → Token → Bool
matches kind hash t = t.kind == kind && t.token_hash == hash

-- `WHERE kind = ? AND token_hash = ? AND consumed_at IS NULL AND expires_at > ?`
abbrev pub consumable : Str → Str → ℕ → Token → Bool
consumable kind hash now t = matches kind hash t && (unconsumed t && ltb now t.expires_at)

unfoldable pub create_row : List Token → Token → Result (List Token)
create_row rows t =
    if any (λ r. r.id == t.id || r.token_hash == t.token_hash) rows
    then err row_conflict
    else ok (t ∷ rows)

unfoldable pub get_row : List Token → Str → Str → Result Token
get_row rows kind hash = or_fail (find_where (matches kind hash) rows) row_not_found

-- One UPDATE … RETURNING.
unfoldable pub consume_row : List Token → Str → Str → ℕ → Result (Token × List Token)
consume_row rows kind hash now = elim (find_where (consumable kind hash now) rows) [
  | none ↦ err row_not_found
  | some t ↦ ok (
    record t { consumed_at = some now },
    update_where (consumable kind hash now) (λ r. record r { consumed_at = some now }) rows,
  )
]

unfoldable pub delete_by_identifier : List Token → Str → Str → List Token
delete_by_identifier rows kind identifier =
    delete_where (λ t. t.kind == kind && t.identifier == identifier) rows

unfoldable pub delete_expired : List Token → ℕ → List Token
delete_expired rows before = delete_where (λ t. leb t.expires_at before) rows

-- plugin.IssueTokenInput
pub record IssueTokenInput : Type 0 where
  pub kind : Str
  pub identifier : Str
  pub user_id : Option Str
  pub ttl : ℕ
  pub replace_existing : Bool

module _ (digest : Str → Str) (hour : ℕ) where
  -- A lifetime of zero is an hour.
  unfoldable pub lifetime : IssueTokenInput → ℕ
  lifetime input = if input.ttl == 0 then hour else input.ttl

  abbrev pub new_token : IssueTokenInput → Str → Str → ℕ → Token
  new_token input plaintext id now = record {
    id = id;
    user_id = input.user_id;
    kind = input.kind;
    identifier = input.identifier;
    token_hash = digest plaintext;
    created_at = now;
    expires_at = now + lifetime input;
    consumed_at = none;
  }

  -- The deletion in the transaction of `issueToken`.
  unfoldable pub replaced : List Token → IssueTokenInput → List Token
  unfolding delete_by_identifier
  replaced rows input =
      if input.replace_existing && not (is_empty input.identifier)
      then delete_by_identifier rows input.kind input.identifier
      else rows

  -- `issueToken`; a conflict of the row becomes the public error of `publicError`.
  unfoldable pub issue_token :
      List Token → IssueTokenInput → Str → Str → ℕ → Result (Token × List Token)
  unfolding lifetime replaced create_row
  issue_token rows input plaintext id now = do
    guard (not (is_empty input.kind)) internal
    let t = new_token input plaintext id now
    elim (create_row (replaced rows input) t) [
      | ok rows' ↦ ok (t, rows')
      | err e ↦ err email_already_exists
    ]

  -- `peekToken`.
  unfoldable pub peek_token : List Token → Str → Str → ℕ → Result Token
  unfolding get_row
  peek_token rows kind plaintext now =
      if is_empty plaintext
      then err invalid_token
      else elim (get_row rows kind (digest plaintext)) [
        | err e ↦ err invalid_token
        | ok t ↦
            if not (unconsumed t) || not (ltb now t.expires_at) then err invalid_token else ok t
      ]

  -- `consumeToken`.
  unfoldable pub consume_token : List Token → Str → Str → ℕ → Result (Token × List Token)
  unfolding consume_row
  consume_token rows kind plaintext now =
      if is_empty plaintext
      then err invalid_token
      else elim (consume_row rows kind (digest plaintext) now) [
        | err e ↦ err invalid_token
        | ok done ↦ ok done
      ]
