-- ===== src/Tokens/Examples.antt =====
-- The life of one token.
use auth_all.Prelude.{
  ◌≡◌, refl, List, [], ◌∷◌, some, true, false, Str, codes, str_beq, find_where, update_where,
  delete_where, ◌&&◌, ltb, ◌==◌, str_eq, ◌+◌,
}
use auth_all.Errors.{ok, err, invalid_token}
use auth_all.Tokens.{
  Token, IssueTokenInput, consume_row, consume_token, create_row, issue_token, lifetime, replaced,
  delete_by_identifier, new_token,
}
use auth_all.Tokens.Once.{consume_token-once, unique_hashes, run, never_issues, consumes, cleans}
use auth_all.Tokens.Issued.{issue_token-consume_token}

abbrev same : Str → Str
same s = s

abbrev reset : IssueTokenInput
reset = record {
  kind = codes "reset";
  identifier = codes "a@b";
  user_id = some (codes "u");
  ttl = 60;
  replace_existing = true;
}

abbrev fresh : Token
fresh = new_token same 3600 reset (codes "t1") (codes "1") 100

abbrev spent_fresh : Token
spent_fresh = record fresh { consumed_at = some 110 }

consume_token-once_example :
    consume_token same 3600
      (run same 3600
        (spent_fresh ∷ [])
        (consumes (codes "reset") (codes "t2") 112 ∷ cleans 90 ∷ []))
      (codes "reset")
      (codes "t1")
      120
    ≡ err invalid_token
unfolding consume_token consume_row unique_hashes never_issues find_where update_where str_beq
    lifetime
consume_token-once_example =
    consume_token-once same 3600 (fresh ∷ []) (codes "reset") (codes "t1") 110 spent_fresh
      (spent_fresh ∷ []) (consumes (codes "reset") (codes "t2") 112 ∷ cleans 90 ∷ [])
      (codes "reset") 120 refl refl refl

issue_token-consume_token_example :
    (((codes "reset" == codes "reset" && ltb 130 (100 + lifetime same 3600 reset)) ≡ true)
      → (rows : List Token) × (consume_token same 3600 (fresh ∷ []) (codes "reset") (codes "t1") 130
          ≡ ok (record fresh { consumed_at = some 130 }, rows)))
    × (((codes "reset" == codes "reset" && ltb 130 (100 + lifetime same 3600 reset)) ≡ false)
        → consume_token same 3600 (fresh ∷ []) (codes "reset") (codes "t1") 130 ≡ err invalid_token)
unfolding issue_token create_row replaced delete_by_identifier delete_where str_beq
issue_token-consume_token_example =
    issue_token-consume_token same 3600 [] reset (codes "t1") (codes "1") 100 130 fresh (fresh ∷ [])
      (codes "reset") refl refl

abbrev kept : Token
kept = record fresh { id = codes "0"; token_hash = codes "t0"; identifier = codes "c@d" }
