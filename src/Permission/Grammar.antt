-- ===== src/Permission/Grammar.antt =====
-- The grammar of a statement: `parse` and `to_string` are inverse to each other.
use auth_all.Prelude.{
  ◌≡◌, refl, ◌⊎◌, ◌≢◌, inl, inr, true, false, [], ◌∷◌, ◌++◌, some, Str, str_beq, str_beq_iff,
  str_beq_refl, arith, all, nat_eq, str_eq, Option-cases, Bool-cases, nat_beq_iff,
}
use auth_all.Permission.{
  wildcard, colon, Statement, cut, allowed_char, valid_segment, parse, to_string,
}

-- The statements that the grammar describes: the single asterisk, or two valid segments.
abbrev pub IsValid : Statement → Type 0
IsValid t =
    (((t.whole ≡ true) × (t.resource ≡ []) × (t.action ≡ []))
      ⊎ ((t.whole ≡ false) × (valid_segment t.resource ≡ true) × (valid_segment t.action ≡ true)))

allowed_char-colon : allowed_char colon ≡ false
unfolding allowed_char
allowed_char-colon = refl

-- A cut text is the two parts with the colon between them.
cut-append : (s : Str) (p : Str × Str) → cut s ≡ some p → s ≡ p.0 ++ (colon ∷ p.1)
unfolding cut
cut-append [] p h = ground arith
cut-append (c ∷ s) p h = elim (Option-cases (cut s)) [
  | inl e ↦ ground (arith, nat_beq_iff c colon)
  | inr (q, e) ↦ ground (arith, cut-append s q e, nat_beq_iff c colon)
]

-- The first part of a statement with no colon in it is found again.
cut-of-append :
    (xs ys : Str) → all allowed_char xs ≡ true → cut (xs ++ (colon ∷ ys)) ≡ some (xs, ys)
unfolding cut
cut-of-append [] ys h = refl
cut-of-append (x ∷ xs) ys h =
    ground (arith, cut-of-append xs ys, allowed_char-colon, nat_beq_iff x colon)

cut-valid : (xs ys : Str) → valid_segment xs ≡ true → cut (xs ++ (colon ∷ ys)) ≡ some (xs, ys)
unfolding valid_segment
cut-valid xs ys h = elim (Bool-cases (str_beq xs wildcard)) [
  | inl e ↦ rw ((str_beq_iff xs wildcard).0 e) (unfold cut in refl)
  | inr e ↦ cut-of-append xs ys (ground arith)
]

pub parse-IsValid : (s : Str) (t : Statement) → parse s ≡ some t → IsValid t
unfolding parse
parse-IsValid s t h = ground arith

-- The text of a parsed statement is the parsed text.
pub to_string-parse : (s : Str) (t : Statement) → parse s ≡ some t → to_string t ≡ s
unfolding parse to_string
to_string-parse s t h = elim (Option-cases (cut s)) [
  | inl e ↦ ground (arith, str_beq_iff s wildcard)
  | inr (p, e) ↦ ground (arith, str_beq_iff s wildcard, cut-append s p e)
]

-- A text with a colon in it is not the single asterisk.
append-ne-wildcard : (xs ys : Str) → str_beq (xs ++ (colon ∷ ys)) wildcard ≡ false
append-ne-wildcard xs ys = elim (Bool-cases (str_beq (xs ++ (colon ∷ ys)) wildcard)) [
  | inl e ↦ absurd (go xs ((str_beq_iff _ wildcard).0 e))
  | inr e ↦ e
]
  where
    go : (zs : Str) → zs ++ (colon ∷ ys) ≢ wildcard
    go [] h = ground arith
    go (z ∷ []) h = ground arith
    go (z ∷ z' ∷ zs) h = ground arith

-- The text of a valid statement, the wildcard of all or two segments of the grammar, is parsed to the
-- same statement.
pub parse-to_string : (t : Statement) → IsValid t → parse (to_string t) ≡ some t
unfolding parse to_string
parse-to_string t (inl (w, r, a)) = ground (arith, str_beq_refl wildcard)
parse-to_string t (inr (w, r, a)) =
    ground (arith, cut-valid t.resource t.action r, append-ne-wildcard t.resource t.action)
