-- ===== src/Permission/Wellformed.antt =====
-- What holds of each set that `NewSet` and `Union` build.
use auth_all.Prelude.{
  ◌≡◌, refl, inl, inr, true, ◌||◌, List, [], ◌∷◌, some, Str, arith, All, Option-cases,
}
use auth_all.Permission.{
  Statement, Set, empty, parse, holds, statement_beq, add, add_parsed, new_set, add_all, union,
}
use auth_all.Permission.Grammar.{IsValid, parse-IsValid}
use auth_all.Permission.Equality.{statement_beq_iff, statement_beq_refl}

-- The statement of the single asterisk.
abbrev pub whole_statement : Statement
whole_statement = record { resource = []; action = []; whole = true }

-- The flag `all` says whether the single asterisk is held, and each held statement is valid.
pub record IsWellFormed (s : Set) : Type 0 where
  pub flag : s.every ≡ holds s.grants whole_statement
  pub valid : All IsValid s.grants

pub empty-IsWellFormed : IsWellFormed empty
unfolding holds
empty-IsWellFormed = record { flag = refl; valid = tt }

-- `add` adds the statement and nothing else.
pub holds-add :
    (s : Set) (t q : Statement) → holds (add s t).grants q ≡ (holds s.grants q || statement_beq t q)
unfolding add holds
holds-add s t q = ground (arith, statement_beq_iff t q, statement_beq_refl t)

pub every-add : (s : Set) (t : Statement) → (add s t).every ≡ (s.every || t.whole)
unfolding add
every-add s t = ground arith

pub whole-valid : (t : Statement) → IsValid t → statement_beq t whole_statement ≡ t.whole
whole-valid t v = ground (arith, statement_beq_iff t whole_statement)

pub add-IsWellFormed :
    (s : Set) (t : Statement) → IsWellFormed s → IsValid t → IsWellFormed (add s t)
add-IsWellFormed s t w v = record {
  flag = ground (arith, every-add s t, holds-add s t whole_statement, whole-valid t v, w.flag);
  valid = (unfold add in (ground (arith, w.valid)));
}

add_all-IsWellFormed :
    (s : Set) (ts : List Statement) → IsWellFormed s → All IsValid ts → IsWellFormed (add_all s ts)
unfolding add_all
add_all-IsWellFormed s [] w v = w
add_all-IsWellFormed s (t ∷ ts) w v =
    add_all-IsWellFormed (add s t) ts (add-IsWellFormed s t w v.0) v.1

pub holds-add_all :
    (s : Set) (ts : List Statement) (q : Statement)
    → holds (add_all s ts).grants q ≡ (holds s.grants q || holds ts q)
unfolding add_all holds
holds-add_all s [] q = ground arith
holds-add_all s (t ∷ ts) q = ground (arith, holds-add_all (add s t) ts q, holds-add s t q)

pub add_parsed-IsWellFormed :
    (s : Set) (raws : List Str) (r : Set)
    → IsWellFormed s
    → add_parsed s raws ≡ some r
    → IsWellFormed r
unfolding add_parsed
add_parsed-IsWellFormed s [] r w h = ground arith
add_parsed-IsWellFormed s (raw ∷ rest) r w h = elim (Option-cases (parse raw)) [
  | inl e ↦ ground arith
  | inr (t, e) ↦
      add_parsed-IsWellFormed (add s t) rest r (add-IsWellFormed s t w (parse-IsValid raw t e))
        (ground arith)
]

-- Each set that `NewSet` returns is well formed.
pub new_set-IsWellFormed : (raws : List Str) (r : Set) → new_set raws ≡ some r → IsWellFormed r
unfolding new_set
new_set-IsWellFormed raws r h = add_parsed-IsWellFormed empty raws r empty-IsWellFormed h

-- A union of well-formed sets is well formed.
pub union-IsWellFormed : (s o : Set) → IsWellFormed s → IsWellFormed o → IsWellFormed (union s o)
unfolding union
union-IsWellFormed s o ws wo =
    add_all-IsWellFormed _ o.grants
      (add_all-IsWellFormed empty s.grants empty-IsWellFormed ws.valid) wo.valid

-- A union holds what one of its parts holds.
pub holds-union :
    (s o : Set) (q : Statement)
    → holds (union s o).grants q ≡ (holds s.grants q || holds o.grants q)
unfolding union
holds-union s o q =
    unfold holds in
    ground
      (arith, holds-add_all (add_all empty s.grants) o.grants q, holds-add_all empty s.grants q)
