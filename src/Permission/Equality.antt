-- ===== src/Permission/Equality.antt =====
-- The test of a statement in a map of statements is equality.
use auth_all.Prelude.{◌≡◌, refl, ◌↔◌, true, List, [], ◌∷◌, str_beq_iff, arith}
use auth_all.Permission.{Statement, statement_beq, holds, Set, covers, covers_all}

pub statement_beq_iff : (a b : Statement) → (statement_beq a b ≡ true) ↔ (a ≡ b)
unfolding statement_beq
statement_beq_iff a b =
    ground (arith, str_beq_iff a.resource b.resource, str_beq_iff a.action b.action)

pub statement_beq_refl : (a : Statement) → statement_beq a a ≡ true
statement_beq_refl a = (statement_beq_iff a a).1 refl

-- What a whole list passes, each statement held by it passes.
pub covers-holds :
    (s : Set) (gs : List Statement) (t : Statement)
    → covers_all s gs ≡ true
    → holds gs t ≡ true
    → covers s t ≡ true
unfolding covers_all holds
covers-holds s [] t h m = ground arith
covers-holds s (g ∷ gs) t h m = ground (arith, statement_beq_iff g t, covers-holds s gs t)

pub covers_all-of-holds :
    (s : Set) (gs : List Statement)
    → ((t : Statement) → holds gs t ≡ true → covers s t ≡ true)
    → covers_all s gs ≡ true
unfolding covers_all holds
covers_all-of-holds s [] h = refl
covers_all-of-holds s (g ∷ gs) h =
    ground (arith, h g, statement_beq_refl g, covers_all-of-holds s gs (λ t m. h t (ground arith)))
