-- ===== src/Permission/Reach.antt =====
-- What a set allows, against the meaning of a wildcard: it replaces one whole segment.
use auth_all.Prelude.{
  some, codes, ◌≡◌, refl, subst, ◌↔◌, ◌⊎◌, ◌≢◌, inl, inr, Bool, true, false, List, [], ◌∷◌, Str,
  arith, All, or_elim, str_beq, str_beq_iff,
}
use auth_all.Permission.{
  parse, cut, allowed_char, wildcard, Statement, Set, holds, covers, add, valid_segment,
}
use auth_all.Permission.Grammar.{IsValid}
use auth_all.Permission.Equality.{statement_beq_iff}
use auth_all.Permission.Wellformed.{IsWellFormed, whole_statement, holds-add, add-IsWellFormed}
use auth_all.Permission.Coverage.{covers-covered, any_action, any_resource}

-- A segment of a held statement fits a segment of the asked permission.
abbrev pub Fits : Str → Str → Type 0
Fits g r = (g ≡ wildcard) ⊎ (g ≡ r)

-- The held statement `g` reaches the permission `r:a`.
abbrev pub Reaches : Statement → Str → Str → Type 0
Reaches g r a = (g.whole ≡ true) ⊎ ((g.whole ≡ false) × Fits g.resource r × Fits g.action a)

abbrev pub concrete : Str → Str → Statement
concrete r a = record { resource = r; action = a; whole = false }

-- The statement `*:*`.
abbrev pub star_star : Statement
star_star = any_resource wildcard

holds-IsValid :
    (gs : List Statement) (g : Statement) → All IsValid gs → holds gs g ≡ true → IsValid g
unfolding holds
holds-IsValid [] g v h = ground arith
holds-IsValid (x ∷ gs) g v h = elim (or_elim h) [
  | inl e ↦ subst IsValid ((statement_beq_iff x g).0 e) v.0
  | inr e ↦ holds-IsValid gs g v.1 e
]

holds-same : (gs : List Statement) (g t : Statement) → holds gs g ≡ true → g ≡ t → holds gs t ≡ true
holds-same gs g t h e = rw (← e) h

reach-covers :
    (s : Set) (r a : Str) (g : Statement)
    → IsWellFormed s
    → r ≢ wildcard
    → a ≢ wildcard
    → holds s.grants star_star ≡ false
    → holds s.grants g ≡ true
    → Reaches g r a
    → covers s (concrete r a) ≡ true
reach-covers s r a g w nr na ns h m = rw (covers-covered s (concrete r a) w) (
    ground (
      arith,
      str_beq_iff r wildcard,
      str_beq_iff a wildcard,
      holds-IsValid s.grants g w.valid h,
      holds-same s.grants g,
    ))

covers-reach :
    (s : Set) (r a : Str)
    → IsWellFormed s
    → covers s (concrete r a) ≡ true
    → (g : Statement) × (holds s.grants g ≡ true) × Reaches g r a
covers-reach s r a w c =
    pick (holds s.grants whole_statement) (holds s.grants (concrete r a))
      (holds s.grants (any_action r)) (holds s.grants (any_resource a)) refl refl refl refl
  where
    pick :
        (p q u v : Bool)
        → holds s.grants whole_statement ≡ p
        → holds s.grants (concrete r a) ≡ q
        → holds s.grants (any_action r) ≡ u
        → holds s.grants (any_resource a) ≡ v
        → (g : Statement) × (holds s.grants g ≡ true) × Reaches g r a
    pick true q u v hp hq hu hv = (whole_statement, hp, inl refl)
    pick false true u v hp hq hu hv = (concrete r a, hq, inr (refl, inr refl, inr refl))
    pick false false true v hp hq hu hv = (any_action r, hu, inr (refl, inr refl, inl refl))
    pick false false false true hp hq hu hv = (any_resource a, hv, inr (refl, inl refl, inr refl))
    pick false false false false hp hq hu hv =
        absurd (ground (arith, covers-covered s (concrete r a) w))

-- A well-formed set without the statement `*:*` allows a permission `r:a` of two concrete segments
-- exactly when it holds a statement whose segments fit, a wildcard fitting every segment.
covers-concrete_iff :
    (s : Set) (r a : Str)
    → IsWellFormed s
    → r ≢ wildcard
    → a ≢ wildcard
    → holds s.grants star_star ≡ false
    → (covers s (concrete r a) ≡ true)
      ↔ ((g : Statement) × (holds s.grants g ≡ true) × Reaches g r a)
covers-concrete_iff s r a w nr na ns =
    (covers-reach s r a w, λ t. reach-covers s r a t.0 w nr na ns t.1 t.2)

star_star-IsValid : IsValid star_star
unfolding valid_segment str_beq
star_star-IsValid = inr (refl, refl, refl)

-- The text `*:*` parses to its statement, and the statement gives a set no permission: after it is added
-- to a well-formed set, each statement but `*:*` itself is covered as before.
pub covers-add-star_star :
    (s : Set) (t : Statement)
    → IsWellFormed s
    → t ≢ star_star
    → (parse (codes "*:*") ≡ some star_star) × (covers (add s star_star) t ≡ covers s t)
unfolding parse valid_segment cut allowed_char str_beq
covers-add-star_star s t w n = (
  refl,
  rw
      (
        covers-covered (add s star_star) t (add-IsWellFormed s star_star w star_star-IsValid),
        covers-covered s t w,
      )
      (ground (
        arith,
        holds-add s star_star t,
        holds-add s star_star whole_statement,
        holds-add s star_star (any_action t.resource),
        holds-add s star_star (any_resource t.action),
        statement_beq_iff star_star t,
        statement_beq_iff star_star whole_statement,
        statement_beq_iff star_star (any_action t.resource),
        statement_beq_iff star_star (any_resource t.action),
        str_beq_iff t.resource wildcard,
        str_beq_iff t.action wildcard,
      )),
)
