-- ===== src/Permission/Coverage.antt =====
-- `Covers` and `CoversSet`: the rules that stop a privilege escalation.
use auth_all.Prelude.{
  ◌≡◌, refl, ◌↔◌, Bool, true, false, ◌||◌, ◌&&◌, not, List, [], ◌∷◌, Str, arith, is_empty, str_beq,
  str_beq_refl,
}
use auth_all.Permission.{wildcard, Statement, Set, holds, covers, covers_set, union}
use auth_all.Permission.Equality.{covers-holds, covers_all-of-holds}
use auth_all.Permission.Wellformed.{IsWellFormed, whole_statement, holds-union, union-IsWellFormed}

abbrev pub any_action : Str → Statement
any_action r = record { resource = r; action = wildcard; whole = false }

abbrev pub any_resource : Str → Statement
any_resource a = record { resource = wildcard; action = a; whole = false }

-- `Covers` as one Boolean formula over the held statements.
abbrev pub covered : (Statement → Bool) → Statement → Bool
covered held t =
    held whole_statement
    || (held t
        || (not t.whole
            && ((not (str_beq t.resource wildcard) && held (any_action t.resource))
                || (not (str_beq t.action wildcard) && held (any_resource t.action)))))

holds-empty : (gs : List Statement) (t : Statement) → is_empty gs ≡ true → holds gs t ≡ false
unfolding holds
holds-empty [] t h = refl
holds-empty (g ∷ gs) t h = ground arith

pub covers-covered :
    (s : Set) (t : Statement) → IsWellFormed s → covers s t ≡ covered (holds s.grants) t
unfolding covers
covers-covered s t w = ground (
  arith,
  w.flag,
  holds-empty s.grants t,
  holds-empty s.grants (any_action t.resource),
  holds-empty s.grants (any_resource t.action),
)

-- `Union` of two well-formed sets covers a statement exactly when one of them does.
pub covers-union :
    (s o : Set) (t : Statement)
    → IsWellFormed s
    → IsWellFormed o
    → covers (union s o) t ≡ (covers s t || covers o t)
covers-union s o t ws wo =
    rw
      (
        covers-covered (union s o) t (union-IsWellFormed s o ws wo),
        covers-covered s t ws,
        covers-covered o t wo,
      )
      (ground (
        arith,
        holds-union s o t,
        holds-union s o whole_statement,
        holds-union s o (any_action t.resource),
        holds-union s o (any_resource t.action),
      ))

covers-any_action :
    (s : Set) (r : Str)
    → IsWellFormed s
    → str_beq r wildcard ≡ false
    → covers s (any_action r) ≡ (holds s.grants whole_statement || holds s.grants (any_action r))
covers-any_action s r w h =
    rw (covers-covered s (any_action r) w) (ground (arith, str_beq_refl wildcard))

covers-any_resource :
    (s : Set) (a : Str)
    → IsWellFormed s
    → str_beq a wildcard ≡ false
    → covers s (any_resource a)
      ≡ (holds s.grants whole_statement || holds s.grants (any_resource a))
covers-any_resource s a w h =
    rw (covers-covered s (any_resource a) w) (ground (arith, str_beq_refl wildcard))

covers-whole :
    (s : Set) → IsWellFormed s → covers s whole_statement ≡ holds s.grants whole_statement
covers-whole s w = rw (covers-covered s whole_statement w) (ground arith)

covers_set_sound :
    (held granted : Set) (t : Statement)
    → IsWellFormed held
    → IsWellFormed granted
    → covers_set held granted ≡ true
    → covers granted t ≡ true
    → covers held t ≡ true
unfolding covers_set
covers_set_sound held granted t wh wg h c = ground (
  arith,
  covers-covered granted t wg,
  covers-covered held t wh,
  covers-holds held granted.grants t h,
  covers-holds held granted.grants whole_statement h,
  covers-holds held granted.grants (any_action t.resource) h,
  covers-holds held granted.grants (any_resource t.action) h,
  covers-whole held wh,
  covers-any_action held t.resource wh,
  covers-any_resource held t.action wh,
)

covers_set_complete :
    (held granted : Set)
    → IsWellFormed granted
    → ((t : Statement) → covers granted t ≡ true → covers held t ≡ true)
    → covers_set held granted ≡ true
unfolding covers_set
covers_set_complete held granted wg h =
    covers_all-of-holds held granted.grants
      (λ t m. h t (rw (covers-covered granted t wg) (ground (arith, m))))

-- For two well-formed sets, `CoversSet` answers true exactly when each statement that the other
-- set covers, a wildcard or not, is covered by this set.
pub covers_set_iff :
    (held granted : Set)
    → IsWellFormed held
    → IsWellFormed granted
    → (covers_set held granted ≡ true)
      ↔ ((t : Statement) → covers granted t ≡ true → covers held t ≡ true)
covers_set_iff held granted wh wg =
    (λ h t. covers_set_sound held granted t wh wg h, covers_set_complete held granted wg)
