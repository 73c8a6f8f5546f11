-- ===== src/Permission.antt =====
-- plugins/organizations/permission/permission.go: permission statements and sets of statements.
-- A Go string is the list of its code points. An error of `Parse` is `none`: its text is left out.
-- A Go map from statements is the list of its keys; the order stands for one iteration order.
use auth_all.Strings.{sort_strings}
mod Examples
pub mod Grammar
pub mod Equality
pub mod Wellformed
pub mod Coverage
pub mod Reach
pub mod Texts
mod Tests
use auth_all.Prelude.{
  ℕ, Bool, true, false, ◌&&◌, ◌||◌, not, List, [], ◌∷◌, ◌++◌, Option, none, some, Str, codes,
  str_beq, leb, if◌then◌else◌, ◌==◌, nat_eq, str_eq, all, is_empty,
}

abbrev pub wildcard : Str
wildcard = codes "*"

abbrev pub colon : ℕ
colon = b':'

pub record Statement : Type 0 where
  pub resource : Str
  pub action : Str
  pub whole : Bool

unfoldable pub statement_beq : Statement → Statement → Bool
statement_beq a b =
    a.resource == b.resource && (a.action == b.action && (if a.whole then b.whole else not b.whole))

-- `strings.Cut(s, ":")`: the text before and after the first colon.
unfoldable pub cut : Str → Option (Str × Str)
cut [] = none
cut (c ∷ s) =
    let rest = cut s in
    if c == colon then some ([], s) else elim rest [ none ↦ none | some p ↦ some (c ∷ p.0, p.1) ]

-- The cases of the `switch` in `validSegment`.
unfoldable pub allowed_char : ℕ → Bool
allowed_char r =
    (leb b'a' r && leb r b'z')
    || ((leb b'0' r && leb r b'9') || (r == b'_' || (r == b'.' || r == b'-')))

unfoldable pub valid_segment : Str → Bool
valid_segment seg =
    if seg == wildcard then true else if is_empty seg then false else all allowed_char seg

unfoldable pub parse : Str → Option Statement
parse s =
    if s == wildcard
    then some (record { resource = []; action = []; whole = true })
    else elim (cut s) [
      | none ↦ none
      | some p ↦
          if not (valid_segment p.0)
          then none
          else if not (valid_segment p.1)
          then none
          else some (record { resource = p.0; action = p.1; whole = false })
    ]

unfoldable pub to_string : Statement → Str
to_string s = if s.whole then wildcard else s.resource ++ (colon ∷ s.action)

pub record Set : Type 0 where
  pub every : Bool
  pub grants : List Statement
  pub sources : List Str

-- The zero value.
abbrev pub empty : Set
empty = record { every = false; grants = []; sources = [] }

-- `_, held := s.grants[stmt]`
unfoldable pub holds : List Statement → Statement → Bool
holds [] t = false
holds (g ∷ gs) t = statement_beq g t || holds gs t

unfoldable pub add : Set → Statement → Set
add s t =
    let s' = if t.whole then record s { every = true } else s in
    if holds s'.grants t
    then s'
    else record s' { grants = t ∷ s'.grants; sources = s'.sources ++ (to_string t ∷ []) }

-- The loop of `NewSet`.
unfoldable pub add_parsed : Set → List Str → Option Set
add_parsed s [] = some s
add_parsed s (raw ∷ rest) = elim (parse raw) [ none ↦ none | some t ↦ add_parsed (add s t) rest ]

unfoldable pub new_set : List Str → Option Set
new_set statements = add_parsed empty statements

-- `Statements`.
unfoldable pub statements : Set → List Str
statements s = sort_strings s.sources

unfoldable pub is_empty_set : Set → Bool
is_empty_set s = is_empty s.grants

unfoldable pub covers : Set → Statement → Bool
covers s t =
    if s.every
    then true
    else if is_empty s.grants
    then false
    else if holds s.grants t
    then true
    else if t.whole
    then false
    else if not (t.resource == wildcard)
        && holds s.grants (record { resource = t.resource; action = wildcard; whole = false })
    then true
    else not (t.action == wildcard)
      && holds s.grants (record { resource = wildcard; action = t.action; whole = false })

unfoldable pub allows : Set → Str → Bool
allows s statement = elim (parse statement) [ none ↦ false | some t ↦ covers s t ]

unfoldable pub add_all : Set → List Statement → Set
add_all s [] = s
add_all s (t ∷ ts) = add_all (add s t) ts

-- `Union` with one other set; the variadic form is a chain of these.
unfoldable pub union : Set → Set → Set
union s other = add_all (add_all empty s.grants) other.grants

unfoldable pub covers_all : Set → List Statement → Bool
covers_all s [] = true
covers_all s (t ∷ ts) = covers s t && covers_all s ts

unfoldable pub covers_set : Set → Set → Bool
covers_set s other = covers_all s other.grants
