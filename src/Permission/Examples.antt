-- ===== src/Permission/Examples.antt =====
-- Sets of a few statements.
use auth_all.Prelude.{some, ◌≡◌, refl, ◌↔◌, ◌≢◌, true, false, [], ◌∷◌, codes, str_beq, arith, some}
use auth_all.Permission.{
  Statement, Set, covers, covers_set, holds, statement_beq, add, new_set, parse, to_string,
  valid_segment, allowed_char, cut, add_parsed,
}
use auth_all.Permission.Grammar.{to_string-parse}
use auth_all.Permission.Wellformed.{IsWellFormed, new_set-IsWellFormed}
use auth_all.Permission.Coverage.{covers_set_iff}
use auth_all.Permission.Reach.{covers-add-star_star, star_star}

abbrev member_all : Statement
member_all = record { resource = codes "member"; action = codes "*"; whole = false }

abbrev member_write : Statement
member_write = record { resource = codes "member"; action = codes "write"; whole = false }

abbrev broad : Set
broad = record { every = false; grants = member_all ∷ []; sources = codes "member:*" ∷ [] }

abbrev narrow : Set
narrow = record { every = false; grants = member_write ∷ []; sources = codes "member:write" ∷ [] }

broad-IsWellFormed : IsWellFormed broad
unfolding new_set add_parsed parse cut valid_segment allowed_char add holds statement_beq str_beq
    to_string
broad-IsWellFormed = new_set-IsWellFormed (codes "member:*" ∷ []) broad refl

narrow-IsWellFormed : IsWellFormed narrow
unfolding new_set add_parsed parse cut valid_segment allowed_char add holds statement_beq str_beq
    to_string
narrow-IsWellFormed = new_set-IsWellFormed (codes "member:write" ∷ []) narrow refl

covers_set_iff_example :
    (covers_set broad narrow ≡ true)
    ↔ ((t : Statement) → covers narrow t ≡ true → covers broad t ≡ true)
covers_set_iff_example = covers_set_iff broad narrow broad-IsWellFormed narrow-IsWellFormed

to_string-parse_example : to_string member_write ≡ codes "member:write"
unfolding parse cut valid_segment allowed_char str_beq
to_string-parse_example = to_string-parse (codes "member:write") member_write refl

member_write-not_star : member_write ≢ star_star
member_write-not_star = ground arith

covers-add-star_star_example :
    (parse (codes "*:*") ≡ some star_star)
    × (covers (add narrow star_star) member_write ≡ covers narrow member_write)
covers-add-star_star_example =
    covers-add-star_star narrow member_write narrow-IsWellFormed member_write-not_star
