-- ===== src/Permission/Tests.antt =====
-- Tests and witnesses of the permission statements.
use auth_all.Prelude.{◌≡◌, refl, false, none, some, codes, str_beq}
use auth_all.Permission.{parse, cut, valid_segment, allowed_char}

parse_member :
    parse (codes "member:write")
    ≡ some (record { resource = codes "member"; action = codes "write"; whole = false })
unfolding parse cut valid_segment allowed_char str_beq
parse_member = refl

parse_two_colons : parse (codes "a:b:c") ≡ none
unfolding parse cut valid_segment allowed_char str_beq
parse_two_colons = refl
