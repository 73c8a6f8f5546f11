-- ===== src/Strings/Tests.antt =====
-- Tests of the string functions.
use auth_all.Prelude.{◌≡◌, refl, [], ◌∷◌, codes}
use auth_all.Strings.{fields, fields_from, is_space, trim_space, trim_left, trim_right}

two_fields : fields (codes "  a:read b:* ") ≡ codes "a:read" ∷ codes "b:*" ∷ []
unfolding fields fields_from is_space
two_fields = refl

trimmed : trim_space (codes "  a b ") ≡ codes "a b"
unfolding trim_space trim_left trim_right is_space
trimmed = refl
