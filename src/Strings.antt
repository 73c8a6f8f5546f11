-- ===== src/Strings.antt =====
-- The functions of Go's package strings, and `sort.Strings`, that the program calls. A string is the
-- list of its code points; code points order strings as their UTF-8 bytes do.
pub mod Fields
pub mod Sorting
mod Tests
use auth_all.Prelude.{
  ◌+◌, ltb, ℕ, Bool, true, false, ◌&&◌, ◌||◌, not, List, [], ◌∷◌, ◌++◌, Option, none, some, Str,
  codes, str_beq, leb, zero, suc, if◌then◌else◌, ◌==◌, nat_eq, str_eq, all, is_empty,
}

-- `unicode.IsSpace`.
unfoldable pub is_space : ℕ → Bool
is_space c =
    (leb 9 c && leb c 13)
    || (c == 32
        || (c == 0x85
            || (c == 0xa0
                || (c == 0x1680
                    || ((leb 0x2000 c && leb c 0x200a)
                        || (c == 0x2028
                            || (c == 0x2029 || (c == 0x202f || (c == 0x205f || c == 0x3000)))))))))

-- The words of the text, where `word` is what has been read of the current one.
unfoldable pub fields_from : Str → Str → List Str
fields_from word [] = if is_empty word then [] else word ∷ []
fields_from word (c ∷ s) =
    let next = fields_from [] s in
    let longer = fields_from (word ++ (c ∷ [])) s in
    if is_space c then (if is_empty word then next else word ∷ next) else longer

unfoldable pub fields : Str → List Str
fields s = fields_from [] s

unfoldable pub join : List Str → Str → Str
join [] sep = []
join (x ∷ []) sep = x
join (x ∷ y ∷ rest) sep = x ++ (sep ++ join (y ∷ rest) sep)

unfoldable pub trim_left : Str → Str
trim_left [] = []
trim_left (c ∷ s) = let rest = trim_left s in if is_space c then rest else c ∷ s

unfoldable pub trim_right : Str → Str
trim_right [] = []
trim_right (c ∷ s) = let rest = trim_right s in if is_empty rest && is_space c then [] else c ∷ rest

unfoldable pub trim_space : Str → Str
trim_space s = trim_left (trim_right s)

unfoldable pub str_leb : Str → Str → Bool
str_leb [] b = true
str_leb (x ∷ a) [] = false
str_leb (x ∷ a) (y ∷ b) = let rest = str_leb a b in if x == y then rest else ltb x y

unfoldable pub insert_sorted : Str → List Str → List Str
insert_sorted x [] = x ∷ []
insert_sorted x (y ∷ ys) =
    let rest = insert_sorted x ys in if str_leb x y then x ∷ (y ∷ ys) else y ∷ rest

unfoldable pub sort_strings : List Str → List Str
sort_strings [] = []
sort_strings (x ∷ xs) = insert_sorted x (sort_strings xs)

-- The length of the UTF-8 text, Go's `len`.
unfoldable pub byte_length : Str → ℕ
byte_length [] = 0
byte_length (c ∷ s) =
    (if ltb c 0x80 then 1 else if ltb c 0x800 then 2 else if ltb c 0x10000 then 3 else 4)
    + byte_length s

-- What follows the prefix, when the text has it.
unfoldable pub after_prefix : Str → Str → Option Str
after_prefix s [] = some s
after_prefix [] (c ∷ prefix) = none
after_prefix (x ∷ s) (c ∷ prefix) =
    let rest = after_prefix s prefix in if x == c then rest else none

unfoldable pub has_prefix : Str → Str → Bool
unfolding after_prefix
has_prefix s prefix = elim (after_prefix s prefix) [ none ↦ false | some rest ↦ true ]

unfoldable pub trim_prefix : Str → Str → Str
unfolding after_prefix
trim_prefix s prefix = elim (after_prefix s prefix) [ none ↦ s | some rest ↦ rest ]

-- Simple case folding of a code point, as far as an ASCII letter is in its orbit.
unfoldable pub fold_char : ℕ → ℕ
fold_char c =
    if leb 65 c && leb c 90
    then c + 32
    else if c == 0x17f
    then 115
    else if c == 0x212a
    then 107
    else c

-- `strings.EqualFold`, where the second text is ASCII.
unfoldable pub equal_fold : Str → Str → Bool
unfolding fold_char
equal_fold [] [] = true
equal_fold (x ∷ xs) (y ∷ ys) = fold_char x == fold_char y && equal_fold xs ys
equal_fold _ _ = false

abbrev pub take : ℕ → Str → Str
take zero s = []
take (suc n) [] = []
take (suc n) (c ∷ s) = c ∷ take n s

abbrev pub drop : ℕ → Str → Str
drop zero s = s
drop (suc n) [] = []
drop (suc n) (c ∷ s) = drop n s
