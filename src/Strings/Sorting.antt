-- ===== src/Strings/Sorting.antt =====
-- Sorting keeps the members of a list.
use auth_all.Prelude.{◌≡◌, refl, Bool, true, false, ◌&&◌, ◌||◌, List, [], ◌∷◌, Str, arith, all, any}
use auth_all.Strings.{str_leb, insert_sorted, sort_strings}

any-insert_sorted :
    (p : Str → Bool) (x : Str) (xs : List Str) → any p (insert_sorted x xs) ≡ (p x || any p xs)
unfolding insert_sorted
any-insert_sorted p x [] = refl
any-insert_sorted p x (y ∷ ys) = ground (arith, any-insert_sorted p x ys)

-- Some string of the sorted list passes a test exactly when some string of the list does.
pub any-sort_strings : (p : Str → Bool) (xs : List Str) → any p (sort_strings xs) ≡ any p xs
unfolding sort_strings
any-sort_strings p [] = refl
any-sort_strings p (x ∷ xs) =
    ground (arith, any-insert_sorted p x (sort_strings xs), any-sort_strings p xs)

all-insert_sorted :
    (p : Str → Bool) (x : Str) (xs : List Str) → all p (insert_sorted x xs) ≡ (p x && all p xs)
unfolding insert_sorted
all-insert_sorted p x [] = refl
all-insert_sorted p x (y ∷ ys) = ground (arith, all-insert_sorted p x ys)

pub all-sort_strings : (p : Str → Bool) (xs : List Str) → all p (sort_strings xs) ≡ all p xs
unfolding sort_strings
all-sort_strings p [] = refl
all-sort_strings p (x ∷ xs) =
    ground (arith, all-insert_sorted p x (sort_strings xs), all-sort_strings p xs)

-- The head of a list is not above the next string, all along the list.
abbrev pub IsSorted : List Str → Type 0
IsSorted [] = Unit
IsSorted (x ∷ []) = Unit
IsSorted (x ∷ y ∷ ys) = (str_leb x y ≡ true) × IsSorted (y ∷ ys)

str_leb-total : (a b : Str) → str_leb a b ≡ false → str_leb b a ≡ true
unfolding str_leb
str_leb-total [] b h = ground arith
str_leb-total (x ∷ a) [] h = refl
str_leb-total (x ∷ a) (y ∷ b) h = ground (arith, str_leb-total a b)

insert_sorted-IsSorted : (x : Str) (xs : List Str) → IsSorted xs → IsSorted (insert_sorted x xs)
unfolding insert_sorted
insert_sorted-IsSorted x [] h = tt
insert_sorted-IsSorted x (y ∷ []) h = ground (arith, str_leb-total x y)
insert_sorted-IsSorted x (y ∷ z ∷ zs) h =
    ground (arith, str_leb-total x y, insert_sorted-IsSorted x (z ∷ zs))

pub sort_strings-IsSorted : (xs : List Str) → IsSorted (sort_strings xs)
unfolding sort_strings
sort_strings-IsSorted [] = tt
sort_strings-IsSorted (x ∷ xs) =
    insert_sorted-IsSorted x (sort_strings xs) (sort_strings-IsSorted xs)
