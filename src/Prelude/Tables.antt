-- ===== src/Prelude/Tables.antt =====
-- A table of the database as the list of its rows, and the statements on it.
use Prim.Native.Nat.{ℕ, suc}
use mathlib.Core.Path.{◌≡◌, refl}
use mathlib.Core.Bool.{Bool, true, false}
use mathlib.Core.Option.{Option, none, some}
use mathlib.Core.List.{List, [], ◌∷◌}
use native.Mathlib.Omega.{arith}
use auth_all.Prelude.Tests.{if◌then◌else◌}
use auth_all.Prelude.Lists.{any, all}

module _ {ℓ} {A : Type ℓ} where
  -- SELECT … WHERE p, for at most one row
  unfoldable pub find_where : (A → Bool) → List A → Option A
  find_where p [] = none
  find_where p (x ∷ xs) = let rest = find_where p xs in if p x then some x else rest

  -- UPDATE … SET f WHERE p
  unfoldable pub update_where : (A → Bool) → (A → A) → List A → List A
  update_where p f [] = []
  update_where p f (x ∷ xs) = let rest = update_where p f xs in if p x then f x ∷ rest else x ∷ rest

  -- DELETE … WHERE p
  unfoldable pub delete_where : (A → Bool) → List A → List A
  delete_where p [] = []
  delete_where p (x ∷ xs) = let rest = delete_where p xs in if p x then rest else x ∷ rest

  -- SELECT COUNT(*) … WHERE p
  unfoldable pub count_where : (A → Bool) → List A → ℕ
  count_where p [] = 0
  count_where p (x ∷ xs) = let rest = count_where p xs in if p x then suc rest else rest

  pub find_where-some : (p : A → Bool) (xs : List A) (a : A) → find_where p xs ≡ some a → p a ≡ true
  unfolding find_where
  find_where-some p [] a h = ground arith
  find_where-some p (x ∷ xs) a h = ground (arith, find_where-some p xs a)

  pub find_where-none : (p : A → Bool) (xs : List A) → find_where p xs ≡ none → any p xs ≡ false
  unfolding find_where
  find_where-none p [] h = refl
  find_where-none p (x ∷ xs) h = ground (arith, find_where-none p xs)

  pub find_where-any :
      (p : A → Bool) (xs : List A) (a : A) → find_where p xs ≡ some a → any p xs ≡ true
  unfolding find_where
  find_where-any p [] a h = ground arith
  find_where-any p (x ∷ xs) a h = ground (arith, find_where-any p xs a)

  -- A row that a deletion does not meet stays.
  pub any-delete_where :
      (p q : A → Bool) (xs : List A)
      → ((x : A) → q x ≡ true → p x ≡ false)
      → any q (delete_where p xs) ≡ any q xs
  unfolding delete_where
  any-delete_where p q [] h = refl
  any-delete_where p q (x ∷ xs) h = ground (arith, h x, any-delete_where p q xs h)

  pub any-delete_where_self : (p : A → Bool) (xs : List A) → any p (delete_where p xs) ≡ false
  unfolding delete_where
  any-delete_where_self p [] = refl
  any-delete_where_self p (x ∷ xs) = ground (arith, any-delete_where_self p xs)

  pub find_where-delete_where :
      (p : A → Bool) (xs : List A) → find_where p (delete_where p xs) ≡ none
  unfolding delete_where find_where
  find_where-delete_where p [] = refl
  find_where-delete_where p (x ∷ xs) = ground (arith, find_where-delete_where p xs)

  -- A row that an update does not meet stays as it is.
  pub any-update_where :
      (p q : A → Bool) (f : A → A) (xs : List A)
      → ((x : A) → q x ≡ true → p x ≡ false)
      → any q xs ≡ true
      → any q (update_where p f xs) ≡ true
  unfolding update_where
  any-update_where p q f [] h m = m
  any-update_where p q f (x ∷ xs) h m = ground (arith, h x, any-update_where p q f xs h)

  -- An updated row that still passes the test is the row found.
  pub find_where-update_where :
      (p : A → Bool) (f : A → A) (xs : List A) (a : A)
      → ((x : A) → p x ≡ true → p (f x) ≡ true)
      → find_where p xs ≡ some a
      → find_where p (update_where p f xs) ≡ some (f a)
  unfolding find_where update_where
  find_where-update_where p f [] a h e = ground arith
  find_where-update_where p f (x ∷ xs) a h e =
      ground (arith, h x, find_where-update_where p f xs a h)

  -- A row found after a deletion is one that the deletion does not meet.
  pub delete_where-found :
      (p q : A → Bool) (xs : List A) (a : A)
      → find_where p (delete_where q xs) ≡ some a
      → q a ≡ false
  unfolding find_where delete_where
  delete_where-found p q [] a h = ground arith
  delete_where-found p q (x ∷ xs) a h = ground (arith, delete_where-found p q xs a)

  -- What each row passes, each row passes after an update that keeps it, and after a deletion.
  pub all-update_where :
      (t p : A → Bool) (f : A → A) (xs : List A)
      → ((x : A) → t x ≡ true → t (f x) ≡ true)
      → all t xs ≡ true
      → all t (update_where p f xs) ≡ true
  unfolding update_where
  all-update_where t p f [] k h = refl
  all-update_where t p f (x ∷ xs) k h = ground (arith, k x, all-update_where t p f xs k)

  pub all-delete_where :
      (t p : A → Bool) (xs : List A) → all t xs ≡ true → all t (delete_where p xs) ≡ true
  unfolding delete_where
  all-delete_where t p [] h = refl
  all-delete_where t p (x ∷ xs) h = ground (arith, all-delete_where t p xs)

  -- A row that is found passes what each row passes.
  pub all-find_where :
      (t p : A → Bool) (xs : List A) (a : A)
      → all t xs ≡ true
      → find_where p xs ≡ some a
      → t a ≡ true
  unfolding find_where
  all-find_where t p [] a h f = ground arith
  all-find_where t p (x ∷ xs) a h f = ground (arith, all-find_where t p xs a)
