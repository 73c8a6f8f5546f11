-- ===== src/ApiKeys/Declared.antt =====
-- The scopes of a key are the requested ones, all declared.
use auth_all.Prelude.{
  ℕ, ◌≡◌, ◌↔◌, refl, sym, ◌∙◌, inl, inr, Bool, true, false, List, [], ◌∷◌, Option, some, Str, arith,
  str_beq, str_beq_iff, str_eq, is_empty, all, any, contains, Bool-cases, all-contains,
}
use auth_all.Errors.{Error, ok}
use auth_all.Strings.{fields, join, sort_strings}
use auth_all.Strings.Sorting.{any-sort_strings, all-sort_strings}
use auth_all.Strings.Fields.{is_word, space, fields-join, fields-words}
use auth_all.Roles.{Roles}
use auth_all.Accounts.{User}
use auth_all.Principals.Types.{ApiKey}
use auth_all.ApiKeys.Scopes.{Plugin, compact, normalize_scopes, scopes_of, effective_scopes}
use auth_all.ApiKeys.Resolve.{OrganizationResolver, plain_principal, require_scope}
use auth_all.ApiKeys.Create.{CreateInput, create}
use auth_all.ApiKeys.Granted.{create-cases}

contains-any : (xs : List Str) (q : Str) → contains xs q ≡ any (λ x. str_beq x q) xs
unfolding contains
contains-any [] q = refl
contains-any (x ∷ xs) q = ground (arith, contains-any xs q)

any-compact : (f : Str → Bool) (xs : List Str) → any f (compact xs) ≡ any f xs
unfolding compact
any-compact f [] = refl
any-compact f (x ∷ []) = refl
any-compact f (x ∷ y ∷ xs) = elim (Bool-cases (str_beq x y)) [
  | inl e ↦ ground (arith, e, (str_beq_iff x y).0 e, any-compact f (y ∷ xs))
  | inr e ↦ ground (arith, e, any-compact f (y ∷ xs))
]

all-compact : (f : Str → Bool) (xs : List Str) → all f (compact xs) ≡ all f xs
unfolding compact
all-compact f [] = refl
all-compact f (x ∷ []) = refl
all-compact f (x ∷ y ∷ xs) = elim (Bool-cases (str_beq x y)) [
  | inl e ↦ ground (arith, e, (str_beq_iff x y).0 e, all-compact f (y ∷ xs))
  | inr e ↦ ground (arith, e, all-compact f (y ∷ xs))
]

contains-normalize : (xs : List Str) (q : Str) → contains (normalize_scopes xs) q ≡ contains xs q
unfolding normalize_scopes
contains-normalize xs q =
    contains-any (compact (sort_strings xs)) q
    ∙ (any-compact (λ x. str_beq x q) (sort_strings xs)
        ∙ (any-sort_strings (λ x. str_beq x q) xs ∙ sym (contains-any xs q)))

all-normalize : (f : Str → Bool) (xs : List Str) → all f (normalize_scopes xs) ≡ all f xs
unfolding normalize_scopes
all-normalize f xs = all-compact f (sort_strings xs) ∙ all-sort_strings f xs

join-is_empty : (ws : List Str) → all is_word ws ≡ true → is_empty (join ws space) ≡ is_empty ws
unfolding join
join-is_empty [] h = refl
join-is_empty ([] ∷ ws) h = absurd (ground arith)
join-is_empty ((c ∷ w) ∷ []) h = refl
join-is_empty ((c ∷ w) ∷ v ∷ ws) h = refl

empty-contains : (xs : List Str) (q : Str) → contains xs q ≡ true → is_empty xs ≡ false
unfolding contains
empty-contains [] q h = ground arith
empty-contains (x ∷ xs) q h = refl

-- The stored text of a request for declared scopes.
scopes_of-requested :
    (p : Plugin) (requested scopes : Str)
    → is_empty p.scopes ≡ false
    → is_empty (normalize_scopes (fields requested)) ≡ false
    → scopes_of p requested ≡ ok scopes
    → (scopes ≡ join (normalize_scopes (fields requested)) space)
      × (all (contains p.scopes) (normalize_scopes (fields requested)) ≡ true)
unfolding scopes_of
scopes_of-requested p requested scopes d n h =
    elim (Bool-cases (all (contains p.scopes) (normalize_scopes (fields requested)))) [
      | inl e ↦ ground arith
      | inr e ↦ absurd (ground arith)
    ]

normalize-is_empty : (xs : List Str) → is_empty xs ≡ false → is_empty (normalize_scopes xs) ≡ false
normalize-is_empty [] h = absurd (ground arith)
normalize-is_empty (x ∷ xs) h =
    empty-contains (normalize_scopes (x ∷ xs)) x
      (contains-normalize (x ∷ xs) x ∙ unfold contains in (ground (arith, str_beq_iff x x)))

-- In an application that declares scopes, a created key that asked for scopes holds exactly these:
-- each of them is declared, and the gate of a scope lets the key pass if and only if the request named
-- the scope.
pub create-require_scope :
    (p : Plugin) (roles : Roles) (organizations : Option OrganizationResolver) (digest : Str → Str)
    (before : ApiKey → User → Option Error) (keys : List ApiKey) (owner : User)
    (input : CreateInput) (random id : Str) (now : ℕ) (k : ApiKey) (keys' : List ApiKey)
    → create p roles organizations digest before keys owner input random id now ≡ ok (k, keys')
    → is_empty p.scopes ≡ false
    → is_empty (fields input.scopes) ≡ false
    → (q : Str)
    → ((require_scope q (some (plain_principal p roles organizations k owner)) ≡ ok tt)
        ↔ (contains (fields input.scopes) q ≡ true))
      × (contains (fields input.scopes) q ≡ true → contains p.scopes q ≡ true)
unfolding require_scope effective_scopes
create-require_scope p roles organizations digest before keys owner input random id now k keys' h d
      n q =
    let (scopes, role, expiry, s, r, b, made, c) =
      create-cases p roles organizations digest before keys owner input random id now k keys' h in
    let names = normalize_scopes (fields input.scopes) in
    let full = normalize-is_empty (fields input.scopes) n in
    let (text, declared) = scopes_of-requested p input.scopes scopes d full s in
    let words : all is_word names ≡ true =
      all-normalize is_word (fields input.scopes) ∙ fields-words input.scopes in
    let read : fields scopes ≡ names = rw text (fields-join names words) in
    let solid : is_empty scopes ≡ false = rw text (join-is_empty names words ∙ full) in
    let same = contains-normalize (fields input.scopes) q in
    (
      (ground (arith, made, read, solid, same)),
      λ m. all-contains (contains p.scopes) names q declared (same ∙ m),
    )
