-- ===== src/Permission/Texts.antt =====
-- The written statements of a set, and the set that they give when they are read again.
use auth_all.Prelude.{
  ℕ, ◌≡◌, refl, ◌∙◌, subst, inl, inr, Bool, true, false, ◌&&◌, ◌||◌, not, List, [], ◌∷◌, ◌++◌, Str,
  arith, all, any, is_empty, none, some, Option-cases, Bool-cases, str_beq, str_beq_iff,
}
use auth_all.Strings.{sort_strings, join, fields, is_space}
use auth_all.Strings.Sorting.{any-sort_strings, all-sort_strings}
use auth_all.Strings.Fields.{is_word, space, fields-join}
use auth_all.Permission.{
  wildcard, colon, Statement, Set, empty, parse, to_string, holds, statement_beq, add, add_parsed,
  new_set, statements, valid_segment, allowed_char,
}
use auth_all.Permission.Grammar.{IsValid, parse-IsValid, parse-to_string}
use auth_all.Permission.Equality.{statement_beq_iff}
use auth_all.Permission.Wellformed.{holds-add}

-- The text `raw` is a statement equal to `q`.
unfoldable pub reads_as : Statement → Str → Bool
reads_as q raw = elim (parse raw) [ none ↦ false | some t ↦ statement_beq t q ]

holds-add_parsed :
    (s : Set) (raws : List Str) (r : Set) (q : Statement)
    → add_parsed s raws ≡ some r
    → holds r.grants q ≡ (holds s.grants q || any (reads_as q) raws)
unfolding add_parsed reads_as
holds-add_parsed s [] r q h = ground arith
holds-add_parsed s (raw ∷ rest) r q h = elim (Option-cases (parse raw)) [
  | inl e ↦ ground arith
  | inr (t, e) ↦ ground (arith, holds-add_parsed (add s t) rest r q, holds-add s t q)
]

-- `NewSet` holds a statement exactly when one of the texts reads as it.
pub holds-new_set :
    (raws : List Str) (r : Set) (q : Statement)
    → new_set raws ≡ some r
    → holds r.grants q ≡ any (reads_as q) raws
unfolding new_set
holds-new_set raws r q h = unfold holds in holds-add_parsed empty raws r q h

unfoldable pub can_parse : Str → Bool
can_parse raw = elim (parse raw) [ none ↦ false | some t ↦ true ]

add_parsed_total :
    (s : Set) (raws : List Str)
    → all can_parse raws ≡ true
    → (r : Set) × (add_parsed s raws ≡ some r)
unfolding add_parsed can_parse
add_parsed_total s [] h = (s, refl)
add_parsed_total s (raw ∷ rest) h = elim (Option-cases (parse raw)) [
  | inl e ↦ absurd (ground arith)
  | inr (t, e) ↦
      let (r, p) = add_parsed_total (add s t) rest (ground arith) in (r, ground (arith, p))
]

-- The texts of a set's statements are kept beside them.
pub record IsSourced (s : Set) : Type 0 where
  pub words : all is_word s.sources ≡ true
  pub readable : all can_parse s.sources ≡ true
  pub same : (q : Statement) → any (reads_as q) s.sources ≡ holds s.grants q

allowed-not-space : (c : ℕ) → allowed_char c ≡ true → is_space c ≡ false
unfolding allowed_char is_space
allowed-not-space c h = ground arith

all-not-space : (s : Str) → all allowed_char s ≡ true → all (λ c. not (is_space c)) s ≡ true
all-not-space [] h = refl
all-not-space (c ∷ s) h = ground (arith, allowed-not-space c, all-not-space s)

segment-not-space : (s : Str) → valid_segment s ≡ true → all (λ c. not (is_space c)) s ≡ true
unfolding valid_segment
segment-not-space s h = elim (Bool-cases (str_beq s wildcard)) [
  | inl e ↦ rw ((str_beq_iff s wildcard).0 e) (unfold is_space in refl)
  | inr e ↦ all-not-space s (ground arith)
]

all-append : (p : ℕ → Bool) (xs ys : Str) → all p (xs ++ ys) ≡ (all p xs && all p ys)
all-append p [] ys = refl
all-append p (x ∷ xs) ys = ground (arith, all-append p xs ys)

is_empty-append : (xs ys : Str) (y : ℕ) → is_empty (xs ++ (y ∷ ys)) ≡ false
is_empty-append [] ys y = refl
is_empty-append (x ∷ xs) ys y = refl

to_string-is_word : (t : Statement) → IsValid t → is_word (to_string t) ≡ true
unfolding to_string is_space
to_string-is_word t (inl (w, r, a)) = ground arith
to_string-is_word t (inr (w, r, a)) = ground (
  arith,
  is_empty-append t.resource t.action colon,
  all-append (λ c. not (is_space c)) t.resource (colon ∷ t.action),
  segment-not-space t.resource r,
  segment-not-space t.action a,
)

reads_as-to_string : (t q : Statement) → IsValid t → reads_as q (to_string t) ≡ statement_beq t q
unfolding reads_as
reads_as-to_string t q v = rw (parse-to_string t v, reads_as)

can_parse-to_string : (t : Statement) → IsValid t → can_parse (to_string t) ≡ true
unfolding can_parse
can_parse-to_string t v = rw (parse-to_string t v, can_parse)

module _ (p : Str → Bool) where
  all-append_str : (xs ys : List Str) → all p (xs ++ ys) ≡ (all p xs && all p ys)
  all-append_str [] ys = refl
  all-append_str (x ∷ xs) ys = ground (arith, all-append_str xs ys)

  any-append_str : (xs ys : List Str) → any p (xs ++ ys) ≡ (any p xs || any p ys)
  any-append_str [] ys = refl
  any-append_str (x ∷ xs) ys = ground (arith, any-append_str xs ys)

pub add-IsSourced : (s : Set) (t : Statement) → IsSourced s → IsValid t → IsSourced (add s t)
unfolding add
add-IsSourced s t i v = record {
  words =
      ground (
        arith,
        i.words,
        all-append_str is_word s.sources (to_string t ∷ []),
        to_string-is_word t v,
      );
  readable = ground (
    arith,
    i.readable,
    all-append_str can_parse s.sources (to_string t ∷ []),
    can_parse-to_string t v,
  );
  same = λ q.
      unfold holds in
      ground (
        arith,
        i.same q,
        any-append_str (reads_as q) s.sources (to_string t ∷ []),
        reads_as-to_string t q v,
        statement_beq_iff t q,
      );
}

pub empty-IsSourced : IsSourced empty
unfolding holds
empty-IsSourced = record { words = refl; readable = refl; same = λ q. refl }

add_parsed-IsSourced :
    (s : Set) (raws : List Str) (r : Set) → IsSourced s → add_parsed s raws ≡ some r → IsSourced r
unfolding add_parsed
add_parsed-IsSourced s [] r i h = subst IsSourced (ground arith) i
add_parsed-IsSourced s (raw ∷ rest) r i h = elim (Option-cases (parse raw)) [
  | inl e ↦ absurd (ground arith)
  | inr (t, e) ↦
      add_parsed-IsSourced (add s t) rest r (add-IsSourced s t i (parse-IsValid raw t e))
        (ground arith)
]

pub new_set-IsSourced : (raws : List Str) (r : Set) → new_set raws ≡ some r → IsSourced r
unfolding new_set
new_set-IsSourced raws r h = add_parsed-IsSourced empty raws r empty-IsSourced h

-- The sorted texts of a set, joined by one space, are the column of a custom role. They are read
-- back as a set that holds the same statements.
pub reread :
    (s : Set)
    → IsSourced s
    → (r : Set) × (new_set (fields (join (statements s) space)) ≡ some r)
      × ((q : Statement) → holds r.grants q ≡ holds s.grants q)
unfolding statements new_set
reread s i =
    let back : fields (join (sort_strings s.sources) space) ≡ sort_strings s.sources =
      fields-join (sort_strings s.sources) (all-sort_strings is_word s.sources ∙ i.words) in
    let (r, p) =
      add_parsed_total empty (sort_strings s.sources)
        (all-sort_strings can_parse s.sources ∙ i.readable) in
    (
      r,
      rw back p,
      λ q.
          holds-new_set (sort_strings s.sources) r q p
          ∙ (any-sort_strings (reads_as q) s.sources ∙ i.same q),
    )
