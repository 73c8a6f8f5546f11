-- ===== src/Strings/Fields.antt =====
-- `Fields` reads back what `Join` wrote.
use auth_all.Prelude.{
  ℕ, ◌≡◌, refl, sym, ap, ◌∙◌, Bool, true, false, ◌&&◌, not, List, [], ◌∷◌, ◌++◌, Str, codes, arith,
  all, is_empty,
}
use mathlib.Core.List.{append_assoc, append-nil}
use auth_all.Strings.{is_space, fields_from, fields, join}

-- A word is not empty and holds no space.
abbrev pub is_word : Str → Bool
is_word w = not (is_empty w) && all (λ c. not (is_space c)) w

abbrev pub space : Str
space = codes " "

is_space-32 : is_space 32 ≡ true
unfolding is_space
is_space-32 = refl

fields_from-append :
    (w v s : Str)
    → all (λ c. not (is_space c)) v ≡ true
    → fields_from w (v ++ s) ≡ fields_from (w ++ v) s
fields_from-append w [] s h = rw (append-nil w)
fields_from-append w (c ∷ v) s h = step (fields_from-append (w ++ (c ∷ [])) v s (ground arith))
  where
    step :
        fields_from (w ++ (c ∷ [])) (v ++ s) ≡ fields_from ((w ++ (c ∷ [])) ++ v) s
        → fields_from w (c ∷ (v ++ s)) ≡ fields_from (w ++ (c ∷ v)) s
    step e = unfold fields_from in (ground (arith, e, append_assoc w (c ∷ []) v))

fields_from-nil : (w : Str) → is_empty w ≡ false → fields_from w [] ≡ w ∷ []
unfolding fields_from
fields_from-nil w h = ground arith

fields_from-space : (w s : Str) → is_empty w ≡ false → fields_from w (32 ∷ s) ≡ w ∷ fields_from [] s
unfolding fields_from
fields_from-space w s h = ground (arith, is_space-32)

fields_from-word :
    (w s : Str) → is_word w ≡ true → fields_from [] (w ++ (32 ∷ s)) ≡ w ∷ fields_from [] s
fields_from-word w s h =
    fields_from-append [] w (32 ∷ s) (ground arith) ∙ fields_from-space w s (ground arith)

fields_from-last : (w : Str) → is_word w ≡ true → fields_from [] w ≡ w ∷ []
fields_from-last w h =
    ap (fields_from []) (sym (append-nil w))
    ∙ (fields_from-append [] w [] (ground arith) ∙ fields_from-nil w (ground arith))

-- Words joined by one space are the fields of the joined text.
pub fields-join : (ws : List Str) → all is_word ws ≡ true → fields (join ws space) ≡ ws
unfolding fields join
fields-join [] h = unfold fields_from in refl
fields-join (w ∷ []) h = fields_from-last w (ground arith)
fields-join (w ∷ v ∷ ws) h =
    fields_from-word w (join (v ∷ ws) space) (ground arith)
    ∙ ap (◌∷◌ w) (fields-join (v ∷ ws) (ground arith))

fields_from-words :
    (w s : Str) → all (λ c. not (is_space c)) w ≡ true → all is_word (fields_from w s) ≡ true
unfolding fields_from
fields_from-words w [] h = ground arith
fields_from-words w (c ∷ s) h =
    ground (
      arith,
      fields_from-words [] s refl,
      fields_from-words (w ++ (c ∷ [])) s,
      all-append_char w c h,
    )
  where
    all-append_char :
        (w : Str) (c : ℕ)
        → all (λ c. not (is_space c)) w ≡ true
        → is_space c ≡ false
        → all (λ c. not (is_space c)) (w ++ (c ∷ [])) ≡ true
    all-append_char [] c h k = ground (arith, k)
    all-append_char (x ∷ w) c h k = ground (arith, all-append_char w c)

-- The fields of a text are words.
pub fields-words : (s : Str) → all is_word (fields s) ≡ true
unfolding fields
fields-words s = fields_from-words [] s refl
