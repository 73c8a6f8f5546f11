-- ===== src/Email.antt =====
-- email/normalize.go. `strings.ToLower` is the parameter `lower`; `mail.ParseAddress`, as the address
-- that it finds, is the parameter `parse_address`.
use auth_all.Prelude.{
  ℕ, Bool, false, ◌&&◌, ◌||◌, not, [], ◌∷◌, Option, none, some, Str, codes, leb, if◌then◌else◌,
  ◌==◌, nat_eq, str_eq, any, is_empty,
}
use auth_all.Strings.{trim_space, byte_length}

-- The address that lookups use.
unfoldable pub normalize : (lower : Str → Str) → Str → Str
normalize lower address = lower (trim_space address)

-- `strings.ContainsAny`.
unfoldable pub contains_any : Str → Str → Bool
contains_any s chars = any (λ c. any (λ x. x == c) chars) s

-- The texts before and after the last character of its kind.
unfoldable pub cut_last : ℕ → Str → Option (Str × Str)
cut_last c [] = none
cut_last c (x ∷ s) = elim (cut_last c s) [
  | some (before, behind) ↦ some (x ∷ before, behind)
  | none ↦ if x == c then some ([], s) else none
]

-- A local part, and a domain with a dot.
unfoldable pub has_domain : Str → Bool
has_domain address = elim (cut_last b'@' address) [
  | none ↦ false
  | some (before, behind) ↦
      not (is_empty before) && (not (is_empty behind) && any (λ c. c == b'.') behind)
]

unfoldable pub valid : (parse_address : Str → Option Str) → Str → Bool
valid parse_address raw =
    let address = trim_space raw in
    not (is_empty address || not (leb (byte_length address) 320))
    && (not (contains_any address (codes " \t\r\n<>,;\""))
        && (elim (parse_address address) [ none ↦ false | some found ↦ found == address ]
            && has_domain address))
