-- ===== src/ApiKeys/Scopes.antt =====
-- plugins/apikeys/apikeys.go: the configuration of the plugin and the scopes of a key.
use auth_all.Prelude.{
  ℕ, Bool, false, ◌&&◌, ◌||◌, not, List, [], ◌∷◌, Option, none, some, Str, leb, if◌then◌else◌, ◌==◌,
  nat_eq, str_eq, all, is_empty, contains, length,
}
use auth_all.Errors.{Result, ok, err, scope_unknown, private_error, guard, ◌>>◌}
use auth_all.Strings.{fields, join, sort_strings}
use auth_all.Strings.Fields.{space}
use auth_all.Principals.Types.{ResolvedPrincipal, method_session, scope_list}

pub record Plugin : Type 0 where
  pub prefix : Str
  pub max_ttl : ℕ
  pub require_expiry : Bool
  pub touch_interval : ℕ
  pub admin_role : Str
  pub scopes : List Str
  pub default_scopes : List Str
  pub defaults_set : Bool

abbrev pub is_lower : ℕ → Bool
is_lower c = leb 97 c && leb c 122

abbrev pub is_digit : ℕ → Bool
is_digit c = leb 48 c && leb c 57

-- `^[a-z][a-z0-9_]{1,15}$`
unfoldable pub matches_prefix_pattern : Str → Bool
matches_prefix_pattern [] = false
matches_prefix_pattern (c ∷ rest) =
    is_lower c
    && (all (λ x. is_lower x || (is_digit x || x == 95)) rest
        && (leb 1 (length rest) && leb (length rest) 15))

-- `^[a-z][a-z0-9_:.-]{0,63}$`
unfoldable pub matches_scope_pattern : Str → Bool
matches_scope_pattern [] = false
matches_scope_pattern (c ∷ rest) =
    is_lower c
    && (all (λ x. is_lower x || (is_digit x || (x == 95 || (x == 58 || (x == 46 || x == 45))))) rest
        && leb (length rest) 63)

-- `slices.Compact`.
unfoldable pub compact : List Str → List Str
compact [] = []
compact (x ∷ []) = x ∷ []
compact (x ∷ y ∷ rest) = let tail = compact (y ∷ rest) in if x == y then tail else x ∷ tail

unfoldable pub normalize_scopes : List Str → List Str
normalize_scopes names = compact (sort_strings names)

-- The refusals of `checkScopes`; the text of an error is left out.
unfoldable pub check_scopes : Plugin → Result (Unit {0})
unfolding matches_scope_pattern
check_scopes p = do
  guard (all matches_scope_pattern p.scopes) (private_error 0)
  if not p.defaults_set then ok tt else (do
    guard (not (is_empty p.default_scopes)) (private_error 0)
    guard (all (contains p.scopes) p.default_scopes) (private_error 0))

unfoldable pub fallback_scopes : Plugin → Str
fallback_scopes p = if p.defaults_set then join p.default_scopes space else join p.scopes space

unfoldable pub scopes_of : Plugin → Str → Result Str
unfolding fallback_scopes normalize_scopes
scopes_of p requested =
    let names = normalize_scopes (fields requested) in
    if is_empty p.scopes
    then (if is_empty names then ok [] else err scope_unknown)
    else if is_empty names
    then ok (fallback_scopes p)
    else if all (contains p.scopes) names
    then ok (join names space)
    else err scope_unknown

unfoldable pub effective_scopes : Plugin → Str → Str
unfolding fallback_scopes
effective_scopes p stored =
    if is_empty p.scopes then [] else if is_empty stored then fallback_scopes p else stored

-- `HasScope` of the plugin.
unfoldable pub has_scope : Option ResolvedPrincipal → Str → Bool
unfolding scope_list
has_scope none scope = false
has_scope (some p) scope = elim p.api_key [
  | some k ↦ is_empty k.scopes || contains (scope_list k) scope
  | none ↦ p.method == method_session
]
