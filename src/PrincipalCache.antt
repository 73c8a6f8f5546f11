-- ===== src/PrincipalCache.antt =====
-- principalcache.go: the cache of resolved principals. The type of a principal and SHA-256 in `cacheKey`
-- are the parameters `Principal` and `digest`; the clock is an argument. The mutex makes each call one
-- step.
pub mod Staleness
pub mod Kept
use auth_all.Prelude.{
  ℕ, ◌+◌, Bool, true, false, not, List, [], ◌∷◌, Option, none, some, Str, str_beq, ltb,
  if◌then◌else◌, ◌==◌, str_eq, length, find_where, delete_where,
}

pub record CacheEntry (Principal : Type 0) : Type 0 where
  pub key : Str
  pub principal : Principal
  pub expires : ℕ

-- The size from which `put` drops the ended entries.
abbrev pub full_size : ℕ
full_size = 4096

module _ {Principal : Type 0} (digest : Str → Str) where
  -- `get`: the answer and the entries left.
  unfoldable pub get :
      List (CacheEntry Principal) → Str → ℕ → Option Principal × List (CacheEntry Principal)
  get entries credential now = elim (find_where (λ e. e.key == digest credential) entries) [
    | none ↦ (none, entries)
    | some e ↦
        if not (ltb now e.expires)
        then (none, delete_where (λ x. x.key == digest credential) entries)
        else (some e.principal, entries)
  ]

  -- The loop of `put` over a full map.
  unfoldable pub dropped_ended : List (CacheEntry Principal) → ℕ → List (CacheEntry Principal)
  dropped_ended entries now =
      if ltb full_size (length entries)
      then delete_where (λ e. not (ltb now e.expires)) entries
      else entries

  -- `put`.
  unfoldable pub put :
      ℕ → List (CacheEntry Principal) → Str → Principal → ℕ → List (CacheEntry Principal)
  unfolding dropped_ended
  put ttl entries credential p now =
      record { key = digest credential; principal = p; expires = now + ttl }
      ∷ delete_where (λ e. e.key == digest credential) (dropped_ended entries now)
