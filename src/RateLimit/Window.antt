-- ===== src/RateLimit/Window.antt =====
-- The bound of one window, and the two limiters side by side.
use auth_all.Prelude.{
  ℕ, suc, ◌+◌, ◌-◌, ◌≡◌, inl, inr, true, List, [], ◌∷◌, Option, some, Str, arith, str_beq_iff,
  str_beq_refl, ltb, leb, if◌then◌else◌, ◌==◌, nat_eq, str_eq, length, all, find_where, Bool-cases,
  find_where-some,
}
use auth_all.RateLimit.{Memory, Bucket, allow_id, set_bucket}

-- How many of the attempts at the given times a limiter lets pass.
unfoldable pub granted : Memory → Str → List ℕ → ℕ
granted m id [] = 0
granted m id (t ∷ ts) =
    let step = allow_id m id t in
    let rest = granted step.1 id ts in if step.0 then suc rest else rest

abbrev pub least : ℕ → ℕ → ℕ
least a b = if leb a b then a else b

-- The key's bucket.
abbrev pub bucket_of : Memory → Str → Option Bucket
bucket_of m id = find_where (λ b. b.id == id) m.buckets

-- Inside the window of a bucket, `Memory` lets pass as many attempts as the limit has left, and no more:
-- the rest of them or all that are left, whichever is less.
pub granted-window :
    (m : Memory) (id : Str) (b : Bucket) (ts : List ℕ)
    → bucket_of m id ≡ some b
    → all (λ t. ltb t (b.start + m.window)) ts ≡ true
    → granted m id ts ≡ least (length ts) (m.limit - b.count)
unfolding granted allow_id find_where
granted-window m id b [] f h = ground arith
granted-window m id b (t ∷ ts) f h =
    let e = (str_beq_iff b.id id).0 (find_where-some (λ b. b.id == id) m.buckets b f) in
    elim (Bool-cases (leb m.limit b.count)) [
      | inl full ↦ ground (arith, f, granted-window m id b ts f)
      | inr room ↦
          let b' : Bucket = record { id = id; count = b.count + 1; start = b.start } in
          ground (
            arith,
            f,
            str_beq_refl id,
            granted-window (set_bucket m b') id b' ts (ground (arith, str_beq_refl id))
                (ground arith),
          )
    ]
