-- ===== src/RateLimit.antt =====
-- ratelimit/ratelimit.go, ratelimit/storelimit/storelimit.go and internal/sqlstore/ratelimit.go: the
-- two fixed-window limiters. A time and a duration are a number of one unit. `strings.ToLower`, SHA-256
-- and the address rewriting `IPKey` are the parameters `lower`, `digest` and `ip_key`.
mod Examples
pub mod Window
pub mod Decisions
use auth_all.Prelude.{
  ℕ, ◌+◌, ◌-◌, Bool, true, false, ◌&&◌, ◌||◌, not, List, [], ◌∷◌, ◌++◌, Option, none, some, Str,
  codes, str_beq, ltb, leb, if◌then◌else◌, ◌==◌, nat_eq, str_eq, is_empty, all, find_where,
  update_where, delete_where,
}
use auth_all.Strings.{trim_space}

pub record Key : Type 0 where
  pub operation : Str
  pub ip : Str
  pub email : Str
  pub user_id : Str
  pub provider : Str

pub record Bucket : Type 0 where
  pub id : Str
  pub count : ℕ
  pub start : ℕ

pub record Memory : Type 0 where
  pub limit : ℕ
  pub window : ℕ
  pub buckets : List Bucket

abbrev pub new_memory : ℕ → ℕ → Memory
new_memory limit window = record { limit = limit; window = window; buckets = [] }

unfoldable pub key_id : Key → Str
key_id k = k.operation ++ 124 ∷ k.ip ++ 124 ∷ k.email ++ 124 ∷ k.user_id ++ 124 ∷ k.provider

-- `m.buckets[id] = b`
abbrev pub set_bucket : Memory → Bucket → Memory
set_bucket m b = record m { buckets = b ∷ delete_where (λ x. x.id == b.id) m.buckets }

-- `Memory.Allow` on a key's identifier; `now.Sub(start) >= window` is a comparison with the window's end.
unfoldable pub allow_id : Memory → Str → ℕ → Bool × Memory
allow_id m id now =
    let fresh : Bucket = record { id = id; count = 1; start = now } in
    elim (find_where (λ b. b.id == id) m.buckets) [
      | none ↦ (true, set_bucket m fresh)
      | some b ↦
          if leb (b.start + m.window) now
          then (true, set_bucket m fresh)
          else if leb m.limit b.count
          then (false, m)
          else (true, set_bucket m (record { id = id; count = b.count + 1; start = b.start }))
    ]

unfoldable pub allow : Memory → Key → ℕ → Bool × Memory
allow m k now = allow_id m (key_id k) now

-- The counter table.
pub record Counter : Type 0 where
  pub key : Str
  pub window_start : ℕ
  pub count : ℕ

-- The CASE expressions of the conflict clause.
unfoldable pub counted_up : ℕ → ℕ → Counter → Counter
counted_up window now r =
    if leb (r.window_start + window) now
    then record r { window_start = now; count = 1 }
    else record r { count = r.count + 1 }

unfoldable pub count_attempt : List Counter → Str → ℕ → ℕ → Counter × List Counter
unfolding counted_up
count_attempt rows key window now = elim (find_where (λ r. r.key == key) rows) [
  | none ↦ (let r : Counter = record { key = key; window_start = now; count = 1 } in (r, r ∷ rows))
  | some r ↦
      (counted_up window now r, update_where (λ x. x.key == key) (counted_up window now) rows)
]

unfoldable pub cleanup : List Counter → ℕ → List Counter
cleanup rows before = delete_where (λ r. leb r.window_start before) rows

pub data Scope : Type 0 where
  scope_ip scope_email : Scope

unfoldable pub scope_name : Scope → Str
scope_name scope_ip = codes "ip"
scope_name scope_email = codes "email"

pub record Rule : Type 0 where
  pub operation : Str
  pub scope : Scope
  pub limit : ℕ
  pub window : ℕ

-- The tests of `New` on the rules.
unfoldable pub valid_rules : List Rule → Bool
valid_rules rules =
    not (is_empty rules)
    && all (λ r. not (is_empty r.operation) && (leb 1 r.limit && ltb 0 r.window)) rules

pub record Decision : Type 0 where
  pub allowed : Bool
  pub retry_after : ℕ

module _ (lower digest ip_key : Str → Str) where
  unfoldable pub subject : Scope → Key → Str
  subject scope_ip k = ip_key k.ip
  subject scope_email k =
      let address = lower (trim_space k.email) in if is_empty address then [] else digest address

  -- Whether the rule has something to count.
  unfoldable pub applies : Rule → Key → Bool
  unfolding subject
  applies r k = r.operation == k.operation && not (is_empty (subject r.scope k))

  unfoldable pub counter_key : Rule → Key → Str
  unfolding subject scope_name
  counter_key r k = r.operation ++ 124 ∷ scope_name r.scope ++ 124 ∷ subject r.scope k

  -- One turn of the loop of `Decide` for a rule that applies.
  unfoldable pub judge : Rule → Counter → ℕ → Decision → Decision
  judge rule r now d =
      if leb r.count rule.limit
      then d
      else (let retry = (r.window_start + rule.window) - now in
          record {
            allowed = false;
            retry_after = if ltb d.retry_after retry then retry else d.retry_after;
          })

  unfoldable pub decide_rules :
      List Rule → List Counter → Key → ℕ → Decision → Decision × List Counter
  unfolding applies counter_key judge count_attempt
  decide_rules [] rows k now d = (d, rows)
  decide_rules (rule ∷ rules) rows k now d =
      let counted = count_attempt rows (counter_key rule k) rule.window now in
      let next = decide_rules rules counted.1 k now (judge rule counted.0 now d) in
      let skipped = decide_rules rules rows k now d in if applies rule k then next else skipped

  -- `Decide`.
  unfoldable pub decide : List Rule → List Counter → Key → ℕ → Decision × List Counter
  unfolding decide_rules
  decide rules rows k now =
      decide_rules rules rows k now (record { allowed = true; retry_after = 0 })
