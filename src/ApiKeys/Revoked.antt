-- ===== src/ApiKeys/Revoked.antt =====
-- A revoked key stays revoked.
use auth_all.Prelude.{
  ℕ, ◌≡◌, refl, inl, inr, Bool, true, false, ◌&&◌, ◌||◌, not, List, [], ◌∷◌, Option, none, some,
  Str, arith, str_beq, str_beq_iff, str_beq_refl, ◌==◌, str_eq, all, any, find_where, update_where,
  delete_where, Bool-cases, Option-cases, find_where-some, ◌++◌,
}
use auth_all.Errors.{Error, Result, ok, err, Result-cases, unauthorized}
use auth_all.Roles.{Roles}
use auth_all.Accounts.{Db, User}
use auth_all.Principals.Types.{ApiKey}
use auth_all.ApiKeys.Store.{
  api_key_by_hash, api_key_by_id, create_api_key, revoke_api_key, touch_api_key, is_live,
  delete_of_organization,
}
use auth_all.ApiKeys.Scopes.{Plugin}
use auth_all.ApiKeys.Resolve.{OrganizationResolver, resolve, refused, touch, principal_of}
use auth_all.ApiKeys.Create.{CreateInput, create, revoke}
use auth_all.ApiKeys.Granted.{create-cases}

-- The unique index on the digest.
unfoldable pub unique_hashes : List ApiKey → Bool
unique_hashes [] = true
unique_hashes (k ∷ ks) = not (any (λ r. r.key_hash == k.key_hash) ks) && unique_hashes ks

-- A row that no longer authenticates the digest.
abbrev pub spent : Str → ApiKey → Bool
spent hash k = not (k.key_hash == hash) || not (is_live k)

all-spent_revoke :
    (hash id by : Str) (at : ℕ) (ks : List ApiKey)
    → all (spent hash) ks ≡ true
    → all (spent hash) (
        update_where
          (λ k. k.id == id && is_live k)
          (λ k. record k { revoked_at = some at; revoked_by = some by })
          ks)
      ≡ true
unfolding update_where
all-spent_revoke hash id by at [] h = refl
all-spent_revoke hash id by at (k ∷ ks) h = ground (arith, all-spent_revoke hash id by at ks)

all-spent_touch :
    (hash id : Str) (at : ℕ) (ks : List ApiKey)
    → all (spent hash) ks ≡ true
    → all (spent hash) (touch_api_key ks id at) ≡ true
unfolding touch_api_key update_where
all-spent_touch hash id at [] h = refl
all-spent_touch hash id at (k ∷ ks) h = ground (arith, all-spent_touch hash id at ks)

all-spent_delete :
    (hash : Str) (q : ApiKey → Bool) (ks : List ApiKey)
    → all (spent hash) ks ≡ true
    → all (spent hash) (delete_where q ks) ≡ true
unfolding delete_where
all-spent_delete hash q [] h = refl
all-spent_delete hash q (k ∷ ks) h = ground (arith, all-spent_delete hash q ks)

revoke_without_hash :
    (hash id by : Str) (at : ℕ) (ks : List ApiKey)
    → any (λ r. r.key_hash == hash) ks ≡ false
    → all (spent hash) (
        update_where
          (λ k. k.id == id && is_live k)
          (λ k. record k { revoked_at = some at; revoked_by = some by })
          ks)
      ≡ true
unfolding update_where
revoke_without_hash hash id by at [] h = refl
revoke_without_hash hash id by at (k ∷ ks) h = ground (arith, revoke_without_hash hash id by at ks)

revoke_found :
    (hash by : Str) (at : ℕ) (k : ApiKey) (ks : List ApiKey)
    → unique_hashes ks ≡ true
    → find_where (λ r. r.key_hash == hash) ks ≡ some k
    → all (spent hash) (
        update_where
          (λ r. r.id == k.id && is_live r)
          (λ r. record r { revoked_at = some at; revoked_by = some by })
          ks)
      ≡ true
unfolding unique_hashes find_where update_where
revoke_found hash by at k [] u f = refl
revoke_found hash by at k (x ∷ ks) u f = elim (Bool-cases (str_beq x.key_hash hash)) [
  | inr e ↦ ground (arith, e, revoke_found hash by at k ks)
  | inl e ↦
      let same = (str_beq_iff x.key_hash hash).0 e in
      let found : x ≡ k = ground (arith, e) in
      let rest = revoke_without_hash hash k.id by at ks (ground (arith, same)) in
      ground (arith, e, found, rest, str_beq_refl k.id)
]

find-spent :
    (hash : Str) (ks : List ApiKey) (k : ApiKey)
    → all (spent hash) ks ≡ true
    → find_where (λ r. r.key_hash == hash) ks ≡ some k
    → is_live k ≡ false
unfolding find_where
find-spent hash [] k h f = ground arith
find-spent hash (x ∷ ks) k h f = ground (arith, find-spent hash ks k)

api_key_by_id-same :
    (keys : List ApiKey) (id : Str) (k : ApiKey) → api_key_by_id keys id ≡ ok k → k.id ≡ id
unfolding api_key_by_id
api_key_by_id-same keys id k h = elim (Option-cases (find_where (λ k. k.id == id) keys)) [
  | inl e ↦ absurd (ground arith)
  | inr (x, e) ↦ ground (arith, e, find_where-some (λ k. k.id == id) keys x e, str_beq_iff x.id id)
]

-- A call on the keys: a creation, a request, a revocation, the deletion of an organization.
pub data Call : Type 0 where
  creates : User → CreateInput → Str → Str → ℕ → Call
  requests : Db → Str → ℕ → Call
  revokes : Str → Str → Bool → ℕ → Call
  drops_organization : Str → Call

abbrev created : List ApiKey → Result (ApiKey × List ApiKey) → List ApiKey
created keys (ok (k, keys')) = keys'
created keys (err e) = keys

abbrev changed : List ApiKey → Result (List ApiKey) → List ApiKey
changed keys (ok keys') = keys'
changed keys (err e) = keys

module _ (p : Plugin) (roles : Roles) (organizations : Option OrganizationResolver)
    (digest : Str → Str) (before : ApiKey → User → Option Error) where
  unfoldable pub after : List ApiKey → Call → List ApiKey
  after keys (creates owner input random id now) =
      created keys (create p roles organizations digest before keys owner input random id now)
  after keys (requests db bearer now) = (resolve p roles organizations digest keys db bearer now).1
  after keys (revokes id actor is_admin now) = changed keys (revoke keys id actor is_admin now)
  after keys (drops_organization org) = delete_of_organization keys org

  unfoldable pub run : List ApiKey → List Call → List ApiKey
  unfolding after
  run keys [] = keys
  run keys (c ∷ cs) = run (after keys c) cs

  -- No creation draws a key of the digest.
  unfoldable pub never_creates : Str → List Call → Bool
  never_creates hash [] = true
  never_creates hash (creates owner input random id now ∷ cs) =
      not (digest (p.prefix ++ random) == hash) && never_creates hash cs
  never_creates hash (c ∷ cs) = never_creates hash cs

  create-spent :
      (hash : Str) (keys : List ApiKey) (owner : User) (input : CreateInput) (random id : Str)
      (now : ℕ)
      → (digest (p.prefix ++ random) == hash) ≡ false
      → all (spent hash) keys ≡ true
      → all
          (spent hash)
          (created keys (create p roles organizations digest before keys owner input random id now))
        ≡ true
  unfolding create_api_key
  create-spent hash keys owner input random id now n h =
      elim (Result-cases
        (create p roles organizations digest before keys owner input random id now)) [
          | inr (x, e) ↦ ground (arith, e)
          | inl ((k, keys'), e) ↦
              let (scopes, role, expiry, s, r, b, k_is, c) =
                create-cases p roles organizations digest before keys owner input random id now k
                  keys' e in
              elim (Bool-cases (any (λ r. r.id == k.id || r.key_hash == k.key_hash) keys)) [
                | inl a ↦ absurd (ground arith)
                | inr a ↦ ground (arith, k_is)
              ]
        ]

  resolve-spent :
      (hash : Str) (keys : List ApiKey) (db : Db) (bearer : Str) (now : ℕ)
      → all (spent hash) keys ≡ true
      → all (spent hash) (resolve p roles organizations digest keys db bearer now).1 ≡ true
  unfolding resolve touch
  resolve-spent hash keys db bearer now h =
      elim (Result-cases (api_key_by_hash keys db (digest bearer))) [
        | inr (x, e) ↦ ground (arith, e)
        | inl ((k, owner), e) ↦ elim (Result-cases (principal_of p roles organizations k owner)) [
          | inr (x, e') ↦ ground (arith, e, e')
          | inl (q, e') ↦ ground (arith, e, e', all-spent_touch hash k.id now keys h)
        ]
      ]

  revoke-spent :
      (hash : Str) (keys : List ApiKey) (id actor : Str) (is_admin : Bool) (now : ℕ)
      → all (spent hash) keys ≡ true
      → all (spent hash) (changed keys (revoke keys id actor is_admin now)) ≡ true
  unfolding revoke revoke_api_key
  revoke-spent hash keys id actor is_admin now h = elim (Result-cases (api_key_by_id keys id)) [
    | inr (x, e) ↦ ground (arith, e)
    | inl (k, e) ↦ ground (arith, e, all-spent_revoke hash k.id actor now keys h)
  ]

  run-spent :
      (hash : Str) (keys : List ApiKey) (cs : List Call)
      → never_creates hash cs ≡ true
      → all (spent hash) keys ≡ true
      → all (spent hash) (run keys cs) ≡ true
  unfolding run never_creates after delete_of_organization
  run-spent hash keys [] n h = h
  run-spent hash keys (creates owner input random id now ∷ cs) n h =
      run-spent hash (after keys (creates owner input random id now)) cs (ground arith)
        (create-spent hash keys owner input random id now (ground arith) h)
  run-spent hash keys (requests db bearer now ∷ cs) n h =
      run-spent hash (after keys (requests db bearer now)) cs n
        (resolve-spent hash keys db bearer now h)
  run-spent hash keys (revokes id actor is_admin now ∷ cs) n h =
      run-spent hash (after keys (revokes id actor is_admin now)) cs n
        (revoke-spent hash keys id actor is_admin now h)
  run-spent hash keys (drops_organization org ∷ cs) n h =
      run-spent hash (after keys (drops_organization org)) cs n
        (all-spent_delete hash (λ k. elim k.org_id [ none ↦ false | some o ↦ o == org ]) keys h)

  spent-refused :
      (keys : List ApiKey) (db : Db) (bearer : Str) (now : ℕ)
      → all (spent (digest bearer)) keys ≡ true
      → (resolve p roles organizations digest keys db bearer now).0 ≡ err unauthorized
  unfolding resolve api_key_by_hash refused
  spent-refused keys db bearer now h =
      elim (Option-cases (find_where (λ k. k.key_hash == digest bearer) keys)) [
        | inl e ↦ ground (arith, e)
        | inr (k, e) ↦ elim (Option-cases (find_where (λ u. u.id == k.user_id) db.users)) [
          | inl e' ↦ ground (arith, e, e')
          | inr (u, e') ↦ ground (arith, e, e', find-spent (digest bearer) keys k h e)
        ]
      ]

  -- In a table with unique digests, a key that was revoked with success never authenticates again:
  -- after any history of creations, requests, revocations and deletions of organizations in which no
  -- later creation draws a key of the same digest, a request with its value is answered UNAUTHORIZED.
  pub revoke-final :
      (keys keys' : List ApiKey) (k : ApiKey) (bearer actor : Str) (is_admin : Bool) (now : ℕ)
      (cs : List Call) (db : Db) (later : ℕ)
      → unique_hashes keys ≡ true
      → find_where (λ r. r.key_hash == digest bearer) keys ≡ some k
      → revoke keys k.id actor is_admin now ≡ ok keys'
      → never_creates (digest bearer) cs ≡ true
      → (resolve p roles organizations digest (run keys' cs) db bearer later).0 ≡ err unauthorized
  unfolding revoke revoke_api_key
  revoke-final keys keys' k bearer actor is_admin now cs db later u f h n =
      elim (Result-cases (api_key_by_id keys k.id)) [
        | inr (x, e) ↦ absurd (ground arith)
        | inl (k', e) ↦
            let same = api_key_by_id-same keys k.id k' e in
            let s = revoke_found (digest bearer) actor now k keys u f in
            spent-refused (run keys' cs) db bearer later
              (run-spent (digest bearer) keys' cs n (ground (arith, e, same, s)))
      ]
