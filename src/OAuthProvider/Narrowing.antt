-- ===== src/OAuthProvider/Narrowing.antt =====
-- What a refresh may ask for: the scopes and the resources of the refresh token, or fewer.
use auth_all.Prelude.{
  ℕ, ltb, length, ◌≡◌, refl, ap, ◌⊎◌, inl, inr, true, false, ◌||◌, List, [], ◌∷◌, some, Str, arith,
  is_empty, ◌==◌, str_eq, any, contains, find_where, all-contains, Bool-cases, Option-cases,
}
use auth_all.Strings.{fields}
use auth_all.OAuthProvider.Rows.{Db, OAuthGrant, OAuthRefreshToken}
use auth_all.OAuthProvider.Store.{create_oauth_access_token, create_oauth_refresh_token}
use auth_all.OAuthProvider.Clients.{
  Provider, Client, answer, covers_all, requested_resources, take_resources, scope_offline_access,
}
use auth_all.OAuthProvider.Issue.{
  AccessClaims, IdClaims, TokenResponse, issue_tokens_with_id, mint_access_token, refresh_row,
  audience_of,
}
use auth_all.OAuthProvider.Exchange.{Form, narrowed}

-- The same list, or one element of it.
abbrev pub IsNarrower : List Str → List Str → Type 0
IsNarrower held asked =
    (asked ≡ held) ⊎ ((covers_all held asked ≡ true) × ((r : Str) × (asked ≡ r ∷ [])))

-- The audience of a narrower list is that of the list, or one of its elements.
pub audience_of-within :
    (p : Provider) (held asked : List Str)
    → IsNarrower held asked
    → (audience_of p asked ≡ audience_of p held) ⊎ (contains held (audience_of p asked) ≡ true)
unfolding audience_of covers_all
audience_of-within p held asked (inl e) = inl (ap (audience_of p) e)
audience_of-within p held [] (inr (c, o)) = absurd (ground (arith, o.1))
audience_of-within p held (x ∷ []) (inr (c, o)) = inr (ground arith)
audience_of-within p held (x ∷ y ∷ rest) (inr (c, o)) = absurd (ground (arith, o.1))

requested_resources-short :
    (p : Provider) (values scopes out : List Str)
    → requested_resources p values scopes ≡ some out
    → ltb 1 (length out) ≡ false
unfolding requested_resources
requested_resources-short p values scopes out h =
    elim (Option-cases (take_resources p scopes [] values)) [
      | inl e ↦ absurd (ground arith)
      | inr (taken, e) ↦ elim (Bool-cases (ltb 1 (length taken))) [
        | inl l ↦ absurd (ground arith)
        | inr l ↦ ground arith
      ]
    ]

-- A request that names resources is granted exactly one.
requested_resources-one :
    (p : Provider) (v : Str) (values scopes out : List Str)
    → requested_resources p (v ∷ values) scopes ≡ some out
    → (r : Str) × (out ≡ r ∷ [])
unfolding requested_resources take_resources contains
requested_resources-one p v values scopes (r ∷ []) h = (r, refl)
requested_resources-one p v values scopes (r ∷ s ∷ out) h =
    let short = requested_resources-short p (v ∷ values) scopes (r ∷ s ∷ out) h in
    absurd (ground arith)
requested_resources-one p v values scopes [] h =
    elim (Option-cases (find_where (λ r. r.identifier == v) p.resources)) [
      | inl e ↦ absurd (ground arith)
      | inr (res, e) ↦ elim (Option-cases (take_resources p scopes (v ∷ []) values)) [
        | inl n ↦ absurd (ground arith)
        | inr (rest, n) ↦ absurd (ground arith)
      ]
    ]

pub within-contains :
    (xs ys : List Str) (q : Str)
    → (xs ≡ ys) ⊎ (covers_all ys xs ≡ true)
    → contains xs q ≡ true
    → contains ys q ≡ true
unfolding covers_all
within-contains xs ys q (inl e) h = rw (← e) h
within-contains xs ys q (inr e) h = all-contains (contains ys) xs q e h

pub IsNarrower-contains :
    (held asked : List Str) (q : Str)
    → IsNarrower held asked
    → contains asked q ≡ true
    → contains held q ≡ true
IsNarrower-contains held asked q (inl e) h = within-contains asked held q (inl e) h
IsNarrower-contains held asked q (inr (c, o)) h = within-contains asked held q (inr c) h

module _ (challenge_of : Str → Str) (sign_access : AccessClaims → Str) (sign_id : IdClaims → Str)
    (digest : Str → Str) (p : Provider) where
  resources-IsNarrower :
      (row : OAuthRefreshToken) (values wanted resources : List Str)
      → is_empty values ≡ false
      → requested_resources p values wanted ≡ some resources
      → covers_all row.resources resources ≡ true
      → IsNarrower row.resources resources
  resources-IsNarrower row [] wanted resources n h c = absurd (ground arith)
  resources-IsNarrower row (v ∷ values) wanted resources n h c =
      inr (c, requested_resources-one p v values wanted resources h)

  pub narrowed-within :
      (row : OAuthRefreshToken) (form : Form) (scopes resources : List Str)
      → narrowed challenge_of sign_access sign_id digest p row form ≡ answer (scopes, resources)
      → ((scopes ≡ row.scopes) ⊎ (covers_all row.scopes scopes ≡ true))
        × IsNarrower row.resources resources
  unfolding narrowed
  narrowed-within row form scopes resources h = elim (Bool-cases (is_empty form.scope)) [
    | inl a ↦ elim (Bool-cases (is_empty form.resource)) [
      | inl b ↦ (inl (ground arith), inl (ground arith))
      | inr b ↦ elim (Option-cases (requested_resources p form.resource row.scopes)) [
        | inl e ↦ absurd (ground arith)
        | inr (out, e) ↦ (
          inl (ground arith),
          resources-IsNarrower row form.resource row.scopes resources b (ground arith)
              (ground arith),
        )
      ]
    ]
    | inr a ↦ elim (Bool-cases (covers_all row.scopes (fields form.scope))) [
      | inr d ↦ absurd (ground arith)
      | inl d ↦ elim (Bool-cases (is_empty form.resource)) [
        | inl b ↦ (inr (ground arith), inl (ground arith))
        | inr b ↦ elim (Option-cases (requested_resources p form.resource (fields form.scope))) [
          | inl e ↦ absurd (ground arith)
          | inr (out, e) ↦ (
            inr (ground arith),
            resources-IsNarrower row form.resource (fields form.scope) resources b (ground arith)
                (ground arith),
          )
        ]
      ]
    ]
  ]

  -- The row of the new refresh token, if there is one.
  pub issue-refresh :
      (db : Db) (c : Client) (g : OAuthGrant) (scopes resources : List Str)
      (nonce jkt access_id refresh_id plaintext : Str) (now : ℕ) (r : TokenResponse) (db' : Db)
      → issue_tokens_with_id sign_access sign_id digest p db c g scopes resources nonce jkt
          access_id refresh_id plaintext now
        ≡ (answer r, db')
      → (db'.refresh_tokens ≡ db.refresh_tokens)
        ⊎ (db'.refresh_tokens
            ≡ refresh_row sign_access sign_id digest p c g scopes resources jkt refresh_id plaintext
                now
              ∷ db.refresh_tokens)
  unfolding issue_tokens_with_id mint_access_token create_oauth_access_token
      create_oauth_refresh_token
  issue-refresh db c g scopes resources nonce jkt access_id refresh_id plaintext now r db' h =
      elim (Bool-cases (any (λ r. r.id == access_id) db.access_tokens)) [
        | inl a ↦ absurd (ground arith)
        | inr a ↦ elim (Bool-cases (contains scopes scope_offline_access)) [
          | inr o ↦ inl (ground arith)
          | inl o ↦
              elim (Bool-cases (
                any (λ r. r.id == refresh_id || r.token_hash == digest plaintext)
                  db.refresh_tokens)) [ inl b ↦ absurd (ground arith) | inr b ↦ inr (ground arith) ]
        ]
      ]
