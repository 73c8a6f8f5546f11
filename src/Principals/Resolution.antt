-- ===== src/Principals/Resolution.antt =====
-- principal.go: how a request becomes a principal. The store is the parameter `S`; the read of a session
-- (`lookupSession`) and the resolvers of the plugins are functions on it; the clock is an argument.
use auth_all.Prelude.{
  ℕ, Bool, true, false, ◌&&◌, ◌||◌, not, List, [], ◌∷◌, Option, none, some, Str, if◌then◌else◌,
  is_empty,
}
use auth_all.Errors.{Result, ok, err, unauthorized}
use auth_all.Roles.{Roles, effective}
use auth_all.Accounts.{User, Session}
use auth_all.Organizations.Store.{Organization, Membership}
use auth_all.PrincipalCache.{CacheEntry, get, put}
use auth_all.Principals.Types.{
  Principal, ResolvedPrincipal, from_plugin_principal, with_organization, method_session,
}
use auth_all.Principals.Request.{Request, cookie_value, bearer_token, request_token}

-- A session with its user, and the active organization with the membership.
pub record SessionRead : Type 0 where
  pub session : Session
  pub user : User
  pub organization : Option Organization
  pub membership : Option Membership

-- plugin.CredentialResolver; a plugin.RequestResolver reads the request too.
pub record CredentialResolver (S : Type 0) : Type 0 where
  pub claims : Str → Bool
  pub reads_request : Bool
  pub resolve : S → Str → Request → ℕ → Result (Option ResolvedPrincipal) × S

-- `sessionPrincipal`.
unfoldable pub session_principal : Roles → SessionRead → Bool → Principal
session_principal roles s via_cookie = record {
  user = some s.user;
  session = some s.session;
  api_key = none;
  role = effective roles s.user.role;
  method = method_session;
  via_cookie = via_cookie;
  organization = none;
  membership = none;
}

module _ {S : Type 0} (roles : Roles) (resolvers : List (CredentialResolver S))
    (lookup : S → Str → ℕ → Result (Option SessionRead) × S) where
  -- `perRequestCredential`.
  unfoldable pub per_request_credential : List (CredentialResolver S) → Str → Bool
  per_request_credential [] credential = false
  per_request_credential (r ∷ rs) credential =
      (r.reads_request && r.claims credential) || per_request_credential rs credential

  -- `sessionByToken` with the principal that `readPrincipal` makes of it.
  unfoldable pub by_session : S → Str → Bool → ℕ → Result (Option Principal) × S
  unfolding session_principal with_organization
  by_session s token via_cookie now =
      let (answer, s') = lookup s token now in
      elim answer [
        | err e ↦ (err e, s')
        | ok none ↦ (ok none, s')
        | ok (some read) ↦ (
          ok (
              some (
                with_organization (session_principal roles read via_cookie) read.organization
                  read.membership)),
          s',
        )
      ]

  -- What `readPrincipal` makes of the answer of a resolver.
  abbrev converted : Result (Option ResolvedPrincipal) × S → Result (Option Principal) × S
  converted (err e, s) = (err e, s)
  converted (ok none, s) = (err unauthorized, s)
  converted (ok (some p), s) = (ok (some (from_plugin_principal p)), s)

  -- The first resolver that claims the value, else the session of the token.
  unfoldable pub by_bearer :
      List (CredentialResolver S) → S → Str → Request → ℕ → Result (Option Principal) × S
  unfolding by_session
  by_bearer [] s bearer r now = by_session s bearer false now
  by_bearer (c ∷ cs) s bearer r now =
      let rest = by_bearer cs s bearer r now in
      if c.claims bearer then converted (c.resolve s bearer r now) else rest

  -- `readPrincipal`.
  unfoldable pub read_principal : S → Request → ℕ → Result (Option Principal) × S
  unfolding by_bearer by_session
  read_principal s r now = elim (cookie_value r) [
    | some v ↦ by_session s v true now
    | none ↦
        if is_empty (bearer_token r)
        then (ok none, s)
        else by_bearer resolvers s (bearer_token r) r now
  ]

  module _ (digest : Str → Str) (ttl : ℕ) where
    abbrev Entries : Type 0
    Entries = List (CacheEntry Principal)

    -- The credential goes through the cache.
    unfoldable pub is_cached : Request → Bool
    unfolding per_request_credential
    is_cached r =
        not (is_empty (request_token r)) && not (per_request_credential resolvers (request_token r))

    -- The part of `resolvePrincipal` after a miss.
    unfoldable pub read_and_put :
        S → Entries → Request → ℕ → Result (Option Principal) × S × Entries
    unfolding read_principal is_cached
    read_and_put s entries r now =
        let (answer, s') = read_principal s r now in
        elim answer [
          | err e ↦ (err e, s', entries)
          | ok none ↦ (ok none, s', entries)
          | ok (some p) ↦ (
            ok (some p),
            s',
            (if is_cached r then put digest ttl entries (request_token r) p now else entries),
          )
        ]

    -- `resolvePrincipal`.
    unfoldable pub resolve_principal :
        S → Entries → Request → ℕ → Result (Option Principal) × S × Entries
    unfolding read_and_put is_cached
    resolve_principal s entries r now =
        let (hit, entries') = get digest entries (request_token r) now in
        if is_cached r
        then elim hit [ some p ↦ (ok (some p), s, entries') | none ↦ read_and_put s entries' r now ]
        else read_and_put s entries r now
