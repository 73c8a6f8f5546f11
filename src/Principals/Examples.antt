-- ===== src/Principals/Examples.antt =====
-- A session token that is sent as a bearer value and then in the cookie.
use auth_all.Prelude.{
  List, ℕ, ◌≡◌, ◌↔◌, ◌⊎◌, refl, Bool, true, false, [], ◌∷◌, Option, none, some, Str, codes, arith,
  str_beq, find_where, delete_where,
}
use auth_all.Errors.{Result, ok}
use auth_all.Strings.{equal_fold, fold_char, trim_space, trim_left, trim_right, is_space}
use auth_all.Roles.{Roles}
use auth_all.Accounts.{User, Session}
use auth_all.PrincipalCache.{get, put}
use auth_all.Principals.Types.{Principal, with_organization}
use auth_all.Principals.Request.{Request, request_token, bearer_token}
use auth_all.Principals.Resolution.{
  SessionRead, session_principal, by_session, by_bearer, read_principal, is_cached,
  per_request_credential, resolve_principal, read_and_put,
}
use auth_all.Principals.Gates.{require_auth, origin_passes, require_auth_iff}
use auth_all.Principals.Cached.{Served, serves, run, IsServed, resolve_principal-IsServed}
use auth_all.Principals.Bypass.{served, all_before, require_auth-cached_bearer}

abbrev same : Str → Str
same s = s

abbrev roles : Roles
roles = record { hierarchy = codes "user" ∷ []; default_role = codes "user" }

abbrev ada : User
ada = record {
  id = codes "ada";
  role = codes "user";
  disabled_at = none;
  must_change_password = false;
  updated_at = 0;
}

abbrev session : Session
session = record {
  id = codes "s";
  user_id = codes "ada";
  token_hash = codes "t";
  created_at = 0;
  expires_at = 1000;
  last_seen_at = 0;
}

abbrev read : SessionRead
read = record { session = session; user = ada; organization = none; membership = none }

-- A store with one session; `true` while it is there.
abbrev lookup : Bool → Str → ℕ → Result (Option SessionRead) × Bool
lookup true token now = (ok (some read), true)
lookup false token now = (ok none, false)

abbrev bearer : Request
bearer = record {
  cookie = none;
  authorization = codes "Bearer t";
  method = codes "GET";
  origin = [];
  sec_fetch_site = [];
}

-- A form that another site submits.
abbrev forged : Request
forged = record {
  cookie = some (codes "t");
  authorization = [];
  method = codes "POST";
  origin = codes "https://evil.example";
  sec_fetch_site = codes "cross-site";
}

abbrev principal : Principal
principal = session_principal roles read false

abbrev refuses_all : Option (Request → Bool)
refuses_all = some (λ r. false)

-- Another request with the token in the cookie, between the two.
abbrev between : List (Served {S = Bool} roles [] lookup same 30)
between = serves false forged 105 ∷ []

require_auth-cached_bearer_example :
    require_auth refuses_all true forged
      (resolve_principal {S = Bool} roles [] lookup same 30 false
        (served {S = Bool} roles [] lookup same 30
          (resolve_principal {S = Bool} roles [] lookup same 30 true [] bearer 100).2
          between)
        forged
        110).0
    ≡ ok principal
unfolding request_token bearer_token equal_fold fold_char trim_space trim_left trim_right is_space
    is_cached per_request_credential get find_where read_principal by_bearer by_session
    with_organization all_before
require_auth-cached_bearer_example =
    require_auth-cached_bearer {S = Bool} roles [] lookup same 30 true false [] bearer forged 100
      110 principal ada between refuses_all true refl refl refl refl refl refl refl refl
      (ground arith)

resolve_principal-IsServed_example :
    ((read_principal {S = Bool} roles [] lookup false forged 110).0 ≡ ok (some principal))
    ⊎ IsServed {S = Bool} roles [] lookup same 30
        (serves true bearer 100 ∷ [])
        (codes "t")
        principal
        110
unfolding run resolve_principal read_and_put request_token bearer_token equal_fold fold_char
    trim_space trim_left trim_right is_space is_cached per_request_credential get put find_where
    delete_where read_principal by_bearer by_session with_organization str_beq
resolve_principal-IsServed_example =
    resolve_principal-IsServed {S = Bool} roles [] lookup same 30 (serves true bearer 100 ∷ [])
      false forged 110 principal refl

require_auth_iff_example :
    (require_auth refuses_all true bearer (ok (some principal)) ≡ ok principal) ↔ (
      (◌≡◌ {A = Result (Option Principal)} (ok (some principal)) (ok (some principal)))
      × ((u : User) × (some ada ≡ some u) × (u.must_change_password ≡ false))
      × (false ≡ true → origin_passes refuses_all true bearer ≡ true))
unfolding session_principal
require_auth_iff_example = require_auth_iff refuses_all true bearer (ok (some principal)) principal
