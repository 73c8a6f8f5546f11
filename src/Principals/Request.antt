-- ===== src/Principals/Request.antt =====
-- sessions.go, principal.go, http.go and middleware.go: what a request carries, as far as the credentials
-- and the origin check read it.
use auth_all.Prelude.{
  Bool, ◌&&◌, ◌||◌, not, Option, none, some, Str, codes, if◌then◌else◌, ◌==◌, str_eq, is_empty, [],
}
use auth_all.Strings.{trim_space, equal_fold, take, drop}

-- A header that is not sent is the empty text; `cookie` is the session cookie.
pub record Request : Type 0 where
  pub cookie : Option Str
  pub authorization : Str
  pub method : Str
  pub origin : Str
  pub sec_fetch_site : Str

-- The cookie that the code reads: sent, and not empty.
abbrev pub cookie_value : Request → Option Str
cookie_value r = elim r.cookie [ none ↦ none | some v ↦ if is_empty v then none else some v ]

-- `bearerToken`.
unfoldable pub bearer_token : Request → Str
bearer_token r =
    if not (is_empty (drop 7 r.authorization))
      && equal_fold (take 7 r.authorization) (codes "Bearer ")
    then trim_space (drop 7 r.authorization)
    else []

-- `requestToken`.
unfoldable pub request_token : Request → Str
unfolding bearer_token
request_token r = elim (cookie_value r) [ some v ↦ v | none ↦ bearer_token r ]

-- `isSafeMethod`.
unfoldable pub is_safe_method : Str → Bool
is_safe_method method =
    method == codes "GET" || (method == codes "HEAD" || method == codes "OPTIONS")

-- `strictOriginOK`.
unfoldable pub strict_origin_ok : Request → Bool
strict_origin_ok r = equal_fold (trim_space r.sec_fetch_site) (codes "same-origin")
