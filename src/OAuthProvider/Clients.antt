-- ===== src/OAuthProvider/Clients.antt =====
-- plugins/oauthprovider/clients.go, authorize.go, oauthprovider.go and errors.go: the clients, their
-- authentication, and the scopes and resources of a request. SHA-256 and the parser of net/url with the
-- test of a loopback address are parameters.
use auth_all.Prelude.{
  ℕ, ◌≡◌, refl, ◌⊎◌, inl, inr, Bool, true, false, ◌&&◌, ◌||◌, not, List, [], ◌∷◌, Option, none,
  some, Str, codes, ltb, if◌then◌else◌, ◌==◌, str_eq, is_empty, all, contains, length, find_where,
}
use auth_all.Errors.{ok, err}
use auth_all.Strings.{fields}
use auth_all.OAuthProvider.Rows.{Db, OAuthClient}
use auth_all.OAuthProvider.Store.{oauth_client_by_client_id}

-- The codes of errors.go that the modelled code answers with.
pub data OAuthError : Type 0 where
  invalid_request invalid_client invalid_grant unauthorized_client : OAuthError
  unsupported_grant_type invalid_scope invalid_target access_denied server_error : OAuthError
  invalid_token invalid_dpop_proof unsupported_response login_required consent_required : OAuthError

pub data Reply {ℓ} (A : Type ℓ) : Type ℓ where
  answer : A → Reply A
  refuse : OAuthError → Reply A

abbrev pub is_answer {ℓ} : {A : Type ℓ} → Reply A → Bool
is_answer (answer a) = true
is_answer (refuse e) = false

pub Reply-cases {ℓ} :
    {A : Type ℓ} (m : Reply A) → ((a : A) × (m ≡ answer a)) ⊎ ((e : OAuthError) × (m ≡ refuse e))
Reply-cases (answer a) = inl (a, refl)
Reply-cases (refuse e) = inr (e, refl)

infixl 5 ◌>>=◌
abbrev pub ◌>>=◌ {κ ℓ} : {B : Type κ} {A : Type ℓ} → Reply B → (B → Reply A) → Reply A
refuse e >>= next = refuse e
answer b >>= next = next b

infixl 5 ◌>>◌
abbrev pub ◌>>◌ {ℓ} : {A : Type ℓ} → Reply (Unit {0}) → Reply A → Reply A
refuse e >> next = refuse e
answer u >> next = next

-- `if !test { write the error }`
abbrev pub demand : Bool → OAuthError → Reply (Unit {0})
demand test e = if test then answer tt else refuse e

abbrev pub grant_authorization_code : Str
grant_authorization_code = codes "authorization_code"

abbrev pub grant_refresh_token : Str
grant_refresh_token = codes "refresh_token"

abbrev pub grant_client_credentials : Str
grant_client_credentials = codes "client_credentials"

abbrev pub auth_client_secret_basic : Str
auth_client_secret_basic = codes "client_secret_basic"

abbrev pub auth_client_secret_post : Str
auth_client_secret_post = codes "client_secret_post"

abbrev pub auth_none : Str
auth_none = codes "none"

abbrev pub scope_openid : Str
scope_openid = codes "openid"

abbrev pub scope_offline_access : Str
scope_offline_access = codes "offline_access"

pub record StaticClient : Type 0 where
  pub client_id : Str
  pub secret : Str
  pub redirect_uris : List Str
  pub grant_types : List Str
  pub scopes : List Str
  pub auth_method : Str
  pub dpop_required : Bool

pub record Resource : Type 0 where
  pub identifier : Str
  pub scopes : List Str
  pub access_token_ttl : ℕ

pub record Provider : Type 0 where
  pub issuer : Str
  pub scopes : List Str
  pub static_clients : List StaticClient
  pub resources : List Resource
  pub access_token_ttl : ℕ
  pub refresh_token_ttl : ℕ
  pub code_ttl : ℕ
  pub request_ttl : ℕ
  pub rotation_grace : ℕ

pub record Client : Type 0 where
  pub client_id : Str
  pub secret_hash : Str
  pub redirect_uris : List Str
  pub grant_types : List Str
  pub scopes : List Str
  pub auth_method : Str
  pub dpop_required : Bool
  pub is_static : Bool

unfoldable pub static_to_client : (Str → Str) → Provider → StaticClient → Client
static_to_client digest p c = record {
  client_id = c.client_id;
  secret_hash = if is_empty c.secret then [] else digest c.secret;
  redirect_uris = c.redirect_uris;
  grant_types =
      if is_empty c.grant_types
      then grant_authorization_code ∷ grant_refresh_token ∷ []
      else c.grant_types;
  scopes = if is_empty c.scopes then p.scopes else c.scopes;
  auth_method =
      if is_empty c.secret
      then auth_none
      else if is_empty c.auth_method
      then auth_client_secret_basic
      else c.auth_method;
  dpop_required = c.dpop_required;
  is_static = true;
}

unfoldable pub row_to_client : Provider → OAuthClient → Client
row_to_client p row = record {
  client_id = row.client_id;
  secret_hash = row.secret_hash;
  redirect_uris = row.redirect_uris;
  grant_types = row.grant_types;
  scopes = if is_empty row.scopes then p.scopes else row.scopes;
  auth_method = row.auth_method;
  dpop_required = row.dpop_required;
  is_static = false;
}

-- A static declaration comes before a row.
unfoldable pub lookup_client : (Str → Str) → Provider → Db → Str → Option Client
unfolding static_to_client row_to_client
lookup_client digest p db id = elim (find_where (λ c. c.client_id == id) p.static_clients) [
  | some c ↦ some (static_to_client digest p c)
  | none ↦ elim (oauth_client_by_client_id db id) [
    | ok row ↦ some (row_to_client p row)
    | err e ↦ none
  ]
]

unfoldable pub secret_matches : (Str → Str) → Client → Str → Bool
secret_matches digest c secret =
    not (is_empty c.secret_hash || is_empty secret) && c.secret_hash == digest secret

unfoldable pub allows_grant : Client → Str → Bool
allows_grant c name = contains c.grant_types name

-- The parts of a parsed URI that the comparison reads; an empty scheme is a relative URI.
pub record Uri : Type 0 where
  pub scheme : Str
  pub hostname : Str
  pub path : Str
  pub is_loopback_address : Bool

unfoldable pub is_loopback : Uri → Bool
is_loopback u =
    (u.scheme == codes "http" || u.scheme == codes "https")
    && (u.hostname == codes "localhost" || u.is_loopback_address)

-- The second loop of `matchRedirectURI`: a registration on the loopback interface, up to the port.
unfoldable pub matches_loopback : (Str → Option Uri) → List Str → Uri → Bool
unfolding is_loopback
matches_loopback parse_uri [] got = false
matches_loopback parse_uri (registered ∷ rest) got =
    let later = matches_loopback parse_uri rest got in
    elim (parse_uri registered) [
      | none ↦ later
      | some want ↦
          (is_loopback want
            && (want.scheme == got.scheme
                && (want.hostname == got.hostname && want.path == got.path)))
          || later
    ]

-- Where the code answers an error, `none`.
unfoldable pub match_redirect_uri : (Str → Option Uri) → Client → Str → Option Str
unfolding matches_loopback
match_redirect_uri parse_uri c candidate =
    if contains c.redirect_uris candidate then some candidate else elim (parse_uri candidate) [
      | none ↦ none
      | some got ↦
          if not (is_empty got.scheme)
            && (is_loopback got && matches_loopback parse_uri c.redirect_uris got)
          then some candidate
          else none
    ]

-- The credentials of a call of the token endpoint: the Basic header, else the form.
pub record Credentials : Type 0 where
  pub has_basic : Bool
  pub client_id : Str
  pub secret : Str

unfoldable pub authenticate_client : (Str → Str) → Provider → Db → Credentials → Reply Client
unfolding lookup_client secret_matches
authenticate_client digest p db call = do
  demand (not (is_empty call.client_id)) invalid_client
  elim (lookup_client digest p db call.client_id) [
    | none ↦ refuse invalid_client
    | some c ↦
        if c.auth_method == auth_none
        then (if is_empty call.secret then answer c else refuse invalid_client)
        else (do
          demand (not (c.auth_method == auth_client_secret_basic && not call.has_basic))
              invalid_client
          demand (not (c.auth_method == auth_client_secret_post && call.has_basic)) invalid_client
          demand (secret_matches digest c call.secret) invalid_client
          answer c)
  ]

-- `covers` of two lists.
unfoldable pub covers_all : List Str → List Str → Bool
covers_all granted wanted = all (contains granted) wanted

unfoldable pub known_scope : Provider → Str → Bool
known_scope p name = contains p.scopes name

-- The loop of `requestedScopes`, with the names that were seen.
unfoldable pub take_scopes : Provider → Client → List Str → List Str → Option (List Str)
unfolding known_scope
take_scopes p c seen [] = some []
take_scopes p c seen (s ∷ wanted) =
    let again = take_scopes p c seen wanted in
    let rest = take_scopes p c (s ∷ seen) wanted in
    if not (known_scope p s) || not (contains c.scopes s)
    then none
    else if contains seen s
    then again
    else elim rest [ none ↦ none | some out ↦ some (s ∷ out) ]

unfoldable pub requested_scopes : Provider → Str → Client → Option (List Str)
unfolding take_scopes
requested_scopes p raw c = if is_empty (fields raw) then none else take_scopes p c [] (fields raw)

-- The loop of `requestedResources`.
unfoldable pub take_resources : Provider → List Str → List Str → List Str → Option (List Str)
unfolding covers_all
take_resources p scopes seen [] = some []
take_resources p scopes seen (v ∷ values) =
    let again = take_resources p scopes seen values in
    let rest = take_resources p scopes (v ∷ seen) values in
    elim (find_where (λ r. r.identifier == v) p.resources) [
      | none ↦ none
      | some res ↦
          if not (is_empty res.scopes) && not (covers_all res.scopes scopes)
          then none
          else if contains seen v
          then again
          else elim rest [ none ↦ none | some out ↦ some (v ∷ out) ]
    ]

unfoldable pub requested_resources : Provider → List Str → List Str → Option (List Str)
unfolding take_resources
requested_resources p values scopes = elim (take_resources p scopes [] values) [
  | none ↦ none
  | some out ↦ if ltb 1 (length out) then none else some out
]
