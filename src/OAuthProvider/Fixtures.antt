-- ===== src/OAuthProvider/Fixtures.antt =====
-- A server with one public client, one code and one refresh token, for the examples, and signatures that
-- can be read back.
use auth_all.Prelude.{
  ℕ, ◌≡◌, zero, suc, refl, false, [], ◌∷◌, Option, none, some, Str, codes, str_eq,
}
use auth_all.Accounts.{User, user_by_id}
use auth_all.Accounts as Accounts
use auth_all.OAuthProvider.Rows.{Db, OAuthGrant, OAuthCode, OAuthRefreshToken}
use auth_all.OAuthProvider.Clients.{
  Provider, StaticClient, Client, Uri, Reply, answer, refuse, static_to_client,
}
use auth_all.OAuthProvider.Issue.{AccessClaims, IdClaims, TokenResponse, access_claims}
use auth_all.OAuthProvider.Exchange.{Form, Fresh}
use auth_all.OAuthProvider.Resource.{VerifiedToken}

abbrev pub same : Str → Str
same s = s

abbrev pub no_uri : Str → Option Uri
no_uri s = none

-- A signature that can be read back: each text ends with a zero.
unfoldable pub put_text : Str → Str → Str
put_text [] rest = 0 ∷ rest
put_text (n ∷ s) rest = suc n ∷ put_text s rest

unfoldable pub take_text : Str → Str × Str
take_text [] = ([], [])
take_text (zero ∷ s) = ([], s)
take_text (suc n ∷ s) = let (a, b) = take_text s in (n ∷ a, b)

pub take-put : (s rest : Str) → take_text (put_text s rest) ≡ (s, rest)
unfolding put_text take_text
take-put [] rest = refl
take-put (n ∷ s) rest = rw (take-put s rest) refl

unfoldable pub sign : AccessClaims → Str
unfolding put_text
sign c =
    c.issued_at
    ∷ (c.expiry
        ∷ (c.auth_time
            ∷ put_text c.issuer (
                put_text c.subject (
                  put_text c.audience (
                    put_text c.client_id (
                      put_text c.scope
                        (put_text c.id (put_text c.confirm_jkt (put_text c.grant_id [])))))))))

unfoldable pub verify : Str → Option AccessClaims
unfolding take_text
verify (issued_at ∷ expiry ∷ auth_time ∷ s) =
    let (issuer, s1) = take_text s in
    let (subject, s2) = take_text s1 in
    let (audience, s3) = take_text s2 in
    let (client_id, s4) = take_text s3 in
    let (scope, s5) = take_text s4 in
    let (id, s6) = take_text s5 in
    let (confirm_jkt, s7) = take_text s6 in
    let (grant_id, s8) = take_text s7 in
    some (record {
      issuer = issuer;
      subject = subject;
      audience = audience;
      client_id = client_id;
      scope = scope;
      issued_at = issued_at;
      expiry = expiry;
      id = id;
      auth_time = auth_time;
      confirm_jkt = confirm_jkt;
      grant_id = grant_id;
    })
verify _ = none

pub verify-sign : (c : AccessClaims) → verify (sign c) ≡ some c
verify-sign c =
    unfold verify sign in
    (rw
      (
        take-put c.issuer _,
        take-put c.subject _,
        take-put c.audience _,
        take-put c.client_id _,
        take-put c.scope _,
        take-put c.id _,
        take-put c.confirm_jkt _,
        take-put c.grant_id [],
      )
      refl)

abbrev pub app : StaticClient
app = record {
  client_id = codes "app";
  secret = [];
  redirect_uris = codes "r" ∷ [];
  grant_types = [];
  scopes = [];
  auth_method = [];
  dpop_required = false;
}

abbrev pub provider : Provider
provider = record {
  issuer = codes "iss";
  scopes = codes "openid" ∷ codes "offline_access" ∷ codes "doc" ∷ [];
  static_clients = app ∷ [];
  resources = [];
  access_token_ttl = 600000000000;
  refresh_token_ttl = 6000000000000;
  code_ttl = 60;
  request_ttl = 60;
  rotation_grace = 10;
}

abbrev pub client : Client
client = static_to_client same provider app

abbrev pub grant : Str → OAuthGrant
grant id = record {
  id = id;
  client_id = codes "app";
  user_id = some (codes "ada");
  scopes = codes "doc" ∷ codes "offline_access" ∷ [];
  resources = [];
  auth_time = none;
  session_id = none;
  created_at = 0;
  revoked_at = none;
}

abbrev pub code_row : OAuthCode
code_row = record {
  id = codes "k";
  code_hash = codes "code";
  grant_id = codes "g";
  client_id = codes "app";
  redirect_uri = codes "r";
  code_challenge = codes "v";
  nonce = [];
  scopes = codes "doc" ∷ codes "offline_access" ∷ [];
  resources = [];
  dpop_jkt = [];
  created_at = 0;
  expires_at = 1000;
  consumed_at = none;
}

abbrev pub refresh_row : Option ℕ → OAuthRefreshToken
refresh_row rotated_at = record {
  id = codes "t";
  token_hash = codes "old";
  grant_id = codes "g";
  client_id = codes "app";
  user_id = some (codes "ada");
  scopes = codes "doc" ∷ codes "offline_access" ∷ [];
  resources = [];
  jkt = [];
  created_at = 0;
  expires_at = 1000;
  rotated_at = rotated_at;
  successor_id = none;
  revoked_at = none;
}

abbrev pub db : Option ℕ → Db
db rotated_at = record {
  clients = [];
  requests = [];
  grants = grant (codes "g") ∷ grant (codes "g2") ∷ [];
  codes = code_row ∷ [];
  access_tokens = [];
  refresh_tokens = refresh_row rotated_at ∷ [];
  consents = [];
  proofs = [];
}

abbrev pub form : Form
form = record {
  grant_type = codes "authorization_code";
  code = codes "code";
  code_verifier = codes "v";
  redirect_uri = codes "r";
  refresh_token = codes "old";
  scope = [];
  resource = [];
}

abbrev pub fresh : Fresh
fresh = record {
  access_id = codes "a1";
  refresh_id = codes "t1";
  grant_id = codes "g9";
  plaintext = codes "new";
}

-- The answer of a call, and an empty one for a refusal.
abbrev pub answer_of : Reply TokenResponse → TokenResponse
answer_of (answer r) = r
answer_of (refuse e) = record {
  access_token = [];
  token_type = [];
  expires_in = 0;
  refresh_token = none;
  id_token = none;
  scope = [];
}

abbrev pub no_id : IdClaims → Str
no_id c = []

abbrev pub ada : User
ada = record {
  id = codes "ada";
  role = codes "user";
  disabled_at = none;
  must_change_password = false;
  updated_at = 0;
}

abbrev pub accounts : Accounts.Db
accounts = record { users = ada ∷ []; sessions = [] }

-- A token of the second grant, and a verifier that knows it only.
abbrev pub shown : VerifiedToken
shown = record {
  claims = record {
    issuer = codes "iss";
    subject = codes "ada";
    audience = codes "iss";
    client_id = codes "app";
    scope = codes "doc";
    issued_at = 0;
    expiry = 100;
    id = codes "a2";
    auth_time = 0;
    confirm_jkt = [];
    grant_id = codes "g2";
  };
  row = record {
    id = codes "a2";
    grant_id = codes "g2";
    client_id = codes "app";
    user_id = some (codes "bob");
    scopes = codes "doc" ∷ [];
    audience = codes "iss";
    jkt = [];
    created_at = 0;
    expires_at = 100;
    revoked_at = none;
  };
}

abbrev pub verifies_shown : Str → Option AccessClaims
verifies_shown token = some shown.claims

-- A token for a resource, and one for the server itself.
abbrev pub foreign : Str
foreign = sign (
    access_claims sign no_id same provider client (grant (codes "g")) (codes "doc" ∷ [])
      (codes "api" ∷ []) [] (codes "a1") 10)

abbrev pub own : Str
own = sign (
    access_claims sign no_id same provider client (grant (codes "g")) (codes "doc" ∷ []) [] []
      (codes "a1") 10)
