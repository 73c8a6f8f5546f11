-- ===== src/OAuthProvider/Rows.antt =====
-- store/oauthprovider.go: the rows of the authorization server, and the tables. A list column is the list
-- of its words.
use auth_all.Prelude.{ℕ, Bool, List, Option, Str}

pub record OAuthClient : Type 0 where
  pub id : Str
  pub client_id : Str
  pub secret_hash : Str
  pub redirect_uris : List Str
  pub grant_types : List Str
  pub scopes : List Str
  pub auth_method : Str
  pub dpop_required : Bool

pub record OAuthAuthorizationRequest : Type 0 where
  pub id : Str
  pub client_id : Str
  pub redirect_uri : Str
  pub scopes : List Str
  pub resources : List Str
  pub state : Str
  pub nonce : Str
  pub code_challenge : Str
  pub code_challenge_method : Str
  pub prompt : List Str
  pub max_age : Option ℕ
  pub dpop_jkt : Str
  pub created_at : ℕ
  pub expires_at : ℕ
  pub consumed_at : Option ℕ

pub record OAuthGrant : Type 0 where
  pub id : Str
  pub client_id : Str
  pub user_id : Option Str
  pub scopes : List Str
  pub resources : List Str
  pub auth_time : Option ℕ
  pub session_id : Option Str
  pub created_at : ℕ
  pub revoked_at : Option ℕ

pub record OAuthCode : Type 0 where
  pub id : Str
  pub code_hash : Str
  pub grant_id : Str
  pub client_id : Str
  pub redirect_uri : Str
  pub code_challenge : Str
  pub nonce : Str
  pub scopes : List Str
  pub resources : List Str
  pub dpop_jkt : Str
  pub created_at : ℕ
  pub expires_at : ℕ
  pub consumed_at : Option ℕ

pub record OAuthAccessToken : Type 0 where
  pub id : Str
  pub grant_id : Str
  pub client_id : Str
  pub user_id : Option Str
  pub scopes : List Str
  pub audience : Str
  pub jkt : Str
  pub created_at : ℕ
  pub expires_at : ℕ
  pub revoked_at : Option ℕ

pub record OAuthRefreshToken : Type 0 where
  pub id : Str
  pub token_hash : Str
  pub grant_id : Str
  pub client_id : Str
  pub user_id : Option Str
  pub scopes : List Str
  pub resources : List Str
  pub jkt : Str
  pub created_at : ℕ
  pub expires_at : ℕ
  pub rotated_at : Option ℕ
  pub successor_id : Option Str
  pub revoked_at : Option ℕ

pub record OAuthConsent : Type 0 where
  pub id : Str
  pub client_id : Str
  pub user_id : Str
  pub scopes : List Str
  pub resources : List Str
  pub created_at : ℕ
  pub updated_at : ℕ

-- A proof identifier with its end.
pub record OAuthProof : Type 0 where
  pub id : Str
  pub expires_at : ℕ

pub record Db : Type 0 where
  pub clients : List OAuthClient
  pub requests : List OAuthAuthorizationRequest
  pub grants : List OAuthGrant
  pub codes : List OAuthCode
  pub access_tokens : List OAuthAccessToken
  pub refresh_tokens : List OAuthRefreshToken
  pub consents : List OAuthConsent
  pub proofs : List OAuthProof
