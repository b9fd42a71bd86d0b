-- ===== src/Auth.antt =====
-- Authentication: packages/fss-core/src/fss_core/auth.py, and `_run_auth` of
-- packages/fss-mcp/src/fss_mcp/middleware/pipeline.py.
-- SHA-256, the key file, HTTP and PyJWT are parameters. Texts here hold no surrogates, so that their
-- UTF-8 bytes are equal exactly where they are.
pub mod Providers
pub mod Scopes
pub mod Keys
mod Tests
use fss_chassis.Base.{ℕ, Bool, true, false, Text, List, Option, none, some, [], Result}
use fss_chassis.Base.Dict.{Dict}

pub record AuthIdentity : Type 0 where
  pub id : Text
  pub scopes : List Text

pub record AuthResult : Type 0 where
  pub authenticated : Bool
  pub identity : Option AuthIdentity
  pub reason : Text

abbrev pub success : AuthIdentity → AuthResult
success i = record { authenticated = true; identity = some i; reason = [] }

abbrev pub failure : Text → AuthResult
failure reason = record { authenticated = false; identity = none; reason = reason }

-- What a decoded token has of `sub`, which is required, and of `client_id`.
pub record JwtPayload : Type 0 where
  pub sub : Text
  pub client_id : Option Text

-- What the providers take of the libraries; an exception is its message.
pub record AuthServices : Type 0 where
  pub strip : Text → Text
  pub sha256_hex : Text → Text
  -- json.loads(Path(p).read_text()), or an exception
  pub read_keys : Text → Option (Dict Text Text)
  -- the GET of the JWKS document, which the code only keeps: whether it is not empty
  pub fetch_jwks : Text → Result Text Bool
  -- PyJWKClient and `decode`, by URL, audience, issuer and token
  pub decode_jwt : Text → Option Text → Option Text → Text → Result Text JwtPayload

pub record ApiKeys : Type 0 where
  pub keys_path : Text
  pub max_age_days : ℕ
  pub key_store : Dict Text Text

-- `cached_at` is there once a document is held that is not empty.
pub record OauthJwt : Type 0 where
  pub jwks_url : Text
  pub audience : Text
  pub issuer : Text
  pub cached_at : Option ℕ

pub data AuthProvider : Type 0 where
  no_auth : AuthProvider
  token_auth : Text → AuthProvider
  api_key : ApiKeys → AuthProvider
  oauth : OauthJwt → AuthProvider

-- The fields of AuthConfig that `create_auth_provider` reads
pub record ProviderConfig : Type 0 where
  pub api_keys_path : Text
  pub api_key_max_age_days : ℕ
  pub oauth_jwks_url : Text
  pub oauth_audience : Text
  pub oauth_issuer : Text

-- AuthError, with what its message shows
pub data AuthError : Type 0 where
  authentication_failed : (reason : Text) → AuthError
  lacks_scopes : (name : Text) → AuthError
  unknown_provider : Text → AuthError
