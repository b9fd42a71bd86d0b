-- ===== src/Fit.antt =====
-- Verification of forensic investigation tokens: packages/fss-core/src/fss_core/fit.py.
-- PyJWT, `re.fullmatch`, `str.strip` and the formatting of times are parameters; an exception is its
-- message. `PyJWT` is installed, and the patterns of a token are regular expressions.
pub mod Verify
pub mod Verified
mod Tests
use fss_chassis.Base.{ℕ, Bool, Text, List, Option, Result}

-- The claims of a verified token, with the defaults of `get` where one is missing; `aud` is the
-- first of a list.
pub record FitPayload : Type 0 where
  pub jti : Text
  pub exp : ℕ
  pub aud : Text
  pub legal_authority : Text
  pub purpose : Text
  pub investigation_id : Text
  pub authorized_tools : List Text
  pub authorized_analyst : Text
  pub invocation_types_permitted : List Text

pub data JwtFailure : Type 0 where
  invalid_audience : Text → JwtFailure
  expired : Text → JwtFailure
  immature : Text → JwtFailure
  other : Text → JwtFailure

pub record JwtLibrary : Type 0 where
  -- get_unverified_header(token).get("typ")
  pub header_typ : Text → Result Text (Option Text)
  -- decode without verification, and `get("iss", "")`
  pub unverified_issuer : Text → Result Text Text
  -- PyJWKClient(url).get_signing_key_from_jwt(token)
  pub signing_key : Text → Text → Result Text Text
  -- decode of a token with a key, for an audience, with `exp` and `jti` required
  pub decode : Text → Text → Option Text → Result JwtFailure FitPayload
  pub fullmatch : Text → Text → Bool
  pub strip : Text → Text
  pub format_time : ℕ → Text

-- FSS_FIT_TRUSTED_ISSUERS and FSS_FIT_ISSUER_JWKS_URL, empty where they are not set, and the revoked
-- token ids
pub record Settings : Type 0 where
  pub trusted_issuers : Text
  pub jwks_url_override : Text
  pub revoked_jtis : List Text

pub record FitClaims : Type 0 where
  pub jti : Text
  pub issuer : Text
  pub valid_until : Text
  pub aud : Text
  pub legal_authority : Text
  pub purpose : Text
  pub investigation_id : Text
  pub authorized_tools : List Text
  pub authorized_analyst : Text
  pub invocation_types_permitted : List Text

-- The request that a token is to cover; what the caller has not is the empty text.
pub record Call : Type 0 where
  pub tool_name : Text
  pub investigation_id : Text
  pub client_identity : Text
  pub invocation_type : Text
  pub server_identity : Text

-- FITVerificationError, with what its message shows
pub data FitError : Type 0 where
  bad_header : Text → FitError
  wrong_typ : Option Text → FitError
  bad_payload : Text → FitError
  no_issuer : FitError
  untrusted_issuer : Text → FitError
  no_key : Text → FitError
  not_decoded : JwtFailure → FitError
  revoked : Text → FitError
  investigation_mismatch : (fit request : Text) → FitError
  tool_not_authorized : Text → List Text → FitError
  analyst_mismatch : (client analyst : Text) → FitError
  invocation_not_permitted : Text → List Text → FitError
