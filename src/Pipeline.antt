-- ===== src/Pipeline.antt =====
-- The middleware pipeline: packages/fss-mcp/src/fss_mcp/middleware/pipeline.py.
-- What a request reads of the context and the clocks is `RequestContext`; what outlives it, or is
-- read later by the same request, is `State`. Log and metric calls are left out, and so are the
-- correlation ids of errors.
pub mod Steps
pub mod Process
pub mod Admission
mod Tests
use fss_chassis.Base.{ℕ, Bool, Text, List, Option}
use fss_chassis.Auth.{AuthProvider, AuthServices, AuthError}
use fss_chassis.Fit.{JwtLibrary, Settings, FitClaims, FitError}
use fss_chassis.IoLimits.{IoError}
use fss_chassis.Json.{Json, Fields}
use fss_chassis.RateLimiter.Limiter.{RateLimiter, RateLimitResult}
use fss_chassis.Replay.{Seen, Rejection}
use fss_chassis.Sanitization.Characters.{UnicodeData}
use fss_chassis.Sanitization.Values.{SanitizationError}
use fss_chassis.Validation.{Error, ValidationLimits}

-- The part of SecurityConfig that the checks read
pub record PipelineConfig : Type 0 where
  pub replay_window_seconds : ℕ
  pub max_request_size : ℕ
  pub max_response_size : ℕ
  pub sanitization_enabled : Bool
  pub sanitization_level : Text
  pub validation_enabled : Bool
  pub validation_limits : ValidationLimits
  pub fit_enforce : Bool
  pub fit_settings : Settings
  pub server_identity : Text

pub record RequestContext : Type 0 where
  pub utc_now : ℕ
  pub monotonic_seconds : ℕ
  pub monotonic_ticks : ℕ
  pub request_timestamp : Option Text
  pub token : Text
  pub fit_token : Text
  pub investigation_id : Text
  pub invocation_type : Text
  pub session_id : Option Text

-- The FIT variables of the context are set together.
pub record State : Type 0 where
  pub seen_timestamps : Seen
  pub auth_provider : AuthProvider
  pub rate_limiter : RateLimiter
  pub client_identity : Option Text
  pub fit_claims : Option FitClaims

-- The libraries that the checks stand on; `dumps` is `json.dumps` of a dict.
pub record Libraries : Type 0 where
  pub dumps : Fields → Text
  pub parse_timestamp : Text → Option ℕ
  pub unicode : UnicodeData
  pub auth : AuthServices
  pub jwt : JwtLibrary

-- `MiddlewareResult.error` of the exception that a step caught
pub data Refusal : Type 0 where
  replayed : Rejection → Refusal
  io_limit : IoError → Refusal
  not_authenticated : AuthError → Refusal
  fit_required : Refusal
  fit_invalid : FitError → Refusal
  rate_limited : RateLimitResult → Refusal
  not_sanitized : SanitizationError → Refusal
  invalid : List Error → Refusal

-- An exception that no step catches ends the request with no result.
pub data Answer (A : Type 0) : Type 0 where
  allowed : A → Answer A
  refused : Refusal → Answer A
  crashed : Answer A
