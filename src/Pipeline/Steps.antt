-- ===== src/Pipeline/Steps.antt =====
-- The single steps of `MiddlewarePipeline`
-- (packages/fss-mcp/src/fss_mcp/middleware/pipeline.py).
use fss_chassis.Base.{
  not, ◌&&◌, Text, text, Option, none, some, List, [], ◌∷◌, if◌then◌else◌, Result, returns, raises,
}
use fss_chassis.Auth.Providers.{run_auth}
use fss_chassis.Fit.{Call, FitClaims, FitError}
use fss_chassis.Fit.Verify.{is_empty, verify_fit}
use fss_chassis.IoLimits.{IoError, unicode_encode_error, string, check_request_size}
use fss_chassis.Json.{Json, Fields, obj}
use fss_chassis.Pipeline.{
  PipelineConfig, RequestContext, State, Libraries, Refusal, replayed, io_limit, not_authenticated,
  fit_required, fit_invalid, rate_limited, not_sanitized, invalid, Answer, allowed, refused,
  crashed,
}
use fss_chassis.RateLimiter.Limiter.{Outcome, RateLimitResult}
use fss_chassis.RateLimiter.Limiter
use fss_chassis.Replay.{check_replay}
use fss_chassis.Sanitization.Values.{SanitizationError, sanitize_input}
use fss_chassis.Validation.{Schema, Error}
use fss_chassis.Validation.Checks.{raise_if_invalid}

-- A step: it answers from the state, and changes it.
abbrev pub Run : Type 0 → Type 0
Run A = State → Answer A × State

abbrev pub go_on : {A : Type 0} {B : Type 0} → (A → Run B) → Answer A × State → Answer B × State
go_on f (allowed a, s) = f a s
go_on f (refused r, s) = (refused r, s)
go_on f (crashed, s) = (crashed, s)

infixl 5 ◌>>=◌ ◌>>◌
abbrev pub ◌>>=◌ : {A : Type 0} {B : Type 0} → Run A → (A → Run B) → Run B
(m >>= f) s = go_on f (m s)

abbrev pub ◌>>◌ : {B : Type 0} → Run (Unit {0}) → Run B → Run B
(m >> k) s = (m >>= λ _. k) s

abbrev pub allow : {A : Type 0} → A → Run A
allow a s = (allowed a, s)

abbrev pub if_refused : {E : Type 0} → (E → Refusal) → Option E → Answer (Unit {0})
if_refused f none = allowed tt
if_refused f (some e) = refused (f e)

module _ (lib : Libraries) (config : PipelineConfig) (request : RequestContext) where
  unfoldable pub replay_step : Run (Unit {0})
  replay_step s =
      let (rejection, seen) =
        check_replay lib.parse_timestamp config.replay_window_seconds request.utc_now
          request.request_timestamp s.seen_timestamps in
      (if_refused replayed rejection, record s { seen_timestamps = seen })

  -- An exception of `encode` is no IOLimitError.
  abbrev size_answer : Result IoError (Unit {0}) → Answer (Unit {0})
  size_answer (returns _) = allowed tt
  size_answer (raises unicode_encode_error) = crashed
  size_answer (raises e) = refused (io_limit e)

  unfoldable pub size_step : Fields → Run (Unit {0})
  size_step arguments s =
      (size_answer (check_request_size (string (lib.dumps arguments)) config.max_request_size), s)

  unfoldable pub auth_step : Text → List Text → Run (Unit {0})
  auth_step name scopes s =
      let (error, provider, client) =
        run_auth lib.auth request.monotonic_seconds s.auth_provider request.token name scopes
          s.client_identity in
      (
        if_refused not_authenticated error,
        record s { auth_provider = provider; client_identity = client },
      )

  abbrev or_empty : Option Text → Text
  or_empty none = []
  or_empty (some t) = t

  abbrev or_supervised : Text → Text
  or_supervised [] = text "agent_supervised"
  or_supervised (c ∷ t) = c ∷ t

  abbrev pub fit_call : Text → State → Call
  fit_call tool_name s = record {
    tool_name = tool_name;
    investigation_id = request.investigation_id;
    client_identity = or_empty s.client_identity;
    invocation_type = or_supervised request.invocation_type;
    server_identity = config.server_identity;
  }

  abbrev pub keep_claims : State → Result FitError FitClaims → Answer (Unit {0}) × State
  keep_claims s (returns claims) = (allowed tt, record s { fit_claims = some claims })
  keep_claims s (raises e) = (refused (fit_invalid e), s)

  -- `_run_fit`
  unfoldable pub fit_step : Text → Run (Unit {0})
  fit_step tool_name s =
      if config.fit_enforce && not (is_empty request.investigation_id) && is_empty request.fit_token
      then (refused fit_required, s)
      else if is_empty request.fit_token
      then (allowed tt, s)
      else keep_claims s
          (verify_fit lib.jwt config.fit_settings request.fit_token (fit_call tool_name s))

  abbrev pub rate_answer : Outcome → Answer (Unit {0})
  rate_answer (Outcome.returns r) = if r.allowed then allowed tt else refused (rate_limited r)
  rate_answer Outcome.raises_key_error = crashed
  rate_answer Outcome.raises_runtime_error = crashed

  -- `_run_rate_limit`
  unfoldable pub rate_limit_step : Text → Run (Unit {0})
  rate_limit_step name s =
      let (outcome, limiter) =
        Limiter.check request.monotonic_ticks request.session_id name s.rate_limiter in
      (rate_answer outcome, record s { rate_limiter = limiter })

  -- `sanitize_input` of a dict gives a dict.
  abbrev pub sanitize_answer : Result SanitizationError Json → Answer Fields
  sanitize_answer (returns (obj fs)) = allowed fs
  sanitize_answer (returns _) = crashed
  sanitize_answer (raises e) = refused (not_sanitized e)

  unfoldable pub sanitize_step : Fields → Run Fields
  sanitize_step arguments s =
      if config.sanitization_enabled
      then (
        sanitize_answer (sanitize_input lib.unicode config.sanitization_level 0 (obj arguments)),
        s,
      )
      else (allowed arguments, s)

  abbrev pub validate_answer : Result (List Error) (Unit {0}) → Answer (Unit {0})
  validate_answer (returns _) = allowed tt
  validate_answer (raises errors) = refused (invalid errors)

  unfoldable pub validate_step : Fields → Schema → Run (Unit {0})
  validate_step sanitized schema s =
      if config.validation_enabled
      then (validate_answer (raise_if_invalid sanitized schema config.validation_limits), s)
      else (allowed tt, s)

  unfoldable pub process_tool_request : Text → Fields → Schema → List Text → Run Fields
  process_tool_request tool_name arguments schema required_scopes = do
    replay_step
    size_step arguments
    auth_step tool_name required_scopes
    fit_step tool_name
    rate_limit_step tool_name
    sanitized ← sanitize_step arguments
    validate_step sanitized schema
    allow sanitized

  unfoldable pub process_resource_request : Text → List Text → Run (Unit {0})
  process_resource_request resource_uri required_scopes = do
    auth_step resource_uri required_scopes
    rate_limit_step resource_uri

  unfoldable pub process_prompt_request : Text → Fields → List Text → Run Fields
  process_prompt_request prompt_name arguments required_scopes = do
    size_step arguments
    auth_step prompt_name required_scopes
    rate_limit_step prompt_name
    sanitize_step arguments
