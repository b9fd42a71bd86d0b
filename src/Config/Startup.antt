-- ===== src/Config/Startup.antt =====
-- What the server makes of its configuration at its start: `MiddlewarePipeline.__init__`
-- (packages/fss-mcp/src/fss_mcp/middleware/pipeline.py), and of `ChassisServer` the refusal of token
-- authentication on stdio and the choice of a transport (packages/fss-mcp/src/fss_mcp/server.py).
use fss_chassis.Base.{
  ℕ, Bool, not, ◌&&◌, Text, text, text_eq, ◌==◌, Option, none, some, if◌then◌else◌, Result, returns,
  raises, ◌>>=◌,
}
use fss_chassis.Base.Int.{ℤ, pos, negsuc}
use fss_chassis.Auth.{AuthServices, AuthProvider, AuthError, ProviderConfig}
use fss_chassis.Auth.Providers.{create_auth_provider}
use fss_chassis.Config.{AuthConfig, RateLimits, ValidationConfig, SecurityConfig, ServerConfig}
use fss_chassis.RateLimiter.Limiter.{RateLimitConfig, RateLimiter}
use fss_chassis.RateLimiter.Limiter
use fss_chassis.Validation.{ValidationLimits}

-- A number that is negative only where it is not read
abbrev pub to_nat : ℤ → ℕ
to_nat (pos n) = n
to_nat (negsuc n) = 0

unfoldable pub effective_mode : AuthConfig → Text
effective_mode auth =
    if not (auth.mode == text "none")
    then auth.mode
    else if auth.enabled
    then auth.provider
    else text "none"

abbrev pub provider_config : AuthConfig → ProviderConfig
provider_config auth = record {
  api_keys_path = auth.api_keys_path;
  api_key_max_age_days = to_nat auth.api_key_max_age_days;
  oauth_jwks_url = auth.oauth_jwks_url;
  oauth_audience = auth.oauth_audience;
  oauth_issuer = auth.oauth_issuer;
}

abbrev pub limiter_config : RateLimits → RateLimitConfig
limiter_config limits = record {
  enabled = limits.enabled;
  global_rpm = to_nat limits.global_rpm;
  per_tool_rpm = to_nat limits.per_tool_rpm;
  burst_size = to_nat limits.burst_size;
}

abbrev pub validation_limits : ValidationConfig → ValidationLimits
validation_limits limits = record {
  max_string_length = to_nat limits.max_string_length;
  max_array_length = to_nat limits.max_array_length;
  max_object_depth = to_nat limits.max_object_depth;
}

-- The fields that `__init__` sets
pub record Pipeline : Type 0 where
  pub rate_limiter : RateLimiter
  pub auth_provider : AuthProvider
  pub limits : ValidationLimits
  pub sanitization_level : Text

unfoldable pub init_pipeline : AuthServices → ℕ → SecurityConfig → Result AuthError Pipeline
init_pipeline lib now config = do
  provider ←
      create_auth_provider lib (effective_mode config.auth) config.auth.token
        (provider_config config.auth)
  returns (record {
    rate_limiter = Limiter.init now (limiter_config config.rate_limits);
    auth_provider = provider;
    limits = validation_limits config.input_validation;
    sanitization_level = config.input_sanitization.level;
  })

-- The condition of the ValueError of `ChassisServer.__init__`
unfoldable pub is_token_on_stdio : ServerConfig → Bool
is_token_on_stdio config =
    config.security.auth.enabled
    && config.security.auth.provider == text "token"
    && config.server.transport == text "stdio"

pub data StartError : Type 0 where
  auth_error : AuthError → StartError
  token_on_stdio : StartError

abbrev pub unless_token_on_stdio :
    ServerConfig → Result AuthError Pipeline → Result StartError Pipeline
unless_token_on_stdio config (raises e) = raises (auth_error e)
unless_token_on_stdio config (returns pipeline) =
    if is_token_on_stdio config then raises token_on_stdio else returns pipeline

-- `ChassisServer.__init__` up to that check. What the init hook raises is caught, and `config` is
-- frozen.
unfoldable pub init_server : AuthServices → ℕ → ServerConfig → Result StartError Pipeline
init_server lib now config = unless_token_on_stdio config (init_pipeline lib now config.security)

pub data Transport : Type 0 where
  stdio http : Transport

-- `run`; UNKNOWN_TRANSPORT is `none`.
unfoldable pub choose_transport : Text → Option Transport
choose_transport name =
    if name == text "stdio" then some stdio else if name == text "http" then some http else none
