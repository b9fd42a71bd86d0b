-- ===== src/Config/Build.antt =====
-- `_build_config` and its parts (packages/fss-mcp/src/fss_mcp/config.py).
use fss_chassis.Base.{
  zero, suc, ◌-◌, Bool, true, false, ◌&&◌, Text, text, text_eq, List, [], ◌∷◌, leb, if◌then◌else◌,
  map, Result, returns, raise_unless, ◌>>=◌, ◌>>◌,
}
use fss_chassis.Base.Int.{ℤ, pos, negsuc}
use fss_chassis.Config.{
  RawRateLimits, RawIoLimits, RawValidation, RawSanitization, RawAuth, RawSecurity, RawServer,
  RawExtensions, RawDiagnostics, Raw, RateLimits, IoLimitConfig, ValidationConfig,
  SanitizationConfig, AuthConfig, SecurityConfig, ServerSettings, ExtensionSettings,
  DiagnosticSettings, ServerConfig, ConfigError, invalid_transport, invalid_log_level,
  invalid_profile, not_positive, invalid_level, invalid_provider, invalid_mode, get_or,
}
use fss_chassis.Config.Profiles.{
  get_profile, over_rate_limits, over_io_limits, over_validation, over_sanitization, over_auth,
}
use fss_chassis.Fit.Verify.{member}

abbrev pub valid_transports : List Text
valid_transports = text "stdio" ∷ text "http" ∷ []

abbrev pub valid_log_levels : List Text
valid_log_levels = text "DEBUG" ∷ text "INFO" ∷ text "WARNING" ∷ text "ERROR" ∷ text "CRITICAL" ∷ []

abbrev pub valid_profiles : List Text
valid_profiles = text "strict" ∷ text "moderate" ∷ text "permissive" ∷ []

abbrev pub valid_auth_providers : List Text
valid_auth_providers = text "none" ∷ text "token" ∷ text "apikey" ∷ text "oauth" ∷ []

abbrev pub valid_auth_modes : List Text
valid_auth_modes = text "none" ∷ text "apikey" ∷ text "oauth" ∷ []

abbrev pub valid_sanitization_levels : List Text
valid_sanitization_levels = text "strict" ∷ text "moderate" ∷ text "permissive" ∷ []

abbrev pub is_positive : ℤ → Bool
is_positive (pos zero) = false
is_positive (pos (suc n)) = true
is_positive (negsuc n) = false

unfoldable pub check_positive : ℤ → Text → Result ConfigError (Unit {0})
check_positive value name = raise_unless (is_positive value) (not_positive name value)

abbrev pub checked_rate_limits : RateLimits → Result ConfigError RateLimits
checked_rate_limits limits = do
  check_positive limits.global_rpm (text "global_rpm")
  check_positive limits.per_tool_rpm (text "per_tool_rpm")
  check_positive limits.burst_size (text "burst_size")
  returns limits

abbrev pub rate_limits_of : RawRateLimits → RateLimits
rate_limits_of raw = record {
  enabled = get_or true raw.enabled;
  global_rpm = get_or (pos 60) raw.global_rpm;
  per_tool_rpm = get_or (pos 30) raw.per_tool_rpm;
  burst_size = get_or (pos 10) raw.burst_size;
}

-- The numbers are checked only where the limits are enabled.
abbrev pub checked_if_enabled : RateLimits → Result ConfigError RateLimits
checked_if_enabled limits = if limits.enabled then checked_rate_limits limits else returns limits

unfoldable pub build_rate_limits : RawRateLimits → Result ConfigError RateLimits
build_rate_limits raw = checked_if_enabled (rate_limits_of raw)

abbrev pub checked_io_limits : IoLimitConfig → Result ConfigError IoLimitConfig
checked_io_limits limits = do
  check_positive limits.max_request_size (text "max_request_size")
  check_positive limits.max_response_size (text "max_response_size")
  returns limits

abbrev pub io_limits_of : RawIoLimits → IoLimitConfig
io_limits_of raw = record {
  max_request_size = get_or (pos 1_048_576) raw.max_request_size;
  max_response_size = get_or (pos 5_242_880) raw.max_response_size;
}

unfoldable pub build_io_limits : RawIoLimits → Result ConfigError IoLimitConfig
build_io_limits raw = checked_io_limits (io_limits_of raw)

abbrev pub checked_validation : ValidationConfig → Result ConfigError ValidationConfig
checked_validation limits = do
  check_positive limits.max_string_length (text "max_string_length")
  check_positive limits.max_array_length (text "max_array_length")
  check_positive limits.max_object_depth (text "max_object_depth")
  returns limits

abbrev pub validation_of : RawValidation → ValidationConfig
validation_of raw = record {
  enabled = get_or true raw.enabled;
  max_string_length = get_or (pos 10_000) raw.max_string_length;
  max_array_length = get_or (pos 100) raw.max_array_length;
  max_object_depth = get_or (pos 10) raw.max_object_depth;
}

unfoldable pub build_validation : RawValidation → Result ConfigError ValidationConfig
build_validation raw = checked_validation (validation_of raw)

abbrev pub checked_sanitization : SanitizationConfig → Result ConfigError SanitizationConfig
checked_sanitization c = do
  raise_unless (member c.level valid_sanitization_levels) (invalid_level c.level)
  returns c

abbrev pub sanitization_of : RawSanitization → SanitizationConfig
sanitization_of raw = record {
  enabled = get_or true raw.enabled;
  level = get_or (text "strict") raw.level;
}

unfoldable pub build_sanitization : RawSanitization → Result ConfigError SanitizationConfig
build_sanitization raw = checked_sanitization (sanitization_of raw)

abbrev pub checked_auth : AuthConfig → Result ConfigError AuthConfig
checked_auth auth = do
  raise_unless (member auth.provider valid_auth_providers) (invalid_provider auth.provider)
  raise_unless (member auth.mode valid_auth_modes) (invalid_mode auth.mode)
  returns auth

abbrev pub auth_of : RawAuth → AuthConfig
auth_of raw = record {
  enabled = get_or false raw.enabled;
  provider = get_or (text "none") raw.provider;
  mode = get_or (text "none") raw.mode;
  token = get_or [] raw.token;
  api_keys_path = get_or [] raw.api_keys_path;
  api_key_max_age_days = get_or (pos 90) raw.api_key_max_age_days;
  oauth_jwks_url = get_or [] raw.oauth_jwks_url;
  oauth_audience = get_or [] raw.oauth_audience;
  oauth_issuer = get_or [] raw.oauth_issuer;
}

unfoldable pub build_auth : RawAuth → Result ConfigError AuthConfig
build_auth raw = checked_auth (auth_of raw)

unfoldable pub build_sections :
    (profile : Text) (rate_limits : RawRateLimits) (io_limits : RawIoLimits)
    (input_validation : RawValidation) (input_sanitization : RawSanitization) (auth : RawAuth)
    (detailed_errors : Bool) (replay_window_seconds : ℤ) (security_log_path : Text)
    → Result ConfigError SecurityConfig
build_sections profile rl io val san au detailed window path = do
  rate_limits ← build_rate_limits rl
  io_limits ← build_io_limits io
  validation ← build_validation val
  sanitization ← build_sanitization san
  auth ← build_auth au
  returns (record {
    profile = profile;
    rate_limits = rate_limits;
    io_limits = io_limits;
    input_validation = validation;
    input_sanitization = sanitization;
    auth = auth;
    detailed_errors = detailed;
    replay_window_seconds = window;
    security_log_path = path;
  })

-- Each section is that of the profile, under what the file has.
unfoldable pub build_from : Text → RawSecurity → RawSecurity → Result ConfigError SecurityConfig
build_from profile defaults raw =
    build_sections profile (over_rate_limits raw.rate_limits defaults.rate_limits)
      (over_io_limits raw.io_limits defaults.io_limits)
      (over_validation raw.input_validation defaults.input_validation)
      (over_sanitization raw.input_sanitization defaults.input_sanitization)
      (over_auth raw.auth defaults.auth)
      (get_or (get_or false defaults.detailed_errors) raw.detailed_errors)
      (get_or (pos 300) raw.replay_window_seconds) (get_or [] raw.security_log_path)

unfoldable pub build_security_config : RawSecurity → Result ConfigError SecurityConfig
build_security_config raw = do
  raise_unless (member (get_or (text "strict") raw.profile) valid_profiles)
      (invalid_profile (get_or (text "strict") raw.profile))
  defaults ← get_profile (get_or (text "strict") raw.profile)
  build_from (get_or (text "strict") raw.profile) defaults raw

-- str.upper on ASCII letters, which are all that the levels hold
abbrev pub upper : Text → Text
upper s = map (λ c. if leb b'a' c && leb c b'z' then c - 32 else c) s

abbrev pub checked_server : ServerSettings → Result ConfigError ServerSettings
checked_server s = do
  raise_unless (member s.transport valid_transports) (invalid_transport s.transport)
  raise_unless (member s.log_level valid_log_levels) (invalid_log_level s.log_level)
  returns s

abbrev pub server_of : RawServer → ServerSettings
server_of raw = record {
  name = get_or (text "mcp-chassis-server") raw.name;
  version = get_or (text "0.1.0") raw.version;
  transport = get_or (text "stdio") raw.transport;
  log_level = upper (get_or (text "INFO") raw.log_level);
}

unfoldable pub build_server_settings : RawServer → Result ConfigError ServerSettings
build_server_settings raw = checked_server (server_of raw)

unfoldable pub build_extension_settings : RawExtensions → ExtensionSettings
build_extension_settings raw = record {
  auto_discover = get_or true raw.auto_discover;
  init_module = get_or [] raw.init_module;
  discovery_packages = get_or [] raw.discovery_packages;
}

unfoldable pub build_diagnostic_settings : RawDiagnostics → DiagnosticSettings
build_diagnostic_settings raw = record {
  health_check_enabled = get_or true raw.health_check_enabled;
  include_config_summary = get_or false raw.include_config_summary;
}

unfoldable pub build_config : Raw → Result ConfigError ServerConfig
build_config raw = do
  server ← build_server_settings raw.server
  security ← build_security_config raw.security
  returns (record {
    server = server;
    security = security;
    extensions = build_extension_settings raw.extensions;
    diagnostics = build_diagnostic_settings raw.diagnostics;
  })
