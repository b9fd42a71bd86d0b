-- ===== src/Config/Profiles.antt =====
-- The named security profiles (packages/fss-mcp/src/fss_mcp/security/profiles.py).
use fss_chassis.Base.{
  ℕ, Bool, true, false, Text, text, text_eq, ◌==◌, none, some, Result, returns, raises, ◌>>=◌,
  if◌then◌else◌,
}
use fss_chassis.Base.Int.{pos}
use fss_chassis.Config.{
  RawRateLimits, RawIoLimits, RawValidation, RawSanitization, RawAuth, RawSecurity, ConfigError,
  invalid_profile, over,
}

-- What the three profiles have in common; `level` is the profile's own name.
abbrev profile_of :
    (level : Text) (limited : Bool) (global_rpm per_tool_rpm burst_size : ℕ)
    (max_request_size max_response_size : ℕ)
    (max_string_length max_array_length max_object_depth : ℕ) (detailed_errors : Bool)
    → RawSecurity
profile_of level limited g t b rq rs sl al od detailed = record {
  profile = none;
  rate_limits = record {
    enabled = some limited;
    global_rpm = some (pos g);
    per_tool_rpm = some (pos t);
    burst_size = some (pos b);
  };
  io_limits = record { max_request_size = some (pos rq); max_response_size = some (pos rs) };
  input_validation = record {
    enabled = some true;
    max_string_length = some (pos sl);
    max_array_length = some (pos al);
    max_object_depth = some (pos od);
  };
  input_sanitization = record { enabled = some true; level = some level };
  auth = record {
    enabled = some false;
    provider = some (text "none");
    mode = none;
    token = none;
    api_keys_path = none;
    api_key_max_age_days = none;
    oauth_jwks_url = none;
    oauth_audience = none;
    oauth_issuer = none;
  };
  detailed_errors = some detailed;
  replay_window_seconds = none;
  security_log_path = none;
}

abbrev pub strict : RawSecurity
strict = profile_of (text "strict") true 60 30 10 1_048_576 5_242_880 10_000 100 10 false

abbrev pub moderate : RawSecurity
moderate = profile_of (text "moderate") true 120 60 20 5_242_880 20_971_520 50_000 500 20 true

abbrev pub permissive : RawSecurity
permissive =
    profile_of (text "permissive") false 0 0 0 52_428_800 52_428_800 1_000_000 10_000 50 true

unfoldable pub get_profile : Text → Result ConfigError RawSecurity
get_profile name =
    if name == text "strict"
    then returns strict
    else if name == text "moderate"
    then returns moderate
    else if name == text "permissive"
    then returns permissive
    else raises (invalid_profile name)

abbrev pub over_rate_limits : RawRateLimits → RawRateLimits → RawRateLimits
over_rate_limits a b = record {
  enabled = over a.enabled b.enabled;
  global_rpm = over a.global_rpm b.global_rpm;
  per_tool_rpm = over a.per_tool_rpm b.per_tool_rpm;
  burst_size = over a.burst_size b.burst_size;
}

abbrev pub over_io_limits : RawIoLimits → RawIoLimits → RawIoLimits
over_io_limits a b = record {
  max_request_size = over a.max_request_size b.max_request_size;
  max_response_size = over a.max_response_size b.max_response_size;
}

abbrev pub over_validation : RawValidation → RawValidation → RawValidation
over_validation a b = record {
  enabled = over a.enabled b.enabled;
  max_string_length = over a.max_string_length b.max_string_length;
  max_array_length = over a.max_array_length b.max_array_length;
  max_object_depth = over a.max_object_depth b.max_object_depth;
}

abbrev pub over_sanitization : RawSanitization → RawSanitization → RawSanitization
over_sanitization a b = record { enabled = over a.enabled b.enabled; level = over a.level b.level }

abbrev pub over_auth : RawAuth → RawAuth → RawAuth
over_auth a b = record {
  enabled = over a.enabled b.enabled;
  provider = over a.provider b.provider;
  mode = over a.mode b.mode;
  token = over a.token b.token;
  api_keys_path = over a.api_keys_path b.api_keys_path;
  api_key_max_age_days = over a.api_key_max_age_days b.api_key_max_age_days;
  oauth_jwks_url = over a.oauth_jwks_url b.oauth_jwks_url;
  oauth_audience = over a.oauth_audience b.oauth_audience;
  oauth_issuer = over a.oauth_issuer b.oauth_issuer;
}

-- One section deep; a key that is no section is replaced.
unfoldable pub merge_overrides : RawSecurity → RawSecurity → RawSecurity
merge_overrides overrides base = record {
  profile = over overrides.profile base.profile;
  rate_limits = over_rate_limits overrides.rate_limits base.rate_limits;
  io_limits = over_io_limits overrides.io_limits base.io_limits;
  input_validation = over_validation overrides.input_validation base.input_validation;
  input_sanitization = over_sanitization overrides.input_sanitization base.input_sanitization;
  auth = over_auth overrides.auth base.auth;
  detailed_errors = over overrides.detailed_errors base.detailed_errors;
  replay_window_seconds = over overrides.replay_window_seconds base.replay_window_seconds;
  security_log_path = over overrides.security_log_path base.security_log_path;
}

unfoldable pub merge_profile_with_overrides : Text → RawSecurity → Result ConfigError RawSecurity
merge_profile_with_overrides profile_name overrides = do
  base ← get_profile profile_name
  returns (merge_overrides overrides base)
