-- ===== src/Config/Overrides.antt =====
-- Environment variables over the file, and where the file is found
-- (packages/fss-mcp/src/fss_mcp/config.py).
use fss_chassis.Base.{
  Bool, Text, text, text_eq, Option, none, some, [], ◌∷◌, Result, returns, raises, raise_unless,
  ◌>>=◌, ◌>>◌,
}
use fss_chassis.Base.Int.{ℤ}
use fss_chassis.Config.{
  RawAuth, Raw, ServerConfig, ConfigError, invalid_profile, file_not_found, over,
}
use fss_chassis.Config.Build.{valid_profiles, build_config}
use fss_chassis.Fit.Verify.{member}
use fss_chassis.Integrity.Keys.{lower}

-- The variables that begin with MCP_; `none` is one that is not set.
pub record Variables : Type 0 where
  pub log_level : Option Text
  pub security_profile : Option Text
  pub auth_token : Option Text
  pub auth_enabled : Option Text
  pub auth_provider : Option Text
  pub detailed_errors : Option Text
  pub rate_limit_enabled : Option Text
  pub auth_mode : Option Text
  pub auth_oauth_jwks_url : Option Text
  pub replay_window_seconds : Option Text
  pub security_log_path : Option Text
  pub transport : Option Text

abbrev pub no_variables : Variables
no_variables = record {
  log_level = none;
  security_profile = none;
  auth_token = none;
  auth_enabled = none;
  auth_provider = none;
  detailed_errors = none;
  rate_limit_enabled = none;
  auth_mode = none;
  auth_oauth_jwks_url = none;
  replay_window_seconds = none;
  security_log_path = none;
  transport = none;
}

-- A variable that is set and not empty
abbrev pub given : Option Text → Option Text
given none = none
given (some []) = none
given (some (c ∷ s)) = some (c ∷ s)

-- val.lower() in ("1", "true", "yes")
abbrev pub says_yes : Text → Bool
says_yes s = member (lower s) (text "1" ∷ text "true" ∷ text "yes" ∷ [])

abbrev pub switch : Option Text → Option Bool
switch none = none
switch (some s) = some (says_yes s)

-- int(val), where its ValueError changes nothing
abbrev pub number : (Text → Option ℤ) → Option Text → Option ℤ
number parse_int none = none
number parse_int (some s) = parse_int s

unfoldable pub apply_env_overrides : (Text → Option ℤ) → Variables → Raw → Raw
apply_env_overrides parse_int env raw = record raw {
  server = record raw.server {
    log_level = over (given env.log_level) raw.server.log_level;
    transport = over (given env.transport) raw.server.transport;
  };
  security = record raw.security {
    profile = over (given env.security_profile) raw.security.profile;
    rate_limits = record raw.security.rate_limits {
      enabled = over (switch (given env.rate_limit_enabled)) raw.security.rate_limits.enabled;
    };
    auth = record raw.security.auth {
      token = over (given env.auth_token) raw.security.auth.token;
      enabled = over (switch (given env.auth_enabled)) raw.security.auth.enabled;
      provider = over (given env.auth_provider) raw.security.auth.provider;
      mode = over (given env.auth_mode) raw.security.auth.mode;
      oauth_jwks_url = over (given env.auth_oauth_jwks_url) raw.security.auth.oauth_jwks_url;
    };
    detailed_errors = over (switch (given env.detailed_errors)) raw.security.detailed_errors;
    replay_window_seconds =
        over (number parse_int (given env.replay_window_seconds))
          raw.security.replay_window_seconds;
    security_log_path = over (given env.security_log_path) raw.security.security_log_path;
  };
}

abbrev pub no_auth_section : RawAuth
no_auth_section = record {
  enabled = none;
  provider = none;
  mode = none;
  token = none;
  api_keys_path = none;
  api_key_max_age_days = none;
  oauth_jwks_url = none;
  oauth_audience = none;
  oauth_issuer = none;
}

-- {"security": {"profile": profile}}, or {} without it
abbrev pub only_profile : Option Text → Raw
only_profile profile = record {
  server = record { name = none; version = none; transport = none; log_level = none };
  security = record {
    profile = profile;
    rate_limits = record {
      enabled = none;
      global_rpm = none;
      per_tool_rpm = none;
      burst_size = none;
    };
    io_limits = record { max_request_size = none; max_response_size = none };
    input_validation = record {
      enabled = none;
      max_string_length = none;
      max_array_length = none;
      max_object_depth = none;
    };
    input_sanitization = record { enabled = none; level = none };
    auth = no_auth_section;
    detailed_errors = none;
    replay_window_seconds = none;
    security_log_path = none;
  };
  extensions = record { auto_discover = none; init_module = none; discovery_packages = none };
  diagnostics = record { health_check_enabled = none; include_config_summary = none };
}

unfoldable pub from_profile : (Text → Option ℤ) → Variables → Text → Result ConfigError ServerConfig
from_profile parse_int env profile = do
  raise_unless (member profile valid_profiles) (invalid_profile profile)
  build_config (apply_env_overrides parse_int env (only_profile (some profile)))

-- A path that is looked at: what stands there, if a file does.
abbrev pub Place : Type 0
Place = Option Raw

-- The places in order: the argument and MCP_CHASSIS_CONFIG, if given; the working directory's and
-- the source tree's files.
pub record Places : Type 0 where
  pub argument : Option Place
  pub variable : Option Place
  pub working_directory : Place
  pub source_tree : Place

abbrev if_exists : Place → Option Place
if_exists none = none
if_exists (some raw) = some (some raw)

abbrev pub find_file : Places → Option Place
find_file p =
    over p.argument
      (over p.variable (over (if_exists p.working_directory) (if_exists p.source_tree)))

abbrev read_file : Option Place → Result ConfigError Raw
read_file none = returns (only_profile none)
read_file (some none) = raises file_not_found
read_file (some (some raw)) = returns raw

unfoldable pub load : (Text → Option ℤ) → Variables → Places → Result ConfigError ServerConfig
load parse_int env places = do
  raw ← read_file (find_file places)
  build_config (apply_env_overrides parse_int env raw)
