-- ===== src/Config/Tests.antt =====
-- Configurations that are built, and the theorems at them
-- (packages/fss-mcp/src/fss_mcp/config.py).
use fss_chassis.Base.{
  true, false, Text, text, text_eq, Option, none, some, [], Result, returns, raises, ◌≡◌, refl, ◌↔◌,
}
use fss_chassis.Base.Int.{ℤ, pos}
use fss_chassis.Auth.{AuthServices}
use fss_chassis.Config.{RawSecurity, Raw, ServerConfig, ConfigError, file_not_found}
use fss_chassis.Config.Build.{
  upper, check_positive, build_rate_limits, build_io_limits, build_validation, build_sanitization,
  build_auth, build_sections, build_from, build_security_config, build_server_settings,
  build_config,
}
use fss_chassis.Config.Built.{IsSound, build_config-IsSound}
use fss_chassis.Config.Overrides.{
  Variables, no_variables, given, says_yes, only_profile, apply_env_overrides, load,
}
use fss_chassis.Config.Precedence.{build-merge_profile_with_overrides}
use fss_chassis.Config.Profiles.{
  moderate, get_profile, merge_overrides, merge_profile_with_overrides,
}
use fss_chassis.Config.Started.{init_server-refuses, build_config-starts}
use fss_chassis.Config.Startup.{
  Pipeline, init_pipeline, init_server, token_on_stdio, Transport, choose_transport,
}
use fss_chassis.Config.Wins.{apply_env_overrides-wins}

abbrev no_number : Text → Option ℤ
no_number s = none

abbrev variables : Variables
variables = record no_variables {
  auth_provider = some (text "token");
  auth_enabled = some (text "YES");
  auth_token = some (text "s3");
  auth_mode = some [];
  transport = some (text "http");
}

-- A file that names the moderate profile, and one limit
abbrev file : Raw
file =
    let raw = only_profile (some (text "moderate")) in
    record raw {
      security = record raw.security {
        io_limits = record { max_request_size = some (pos 99); max_response_size = none };
        auth = record raw.security.auth { provider = some (text "oauth") };
      };
    }

abbrev set : Raw
set = apply_env_overrides no_number variables file

abbrev value_of : Result ConfigError ServerConfig → ServerConfig → ServerConfig
value_of (returns c) d = c
value_of (raises e) d = d

abbrev blank : ServerConfig
blank = record {
  server = record { name = []; version = []; transport = []; log_level = [] };
  security = record {
    profile = [];
    rate_limits = record {
      enabled = false;
      global_rpm = pos 0;
      per_tool_rpm = pos 0;
      burst_size = pos 0;
    };
    io_limits = record { max_request_size = pos 0; max_response_size = pos 0 };
    input_validation = record {
      enabled = false;
      max_string_length = pos 0;
      max_array_length = pos 0;
      max_object_depth = pos 0;
    };
    input_sanitization = record { enabled = false; level = [] };
    auth = record {
      enabled = false;
      provider = [];
      mode = [];
      token = [];
      api_keys_path = [];
      api_key_max_age_days = pos 0;
      oauth_jwks_url = [];
      oauth_audience = [];
      oauth_issuer = [];
    };
    detailed_errors = false;
    replay_window_seconds = pos 0;
    security_log_path = [];
  };
  extensions = record { auto_discover = false; init_module = []; discovery_packages = [] };
  diagnostics = record { health_check_enabled = false; include_config_summary = false };
}

abbrev config : ServerConfig
config = value_of (build_config set) blank

built : build_config set ≡ returns config
unfolding build_config apply_env_overrides build_server_settings build_security_config get_profile
    build_from build_sections build_rate_limits build_io_limits build_validation build_sanitization
    build_auth check_positive
built = refl

sizes :
    (config.security.io_limits.max_request_size ≡ pos 99)
    × (config.security.io_limits.max_response_size ≡ pos 20_971_520)
unfolding build_config apply_env_overrides build_server_settings build_security_config get_profile
    build_from build_sections build_rate_limits build_io_limits build_validation build_sanitization
    build_auth check_positive
sizes = (refl, refl)

no_file :
    load no_number no_variables (record {
      argument = none;
      variable = some none;
      working_directory = some file;
      source_tree = none;
    })
    ≡ raises file_not_found
unfolding load
no_file = refl

build_config-IsSound_example : IsSound config
build_config-IsSound_example = build_config-IsSound set config built

abbrev services : AuthServices
services = record {
  strip = λ s. s;
  sha256_hex = λ s. s;
  read_keys = λ path. none;
  fetch_jwks = λ url. raises (text "no network");
  decode_jwt = λ url audience issuer token. raises (text "no key");
}

build_config-starts_example :
    ((p : Pipeline) × (init_pipeline services 0 config.security ≡ returns p))
    × ((t : Transport) × (choose_transport config.server.transport ≡ some t))
build_config-starts_example = build_config-starts services 0 set config built

init_server-refuses_example :
    ((init_server services 0 config ≡ raises token_on_stdio) ↔ (
      (config.security.auth.enabled ≡ true)
      × (config.security.auth.provider ≡ text "token")
      × (config.server.transport ≡ text "stdio")))
    × (((p : Pipeline) × (init_server services 0 config ≡ returns p))
        ↔ ¬ (
            (config.security.auth.enabled ≡ true)
            × (config.security.auth.provider ≡ text "token")
            × (config.server.transport ≡ text "stdio")))
init_server-refuses_example = init_server-refuses services 0 set config built

apply_env_overrides-wins_example :
    (given variables.log_level ≡ some (text "token")
      → config.server.log_level ≡ upper (text "token"))
    × (given variables.security_profile ≡ some (text "token")
        → config.security.profile ≡ text "token")
    × (given variables.auth_token ≡ some (text "token") → config.security.auth.token ≡ text "token")
    × (given variables.auth_enabled ≡ some (text "token")
        → config.security.auth.enabled ≡ says_yes (text "token"))
    × (given variables.auth_provider ≡ some (text "token")
        → config.security.auth.provider ≡ text "token")
    × (given variables.detailed_errors ≡ some (text "token")
        → config.security.detailed_errors ≡ says_yes (text "token"))
    × (given variables.rate_limit_enabled ≡ some (text "token")
        → config.security.rate_limits.enabled ≡ says_yes (text "token"))
    × (given variables.auth_mode ≡ some (text "token") → config.security.auth.mode ≡ text "token")
    × (given variables.auth_oauth_jwks_url ≡ some (text "token")
        → config.security.auth.oauth_jwks_url ≡ text "token")
    × (given variables.replay_window_seconds ≡ some (text "token")
        → no_number (text "token") ≡ some (pos 7)
        → config.security.replay_window_seconds ≡ pos 7)
    × (given variables.security_log_path ≡ some (text "token")
        → config.security.security_log_path ≡ text "token")
    × (given variables.transport ≡ some (text "token") → config.server.transport ≡ text "token")
apply_env_overrides-wins_example =
    apply_env_overrides-wins no_number variables file config built (text "token") (pos 7)

abbrev merged : RawSecurity
merged = merge_overrides file.security moderate

file_merged : merge_profile_with_overrides (text "moderate") file.security ≡ returns merged
unfolding merge_profile_with_overrides get_profile
file_merged = refl

build-merge_profile_with_overrides_example :
    build_security_config merged ≡ build_security_config file.security
build-merge_profile_with_overrides_example =
    build-merge_profile_with_overrides file.security merged (text "moderate") refl file_merged
