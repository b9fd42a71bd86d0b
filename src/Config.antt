-- ===== src/Config.antt =====
-- Configuration: packages/fss-mcp/src/fss_mcp/config.py and security/profiles.py beside it.
-- A section of the file is a record with an option for each key that is read, where its value has
-- the type that the code expects; the sections' other keys and `[app]` are left out.
pub mod Profiles
pub mod Build
pub mod Overrides
pub mod Built
pub mod Precedence
pub mod Wins
pub mod Startup
pub mod Started
mod Tests
use fss_chassis.Base.{Bool, Text, List, Option, none, some}
use fss_chassis.Base.Int.{ℤ}

pub record RawRateLimits : Type 0 where
  pub enabled : Option Bool
  pub global_rpm : Option ℤ
  pub per_tool_rpm : Option ℤ
  pub burst_size : Option ℤ

pub record RawIoLimits : Type 0 where
  pub max_request_size : Option ℤ
  pub max_response_size : Option ℤ

pub record RawValidation : Type 0 where
  pub enabled : Option Bool
  pub max_string_length : Option ℤ
  pub max_array_length : Option ℤ
  pub max_object_depth : Option ℤ

pub record RawSanitization : Type 0 where
  pub enabled : Option Bool
  pub level : Option Text

pub record RawAuth : Type 0 where
  pub enabled : Option Bool
  pub provider : Option Text
  pub mode : Option Text
  pub token : Option Text
  pub api_keys_path : Option Text
  pub api_key_max_age_days : Option ℤ
  pub oauth_jwks_url : Option Text
  pub oauth_audience : Option Text
  pub oauth_issuer : Option Text

pub record RawSecurity : Type 0 where
  pub profile : Option Text
  pub rate_limits : RawRateLimits
  pub io_limits : RawIoLimits
  pub input_validation : RawValidation
  pub input_sanitization : RawSanitization
  pub auth : RawAuth
  pub detailed_errors : Option Bool
  pub replay_window_seconds : Option ℤ
  pub security_log_path : Option Text

pub record RawServer : Type 0 where
  pub name : Option Text
  pub version : Option Text
  pub transport : Option Text
  pub log_level : Option Text

pub record RawExtensions : Type 0 where
  pub auto_discover : Option Bool
  pub init_module : Option Text
  pub discovery_packages : Option (List Text)

pub record RawDiagnostics : Type 0 where
  pub health_check_enabled : Option Bool
  pub include_config_summary : Option Bool

pub record Raw : Type 0 where
  pub server : RawServer
  pub security : RawSecurity
  pub extensions : RawExtensions
  pub diagnostics : RawDiagnostics

pub record RateLimits : Type 0 where
  pub enabled : Bool
  pub global_rpm : ℤ
  pub per_tool_rpm : ℤ
  pub burst_size : ℤ

pub record IoLimitConfig : Type 0 where
  pub max_request_size : ℤ
  pub max_response_size : ℤ

pub record ValidationConfig : Type 0 where
  pub enabled : Bool
  pub max_string_length : ℤ
  pub max_array_length : ℤ
  pub max_object_depth : ℤ

pub record SanitizationConfig : Type 0 where
  pub enabled : Bool
  pub level : Text

pub record AuthConfig : Type 0 where
  pub enabled : Bool
  pub provider : Text
  pub mode : Text
  pub token : Text
  pub api_keys_path : Text
  pub api_key_max_age_days : ℤ
  pub oauth_jwks_url : Text
  pub oauth_audience : Text
  pub oauth_issuer : Text

pub record SecurityConfig : Type 0 where
  pub profile : Text
  pub rate_limits : RateLimits
  pub io_limits : IoLimitConfig
  pub input_validation : ValidationConfig
  pub input_sanitization : SanitizationConfig
  pub auth : AuthConfig
  pub detailed_errors : Bool
  pub replay_window_seconds : ℤ
  pub security_log_path : Text

pub record ServerSettings : Type 0 where
  pub name : Text
  pub version : Text
  pub transport : Text
  pub log_level : Text

pub record ExtensionSettings : Type 0 where
  pub auto_discover : Bool
  pub init_module : Text
  pub discovery_packages : List Text

pub record DiagnosticSettings : Type 0 where
  pub health_check_enabled : Bool
  pub include_config_summary : Bool

pub record ServerConfig : Type 0 where
  pub server : ServerSettings
  pub security : SecurityConfig
  pub extensions : ExtensionSettings
  pub diagnostics : DiagnosticSettings

-- ValueError and FileNotFoundError, with what the message shows
pub data ConfigError : Type 0 where
  invalid_transport : Text → ConfigError
  invalid_log_level : Text → ConfigError
  invalid_profile : Text → ConfigError
  not_positive : (field_name : Text) (value : ℤ) → ConfigError
  invalid_level : Text → ConfigError
  invalid_provider : Text → ConfigError
  invalid_mode : Text → ConfigError
  file_not_found : ConfigError

-- raw.get(key, default)
abbrev pub get_or : {A : Type 0} → A → Option A → A
get_or d none = d
get_or d (some a) = a

-- The value at a key of `{**below, **above}`
abbrev pub over : {A : Type 0} → Option A → Option A → Option A
over none below = below
over (some a) below = some a
