-- ===== src/Pipeline/Tests.antt =====
-- A tool call through the pipeline, and the theorems at it
-- (packages/fss-mcp/src/fss_mcp/middleware/pipeline.py).
use fss_chassis.Base.{true, false, text, none, some, [], ◌∷◌, raises, ◌≡◌, refl}
use fss_chassis.Auth.{token_auth}
use fss_chassis.Auth.Providers.{
  authenticate_token, authenticate, authorize, admit, check_auth, run_auth,
}
use fss_chassis.Fit.{other}
use fss_chassis.IoLimits.{utf8_width, encoded_length, byte_length, check_size}
use fss_chassis.Json.{Fields, end, field, str, obj}
use fss_chassis.Pipeline.{PipelineConfig, RequestContext, State, Libraries, allowed}
use fss_chassis.Pipeline.Steps.{
  replay_step, size_step, auth_step, fit_step, rate_limit_step, sanitize_step, validate_step,
  process_tool_request,
}
use fss_chassis.Pipeline.Admission.{IsAdmitted, process_tool_request-IsAdmitted}
use fss_chassis.Pipeline.Process.{process_tool_request-safe}
use fss_chassis.RateLimiter.Bucket.{refill, has_token, consume}
use fss_chassis.RateLimiter.Limiter
use fss_chassis.RateLimiter.Limiter.{RateLimitConfig}
use fss_chassis.Replay.{check_replay, check_parsed, evict_seen_timestamps}
use fss_chassis.Sanitization.Characters.{
  is_ctrl_char, decoded, decode_traversal_percent_encoding, is_traversal, is_slash, is_bare,
  sub_traversal, strip_passes, strip_path_traversal, sanitize_moderate, sanitize_string,
}
use fss_chassis.Sanitization.Clean.{ShowsPunctuation, is_forbidden}
use fss_chassis.Sanitization.Spec.{AllStrings, StringsAvoid}
use fss_chassis.Sanitization.Stripped.{IsShort}
use fss_chassis.Sanitization.Traversal.{IsFree}
use fss_chassis.Sanitization.Values.{checked, sanitize_input}
use fss_chassis.Validation.{one, Schema, fragment, unconstrained, no_more}
use fss_chassis.Validation.Checks.{
  is_instance, check_type, validate_string, validate_object, validate_value, validate_tool_input,
  raise_if_invalid,
}
use fss_chassis.Validation.Spec.{IsValid}

abbrev libraries : Libraries
libraries = record {
  dumps = λ fs. text "{}";
  parse_timestamp = λ s. some 5;
  unicode = record { normalize_nfc = λ s. s; is_control_category = is_ctrl_char };
  auth = record {
    strip = λ s. s;
    sha256_hex = λ s. s;
    read_keys = λ path. none;
    fetch_jwks = λ url. raises (text "no network");
    decode_jwt = λ url audience issuer token. raises (text "no key");
  };
  jwt = record {
    header_typ = λ token. raises (text "no token");
    unverified_issuer = λ token. raises (text "no token");
    signing_key = λ url token. raises (text "no token");
    decode = λ token key audience. raises (other (text "no token"));
    fullmatch = λ pattern s. false;
    strip = λ s. s;
    format_time = λ t. [];
  };
}

abbrev config : PipelineConfig
config = record {
  replay_window_seconds = 60;
  max_request_size = 100;
  max_response_size = 100;
  sanitization_enabled = true;
  sanitization_level = text "moderate";
  validation_enabled = true;
  validation_limits = record { max_string_length = 10; max_array_length = 3; max_object_depth = 2 };
  fit_enforce = false;
  fit_settings = record { trusted_issuers = []; jwks_url_override = []; revoked_jtis = [] };
  server_identity = [];
}

abbrev request : RequestContext
request = record {
  utc_now = 7;
  monotonic_seconds = 1;
  monotonic_ticks = 10;
  request_timestamp = some (text "t");
  token = text "s3";
  fit_token = [];
  investigation_id = [];
  invocation_type = [];
  session_id = none;
}

abbrev start : State
start = record {
  seen_timestamps = [];
  auth_provider = token_auth (text "s3");
  rate_limiter =
      Limiter.init 0
        (record { enabled = true; global_rpm = 60; per_tool_rpm = 30; burst_size = 2 });
  client_identity = none;
  fit_claims = none;
}

abbrev schema : Schema
schema =
    fragment
      (record {
        type_keyword = some (one (text "object"));
        enum = none;
        max_length = none;
        min_length = none;
        max_items = none;
        min_items = none;
        required = text "path" ∷ [];
        additional_properties = none;
      })
      unconstrained no_more

abbrev arguments : Fields
arguments = field (text "path") (str (text "../etc")) end

abbrev cleaned : Fields
cleaned = field (text "path") (str (text "etc")) end

abbrev after : State
after = (process_tool_request libraries config request (text "hash") arguments schema [] start).1

hash_allowed :
    process_tool_request libraries config request (text "hash") arguments schema [] start
    ≡ (allowed cleaned, after)
unfolding process_tool_request replay_step size_step auth_step fit_step rate_limit_step
    sanitize_step validate_step check_replay check_parsed evict_seen_timestamps check_size
    byte_length encoded_length utf8_width run_auth check_auth authenticate authenticate_token admit
    authorize Limiter.init Limiter.check Limiter.check_key Limiter.check_buckets
    Limiter.ensure_bucket Limiter.evict_stale Limiter.is_stale refill has_token consume
    sanitize_input checked sanitize_string sanitize_moderate is_ctrl_char strip_path_traversal
    sub_traversal strip_passes decode_traversal_percent_encoding decoded is_traversal is_slash
    is_bare raise_if_invalid validate_tool_input validate_value validate_object validate_string
    check_type is_instance
hash_allowed = refl

libraries-ShowsPunctuation : ShowsPunctuation libraries.unicode
unfolding is_ctrl_char
libraries-ShowsPunctuation = record { dot_shown = refl; slash_shown = refl; backslash_shown = refl }

process_tool_request-safe_example :
    StringsAvoid (is_forbidden libraries.unicode (text "moderate")) (obj cleaned)
    × (text "moderate" ≡ text "moderate"
        → AllStrings IsShort (obj arguments)
        → AllStrings IsFree (obj cleaned))
    × IsValid config.validation_limits 3 (obj cleaned) schema
process_tool_request-safe_example =
    process_tool_request-safe libraries config request (text "hash") arguments cleaned schema []
      start after libraries-ShowsPunctuation refl refl hash_allowed

process_tool_request-IsAdmitted_example : IsAdmitted libraries config request (text "hash") [] start
process_tool_request-IsAdmitted_example =
    process_tool_request-IsAdmitted libraries config request (text "hash") arguments cleaned schema
      [] start after hash_allowed
