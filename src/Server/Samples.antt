-- ===== src/Server/Samples.antt =====
-- A small server with one tool and one resource, and a request to it
-- (packages/fss-mcp/src/fss_mcp/server.py).
use fss_chassis.Base.{true, false, text, text_eq, none, some, [], ◌∷◌, raises}
use fss_chassis.Auth.{token_auth}
use fss_chassis.Auth.Providers.{}
use fss_chassis.Fit.{other}
use fss_chassis.Json.{Fields, end, field, str, obj}
use fss_chassis.Pipeline.{PipelineConfig, State, Libraries}
use fss_chassis.Pipeline.Steps.{}
use fss_chassis.Provenance.{Settings}
use fss_chassis.Provenance.Context.{fresh}
use fss_chassis.RateLimiter.Limiter
use fss_chassis.RateLimiter.Limiter.{RateLimitConfig}
use fss_chassis.Sanitization.Characters.{is_ctrl_char}
use fss_chassis.Server.{
  HandlerContext, Handled, returned, json_output, Tool, Resource, Server, Environment, Moment,
  World, SdkContext,
}
use fss_chassis.Server.Dispatch.{}
use fss_chassis.Server.Meta.{}
use fss_chassis.Validation.{one, Schema, fragment, unconstrained, no_more}
use fss_chassis.Validation.Checks.{}

abbrev pub libraries : Libraries
libraries = record {
  dumps = λ fs. text "{}";
  parse_timestamp = λ s. some 5;
  unicode = record { normalize_nfc = λ s. s; is_control_category = is_ctrl_char };
  auth = record {
    strip = λ s. s;
    sha256_hex = λ s. s;
    read_keys = λ path. none;
    fetch_jwks = λ url. raises (text "no network");
    decode_jwt = λ url audience issuer token. raises (text "no key");
  };
  jwt = record {
    header_typ = λ token. raises (text "no token");
    unverified_issuer = λ token. raises (text "no token");
    signing_key = λ url token. raises (text "no token");
    decode = λ token key audience. raises (other (text "no token"));
    fullmatch = λ pattern s. false;
    strip = λ s. s;
    format_time = λ t. [];
  };
}

abbrev pub config : PipelineConfig
config = record {
  replay_window_seconds = 60;
  max_request_size = 100;
  max_response_size = 100;
  sanitization_enabled = true;
  sanitization_level = text "moderate";
  validation_enabled = true;
  validation_limits = record { max_string_length = 10; max_array_length = 3; max_object_depth = 2 };
  fit_enforce = false;
  fit_settings = record { trusted_issuers = []; jwks_url_override = []; revoked_jtis = [] };
  server_identity = [];
}

abbrev pub start : State
start = record {
  seen_timestamps = [];
  auth_provider = token_auth (text "s3");
  rate_limiter =
      Limiter.init 0
        (record { enabled = true; global_rpm = 60; per_tool_rpm = 30; burst_size = 2 });
  client_identity = none;
  fit_claims = none;
}

abbrev pub schema : Schema
schema =
    fragment
      (record {
        type_keyword = some (one (text "object"));
        enum = none;
        max_length = none;
        min_length = none;
        max_items = none;
        min_items = none;
        required = text "path" ∷ [];
        additional_properties = none;
      })
      unconstrained no_more

abbrev pub arguments : Fields
arguments = field (text "path") (str (text "../etc")) end

abbrev pub settings : Settings
settings = record {
  fss_provenance = none;
  fss_metadata = some (text "true");
  fss_level = none;
  fss_server_version = none;
  image_digest = none;
  mcp_invocation_type = none;
  fss_core_version = text "1.2.3";
  hashes = record { hexdigest = λ name bytes. text "00"; sha256_digest = λ bytes. 7 ∷ [] };
  crypto = record {
    public_raw = λ key. key;
    public_pem = λ key. key;
    private_pem = λ key. key;
    load_pem = λ pem. some pem;
    load_base64 = λ t. none;
    sign = λ key message. message;
    canonicalize = λ fs. 1 ∷ [];
  };
}

abbrev pub environment : Environment
environment = record {
  libraries = libraries;
  settings = settings;
  canonical = λ v. some [];
  loads = λ s. none;
  wording = record { refusal = λ r. text "refused"; io_error = λ e. text "too large" };
}

-- Answers with its arguments.
abbrev pub echo : Fields → HandlerContext → Handled
echo arguments c = returned (json_output (obj arguments))

abbrev pub hash : Tool
hash = record {
  description = [];
  input_schema = schema;
  handler = echo;
  auth_scopes = [];
  tool_version = text "1.0.0";
  idempotent = true;
  side_effects = false;
  deterministic = true;
  known_limitations = [];
  deprecated = false;
  deprecated_in = [];
  removal_in = [];
}

abbrev pub note : Resource
note = record {
  name = [];
  description = none;
  mime_type = none;
  handler = λ uri c. some (text "note");
  auth_scopes = [];
}

abbrev pub server : Server
server = record {
  tools = (text "hash", hash) ∷ [];
  resources = (text "kb://note", note) ∷ [];
  prompts = [];
  config = config;
  detailed_errors = false;
  version = text "0.1.0";
  server_version = none;
  kb_version_id = none;
  kb_version = none;
  binding_version = text "0.3.0";
}

abbrev pub sdk : SdkContext
sdk = record {
  request_id = text "7";
  client_info = some (text "client", text "2");
  x_request_timestamp = some (text "t");
  fss = some (obj (field (text "investigation_id") (str (text "case-7")) end));
}

abbrev pub now : Moment
now = record {
  sdk = some sdk;
  utc_now = 7;
  monotonic_seconds = 1;
  monotonic_ticks = 10;
  timestamp_utc = text "2026-01-01T00:00:00.000Z";
  transaction_id = text "u1";
  new_request_id = text "u2";
  signing_key = some (9 ∷ []);
}

abbrev pub world : World
world = record { security = start; ctx = record fresh { auth_token = text "s3" } }
