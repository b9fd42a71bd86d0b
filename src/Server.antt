-- ===== src/Server.antt =====
-- The server's registries and its dispatch of tool calls, resource reads and prompts:
-- packages/fss-mcp/src/fss_mcp/server.py.
-- The MCP library is outside: what the server reads of its request context is `SdkContext`.
-- Handlers are arguments; what they do besides answering is left out. `str` of an exception, which
-- ends in a random correlation id, is part of `Wording`. Logs, metrics and spans are left out.
pub mod Registry
pub mod Meta
pub mod Codes
pub mod Dispatch
pub mod Calls
pub mod Taxonomy
pub mod Tokens
pub mod Registered
pub mod Handlers
pub mod Outcomes
pub mod Answers
pub mod Samples
mod Tests
use fss_chassis.Base.{ℕ, Bool, Text, List, Option}
use fss_chassis.Base.Dict.{Dict}
use fss_chassis.Integrity.{Bytes}
use fss_chassis.IoLimits.{IoError}
use fss_chassis.Json.{Json, Fields}
use fss_chassis.Pipeline.{Libraries, PipelineConfig, State, Refusal}
use fss_chassis.Provenance.{Settings}
use fss_chassis.Provenance.Context.{Context}
use fss_chassis.Validation.{Schema}

pub record HandlerContext : Type 0 where
  pub request_id : Text
  pub correlation_id : Text

-- What a tool handler returns: a `str`, another value of JSON, or what `json.dumps` cannot write.
pub data Output : Type 0 where
  text_output : Text → Output
  json_output : Json → Output
  unserializable : Output

-- `raised` is FSSCoreError, with its message if it has one; `failed` is any other exception.
pub data Handled : Type 0 where
  returned : Output → Handled
  timed_out : Handled
  raised : Option Text → Handled
  failed : Handled

pub record Tool : Type 0 where
  pub description : Text
  pub input_schema : Schema
  pub handler : Fields → HandlerContext → Handled
  pub auth_scopes : List Text
  pub tool_version : Text
  pub idempotent : Bool
  pub side_effects : Bool
  pub deterministic : Bool
  pub known_limitations : Text
  pub deprecated : Bool
  pub deprecated_in : Text
  pub removal_in : Text

-- A handler that raises gives `none`.
pub record Resource : Type 0 where
  pub name : Text
  pub description : Option Text
  pub mime_type : Option Text
  pub handler : Text → HandlerContext → Option Text
  pub auth_scopes : List Text

pub record PromptMessage : Type 0 where
  pub role : Text
  pub content : Text

-- `malformed` is a KeyError or a TypeError, `prompt_failed` any other exception.
pub data PromptHandled : Type 0 where
  messages : List PromptMessage → PromptHandled
  malformed : PromptHandled
  prompt_failed : PromptHandled

pub record PromptArgument : Type 0 where
  pub name : Text
  pub description : Option Text
  pub required : Bool

pub record Prompt : Type 0 where
  pub description : Option Text
  pub arguments : List PromptArgument
  pub handler : Fields → HandlerContext → PromptHandled
  pub auth_scopes : List Text

-- ChassisServer, without the middleware's state; `kb_version_id`, `kb_version` and `server_version`
-- are attributes that an extension may set, and `version` is that of the configuration.
pub record Server : Type 0 where
  pub tools : Dict Text Tool
  pub resources : Dict Text Resource
  pub prompts : Dict Text Prompt
  pub config : PipelineConfig
  pub detailed_errors : Bool
  pub version : Text
  pub server_version : Option Text
  pub kb_version_id : Option Text
  pub kb_version : Option Text
  pub binding_version : Text

-- `refusal` is `str(exc)`, `io_error` is `exc.args[0]`.
pub record Wording : Type 0 where
  pub refusal : Refusal → Text
  pub io_error : IoError → Text

pub record Environment : Type 0 where
  pub libraries : Libraries
  pub settings : Settings
  pub canonical : Json → Option Bytes
  pub loads : Text → Option Json
  pub wording : Wording

-- request_ctx of the MCP library: the id of the request, empty where it is false, name and version
-- of the client, the header X-Request-Timestamp, and `_fss` of `_meta`.
pub record SdkContext : Type 0 where
  pub request_id : Text
  pub client_info : Option (Text × Text)
  pub x_request_timestamp : Option Text
  pub fss : Option Json

-- What one request finds: the clocks, new UUIDs, and the signing key that can be loaded.
pub record Moment : Type 0 where
  pub sdk : Option SdkContext
  pub utc_now : ℕ
  pub monotonic_seconds : ℕ
  pub monotonic_ticks : ℕ
  pub timestamp_utc : Text
  pub transaction_id : Text
  pub new_request_id : Text
  pub signing_key : Option Bytes

-- The state of the pipeline, and the context variables
pub record World : Type 0 where
  pub security : State
  pub ctx : Context
