-- ===== src/Server/Dispatch.antt =====
-- `_dispatch_tool_inner` (packages/fss-mcp/src/fss_mcp/server.py). `none` stands for an exception that leaves it.
use fss_chassis.Base.{
  Bool, true, false, Text, text, text_eq, Option, none, some, ◌++◌, if◌then◌else◌, Result, returns,
  raises,
}
use fss_chassis.Base.Dict.{Dict, lookup, insert}
use fss_chassis.Integrity.Cai.{CaiError, compute_json_cai}
use fss_chassis.IoLimits.{IoError, unicode_encode_error, string, check_response_size}
use fss_chassis.Json.{Json, bool, str, arr, obj, nil, cons, Fields, end, field}
use fss_chassis.Pipeline.{State, Refusal, Answer, allowed, refused, crashed}
use fss_chassis.Pipeline.Steps.{process_tool_request}
use fss_chassis.Provenance.Build.{or_default, or_else, build_provenance_record}
use fss_chassis.Provenance.Build
use fss_chassis.Provenance.Context.{Context}
use fss_chassis.Server.{
  Output, text_output, json_output, unserializable, Handled, returned, timed_out, raised, failed,
  Tool, Server, Environment, Moment, World,
}
use fss_chassis.Server.Codes.{to_dict, refusal_code, map_code}
use fss_chassis.Server.Meta.{
  make_context, read_sdk, read_arguments_meta, without, reset, pipeline_request, security_of, after,
}

-- CallToolResult: its content is one text, `json.dumps` of `payload`.
pub record ToolResult : Type 0 where
  pub payload : Fields
  pub is_error : Bool
  pub provenance : Option (Dict Text Json)

abbrev pub map_record :
    (Dict Text Json → Dict Text Json) → Option (Dict Text Json) → Option (Dict Text Json)
map_record f none = none
map_record f (some r) = some (f r)

abbrev pub version_of : Option Tool → Text
version_of none = text "0.0.0"
version_of (some tool) = tool.tool_version

abbrev content_item : Text → Json
content_item t = obj (field (text "type") (str (text "text")) (field (text "text") (str t) end))

-- [{"type": "text", "text": response_text}]
abbrev pub content_array : Text → Json
content_array t = arr (cons (content_item t) nil)

-- An object stands for itself, and another value is put into one.
abbrev pub as_object : Json → Fields
as_object (obj fs) = fs
as_object v = field (text "result") v end

abbrev parsed_or : Text → Option Json → Json
parsed_or s none = str s
parsed_or s (some v) = v

abbrev pub set_parameters_cai : Result CaiError Text → Context → Context
set_parameters_cai (returns cai) ctx = record ctx { parameters_cai = some cai }
set_parameters_cai (raises e) ctx = ctx

abbrev pub leave : World → World
leave w = record w { ctx = reset w.ctx }

abbrev pub gives : ToolResult × World → Option ToolResult × World
gives (r, w) = (some r, w)

-- The `finally` block
abbrev pub gives_and_leaves : ToolResult × World → Option ToolResult × World
gives_and_leaves (r, w) = (some r, leave w)

module _ (env : Environment) (server : Server) (now : Moment) where
  unfoldable pub result_payload : Output → Option Fields
  result_payload (text_output s) = some (as_object (parsed_or s (env.loads s)))
  result_payload (json_output v) = some (as_object v)
  result_payload unserializable = none

  abbrev with_error : Text → Text → Dict Text Json → Dict Text Json
  with_error code message r = insert (text "correlation_id") (str now.transaction_id) (
      insert (text "partial_result") (bool false)
        (insert (text "error_message") (str message) (insert (text "error_code") (str code) r)))

  -- `_fss_error`, of which every call leaves `partial` at its default
  unfoldable pub fss_error : Text → Text → Text → World → ToolResult × World
  fss_error name code message w =
      let ctx = record w.ctx { result_status = some (text "error") } in
      (
        record {
          payload = to_dict (record {
            error_code = code;
            error_message = message;
            transaction_id = some now.transaction_id;
            partial_result = false;
            partial_data = none;
          });
          is_error = true;
          provenance = map_record (with_error code message) (
              build_provenance_record env.settings now.signing_key ctx (record {
                timestamp_utc = now.timestamp_utc;
                tool_name = name;
                tool_version = version_of (lookup name server.tools);
                kb_version_id = server.kb_version_id;
                kb_version = server.kb_version;
                server_version = or_else server.server_version (some server.version);
                fss_binding_version = some server.binding_version;
              }));
        },
        record w { ctx = ctx },
      )

  abbrev pub not_serialized : Text → World → Option ToolResult × World
  not_serialized name w =
      gives_and_leaves
        (fss_error name (text "FSS_INTERNAL_ERROR") (text "Tool result could not be serialized") w)

  abbrev size_message : IoError → Text
  size_message e =
      if server.detailed_errors then env.wording.io_error e else text "Response processing error"

  abbrev pub by_size :
      Text
      → Fields
      → Option (Dict Text Json)
      → World
      → Result IoError (Unit {0})
      → Option ToolResult × World
  by_size name payload provenance w (returns _) =
      (some (record { payload = payload; is_error = false; provenance = provenance }), leave w)
  by_size name payload provenance w (raises unicode_encode_error) = not_serialized name w
  by_size name payload provenance w (raises e) =
      gives_and_leaves (fss_error name (text "FSS_INTERNAL_ERROR") (size_message e) w)

  abbrev pub success_call : Text → Text → Build.Call
  success_call name tool_version = record {
    timestamp_utc = now.timestamp_utc;
    tool_name = name;
    tool_version = tool_version;
    kb_version_id = server.kb_version_id;
    kb_version = server.kb_version;
    server_version = some server.version;
    fss_binding_version = none;
  }

  abbrev pub by_cai :
      Text → Text → Fields → World → Result CaiError Text → Option ToolResult × World
  by_cai name tool_version payload w (raises e) = not_serialized name w
  by_cai name tool_version payload w (returns cai) =
      let ctx = record w.ctx { result_cai = some cai; result_status = some (text "success") } in
      by_size name payload
        (build_provenance_record env.settings now.signing_key ctx (success_call name tool_version))
        (record w { ctx = ctx })
        (check_response_size (string (env.libraries.dumps payload)) server.config.max_response_size)

  -- Step 6
  abbrev pub respond : Text → Text → World → Option Fields → Option ToolResult × World
  respond name tool_version w none = not_serialized name w
  respond name tool_version w (some payload) = by_cai name tool_version payload w (
      compute_json_cai env.settings.hashes env.canonical
        (content_array (env.libraries.dumps payload)) (text "sha2-256"))

  -- Step 5, which its own returns leave without the `finally` block
  abbrev pub by_handler : Text → Text → World → Handled → Option ToolResult × World
  by_handler name tool_version w (returned output) =
      respond name tool_version w (result_payload output)
  by_handler name tool_version w timed_out =
      gives (fss_error name (text "FSS_EXECUTION_INTERRUPTED") (text "Tool execution timed out") w)
  by_handler name tool_version w (raised message) =
      gives
        (fss_error name (text "FSS_EXECUTION_FAILED") (or_default (text "Tool error") message) w)
  by_handler name tool_version w failed =
      gives (fss_error name (text "FSS_INTERNAL_ERROR") (text "Internal server error") w)

  abbrev block_message : Refusal → Text
  block_message r =
      if server.detailed_errors
      then env.wording.refusal r
      else text "Request blocked [correlation_id=" ++ now.transaction_id ++ text "]"

  abbrev pub by_answer : Text → Tool → Context → Answer Fields × State → Option ToolResult × World
  by_answer name tool ctx (allowed arguments, s) =
      by_handler name tool.tool_version (after s ctx) (tool.handler arguments (make_context now))
  by_answer name tool ctx (refused r, s) = gives (
      fss_error name (map_code (refusal_code r) (env.wording.refusal r)).0 (block_message r)
        (after s ctx))
  by_answer name tool ctx (crashed, s) = (none, after s ctx)

  -- Step 3
  unfoldable pub read_context : Fields → Context → Context
  read_context arguments ctx =
      set_parameters_cai
        (compute_json_cai env.settings.hashes env.canonical (obj (without (text "_meta") arguments))
          (text "sha2-256"))
        (read_arguments_meta arguments (read_sdk now.sdk ctx))

  abbrev pub by_tool : Text → Fields → World → Option Tool → Option ToolResult × World
  by_tool name arguments w none =
      gives
        (fss_error name (text "FSS_TOOL_UNAVAILABLE") (text "Unknown tool '" ++ name ++ text "'") w)
  by_tool name arguments w (some tool) =
      let ctx = read_context arguments w.ctx in
      by_answer name tool ctx (
        process_tool_request env.libraries server.config (pipeline_request now ctx) name
          (without (text "_meta") arguments) tool.input_schema tool.auth_scopes
          (security_of (record w { ctx = ctx })))

  abbrev pub open_transaction : World → World
  open_transaction w = record w {
    ctx = record w.ctx {
      transaction_id = some now.transaction_id;
      result_status = some (text "error");
    };
  }

  unfoldable pub dispatch_tool_inner : Text → Fields → World → Option ToolResult × World
  dispatch_tool_inner name arguments w =
      by_tool name arguments (open_transaction w) (lookup name server.tools)
