-- ===== src/Server/Tests.antt =====
-- Calls of a small server, and the theorems at them (packages/fss-mcp/src/fss_mcp/server.py).
use fss_chassis.Base.{
  ℕ, ◌≤◌, true, false, Text, text, text_eq, ◌==◌, Option, none, some, [], ◌∷◌, returns, ◌≡◌, refl,
  ◌↔◌, ◌⊎◌, if◌then◌else◌, some_of_is_some, sym, ap,
}
use fss_chassis.Base.Dict.{Dict, lookup, has, IsDict}
use fss_chassis.Auth.{authentication_failed}
use fss_chassis.Auth.Providers.{
  authenticate_token, authenticate, authorize, admit, check_auth, run_auth,
}
use fss_chassis.Integrity.Cai.{compute_cai, compute_json_cai}
use fss_chassis.IoLimits.{utf8_width, encoded_length, byte_length, check_size}
use fss_chassis.Json.{Json, Fields, end, obj, fields}
use fss_chassis.Pipeline.{not_authenticated, replayed}
use fss_chassis.Pipeline.Steps.{
  replay_step, size_step, auth_step, fit_step, rate_limit_step, sanitize_step, validate_step,
  process_tool_request,
}
use fss_chassis.Provenance.Context.{fresh}
use fss_chassis.Provenance.Status.{IsOff}
use fss_chassis.RateLimiter.Bucket.{refill, has_token, consume}
use fss_chassis.RateLimiter.Limiter
use fss_chassis.RateLimiter.Limiter.{RateLimitConfig}
use fss_chassis.Replay.{check_replay, check_parsed, evict_seen_timestamps, duplicate}
use fss_chassis.Sanitization.Clean.{ShowsPunctuation}
use fss_chassis.Sanitization.Characters.{
  is_ctrl_char, decoded, decode_traversal_percent_encoding, is_traversal, is_slash, is_bare,
  sub_traversal, strip_passes, strip_path_traversal, sanitize_moderate, sanitize_string,
}
use fss_chassis.Sanitization.Values.{checked, sanitize_input}
use fss_chassis.Server.{HandlerContext, json_output, Handled, returned, failed, Server, World}
use fss_chassis.Server.Answers.{
  IsAttested, dispatch-unavailable_iff, dispatch-success, dispatch-success_leaves,
}
use fss_chassis.Server.Calls.{mcp_error, blocked, dispatch_resource}
use fss_chassis.Server.Codes.{map_code}
use fss_chassis.Server.Dispatch.{
  ToolResult, fss_error, result_payload, read_context, by_tool, dispatch_tool_inner,
}
use fss_chassis.Server.Handlers.{IsSafe, by_tool-agree}
use fss_chassis.Server.Meta.{
  make_context, short, set_fss, read_sdk, set_missing, read_arguments_meta, without, reset,
  pipeline_request,
}
use fss_chassis.Server.Outcomes.{HasCode}
use fss_chassis.Server.Registered.{register_tool-lookup}
use fss_chassis.Server.Registry.{register, register_tool}
use fss_chassis.Server.Taxonomy.{map_code-refusal}
use fss_chassis.Server.Tokens.{dispatch_resource-refused}
use fss_chassis.Validation.Checks.{
  is_instance, check_type, validate_string, validate_object, validate_value, validate_tool_input,
  raise_if_invalid,
}
use fss_chassis.Server.Samples.{
  libraries, arguments, settings, environment, echo, hash, note, server, now, world,
}

abbrev result_of : Option ToolResult → ToolResult
result_of none = record { payload = end; is_error = true; provenance = none }
result_of (some r) = r

abbrev answer : ToolResult
answer = result_of (dispatch_tool_inner environment server now (text "hash") arguments world).0

abbrev world_after : World
world_after = (dispatch_tool_inner environment server now (text "hash") arguments world).1

hash_called :
    dispatch_tool_inner environment server now (text "hash") arguments world
    ≡ (some answer, world_after)
unfolding dispatch_tool_inner read_context read_sdk short set_fss read_arguments_meta set_missing
    without pipeline_request compute_json_cai compute_cai result_payload make_context reset
    fss_error process_tool_request replay_step size_step auth_step fit_step rate_limit_step
    sanitize_step validate_step check_replay check_parsed evict_seen_timestamps check_size
    byte_length encoded_length utf8_width run_auth check_auth authenticate authenticate_token admit
    authorize Limiter.init Limiter.check Limiter.check_key Limiter.check_buckets
    Limiter.ensure_bucket Limiter.evict_stale Limiter.is_stale refill has_token consume
    sanitize_input checked sanitize_string sanitize_moderate is_ctrl_char strip_path_traversal
    sub_traversal strip_passes decode_traversal_percent_encoding decoded is_traversal is_slash
    is_bare raise_if_invalid validate_tool_input validate_value validate_object validate_string
    check_type is_instance
hash_called = refl

hash_succeeded : answer.is_error ≡ false
unfolding dispatch_tool_inner read_context read_sdk short set_fss read_arguments_meta set_missing
    without pipeline_request compute_json_cai compute_cai result_payload make_context reset
    fss_error process_tool_request replay_step size_step auth_step fit_step rate_limit_step
    sanitize_step validate_step check_replay check_parsed evict_seen_timestamps check_size
    byte_length encoded_length utf8_width run_auth check_auth authenticate authenticate_token admit
    authorize Limiter.init Limiter.check Limiter.check_key Limiter.check_buckets
    Limiter.ensure_bucket Limiter.evict_stale Limiter.is_stale refill has_token consume
    sanitize_input checked sanitize_string sanitize_moderate is_ctrl_char strip_path_traversal
    sub_traversal strip_passes decode_traversal_percent_encoding decoded is_traversal is_slash
    is_bare raise_if_invalid validate_tool_input validate_value validate_object validate_string
    check_type is_instance
hash_succeeded = refl

-- Answers as `echo` does, but fails without the argument that the schema requires.
abbrev picky_of : Fields → Option Json → Handled
picky_of a none = failed
picky_of a (some v) = returned (json_output (obj a))

abbrev picky : Fields → HandlerContext → Handled
picky a c = picky_of a (lookup (text "path") (fields a))

echo-picky :
    (a : Fields) (c : HandlerContext)
    → IsSafe libraries.unicode server hash a
    → echo a c ≡ picky a c
echo-picky a c (_, (_, _, inside)) =
    let (v, found) = some_of_is_some (lookup (text "path") (fields a)) inside.complete.0 in
    sym (ap (picky_of a) found)

libraries-ShowsPunctuation : ShowsPunctuation libraries.unicode
unfolding is_ctrl_char
libraries-ShowsPunctuation = record { dot_shown = refl; slash_shown = refl; backslash_shown = refl }

by_tool-agree_example :
    by_tool environment server now (text "hash") arguments world (some hash)
    ≡ by_tool environment server now
        (text "hash")
        arguments
        world
        (some (record hash { handler = picky }))
by_tool-agree_example =
    by_tool-agree environment server now hash picky echo-picky (text "hash") arguments world
      libraries-ShowsPunctuation refl refl

dispatch-unavailable_iff_example :
    (HasCode (text "FSS_TOOL_UNAVAILABLE") answer ↔ (lookup (text "hash") server.tools ≡ none))
    × (lookup (text "hash") server.tools ≡ none → world_after.security ≡ world.security)
dispatch-unavailable_iff_example =
    dispatch-unavailable_iff environment server now (text "hash") arguments world answer world_after
      hash_called

dispatch-success_example :
    ((size : ℕ) × (encoded_length (libraries.dumps answer.payload) ≡ some size) × (size ≤ 100))
    × ((IsOff settings × (answer.provenance ≡ none))
        ⊎ (¬ IsOff settings
            × (held : Dict Text Json) × (answer.provenance ≡ some held)
            × IsAttested environment (9 ∷ []) answer held))
dispatch-success_example =
    dispatch-success environment server now (text "hash") arguments world answer world_after
      (9 ∷ []) refl hash_called hash_succeeded

dispatch-success_leaves_example : world_after.ctx ≡ record fresh {
  request_timestamp = world_after.ctx.request_timestamp;
  auth_token = world_after.ctx.auth_token;
  fit = world_after.ctx.fit;
}
dispatch-success_leaves_example =
    dispatch-success_leaves environment server now (text "hash") arguments world answer world_after
      hash_called hash_succeeded

map_code-refusal_example :
    map_code (text "FSS_REPLAY_REJECTED") (text "seen")
    ≡ (text "FSS_REPLAY_REJECTED", text "replay")
map_code-refusal_example = map_code-refusal (text "seen") (replayed (duplicate (text "t"))) tt

dispatch_resource-refused_example :
    (reason : Text) × ((dispatch_resource environment server now (text "kb://note") world).0
      ≡ mcp_error (blocked (not_authenticated (authentication_failed reason))))
dispatch_resource-refused_example =
    dispatch_resource-refused environment server now (text "kb://note") world note (λ h. cc h) refl

abbrev extended : Server
extended = record server { tools = (text "hash", hash) ∷ (text "copy", hash) ∷ [] }

copy_registered : register_tool false (text "copy") hash server ≡ returns extended
unfolding register_tool register
copy_registered = refl

register_tool-lookup_example :
    ((has (text "copy") server.tools ≡ false) ⊎ (false ≡ true))
    × ((j : Text)
        → lookup j extended.tools ≡ (if text "copy" == j then some hash else lookup j server.tools))
    × IsDict extended.tools
register_tool-lookup_example =
    register_tool-lookup false (text "copy") hash server extended (refl, tt) copy_registered
