-- ===== src/Server/Calls.antt =====
-- `_dispatch_resource` and `_dispatch_prompt` (packages/fss-mcp/src/fss_mcp/server.py).
use fss_chassis.Base.{
  Text, text, text_eq, Option, none, some, List, [], ◌∷◌, Result, returns, raises,
}
use fss_chassis.Base.Dict.{lookup}
use fss_chassis.IoLimits.{IoError, unicode_encode_error, string, check_response_size}
use fss_chassis.Json.{str, arr, obj, Items, nil, cons, Fields, end, field}
use fss_chassis.Pipeline.{RequestContext, State, Refusal, Answer, allowed, refused, crashed}
use fss_chassis.Pipeline.Steps.{process_resource_request, process_prompt_request}
use fss_chassis.Provenance.Build.{maybe, or_default, or_else}
use fss_chassis.Server.{
  HandlerContext, Resource, PromptMessage, PromptHandled, messages, malformed, prompt_failed,
  Prompt, Server, Environment, Moment, World,
}
use fss_chassis.Server.Meta.{from_sdk, pipeline_request, security_of, after}

-- McpError, by what raises it
pub data McpError : Type 0 where
  unknown_uri : Text → McpError
  unknown_prompt : Text → McpError
  blocked : Refusal → McpError
  handler_error : McpError
  malformed_messages : McpError
  response_too_large : IoError → McpError

-- What a call answers; an exception that is no McpError escapes.
pub data Reply (A : Type 0) : Type 0 where
  replies : A → Reply A
  mcp_error : McpError → Reply A
  escapes : Reply A

-- ReadResourceContents
pub record Contents : Type 0 where
  pub content : Text
  pub mime_type : Text

pub record PromptResult : Type 0 where
  pub description : Option Text
  pub messages : List PromptMessage

abbrev pub unless_too_large : {A : Type 0} → A → Result IoError (Unit {0}) → Reply A
unless_too_large a (returns _) = replies a
unless_too_large a (raises unicode_encode_error) = escapes
unless_too_large a (raises e) = mcp_error (response_too_large e)

abbrev pub message_items : List PromptMessage → Items
message_items [] = nil
message_items (m ∷ ms) =
    cons
      (obj (
        field (text "role") (str m.role) (
          field (text "content")
            (obj
              (field (text "type") (str (text "text")) (field (text "text") (str m.content) end)))
            end)))
      (message_items ms)

module _ (env : Environment) (server : Server) (now : Moment) where
  -- Its correlation id is a new UUID, as which the transaction's stands.
  unfoldable pub context : HandlerContext
  context = record {
    request_id = from_sdk now.new_request_id now.sdk;
    correlation_id = now.transaction_id;
  }

  -- The request context of these calls is the empty dict, so that they have no token.
  unfoldable pub without_token : World → RequestContext
  without_token w = record (pipeline_request now w.ctx) { token = [] }

  abbrev by_content : Resource → Option Text → Reply Contents
  by_content resource none = mcp_error handler_error
  by_content resource (some content) =
      unless_too_large
        (record {
          content = content;
          mime_type = or_default (text "text/plain") (or_else resource.mime_type none);
        })
        (check_response_size (string content) server.config.max_response_size)

  abbrev pub by_resource_answer :
      Text → Resource → World → Answer (Unit {0}) × State → Reply Contents × World
  by_resource_answer uri resource w (allowed _, s) =
      (by_content resource (resource.handler uri context), after s w.ctx)
  by_resource_answer uri resource w (refused r, s) = (mcp_error (blocked r), after s w.ctx)
  by_resource_answer uri resource w (crashed, s) = (escapes, after s w.ctx)

  abbrev pub by_resource : Text → World → Option Resource → Reply Contents × World
  by_resource uri w none = (mcp_error (unknown_uri uri), w)
  by_resource uri w (some resource) = by_resource_answer uri resource w (
      process_resource_request env.libraries server.config (without_token w) uri
        resource.auth_scopes (security_of w))

  unfoldable pub dispatch_resource : Text → World → Reply Contents × World
  dispatch_resource uri w = by_resource uri w (lookup uri server.resources)

  abbrev prompt_payload : Option Text → List PromptMessage → Fields
  prompt_payload description ms =
      field (text "description") (maybe description)
        (field (text "messages") (arr (message_items ms)) end)

  abbrev by_messages : Prompt → PromptHandled → Reply PromptResult
  by_messages prompt malformed = mcp_error malformed_messages
  by_messages prompt prompt_failed = mcp_error handler_error
  by_messages prompt (messages ms) =
      unless_too_large (record { description = prompt.description; messages = ms })
        (check_response_size (string (env.libraries.dumps (prompt_payload prompt.description ms)))
          server.config.max_response_size)

  abbrev pub by_prompt_answer : Prompt → World → Answer Fields × State → Reply PromptResult × World
  by_prompt_answer prompt w (allowed arguments, s) =
      (by_messages prompt (prompt.handler arguments context), after s w.ctx)
  by_prompt_answer prompt w (refused r, s) = (mcp_error (blocked r), after s w.ctx)
  by_prompt_answer prompt w (crashed, s) = (escapes, after s w.ctx)

  abbrev pub by_prompt : Text → Fields → World → Option Prompt → Reply PromptResult × World
  by_prompt name arguments w none = (mcp_error (unknown_prompt name), w)
  by_prompt name arguments w (some prompt) = by_prompt_answer prompt w (
      process_prompt_request env.libraries server.config (without_token w) name arguments
        prompt.auth_scopes (security_of w))

  unfoldable pub dispatch_prompt : Text → Fields → World → Reply PromptResult × World
  dispatch_prompt name arguments w = by_prompt name arguments w (lookup name server.prompts)
