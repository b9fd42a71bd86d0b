-- ===== src/Server/Handlers.antt =====
-- Which arguments reach a tool's handler (packages/fss-mcp/src/fss_mcp/server.py).
use fss_chassis.Base.{Text, text, true, some, suc, ◌≡◌, refl, ap}
use fss_chassis.Json.{Fields, obj}
use fss_chassis.Pipeline.{State, Answer, allowed, refused, crashed}
use fss_chassis.Pipeline.Process.{process_tool_request-safe}
use fss_chassis.Pipeline.Steps.{process_tool_request}
use fss_chassis.Provenance.Context.{Context}
use fss_chassis.Sanitization.Characters.{UnicodeData}
use fss_chassis.Sanitization.Clean.{ShowsPunctuation, is_forbidden}
use fss_chassis.Sanitization.Spec.{StringsAvoid}
use fss_chassis.Server.{HandlerContext, Handled, Tool, Server, Environment, Moment, World}
use fss_chassis.Server.Dispatch.{by_handler, by_answer, by_tool, read_context}
use fss_chassis.Server.Meta.{make_context, without, pipeline_request, security_of}
use fss_chassis.Validation.Spec.{IsValid}

-- Arguments with no character that the configured level takes out, that conform to the schema of the
-- tool
abbrev pub IsSafe : UnicodeData → Server → Tool → Fields → Type 0
IsSafe unicode server tool arguments =
    StringsAvoid (is_forbidden unicode server.config.sanitization_level) (obj arguments)
    × IsValid server.config.validation_limits (suc server.config.validation_limits.max_object_depth)
        (obj arguments) tool.input_schema

module _ (env : Environment) (server : Server) (now : Moment) (tool : Tool)
    (other : Fields → HandlerContext → Handled)
    (agree : (arguments : Fields) (c : HandlerContext)
      → IsSafe env.libraries.unicode server tool arguments
      → tool.handler arguments c ≡ other arguments c) where
  by_answer-agree :
      (name : Text) (ctx : Context) (answer : Answer Fields × State)
      → ((arguments : Fields) (s : State)
          → answer ≡ (allowed arguments, s)
          → IsSafe env.libraries.unicode server tool arguments)
      → by_answer env server now name tool ctx answer
        ≡ by_answer env server now name (record tool { handler = other }) ctx answer
  by_answer-agree name ctx (allowed a, s) safe =
      ap (by_handler env server now name tool.tool_version _)
        (agree a (make_context now) (safe a s refl))
  by_answer-agree name ctx (refused r, s) safe = refl
  by_answer-agree name ctx (crashed, s) safe = refl

  -- With sanitization and validation on, a tool's handler is run only on arguments that hold no
  -- character that the configured level takes out and conform to the tool's schema: another handler
  -- that answers alike on these gives the same result and leaves the same state, whatever the client
  -- sends.
  pub by_tool-agree :
      (name : Text) (arguments : Fields) (w : World)
      → ShowsPunctuation env.libraries.unicode
      → server.config.sanitization_enabled ≡ true
      → server.config.validation_enabled ≡ true
      → by_tool env server now name arguments w (some tool)
        ≡ by_tool env server now name arguments w (some (record tool { handler = other }))
  by_tool-agree name arguments w shown clean valid =
      let ctx = read_context env server now arguments w.ctx in
      let start = security_of (record w { ctx = ctx }) in
      by_answer-agree name ctx
        (process_tool_request env.libraries server.config (pipeline_request now ctx) name
          (without (text "_meta") arguments) tool.input_schema tool.auth_scopes start)
        (λ a s e.
          let (stripped, _, valid_for) =
            process_tool_request-safe env.libraries server.config (pipeline_request now ctx) name
              (without (text "_meta") arguments) a tool.input_schema tool.auth_scopes start s shown
              clean valid e in
          (stripped, valid_for))
