-- ===== src/Server/Outcomes.antt =====
-- How a tool call can end (packages/fss-mcp/src/fss_mcp/server.py).
use fss_chassis.Base.{
  Bool, true, false, Text, text, text_eq, Option, none, some, List, [], ◌∷◌, Result, returns,
  raises, ◌≡◌, refl, sym, subst, ◌||◌, ◌⊎◌, inl, inr,
}
use fss_chassis.Base.Dict.{lookup}
use fss_chassis.Fit.Verify.{member}
use fss_chassis.Integrity.Keys.{lower}
use fss_chassis.Integrity.Cai.{CaiError, compute_json_cai}
use fss_chassis.IoLimits.{IoError, too_large, unicode_encode_error, string, check_response_size}
use fss_chassis.Json.{str, Fields, fields}
use fss_chassis.Pipeline.{State, Answer, allowed, refused, crashed}
use fss_chassis.Provenance.Build.{build_provenance_record}
use fss_chassis.Provenance.Context.{Context}
use fss_chassis.Server.Meta.{after}
use fss_chassis.Server.{
  Handled, returned, timed_out, raised, failed, Tool, Server, Environment, Moment, World,
}
use fss_chassis.Server.Codes.{contains, first_of, to_dict, map_code}
use fss_chassis.Server.Dispatch.{
  ToolResult, fss_error, gives, gives_and_leaves, content_array, leave, success_call, by_size,
  by_cai, respond, by_handler, by_answer, by_tool, open_transaction, read_context,
  dispatch_tool_inner,
}

-- The codes with which a registered tool can fail
abbrev pub run_codes : List Text
run_codes =
    text "FSS_AUTH_REQUIRED"
    ∷ text "FSS_AUTH_DENIED"
    ∷ text "FSS_RATE_LIMITED"
    ∷ text "FSS_REPLAY_REJECTED"
    ∷ text "FSS_PARAM_INVALID"
    ∷ text "FSS_EXECUTION_INTERRUPTED"
    ∷ text "FSS_EXECUTION_FAILED"
    ∷ text "FSS_INTERNAL_ERROR"
    ∷ []

-- An error answer with some code
abbrev pub HasCode : Text → ToolResult → Type 0
HasCode code r =
    (r.is_error ≡ true) × (lookup (text "error_code") (fields r.payload) ≡ some (str code))

first_of-run : (a b c d e f : Bool) → member (first_of a b c d e f).0 run_codes ≡ true
first_of-run true true c d e f = refl
first_of-run true false c d e f = refl
first_of-run false b true d e f = refl
first_of-run false b false true e f = refl
first_of-run false b false false true f = refl
first_of-run false b false false false true = refl
first_of-run false b false false false false = refl

map_code-run : (code message : Text) → member (map_code code message).0 run_codes ≡ true
unfolding map_code
map_code-run code message =
    first_of-run (contains (text "AUTH") code)
      (contains (text "authentication required") (lower message))
      (contains (text "RATE_LIMIT") code) (contains (text "REPLAY") code)
      (contains (text "IO_LIMIT") code || contains (text "SIZE") code)
      (contains (text "SANIT") code)

module _ (env : Environment) (server : Server) (now : Moment) (name : Text) where
  pub fss_error-HasCode :
      (code message : Text) (w : World)
      → HasCode code (fss_error env server now name code message w).0
  unfolding fss_error to_dict
  fss_error-HasCode code message w = (refl, refl)

  -- An error answer
  abbrev pub Failed : Option ToolResult × World → Type 0
  Failed o =
      (r : ToolResult) × (code : Text) × (o.0 ≡ some r)
      × (member code run_codes ≡ true)
      × HasCode code r

  -- A success: its content has an identifier and a size that is allowed, and its record was built
  -- with that identifier.
  abbrev pub Succeeded : Option ToolResult × World → Type 0
  Succeeded o =
      (w : World) × (payload : Fields) × (tool_version : Text) × (cai : Text) × (compute_json_cai
          env.settings.hashes env.canonical (content_array (env.libraries.dumps payload))
          (text "sha2-256")
        ≡ returns cai)
      × (check_response_size (string (env.libraries.dumps payload)) server.config.max_response_size
          ≡ returns tt)
      × (let ctx = record w.ctx { result_cai = some cai; result_status = some (text "success") } in
          o ≡ (
            some (record {
              payload = payload;
              is_error = false;
              provenance =
                  build_provenance_record env.settings now.signing_key ctx
                    (success_call env server now name tool_version);
            }),
            leave (record w { ctx = ctx }),
          ))

  abbrev pub Ending : Option ToolResult × World → Type 0
  Ending o = (o.0 ≡ none) ⊎ (Failed o ⊎ Succeeded o)

  fails :
      (code message : Text) (w : World)
      → member code run_codes ≡ true
      → Ending (gives (fss_error env server now name code message w))
  fails code message w known = inr (inl (_, code, refl, known, fss_error-HasCode code message w))

  fails_and_leaves :
      (code message : Text) (w : World)
      → member code run_codes ≡ true
      → Ending (gives_and_leaves (fss_error env server now name code message w))
  fails_and_leaves code message w known =
      inr (inl (_, code, refl, known, fss_error-HasCode code message w))

  by_size-Ending :
      (payload : Fields) (tool_version cai : Text) (w : World) (m : Result IoError (Unit {0}))
      → (compute_json_cai env.settings.hashes env.canonical
            (content_array (env.libraries.dumps payload))
            (text "sha2-256")
          ≡ returns cai)
      → (check_response_size (string (env.libraries.dumps payload)) server.config.max_response_size
          ≡ m)
      → let ctx = record w.ctx { result_cai = some cai; result_status = some (text "success") } in
        Ending (
          by_size env server now name payload
            (build_provenance_record env.settings now.signing_key ctx
              (success_call env server now name tool_version))
            (record w { ctx = ctx })
            m)
  by_size-Ending payload tool_version cai w (returns tt) identified fits =
      inr (inr (w, payload, tool_version, cai, identified, fits, refl))
  by_size-Ending payload tool_version cai w (raises unicode_encode_error) identified fits =
      fails_and_leaves _ _ _ refl
  by_size-Ending payload tool_version cai w (raises (too_large c m n)) identified fits =
      fails_and_leaves _ _ _ refl

  by_cai-Ending :
      (payload : Fields) (tool_version : Text) (w : World) (m : Result CaiError Text)
      → (compute_json_cai env.settings.hashes env.canonical
            (content_array (env.libraries.dumps payload))
            (text "sha2-256")
          ≡ m)
      → Ending (by_cai env server now name tool_version payload w m)
  by_cai-Ending payload tool_version w (returns cai) e =
      by_size-Ending payload tool_version cai w _ e refl
  by_cai-Ending payload tool_version w (raises e) _ = fails_and_leaves _ _ _ refl

  respond-Ending :
      (tool_version : Text) (w : World) (o : Option Fields)
      → Ending (respond env server now name tool_version w o)
  respond-Ending tool_version w none = fails_and_leaves _ _ _ refl
  respond-Ending tool_version w (some payload) = by_cai-Ending payload tool_version w _ refl

  by_handler-Ending :
      (tool_version : Text) (w : World) (h : Handled)
      → Ending (by_handler env server now name tool_version w h)
  by_handler-Ending tool_version w (returned output) = respond-Ending tool_version w _
  by_handler-Ending tool_version w timed_out = fails _ _ _ refl
  by_handler-Ending tool_version w (raised message) = fails _ _ _ refl
  by_handler-Ending tool_version w failed = fails _ _ _ refl

  by_answer-Ending :
      (tool : Tool) (ctx : Context) (answer : Answer Fields × State)
      → Ending (by_answer env server now name tool ctx answer)
  by_answer-Ending tool ctx (allowed a, s) = by_handler-Ending tool.tool_version (after s ctx) _
  by_answer-Ending tool ctx (refused r, s) = fails _ _ _ (map_code-run _ _)
  by_answer-Ending tool ctx (crashed, s) = inl refl

  -- The call of a tool that is registered
  pub dispatch-Ending :
      (arguments : Fields) (w : World) (tool : Tool)
      → lookup name server.tools ≡ some tool
      → Ending (dispatch_tool_inner env server now name arguments w)
  unfolding dispatch_tool_inner
  dispatch-Ending arguments w tool found =
      subst
        (λ o. Ending (by_tool env server now name arguments (open_transaction env server now w) o))
        (sym found)
        (by_answer-Ending tool
          (read_context env server now arguments (open_transaction env server now w).ctx) _)
