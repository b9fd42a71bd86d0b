-- ===== src/Server/Answers.antt =====
-- What the answer to a tool call tells, and what it leaves
-- (packages/fss-mcp/src/fss_mcp/server.py).
use fss_chassis.Base.{
  ℕ, ◌≤◌, Bool, true, false, Text, text, text_eq, Option, none, some, [], ◌++◌, returns, ◌≡◌, refl,
  ap, sym, subst, ◌∙◌, ◌↔◌, ◌⊎◌, inl, inr, Option-cases,
}
use fss_chassis.Base.Dict.{Dict, lookup}
use fss_chassis.Fit.Verify.{member}
use fss_chassis.Integrity.{Bytes}
use fss_chassis.Integrity.Cai.{compute_json_cai}
use fss_chassis.IoLimits.{string, encoded_length, byte_length}
use fss_chassis.IoLimits.Sizes.{check_size_iff}
use fss_chassis.Json.{Json, str, Fields, fields}
use fss_chassis.Provenance.Build.{build_provenance_record, unsigned_record}
use fss_chassis.Provenance.Context.{fresh}
use fss_chassis.Provenance.Status.{
  IsSignedBy, IsOff, Off-cases, build_provenance_record-off, build_provenance_record-on,
  build_provenance_record-IsSignedBy, lookup-build_provenance_record,
}
use fss_chassis.Server.{Server, Environment, Moment, World}
use fss_chassis.Server.Dispatch.{
  ToolResult, fss_error, content_array, success_call, by_tool, open_transaction,
  dispatch_tool_inner,
}
use fss_chassis.Server.Meta.{reset}
use fss_chassis.Server.Outcomes.{
  HasCode, run_codes, Succeeded, Ending, fss_error-HasCode, dispatch-Ending,
}

abbrev map_error : Option ToolResult → Option Bool
map_error none = none
map_error (some r) = some r.is_error

abbrev text_of : Option Json → Text
text_of (some (str t)) = t
text_of _ = []

-- A record that holds its own two signatures under a key and names the identifier of a result's
-- content
abbrev pub IsAttested : Environment → Bytes → ToolResult → Dict Text Json → Type 0
IsAttested env key r held =
    IsSignedBy env.settings key held
    × ((cai : Text) × (compute_json_cai env.settings.hashes env.canonical
            (content_array (env.libraries.dumps r.payload)) (text "sha2-256")
          ≡ returns cai)
        × (lookup (text "result_cai") held ≡ some (str cai)))

module _ (env : Environment) (server : Server) (now : Moment) (name : Text) (arguments : Fields)
    (w : World) where
  dispatch-unknown :
      lookup name server.tools ≡ none
      → dispatch_tool_inner env server now name arguments w
        ≡ by_tool env server now name arguments (open_transaction env server now w) none
  unfolding dispatch_tool_inner
  dispatch-unknown h =
      ap (by_tool env server now name arguments (open_transaction env server now w)) h

  abbrev unavailable : World → ToolResult × World
  unavailable v =
      fss_error env server now name (text "FSS_TOOL_UNAVAILABLE")
        (text "Unknown tool '" ++ name ++ text "'") v

  fss_error-security :
      (code message : Text) (v : World)
      → (fss_error env server now name code message v).1.security ≡ v.security
  unfolding fss_error
  fss_error-security code message v = refl

  Ending-not_unavailable :
      (o : Option ToolResult × World) (r : ToolResult)
      → Ending env server now name o
      → o.0 ≡ some r
      → ¬ HasCode (text "FSS_TOOL_UNAVAILABLE") r
  Ending-not_unavailable o r (inl gone) h k = cc (gone, h)
  Ending-not_unavailable o r (inr (inl (q, code, e, known, coded))) h k =
      let same : q ≡ r = cc (e, h) in
      let same_code : code ≡ text "FSS_TOOL_UNAVAILABLE" =
        ap text_of
          (sym coded.1 ∙ ap (λ q. lookup (text "error_code") (fields q.payload)) same ∙ k.1) in
      let impossible : false ≡ true = subst (λ c. member c run_codes ≡ true) same_code known in
      cc impossible
  Ending-not_unavailable o r (inr (inr (u, payload, tool_version, cai, i, f, e))) h k =
      let impossible : some false ≡ some true =
        sym (ap (λ o. map_error o.0) e) ∙ ap map_error h ∙ ap some k.0 in
      cc impossible

  -- A call is answered with FSS_TOOL_UNAVAILABLE exactly if no tool has the name, and then no check
  -- has run: the replay cache, the limiter's buckets and the key store are as they were.
  pub dispatch-unavailable_iff :
      (r : ToolResult) (v : World)
      → dispatch_tool_inner env server now name arguments w ≡ (some r, v)
      → (HasCode (text "FSS_TOOL_UNAVAILABLE") r ↔ (lookup name server.tools ≡ none))
        × (lookup name server.tools ≡ none → v.security ≡ w.security)
  dispatch-unavailable_iff r v h = elim (Option-cases (lookup name server.tools)) [
    | inl missing ↦
        (let same = sym (dispatch-unknown missing) ∙ h in
          let answer = unavailable (open_transaction env server now w) in
          let same_result : answer.0 ≡ r = cc (ap (λ o. o.0) same) in
          (
            (
              λ k. missing,
              λ k.
                  subst (HasCode (text "FSS_TOOL_UNAVAILABLE")) same_result
                    (fss_error-HasCode env server now name _ _ _),
            ),
            λ k.
                sym (ap (λ o. o.1.security) same)
                ∙ fss_error-security _ _ (open_transaction env server now w),
          ))
    | inr (tool, found) ↦ (
      (
        λ k. absurd (
            Ending-not_unavailable (dispatch_tool_inner env server now name arguments w) r
              (dispatch-Ending env server now name arguments w tool found) (ap (λ o. o.0) h) k),
        λ k. cc (k, found),
      ),
      λ k. cc (k, found),
    )
  ]

  Ending-success :
      (o : Option ToolResult × World) (r : ToolResult)
      → Ending env server now name o
      → o.0 ≡ some r
      → r.is_error ≡ false
      → Succeeded env server now name o
  Ending-success o r (inl gone) h ok = cc (gone, h)
  Ending-success o r (inr (inl (q, code, e, known, coded))) h ok =
      let impossible : some true ≡ some false =
        ap some (sym coded.0) ∙ sym (ap map_error e) ∙ ap map_error h ∙ ap some ok in
      cc impossible
  Ending-success o r (inr (inr success)) h ok = success

  dispatch-Succeeded :
      (r : ToolResult) (v : World)
      → dispatch_tool_inner env server now name arguments w ≡ (some r, v)
      → r.is_error ≡ false
      → Succeeded env server now name (some r, v)
  dispatch-Succeeded r v h ok = elim (Option-cases (lookup name server.tools)) [
    | inl missing ↦
        let coded = ((dispatch-unavailable_iff r v h).0).1 missing in cc (sym coded.0 ∙ ok)
    | inr (tool, found) ↦ subst (Succeeded env server now name) h (
        Ending-success (dispatch_tool_inner env server now name arguments w) r
          (dispatch-Ending env server now name arguments w tool found) (ap (λ o. o.0) h) ok)
  ]

  -- A successful answer of a server that has a signing key: its text keeps to the configured size,
  -- and unless FSS_PROVENANCE is "false", when it has no record, it has one that holds its own two
  -- signatures and names the identifier of the answer's content as the result.
  pub dispatch-success :
      (r : ToolResult) (v : World) (key : Bytes)
      → now.signing_key ≡ some key
      → dispatch_tool_inner env server now name arguments w ≡ (some r, v)
      → r.is_error ≡ false
      → ((size : ℕ) × (encoded_length (env.libraries.dumps r.payload) ≡ some size)
          × (size ≤ server.config.max_response_size))
        × ((IsOff env.settings × (r.provenance ≡ none))
            ⊎ (¬ IsOff env.settings
                × (held : Dict Text Json) × (r.provenance ≡ some held)
                × IsAttested env key r held))
  unfolding byte_length unsigned_record
  dispatch-success r v key loaded h ok =
      let (u, payload, tool_version, cai, identified, fits, e) = dispatch-Succeeded r v h ok in
      let ctx = record u.ctx { result_cai = some cai; result_status = some (text "success") } in
      let call = success_call env server now name tool_version in
      let made = build_provenance_record env.settings now.signing_key ctx call in
      let same : r ≡ record { payload = payload; is_error = false; provenance = made } =
        cc (ap (λ o. o.0) e) in
      let written = ap (λ q. env.libraries.dumps q.payload) same in
      let (size, encoded, within) =
        (check_size_iff (text "RESPONSE_TOO_LARGE") (string (env.libraries.dumps payload))
            server.config.max_response_size).0
          fits in
      (
        (size, ap encoded_length written ∙ encoded, within),
        elim (Off-cases env.settings) [
          | inl off ↦ inl (
            off,
            ap (λ q. q.provenance) same
                ∙ build_provenance_record-off env.settings now.signing_key ctx call off,
          )
          | inr on ↦
              let (held, built) =
                build_provenance_record-on env.settings now.signing_key ctx call on in
              inr (
                on,
                held,
                ap (λ q. q.provenance) same ∙ built,
                (
                  build_provenance_record-IsSignedBy env.settings key ctx call held refl (
                      ap (λ k. build_provenance_record env.settings k ctx call) (sym loaded)
                      ∙ built),
                  (
                    cai,
                    ap
                          (λ t.
                            compute_json_cai env.settings.hashes env.canonical (content_array t)
                              (text "sha2-256"))
                          written
                        ∙ identified,
                    lookup-build_provenance_record env.settings now.signing_key ctx call held
                        (text "result_cai") built refl refl,
                  ),
                ),
              )
        ],
      )

  -- After a success every context variable has its default, but for the timestamp header, the
  -- bearer token and the variables of the FIT.
  pub dispatch-success_leaves :
      (r : ToolResult) (v : World)
      → dispatch_tool_inner env server now name arguments w ≡ (some r, v)
      → r.is_error ≡ false
      → v.ctx ≡ record fresh {
        request_timestamp = v.ctx.request_timestamp;
        auth_token = v.ctx.auth_token;
        fit = v.ctx.fit;
      }
  unfolding reset
  dispatch-success_leaves r v h ok =
      let (u, payload, tool_version, cai, identified, fits, e) = dispatch-Succeeded r v h ok in
      let left = ap (λ o. o.1.ctx) e in left ∙ ap reset (sym left)
