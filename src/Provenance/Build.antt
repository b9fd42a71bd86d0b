-- ===== src/Provenance/Build.antt =====
-- `build_provenance_record` with its helpers (packages/fss-core/src/fss_core/provenance.py).
-- The time stamp is an argument; so is the signing key that `load_signing_key` gives, if it does.
use fss_chassis.Base.{
  Bool, true, false, not, ◌&&◌, Text, text, text_eq, ◌==◌, Option, none, some, List, [], ◌∷◌, ◌++◌,
  nat_eq, if◌then◌else◌,
}
use fss_chassis.Base.Dict.{Dict, insert, unless}
use fss_chassis.Fit.{FitClaims}
use fss_chassis.Fit.Verify.{is_empty, member}
use fss_chassis.Integrity.{Bytes}
use fss_chassis.Integrity.Keys.{lower}
use fss_chassis.Integrity.Signing.{Signature, sign_provenance, sign_provenance_full}
use fss_chassis.Json.{Json, null, bool, str, obj, end, field}
use fss_chassis.Provenance.{Settings}
use fss_chassis.Provenance.Context.{Context, investigation_id_verified, tool_authorization_verified}

-- os.environ.get(name, default)
abbrev pub or_default : Text → Option Text → Text
or_default d none = d
or_default d (some t) = t

abbrev pub is_truthy : Option Text → Bool
is_truthy none = false
is_truthy (some t) = not (is_empty t)

-- `x or y`, where a value that is None or empty gives way
abbrev pub or_else : Option Text → Option Text → Option Text
or_else (some (c ∷ t)) y = some (c ∷ t)
or_else _ y = y

-- The part before the second dot: ".".join(version.split(".")[:2])
abbrev pub before_dot : Text → Text
before_dot [] = []
before_dot (c ∷ s) = let rest = before_dot s in if nat_eq c b'.' then [] else c ∷ rest

abbrev pub major_minor : Text → Text
major_minor [] = []
major_minor (c ∷ s) =
    let rest = major_minor s in if nat_eq c b'.' then c ∷ before_dot s else c ∷ rest

abbrev pub valid_invocation_types : List Text
valid_invocation_types =
    text "human_direct" ∷ text "agent_supervised" ∷ text "agent_autonomous" ∷ []

abbrev assessed_by : Text → Text → Option Text → Text
assessed_by spec level (some (c ∷ binding)) =
    text "FSS-0010v" ++ major_minor (c ∷ binding) ++ text "@FSS-0009v" ++ spec ++ text "L" ++ level
assessed_by spec level _ = text "FSS-0009v" ++ spec ++ text "L" ++ level

unfoldable pub build_assessed_under : Settings → Option Text → Text
build_assessed_under env binding_version =
    assessed_by (major_minor env.fss_core_version) (or_default (text "1") env.fss_level)
      binding_version

abbrev pub valid_or : Text → Text → Text
valid_or d t = if member t valid_invocation_types then t else d

-- The context variable, if it holds a valid type, and else the environment's, or the default
abbrev pub invocation_from : Text → Option Text → Text
invocation_from fallback none = fallback
invocation_from fallback (some t) = valid_or fallback t

unfoldable pub get_invocation_type : Settings → Context → Text
get_invocation_type env ctx =
    let default = text "agent_supervised" in
    invocation_from (valid_or default (or_default default env.mcp_invocation_type))
      ctx.invocation_type

abbrev pub maybe : Option Text → Json
maybe none = null
maybe (some t) = str t

-- A variable that `_run_fit` sets
abbrev pub of_fit : (FitClaims → Text) → Option FitClaims → Json
of_fit f none = null
of_fit f (some claims) = str (f claims)

-- What the caller passes
pub record Call : Type 0 where
  pub timestamp_utc : Text
  pub tool_name : Text
  pub tool_version : Text
  pub kb_version_id : Option Text
  pub kb_version : Option Text
  pub server_version : Option Text
  pub fss_binding_version : Option Text

unfoldable pub evidentiary_status : Settings → Context → Text
evidentiary_status env ctx =
    if lower (or_default (text "false") env.fss_metadata) == text "true"
      && is_truthy ctx.client_identity
    then text "evidentiary"
    else text "non-evidentiary"

abbrev pub result_status : Context → Text
result_status ctx = or_default (text "error") (or_else ctx.result_status none)

unfoldable pub unsigned_record : Settings → Context → Call → Dict Text Json
unsigned_record env ctx call =
    (text "artifact_id", maybe ctx.result_cai)
    ∷ (text "transaction_id", maybe ctx.transaction_id)
    ∷ (text "timestamp_utc", str call.timestamp_utc)
    ∷ (text "tool_name", str call.tool_name)
    ∷ (text "tool_version", str call.tool_version)
    ∷ (text "kb_version_id", str (or_default (text "none") call.kb_version_id))
    ∷ (text "kb_version", maybe call.kb_version)
    ∷ (text "parameters_cai", maybe ctx.parameters_cai)
    ∷ (text "result_cai", maybe ctx.result_cai)
    ∷ (text "result_status", str (result_status ctx))
    ∷ (text "evidentiary_status", str (evidentiary_status env ctx))
    ∷ (text "invocation_type", str (get_invocation_type env ctx))
    ∷ (text "analyst_identity", maybe ctx.analyst_identity)
    ∷ (
      text "analyst_identity_binding",
      str (if is_truthy ctx.client_identity then text "federated" else text "asserted"),
    )
    ∷ (text "software_identity", maybe ctx.mcp_client)
    ∷ (text "llm_model", maybe ctx.llm_model)
    ∷ (text "llm_provider", maybe ctx.llm_provider)
    ∷ (text "mcp_client", maybe ctx.mcp_client)
    ∷ (text "investigation_id", maybe ctx.investigation_id)
    ∷ (text "client_identity", maybe ctx.client_identity)
    ∷ (
      text "server_version",
      str (
          or_default (text "unknown")
            (or_else call.server_version (or_else env.fss_server_version none))),
    )
    ∷ (text "image_digest", maybe (or_else env.image_digest none))
    ∷ (text "assessed_under", str (build_assessed_under env call.fss_binding_version))
    ∷ (text "fit_jti", of_fit (λ c. c.jti) ctx.fit)
    ∷ (text "fit_issuer", of_fit (λ c. c.issuer) ctx.fit)
    ∷ (text "fit_valid_until", of_fit (λ c. c.valid_until) ctx.fit)
    ∷ (text "fit_aud", of_fit (λ c. c.aud) ctx.fit)
    ∷ (text "legal_authority", of_fit (λ c. c.legal_authority) ctx.fit)
    ∷ (text "purpose", of_fit (λ c. c.purpose) ctx.fit)
    ∷ (text "investigation_id_verified", bool (investigation_id_verified ctx.fit))
    ∷ (text "tool_authorization_verified", bool (tool_authorization_verified ctx.fit))
    ∷ []

abbrev pub signature_json : Signature → Json
signature_json s = obj (field (text "value") (str s.value) (field (text "kid") (str s.kid) end))

unfoldable pub signed_with : Settings → Option Bytes → Dict Text Json → Dict Text Json
signed_with env none r = r
signed_with env (some key) r =
    let data_signed =
      insert (text "data_signature") (signature_json (sign_provenance env.hashes env.crypto r key))
        r in
    insert (text "provenance_signature")
      (signature_json (sign_provenance_full env.hashes env.crypto data_signed key)) data_signed

-- Only a success is signed.
abbrev pub by_status : Settings → Option Bytes → Dict Text Json → Bool → Dict Text Json
by_status env key r false = r
by_status env key r true = signed_with env key r

unfoldable pub build_provenance_record :
    Settings → Option Bytes → Context → Call → Option (Dict Text Json)
build_provenance_record env key ctx call =
    unless (lower (or_default (text "true") env.fss_provenance) == text "false")
      (by_status env key (unsigned_record env ctx call) (result_status ctx == text "success"))
