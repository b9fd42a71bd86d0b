-- ===== src/Provenance/Context.antt =====
-- The context variables of one request: packages/fss-core/src/fss_core/fss_context.py.
-- The variables that a verified FIT sets are set together, as `fit`; their defaults are its absence.
use fss_chassis.Base.{Text, Option, none, some, [], Bool, false, not}
use fss_chassis.Fit.{FitClaims}
use fss_chassis.Fit.Verify.{is_empty}

pub record Context : Type 0 where
  pub transaction_id : Option Text
  pub parameters_cai : Option Text
  pub result_cai : Option Text
  pub result_status : Option Text
  pub investigation_id : Option Text
  pub analyst_identity : Option Text
  pub client_identity : Option Text
  pub llm_model : Option Text
  pub llm_provider : Option Text
  pub mcp_client : Option Text
  pub invocation_type : Option Text
  pub request_timestamp : Option Text
  pub auth_token : Text
  pub fit_token : Text
  pub fit : Option FitClaims
  pub session_id : Option Text

-- The defaults of the variables
abbrev pub fresh : Context
fresh = record {
  transaction_id = none;
  parameters_cai = none;
  result_cai = none;
  result_status = none;
  investigation_id = none;
  analyst_identity = none;
  client_identity = none;
  llm_model = none;
  llm_provider = none;
  mcp_client = none;
  invocation_type = none;
  request_timestamp = none;
  auth_token = [];
  fit_token = [];
  fit = none;
  session_id = none;
}

-- fss_investigation_id_verified and fss_tool_authorization_verified, as `_run_fit` sets them
abbrev pub investigation_id_verified : Option FitClaims → Bool
investigation_id_verified none = false
investigation_id_verified (some c) = not (is_empty c.investigation_id)

abbrev pub tool_authorization_verified : Option FitClaims → Bool
tool_authorization_verified none = false
tool_authorization_verified (some c) = not (is_empty c.authorized_tools)
