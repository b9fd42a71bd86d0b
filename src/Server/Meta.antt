-- ===== src/Server/Meta.antt =====
-- What a tool call reads into the context variables, and how they are reset
-- (packages/fss-mcp/src/fss_mcp/server.py, `_dispatch_tool_inner`).
use fss_chassis.Base.{
  ℕ, Text, text, text_eq, ◌==◌, Option, none, some, [], ◌∷◌, ◌++◌, length, ltb, if◌then◌else◌,
}
use fss_chassis.Base.Dict.{lookup}
use fss_chassis.Json.{Json, str, obj, Fields, end, field, fields}
use fss_chassis.Pipeline.{RequestContext, State}
use fss_chassis.Provenance.Build.{or_default}
use fss_chassis.Provenance.Context.{Context, fresh}
use fss_chassis.Server.{HandlerContext, SdkContext, Moment, World}

abbrev pub from_sdk : Text → Option SdkContext → Text
from_sdk fallback none = fallback
from_sdk fallback (some sdk) = if sdk.request_id == [] then fallback else sdk.request_id

-- `_make_context`, with the transaction's id in place of its correlation id
unfoldable pub make_context : Moment → HandlerContext
make_context now = record {
  request_id = from_sdk now.new_request_id now.sdk;
  correlation_id = now.transaction_id;
}

-- A string of at most so many characters
unfoldable pub short : ℕ → Json → Option Text
short limit (str t) = if ltb limit (length t) then none else some t
short limit _ = none

unfoldable pub set_fss : Text → Text → Context → Context
set_fss k v ctx =
    if k == text "fit"
    then record ctx { fit_token = v }
    else if k == text "investigation_id"
    then record ctx { investigation_id = some v }
    else if k == text "analyst_identity"
    then record ctx { analyst_identity = some v }
    else if k == text "llm_model"
    then record ctx { llm_model = some v }
    else if k == text "llm_provider"
    then record ctx { llm_provider = some v }
    else ctx

abbrev pub with_value : (Text → Context → Context) → Option Text → Context → Context
with_value set none ctx = ctx
with_value set (some v) ctx = set v ctx

abbrev pub read_fss_fields : Fields → Context → Context
read_fss_fields end ctx = ctx
read_fss_fields (field k v fs) ctx = read_fss_fields fs (with_value (set_fss k) (short 4096 v) ctx)

-- A block that is not a dict is passed over.
abbrev pub read_fss : Option Json → Context → Context
read_fss (some (obj fs)) ctx = read_fss_fields fs ctx
read_fss _ ctx = ctx

abbrev client_of : Option (Text × Text) → Context → Context
client_of none ctx = ctx
client_of (some (name, version)) ctx = record ctx { mcp_client = some (name ++ b'/' ∷ version) }

abbrev timestamp_of : Option Text → Context → Context
timestamp_of (some (c ∷ t)) ctx = record ctx { request_timestamp = some (c ∷ t) }
timestamp_of _ ctx = ctx

-- A LookupError of `request_ctx.get()` leaves the context as it is.
unfoldable pub read_sdk : Option SdkContext → Context → Context
read_sdk none ctx = ctx
read_sdk (some sdk) ctx =
    read_fss sdk.fss (timestamp_of sdk.x_request_timestamp (client_of sdk.client_info ctx))

abbrev pub keep_or : Option Text → Text → Option Text
keep_or none v = some v
keep_or (some w) v = some w

unfoldable pub set_missing : Text → Text → Context → Context
set_missing k v ctx =
    if k == text "investigation_id"
    then record ctx { investigation_id = keep_or ctx.investigation_id v }
    else if k == text "analyst_identity"
    then record ctx { analyst_identity = keep_or ctx.analyst_identity v }
    else if k == text "llm_model"
    then record ctx { llm_model = keep_or ctx.llm_model v }
    else if k == text "llm_provider"
    then record ctx { llm_provider = keep_or ctx.llm_provider v }
    else ctx

abbrev pub read_meta_fields : Fields → Context → Context
read_meta_fields end ctx = ctx
read_meta_fields (field k v fs) ctx =
    read_meta_fields fs (with_value (set_missing k) (short 256 v) ctx)

abbrev pub read_meta : Option Json → Context → Context
read_meta (some (obj fs)) ctx = read_meta_fields fs ctx
read_meta _ ctx = ctx

unfoldable pub read_arguments_meta : Fields → Context → Context
read_arguments_meta arguments ctx = read_meta (lookup (text "_meta") (fields arguments)) ctx

-- arguments.pop(key, {})
unfoldable pub without : Text → Fields → Fields
without key end = end
without key (field k v fs) = let rest = without key fs in if k == key then rest else field k v rest

-- What the `finally` block resets; the other variables stay.
unfoldable pub reset : Context → Context
reset ctx = record fresh {
  request_timestamp = ctx.request_timestamp;
  auth_token = ctx.auth_token;
  fit = ctx.fit;
}

-- The pipeline reads the context variables of the request, and sets two of them.
unfoldable pub pipeline_request : Moment → Context → RequestContext
pipeline_request now ctx = record {
  utc_now = now.utc_now;
  monotonic_seconds = now.monotonic_seconds;
  monotonic_ticks = now.monotonic_ticks;
  request_timestamp = ctx.request_timestamp;
  token = ctx.auth_token;
  fit_token = ctx.fit_token;
  investigation_id = or_default [] ctx.investigation_id;
  invocation_type = or_default [] ctx.invocation_type;
  session_id = ctx.session_id;
}

abbrev pub security_of : World → State
security_of w = record w.security {
  client_identity = w.ctx.client_identity;
  fit_claims = w.ctx.fit;
}

abbrev pub after : State → Context → World
after s ctx = record {
  security = s;
  ctx = record ctx { client_identity = s.client_identity; fit = s.fit_claims };
}
