-- ===== src/Batch/Called.antt =====
-- What the handler of a wrapped method is called with
-- (packages/fss-mcp/src/fss_mcp/extensions/batch.py).
use fss_chassis.Base.{ℕ, suc, Bool, Text, text_eq, some, some_of_is_some, ◌≡◌, ap}
use fss_chassis.Base.Dict.{lookup}
use fss_chassis.Batch.{Method, batch_schema, checked_answer, with_value, batch_handler}
use fss_chassis.Json.{Json, Fields, obj, fields}
use fss_chassis.Server.{HandlerContext}
use fss_chassis.Validation.{ValidationLimits, Schema}
use fss_chassis.Validation.Spec.{IsValid}

-- On arguments that conform to the tool's schema, the handler of a tool with a parameter finds it:
-- it answers what the method makes of its value, and never fails for a missing key.
pub batch_handler-called :
    (write : Json → Text) (limits : ValidationLimits) (left : ℕ) (param : Text) (schema : Schema)
    (not_found : Bool) (method : Method) (arguments : Fields) (c : HandlerContext)
    → IsValid limits (suc left) (obj arguments) (batch_schema (some param) schema)
    → (value : Json) × (lookup param (fields arguments) ≡ some value)
      × (batch_handler write (some param) not_found method arguments c
          ≡ checked_answer write not_found value (method (some value)))
unfolding batch_handler
batch_handler-called write limits left param schema not_found method arguments c (_, _, inside) =
    let (value, found) = some_of_is_some (lookup param (fields arguments)) inside.complete.0 in
    (value, found, ap (with_value write not_found method) found)
