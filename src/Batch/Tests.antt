-- ===== src/Batch/Tests.antt =====
-- A batch of two tools, and the theorems at it
-- (packages/fss-mcp/src/fss_mcp/extensions/batch.py).
use fss_chassis.Base.{true, Text, text, text_eq, none, some, List, [], ◌∷◌, ◌≡◌, refl, returns, All}
use fss_chassis.Base.Dict.{Dict, lookup, IsDict}
use fss_chassis.Batch.{
  gives, Method, Definition, batch_schema, checked_answer, batch_handler, taken, register_one,
  register_simple_tools,
}
use fss_chassis.Batch.Called.{batch_handler-called}
use fss_chassis.Batch.Registered.{Keeps, IsRegistered, register_simple_tools-registers}
use fss_chassis.Json.{Json, null, str, Fields, end, field, fields}
use fss_chassis.Server.{HandlerContext, Server}
use fss_chassis.Server.Registry.{register, register_tool, list_tool_names, already_registered}
use fss_chassis.Server.Samples.{server, config}
use fss_chassis.Validation.{one, Schema, fragment, unconstrained, no_more}
use fss_chassis.Validation.Checks.{
  is_instance, check_type, validate_string, validate_object, validate_value, validate_tool_input,
  raise_if_invalid,
}
use fss_chassis.Validation.Valid.{raise_if_invalid_iff}

abbrev write : Json → Text
write v = text "json"

-- Knows no item, and has no list.
abbrev source : Dict Text Method
source =
    (text "get_item", λ v. gives null) ∷ (text "list_items", λ v. gives (str (text "none"))) ∷ []

abbrev get_item : Definition
get_item = record {
  name = text "kb_get";
  description = [];
  method = text "get_item";
  param = some (text "id");
  not_found_check = some true;
  param_schema = none;
  tool_version = none;
  idempotent = none;
  side_effects = none;
  deterministic = none;
  known_limitations = none;
}

abbrev list_items : Definition
list_items = record get_item { name = text "kb_list"; method = text "list_items"; param = none }

abbrev batch : List Definition
batch = get_item ∷ list_items ∷ []

abbrev loaded : Server
loaded = (register_simple_tools write source (text "1.0.0") batch server).1

both_loaded : register_simple_tools write source (text "1.0.0") batch server ≡ (none, loaded)
unfolding register_simple_tools register_one register_tool register
both_loaded = refl

names : list_tool_names loaded ≡ text "hash" ∷ text "kb_get" ∷ text "kb_list" ∷ []
unfolding register_simple_tools register_one register_tool register list_tool_names
names = refl

loaded_twice :
    (register_simple_tools write source (text "1.0.0") batch loaded).0
    ≡ some (taken (already_registered (text "kb_get")))
unfolding register_simple_tools register_one register_tool register
loaded_twice = refl

register_simple_tools-registers_example :
    All (IsRegistered write source (text "1.0.0") loaded) batch
    × Keeps server loaded
    × IsDict loaded.tools
register_simple_tools-registers_example =
    register_simple_tools-registers write source (text "1.0.0") batch server loaded (refl, tt)
      both_loaded

abbrev string_schema : Schema
string_schema =
    fragment
      (record {
        type_keyword = some (one (text "string"));
        enum = none;
        max_length = none;
        min_length = none;
        max_items = none;
        min_items = none;
        required = [];
        additional_properties = none;
      })
      unconstrained no_more

abbrev arguments : Fields
arguments = field (text "id") (str (text "T1")) end

arguments_pass :
    raise_if_invalid arguments
      (batch_schema (some (text "id")) string_schema)
      config.validation_limits
    ≡ returns tt
unfolding raise_if_invalid validate_tool_input validate_value validate_object validate_string
    check_type is_instance
arguments_pass = refl

abbrev context : HandlerContext
context = record { request_id = text "1"; correlation_id = text "2" }

batch_handler-called_example :
    (value : Json) × (lookup (text "id") (fields arguments) ≡ some value)
    × (batch_handler write (some (text "id")) true (λ v. gives null) arguments context
        ≡ checked_answer write true value (gives null))
batch_handler-called_example =
    batch_handler-called write config.validation_limits 2 (text "id") string_schema true
      (λ v. gives null) arguments context
      ((raise_if_invalid_iff arguments (batch_schema (some (text "id")) string_schema)
          config.validation_limits).0
        arguments_pass)
