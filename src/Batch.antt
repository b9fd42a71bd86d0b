-- ===== src/Batch.antt =====
-- Tools that wrap the methods of one object:
-- packages/fss-mcp/src/fss_mcp/extensions/batch.py.
-- The object is its methods by name. `json.dumps` of a value is the argument `write`. The line that a
-- handler logs is left out, and so is the description that a parameter's schema gets.
pub mod Called
pub mod Registered
mod Tests
use fss_chassis.Base.{
  Bool, true, false, ◌&&◌, Text, text, text_eq, Option, none, some, List, [], ◌∷◌, Result, returns,
  raises,
}
use fss_chassis.Base.Dict.{Dict, lookup}
use fss_chassis.Config.{get_or}
use fss_chassis.Config.Overrides.{given}
use fss_chassis.Json.{Json, null, str, obj, Fields, end, field, fields}
use fss_chassis.Server.{
  HandlerContext, text_output, Handled, returned, timed_out, raised, failed, Tool, Server,
}
use fss_chassis.Server.Registry.{RegistryError, register_tool}
use fss_chassis.Validation.{
  one, Keywords, Schema, fragment, unconstrained, Properties, no_more, property,
}

-- What a method does with its argument, or with none: it returns a value of JSON, `null` for None,
-- or what `json.dumps` cannot write, or it raises as a handler can.
pub data MethodResult : Type 0 where
  gives : Json → MethodResult
  gives_unwritable : MethodResult
  method_timed_out : MethodResult
  method_raised : Option Text → MethodResult
  method_failed : MethodResult

abbrev pub Method : Type 0
Method = Option Json → MethodResult

-- A definition; a key that has a default is an option.
pub record Definition : Type 0 where
  pub name : Text
  pub description : Text
  pub method : Text
  pub param : Option Text
  pub not_found_check : Option Bool
  pub param_schema : Option Schema
  pub tool_version : Option Text
  pub idempotent : Option Bool
  pub side_effects : Option Bool
  pub deterministic : Option Bool
  pub known_limitations : Option Text

abbrev no_keywords : Keywords
no_keywords = record {
  type_keyword = none;
  enum = none;
  max_length = none;
  min_length = none;
  max_items = none;
  min_items = none;
  required = [];
  additional_properties = none;
}

abbrev any_string : Schema
any_string =
    fragment (record no_keywords { type_keyword = some (one (text "string")) }) unconstrained
      no_more

abbrev pub batch_schema : Option Text → Schema → Schema
batch_schema none schema =
    fragment (record no_keywords { type_keyword = some (one (text "object")) }) unconstrained
      no_more
batch_schema (some param) schema =
    fragment
      (record no_keywords { type_keyword = some (one (text "object")); required = param ∷ [] })
      unconstrained (property param schema no_more)

module _ (write : Json → Text) where
  abbrev pub answered : MethodResult → Handled
  answered (gives v) = returned (text_output (write v))
  answered gives_unwritable = failed
  answered method_timed_out = timed_out
  answered (method_raised message) = raised message
  answered method_failed = failed

  -- With the check, None is an error that names the value.
  abbrev pub checked_answer : Bool → Json → MethodResult → Handled
  checked_answer true value (gives null) = returned (
      text_output
        (write (obj (field (text "error") (str (text "not_found")) (field (text "id") value end)))))
  checked_answer not_found value m = answered m

  -- A KeyError where the argument is missing
  abbrev pub with_value : Bool → Method → Option Json → Handled
  with_value not_found method none = failed
  with_value not_found method (some value) = checked_answer not_found value (method (some value))

  unfoldable pub batch_handler : Option Text → Bool → Method → Fields → HandlerContext → Handled
  batch_handler none not_found method arguments c = answered (method none)
  batch_handler (some param) not_found method arguments c =
      with_value not_found method (lookup param (fields arguments))

  abbrev pub tool_of : Text → Definition → Method → Tool
  tool_of default_version d method = record {
    description = d.description;
    input_schema = batch_schema (given d.param) (get_or any_string d.param_schema);
    handler = batch_handler (given d.param) (get_or false d.not_found_check) method;
    auth_scopes = [];
    tool_version = get_or default_version d.tool_version;
    idempotent = get_or true d.idempotent;
    side_effects = get_or false d.side_effects;
    deterministic = get_or true d.deterministic;
    known_limitations = get_or [] d.known_limitations;
    deprecated = false;
    deprecated_in = [];
    removal_in = [];
  }

-- AttributeError of `getattr`, and the ValueError of a registration
pub data BatchError : Type 0 where
  no_method : Text → BatchError
  taken : RegistryError → BatchError

abbrev pub rename_error : Result RegistryError Server → Result BatchError Server
rename_error (returns s) = returns s
rename_error (raises e) = raises (taken e)

module _ (write : Json → Text) (source : Dict Text Method) (default_version : Text) where
  abbrev pub with_method : Definition → Server → Option Method → Result BatchError Server
  with_method d server none = raises (no_method d.method)
  with_method d server (some method) =
      rename_error (register_tool false d.name (tool_of write default_version d method) server)

  unfoldable pub register_one : Definition → Server → Result BatchError Server
  register_one d server = with_method d server (lookup d.method source)

  -- An exception ends the loop; the tools that came before it stay registered.
  abbrev pub go_on :
      (Server → Option BatchError × Server)
      → Server
      → Result BatchError Server
      → Option BatchError × Server
  go_on rest server (raises e) = (some e, server)
  go_on rest server (returns new) = rest new

  unfoldable pub register_simple_tools : List Definition → Server → Option BatchError × Server
  register_simple_tools [] server = (none, server)
  register_simple_tools (d ∷ ds) server =
      go_on (register_simple_tools ds) server (register_one d server)
