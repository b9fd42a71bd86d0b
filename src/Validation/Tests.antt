-- ===== src/Validation/Tests.antt =====
-- Runs of the validator, and the theorems at concrete arguments
-- (packages/fss-mcp/src/fss_mcp/security/validation.py).
use fss_chassis.Base.{true, text, [], ◌∷◌, none, some, ◌≡◌, refl, ◌↔◌, returns}
use fss_chassis.Base.Int.{pos}
use fss_chassis.Json.{Fields, nil, cons, end, field, bool, int, str, arr, obj}
use fss_chassis.Validation.{
  ValidationLimits, one, Keywords, Schema, fragment, unconstrained, each, no_more, property, at_key,
  at_index, wrong_type, missing_field, too_deep,
}
use fss_chassis.Validation.Checks.{
  is_instance, check_type, validate_array, validate_object, validate_value, validate_tool_input,
  raise_if_invalid,
}
use fss_chassis.Validation.Spec.{IsValid}
use fss_chassis.Validation.Valid.{raise_if_invalid_iff}

abbrev limits : ValidationLimits
limits = record { max_string_length = 20; max_array_length = 3; max_object_depth = 1 }

abbrev plain : Keywords
plain = record {
  type_keyword = none;
  enum = none;
  max_length = none;
  min_length = none;
  max_items = none;
  min_items = none;
  required = [];
  additional_properties = none;
}

abbrev number : Schema
number =
    fragment (record plain { type_keyword = some (one (text "integer")) }) unconstrained no_more

abbrev numbers : Schema
numbers = fragment (record plain { max_items = some (int (pos 2)) }) (each number) no_more

abbrev tool : Schema
tool =
    fragment
      (record plain {
        type_keyword = some (one (text "object"));
        required = text "n" ∷ [];
        additional_properties = some (bool true);
      })
      unconstrained (property (text "n") number (property (text "xs") numbers no_more))

abbrev good : Fields
good = field (text "n") (int (pos 4)) (field (text "other") (str (text "x")) end)

good_passes : raise_if_invalid good tool limits ≡ returns tt
unfolding raise_if_invalid validate_tool_input validate_value validate_object check_type is_instance
good_passes = refl

-- A boolean is no integer.
bool_refused :
    validate_tool_input (field (text "n") (bool true) end) tool limits
    ≡ record { path = at_key (text "n") ∷ []; fault = wrong_type (text "integer" ∷ []) (bool true) }
      ∷ []
unfolding validate_tool_input validate_value validate_object check_type is_instance
bool_refused = refl

-- An item of a declared array stands deeper than the limit of 1.
deep_refused :
    validate_tool_input (field (text "xs") (arr (cons (int (pos 1)) nil)) end) tool limits
    ≡ record { path = []; fault = missing_field (text "n") }
      ∷ record { path = at_key (text "xs") ∷ at_index 0 ∷ []; fault = too_deep 1 }
      ∷ []
unfolding validate_tool_input validate_value validate_object validate_array check_type is_instance
deep_refused = refl

raise_if_invalid_iff_example :
    (raise_if_invalid good tool limits ≡ returns tt) ↔ IsValid limits 2 (obj good) tool
raise_if_invalid_iff_example = raise_if_invalid_iff good tool limits
