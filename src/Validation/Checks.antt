-- ===== src/Validation/Checks.antt =====
-- The functions of packages/fss-mcp/src/fss_mcp/security/validation.py. The list that they append
-- errors to is the concatenation of what each gives.
use fss_chassis.Base.{
  ℕ, zero, suc, Bool, true, false, not, ◌&&◌, ◌||◌, Text, text, text_eq, ◌==◌, Option, none, some,
  List, [], ◌∷◌, ◌++◌, length, any, map, remove_if, ltb, if◌then◌else◌, collect, fault_if, Result,
  returns, raises,
}
use fss_chassis.Base.Int.{ℤ, exceeds, falls_below}
use fss_chassis.Base.Dict.{Dict, lookup, has}
use fss_chassis.Json.{Json, Fields, null, bool, int, float, str, arr, obj, items, fields, json_same}
use fss_chassis.Validation.{
  ValidationLimits, SchemaType, one, many, Keywords, Schema, fragment, ItemsSchema, unconstrained,
  each, Properties, no_more, property, Step, at_key, at_index, Error, too_deep, wrong_type,
  not_in_enum, string_over_limit, array_over_limit, above_max_length, below_min_length,
  above_max_items, below_min_items, missing_field, unexpected_property,
}

-- isinstance(value, _TYPE_MAP.get(t, ())), where a bool is an int too
unfoldable pub is_instance : Json → Text → Bool
is_instance null t = t == text "null"
is_instance (bool b) t = t == text "boolean" || t == text "integer" || t == text "number"
is_instance (int n) t = t == text "integer" || t == text "number"
is_instance (float m e) t = t == text "number"
is_instance (str s) t = t == text "string"
is_instance (arr vs) t = t == text "array"
is_instance (obj fs) t = t == text "object"

abbrev pub is_bool : Json → Bool
is_bool (bool b) = true
is_bool _ = false

abbrev pub type_names : SchemaType → List Text
type_names (one t) = t ∷ []
type_names (many ts) = ts

-- `if schema_type:`
abbrev pub is_truthy : SchemaType → Bool
is_truthy (one []) = false
is_truthy (one (c ∷ t)) = true
is_truthy (many []) = false
is_truthy (many (t ∷ ts)) = true

unfoldable pub check_type : Json → SchemaType → List Step → List Error
check_type value schema_type path =
    let types = type_names schema_type in
    let error : Error = record { path = path; fault = wrong_type types value } in
    if not (any (λ t. t == text "boolean") types) && is_bool value
    then error ∷ []
    else fault_if (not (any (is_instance value) types)) error

abbrev pub type_errors : Json → Option SchemaType → List Step → List Error
type_errors value none path = []
type_errors value (some t) path = if is_truthy t then check_type value t path else []

abbrev pub get_int_limit : Option Json → Option ℤ
get_int_limit (some (int n)) = some n
get_int_limit _ = none

abbrev pub above : ℕ → Option ℤ → (ℤ → Error) → List Error
above size none error = []
above size (some limit) error = fault_if (exceeds size limit) (error limit)

abbrev pub below : ℕ → Option ℤ → (ℤ → Error) → List Error
below size none error = []
below size (some limit) error = fault_if (falls_below size limit) (error limit)

unfoldable pub validate_string : Text → Keywords → ValidationLimits → List Step → List Error
validate_string value s limits path =
    let n = length value in
    fault_if (ltb limits.max_string_length n)
      (record { path = path; fault = string_over_limit n limits.max_string_length })
    ++ above n (get_int_limit s.max_length)
        (λ k. record { path = path; fault = above_max_length n k })
    ++ below n (get_int_limit s.min_length)
        (λ k. record { path = path; fault = below_min_length n k })

-- The loop over the items, from index `i`
abbrev pub each_item : (Json → List Step → List Error) → List Step → ℕ → List Json → List Error
each_item check path i [] = []
each_item check path i (v ∷ vs) =
    check v (path ++ at_index i ∷ []) ++ each_item check path (suc i) vs

unfoldable pub validate_array :
    (Json → List Step → List Error)
    → List Json
    → Keywords
    → ValidationLimits
    → List Step
    → List Error
validate_array check value s limits path =
    let n = length value in
    if ltb limits.max_array_length n
    then record { path = path; fault = array_over_limit n limits.max_array_length } ∷ []
    else above n (get_int_limit s.max_items)
        (λ k. record { path = path; fault = above_max_items n k })
      ++ below n (get_int_limit s.min_items)
          (λ k. record { path = path; fault = below_min_items n k })
      ++ each_item check path 0 value

abbrev pub text_before : Text → Text → Bool
text_before [] [] = false
text_before [] (d ∷ t) = true
text_before (c ∷ s) [] = false
text_before (c ∷ s) (d ∷ t) = ltb c d || (not (ltb d c) && text_before s t)

abbrev pub insert_sorted : Text → List Text → List Text
insert_sorted s [] = s ∷ []
insert_sorted s (t ∷ ts) = if text_before t s then t ∷ insert_sorted s ts else s ∷ t ∷ ts

-- Python's `sorted` on strings, which compares code points
abbrev pub sorted : List Text → List Text
sorted [] = []
sorted (s ∷ ts) = insert_sorted s (sorted ts)

abbrev pub properties : Properties → Dict Text Schema
properties no_more = []
properties (property name s ps) = (name, s) ∷ properties ps

-- `is False`
abbrev pub is_closed : Option Json → Bool
is_closed (some (bool false)) = true
is_closed _ = false

abbrev pub check_property :
    (Json → Schema → List Step → List Error)
    → List Step
    → Dict Text Json
    → Text × Schema
    → List Error
check_property check path value (name, s) = elim (lookup name value) [
  | none ↦ []
  | some v ↦ check v s (path ++ at_key name ∷ [])
]

abbrev pub extra_keys : Dict Text Json → Properties → List Text
extra_keys value props =
    remove_if (λ key. has key (properties props)) (map (λ entry. entry.0) value)

unfoldable pub validate_object :
    (Json → Schema → List Step → List Error)
    → Dict Text Json
    → Keywords
    → Properties
    → List Step
    → List Error
validate_object check value s props path =
    collect
      (λ name. fault_if (not (has name value)) (record { path = path; fault = missing_field name }))
      s.required
    ++ (if is_closed s.additional_properties
        then map (λ key. record { path = path; fault = unexpected_property key })
            (sorted (extra_keys value props))
        else [])
    ++ collect (check_property check path value) (properties props)

abbrev pub items_schema : ItemsSchema → Schema
items_schema (each s) = s
items_schema unconstrained =
    fragment
      (record {
        type_keyword = none;
        enum = none;
        max_length = none;
        min_length = none;
        max_items = none;
        min_items = none;
        required = [];
        additional_properties = none;
      })
      unconstrained no_more

abbrev pub enum_errors : Json → Option (List Json) → List Step → List Error
enum_errors value none path = []
enum_errors value (some allowed) path =
    fault_if (not (any (json_same value) allowed))
      (record { path = path; fault = not_in_enum value allowed })

abbrev pub inner_errors :
    (Json → Schema → List Step → List Error)
    → Json
    → Schema
    → ValidationLimits
    → List Step
    → List Error
inner_errors check (str t) (fragment s inner props) limits path = validate_string t s limits path
inner_errors check (arr vs) (fragment s inner props) limits path =
    validate_array (λ v. check v (items_schema inner)) (items vs) s limits path
inner_errors check (obj fs) (fragment s inner props) limits path =
    validate_object check (fields fs) s props path
inner_errors check value s limits path = []

abbrev pub keywords : Schema → Keywords
keywords (fragment s inner props) = s

-- The levels left are `max_object_depth + 1 - depth`, none of them where `depth` exceeds the limit.
unfoldable pub validate_value : ValidationLimits → ℕ → Json → Schema → List Step → List Error
validate_value limits zero value s path =
    record { path = path; fault = too_deep limits.max_object_depth } ∷ []
validate_value limits (suc left) value s path =
    let mistyped = type_errors value (keywords s).type_keyword path in
    let rest =
      enum_errors value (keywords s).enum path
      ++ inner_errors (validate_value limits left) value s limits path in
    elim mistyped [ [] ↦ rest | e ∷ es ↦ e ∷ es ]

-- ValidationResult: valid exactly with no errors
unfoldable pub validate_tool_input : Fields → Schema → ValidationLimits → List Error
validate_tool_input arguments s limits =
    validate_value limits (suc limits.max_object_depth) (obj arguments) s []

abbrev pub raise_if_any : List Error → Result (List Error) (Unit {0})
raise_if_any [] = returns tt
raise_if_any (e ∷ es) = raises (e ∷ es)

unfoldable pub raise_if_invalid :
    Fields → Schema → ValidationLimits → Result (List Error) (Unit {0})
raise_if_invalid arguments s limits = raise_if_any (validate_tool_input arguments s limits)
