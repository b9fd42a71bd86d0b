-- ===== src/Validation/Spec.antt =====
-- What packages/fss-mcp/src/fss_mcp/security/validation.py accepts, said without errors and paths:
-- the types as JSON schema has them, where a boolean is no integer, and bounds as orders.
use fss_chassis.Base.{
  ℕ, zero, suc, ◌≤◌, Bool, true, ◌||◌, Text, text, text_eq, ◌==◌, Option, none, some, List, length,
  any, ◌≡◌, All,
}
use fss_chassis.Base.Int.{ℤ, pos, negsuc}
use fss_chassis.Base.Dict.{Dict, lookup, has}
use fss_chassis.Json.{Json, null, bool, int, float, str, arr, obj, items, fields, json_same}
use fss_chassis.Validation.{ValidationLimits, SchemaType, Keywords, Schema, fragment, Properties}
use fss_chassis.Validation.Checks.{
  type_names, is_truthy, get_int_limit, is_closed, properties, items_schema, keywords,
}

abbrev pub has_json_type : Json → Text → Bool
has_json_type null t = t == text "null"
has_json_type (bool b) t = t == text "boolean"
has_json_type (int n) t = t == text "integer" || t == text "number"
has_json_type (float m e) t = t == text "number"
has_json_type (str s) t = t == text "string"
has_json_type (arr vs) t = t == text "array"
has_json_type (obj fs) t = t == text "object"

abbrev pub IsOfType : Json → Option SchemaType → Type 0
IsOfType v none = Unit
IsOfType v (some t) = is_truthy t ≡ true → any (has_json_type v) (type_names t) ≡ true

abbrev pub IsListed : Json → Option (List Json) → Type 0
IsListed v none = Unit
IsListed v (some allowed) = any (json_same v) allowed ≡ true

abbrev pub IsAtMost : ℕ → Option ℤ → Type 0
IsAtMost size none = Unit
IsAtMost size (some (pos k)) = size ≤ k
IsAtMost size (some (negsuc k)) = ⊥

abbrev pub IsAtLeast : ℕ → Option ℤ → Type 0
IsAtLeast size none = Unit
IsAtLeast size (some (pos k)) = k ≤ size
IsAtLeast size (some (negsuc k)) = Unit

pub record IsValidString (limits : ValidationLimits) (s : Keywords) (t : Text) : Type 0 where
  pub within : length t ≤ limits.max_string_length
  pub not_longer : IsAtMost (length t) (get_int_limit s.max_length)
  pub not_shorter : IsAtLeast (length t) (get_int_limit s.min_length)

pub record IsValidArray (limits : ValidationLimits) (s : Keywords) (Inner : Json → Type 0)
    (vs : List Json) : Type 0 where
  pub within : length vs ≤ limits.max_array_length
  pub not_longer : IsAtMost (length vs) (get_int_limit s.max_items)
  pub not_shorter : IsAtLeast (length vs) (get_int_limit s.min_items)
  pub elements : All Inner vs

pub record IsValidObject (s : Keywords) (props : Properties) (Inner : Json → Schema → Type 0)
    (d : Dict Text Json) : Type 0 where
  pub complete : All (λ name. has name d ≡ true) s.required
  pub closed :
      is_closed s.additional_properties ≡ true
      → All (λ entry. has entry.0 (properties props) ≡ true) d
  pub declared :
      All (λ entry. (v : Json) → lookup entry.0 d ≡ some v → Inner v entry.1) (properties props)

abbrev pub IsValidInside : ValidationLimits → (Json → Schema → Type 0) → Json → Schema → Type 0
IsValidInside limits Inner (str t) (fragment s inner props) = IsValidString limits s t
IsValidInside limits Inner (arr vs) (fragment s inner props) =
    IsValidArray limits s (λ v. Inner v (items_schema inner)) (items vs)
IsValidInside limits Inner (obj fs) (fragment s inner props) =
    IsValidObject s props Inner (fields fs)
IsValidInside limits Inner v s = Unit

-- A value that conforms to a fragment, with so many levels left for it.
abbrev pub IsValid : ValidationLimits → ℕ → Json → Schema → Type 0
IsValid limits zero v s = ⊥
IsValid limits (suc left) v s =
    IsOfType v (keywords s).type_keyword
    × IsListed v (keywords s).enum
    × IsValidInside limits (IsValid limits left) v s
