-- ===== src/Validation.antt =====
-- Input validation: packages/fss-mcp/src/fss_mcp/security/validation.py.
-- A schema fragment is the keywords that the code looks at, each of the type that the code expects of
-- it; the fragment `{}` has none of them. An error is the place and the fault of which its message
-- is made.
pub mod Checks
pub mod Spec
pub mod Parts
pub mod Containers
pub mod Valid
mod Tests
use fss_chassis.Base.{ℕ, suc, Bool, Text, List, [], Option}
use fss_chassis.Base.Int.{ℤ}
use fss_chassis.Base.Dict.{Dict}
use fss_chassis.Json.{Json}

pub record ValidationLimits : Type 0 where
  pub max_string_length : ℕ
  pub max_array_length : ℕ
  pub max_object_depth : ℕ

-- `type`: a string or a list of strings
pub data SchemaType : Type 0 where
  one : Text → SchemaType
  many : List Text → SchemaType

-- The keywords of one fragment, those with fragments inside apart. `enum` is `none` where it is no
-- list; a keyword read by `_get_int_limit` or compared with `False` can be any value.
pub record Keywords : Type 0 where
  pub type_keyword : Option SchemaType
  pub enum : Option (List Json)
  pub max_length : Option Json
  pub min_length : Option Json
  pub max_items : Option Json
  pub min_items : Option Json
  pub required : List Text
  pub additional_properties : Option Json

mutual
  pub data Schema : Type 0 where
    fragment : Keywords → ItemsSchema → Properties → Schema

  -- `items`, or its default `{}`
  pub data ItemsSchema : Type 0 where
    unconstrained : ItemsSchema
    each : Schema → ItemsSchema

  pub data Properties : Type 0 where
    no_more : Properties
    property : Text → Schema → Properties → Properties

pub data Step : Type 0 where
  at_key : Text → Step
  at_index : ℕ → Step

pub data Fault : Type 0 where
  too_deep : ℕ → Fault
  wrong_type : List Text → Json → Fault
  not_in_enum : Json → List Json → Fault
  string_over_limit : (size limit : ℕ) → Fault
  array_over_limit : (size limit : ℕ) → Fault
  above_max_length : ℕ → ℤ → Fault
  below_min_length : ℕ → ℤ → Fault
  above_max_items : ℕ → ℤ → Fault
  below_min_items : ℕ → ℤ → Fault
  missing_field : Text → Fault
  unexpected_property : Text → Fault

pub record Error : Type 0 where
  pub path : List Step
  pub fault : Fault
