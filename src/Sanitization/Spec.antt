-- ===== src/Sanitization/Spec.antt =====
-- `sanitize_input` described without its walk: what it makes of a value, and which values it accepts
-- (packages/fss-mcp/src/fss_mcp/security/sanitization.py).
use fss_chassis.Base.{ℕ, suc, ◌+◌, ◌≤◌, max, Bool, true, false, Text, text_eq, ◌≡◌, All}
use fss_chassis.Base.Dict.{IsDict}
use fss_chassis.Json.{Json, Items, nil, cons, Fields, end, field, str, arr, obj, fields}
use fss_chassis.Sanitization.Characters.{UnicodeData, sanitize_string}
use fss_chassis.Sanitization.Values.{is_level, max_sanitize_depth}

-- Every string of a value by itself, the keys included; all else as it is.
abbrev mutual
  pub map_strings : (Text → Text) → Json → Json
  map_strings f (str s) = str (f s)
  map_strings f (arr vs) = arr (map_strings_items f vs)
  map_strings f (obj fs) = obj (map_strings_fields f fs)
  map_strings f v = v

  pub map_strings_items : (Text → Text) → Items → Items
  map_strings_items f nil = nil
  map_strings_items f (cons v vs) = cons (map_strings f v) (map_strings_items f vs)

  pub map_strings_fields : (Text → Text) → Fields → Fields
  map_strings_fields f end = end
  map_strings_fields f (field k v fs) = field (f k) (map_strings f v) (map_strings_fields f fs)

-- How many containers the deepest value stands in.
abbrev mutual
  pub depth : Json → ℕ
  depth (arr vs) = items_depth vs
  depth (obj fs) = fields_depth fs
  depth _ = 0

  pub items_depth : Items → ℕ
  items_depth nil = 0
  items_depth (cons v vs) = max (suc (depth v)) (items_depth vs)

  pub fields_depth : Fields → ℕ
  fields_depth end = 0
  fields_depth (field k v fs) = max (suc (depth v)) (fields_depth fs)

-- No dict of the value has a key twice.
abbrev mutual
  pub HasKeysOnce : Json → Type 0
  HasKeysOnce (arr vs) = ItemsHaveKeysOnce vs
  HasKeysOnce (obj fs) = IsDict (fields fs) × FieldsHaveKeysOnce fs
  HasKeysOnce _ = Unit

  pub ItemsHaveKeysOnce : Items → Type 0
  ItemsHaveKeysOnce nil = Unit
  ItemsHaveKeysOnce (cons v vs) = HasKeysOnce v × ItemsHaveKeysOnce vs

  pub FieldsHaveKeysOnce : Fields → Type 0
  FieldsHaveKeysOnce end = Unit
  FieldsHaveKeysOnce (field k v fs) = HasKeysOnce v × FieldsHaveKeysOnce fs

-- Every string of the value, and every key, has a property.
abbrev mutual
  pub AllStrings : (Text → Type 0) → Json → Type 0
  AllStrings P (str s) = P s
  AllStrings P (arr vs) = AllItems P vs
  AllStrings P (obj fs) = AllFields P fs
  AllStrings P _ = Unit

  pub AllItems : (Text → Type 0) → Items → Type 0
  AllItems P nil = Unit
  AllItems P (cons v vs) = AllStrings P v × AllItems P vs

  pub AllFields : (Text → Type 0) → Fields → Type 0
  AllFields P end = Unit
  AllFields P (field k v fs) = P k × AllStrings P v × AllFields P fs

-- No string of the value, and no key, has a character that fails the test.
abbrev pub StringsAvoid : (ℕ → Bool) → Json → Type 0
StringsAvoid p v = AllStrings (λ s. All (λ c. p c ≡ false) s) v

abbrev pub sanitized : UnicodeData → Text → Json → Json
sanitized u level v = map_strings (sanitize_string u level) v

-- The level is one of the three, nothing stands deeper than the bound, and the cleaned keys of each
-- dict are distinct.
pub record IsAccepted (u : UnicodeData) (level : Text) (start : ℕ) (v : Json) : Type 0 where
  pub known : is_level level ≡ true
  pub shallow : start + depth v ≤ max_sanitize_depth
  pub distinct : HasKeysOnce (sanitized u level v)
