-- ===== src/Sanitization/Values.antt =====
-- `sanitize_input` on a whole value (packages/fss-mcp/src/fss_mcp/security/sanitization.py).
use fss_chassis.Base.{
  ℕ, suc, Bool, ◌||◌, Text, text, text_eq, ◌==◌, none, some, [], leb, Result, returns, raises,
  ◌>>=◌, ◌>>◌, raise_unless,
}
use fss_chassis.Base.Dict.{Dict, lookup, insert}
use fss_chassis.Json.{Json, Items, nil, cons, Fields, end, field, str, arr, obj}
use fss_chassis.Sanitization.Characters.{UnicodeData, sanitize_string}

-- SanitizationError, with the values that its messages show
pub data SanitizationError : Type 0 where
  unknown_level : Text → SanitizationError
  depth_exceeded : SanitizationError
  key_collision : (first second new_key : Text) → SanitizationError

abbrev pub error_code : SanitizationError → Text
error_code (unknown_level _) = text "INVALID_SANITIZATION_LEVEL"
error_code depth_exceeded = text "SANITIZATION_DEPTH_EXCEEDED"
error_code (key_collision _ _ _) = text "KEY_COLLISION"

abbrev pub max_sanitize_depth : ℕ
max_sanitize_depth = 50

abbrev pub is_level : Text → Bool
is_level level = level == text "strict" || level == text "moderate" || level == text "permissive"

-- The two tests before the value is looked at.
unfoldable pub checked {κ} :
    {A : Type κ} → Text → ℕ → Result SanitizationError A → Result SanitizationError A
checked level depth body = do
  raise_unless (is_level level) (unknown_level level)
  raise_unless (leb depth max_sanitize_depth) depth_exceeded
  body

-- `sanitize_fields` is the loop over a dict: the pairs that it collects have distinct keys, so
-- `dict` of them is the pairs.
unfoldable mutual
  pub sanitize_input : UnicodeData → Text → ℕ → Json → Result SanitizationError Json
  sanitize_input u level depth (str s) =
      checked level depth (returns (str (sanitize_string u level s)))
  sanitize_input u level depth (obj fs) =
      checked level depth (do gs ← sanitize_fields u level depth [] fs; returns (obj gs))
  sanitize_input u level depth (arr vs) =
      checked level depth (do ws ← sanitize_items u level depth vs; returns (arr ws))
  sanitize_input u level depth value = checked level depth (returns value)

  pub sanitize_items : UnicodeData → Text → ℕ → Items → Result SanitizationError Items
  sanitize_items u level depth nil = returns nil
  sanitize_items u level depth (cons v vs) = do
    w ← sanitize_input u level (suc depth) v
    ws ← sanitize_items u level depth vs
    returns (cons w ws)

  pub sanitize_fields :
      UnicodeData → Text → ℕ → Dict Text Text → Fields → Result SanitizationError Fields
  sanitize_fields u level depth seen_keys end = returns end
  sanitize_fields u level depth seen_keys (field k v fs) =
      let new_key = sanitize_string u level k in
      elim (lookup new_key seen_keys) [
        | some first ↦ raises (key_collision first k new_key)
        | none ↦ do
          w ← sanitize_input u level (suc depth) v
          gs ← sanitize_fields u level depth (insert new_key k seen_keys) fs
          returns (field new_key w gs)
      ]
