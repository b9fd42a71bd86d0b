-- ===== src/Sanitization/Outcome.antt =====
-- When `sanitize_input` returns, and what (packages/fss-mcp/src/fss_mcp/security/sanitization.py).
use fss_chassis.Base.{
  ℕ, suc, ◌+◌, ◌≤◌, true, Text, text_eq, [], ◌≡◌, refl, ap, sym, ◌∙◌, ◌↔◌, arith, returns, ◌>>=◌,
}
use fss_chassis.Base.Dict.{Dict, insert}
use fss_chassis.Json.{
  Json, Items, nil, cons, Fields, end, field, null, bool, int, float, str, arr, obj, fields,
}
use fss_chassis.Sanitization.Characters.{UnicodeData, sanitize_string}
use fss_chassis.Sanitization.Values.{
  is_level, max_sanitize_depth, sanitize_input, sanitize_items, sanitize_fields,
}
use fss_chassis.Sanitization.Spec.{
  map_strings_items, map_strings_fields, items_depth, fields_depth, HasKeysOnce, ItemsHaveKeysOnce,
  sanitized, IsAccepted,
}
use fss_chassis.Sanitization.Returned.{
  checked-passes, Unseen, Unseen-uncons, by_seen, input-returns,
}

mutual
  unfolding sanitize_input

  input-accepts :
      (u : UnicodeData) (level : Text) (d : ℕ) (v : Json)
      → IsAccepted u level d v
      → sanitize_input u level d v ≡ returns (sanitized u level v)
  input-accepts u level d null h = checked-passes level d _ h.known (omega (arith, h.shallow))
  input-accepts u level d (bool b) h = checked-passes level d _ h.known (omega (arith, h.shallow))
  input-accepts u level d (int n) h = checked-passes level d _ h.known (omega (arith, h.shallow))
  input-accepts u level d (float m e) h =
      checked-passes level d _ h.known (omega (arith, h.shallow))
  input-accepts u level d (str s) h = checked-passes level d _ h.known (omega (arith, h.shallow))
  input-accepts u level d (arr vs) h =
      checked-passes level d _ h.known (omega (arith, h.shallow))
      ∙ ap (λ m. m >>= λ ws. returns (arr ws))
          (items-accept u level d vs h.known h.shallow h.distinct)
  input-accepts u level d (obj fs) h =
      checked-passes level d _ h.known (omega (arith, h.shallow))
      ∙ ap (λ m. m >>= λ gs. returns (obj gs))
          (fields-accept u level d [] fs h.known h.shallow h.distinct (λ j found. refl))

  items-accept :
      (u : UnicodeData) (level : Text) (d : ℕ) (vs : Items)
      → is_level level ≡ true
      → d + items_depth vs ≤ max_sanitize_depth
      → ItemsHaveKeysOnce (map_strings_items (sanitize_string u level) vs)
      → sanitize_items u level d vs ≡ returns (map_strings_items (sanitize_string u level) vs)
  items-accept u level d nil k shallow h = refl
  items-accept u level d (cons v vs) k shallow (one, more) =
      let head =
        input-accepts u level (suc d) v
          (record { known = k; shallow = omega (arith, shallow); distinct = one }) in
      let tail = items-accept u level d vs k (omega (arith, shallow)) more in rw head (rw tail refl)

  fields-accept :
      (u : UnicodeData) (level : Text) (d : ℕ) (seen : Dict Text Text) (fs : Fields)
      → is_level level ≡ true
      → d + fields_depth fs ≤ max_sanitize_depth
      → HasKeysOnce (obj (map_strings_fields (sanitize_string u level) fs))
      → Unseen seen (fields (map_strings_fields (sanitize_string u level) fs))
      → sanitize_fields u level d seen fs
        ≡ returns (map_strings_fields (sanitize_string u level) fs)
  fields-accept u level d seen end k shallow h unseen = refl
  fields-accept u level d seen (field key v fs) k shallow ((fresh, once), (one, more)) unseen =
      let new = sanitize_string u level key in
      let (absent, later) = Unseen-uncons seen new key (sanitized u level v) _ fresh unseen in
      let head =
        input-accepts u level (suc d) v
          (record { known = k; shallow = omega (arith, shallow); distinct = one }) in
      let tail =
        fields-accept u level d (insert new key seen) fs k (omega (arith, shallow)) (once, more)
          later in
      ap (by_seen u level d seen key v fs) absent ∙ rw head (rw tail refl)

-- `sanitize_input` returns exactly on the values that are accepted, and gives the value with each of
-- its strings and keys cleaned by itself and all else unchanged.
pub sanitize_input_iff :
    (u : UnicodeData) (level : Text) (d : ℕ) (v w : Json)
    → (sanitize_input u level d v ≡ returns w)
      ↔ (IsAccepted u level d v × (w ≡ sanitized u level v))
sanitize_input_iff u level d v w = (
  λ h. let (same, accepted) = input-returns u level d v w h in (accepted, same),
  λ h. input-accepts u level d v h.0 ∙ ap returns (sym h.1),
)
