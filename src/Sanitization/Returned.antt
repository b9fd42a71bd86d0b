-- ===== src/Sanitization/Returned.antt =====
-- What holds of a value on which `sanitize_input` returned
-- (packages/fss-mcp/src/fss_mcp/security/sanitization.py).
use fss_chassis.Base.{
  ℕ, suc, ◌+◌, ◌≤◌, true, Text, text_eq, text_beq_iff, Option, none, some, [], ◌∷◌, ◌≡◌, refl, ap,
  sym, ◌∙◌, inl, inr, arith, Option-cases, leb, Result, returns, raises, ◌>>=◌, raise_unless,
  >>=-returns, raise_unless-returns, not_both, leb→le,
}
use fss_chassis.Base.Dict.{Dict, lookup, insert, lookup-insert, lookup-insert_self, has}
use fss_chassis.Json.{
  Json, Items, nil, cons, Fields, end, field, null, bool, int, float, str, arr, obj, fields,
}
use fss_chassis.Sanitization.Characters.{UnicodeData, sanitize_string}
use fss_chassis.Sanitization.Values.{
  SanitizationError, unknown_level, depth_exceeded, key_collision, is_level, max_sanitize_depth,
  checked, sanitize_input, sanitize_items, sanitize_fields,
}
use fss_chassis.Sanitization.Spec.{
  map_strings_items, map_strings_fields, depth, items_depth, fields_depth, HasKeysOnce,
  ItemsHaveKeysOnce, sanitized, IsAccepted,
}

pub le→leb : (a b : ℕ) → a ≤ b → leb a b ≡ true
le→leb a b h = ground (arith, h)

module _ {κ} {A : Type κ} where
  checked-returns :
      (level : Text) (d : ℕ) (m : Result SanitizationError A) (a : A)
      → checked level d m ≡ returns a
      → (is_level level ≡ true) × (d ≤ max_sanitize_depth) × (m ≡ returns a)
  unfolding checked
  checked-returns level d m a h =
      let (x, first, rest) =
        >>=-returns (raise_unless (is_level level) (unknown_level level)) _ a h in
      let (y, second, result) =
        >>=-returns (raise_unless (leb d max_sanitize_depth) depth_exceeded) _ a rest in
      (
        raise_unless-returns (is_level level) _ x first,
        leb→le d max_sanitize_depth (raise_unless-returns (leb d max_sanitize_depth) _ y second),
        result,
      )

  pub checked-passes :
      (level : Text) (d : ℕ) (m : Result SanitizationError A)
      → is_level level ≡ true
      → d ≤ max_sanitize_depth
      → checked level d m ≡ m
  unfolding checked
  checked-passes level d m e f = rw e (rw (le→leb d max_sanitize_depth f) refl)

-- The keys of the pairs to come are none of the keys seen.
abbrev pub Unseen : Dict Text Text → Dict Text Json → Type 0
Unseen seen d = (k : Text) → has k d ≡ true → lookup k seen ≡ none

Unseen-cons :
    (seen : Dict Text Text) (new k : Text) (w : Json) (d : Dict Text Json)
    → lookup new seen ≡ none
    → Unseen (insert new k seen) d
    → (lookup new d ≡ none) × Unseen seen ((new, w) ∷ d)
Unseen-cons seen new k w d fresh h = (
  ground (arith, h new, lookup-insert_self new k seen),
  λ j found. ground (arith, h j, lookup-insert new j k seen, text_beq_iff new j, fresh, found),
)

pub Unseen-uncons :
    (seen : Dict Text Text) (new k : Text) (w : Json) (d : Dict Text Json)
    → lookup new d ≡ none
    → Unseen seen ((new, w) ∷ d)
    → (lookup new seen ≡ none) × Unseen (insert new k seen) d
Unseen-uncons seen new k w d fresh h = (
  h new (ground (arith, text_beq_iff new new)),
  λ j found. ground (arith, h j, lookup-insert new j k seen, text_beq_iff new j, fresh, found),
)

-- A value with nothing inside.
leaf-returns :
    (u : UnicodeData) (level : Text) (d : ℕ) (v w : Json)
    → depth v ≡ 0
    → HasKeysOnce (sanitized u level v)
    → checked level d (returns (sanitized u level v)) ≡ returns w
    → (w ≡ sanitized u level v) × IsAccepted u level d v
leaf-returns u level d v w flat once h =
    let (known, shallow, result) = checked-returns level d _ w h in
    (cc result, record { known = known; shallow = omega (arith, flat, shallow); distinct = once })

-- The loop over a dict at one entry, by what the keys seen have for its cleaned key.
abbrev pub by_seen :
    UnicodeData
    → Text
    → ℕ
    → Dict Text Text
    → Text
    → Json
    → Fields
    → Option Text
    → Result SanitizationError Fields
by_seen u level d seen key v fs found = elim found [
  | some first ↦ raises (key_collision first key (sanitize_string u level key))
  | none ↦ do
    w ← sanitize_input u level (suc d) v
    gs ← sanitize_fields u level d (insert (sanitize_string u level key) key seen) fs
    returns (field (sanitize_string u level key) w gs)
]

record ItemsAccepted (u : UnicodeData) (level : Text) (d : ℕ) (vs ws : Items) : Type 0 where
  result : ws ≡ map_strings_items (sanitize_string u level) vs
  shallow : d + items_depth vs ≤ max_sanitize_depth
  distinct : ItemsHaveKeysOnce (map_strings_items (sanitize_string u level) vs)

record FieldsAccepted (u : UnicodeData) (level : Text) (d : ℕ) (seen : Dict Text Text)
    (fs gs : Fields) : Type 0 where
  result : gs ≡ map_strings_fields (sanitize_string u level) fs
  shallow : d + fields_depth fs ≤ max_sanitize_depth
  distinct : HasKeysOnce (obj (map_strings_fields (sanitize_string u level) fs))
  unseen : Unseen seen (fields (map_strings_fields (sanitize_string u level) fs))

mutual
  unfolding sanitize_input

  pub input-returns :
      (u : UnicodeData) (level : Text) (d : ℕ) (v w : Json)
      → sanitize_input u level d v ≡ returns w
      → (w ≡ sanitized u level v) × IsAccepted u level d v
  input-returns u level d null w h = leaf-returns u level d null w refl tt h
  input-returns u level d (bool b) w h = leaf-returns u level d (bool b) w refl tt h
  input-returns u level d (int n) w h = leaf-returns u level d (int n) w refl tt h
  input-returns u level d (float m e) w h = leaf-returns u level d (float m e) w refl tt h
  input-returns u level d (str s) w h = leaf-returns u level d (str s) w refl tt h
  input-returns u level d (arr vs) w h =
      let (known, shallow, body) = checked-returns level d _ w h in
      let (ws, inner, out) =
        >>=-returns (sanitize_items u level d vs) (λ ws. returns (arr ws)) w body in
      let accepted = items-return u level d vs ws shallow inner in
      (
        cc (out, accepted.result),
        record { known = known; shallow = accepted.shallow; distinct = accepted.distinct },
      )
  input-returns u level d (obj fs) w h =
      let (known, shallow, body) = checked-returns level d _ w h in
      let (gs, inner, out) =
        >>=-returns (sanitize_fields u level d [] fs) (λ gs. returns (obj gs)) w body in
      let accepted = fields-return u level d [] fs gs shallow inner in
      (
        cc (out, accepted.result),
        record { known = known; shallow = accepted.shallow; distinct = accepted.distinct },
      )

  items-return :
      (u : UnicodeData) (level : Text) (d : ℕ) (vs ws : Items)
      → d ≤ max_sanitize_depth
      → sanitize_items u level d vs ≡ returns ws
      → ItemsAccepted u level d vs ws
  items-return u level d nil ws k h = record {
    result = cc h;
    shallow = omega (arith, k);
    distinct = tt;
  }
  items-return u level d (cons v vs) out k h =
      let (w, head, rest) = >>=-returns (sanitize_input u level (suc d) v) _ out h in
      let (ws, tail, made) = >>=-returns (sanitize_items u level d vs) _ out rest in
      let (same, one) = input-returns u level (suc d) v w head in
      let more = items-return u level d vs ws k tail in
      record {
        result = cc (made, same, more.result);
        shallow = omega (arith, one.shallow, more.shallow);
        distinct = (one.distinct, more.distinct);
      }

  fields-return :
      (u : UnicodeData) (level : Text) (d : ℕ) (seen : Dict Text Text) (fs gs : Fields)
      → d ≤ max_sanitize_depth
      → sanitize_fields u level d seen fs ≡ returns gs
      → FieldsAccepted u level d seen fs gs
  fields-return u level d seen end gs k h = record {
    result = cc h;
    shallow = omega (arith, k);
    distinct = (tt, tt);
    unseen = λ j found. cc found;
  }
  fields-return u level d seen (field key v fs) out k h =
      let new = sanitize_string u level key in
      let step = by_seen u level d seen key v fs in
      elim (Option-cases (lookup new seen)) [
        | inl fresh ↦
            let (w, head, rest) =
              >>=-returns (sanitize_input u level (suc d) v) _ out (sym (ap step fresh) ∙ h) in
            let (gs, tail, made) =
              >>=-returns (sanitize_fields u level d (insert new key seen) fs) _ out rest in
            let (same, one) = input-returns u level (suc d) v w head in
            let more = fields-return u level d (insert new key seen) fs gs k tail in
            let (once, unseen) =
              Unseen-cons seen new key (sanitized u level v) _ fresh more.unseen in
            record {
              result = cc (made, same, more.result);
              shallow = omega (arith, one.shallow, more.shallow);
              distinct = ((once, more.distinct.0), (one.distinct, more.distinct.1));
              unseen = unseen;
            }
        | inr (first, old) ↦ absurd (not_both _ out _ (ap step old) h)
      ]
