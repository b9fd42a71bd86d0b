-- ===== src/Sanitization/Stripped.antt =====
-- What no string of a sanitized value holds (packages/fss-mcp/src/fss_mcp/security/sanitization.py).
use fss_chassis.Base.{
  ℕ, ◌≤◌, false, Text, text, text_eq, length, remove_if, length-remove_if-le, ◌≡◌, sym, subst,
  arith, returns, All,
}
use fss_chassis.Json.{
  Json, Items, nil, cons, Fields, end, field, null, bool, int, float, str, arr, obj,
}
use fss_chassis.Sanitization.Characters.{
  UnicodeData, is_ctrl_char, is_null_byte, sanitize_moderate, sanitize_string,
}
use fss_chassis.Sanitization.Clean.{ShowsPunctuation, is_forbidden, sanitize_string-clean}
use fss_chassis.Sanitization.Returned.{input-returns}
use fss_chassis.Sanitization.Spec.{
  map_strings, map_strings_items, map_strings_fields, AllStrings, AllItems, AllFields, StringsAvoid,
}
use fss_chassis.Sanitization.Traversal.{IsFree, strip_path_traversal-IsFree}
use fss_chassis.Sanitization.Values.{sanitize_input}

module _ (P : Text → Type 0) (h : (s : Text) → P s) where
  mutual
    AllStrings-any : (v : Json) → AllStrings P v
    AllStrings-any null = tt
    AllStrings-any (bool b) = tt
    AllStrings-any (int n) = tt
    AllStrings-any (float m e) = tt
    AllStrings-any (str s) = h s
    AllStrings-any (arr vs) = AllItems-any vs
    AllStrings-any (obj fs) = AllFields-any fs

    AllItems-any : (vs : Items) → AllItems P vs
    AllItems-any nil = tt
    AllItems-any (cons v vs) = (AllStrings-any v, AllItems-any vs)

    AllFields-any : (fs : Fields) → AllFields P fs
    AllFields-any end = tt
    AllFields-any (field k v fs) = (h k, AllStrings-any v, AllFields-any fs)

-- A property of the images of a value's strings
module _ (f : Text → Text) (Q : Text → Type 0) (P : Text → Type 0)
    (h : (s : Text) → Q s → P (f s)) where
  mutual
    map_strings-All : (v : Json) → AllStrings Q v → AllStrings P (map_strings f v)
    map_strings-All null a = tt
    map_strings-All (bool b) a = tt
    map_strings-All (int n) a = tt
    map_strings-All (float m e) a = tt
    map_strings-All (str s) a = h s a
    map_strings-All (arr vs) a = map_strings_items-All vs a
    map_strings-All (obj fs) a = map_strings_fields-All fs a

    map_strings_items-All : (vs : Items) → AllItems Q vs → AllItems P (map_strings_items f vs)
    map_strings_items-All nil a = tt
    map_strings_items-All (cons v vs) (a, b) = (map_strings-All v a, map_strings_items-All vs b)

    map_strings_fields-All : (fs : Fields) → AllFields Q fs → AllFields P (map_strings_fields f fs)
    map_strings_fields-All end a = tt
    map_strings_fields-All (field k v fs) (a, b, c) =
        (h k a, map_strings-All v b, map_strings_fields-All fs c)

-- For what the bound on the passes is enough
abbrev pub IsShort : Text → Type 0
IsShort s = length s ≤ 21

sanitize_moderate-IsFree : (s : Text) → IsShort s → IsFree (sanitize_moderate s)
unfolding sanitize_moderate
sanitize_moderate-IsFree s h =
    strip_path_traversal-IsFree (remove_if is_ctrl_char (remove_if is_null_byte s)) (
      omega (
        arith,
        h,
        length-remove_if-le is_ctrl_char (remove_if is_null_byte s),
        length-remove_if-le is_null_byte s,
      ))

moderate-IsFree :
    (u : UnicodeData) (s : Text) → IsShort s → IsFree (sanitize_string u (text "moderate") s)
unfolding sanitize_string
moderate-IsFree u s h = sanitize_moderate-IsFree s h

-- What `sanitize_input` returns has, in no string and no key at any depth, a character that its
-- level takes out: at strict the control characters, those of Unicode's categories Cc and Cf but for
-- tab, newline and carriage return, and those of the shell, newline among them; at moderate the
-- control characters but for these three; at permissive NUL. And at moderate, where no string and
-- key that came in is longer than 21 characters, none that is returned holds a `..` next to a slash
-- or backslash, or is `..`. Punctuation is in neither category.
pub sanitize_input-clean :
    (u : UnicodeData) (level : Text) (d : ℕ) (v w : Json)
    → ShowsPunctuation u
    → sanitize_input u level d v ≡ returns w
    → StringsAvoid (is_forbidden u level) w
      × (level ≡ text "moderate" → AllStrings IsShort v → AllStrings IsFree w)
sanitize_input-clean u level d v w shown h =
    let made = sym (input-returns u level d v w h).0 in
    (
      subst (StringsAvoid (is_forbidden u level)) made (
          map_strings-All (sanitize_string u level) (λ s. Unit)
            (λ s. All (λ c. is_forbidden u level c ≡ false) s)
            (λ s _. sanitize_string-clean u level s shown) v
            (AllStrings-any (λ s. Unit) (λ s. tt) v)),
      λ moderate short. subst (AllStrings IsFree) made (
          map_strings-All (sanitize_string u level) IsShort IsFree
            (λ s i.
              subst (λ l. IsFree (sanitize_string u l s)) (sym moderate) (moderate-IsFree u s i))
            v short),
    )
