-- ===== src/Sanitization/Tests.antt =====
-- Runs of the sanitizer, and the theorems at concrete values
-- (packages/fss-mcp/src/fss_mcp/security/sanitization.py).
use fss_chassis.Base.{text, ◌≡◌, refl, arith, ◌↔◌, returns, raises}
use fss_chassis.Base.Int.{pos}
use fss_chassis.Json.{Json, nil, cons, end, field, int, str, arr, obj}
use fss_chassis.Sanitization.Characters.{
  UnicodeData, strip_path_traversal, sanitize_strict, sanitize_moderate, is_shell_meta,
  is_ctrl_char, is_traversal, is_slash, sub_traversal, strip_passes,
  decode_traversal_percent_encoding, decoded, sanitize_string, is_bare, strip_unicode_controls,
}
use fss_chassis.Sanitization.Traversal.{IsFree, strip_path_traversal-IsFree}
use fss_chassis.Sanitization.Nesting.{nested, strip_path_traversal-nested}
use fss_chassis.Sanitization.Clean.{ShowsPunctuation, is_forbidden}
use fss_chassis.Sanitization.Values.{sanitize_input, checked, key_collision}
use fss_chassis.Sanitization.Spec.{sanitized, IsAccepted, AllStrings, StringsAvoid}
use fss_chassis.Sanitization.Outcome.{sanitize_input_iff}
use fss_chassis.Sanitization.Stripped.{IsShort, sanitize_input-clean}

abbrev plain_ascii : UnicodeData
plain_ascii = record { normalize_nfc = λ s. s; is_control_category = is_ctrl_char }

stacked : strip_path_traversal (text "....//....//etc/passwd") ≡ text "etc/passwd"
unfolding strip_path_traversal sub_traversal strip_passes decode_traversal_percent_encoding decoded
    is_traversal is_slash is_bare
stacked = refl

encoded : strip_path_traversal (text "%2e%2E/x%2f%25") ≡ text "x/%25"
unfolding strip_path_traversal sub_traversal strip_passes decode_traversal_percent_encoding decoded
    is_traversal is_slash is_bare
encoded = refl

-- The shell's characters go after the traversals, and can leave a new one.
rejoined : sanitize_strict plain_ascii (text ".;./") ≡ text "../"
unfolding sanitize_strict strip_unicode_controls is_ctrl_char is_shell_meta strip_path_traversal
    sub_traversal strip_passes decode_traversal_percent_encoding decoded is_traversal is_slash
    is_bare
rejoined = refl

abbrev request : Json
request =
    obj (
      field (text "pa;th") (str (text "a|b")) (field (text "n") (arr (cons (int (pos 3)) nil)) end))

abbrev cleaned : Json
cleaned =
    obj
      (field (text "path") (str (text "ab")) (field (text "n") (arr (cons (int (pos 3)) nil)) end))

request-cleaned : sanitize_input plain_ascii (text "strict") 0 request ≡ returns cleaned
unfolding sanitize_input checked sanitize_string sanitize_strict strip_unicode_controls is_ctrl_char
    is_shell_meta strip_path_traversal sub_traversal strip_passes decode_traversal_percent_encoding
    decoded is_traversal is_slash is_bare
request-cleaned = refl

collision :
    sanitize_input plain_ascii
      (text "strict")
      0
      (obj (field (text "a;") (int (pos 1)) (field (text "a") (int (pos 2)) end)))
    ≡ raises (key_collision (text "a;") (text "a") (text "a"))
unfolding sanitize_input checked sanitize_string sanitize_strict strip_unicode_controls is_ctrl_char
    is_shell_meta strip_path_traversal sub_traversal strip_passes decode_traversal_percent_encoding
    decoded is_traversal is_slash is_bare
collision = refl

sanitize_input_iff_example :
    (sanitize_input plain_ascii (text "strict") 0 request ≡ returns cleaned) ↔ (
      IsAccepted plain_ascii (text "strict") 0 request
      × (cleaned ≡ sanitized plain_ascii (text "strict") request))
sanitize_input_iff_example = sanitize_input_iff plain_ascii (text "strict") 0 request cleaned

plain_ascii-ShowsPunctuation : ShowsPunctuation plain_ascii
unfolding is_ctrl_char
plain_ascii-ShowsPunctuation = record {
  dot_shown = refl;
  slash_shown = refl;
  backslash_shown = refl;
}

-- Both halves of the theorem have their say at the moderate level.
abbrev dotted : Json
dotted = obj (field (text "path") (str (text "../etc;")) end)

abbrev undotted : Json
undotted = obj (field (text "path") (str (text "etc;")) end)

dotted-cleaned : sanitize_input plain_ascii (text "moderate") 0 dotted ≡ returns undotted
unfolding sanitize_input checked sanitize_string sanitize_moderate is_ctrl_char strip_path_traversal
    sub_traversal strip_passes decode_traversal_percent_encoding decoded is_traversal is_slash
    is_bare
dotted-cleaned = refl

sanitize_input-clean_example :
    StringsAvoid (is_forbidden plain_ascii (text "moderate")) undotted
    × (text "moderate" ≡ text "moderate" → AllStrings IsShort dotted → AllStrings IsFree undotted)
sanitize_input-clean_example =
    sanitize_input-clean plain_ascii (text "moderate") 0 dotted undotted
      plain_ascii-ShowsPunctuation dotted-cleaned

strip_path_traversal-IsFree_example : IsFree (strip_path_traversal (text "....//a/..\\..//b"))
strip_path_traversal-IsFree_example =
    strip_path_traversal-IsFree (text "....//a/..\\..//b") (omega arith)

strip_path_traversal-nested_example : strip_path_traversal (nested 11) ≡ text "../"
strip_path_traversal-nested_example = strip_path_traversal-nested 1
