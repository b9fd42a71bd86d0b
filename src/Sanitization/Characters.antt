-- ===== src/Sanitization/Characters.antt =====
-- The character classes and the substitutions on one string, of
-- packages/fss-mcp/src/fss_mcp/security/sanitization.py.
-- `re.sub` with a pattern that matches one character is a filter.
use fss_chassis.Base.{
  ℕ, zero, suc, Bool, true, false, ◌&&◌, ◌||◌, Text, text, text_eq, ◌==◌, Option, none, some, [],
  ◌∷◌, leb, nat_eq, if◌then◌else◌, any, remove_if, not,
}

-- _CTRL_CHAR_RE
unfoldable pub is_ctrl_char : ℕ → Bool
is_ctrl_char c =
    leb c 0x08 || nat_eq c 0x0b || nat_eq c 0x0c || (leb 0x0e c && leb c 0x1f) || nat_eq c 0x7f

-- _NULL_BYTE_RE
abbrev pub is_null_byte : ℕ → Bool
is_null_byte c = nat_eq c 0

-- _SHELL_META_RE
unfoldable pub is_shell_meta : ℕ → Bool
is_shell_meta c = nat_eq c 10 || any (nat_eq c) (text ";|&$`\\!#()[]{}<>\"'~")

-- [/\\]
unfoldable pub is_slash : ℕ → Bool
is_slash c = nat_eq c b'/' || nat_eq c 0x5c

abbrev pub is_dot : ℕ → Bool
is_dot c = nat_eq c b'.'

-- _TRAVERSAL_ENCODED_RE with the `_decode_map`: what three characters stand for.
unfoldable pub decoded : ℕ → ℕ → ℕ → Option ℕ
decoded p a b =
    if nat_eq p b'%' && nat_eq a b'2' && (nat_eq b b'e' || nat_eq b b'E')
    then some b'.'
    else if nat_eq p b'%' && nat_eq a b'2' && (nat_eq b b'f' || nat_eq b b'F')
    then some b'/'
    else if nat_eq p b'%' && nat_eq a b'5' && (nat_eq b b'c' || nat_eq b b'C')
    then some 0x5c
    else none

unfoldable pub decode_traversal_percent_encoding : Text → Text
decode_traversal_percent_encoding (p ∷ a ∷ b ∷ s) = elim (decoded p a b) [
  | none ↦ p ∷ decode_traversal_percent_encoding (a ∷ b ∷ s)
  | some c ↦ c ∷ decode_traversal_percent_encoding s
]
decode_traversal_percent_encoding s = s

-- The alternatives `\.\.[/\\]` and `[/\\]\.\.` of _PATH_TRAVERSAL_RE, at three characters.
unfoldable pub is_traversal : ℕ → ℕ → ℕ → Bool
is_traversal a b c = (is_dot a && is_dot b && is_slash c) || (is_slash a && is_dot b && is_dot c)

-- `$` matches at the end, and before a newline that is the last character.
abbrev pub at_end : Text → Bool
at_end [] = true
at_end (c ∷ []) = nat_eq c 10
at_end _ = false

-- The alternative `^\.\.$`. Where a slash stands for the `^`, the second alternative matches first.
unfoldable pub is_bare : Bool → ℕ → ℕ → Text → Bool
is_bare at_start a b rest = at_start && is_dot a && is_dot b && at_end rest

-- _PATH_TRAVERSAL_RE.sub("", s), from a position that is or is not the start of the string
unfoldable pub sub_traversal : Bool → Text → Text
sub_traversal at_start (a ∷ b ∷ c ∷ s) = elim (is_traversal a b c) [
  | true ↦ sub_traversal false s
  | false ↦ elim (is_bare at_start a b (c ∷ s)) [
    | true ↦ sub_traversal false (c ∷ s)
    | false ↦ a ∷ sub_traversal false (b ∷ c ∷ s)
  ]
]
sub_traversal at_start (a ∷ b ∷ []) = if is_bare at_start a b [] then [] else a ∷ b ∷ []
sub_traversal at_start s = s

-- The loop of `_strip_path_traversal`.
unfoldable pub strip_passes : ℕ → Text → Text
strip_passes zero result = result
strip_passes (suc n) result =
    let cleaned = sub_traversal true result in
    let more = strip_passes n cleaned in if cleaned == result then result else more

abbrev pub max_traversal_passes : ℕ
max_traversal_passes = 10

unfoldable pub strip_path_traversal : Text → Text
strip_path_traversal value =
    strip_passes max_traversal_passes (decode_traversal_percent_encoding value)

-- What the code takes of `unicodedata`: `normalize("NFC", s)`, and whether `category(c)` is Cc or
-- Cf. Nothing is assumed of either.
pub record UnicodeData : Type 0 where
  pub normalize_nfc : Text → Text
  pub is_control_category : ℕ → Bool

abbrev is_allowed_control : ℕ → Bool
is_allowed_control c = any (nat_eq c) (9 ∷ 10 ∷ 13 ∷ 32 ∷ [])

unfoldable pub strip_unicode_controls : UnicodeData → Text → Text
strip_unicode_controls u value =
    remove_if (λ c. u.is_control_category c && not (is_allowed_control c)) value

unfoldable pub sanitize_strict : UnicodeData → Text → Text
sanitize_strict u value =
    let visible = strip_unicode_controls u (u.normalize_nfc value) in
    let printable = remove_if is_ctrl_char (remove_if is_null_byte visible) in
    remove_if is_shell_meta (strip_path_traversal printable)

unfoldable pub sanitize_moderate : Text → Text
sanitize_moderate value =
    strip_path_traversal (remove_if is_ctrl_char (remove_if is_null_byte value))

unfoldable pub sanitize_permissive : Text → Text
sanitize_permissive value = remove_if is_null_byte value

unfoldable pub sanitize_string : UnicodeData → Text → Text → Text
sanitize_string u level value =
    if level == text "strict"
    then sanitize_strict u value
    else if level == text "moderate"
    then sanitize_moderate value
    else sanitize_permissive value
