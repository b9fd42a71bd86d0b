-- ===== src/Sanitization/Clean.antt =====
-- What no sanitized string holds, level by level
-- (packages/fss-mcp/src/fss_mcp/security/sanitization.py).
use fss_chassis.Base.{
  ◌||◌, ◌&&◌, not, any, nat_eq, ℕ, zero, suc, Bool, true, false, Text, text, text_eq, ◌==◌, [], ◌∷◌,
  ◌≡◌, refl, sym, subst, inl, inr, arith, All, All-remove_if, All-remove_if_self, Bool-cases,
  Option-cases, some, remove_if, if◌then◌else◌,
}
use fss_chassis.Sanitization.Characters.{
  is_ctrl_char, is_null_byte, is_shell_meta, is_traversal, is_bare, sub_traversal, strip_passes,
  strip_path_traversal, decoded, decode_traversal_percent_encoding, sanitize_strict,
  sanitize_moderate, sanitize_permissive, sanitize_string, UnicodeData, strip_unicode_controls,
}
use fss_chassis.Sanitization.Traversal.{
  sub_traversal-here, sub_traversal-bare, sub_traversal-on, decode-on, decode-here,
}

-- Characters that decoding can bring in.
pub record Decodes {κ} (P : ℕ → Type κ) : Type κ where
  pub dot_ok : P b'.'
  pub slash_ok : P b'/'
  pub backslash_ok : P 0x5c

module _ {κ} (P : ℕ → Type κ) where
  decoded-holds : (p a b c : ℕ) → Decodes P → decoded p a b ≡ some c → P c
  unfolding decoded
  decoded-holds p a b c d e = ground (arith, e, d.dot_ok, d.slash_ok, d.backslash_ok)

  decode-All : (s : Text) → Decodes P → All P s → All P (decode_traversal_percent_encoding s)
  unfolding decode_traversal_percent_encoding
  decode-All [] d h = tt
  decode-All (p ∷ []) d h = h
  decode-All (p ∷ a ∷ []) d h = h
  decode-All (p ∷ a ∷ b ∷ s) d (x, h) = elim (Option-cases (decoded p a b)) [
    | inl e ↦ subst (All P) (sym (decode-on p a b s e)) (x, decode-All (a ∷ b ∷ s) d h)
    | inr (c, e) ↦
        subst (All P) (sym (decode-here p a b c s e))
          (decoded-holds p a b c d e, decode-All s d h.1.1)
  ]

  sub_traversal-All : (b : Bool) (s : Text) → All P s → All P (sub_traversal b s)
  unfolding sub_traversal
  sub_traversal-All b [] h = h
  sub_traversal-All b (x ∷ []) h = h
  sub_traversal-All b (x ∷ y ∷ []) h = elim (Bool-cases (is_bare b x y [])) [
    | inl e ↦ rw e tt
    | inr e ↦ rw e h
  ]
  sub_traversal-All b (x ∷ y ∷ z ∷ s) (p, (q, h)) = elim (Bool-cases (is_traversal x y z)) [
    | inl e ↦ subst (All P) (sym (sub_traversal-here b x y z s e)) (sub_traversal-All false s h.1)
    | inr e ↦ elim (Bool-cases (is_bare b x y (z ∷ s))) [
      | inl f ↦
          subst (All P) (sym (sub_traversal-bare b x y z s e f)) (sub_traversal-All false (z ∷ s) h)
      | inr f ↦
          subst (All P) (sym (sub_traversal-on b x y z s e f))
            (p, sub_traversal-All false (y ∷ z ∷ s) (q, h))
    ]
  ]

  strip_passes-All : (n : ℕ) (s : Text) → All P s → All P (strip_passes n s)
  unfolding strip_passes
  strip_passes-All zero s h = h
  strip_passes-All (suc n) s h = elim (Bool-cases (sub_traversal true s == s)) [
    | inl e ↦ rw e h
    | inr e ↦ rw e (strip_passes-All n (sub_traversal true s) (sub_traversal-All true s h))
  ]

  -- What holds of every character of a text, of `.`, `/` and `\`, holds of the stripped text.
  strip_path_traversal-All : (s : Text) → Decodes P → All P s → All P (strip_path_traversal s)
  unfolding strip_path_traversal
  strip_path_traversal-All s d h =
      strip_passes-All 10 (decode_traversal_percent_encoding s) (decode-All s d h)

-- What is documented of the categories of three characters: punctuation, neither Cc nor Cf.
pub record ShowsPunctuation (u : UnicodeData) : Type 0 where
  pub dot_shown : u.is_control_category b'.' ≡ false
  pub slash_shown : u.is_control_category b'/' ≡ false
  pub backslash_shown : u.is_control_category 0x5c ≡ false

-- A character of the category Cc or Cf, other than tab, newline, carriage return and space
abbrev pub is_unicode_control : UnicodeData → ℕ → Bool
is_unicode_control u c = u.is_control_category c && not (any (nat_eq c) (9 ∷ 10 ∷ 13 ∷ 32 ∷ []))

-- The characters that a level takes out. strict: the characters of _CTRL_CHAR_RE, those of the shell
-- and the control characters of Unicode. moderate: those of _CTRL_CHAR_RE. permissive: NUL.
abbrev pub is_forbidden : UnicodeData → Text → ℕ → Bool
is_forbidden u level c =
    if level == text "strict"
    then (is_ctrl_char c || is_shell_meta c) || is_unicode_control u c
    else if level == text "moderate"
    then is_ctrl_char c
    else is_null_byte c

printable_stripped :
    (s : Text) → All (λ c. is_ctrl_char c ≡ false) (strip_path_traversal (remove_if is_ctrl_char s))
unfolding is_ctrl_char
printable_stripped s =
    strip_path_traversal-All (λ c. is_ctrl_char c ≡ false) (remove_if is_ctrl_char s)
      (record { dot_ok = refl; slash_ok = refl; backslash_ok = refl })
      (All-remove_if_self is_ctrl_char s)

both_false : (a b : Bool) → a ≡ false → b ≡ false → (a || b) ≡ false
both_false a b h k = rw h k

All-both :
    (p q : ℕ → Bool) (s : Text)
    → All (λ c. p c ≡ false) s
    → All (λ c. q c ≡ false) s
    → All (λ c. (p c || q c) ≡ false) s
All-both p q [] h k = tt
All-both p q (c ∷ s) (a, h) (b, k) = (both_false (p c) (q c) a b, All-both p q s h k)

hidden_stripped :
    (u : UnicodeData) (s : Text)
    → ShowsPunctuation u
    → All
        (λ c. is_unicode_control u c ≡ false)
        (strip_path_traversal
          (remove_if is_ctrl_char (remove_if is_null_byte (strip_unicode_controls u s))))
unfolding strip_unicode_controls
hidden_stripped u s shown =
    let visible = strip_unicode_controls u s in
    let whole = remove_if is_null_byte visible in
    strip_path_traversal-All (λ c. is_unicode_control u c ≡ false) (remove_if is_ctrl_char whole)
      (record {
        dot_ok = rw shown.dot_shown refl;
        slash_ok = rw shown.slash_shown refl;
        backslash_ok = rw shown.backslash_shown refl;
      })
      (All-remove_if (λ c. is_unicode_control u c ≡ false) is_ctrl_char whole
        (All-remove_if (λ c. is_unicode_control u c ≡ false) is_null_byte visible
          (All-remove_if_self (is_unicode_control u) s)))

sanitize_strict-clean :
    (u : UnicodeData) (s : Text)
    → ShowsPunctuation u
    → All
        (λ c. ((is_ctrl_char c || is_shell_meta c) || is_unicode_control u c) ≡ false)
        (sanitize_strict u s)
unfolding sanitize_strict
sanitize_strict-clean u s shown =
    let printable = remove_if is_null_byte (strip_unicode_controls u (u.normalize_nfc s)) in
    let stripped = strip_path_traversal (remove_if is_ctrl_char printable) in
    let result = remove_if is_shell_meta stripped in
    All-both (λ c. is_ctrl_char c || is_shell_meta c) (is_unicode_control u) result
      (All-both is_ctrl_char is_shell_meta result
        (All-remove_if (λ c. is_ctrl_char c ≡ false) is_shell_meta stripped
          (printable_stripped printable))
        (All-remove_if_self is_shell_meta stripped))
      (All-remove_if (λ c. is_unicode_control u c ≡ false) is_shell_meta stripped
        (hidden_stripped u (u.normalize_nfc s) shown))

-- No character that the level takes out is left in a sanitized string.
pub sanitize_string-clean :
    (u : UnicodeData) (level value : Text)
    → ShowsPunctuation u
    → All (λ c. is_forbidden u level c ≡ false) (sanitize_string u level value)
unfolding sanitize_string sanitize_moderate sanitize_permissive
sanitize_string-clean u level value shown = elim (Bool-cases (level == text "strict")) [
  | inl strict ↦ rw strict (sanitize_strict-clean u value shown)
  | inr other ↦ rw other (elim (Bool-cases (level == text "moderate")) [
    | inl moderate ↦ rw moderate (printable_stripped (remove_if is_null_byte value))
    | inr permissive ↦ rw permissive (All-remove_if_self is_null_byte value)
  ])
]
