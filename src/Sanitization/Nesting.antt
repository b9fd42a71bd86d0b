-- ===== src/Sanitization/Nesting.antt =====
-- Nested `../`, against the bound on the passes of `_strip_path_traversal`
-- (packages/fss-mcp/src/fss_mcp/security/sanitization.py).
use fss_chassis.Base.{
  ℕ, zero, suc, ◌+◌, ◌*◌, length, inl, inr, Bool-cases, Bool, true, false, Text, text_eq,
  text_beq_iff, ◌==◌, [], ◌∷◌, ◌≡◌, refl, ap, sym, ◌∙◌, arith,
}
use fss_chassis.Sanitization.Characters.{
  is_slash, is_traversal, is_bare, sub_traversal, strip_passes, strip_path_traversal, decoded,
  decode_traversal_percent_encoding,
}

abbrev slashes : ℕ → Text
slashes zero = []
slashes (suc n) = b'/' ∷ slashes n

abbrev ups : ℕ → Text → Text
ups zero s = s
ups (suc k) s = b'.' ∷ b'.' ∷ ups k s

-- `..` k times and then `/` k times: `../` k deep.
abbrev pub nested : ℕ → Text
nested k = ups k (slashes k)

sub_traversal-slashes : (n : ℕ) → sub_traversal false (slashes n) ≡ slashes n
unfolding sub_traversal is_traversal is_slash is_bare
sub_traversal-slashes zero = refl
sub_traversal-slashes (suc zero) = refl
sub_traversal-slashes (suc (suc zero)) = refl
sub_traversal-slashes (suc (suc (suc n))) = ap (λ s. b'/' ∷ s) (sub_traversal-slashes (suc (suc n)))

-- The innermost `../` is the one match.
sub_traversal-ups :
    (b : Bool) (k n : ℕ) → sub_traversal b (ups (suc k) (slashes (suc n))) ≡ ups k (slashes n)
unfolding sub_traversal is_traversal is_slash is_bare
sub_traversal-ups b zero n = sub_traversal-slashes n
sub_traversal-ups true (suc k) n = ap (λ s. b'.' ∷ b'.' ∷ s) (sub_traversal-ups false k n)
sub_traversal-ups false (suc k) n = ap (λ s. b'.' ∷ b'.' ∷ s) (sub_traversal-ups false k n)

length-ups : (k : ℕ) (s : Text) → length (ups k s) ≡ 2 * k + length s
length-ups zero s = omega arith
length-ups (suc k) s = omega (arith, length-ups k s)

length-slashes : (n : ℕ) → length (slashes n) ≡ n
length-slashes zero = refl
length-slashes (suc n) = omega (arith, length-slashes n)

one_less : (m : ℕ) → (sub_traversal true (nested (suc m)) == nested (suc m)) ≡ false
one_less m = elim (Bool-cases (sub_traversal true (nested (suc m)) == nested (suc m))) [
  | inl e ↦ absurd (
      omega (
        arith,
        ap length (sym (sub_traversal-ups true m m) ∙ (text_beq_iff _ _).0 e),
        length-ups m (slashes m),
        length-ups (suc m) (slashes (suc m)),
        length-slashes m,
        length-slashes (suc m),
      ))
  | inr e ↦ e
]

strip_passes-step : (n m : ℕ) → strip_passes (suc n) (nested (suc m)) ≡ strip_passes n (nested m)
unfolding strip_passes
strip_passes-step n m = rw (one_less m) (ap (strip_passes n) (sub_traversal-ups true m m))

-- The loop takes one level in a pass.
strip_passes-nested : (n j : ℕ) → strip_passes n (nested (n + j)) ≡ nested j
unfolding strip_passes
strip_passes-nested zero j = ap nested (omega arith)
strip_passes-nested (suc n) j =
    ap (λ m. strip_passes (suc n) (nested m)) {y = suc (n + j)} (omega arith)
    ∙ strip_passes-step n (n + j)
    ∙ strip_passes-nested n j

decode-dot :
    (s : Text)
    → decode_traversal_percent_encoding (b'.' ∷ s) ≡ b'.' ∷ decode_traversal_percent_encoding s
unfolding decode_traversal_percent_encoding decoded
decode-dot [] = refl
decode-dot (a ∷ []) = refl
decode-dot (a ∷ b ∷ s) = refl

decode-ups :
    (k : ℕ) (s : Text)
    → decode_traversal_percent_encoding s ≡ s
    → decode_traversal_percent_encoding (ups k s) ≡ ups k s
decode-ups zero s h = h
decode-ups (suc k) s h =
    decode-dot (b'.' ∷ ups k s)
    ∙ ap (λ t. b'.' ∷ t) (decode-dot (ups k s) ∙ ap (λ t. b'.' ∷ t) (decode-ups k s h))

decode-slashes : (n : ℕ) → decode_traversal_percent_encoding (slashes n) ≡ slashes n
unfolding decode_traversal_percent_encoding decoded
decode-slashes zero = refl
decode-slashes (suc zero) = refl
decode-slashes (suc (suc zero)) = refl
decode-slashes (suc (suc (suc n))) = ap (λ s. b'/' ∷ s) (decode-slashes (suc (suc n)))

-- Of `../` nested deeper than the bound on the passes, the levels above the bound are left:
-- the loop ends before its fixed point.
pub strip_path_traversal-nested : (j : ℕ) → strip_path_traversal (nested (10 + j)) ≡ nested j
unfolding strip_path_traversal
strip_path_traversal-nested j =
    ap (strip_passes 10) (decode-ups (10 + j) (slashes (10 + j)) (decode-slashes (10 + j)))
    ∙ strip_passes-nested 10 j
