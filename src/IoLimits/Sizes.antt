-- ===== src/IoLimits/Sizes.antt =====
-- What the size limits let through (packages/fss-mcp/src/fss_mcp/security/io_limits.py).
use fss_chassis.Base.{
  ℕ, ◌*◌, ◌≤◌, ◌<◌, Text, Option, none, some, [], ◌∷◌, length, ltb, returns, ◌≡◌, refl, ◌↔◌, arith,
  inl, inr, Option-cases, Bool-cases, All,
}
use fss_chassis.IoLimits.{
  Payload, utf8_width, encoded_length, byte_length, refuse_above, check_size,
}

refuse_above_iff :
    (code : Text) (max_size : ℕ) (o : Option ℕ)
    → (refuse_above code max_size o ≡ returns tt)
      ↔ ((size : ℕ) × (o ≡ some size) × (size ≤ max_size))
refuse_above_iff code max_size none = (λ h. cc h, λ h. cc (h.1))
refuse_above_iff code max_size (some n) = elim (Bool-cases (ltb max_size n)) [
  | inl over ↦ (
    λ h. ground (arith, over, h),
    λ h. let same : n ≡ h.0 = cc (h.1) in absurd (ground (arith, over, same, h.2)),
  )
  | inr within ↦ (λ h. (n, refl, ground (arith, within)), λ h. ground (arith, within))
]

-- A payload passes exactly if it can be encoded, in at most so many bytes.
pub check_size_iff :
    (code : Text) (payload : Payload) (max_size : ℕ)
    → (check_size code payload max_size ≡ returns tt)
      ↔ ((size : ℕ) × (byte_length payload ≡ some size) × (size ≤ max_size))
unfolding check_size
check_size_iff code payload max_size = refuse_above_iff code max_size (byte_length payload)

utf8_width-bounds : (c : ℕ) → (1 ≤ utf8_width c) × (utf8_width c ≤ 4)
unfolding utf8_width
utf8_width-bounds c = ground arith

-- The encoding has from one to four bytes for each character.
pub encoded_length-bounds :
    (s : Text) (n : ℕ) → encoded_length s ≡ some n → (length s ≤ n) × (n ≤ 4 * length s)
unfolding encoded_length
encoded_length-bounds [] n h = ground arith
encoded_length-bounds (c ∷ s) n h = elim (Option-cases (encoded_length s)) [
  | inl e ↦ ground (arith, e, h)
  | inr (m, e) ↦ ground (arith, e, h, utf8_width-bounds c, encoded_length-bounds s m e)
]

-- ASCII text, which `json.dumps` gives, has one byte for each character.
pub encoded_length-ascii : (s : Text) → All (λ c. c < 0x80) s → encoded_length s ≡ some (length s)
unfolding encoded_length utf8_width
encoded_length-ascii [] h = refl
encoded_length-ascii (c ∷ s) (a, h) = ground (arith, a, encoded_length-ascii s h)
