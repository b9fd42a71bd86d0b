-- ===== src/Integrity/Format.antt =====
-- Which texts are identifiers, and that computed ones are
-- (packages/fss-core/src/fss_core/integrity.py).
use fss_chassis.Base.{
  ℕ, zero, suc, true, false, Text, text, text_eq, ◌==◌, Option, none, some, [], ◌∷◌, ◌++◌, length,
  nat_eq_iff, returns, All, ◌≡◌, refl, ap, sym, subst, ◌∙◌, ◌⊎◌, inl, inr, ◌↔◌, arith, Bool-cases,
  Option-cases,
}
use mathlib.Core.List.{append-nil, append_assoc}
use fss_chassis.Base.Dict.{lookup}
use fss_chassis.Integrity.{Bytes, Hashes}
use fss_chassis.Integrity.Cai.{
  algo_map, cai_with, compute_cai, hex_lengths, is_lower_hex, after_prefix, at_end, matches_hex,
  matches_digest, validate_cai,
}

-- A digest in lower-case hexadecimal of the right length, and what may follow it.
pub record IsDigest (n : ℕ) (s : Text) : Type 0 where
  pub digits : Text
  pub rest : Text
  pub splits : s ≡ digits ++ rest
  pub length_eq : length digits ≡ n
  pub all_hex : All (λ c. is_lower_hex c ≡ true) digits
  pub ends : (rest ≡ []) ⊎ (rest ≡ 10 ∷ [])

at_end_iff : (s : Text) → (at_end s ≡ true) ↔ ((s ≡ []) ⊎ (s ≡ 10 ∷ []))
at_end_iff [] = (λ h. inl refl, λ h. refl)
at_end_iff (c ∷ []) = ground arith
at_end_iff (c ∷ d ∷ s) = ground arith

matches_hex-IsDigest : (n : ℕ) (s : Text) → matches_hex n s ≡ true → IsDigest n s
matches_hex-IsDigest zero s h = record {
  digits = [];
  rest = s;
  splits = refl;
  length_eq = refl;
  all_hex = tt;
  ends = (at_end_iff s).0 h;
}
matches_hex-IsDigest (suc n) [] h = cc h
matches_hex-IsDigest (suc n) (c ∷ s) h =
    let first : is_lower_hex c ≡ true = ground (arith, h) in
    let later = matches_hex-IsDigest n s (ground (arith, h)) in
    record {
      digits = c ∷ later.digits;
      rest = later.rest;
      splits = ap (λ t. c ∷ t) later.splits;
      length_eq = ap suc later.length_eq;
      all_hex = (first, later.all_hex);
      ends = later.ends;
    }

digest_matches :
    (digits rest : Text)
    → All (λ c. is_lower_hex c ≡ true) digits
    → at_end rest ≡ true
    → matches_hex (length digits) (digits ++ rest) ≡ true
digest_matches [] rest h k = k
digest_matches (c ∷ s) rest (x, h) k = rw x (digest_matches s rest h k)

after_prefix_iff : (p s rest : Text) → (after_prefix p s ≡ some rest) ↔ (s ≡ p ++ rest)
after_prefix_iff [] s rest = (λ h. cc h, λ h. ap some h)
after_prefix_iff (c ∷ p) [] rest = (λ h. cc h, λ h. cc h)
after_prefix_iff (c ∷ p) (d ∷ s) rest = ground (arith, nat_eq_iff c d, after_prefix_iff p s rest)

matches_hex_iff : (n : ℕ) (s : Text) → (matches_hex n s ≡ true) ↔ IsDigest n s
matches_hex_iff n s = (
  matches_hex-IsDigest n s,
  λ d.
      subst (λ t. matches_hex n t ≡ true) (sym d.splits)
        (subst (λ k. matches_hex k (d.digits ++ d.rest) ≡ true) d.length_eq
          (digest_matches d.digits d.rest d.all_hex ((at_end_iff d.rest).1 d.ends))),
)

-- The prefix of the identifiers of an algorithm.
abbrev pub prefix : Text → Text
prefix algorithm = algorithm ++ (b':' ∷ [])

matches_digest_iff :
    (n : ℕ) (p value : Text)
    → (matches_digest n (after_prefix p value) ≡ true)
      ↔ ((s : Text) × (value ≡ p ++ s) × IsDigest n s)
matches_digest_iff n p value = elim (Option-cases (after_prefix p value)) [
  | inl e ↦
      (λ h. cc (ap (matches_digest n) e, h), λ h. cc (e, (after_prefix_iff p value h.0).1 h.1))
  | inr (s, e) ↦ (
    λ h. (
      s,
      (after_prefix_iff p value s).0 e,
      (matches_hex_iff n s).0 (ap (matches_digest n) (sym e) ∙ h),
    ),
    λ h.
        ap (matches_digest n) ((after_prefix_iff p value h.0).1 h.1)
        ∙ (matches_hex_iff n h.0).1 h.2,
  )
]

-- `validate_cai` accepts exactly the texts that consist of a known algorithm, a colon and a digest of
-- its length in lower-case hexadecimal, with at most one newline behind it.
pub validate_cai_iff :
    (value algorithm : Text)
    → (validate_cai value algorithm ≡ true) ↔ (
        (n : ℕ) × (lookup algorithm hex_lengths ≡ some n)
        × ((s : Text) × (value ≡ prefix algorithm ++ s) × IsDigest n s))
unfolding validate_cai
validate_cai_iff value algorithm = known_iff (lookup algorithm hex_lengths)
  where
    known_iff :
        (o : Option ℕ)
        → (elim o [
          | none ↦ false
          | some n ↦ matches_digest n (after_prefix (prefix algorithm) value)
        ]
            ≡ true)
          ↔ ((n : ℕ) × (o ≡ some n) × ((s : Text) × (value ≡ prefix algorithm ++ s) × IsDigest n s))
    known_iff none = (λ h. cc h, λ h. cc (h.1))
    known_iff (some n) = (
      λ h. (n, refl, (matches_digest_iff n (prefix algorithm) value).0 h),
      λ h.
          let same : n ≡ h.0 = cc (h.1) in
          subst (λ k. matches_digest k (after_prefix (prefix algorithm) value) ≡ true) (sym same)
            ((matches_digest_iff h.0 (prefix algorithm) value).1 h.2),
    )

-- What is documented of `hexdigest`: two lower-case digits for each of the 32, 48 or 64 bytes of a
-- digest of SHA-256, SHA-384 or SHA-512.
pub record GivesHex (lib : Hashes) : Type 0 where
  pub sha256_length : (bytes : Bytes) → length (lib.hexdigest (text "sha256") bytes) ≡ 64
  pub sha384_length : (bytes : Bytes) → length (lib.hexdigest (text "sha384") bytes) ≡ 96
  pub sha512_length : (bytes : Bytes) → length (lib.hexdigest (text "sha512") bytes) ≡ 128
  pub lower_hex :
      (name : Text) (bytes : Bytes) → All (λ c. is_lower_hex c ≡ true) (lib.hexdigest name bytes)

-- The digest that an algorithm is computed with has the length that its identifiers are to have.
abbrev HasLength : Hashes → Bytes → Text → Text → Type 0
HasLength lib bytes algorithm name =
    (n : ℕ) × (lookup algorithm hex_lengths ≡ some n) × (length (lib.hexdigest name bytes) ≡ n)

found_name :
    (algorithm name other : Text)
    → lookup algorithm algo_map ≡ some other
    → lookup algorithm algo_map ≡ some name
    → other ≡ name
found_name algorithm name other h k = cc (sym h ∙ k)

known_length :
    (lib : Hashes) (bytes : Bytes) (algorithm name : Text)
    → GivesHex lib
    → lookup algorithm algo_map ≡ some name
    → HasLength lib bytes algorithm name
known_length lib bytes algorithm name hex h = elim (Bool-cases (text "sha2-256" == algorithm)) [
  | inl a ↦
      subst (HasLength lib bytes algorithm)
        (found_name algorithm name (text "sha256") (rw a refl) h)
        (64, rw a refl, hex.sha256_length bytes)
  | inr a ↦ elim (Bool-cases (text "sha2-384" == algorithm)) [
    | inl b ↦
        subst (HasLength lib bytes algorithm)
          (found_name algorithm name (text "sha384") (rw a (rw b refl)) h)
          (96, rw a (rw b refl), hex.sha384_length bytes)
    | inr b ↦ elim (Bool-cases (text "sha2-512" == algorithm)) [
      | inl c ↦
          subst (HasLength lib bytes algorithm)
            (found_name algorithm name (text "sha512") (rw a (rw b (rw c refl))) h)
            (128, rw a (rw b (rw c refl)), hex.sha512_length bytes)
      | inr c ↦ absurd (ground (arith, a, b, c, h))
    ]
  ]
]

made_with :
    (lib : Hashes) (bytes : Bytes) (algorithm cai : Text) (o : Option Text)
    → cai_with lib bytes algorithm o ≡ returns cai
    → (name : Text) × (o ≡ some name) × (cai ≡ algorithm ++ (b':' ∷ lib.hexdigest name bytes))
made_with lib bytes algorithm cai none h = cc h
made_with lib bytes algorithm cai (some name) h = (name, refl, cc h)

-- A computed identifier is well-formed for its algorithm.
pub validate_cai-compute_cai :
    (lib : Hashes) (bytes : Bytes) (algorithm cai : Text)
    → GivesHex lib
    → compute_cai lib bytes algorithm ≡ returns cai
    → validate_cai cai algorithm ≡ true
unfolding compute_cai
validate_cai-compute_cai lib bytes algorithm cai hex h =
    let (name, known, made) = made_with lib bytes algorithm cai (lookup algorithm algo_map) h in
    let (n, sized, long) = known_length lib bytes algorithm name hex known in
    let digest = lib.hexdigest name bytes in
    let well_formed : IsDigest n digest = record {
      digits = digest;
      rest = [];
      splits = sym (append-nil digest);
      length_eq = long;
      all_hex = hex.lower_hex name bytes;
      ends = inl refl;
    } in
    let prefixed = made ∙ sym (append_assoc algorithm (b':' ∷ []) digest) in
    (validate_cai_iff cai algorithm).1 (n, sized, (digest, prefixed, well_formed))
