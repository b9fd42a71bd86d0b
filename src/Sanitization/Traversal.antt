-- ===== src/Sanitization/Traversal.antt =====
-- What `_strip_path_traversal` removes, and what its bound on the passes leaves
-- (packages/fss-mcp/src/fss_mcp/security/sanitization.py).
use fss_chassis.Base.{
  ℕ, zero, suc, ◌+◌, ◌*◌, ◌≤◌, ◌<◌, Bool, true, false, Text, text, text_eq, text_beq_iff, ◌==◌, [],
  ◌∷◌, ◌++◌, length, ◌≡◌, ◌≢◌, ◌⊎◌, inl, inr, refl, ap, ◌∙◌, sym, subst, arith, Bool-cases,
  Option-cases, Option, none, some, ◌≢◌,
}
use fss_chassis.Sanitization.Characters.{
  is_slash, is_traversal, is_bare, sub_traversal, strip_passes, strip_path_traversal, decoded,
  decode_traversal_percent_encoding,
}

abbrev dot : ℕ
dot = b'.'

-- No `..` before or after a slash or backslash, at any place, and no `..` alone.
pub record IsFree (s : Text) : Type 0 where
  pub no_up :
      (pre post : Text) (sep : ℕ) → is_slash sep ≡ true → s ≢ pre ++ (dot ∷ dot ∷ sep ∷ post)
  pub no_down :
      (pre post : Text) (sep : ℕ) → is_slash sep ≡ true → s ≢ pre ++ (sep ∷ dot ∷ dot ∷ post)
  pub not_bare : s ≢ text ".."

-- The same, position by position.
abbrev NoMatch : Text → Type 0
NoMatch (a ∷ b ∷ c ∷ s) = (is_traversal a b c ≡ false) × NoMatch (b ∷ c ∷ s)
NoMatch _ = Unit

no-match-append :
    (a b c : ℕ) (pre post : Text)
    → is_traversal a b c ≡ true
    → ¬ NoMatch (pre ++ (a ∷ b ∷ c ∷ post))
no-match-append a b c [] post h n = cc (n.0)
no-match-append a b c (x ∷ []) post h n = cc (n.1.0)
no-match-append a b c (x ∷ y ∷ []) post h n = cc (n.1.1.0)
no-match-append a b c (x ∷ y ∷ z ∷ pre) post h n = no-match-append a b c (y ∷ z ∷ pre) post h n.1

-- What one pass makes of a string: itself, where nothing matches, or a string shorter by two.
abbrev Pass : Text → Text → Type 0
Pass s t = ((t ≡ s) × NoMatch s) ⊎ (length t + 2 ≤ length s)

Pass-length : (s t : Text) → Pass s t → length t ≤ length s
Pass-length s t (inl (same, _)) = omega (arith, ap (length {A = ℕ}) same)
Pass-length s t (inr shorter) = omega arith

abbrev by_match : Bool → ℕ → ℕ → ℕ → Text → Bool → Bool → Text
by_match b x y z s found bare = elim found [
  | true ↦ sub_traversal false s
  | false ↦ elim bare [
    | true ↦ sub_traversal false (z ∷ s)
    | false ↦ x ∷ sub_traversal false (y ∷ z ∷ s)
  ]
]

-- The three ways on of a pass, by what stands at its place.
pub sub_traversal-here :
    (b : Bool) (x y z : ℕ) (s : Text)
    → is_traversal x y z ≡ true
    → sub_traversal b (x ∷ y ∷ z ∷ s) ≡ sub_traversal false s
unfolding sub_traversal
sub_traversal-here b x y z s h = ap (λ t. by_match b x y z s t (is_bare b x y (z ∷ s))) h

pub sub_traversal-bare :
    (b : Bool) (x y z : ℕ) (s : Text)
    → is_traversal x y z ≡ false
    → is_bare b x y (z ∷ s) ≡ true
    → sub_traversal b (x ∷ y ∷ z ∷ s) ≡ sub_traversal false (z ∷ s)
unfolding sub_traversal
sub_traversal-bare b x y z s h k =
    ap (λ t. by_match b x y z s t (is_bare b x y (z ∷ s))) h ∙ ap (by_match b x y z s false) k

pub sub_traversal-on :
    (b : Bool) (x y z : ℕ) (s : Text)
    → is_traversal x y z ≡ false
    → is_bare b x y (z ∷ s) ≡ false
    → sub_traversal b (x ∷ y ∷ z ∷ s) ≡ x ∷ sub_traversal false (y ∷ z ∷ s)
unfolding sub_traversal
sub_traversal-on b x y z s h k =
    ap (λ t. by_match b x y z s t (is_bare b x y (z ∷ s))) h ∙ ap (by_match b x y z s false) k

pass : (b : Bool) (s : Text) → Pass s (sub_traversal b s)
unfolding sub_traversal
pass b [] = inl (refl, tt)
pass b (x ∷ []) = inl (refl, tt)
pass b (x ∷ y ∷ []) = elim (Bool-cases (is_bare b x y [])) [
  | inl e ↦ rw e (inr (omega arith))
  | inr e ↦ rw e (inl (refl, tt))
]
pass b (x ∷ y ∷ z ∷ s) = elim (Bool-cases (is_traversal x y z)) [
  | inl e ↦
      subst (Pass (x ∷ y ∷ z ∷ s)) (sym (sub_traversal-here b x y z s e))
        (inr (omega (arith, Pass-length s _ (pass false s))))
  | inr e ↦ elim (Bool-cases (is_bare b x y (z ∷ s))) [
    | inl f ↦
        subst (Pass (x ∷ y ∷ z ∷ s)) (sym (sub_traversal-bare b x y z s e f))
          (inr (omega (arith, Pass-length (z ∷ s) _ (pass false (z ∷ s)))))
    | inr f ↦
        subst (Pass (x ∷ y ∷ z ∷ s)) (sym (sub_traversal-on b x y z s e f))
          (elim (pass false (y ∷ z ∷ s)) [
            | inl (same, none_left) ↦ inl (ap (λ t. x ∷ t) same, (e, none_left))
            | inr shorter ↦ inr (omega (arith, shorter))
          ])
  ]
]

nil_not_dots : [] ≢ text ".."
nil_not_dots h = absurd (omega (arith, ap (length {A = ℕ}) h))

-- A pass from the start of the string changes a bare `..` as well.
not_bare_of_same : (s : Text) → sub_traversal true s ≡ s → s ≢ text ".."
unfolding sub_traversal is_bare
not_bare_of_same s same bare = nil_not_dots (subst (λ t. sub_traversal true t ≡ t) bare same)

up_matches : (sep : ℕ) → is_slash sep ≡ true → is_traversal dot dot sep ≡ true
unfolding is_traversal
up_matches sep h = rw h refl

down_matches : (sep : ℕ) → is_slash sep ≡ true → is_traversal sep dot dot ≡ true
unfolding is_traversal
down_matches sep h = rw h (ground arith)

NoMatch-IsFree : (s : Text) → NoMatch s → s ≢ text ".." → IsFree s
NoMatch-IsFree s h k = record {
  no_up = λ pre post sep slash e.
      no-match-append dot dot sep pre post (up_matches sep slash) (subst NoMatch e h);
  no_down = λ pre post sep slash e.
      no-match-append sep dot dot pre post (down_matches sep slash) (subst NoMatch e h);
  not_bare = k;
}

IsFree-of_same : (s : Text) → sub_traversal true s ≡ s → IsFree s
IsFree-of_same s same = elim (pass true s) [
  | inl (_, none_left) ↦ NoMatch-IsFree s none_left (not_bare_of_same s same)
  | inr shorter ↦ absurd (omega (arith, shorter, ap (length {A = ℕ}) same))
]

changed-length : (s t : Text) → Pass s t → (t == s) ≡ false → length t + 2 ≤ length s
changed-length s t (inl (same, _)) changed = absurd (ground (arith, (text_beq_iff t s).1 same))
changed-length s t (inr shorter) changed = shorter

same_of_short : (s : Text) → length s < 2 → sub_traversal true s ≡ s
unfolding sub_traversal
same_of_short [] h = refl
same_of_short (x ∷ []) h = refl
same_of_short (x ∷ y ∷ s) h = absurd (omega (arith, h))

-- Enough passes: two characters go with each.
pub strip_passes-IsFree : (n : ℕ) (s : Text) → length s < 2 * n + 2 → IsFree (strip_passes n s)
unfolding strip_passes
strip_passes-IsFree zero s h = IsFree-of_same s (same_of_short s h)
strip_passes-IsFree (suc n) s h = elim (Bool-cases (sub_traversal true s == s)) [
  | inl e ↦ rw e (IsFree-of_same s ((text_beq_iff _ _).0 e))
  | inr e ↦ rw e (
      strip_passes-IsFree n (sub_traversal true s)
        (omega (arith, h, changed-length s _ (pass true s) e)))
]

abbrev by_code : ℕ → ℕ → ℕ → Text → Option ℕ → Text
by_code p a b s found = elim found [
  | none ↦ p ∷ decode_traversal_percent_encoding (a ∷ b ∷ s)
  | some c ↦ c ∷ decode_traversal_percent_encoding s
]

pub decode-on :
    (p a b : ℕ) (s : Text)
    → decoded p a b ≡ none
    → decode_traversal_percent_encoding (p ∷ a ∷ b ∷ s)
      ≡ p ∷ decode_traversal_percent_encoding (a ∷ b ∷ s)
unfolding decode_traversal_percent_encoding
decode-on p a b s e = ap (by_code p a b s) e

pub decode-here :
    (p a b c : ℕ) (s : Text)
    → decoded p a b ≡ some c
    → decode_traversal_percent_encoding (p ∷ a ∷ b ∷ s) ≡ c ∷ decode_traversal_percent_encoding s
unfolding decode_traversal_percent_encoding
decode-here p a b c s e = ap (by_code p a b s) e

length-decode : (s : Text) → length (decode_traversal_percent_encoding s) ≤ length s
unfolding decode_traversal_percent_encoding
length-decode [] = omega arith
length-decode (p ∷ []) = omega arith
length-decode (p ∷ a ∷ []) = omega arith
length-decode (p ∷ a ∷ b ∷ s) = elim (Option-cases (decoded p a b)) [
  | inl e ↦ omega (arith, ap (length {A = ℕ}) (decode-on p a b s e), length-decode (a ∷ b ∷ s))
  | inr (c, e) ↦ omega (arith, ap (length {A = ℕ}) (decode-here p a b c s e), length-decode s)
]

-- What `_strip_path_traversal` gives for a text of at most 21 characters holds no `..` next to a
-- slash or backslash, and is not `..`.
pub strip_path_traversal-IsFree :
    (value : Text) → length value ≤ 21 → IsFree (strip_path_traversal value)
unfolding strip_path_traversal
strip_path_traversal-IsFree value h =
    strip_passes-IsFree 10 (decode_traversal_percent_encoding value)
      (omega (arith, h, length-decode value))
