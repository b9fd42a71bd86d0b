-- ===== src/Base/Lists.antt =====
-- Lists measured by native numbers, predicates on lists, and a filter by a Boolean test.
use Prim.Native.Nat.{ℕ, suc, ◌+◌, ◌≤◌}
use mathlib.Core.Path.{◌≡◌, refl}
use mathlib.Core.Logic.{inl, inr, ◌↔◌}
use mathlib.Core.Bool.{Bool, true, false, ◌&&◌, ◌||◌}
use mathlib.Core.List.{List, [], ◌∷◌, ◌++◌}
use native.Mathlib.Omega.{arith}
use fss_chassis.Base.Tests.{if◌then◌else◌, Bool-cases}

module _ {ℓ} {A : Type ℓ} where
  abbrev pub length : List A → ℕ
  length [] = 0
  length (x ∷ xs) = suc (length xs)

  abbrev pub any : (A → Bool) → List A → Bool
  any p [] = false
  any p (x ∷ xs) = p x || any p xs

  abbrev pub all : (A → Bool) → List A → Bool
  all p [] = true
  all p (x ∷ xs) = p x && all p xs

  -- The characters or entries for which the test fails: `re.sub(class, "", s)` and `del` loops.
  abbrev pub remove_if : (A → Bool) → List A → List A
  remove_if p [] = []
  remove_if p (x ∷ xs) = if p x then remove_if p xs else x ∷ remove_if p xs

  pub length-append : (xs ys : List A) → length (xs ++ ys) ≡ length xs + length ys
  length-append [] ys = omega arith
  length-append (x ∷ xs) ys = omega (arith, length-append xs ys)

  pub length-remove_if-le : (p : A → Bool) (xs : List A) → length (remove_if p xs) ≤ length xs
  length-remove_if-le p [] = omega arith
  length-remove_if-le p (x ∷ xs) = ground (arith, length-remove_if-le p xs)

module _ {ℓ κ} {A : Type ℓ} (P : A → Type κ) where
  abbrev pub All : List A → Type κ
  All [] = Unit
  All (x ∷ xs) = P x × All xs

  pub All-append : (xs ys : List A) → All xs → All ys → All (xs ++ ys)
  All-append [] ys hx hy = hy
  All-append (x ∷ xs) ys (p, hx) hy = (p, All-append xs ys hx hy)

  -- A filter keeps what holds of all elements.
  pub All-remove_if : (p : A → Bool) (xs : List A) → All xs → All (remove_if p xs)
  All-remove_if p [] h = h
  All-remove_if p (x ∷ xs) (q, h) = elim (Bool-cases (p x)) [
    | inl e ↦ rw e (All-remove_if p xs h)
    | inr e ↦ rw e (q, All-remove_if p xs h)
  ]

pub All-map {ℓ κ μ} :
    {A : Type ℓ} {P : A → Type κ} {Q : A → Type μ}
    → ((x : A) → P x → Q x)
    → (xs : List A) → All P xs
    → All Q xs
All-map f [] h = tt
All-map f (x ∷ xs) (p, h) = (f x p, All-map f xs h)

-- What a filter leaves fails the test.
pub All-remove_if_self {ℓ} :
    {A : Type ℓ} (p : A → Bool) (xs : List A) → All (λ x. p x ≡ false) (remove_if p xs)
All-remove_if_self p [] = tt
All-remove_if_self p (x ∷ xs) = elim (Bool-cases (p x)) [
  | inl e ↦ rw e (All-remove_if_self p xs)
  | inr e ↦ rw e (e, All-remove_if_self p xs)
]

-- Errors that a check collects.
abbrev pub fault_if {ℓ} : {B : Type ℓ} → Bool → B → List B
fault_if true e = e ∷ []
fault_if false e = []

abbrev pub collect {ℓ κ} : {A : Type ℓ} {B : Type κ} → (A → List B) → List A → List B
collect f [] = []
collect f (x ∷ xs) = f x ++ collect f xs

pub fault_if-none {ℓ} : {B : Type ℓ} (b : Bool) (e : B) → (fault_if b e ≡ []) ↔ (b ≡ false)
fault_if-none b e = ground arith

pub append-none {ℓ} : {B : Type ℓ} (xs ys : List B) → ((xs ++ ys) ≡ []) ↔ ((xs ≡ []) × (ys ≡ []))
append-none [] ys = (λ h. (refl, h), λ h. h.1)
append-none (x ∷ xs) ys = (λ h. cc h, λ h. cc (h.0))

pub collect-none {ℓ κ} :
    {A : Type ℓ} {B : Type κ} (f : A → List B) (xs : List A)
    → (collect f xs ≡ []) ↔ All (λ x. f x ≡ []) xs
collect-none f [] = (λ h. tt, λ h. refl)
collect-none f (x ∷ xs) = (
  λ h.
      let (first, rest) = (append-none (f x) (collect f xs)).0 h in
      (first, (collect-none f xs).0 rest),
  λ h. (append-none (f x) (collect f xs)).1 (h.0, (collect-none f xs).1 h.1),
)

pub All-iff {ℓ κ μ} :
    {A : Type ℓ} (P : A → Type κ) (Q : A → Type μ) (xs : List A)
    → ((x : A) → P x ↔ Q x)
    → All P xs ↔ All Q xs
All-iff P Q [] h = (λ k. tt, λ k. tt)
All-iff P Q (x ∷ xs) h =
    (λ k. ((h x).0 k.0, (All-iff P Q xs h).0 k.1), λ k. ((h x).1 k.0, (All-iff P Q xs h).1 k.1))
