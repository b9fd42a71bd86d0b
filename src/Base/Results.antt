-- ===== src/Base/Results.antt =====
-- A call that returns or raises: exceptions as values, with the chain of calls for `do` blocks.
use mathlib.Core.Path.{◌≡◌, refl}
use mathlib.Core.Logic.{◌↔◌}
use mathlib.Core.Bool.{Bool, true, false}

pub data Result {ℓ κ} (E : Type ℓ) (A : Type κ) : Type (ℓ ⊔ κ) where
  returns : A → Result E A
  raises : E → Result E A

infixl 5 ◌>>=◌ ◌>>◌
abbrev pub ◌>>=◌ {ℓ κ μ} :
    {E : Type ℓ} {A : Type κ} {B : Type μ} → Result E A → (A → Result E B) → Result E B
returns a >>= f = f a
raises e >>= f = raises e

abbrev pub ◌>>◌ {ℓ κ} : {E : Type ℓ} {B : Type κ} → Result E (Unit {0}) → Result E B → Result E B
m >> k = m >>= λ _. k

abbrev pub raise_unless {ℓ} : {E : Type ℓ} → Bool → E → Result E (Unit {0})
raise_unless true e = returns tt
raise_unless false e = raises e

-- What a chain that returned went through.
pub >>=-returns {ℓ κ μ} :
    {E : Type ℓ} {A : Type κ} {B : Type μ} (m : Result E A) (f : A → Result E B) (b : B)
    → (m >>= f) ≡ returns b
    → (a : A) × (m ≡ returns a) × (f a ≡ returns b)
>>=-returns (returns a) f b h = (a, refl, h)
>>=-returns (raises e) f b h = cc h

pub raise_unless-returns {ℓ} :
    {E : Type ℓ} (b : Bool) (e : E) (u : Unit {0}) → raise_unless b e ≡ returns u → b ≡ true
raise_unless-returns true e u h = refl
raise_unless-returns false e u h = cc h

pub not_both {ℓ κ} :
    {E : Type ℓ} {A : Type κ} (e : E) (a : A) (m : Result E A) → m ≡ raises e → ¬ (m ≡ returns a)
not_both e a m h k = cc (h, k)

pub raise_unless_iff {ℓ} :
    {E : Type ℓ} (b : Bool) (e : E) → (raise_unless b e ≡ returns tt) ↔ (b ≡ true)
raise_unless_iff true e = (λ h. refl, λ h. refl)
raise_unless_iff false e = (λ h. cc h, λ h. cc h)

-- A test, and what comes after it.
pub raise_unless-then {ℓ} :
    {E : Type ℓ} (P : Type 0) (b : Bool) (e : E) (m : Result E (Unit {0}))
    → (m ≡ returns tt) ↔ P
    → ((raise_unless b e >> m) ≡ returns tt) ↔ ((b ≡ true) × P)
raise_unless-then P true e m h = (λ k. (refl, h.0 k), λ k. h.1 k.1)
raise_unless-then P false e m h = (λ k. cc k, λ k. cc (k.0))
