-- ===== src/Base/Dict.antt =====
-- Python's `dict`: an association list in insertion order, with no key twice.
use mathlib.Core.Path.{◌≡◌, refl}
use mathlib.Core.Logic.{◌⊎◌, inl, inr}
use mathlib.Core.Bool.{Bool, true, false}
use mathlib.Core.Option.{Option, none, some}
use mathlib.Core.List.{List, [], ◌∷◌}
use native.Mathlib.Omega.{arith}
use fss_chassis.Base.Tests.{HasEq, ◌==◌, if◌then◌else◌, Bool-cases, Option-cases, is_some}
use fss_chassis.Base.Lists.{remove_if}

abbrev pub Dict {ℓ κ} : Type ℓ → Type κ → Type (ℓ ⊔ κ)
Dict K V = List (K × V)

abbrev pub unless {κ} : {V : Type κ} → Bool → V → Option V
unless dropped v = if dropped then none else some v

pub unless-some {κ} : {V : Type κ} (dropped : Bool) (v w : V) → unless dropped v ≡ some w → v ≡ w
unless-some true v w h = cc h
unless-some false v w h = cc h

module _ {ℓ κ} {K : Type ℓ} {V : Type κ} ⦃e : HasEq K⦄ where
  -- d.get(k)
  abbrev pub lookup : K → Dict K V → Option V
  lookup k [] = none
  lookup k ((j, v) ∷ d) = if j == k then some v else lookup k d

  -- k in d
  abbrev pub has : K → Dict K V → Bool
  has k d = is_some (lookup k d)

  -- d[k] = v: a key keeps its place, a new key comes last.
  abbrev pub insert : K → V → Dict K V → Dict K V
  insert k v [] = (k, v) ∷ []
  insert k v ((j, w) ∷ d) = if j == k then (k, v) ∷ d else (j, w) ∷ insert k v d

  abbrev pub IsDict : Dict K V → Type κ
  IsDict [] = Unit
  IsDict ((k, v) ∷ d) = (lookup k d ≡ none) × IsDict d

  pub lookup-insert :
      (k j : K) (v : V) (d : Dict K V)
      → lookup j (insert k v d) ≡ (if k == j then some v else lookup j d)
  lookup-insert k j v [] = refl
  lookup-insert k j v ((i, w) ∷ d) =
      ground (arith, e.same_iff k j, e.same_iff i k, e.same_iff i j, lookup-insert k j v d)

  pub lookup-insert_self : (k : K) (v : V) (d : Dict K V) → lookup k (insert k v d) ≡ some v
  lookup-insert_self k v d = ground (arith, lookup-insert k k v d, e.same_iff k k)

  pub insert-IsDict : (k : K) (v : V) (d : Dict K V) → IsDict d → IsDict (insert k v d)
  insert-IsDict k v [] h = (refl, tt)
  insert-IsDict k v ((j, w) ∷ d) (fresh, h) = elim (Bool-cases (j == k)) [
    | inl same ↦ rw same (rw (← (e.same_iff j k).0 same) fresh, h)
    | inr other ↦ rw other (
      ground (arith, lookup-insert k j v d, e.same_iff k j, e.same_iff j k),
      insert-IsDict k v d h,
    )
  ]

  pub lookup-remove_if-none :
      (p : K × V → Bool) (k : K) (d : Dict K V)
      → lookup k d ≡ none
      → lookup k (remove_if p d) ≡ none
  lookup-remove_if-none p k [] h = refl
  lookup-remove_if-none p k ((j, w) ∷ d) h = ground (arith, lookup-remove_if-none p k d)

  -- A deletion by a test on entries acts on each key by itself.
  pub lookup-remove_if-some :
      (p : K × V → Bool) (k : K) (v : V) (d : Dict K V)
      → IsDict d
      → lookup k d ≡ some v
      → lookup k (remove_if p d) ≡ unless (p (k, v)) v
  lookup-remove_if-some p k v [] _ h = ground arith
  lookup-remove_if-some p k v ((j, w) ∷ d) (fresh, u) h = elim (Bool-cases (j == k)) [
    | inl same ↦ ground (arith, (e.same_iff j k).0 same, lookup-remove_if-none p j d fresh)
    | inr other ↦ ground (arith, lookup-remove_if-some p k v d u)
  ]

  pub remove_if-IsDict : (p : K × V → Bool) (d : Dict K V) → IsDict d → IsDict (remove_if p d)
  remove_if-IsDict p [] h = h
  remove_if-IsDict p ((j, w) ∷ d) (fresh, h) = elim (Bool-cases (p (j, w))) [
    | inl e ↦ rw e (remove_if-IsDict p d h)
    | inr e ↦ rw e (lookup-remove_if-none p j d fresh, remove_if-IsDict p d h)
  ]

  -- What is found after a deletion, or after an insertion, was there or was put there.
  pub lookup-remove_if-eq-some :
      (p : K × V → Bool) (k : K) (v : V) (d : Dict K V)
      → IsDict d
      → lookup k (remove_if p d) ≡ some v
      → lookup k d ≡ some v
  lookup-remove_if-eq-some p k v d u h = elim (Option-cases (lookup k d)) [
    | inl missing ↦ ground (arith, lookup-remove_if-none p k d missing)
    | inr (w, found) ↦ ground (arith, found, lookup-remove_if-some p k w d u found)
  ]

  pub lookup-insert-eq-some :
      (k j : K) (v w : V) (d : Dict K V)
      → lookup j (insert k v d) ≡ some w
      → (v ≡ w) ⊎ (lookup j d ≡ some w)
  lookup-insert-eq-some k j v w d h = ground (arith, lookup-insert k j v d)
