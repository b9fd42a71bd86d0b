-- ===== src/Validation/Containers.antt =====
-- The loops over items and keys find no error exactly where their part of the schema holds
-- (packages/fss-mcp/src/fss_mcp/security/validation.py).
use fss_chassis.Base.{
  ℕ, suc, ◌≤◌, Bool, true, false, not, Text, text_eq, List, [], ◌∷◌, length, map, ◌≡◌, refl, ◌↔◌,
  arith, All, Bool-cases, inl, inr, if◌then◌else◌, fault_if, append-none, collect,
}
use fss_chassis.Base.Dict.{Dict, has}
use fss_chassis.Json.{Json}
use fss_chassis.Validation.{
  ValidationLimits, Keywords, Properties, Step, Error, above_max_items, below_min_items,
}
use fss_chassis.Validation.Checks.{
  get_int_limit, each_item, validate_array, insert_sorted, text_before, sorted, properties,
  extra_keys,
}
use fss_chassis.Validation.Parts.{above-none, below-none, both-none}
use fss_chassis.Validation.Spec.{IsAtMost, IsAtLeast, IsValidArray}

-- A test that ends the check with one error.
early-none :
    {B : Type 0} (over : Bool) (e : B) (ys : List B) (P Q : Type 0)
    → (over ≡ true → ¬ P)
    → (over ≡ false → P)
    → (ys ≡ []) ↔ Q
    → ((if over then e ∷ [] else ys) ≡ []) ↔ (P × Q)
early-none true e ys P Q stop go h = (λ k. cc k, λ k. absurd (stop refl k.0))
early-none false e ys P Q stop go h = (λ k. (go refl, h.0 k), λ k. h.1 k.1)

module _ (check : Json → List Step → List Error) (Inner : Json → Type 0)
    (agrees : (v : Json) (path : List Step) → (check v path ≡ []) ↔ Inner v) where
  each_item-none :
      (path : List Step) (i : ℕ) (vs : List Json) → (each_item check path i vs ≡ []) ↔ All Inner vs
  each_item-none path i [] = (λ h. tt, λ h. refl)
  each_item-none path i (v ∷ vs) = (
    λ h.
        let (first, rest) = (append-none _ _).0 h in
        ((agrees v _).0 first, (each_item-none path (suc i) vs).0 rest),
    λ h. (append-none _ _).1 ((agrees v _).1 h.0, (each_item-none path (suc i) vs).1 h.1),
  )

  array_parts :
      (vs : List Json) (s : Keywords) (limits : ValidationLimits) (path : List Step)
      → (validate_array check vs s limits path ≡ []) ↔ (
          (length vs ≤ limits.max_array_length)
          × ((IsAtMost (length vs) (get_int_limit s.max_items)
                × IsAtLeast (length vs) (get_int_limit s.min_items))
              × All Inner vs))
  unfolding validate_array
  array_parts vs s limits path =
      early-none _ _ _ _ _ (λ over. ground (arith, over)) (λ within. ground (arith, within))
        (both-none _ _ _ _
          (both-none _ _ _ _
            (above-none (length vs) (get_int_limit s.max_items)
              (λ k. record { path = path; fault = above_max_items (length vs) k }))
            (below-none (length vs) (get_int_limit s.min_items)
              (λ k. record { path = path; fault = below_min_items (length vs) k })))
          (each_item-none path 0 vs))

  pub validate_array-none :
      (vs : List Json) (s : Keywords) (limits : ValidationLimits) (path : List Step)
      → (validate_array check vs s limits path ≡ []) ↔ IsValidArray limits s Inner vs
  validate_array-none vs s limits path =
      let parts = array_parts vs s limits path in
      (
        λ h.
            let (within, ((longest, shortest), inside)) = parts.0 h in
            record {
              within = within;
              not_longer = longest;
              not_shorter = shortest;
              elements = inside;
            },
        λ v. parts.1 (v.within, ((v.not_longer, v.not_shorter), v.elements)),
      )

insert_sorted-some : (t : Text) (ts : List Text) → ¬ (insert_sorted t ts ≡ [])
insert_sorted-some t [] h = cc h
insert_sorted-some t (s ∷ ts) h = elim (Bool-cases (text_before s t)) [
  | inl e ↦ ground (arith, h, e)
  | inr e ↦ ground (arith, h, e)
]

pub sorted-none : (ts : List Text) → (sorted ts ≡ []) ↔ (ts ≡ [])
sorted-none [] = (λ h. h, λ h. h)
sorted-none (t ∷ ts) = (λ h. absurd (insert_sorted-some t (sorted ts) h), λ h. cc h)

pub map-none : (f : Text → Error) (ts : List Text) → (map f ts ≡ []) ↔ (ts ≡ [])
map-none f [] = (λ h. refl, λ h. refl)
map-none f (t ∷ ts) = (λ h. cc h, λ h. cc h)

pub extra_keys-none :
    (d : Dict Text Json) (props : Properties)
    → (extra_keys d props ≡ []) ↔ All (λ entry. has entry.0 (properties props) ≡ true) d
extra_keys-none [] props = (λ h. tt, λ h. refl)
extra_keys-none ((k, v) ∷ d) props = elim (Bool-cases (has k (properties props))) [
  | inl e ↦ rw e (λ h. (refl, (extra_keys-none d props).0 h), λ h. (extra_keys-none d props).1 h.1)
  | inr e ↦ rw e (λ h. cc h, λ h. cc (h.0))
]

pub required-none :
    (names : List Text) (d : Dict Text Json) (e : Text → Error)
    → (collect (λ name. fault_if (not (has name d)) (e name)) names ≡ [])
      ↔ All (λ name. has name d ≡ true) names
required-none [] d e = (λ h. tt, λ h. refl)
required-none (name ∷ names) d f = elim (Bool-cases (has name d)) [
  | inl e ↦ rw e (λ h. (refl, (required-none names d f).0 h), λ h. (required-none names d f).1 h.1)
  | inr e ↦ rw e (λ h. cc h, λ h. cc (h.0))
]

pub closed-none :
    (b : Bool) (es : List Error) (P : Type 0)
    → (es ≡ []) ↔ P
    → ((if b then es else []) ≡ []) ↔ (b ≡ true → P)
closed-none true es P h = (λ k _. h.0 k, λ k. h.1 (k refl))
closed-none false es P h = (λ k no. cc no, λ k. refl)
