-- ===== src/Validation/Parts.antt =====
-- The single checks of the validator find no error exactly where their part of the schema holds
-- (packages/fss-mcp/src/fss_mcp/security/validation.py).
use fss_chassis.Base.{
  ℕ, ◌≤◌, Bool, true, Text, text_eq, Option, none, some, List, [], ◌∷◌, ◌++◌, length, any, ◌≡◌,
  refl, ◌↔◌, arith, ltb, fault_if, append-none,
}
use fss_chassis.Base.Int.{ℤ, pos, negsuc}
use fss_chassis.Json.{Json, bool}
use fss_chassis.Validation.{
  ValidationLimits, SchemaType, Keywords, Step, Error, above_max_length, below_min_length,
}
use fss_chassis.Validation.Checks.{
  is_instance, type_names, check_type, type_errors, get_int_limit, above, below, validate_string,
  enum_errors,
}
use fss_chassis.Validation.Spec.{
  has_json_type, IsOfType, IsListed, IsAtMost, IsAtLeast, IsValidString,
}

bool_instance :
    (b : Bool) (types : List Text)
    → any (has_json_type (bool b)) types ≡ true
    → any (is_instance (bool b)) types ≡ true
unfolding is_instance
bool_instance b [] h = h
bool_instance b (t ∷ ts) h = ground (arith, h, bool_instance b ts)

pub check_type-none :
    (v : Json) (t : SchemaType) (path : List Step)
    → (check_type v t path ≡ []) ↔ (any (has_json_type v) (type_names t) ≡ true)
unfolding check_type is_instance
check_type-none (bool b) t path = ground (arith, bool_instance b (type_names t))
check_type-none v t path = ground arith

pub type_errors-none :
    (v : Json) (t : Option SchemaType) (path : List Step)
    → (type_errors v t path ≡ []) ↔ IsOfType v t
type_errors-none v none path = (λ h. tt, λ h. refl)
type_errors-none v (some t) path = ground (arith, check_type-none v t path)

pub above-none : (n : ℕ) (k : Option ℤ) (e : ℤ → Error) → (above n k e ≡ []) ↔ IsAtMost n k
above-none n none e = (λ h. tt, λ h. refl)
above-none n (some (pos k)) e = ground arith
above-none n (some (negsuc k)) e = ground arith

pub below-none : (n : ℕ) (k : Option ℤ) (e : ℤ → Error) → (below n k e ≡ []) ↔ IsAtLeast n k
below-none n none e = (λ h. tt, λ h. refl)
below-none n (some (pos k)) e = ground arith
below-none n (some (negsuc k)) e = (λ h. tt, λ h. refl)

pub enum_errors-none :
    (v : Json) (allowed : Option (List Json)) (path : List Step)
    → (enum_errors v allowed path ≡ []) ↔ IsListed v allowed
enum_errors-none v none path = (λ h. tt, λ h. refl)
enum_errors-none v (some allowed) path = ground arith

pub within-none : (n k : ℕ) (e : Error) → (fault_if (ltb k n) e ≡ []) ↔ (n ≤ k)
within-none n k e = ground arith

pub both-none :
    {B : Type 0} (P Q : Type 0) (xs ys : List B)
    → (xs ≡ []) ↔ P
    → (ys ≡ []) ↔ Q
    → ((xs ++ ys) ≡ []) ↔ (P × Q)
both-none P Q xs ys hx hy = (
  λ h. let (first, rest) = (append-none xs ys).0 h in (hx.0 first, hy.0 rest),
  λ h. (append-none xs ys).1 (hx.1 h.0, hy.1 h.1),
)

string_parts :
    (t : Text) (s : Keywords) (limits : ValidationLimits) (path : List Step)
    → (validate_string t s limits path ≡ []) ↔ (
        (length t ≤ limits.max_string_length × IsAtMost (length t) (get_int_limit s.max_length))
        × IsAtLeast (length t) (get_int_limit s.min_length))
unfolding validate_string
string_parts t s limits path =
    both-none _ _ _ _
      (both-none _ _ _ _ (within-none (length t) limits.max_string_length _) (
        above-none (length t) (get_int_limit s.max_length)
          (λ k. record { path = path; fault = above_max_length (length t) k })))
      (below-none (length t) (get_int_limit s.min_length)
        (λ k. record { path = path; fault = below_min_length (length t) k }))

pub validate_string-none :
    (t : Text) (s : Keywords) (limits : ValidationLimits) (path : List Step)
    → (validate_string t s limits path ≡ []) ↔ IsValidString limits s t
validate_string-none t s limits path =
    let parts = string_parts t s limits path in
    (
      λ h.
          let ((within, longest), shortest) = parts.0 h in
          record { within = within; not_longer = longest; not_shorter = shortest },
      λ v. parts.1 ((v.within, v.not_longer), v.not_shorter),
    )
