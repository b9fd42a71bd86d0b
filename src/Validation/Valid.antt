-- ===== src/Validation/Valid.antt =====
-- The validator finds no error exactly in what conforms
-- (packages/fss-mcp/src/fss_mcp/security/validation.py).
use fss_chassis.Base.{
  ℕ, zero, suc, true, Text, text_eq, Option, none, some, List, [], ◌∷◌, ◌++◌, map, ◌≡◌, refl, subst,
  ◌↔◌, All, collect, returns,
}
use fss_chassis.Base.Dict.{Dict, lookup, has}
use fss_chassis.Json.{Json, Fields, null, bool, int, float, str, arr, obj, items, fields}
use fss_chassis.Validation.{
  ValidationLimits, Keywords, Schema, fragment, Properties, Step, Error, unexpected_property,
  missing_field, at_key,
}
use fss_chassis.Validation.Checks.{
  sorted, properties, is_closed, check_property, extra_keys, validate_object, items_schema,
  inner_errors, keywords, validate_value, validate_tool_input, raise_if_invalid, raise_if_any,
}
use fss_chassis.Validation.Parts.{
  type_errors-none, enum_errors-none, both-none, validate_string-none,
}
use fss_chassis.Validation.Spec.{IsValidObject, IsValidInside, IsValid}
use fss_chassis.Validation.Containers.{
  validate_array-none, sorted-none, map-none, extra_keys-none, required-none, closed-none,
}

-- A check of a value that may be missing.
found-none :
    (check : Json → List Error) (P : Json → Type 0) (o : Option Json)
    → ((v : Json) → (check v ≡ []) ↔ P v)
    → ((elim o [ none ↦ [] | some v ↦ check v ]) ≡ []) ↔ ((v : Json) → o ≡ some v → P v)
found-none check P none agrees = (λ h v found. cc found, λ h. refl)
found-none check P (some w) agrees =
    (λ h v found. subst P (cc found) ((agrees w).0 h), λ h. (agrees w).1 (h w refl))

unexpected-none :
    (d : Dict Text Json) (props : Properties) (e : Text → Error)
    → (map e (sorted (extra_keys d props)) ≡ [])
      ↔ All (λ entry. has entry.0 (properties props) ≡ true) d
unexpected-none d props e = (
  λ h.
      (extra_keys-none d props).0
        ((sorted-none (extra_keys d props)).0 ((map-none e (sorted (extra_keys d props))).0 h)),
  λ h.
      (map-none e (sorted (extra_keys d props))).1
        ((sorted-none (extra_keys d props)).1 ((extra_keys-none d props).1 h)),
)

module _ (check : Json → Schema → List Step → List Error) (Inner : Json → Schema → Type 0)
    (agrees : (v : Json) (s : Schema) (path : List Step) → (check v s path ≡ []) ↔ Inner v s) where
  check_property-none :
      (path : List Step) (d : Dict Text Json) (name : Text) (s : Schema)
      → (check_property check path d (name, s) ≡ [])
        ↔ ((v : Json) → lookup name d ≡ some v → Inner v s)
  check_property-none path d name s =
      found-none (λ v. check v s (path ++ at_key name ∷ [])) (λ v. Inner v s) (lookup name d)
        (λ v. agrees v s (path ++ at_key name ∷ []))

  declared-none :
      (path : List Step) (d : Dict Text Json) (ps : Dict Text Schema)
      → (collect (check_property check path d) ps ≡ [])
        ↔ All (λ entry. (v : Json) → lookup entry.0 d ≡ some v → Inner v entry.1) ps
  declared-none path d [] = (λ h. tt, λ h. refl)
  declared-none path d ((name, s) ∷ ps) =
      both-none _ _ _ _ (check_property-none path d name s) (declared-none path d ps)

  object_parts :
      (d : Dict Text Json) (s : Keywords) (props : Properties) (path : List Step)
      → (validate_object check d s props path ≡ []) ↔ (
          (All (λ name. has name d ≡ true) s.required
            × (is_closed s.additional_properties ≡ true
                → All (λ entry. has entry.0 (properties props) ≡ true) d))
          × All
              (λ entry. (v : Json) → lookup entry.0 d ≡ some v → Inner v entry.1)
              (properties props))
  unfolding validate_object
  object_parts d s props path =
      both-none _ _ _ _
        (both-none _ _ _ _
          (required-none s.required d (λ name. record { path = path; fault = missing_field name }))
          (closed-none (is_closed s.additional_properties) _ _ (
            unexpected-none d props
              (λ key. record { path = path; fault = unexpected_property key }))))
        (declared-none path d (properties props))

  validate_object-none :
      (d : Dict Text Json) (s : Keywords) (props : Properties) (path : List Step)
      → (validate_object check d s props path ≡ []) ↔ IsValidObject s props Inner d
  validate_object-none d s props path =
      let parts = object_parts d s props path in
      (
        λ h.
            let ((complete, closed), declared) = parts.0 h in
            record { complete = complete; closed = closed; declared = declared },
        λ v. parts.1 ((v.complete, v.closed), v.declared),
      )

  inner_errors-none :
      (v : Json) (s : Schema) (limits : ValidationLimits) (path : List Step)
      → (inner_errors check v s limits path ≡ []) ↔ IsValidInside limits Inner v s
  inner_errors-none (str t) (fragment s inner props) limits path =
      validate_string-none t s limits path
  inner_errors-none (arr vs) (fragment s inner props) limits path =
      validate_array-none (λ v. check v (items_schema inner)) (λ v. Inner v (items_schema inner))
        (λ v. agrees v (items_schema inner)) (items vs) s limits path
  inner_errors-none (obj fs) (fragment s inner props) limits path =
      validate_object-none (fields fs) s props path
  inner_errors-none null (fragment s inner props) limits path = (λ h. tt, λ h. refl)
  inner_errors-none (bool b) (fragment s inner props) limits path = (λ h. tt, λ h. refl)
  inner_errors-none (int n) (fragment s inner props) limits path = (λ h. tt, λ h. refl)
  inner_errors-none (float m e) (fragment s inner props) limits path = (λ h. tt, λ h. refl)

typed-none :
    {B : Type 0} (P Q : Type 0) (xs ys : List B)
    → (xs ≡ []) ↔ P
    → (ys ≡ []) ↔ Q
    → ((elim xs [ [] ↦ ys | e ∷ es ↦ e ∷ es ]) ≡ []) ↔ (P × Q)
typed-none P Q [] ys hx hy = (λ h. (hx.0 refl, hy.0 h), λ h. hy.1 h.1)
typed-none P Q (x ∷ xs) ys hx hy = (λ h. cc h, λ h. cc (hx.1 h.0))

-- The validator finds no error in a value, with so many levels left, exactly where the value
-- conforms to the fragment.
pub validate_value_iff :
    (limits : ValidationLimits) (left : ℕ) (v : Json) (s : Schema) (path : List Step)
    → (validate_value limits left v s path ≡ []) ↔ IsValid limits left v s
unfolding validate_value
validate_value_iff limits zero v s path = (λ h. cc h, λ h. absurd h)
validate_value_iff limits (suc left) v s path =
    let parts = typed-none _ _ _ _ (type_errors-none v (keywords s).type_keyword path) (
      both-none _ _ _ _ (enum_errors-none v (keywords s).enum path) (
        inner_errors-none (validate_value limits left) (IsValid limits left)
          (validate_value_iff limits left) v s limits path)) in
    (
      λ h. let (typed, (listed, inside)) = parts.0 h in (typed, listed, inside),
      λ h. parts.1 (h.0, (h.1, h.2)),
    )

nothing_raised : (es : List Error) → (raise_if_any es ≡ returns tt) ↔ (es ≡ [])
nothing_raised [] = (λ h. refl, λ h. refl)
nothing_raised (e ∷ es) = (λ h. cc h, λ h. cc h)

-- Tool arguments pass exactly where they conform to the schema of the tool: types, enums, lengths,
-- required and unexpected properties, and no declared value deeper than the limit.
pub raise_if_invalid_iff :
    (arguments : Fields) (s : Schema) (limits : ValidationLimits)
    → (raise_if_invalid arguments s limits ≡ returns tt)
      ↔ IsValid limits (suc limits.max_object_depth) (obj arguments) s
unfolding raise_if_invalid validate_tool_input
raise_if_invalid_iff arguments s limits =
    let errors = validate_value limits (suc limits.max_object_depth) (obj arguments) s [] in
    let conforms = validate_value_iff limits (suc limits.max_object_depth) (obj arguments) s [] in
    (λ h. conforms.0 ((nothing_raised errors).0 h), λ h. (nothing_raised errors).1 (conforms.1 h))
