-- ===== src/Integrity/Signed.antt =====
-- What the signatures of a record depend on (packages/fss-core/src/fss_core/integrity.py).
use fss_chassis.Base.{Text, text, text_eq, List, [], ◌∷◌, ◌≡◌, refl, ap, ◌↔◌, All}
use fss_chassis.Base.Dict.{Dict, lookup}
use fss_chassis.Integrity.{Bytes, Hashes, Crypto}
use fss_chassis.Integrity.Signing.{
  integrity_fields, context_fields, field_if, present_fields, or_null, all_fields, sign_fields,
  sign_provenance, sign_provenance_full,
}
use fss_chassis.Json.{Json, Fields, end, field}

-- Two records agree on some keys, where a missing value counts as null.
abbrev pub Agree : List Text → Dict Text Json → Dict Text Json → Type 0
Agree ks p q = All (λ k. or_null (lookup k p) ≡ or_null (lookup k q)) ks

abbrev value_of : Json → Fields → Json
value_of v end = v
value_of v (field k w fs) = w

abbrev rest_of : Fields → Fields
rest_of end = end
rest_of (field k w fs) = fs

all_fields_iff :
    (ks : List Text) (p q : Dict Text Json) → (all_fields ks p ≡ all_fields ks q) ↔ Agree ks p q
all_fields_iff [] p q = (λ h. tt, λ h. refl)
all_fields_iff (k ∷ ks) p q = (
  λ h. (ap (value_of (or_null (lookup k p))) h, (all_fields_iff ks p q).0 (ap rest_of h)),
  λ h. let later = (all_fields_iff ks p q).1 h.1 in λ i. field k (h.0 i) (later i),
)

-- The full signature of a record is the signature of a message, under the same key, that is the same
-- for two records exactly where they agree on nine fields: transaction, tool and its version, time,
-- investigation, analyst, type of invocation, FIT and evidentiary status, a missing one being null.
pub signed_full_iff :
    (hashes : Hashes) (crypto : Crypto) (key : Bytes)
    → (message : Dict Text Json → Fields) × ((r : Dict Text Json)
        → sign_provenance_full hashes crypto r key ≡ sign_fields hashes crypto key (message r))
      × ((p q : Dict Text Json)
          → (message p ≡ message q)
            ↔ Agree
                (text "transaction_id"
                  ∷ text "tool_name"
                  ∷ text "tool_version"
                  ∷ text "timestamp_utc"
                  ∷ text "investigation_id"
                  ∷ text "analyst_identity"
                  ∷ text "invocation_type"
                  ∷ text "fit_jti"
                  ∷ text "evidentiary_status"
                  ∷ [])
                p
                q)
unfolding sign_provenance_full
signed_full_iff hashes crypto key =
    (all_fields context_fields, λ r. refl, all_fields_iff context_fields)

same_present :
    (ks : List Text) (p q : Dict Text Json)
    → All (λ k. lookup k p ≡ lookup k q) ks
    → present_fields ks p ≡ present_fields ks q
same_present [] p q h = refl
same_present (k ∷ ks) p q h =
    let later = same_present ks p q h.1 in λ i. field_if k (h.0 i) (later i)

-- Both signatures can be checked by whoever has the fields that they cover: records that agree on
-- them have the same signatures.
pub sign_provenance-local :
    (hashes : Hashes) (crypto : Crypto) (p q : Dict Text Json) (key : Bytes)
    → All (λ k. lookup k p ≡ lookup k q) integrity_fields
    → Agree context_fields p q
    → (sign_provenance hashes crypto p key ≡ sign_provenance hashes crypto q key)
      × (sign_provenance_full hashes crypto p key ≡ sign_provenance_full hashes crypto q key)
unfolding sign_provenance sign_provenance_full
sign_provenance-local hashes crypto p q key h k = (
  ap (sign_fields hashes crypto key) (same_present integrity_fields p q h),
  ap (sign_fields hashes crypto key) ((all_fields_iff context_fields p q).1 k),
)
