-- ===== src/Integrity/Signing.antt =====
-- Signatures of a provenance record, and the document of the public key
-- (packages/fss-core/src/fss_core/integrity.py). Without the cryptography package there is no key,
-- so that none of these is called.
use fss_chassis.Base.{false, Text, text, text_eq, Option, none, some, List, [], ◌∷◌}
use fss_chassis.Base.Dict.{Dict, lookup}
use fss_chassis.Integrity.{Bytes, Hashes, Crypto}
use fss_chassis.Integrity.Keys.{base64url, compute_key_id}
use fss_chassis.Json.{Json, null, bool, str, arr, obj, nil, cons, Fields, end, field}

pub record Signature : Type 0 where
  pub value : Text
  pub kid : Text

abbrev pub integrity_fields : List Text
integrity_fields =
    text "transaction_id" ∷ text "timestamp_utc" ∷ text "parameters_cai" ∷ text "result_cai" ∷ []

-- _field_order
abbrev pub context_fields : List Text
context_fields =
    text "transaction_id"
    ∷ text "tool_name"
    ∷ text "tool_version"
    ∷ text "timestamp_utc"
    ∷ text "investigation_id"
    ∷ text "analyst_identity"
    ∷ text "invocation_type"
    ∷ text "fit_jti"
    ∷ text "evidentiary_status"
    ∷ []

abbrev pub field_if : Text → Option Json → Fields → Fields
field_if k none rest = rest
field_if k (some v) rest = field k v rest

-- {k: payload[k] for k in keys if k in payload}
abbrev pub present_fields : List Text → Dict Text Json → Fields
present_fields [] payload = end
present_fields (k ∷ ks) payload = field_if k (lookup k payload) (present_fields ks payload)

-- payload.get(k)
abbrev pub or_null : Option Json → Json
or_null none = null
or_null (some v) = v

-- {k: payload.get(k) for k in keys}
abbrev pub all_fields : List Text → Dict Text Json → Fields
all_fields [] payload = end
all_fields (k ∷ ks) payload = field k (or_null (lookup k payload)) (all_fields ks payload)

unfoldable pub sign_fields : Hashes → Crypto → Bytes → Fields → Signature
sign_fields hashes crypto key signed = record {
  value = base64url (crypto.sign key (crypto.canonicalize signed));
  kid = compute_key_id hashes crypto key;
}

unfoldable pub sign_provenance : Hashes → Crypto → Dict Text Json → Bytes → Signature
sign_provenance hashes crypto payload key =
    sign_fields hashes crypto key (present_fields integrity_fields payload)

unfoldable pub sign_provenance_full : Hashes → Crypto → Dict Text Json → Bytes → Signature
sign_provenance_full hashes crypto payload key =
    sign_fields hashes crypto key (all_fields context_fields payload)

abbrev pub jwk : Hashes → Crypto → Bytes → Fields
jwk hashes crypto key = field (text "kty") (str (text "OKP")) (
    field (text "crv") (str (text "Ed25519")) (
      field (text "use") (str (text "sig")) (
        field (text "kid") (str (compute_key_id hashes crypto key)) (
          field (text "x") (str (base64url (crypto.public_raw key))) (
            field (text "revoked") (bool false)
              (field (text "revoked_at") null (field (text "revocation_reason") null end)))))))

unfoldable pub build_jwks : Hashes → Crypto → Bytes → Fields
build_jwks hashes crypto key =
    field (text "keys") (arr (cons (obj (jwk hashes crypto key)) nil)) end
