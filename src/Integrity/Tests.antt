-- ===== src/Integrity/Tests.antt =====
-- Identifiers, keys and signed fields at concrete values
-- (packages/fss-core/src/fss_core/integrity.py).
use fss_chassis.Base.{
  ℕ, zero, suc, true, Text, text, text_eq, ◌==◌, none, some, [], ◌∷◌, ◌++◌, if◌then◌else◌, returns,
  ◌≡◌, refl, ◌↔◌, All,
}
use fss_chassis.Base.Dict.{Dict, lookup}
use fss_chassis.Integrity.{Hashes, Crypto}
use fss_chassis.Integrity.Cai.{hex_lengths, is_lower_hex, compute_cai, validate_cai}
use fss_chassis.Integrity.Format.{
  IsDigest, GivesHex, prefix, validate_cai_iff, validate_cai-compute_cai,
}
use fss_chassis.Integrity.Keys.{refused, not_chmoded, done, KeyDir, ensure_signing_key_pair}
use fss_chassis.Integrity.KeyStore.{
  LoadsBack, ensure_signing_key_pair-stable, ensure_signing_key_pair-stuck,
}
use fss_chassis.Integrity.Signing.{sign_fields, sign_provenance_full}
use fss_chassis.Integrity.Signed.{Agree, signed_full_iff}
use fss_chassis.Json.{Json, Fields}

abbrev zeros : ℕ → Text
zeros zero = []
zeros (suc n) = b'0' ∷ zeros n

abbrev width : Text → ℕ
width name = if name == text "sha256" then 64 else if name == text "sha384" then 96 else 128

-- Every digest is zero.
abbrev hashes : Hashes
hashes = record { hexdigest = λ name bytes. zeros (width name); sha256_digest = λ bytes. [] }

zeros-hex : (n : ℕ) → All (λ c. is_lower_hex c ≡ true) (zeros n)
unfolding is_lower_hex
zeros-hex zero = tt
zeros-hex (suc n) = (refl, zeros-hex n)

hashes-GivesHex : GivesHex hashes
hashes-GivesHex = record {
  sha256_length = λ bytes. refl;
  sha384_length = λ bytes. refl;
  sha512_length = λ bytes. refl;
  lower_hex = λ name bytes. zeros-hex (width name);
}

abbrev cai : Text
cai = text "sha2-256:" ++ zeros 64

cai_computed : compute_cai hashes (1 ∷ []) (text "sha2-256") ≡ returns cai
unfolding compute_cai
cai_computed = refl

newline_accepted : validate_cai (cai ++ (10 ∷ [])) (text "sha2-256") ≡ true
unfolding validate_cai is_lower_hex
newline_accepted = refl

validate_cai_iff_example : (validate_cai cai (text "sha2-256") ≡ true) ↔ (
    (n : ℕ) × (lookup (text "sha2-256") hex_lengths ≡ some n)
    × ((s : Text) × (cai ≡ prefix (text "sha2-256") ++ s) × IsDigest n s))
validate_cai_iff_example = validate_cai_iff cai (text "sha2-256")

validate_cai-compute_cai_example : validate_cai cai (text "sha2-256") ≡ true
validate_cai-compute_cai_example =
    validate_cai-compute_cai hashes (1 ∷ []) (text "sha2-256") cai hashes-GivesHex cai_computed

-- Keys are their own files, and signatures the messages.
abbrev crypto : Crypto
crypto = record {
  public_raw = λ key. key;
  public_pem = λ key. key;
  private_pem = λ key. key;
  load_pem = λ pem. some pem;
  load_base64 = λ t. none;
  sign = λ key message. message;
  canonicalize = λ fs. 1 ∷ [];
}

loads_back : LoadsBack crypto
loads_back = record { loads_back = λ key. refl }

abbrev empty_dir : KeyDir
empty_dir = record { priv_pem = none; pub_pem = none; priv_write = done; pub_write = done }

abbrev full_dir : KeyDir
full_dir = record empty_dir { priv_pem = some (9 ∷ []); pub_pem = some (9 ∷ []) }

generated : ensure_signing_key_pair crypto true (9 ∷ []) empty_dir ≡ (some (9 ∷ []), full_dir)
unfolding ensure_signing_key_pair
generated = refl

ensure_signing_key_pair-stable_example :
    ensure_signing_key_pair crypto true (8 ∷ []) full_dir ≡ (some (9 ∷ []), full_dir)
ensure_signing_key_pair-stable_example =
    ensure_signing_key_pair-stable crypto (9 ∷ []) (8 ∷ []) (9 ∷ []) empty_dir full_dir loads_back
      generated

abbrev locked : KeyDir
locked = record empty_dir { pub_write = refused }

ensure_signing_key_pair-stuck_example :
    let after = record (ensure_signing_key_pair crypto true (9 ∷ []) locked).1 {
      priv_write = done;
      pub_write = done;
    } in
    ((ensure_signing_key_pair crypto true (9 ∷ []) locked).0 ≡ none)
    × (ensure_signing_key_pair crypto true (8 ∷ []) after ≡ (none, after))
ensure_signing_key_pair-stuck_example =
    ensure_signing_key_pair-stuck crypto (9 ∷ []) (8 ∷ []) locked done done refl refl refl

-- Where only the mode of the public half cannot be set, the next start gives the key.
abbrev strict_dir : KeyDir
strict_dir = record empty_dir { pub_write = not_chmoded }

given_later :
    (ensure_signing_key_pair crypto true
      (8 ∷ [])
      (ensure_signing_key_pair crypto true (9 ∷ []) strict_dir).1).0
    ≡ some (9 ∷ [])
unfolding ensure_signing_key_pair
given_later = refl

signed_full_iff_example :
    (message : Dict Text Json → Fields) × ((r : Dict Text Json)
      → sign_provenance_full hashes crypto r (9 ∷ [])
        ≡ sign_fields hashes crypto (9 ∷ []) (message r))
    × ((p q : Dict Text Json)
        → (message p ≡ message q)
          ↔ Agree
              (text "transaction_id"
                ∷ text "tool_name"
                ∷ text "tool_version"
                ∷ text "timestamp_utc"
                ∷ text "investigation_id"
                ∷ text "analyst_identity"
                ∷ text "invocation_type"
                ∷ text "fit_jti"
                ∷ text "evidentiary_status"
                ∷ [])
              p
              q)
signed_full_iff_example = signed_full_iff hashes crypto (9 ∷ [])
