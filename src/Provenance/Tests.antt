-- ===== src/Provenance/Tests.antt =====
-- A record of a request, and the theorems at it (packages/fss-core/src/fss_core/provenance.py).
use fss_chassis.Base.{true, Text, text, text_eq, none, some, [], ◌∷◌, ◌≡◌, refl, ◌↔◌}
use fss_chassis.Base.Dict.{Dict, lookup}
use fss_chassis.Integrity.Keys.{lower}
use fss_chassis.Json.{Json, str}
use fss_chassis.Provenance.{Settings}
use fss_chassis.Provenance.Build.{
  or_default, is_truthy, get_invocation_type, Call, unsigned_record, build_assessed_under,
  signed_with, build_provenance_record,
}
use fss_chassis.Provenance.Context.{Context, fresh}
use fss_chassis.Provenance.Status.{IsSignedBy, build_provenance_record-IsSignedBy, evidentiary_iff}

abbrev settings : Settings
settings = record {
  fss_provenance = none;
  fss_metadata = some (text "True");
  fss_level = some (text "2");
  fss_server_version = none;
  image_digest = none;
  mcp_invocation_type = some (text "other");
  fss_core_version = text "1.2.3";
  hashes = record { hexdigest = λ name bytes. text "00"; sha256_digest = λ bytes. 7 ∷ [] };
  crypto = record {
    public_raw = λ key. key;
    public_pem = λ key. key;
    private_pem = λ key. key;
    load_pem = λ pem. some pem;
    load_base64 = λ t. none;
    sign = λ key message. message;
    canonicalize = λ fs. 1 ∷ [];
  };
}

abbrev ctx : Context
ctx = record fresh { result_status = some (text "success"); client_identity = some (text "lab") }

abbrev call : Call
call = record {
  timestamp_utc = text "2026-01-01T00:00:00.000Z";
  tool_name = text "hash";
  tool_version = text "1.0.0";
  kb_version_id = none;
  kb_version = none;
  server_version = none;
  fss_binding_version = some (text "0.3.0");
}

abbrev made : Dict Text Json
made = signed_with settings (some (9 ∷ [])) (unsigned_record settings ctx call)

record_made : build_provenance_record settings (some (9 ∷ [])) ctx call ≡ some made
unfolding build_provenance_record
record_made = refl

supervised : get_invocation_type settings ctx ≡ text "agent_supervised"
unfolding get_invocation_type
supervised = refl

assessed : build_assessed_under settings (some (text "0.3.0")) ≡ text "FSS-0010v0.3@FSS-0009v1.2L2"
unfolding build_assessed_under
assessed = refl

build_provenance_record-IsSignedBy_example : IsSignedBy settings (9 ∷ []) made
build_provenance_record-IsSignedBy_example =
    build_provenance_record-IsSignedBy settings (9 ∷ []) ctx call made refl record_made

evidentiary_iff_example :
    (lookup (text "evidentiary_status") made ≡ some (str (text "evidentiary"))) ↔ (
      (lower (or_default (text "false") settings.fss_metadata) ≡ text "true")
      × (is_truthy ctx.client_identity ≡ true))
evidentiary_iff_example = evidentiary_iff settings (some (9 ∷ [])) ctx call made record_made
