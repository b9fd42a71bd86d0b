-- ===== src/Fit/Tests.antt =====
-- A run of the verification, and its theorem at a concrete token
-- (packages/fss-core/src/fss_core/fit.py).
use fss_chassis.Base.{Text, text, text_eq, ◌==◌, [], ◌∷◌, some, returns, raises, ◌≡◌, ◌↔◌, refl}
use fss_chassis.Fit.{FitPayload, JwtLibrary, Settings, Call, tool_not_authorized, untrusted_issuer}
use fss_chassis.Fit.Verify.{
  claims, verify_fit, check_claims, authorizes, is_trusted_issuer, jwks_url_for_issuer,
}
use fss_chassis.Fit.Verified.{IsVerified, verify_fit_iff}

abbrev payload : FitPayload
payload = record {
  jti = text "t1";
  exp = 100;
  aud = [];
  legal_authority = text "warrant";
  purpose = [];
  investigation_id = [];
  authorized_tools = text "hash" ∷ [];
  authorized_analyst = [];
  invocation_types_permitted = [];
}

-- A library that decodes every token to one payload, and matches patterns as plain texts.
abbrev library : JwtLibrary
library = record {
  header_typ = λ token. returns (some (text "FIT+JWT"));
  unverified_issuer = λ token. returns (text "https://lab/");
  signing_key = λ url token. returns url;
  decode = λ token key audience. returns payload;
  fullmatch = λ pattern s. pattern == s;
  strip = λ s. s;
  format_time = λ t. text "later";
}

abbrev open_trust : Settings
open_trust = record { trusted_issuers = []; jwks_url_override = []; revoked_jtis = [] }

abbrev call : Text → Call
call tool_name = record {
  tool_name = tool_name;
  investigation_id = text "case-7";
  client_identity = [];
  invocation_type = text "agent_supervised";
  server_identity = [];
}

hash_verified :
    verify_fit library open_trust (text "t") (call (text "hash"))
    ≡ returns (claims library (text "https://lab/") payload)
unfolding verify_fit check_claims authorizes is_trusted_issuer jwks_url_for_issuer
hash_verified = refl

delete_refused :
    verify_fit library open_trust (text "t") (call (text "delete"))
    ≡ raises (tool_not_authorized (text "delete") (text "hash" ∷ []))
unfolding verify_fit check_claims authorizes is_trusted_issuer jwks_url_for_issuer
delete_refused = refl

other_issuer_refused :
    verify_fit library
      (record open_trust { trusted_issuers = text "https://a,https://b" })
      (text "t")
      (call (text "hash"))
    ≡ raises (untrusted_issuer (text "https://lab/"))
unfolding verify_fit check_claims authorizes is_trusted_issuer jwks_url_for_issuer
other_issuer_refused = refl

verify_fit_iff_example :
    (verify_fit library open_trust (text "t") (call (text "hash"))
      ≡ returns (claims library (text "https://lab/") payload))
    ↔ IsVerified library open_trust
        (text "t")
        (call (text "hash"))
        (claims library (text "https://lab/") payload)
verify_fit_iff_example =
    verify_fit_iff library open_trust (call (text "hash")) (text "t")
      (claims library (text "https://lab/") payload)
