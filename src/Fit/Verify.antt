-- ===== src/Fit/Verify.antt =====
-- `verify_fit` and what it uses (packages/fss-core/src/fss_core/fit.py).
use fss_chassis.Base.{
  ℕ, Bool, true, false, not, ◌&&◌, ◌||◌, Text, text, text_eq, ◌==◌, Option, none, some, List, [],
  ◌∷◌, ◌++◌, any, map, nat_eq, if◌then◌else◌, Result, returns, raises, ◌>>=◌, ◌>>◌, raise_unless,
}
use fss_chassis.Fit.{
  FitPayload, invalid_audience, expired, immature, other, JwtLibrary, Settings, FitClaims, Call,
  FitError, bad_header, wrong_typ, bad_payload, no_issuer, untrusted_issuer, no_key, not_decoded,
  revoked, investigation_mismatch, tool_not_authorized, analyst_mismatch, invocation_not_permitted,
}

-- The step that the error names
abbrev pub error_step : FitError → ℕ
error_step (bad_header _) = 1
error_step (wrong_typ _) = 1
error_step (bad_payload _) = 2
error_step no_issuer = 2
error_step (untrusted_issuer _) = 2
error_step (no_key _) = 3
error_step (not_decoded (invalid_audience _)) = 5
error_step (not_decoded (expired _)) = 7
error_step (not_decoded (immature _)) = 7
error_step (not_decoded (other _)) = 4
error_step (revoked _) = 6
error_step (investigation_mismatch _ _) = 8
error_step (tool_not_authorized _ _) = 9
error_step (analyst_mismatch _ _) = 10
error_step (invocation_not_permitted _ _) = 11

abbrev pub is_empty {ℓ} : {A : Type ℓ} → List A → Bool
is_empty [] = true
is_empty (x ∷ xs) = false

abbrev pub member : Text → List Text → Bool
member s ts = any (λ t. t == s) ts

abbrev begin_part : ℕ → List Text → List Text
begin_part c [] = (c ∷ []) ∷ []
begin_part c (part ∷ parts) = (c ∷ part) ∷ parts

-- s.split(",")
abbrev pub split_commas : Text → List Text
split_commas [] = [] ∷ []
split_commas (c ∷ s) = if nat_eq c b',' then [] ∷ split_commas s else begin_part c (split_commas s)

abbrev drop_last_slash : ℕ → Text → Text
drop_last_slash c [] = if nat_eq c b'/' then [] else c ∷ []
drop_last_slash c (d ∷ s) = c ∷ d ∷ s

-- s.rstrip("/")
abbrev pub strip_slashes : Text → Text
strip_slashes [] = []
strip_slashes (c ∷ s) = drop_last_slash c (strip_slashes s)

unfoldable pub jwks_url_for_issuer : Settings → Text → Text
jwks_url_for_issuer env issuer =
    if is_empty env.jwks_url_override
    then strip_slashes issuer ++ text "/.well-known/fss-jwks.json"
    else env.jwks_url_override

-- An error of a library call, under the name that the code gives it
abbrev pub rename_error {κ} :
    {E : Type 0} {F : Type 0} {A : Type κ} → (E → F) → Result E A → Result F A
rename_error f (returns a) = returns a
rename_error f (raises e) = raises (f e)

abbrev pub is_fit_typ : Option Text → Bool
is_fit_typ none = false
is_fit_typ (some typ) = typ == text "FIT+JWT"

-- Two texts that disagree only if both are there
abbrev pub agree : Text → Text → Bool
agree s t = is_empty s || is_empty t || s == t

module _ (lib : JwtLibrary) where
  unfoldable pub is_trusted_issuer : Settings → Text → Bool
  is_trusted_issuer env issuer =
      is_empty env.trusted_issuers
      || any (λ i. not (is_empty i) && i == issuer)
          (map lib.strip (split_commas env.trusted_issuers))

  -- Step 9, where an empty list authorizes every tool
  unfoldable pub authorizes : List Text → Text → Bool
  authorizes patterns tool_name =
      is_empty patterns
      || any (λ pattern. tool_name == pattern || lib.fullmatch pattern tool_name) patterns

  abbrev pub claims : Text → FitPayload → FitClaims
  claims issuer p = record {
    jti = p.jti;
    issuer = issuer;
    valid_until = lib.format_time p.exp;
    aud = p.aud;
    legal_authority = p.legal_authority;
    purpose = p.purpose;
    investigation_id = p.investigation_id;
    authorized_tools = p.authorized_tools;
    authorized_analyst = p.authorized_analyst;
    invocation_types_permitted = p.invocation_types_permitted;
  }

  abbrev pub audience : Text → Option Text
  audience [] = none
  audience (c ∷ s) = some (c ∷ s)

  -- Steps 6 to 11
  unfoldable pub check_claims : Settings → Call → FitPayload → Result FitError (Unit {0})
  check_claims env call p = do
    raise_unless (not (member p.jti env.revoked_jtis)) (revoked p.jti)
    raise_unless (agree call.investigation_id p.investigation_id)
        (investigation_mismatch p.investigation_id call.investigation_id)
    raise_unless (authorizes p.authorized_tools call.tool_name)
        (tool_not_authorized call.tool_name p.authorized_tools)
    raise_unless (agree p.authorized_analyst call.client_identity)
        (analyst_mismatch call.client_identity p.authorized_analyst)
    raise_unless
        (is_empty p.invocation_types_permitted
          || member call.invocation_type p.invocation_types_permitted)
        (invocation_not_permitted call.invocation_type p.invocation_types_permitted)

  unfoldable pub verify_fit : Settings → Text → Call → Result FitError FitClaims
  verify_fit env token call = do
    typ ← rename_error bad_header (lib.header_typ token)
    raise_unless (is_fit_typ typ) (wrong_typ typ)
    issuer ← rename_error bad_payload (lib.unverified_issuer token)
    raise_unless (not (is_empty issuer)) no_issuer
    raise_unless (is_trusted_issuer env issuer) (untrusted_issuer issuer)
    key ← rename_error no_key (lib.signing_key (jwks_url_for_issuer env issuer) token)
    p ← rename_error not_decoded (lib.decode token key (audience call.server_identity))
    check_claims env call p
    returns (claims issuer p)
