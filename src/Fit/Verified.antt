-- ===== src/Fit/Verified.antt =====
-- Which tokens are verified for which calls (packages/fss-core/src/fss_core/fit.py).
use fss_chassis.Base.{
  Bool, true, false, not, ◌||◌, Text, text, text_eq, text_beq_iff, ◌==◌, Option, none, some, List,
  [], ◌∷◌, any, Result, returns, raises, raise_unless, >>=-returns, raise_unless-returns,
  raise_unless_iff, raise_unless-then, ◌≡◌, ◌≢◌, refl, ap, sym, ◌∙◌, ◌↔◌, ◌⊎◌, arith,
}
use fss_chassis.Fit.{
  FitPayload, JwtLibrary, Settings, FitClaims, Call, bad_header, bad_payload, no_key, not_decoded,
  wrong_typ, no_issuer, untrusted_issuer,
}
use fss_chassis.Fit.Verify.{
  is_empty, member, jwks_url_for_issuer, rename_error, is_fit_typ, agree, is_trusted_issuer,
  authorizes, claims, audience, check_claims, verify_fit,
}

-- What the claims of a token allow of a call.
pub record IsCovered (lib : JwtLibrary) (env : Settings) (call : Call) (p : FitPayload)
    : Type 0 where
  pub standing : member p.jti env.revoked_jtis ≡ false
  pub investigation :
      (call.investigation_id ≡ [])
      ⊎ (p.investigation_id ≡ [])
      ⊎ (call.investigation_id ≡ p.investigation_id)
  pub tool :
      (p.authorized_tools ≡ [])
      ⊎ (any
            (λ pattern. call.tool_name == pattern || lib.fullmatch pattern call.tool_name)
            p.authorized_tools
          ≡ true)
  pub analyst :
      (p.authorized_analyst ≡ [])
      ⊎ (call.client_identity ≡ [])
      ⊎ (p.authorized_analyst ≡ call.client_identity)
  pub invocation :
      (p.invocation_types_permitted ≡ [])
      ⊎ (member call.invocation_type p.invocation_types_permitted ≡ true)

-- A token of the right type, of a trusted issuer that it names, signed with the issuer's key for this
-- server, whose claims cover the call.
pub record IsVerified (lib : JwtLibrary) (env : Settings) (token : Text) (call : Call)
    (c : FitClaims) : Type 0 where
  pub issuer : Text
  pub key : Text
  pub payload : FitPayload
  pub typ : lib.header_typ token ≡ returns (some (text "FIT+JWT"))
  pub origin : lib.unverified_issuer token ≡ returns issuer
  pub named : issuer ≢ []
  pub trusted : is_trusted_issuer lib env issuer ≡ true
  pub resolved : lib.signing_key (jwks_url_for_issuer env issuer) token ≡ returns key
  pub decoded : lib.decode token key (audience lib call.server_identity) ≡ returns payload
  pub covered : IsCovered lib env call payload
  pub result : c ≡ claims lib issuer payload

empty_iff {ℓ} : {A : Type ℓ} (xs : List A) → (is_empty xs ≡ true) ↔ (xs ≡ [])
empty_iff [] = (λ h. refl, λ h. refl)
empty_iff (x ∷ xs) = (λ h. cc h, λ h. cc h)

agree_iff : (s t : Text) → (agree s t ≡ true) ↔ ((s ≡ []) ⊎ (t ≡ []) ⊎ (s ≡ t))
agree_iff s t = ground (arith, empty_iff s, empty_iff t, text_beq_iff s t)

or_empty_iff {ℓ} :
    {A : Type ℓ} (xs : List A) (b : Bool) → ((is_empty xs || b) ≡ true) ↔ ((xs ≡ []) ⊎ (b ≡ true))
or_empty_iff xs b = ground (arith, empty_iff xs)

renamed :
    {E : Type 0} {F : Type 0} {A : Type 0} (f : E → F) (m : Result E A) (a : A)
    → rename_error f m ≡ returns a
    → m ≡ returns a
renamed f (returns b) a h = cc h
renamed f (raises e) a h = cc h

module _ (lib : JwtLibrary) (env : Settings) (call : Call) where
  claims_parts :
      (p : FitPayload)
      → (check_claims lib env call p ≡ returns tt) ↔ (
          (not (member p.jti env.revoked_jtis) ≡ true)
          × ((agree call.investigation_id p.investigation_id ≡ true)
              × ((authorizes lib p.authorized_tools call.tool_name ≡ true)
                  × ((agree p.authorized_analyst call.client_identity ≡ true)
                      × ((is_empty p.invocation_types_permitted
                            || member call.invocation_type p.invocation_types_permitted)
                          ≡ true)))))
  unfolding check_claims
  claims_parts p = raise_unless-then _ _ _ _ (
      raise_unless-then _ _ _ _
        (raise_unless-then _ _ _ _ (raise_unless-then _ _ _ _ (raise_unless_iff _ _))))

  not_iff : (b : Bool) → (not b ≡ true) ↔ (b ≡ false)
  not_iff b = ground arith

  check_claims_iff :
      (p : FitPayload) → (check_claims lib env call p ≡ returns tt) ↔ IsCovered lib env call p
  unfolding authorizes
  check_claims_iff p =
      let parts = claims_parts p in
      (
        λ h.
            let (standing, (investigation, (tool, (analyst, invocation)))) = parts.0 h in
            record {
              standing = (not_iff _).0 standing;
              investigation = (agree_iff _ _).0 investigation;
              tool = (or_empty_iff p.authorized_tools _).0 tool;
              analyst = (agree_iff _ _).0 analyst;
              invocation = (or_empty_iff p.invocation_types_permitted _).0 invocation;
            },
        λ c. parts.1 (
          (not_iff _).1 c.standing,
          (
            (agree_iff _ _).1 c.investigation,
            (
              (or_empty_iff p.authorized_tools _).1 c.tool,
              (
                (agree_iff _ _).1 c.analyst,
                (or_empty_iff p.invocation_types_permitted _).1 c.invocation,
              ),
            ),
          ),
        ),
      )

  fit_typ : (typ : Option Text) → is_fit_typ typ ≡ true → typ ≡ some (text "FIT+JWT")
  fit_typ none h = cc h
  fit_typ (some typ) h = ap some ((text_beq_iff typ (text "FIT+JWT")).0 h)

  named_iff : (issuer : Text) → (not (is_empty issuer) ≡ true) ↔ (issuer ≢ [])
  named_iff [] = (λ h. cc h, λ h. absurd (h refl))
  named_iff (c ∷ s) = (λ h k. cc k, λ h. refl)

  verified :
      (token : Text) (c : FitClaims)
      → verify_fit lib env token call ≡ returns c
      → IsVerified lib env token call c
  unfolding verify_fit
  verified token c h =
      let (typ, typed, h1) = >>=-returns (rename_error bad_header (lib.header_typ token)) _ c h in
      let (_, is_fit, h2) = >>=-returns (raise_unless (is_fit_typ typ) (wrong_typ typ)) _ c h1 in
      let (issuer, origin, h3) =
        >>=-returns (rename_error bad_payload (lib.unverified_issuer token)) _ c h2 in
      let (_, named, h4) = >>=-returns (raise_unless (not (is_empty issuer)) no_issuer) _ c h3 in
      let (_, trusted, h5) =
        >>=-returns (raise_unless (is_trusted_issuer lib env issuer) (untrusted_issuer issuer)) _ c
          h4 in
      let (key, resolved, h6) =
        >>=-returns (rename_error no_key (lib.signing_key (jwks_url_for_issuer env issuer) token)) _
          c h5 in
      let (p, decoded, h7) =
        >>=-returns
          (rename_error not_decoded (lib.decode token key (audience lib call.server_identity))) _ c
          h6 in
      let (_, covered, made) = >>=-returns (check_claims lib env call p) _ c h7 in
      record {
        issuer = issuer;
        key = key;
        payload = p;
        typ =
            renamed bad_header _ typ typed
            ∙ ap returns (fit_typ typ (raise_unless-returns _ _ _ is_fit));
        origin = renamed bad_payload _ issuer origin;
        named = (named_iff issuer).0 (raise_unless-returns _ _ _ named);
        trusted = raise_unless-returns _ _ _ trusted;
        resolved = renamed no_key _ key resolved;
        decoded = renamed not_decoded _ p decoded;
        covered = (check_claims_iff p).0 covered;
        result = cc made;
      }

  accepted :
      (token : Text) (c : FitClaims)
      → IsVerified lib env token call c
      → verify_fit lib env token call ≡ returns c
  unfolding verify_fit
  accepted token c v = rw (v.typ) (
      rw (v.origin) (
        rw ((named_iff v.issuer).1 v.named) (
          rw (v.trusted) (
            rw (v.resolved) (
              rw (v.decoded)
                (rw ((check_claims_iff v.payload).1 v.covered) (ap returns (sym v.result))))))))

  -- Verification gives claims exactly for the tokens that are verified for the call, and gives the
  -- claims of the token.
  pub verify_fit_iff :
      (token : Text) (c : FitClaims)
      → (verify_fit lib env token call ≡ returns c) ↔ IsVerified lib env token call c
  verify_fit_iff token c = (verified token c, accepted token c)
