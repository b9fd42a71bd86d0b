-- ===== src/Pipeline/Admission.antt =====
-- Whom the pipeline lets through
-- (packages/fss-mcp/src/fss_mcp/middleware/pipeline.py).
use fss_chassis.Base.{
  Bool, true, false, Text, not, ◌&&◌, Option, none, some, List, Result, returns, raises, ◌≡◌, refl,
  ap, sym, subst, ◌∙◌, Bool-cases, inl, inr, if◌then◌else◌,
}
use fss_chassis.Auth.{AuthIdentity, AuthError}
use fss_chassis.Auth.Providers.{check_auth, error_of, run_auth}
use fss_chassis.Fit.{FitClaims, FitError}
use fss_chassis.Fit.Verify.{is_empty, verify_fit}
use fss_chassis.Json.{Fields}
use fss_chassis.Pipeline.{
  PipelineConfig, RequestContext, State, Libraries, Answer, allowed, refused, not_authenticated,
  rate_limited, fit_required,
}
use fss_chassis.Pipeline.Steps.{
  if_refused, replay_step, size_step, auth_step, fit_step, rate_limit_step, rate_answer,
  keep_claims, fit_call, process_tool_request,
}
use fss_chassis.Pipeline.Process.{then_allowed}
use fss_chassis.RateLimiter.Limiter.{RateLimiter, RateLimitResult, Outcome}
use fss_chassis.RateLimiter.Limiter
use fss_chassis.Validation.{Schema}

allowed_of :
    (e : Option AuthError) (u : Unit {0}) → if_refused not_authenticated e ≡ allowed u → e ≡ none
allowed_of none u h = refl
allowed_of (some e) u h = cc h

-- Either branch of a test leaves the limiter alone.
if_keeps :
    (b : Bool) (x y : Answer (Unit {0}) × State) (l : RateLimiter)
    → x.1.rate_limiter ≡ l
    → y.1.rate_limiter ≡ l
    → (if b then x else y).1.rate_limiter ≡ l
if_keeps true x y l h k = h
if_keeps false x y l h k = k

module _ (lib : Libraries) (config : PipelineConfig) (request : RequestContext) where
  -- The request has a token that authenticates against the provider at hand, as a caller with the
  -- scopes, and the limiter allows it.
  pub record IsAdmitted (tool_name : Text) (scopes : List Text) (s : State) : Type 0 where
    pub identity : AuthIdentity
    pub authentic :
        (check_auth lib.auth request.monotonic_seconds s.auth_provider request.token tool_name
          scopes).0
        ≡ returns identity
    pub verdict : RateLimitResult
    pub within_rate :
        (Limiter.check request.monotonic_ticks request.session_id tool_name s.rate_limiter).0
        ≡ Outcome.returns verdict
    pub is_allowed : verdict.allowed ≡ true

  rate_answer-allowed :
      (o : Outcome) (u : Unit {0})
      → rate_answer lib config request o ≡ allowed u
      → (r : RateLimitResult) × (o ≡ Outcome.returns r) × (r.allowed ≡ true)
  rate_answer-allowed (Outcome.returns r) u h = elim (Bool-cases r.allowed) [
    | inl e ↦ (r, refl, e)
    | inr e ↦ cc (ap (λ b. if b then allowed tt else refused (rate_limited r)) (sym e) ∙ h)
  ]
  rate_answer-allowed Outcome.raises_key_error u h = cc h
  rate_answer-allowed Outcome.raises_runtime_error u h = cc h

  replay_step-keeps :
      (s : State)
      → ((replay_step lib config request s).1.auth_provider ≡ s.auth_provider)
        × ((replay_step lib config request s).1.rate_limiter ≡ s.rate_limiter)
  unfolding replay_step
  replay_step-keeps s = (refl, refl)

  keep_claims-keeps :
      (s : State) (m : Result FitError FitClaims)
      → (keep_claims lib config request s m).1.rate_limiter ≡ s.rate_limiter
  keep_claims-keeps s (returns c) = refl
  keep_claims-keeps s (raises e) = refl

  fit_step-keeps :
      (name : Text) (s : State)
      → (fit_step lib config request name s).1.rate_limiter ≡ s.rate_limiter
  unfolding fit_step
  fit_step-keeps name s =
      let call = fit_call lib config request name s in
      let verdict = verify_fit lib.jwt config.fit_settings request.fit_token call in
      let claims = keep_claims lib config request s verdict in
      let without : Answer (Unit {0}) × State = (allowed tt, s) in
      let refusal : Answer (Unit {0}) × State = (refused fit_required, s) in
      let given = if is_empty request.fit_token then without else claims in
      if_keeps
        (config.fit_enforce
          && not (is_empty request.investigation_id)
          && is_empty request.fit_token)
        refusal given s.rate_limiter refl
        (if_keeps (is_empty request.fit_token) without claims s.rate_limiter refl
          (keep_claims-keeps s verdict))

  returned_of :
      (m : Result AuthError AuthIdentity)
      → error_of lib.auth m ≡ none
      → (i : AuthIdentity) × (m ≡ returns i)
  returned_of (returns i) h = (i, refl)
  returned_of (raises e) h = cc h

  auth_step-authentic :
      (name : Text) (scopes : List Text) (s : State) (u : Unit {0}) (t : State)
      → auth_step lib config request name scopes s ≡ (allowed u, t)
      → ((i : AuthIdentity) × ((check_auth lib.auth request.monotonic_seconds s.auth_provider
              request.token name scopes).0
            ≡ returns i))
        × (s.rate_limiter ≡ t.rate_limiter)
  unfolding auth_step run_auth
  auth_step-authentic name scopes s u t h =
      (returned_of _ (allowed_of _ u (ap (λ p. p.0) h)), ap (λ p. p.1.rate_limiter) h)

  -- A tool call that the pipeline lets through has authenticated, and the rate limiter has allowed it
  -- from the levels before the call.
  pub process_tool_request-IsAdmitted :
      (tool_name : Text) (arguments w : Fields) (schema : Schema) (scopes : List Text) (s t : State)
      → process_tool_request lib config request tool_name arguments schema scopes s ≡ (allowed w, t)
      → IsAdmitted tool_name scopes s
  unfolding process_tool_request size_step rate_limit_step
  process_tool_request-IsAdmitted tool_name arguments w schema scopes s t h =
      let (s1, r1, h1) = then_allowed (replay_step lib config request) _ s w t h in
      let (s2, r2, h2) = then_allowed (size_step lib config request arguments) _ s1 w t h1 in
      let (s3, r3, h3) = then_allowed (auth_step lib config request tool_name scopes) _ s2 w t h2 in
      let (s4, r4, h4) = then_allowed (fit_step lib config request tool_name) _ s3 w t h3 in
      let (s5, r5, _) = then_allowed (rate_limit_step lib config request tool_name) _ s4 w t h4 in
      let ((i, authentic), kept) = auth_step-authentic tool_name scopes s2 tt s3 r3 in
      let provider : s2.auth_provider ≡ s.auth_provider =
        sym (ap (λ p. p.1.auth_provider) r2)
        ∙ sym (ap (λ p. p.1.auth_provider) r1)
        ∙ (replay_step-keeps s).0 in
      let limiter : s4.rate_limiter ≡ s.rate_limiter =
        sym (ap (λ p. p.1.rate_limiter) r4)
        ∙ fit_step-keeps tool_name s3
        ∙ sym kept
        ∙ sym (ap (λ p. p.1.rate_limiter) r2)
        ∙ sym (ap (λ p. p.1.rate_limiter) r1)
        ∙ (replay_step-keeps s).1 in
      let (verdict, outcome, yes_now) = rate_answer-allowed _ tt (ap (λ p. p.0) r5) in
      record {
        identity = i;
        authentic =
            subst
              (λ p.
                (check_auth lib.auth request.monotonic_seconds p request.token tool_name scopes).0
                ≡ returns i)
              provider authentic;
        verdict = verdict;
        within_rate =
            subst
              (λ l.
                (Limiter.check request.monotonic_ticks request.session_id tool_name l).0
                ≡ Outcome.returns verdict)
              limiter outcome;
        is_allowed = yes_now;
      }
