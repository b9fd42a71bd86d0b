-- ===== src/Pipeline/Process.antt =====
-- What the pipeline lets through
-- (packages/fss-mcp/src/fss_mcp/middleware/pipeline.py).
use fss_chassis.Base.{
  suc, true, Text, text, List, if◌then◌else◌, Result, returns, raises, ◌≡◌, refl, ap, sym, subst,
  ◌∙◌,
}
use fss_chassis.Json.{Json, Fields, null, bool, int, float, str, arr, obj}
use fss_chassis.Pipeline.{
  PipelineConfig, RequestContext, State, Libraries, Answer, allowed, refused, crashed,
}
use fss_chassis.Pipeline.Steps.{
  Run, go_on, ◌>>◌, replay_step, size_step, auth_step, fit_step, rate_limit_step, sanitize_step,
  sanitize_answer, validate_answer, validate_step, process_tool_request,
}
use fss_chassis.Sanitization.Clean.{ShowsPunctuation, is_forbidden}
use fss_chassis.Sanitization.Spec.{AllStrings, StringsAvoid}
use fss_chassis.Sanitization.Stripped.{IsShort, sanitize_input-clean}
use fss_chassis.Sanitization.Traversal.{IsFree}
use fss_chassis.Sanitization.Values.{SanitizationError, sanitize_input}
use fss_chassis.Validation.{Schema, Error}
use fss_chassis.Validation.Checks.{raise_if_invalid}
use fss_chassis.Validation.Spec.{IsValid}
use fss_chassis.Validation.Valid.{raise_if_invalid_iff}

-- Inversion of a chain that allowed.
go_on-allowed :
    {A : Type 0} {B : Type 0} (f : A → Run B) (r : Answer A × State) (b : B) (t : State)
    → go_on f r ≡ (allowed b, t)
    → (a : A) × (s : State) × (r ≡ (allowed a, s)) × (f a s ≡ (allowed b, t))
go_on-allowed f (allowed a, s) b t h = (a, s, refl, h)
go_on-allowed f (refused r, s) b t h = cc (ap (λ p. p.0) h)
go_on-allowed f (crashed, s) b t h = cc (ap (λ p. p.0) h)

pub then_allowed :
    {B : Type 0} (m : Run (Unit {0})) (k : Run B) (s : State) (b : B) (t : State)
    → (m >> k) s ≡ (allowed b, t)
    → (s' : State) × (m s ≡ (allowed tt, s')) × (k s' ≡ (allowed b, t))
then_allowed m k s b t h =
    let (_, s', first, rest) = go_on-allowed (λ _. k) (m s) b t h in (s', first, rest)

module _ (lib : Libraries) (config : PipelineConfig) (request : RequestContext) where
  sanitize_answer-obj :
      (m : Result SanitizationError Json) (w : Fields)
      → sanitize_answer lib config request m ≡ allowed w
      → m ≡ returns (obj w)
  sanitize_answer-obj (returns (obj fs)) w h = cc h
  sanitize_answer-obj (returns null) w h = cc h
  sanitize_answer-obj (returns (bool b)) w h = cc h
  sanitize_answer-obj (returns (int n)) w h = cc h
  sanitize_answer-obj (returns (float m e)) w h = cc h
  sanitize_answer-obj (returns (str t)) w h = cc h
  sanitize_answer-obj (returns (arr vs)) w h = cc h
  sanitize_answer-obj (raises e) w h = cc h

  validate_answer-allowed :
      (m : Result (List Error) (Unit {0})) (u : Unit {0})
      → validate_answer lib config request m ≡ allowed u
      → m ≡ returns tt
  validate_answer-allowed (returns _) u h = refl
  validate_answer-allowed (raises e) u h = cc h

  sanitize_step-clean :
      (arguments w : Fields) (s t : State)
      → ShowsPunctuation lib.unicode
      → config.sanitization_enabled ≡ true
      → sanitize_step lib config request arguments s ≡ (allowed w, t)
      → StringsAvoid (is_forbidden lib.unicode config.sanitization_level) (obj w)
        × (config.sanitization_level ≡ text "moderate"
            → AllStrings IsShort (obj arguments)
            → AllStrings IsFree (obj w))
  unfolding sanitize_step
  sanitize_step-clean arguments w s t shown on h =
      let cleaned = sanitize_input lib.unicode config.sanitization_level 0 (obj arguments) in
      let this = sanitize_answer lib config request cleaned in
      let same : this ≡ allowed w =
        ap (λ p. p.0) (ap (λ b. if b then (this, s) else (allowed arguments, s)) (sym on) ∙ h) in
      sanitize_input-clean lib.unicode config.sanitization_level 0 (obj arguments) (obj w) shown
        (sanitize_answer-obj cleaned w same)

  validate_step-IsValid :
      (w : Fields) (schema : Schema) (u : Unit {0}) (s t : State)
      → config.validation_enabled ≡ true
      → validate_step lib config request w schema s ≡ (allowed u, t)
      → IsValid config.validation_limits
          (suc config.validation_limits.max_object_depth)
          (obj w)
          schema
  unfolding validate_step
  validate_step-IsValid w schema u s t on h =
      let checked = raise_if_invalid w schema config.validation_limits in
      let this = validate_answer lib config request checked in
      let same : this ≡ allowed u =
        ap (λ p. p.0) (ap (λ b. if b then (this, s) else (allowed tt, s)) (sym on) ∙ h) in
      (raise_if_invalid_iff w schema config.validation_limits).0
        (validate_answer-allowed checked u same)

  -- Where sanitization and validation are on, the arguments with which a tool is called hold, in no
  -- string and no key, a character that the configured level takes out (the control characters, at
  -- strict also those of Unicode and the shell's), and conform to the schema of the tool. At moderate
  -- they hold no `..` next to a slash or backslash either, if no string and key that was sent is
  -- longer than 21 characters.
  pub process_tool_request-safe :
      (tool_name : Text) (arguments w : Fields) (schema : Schema) (scopes : List Text) (s t : State)
      → ShowsPunctuation lib.unicode
      → config.sanitization_enabled ≡ true
      → config.validation_enabled ≡ true
      → process_tool_request lib config request tool_name arguments schema scopes s ≡ (allowed w, t)
      → StringsAvoid (is_forbidden lib.unicode config.sanitization_level) (obj w)
        × (config.sanitization_level ≡ text "moderate"
            → AllStrings IsShort (obj arguments)
            → AllStrings IsFree (obj w))
        × IsValid config.validation_limits
            (suc config.validation_limits.max_object_depth)
            (obj w)
            schema
  unfolding process_tool_request
  process_tool_request-safe tool_name arguments w schema scopes s t shown clean valid h =
      let (s1, _, h1) = then_allowed (replay_step lib config request) _ s w t h in
      let (s2, _, h2) = then_allowed (size_step lib config request arguments) _ s1 w t h1 in
      let (s3, _, h3) = then_allowed (auth_step lib config request tool_name scopes) _ s2 w t h2 in
      let (s4, _, h4) = then_allowed (fit_step lib config request tool_name) _ s3 w t h3 in
      let (s5, _, h5) = then_allowed (rate_limit_step lib config request tool_name) _ s4 w t h4 in
      let (cleaned, s6, sanitized, h6) =
        go_on-allowed _ (sanitize_step lib config request arguments s5) w t h5 in
      let (u, s7, validated, h7) =
        go_on-allowed _ (validate_step lib config request cleaned schema s6) w t h6 in
      let same : cleaned ≡ w = cc (ap (λ p. p.0) h7) in
      let stripped = sanitize_step-clean arguments cleaned s5 s6 shown clean sanitized in
      (
        subst (λ v. StringsAvoid (is_forbidden lib.unicode config.sanitization_level) (obj v)) same
            stripped.0,
        λ moderate short. subst (λ v. AllStrings IsFree (obj v)) same (stripped.1 moderate short),
        subst
            (λ v.
              IsValid config.validation_limits (suc config.validation_limits.max_object_depth)
                (obj v) schema)
            same (validate_step-IsValid cleaned schema u s6 s7 valid validated),
      )
