-- ===== src/Config/Precedence.antt =====
-- Which of its sources a configuration takes a value from
-- (packages/fss-mcp/src/fss_mcp/config.py, packages/fss-mcp/src/fss_mcp/security/profiles.py).
use fss_chassis.Base.{
  Bool, true, false, Text, text, text_eq, Option, none, some, [], if◌then◌else◌, Result, returns,
  raises, raise_unless, ◌==◌, >>=-returns, ◌>>=◌, ◌>>◌, ◌≡◌, refl, ap, sym, subst, ◌∙◌,
}
use fss_chassis.Base.Int.{pos}
use fss_chassis.Config.{
  RawRateLimits, RawIoLimits, RawValidation, RawSanitization, RawAuth, RawSecurity, SecurityConfig,
  ConfigError, invalid_profile, get_or, over,
}
use fss_chassis.Config.Build.{valid_profiles, build_sections, build_from, build_security_config}
use fss_chassis.Config.Built.{same_value}
use fss_chassis.Config.Profiles.{
  strict, moderate, permissive, get_profile, over_rate_limits, over_io_limits, over_validation,
  over_sanitization, over_auth, merge_overrides, merge_profile_with_overrides,
}
use fss_chassis.Fit.Verify.{member}

-- A section that was put over another is not changed by being put over it again.
over-over : {A : Type 0} (a b : Option A) → over (over a b) b ≡ over a b
over-over none none = refl
over-over none (some b) = refl
over-over (some a) b = refl

over_rate_limits-twice :
    (a b : RawRateLimits) → over_rate_limits (over_rate_limits a b) b ≡ over_rate_limits a b
over_rate_limits-twice a b = λ i. record {
  enabled = over-over a.enabled b.enabled i;
  global_rpm = over-over a.global_rpm b.global_rpm i;
  per_tool_rpm = over-over a.per_tool_rpm b.per_tool_rpm i;
  burst_size = over-over a.burst_size b.burst_size i;
}

over_io_limits-twice :
    (a b : RawIoLimits) → over_io_limits (over_io_limits a b) b ≡ over_io_limits a b
over_io_limits-twice a b = λ i. record {
  max_request_size = over-over a.max_request_size b.max_request_size i;
  max_response_size = over-over a.max_response_size b.max_response_size i;
}

over_validation-twice :
    (a b : RawValidation) → over_validation (over_validation a b) b ≡ over_validation a b
over_validation-twice a b = λ i. record {
  enabled = over-over a.enabled b.enabled i;
  max_string_length = over-over a.max_string_length b.max_string_length i;
  max_array_length = over-over a.max_array_length b.max_array_length i;
  max_object_depth = over-over a.max_object_depth b.max_object_depth i;
}

over_sanitization-twice :
    (a b : RawSanitization) → over_sanitization (over_sanitization a b) b ≡ over_sanitization a b
over_sanitization-twice a b =
    λ i. record { enabled = over-over a.enabled b.enabled i; level = over-over a.level b.level i }

over_auth-twice : (a b : RawAuth) → over_auth (over_auth a b) b ≡ over_auth a b
over_auth-twice a b = λ i. record {
  enabled = over-over a.enabled b.enabled i;
  provider = over-over a.provider b.provider i;
  mode = over-over a.mode b.mode i;
  token = over-over a.token b.token i;
  api_keys_path = over-over a.api_keys_path b.api_keys_path i;
  api_key_max_age_days = over-over a.api_key_max_age_days b.api_key_max_age_days i;
  oauth_jwks_url = over-over a.oauth_jwks_url b.oauth_jwks_url i;
  oauth_audience = over-over a.oauth_audience b.oauth_audience i;
  oauth_issuer = over-over a.oauth_issuer b.oauth_issuer i;
}

get_or-over :
    {A : Type 0} (d : A) (a b : Option A) → get_or (get_or d b) (over a b) ≡ get_or (get_or d b) a
get_or-over d none none = refl
get_or-over d none (some b) = refl
get_or-over d (some a) b = refl

over-none : {A : Type 0} (a : Option A) → over a none ≡ a
over-none none = refl
over-none (some a) = refl

-- What no profile says
abbrev HasNoWindow : RawSecurity → Type 0
HasNoWindow base = (base.replay_window_seconds ≡ none) × (base.security_log_path ≡ none)

abbrev one_of : Bool → Bool → Bool → Text → Result ConfigError RawSecurity
one_of a b c name =
    if a
    then returns strict
    else if b
    then returns moderate
    else if c
    then returns permissive
    else raises (invalid_profile name)

one_of-HasNoWindow :
    (a b c : Bool) (name : Text) (base : RawSecurity)
    → one_of a b c name ≡ returns base
    → HasNoWindow base
one_of-HasNoWindow true b c name base h = subst HasNoWindow (same_value strict base h) (refl, refl)
one_of-HasNoWindow false true c name base h =
    subst HasNoWindow (same_value moderate base h) (refl, refl)
one_of-HasNoWindow false false true name base h =
    subst HasNoWindow (same_value permissive base h) (refl, refl)
one_of-HasNoWindow false false false name base h = cc h

get_profile-HasNoWindow :
    (name : Text) (base : RawSecurity) → get_profile name ≡ returns base → HasNoWindow base
unfolding get_profile
get_profile-HasNoWindow name base h =
    one_of-HasNoWindow (name == text "strict") (name == text "moderate") (name == text "permissive")
      name base h

build_from-merged :
    (profile : Text) (defaults raw : RawSecurity)
    → HasNoWindow defaults
    → build_from profile defaults (merge_overrides raw defaults) ≡ build_from profile defaults raw
unfolding merge_overrides build_from
build_from-merged profile defaults raw (no_window, no_path) =
    let window =
      ap (over raw.replay_window_seconds) no_window ∙ over-none raw.replay_window_seconds in
    let path = ap (over raw.security_log_path) no_path ∙ over-none raw.security_log_path in
    λ i.
      build_sections profile (over_rate_limits-twice raw.rate_limits defaults.rate_limits i)
        (over_io_limits-twice raw.io_limits defaults.io_limits i)
        (over_validation-twice raw.input_validation defaults.input_validation i)
        (over_sanitization-twice raw.input_sanitization defaults.input_sanitization i)
        (over_auth-twice raw.auth defaults.auth i)
        (get_or-over false raw.detailed_errors defaults.detailed_errors i)
        (get_or (pos 300) (window i)) (get_or [] (path i))

-- `build_security_config`, by the name of the profile
abbrev named_build : Option Text → RawSecurity → Result ConfigError SecurityConfig
named_build name raw =
    raise_unless (member (get_or (text "strict") name) valid_profiles)
      (invalid_profile (get_or (text "strict") name))
    >> (get_profile (get_or (text "strict") name) >>= λ defaults.
        build_from (get_or (text "strict") name) defaults raw)

-- The merge of a profile with overrides is the one that a build makes: a file that names a profile
-- is built as what `merge_profile_with_overrides` gives for it.
pub build-merge_profile_with_overrides :
    (raw merged : RawSecurity) (profile : Text)
    → raw.profile ≡ some profile
    → merge_profile_with_overrides profile raw ≡ returns merged
    → build_security_config merged ≡ build_security_config raw
unfolding build_security_config merge_profile_with_overrides merge_overrides
build-merge_profile_with_overrides raw merged profile named h =
    let (base, found, e) = >>=-returns (get_profile profile) _ merged h in
    let same : merge_overrides raw base ≡ merged = same_value _ merged e in
    let first : named_build merged.profile merged
        ≡ named_build (some profile) (merge_overrides raw base) =
      ap (λ r. named_build r.profile r) (sym same)
      ∙ ap (λ n. named_build (over n base.profile) (merge_overrides raw base)) named in
    let test = raise_unless (member profile valid_profiles) (invalid_profile profile) in
    let second : named_build (some profile) (merge_overrides raw base)
        ≡ named_build (some profile) raw =
      ap (λ g. test >> (g >>= λ d. build_from profile d (merge_overrides raw base))) found
      ∙ ap (λ m. test >> m)
          (build_from-merged profile base raw (get_profile-HasNoWindow profile base found))
      ∙ ap (λ g. test >> (g >>= λ d. build_from profile d raw)) (sym found) in
    first ∙ second ∙ ap (λ n. named_build n raw) (sym named)
