-- ===== src/Config/Built.antt =====
-- What a configuration that is built satisfies (packages/fss-mcp/src/fss_mcp/config.py).
use fss_chassis.Base.{
  Bool, true, false, Text, text, text_eq, if◌then◌else◌, Result, returns, raise_unless, >>=-returns,
  ◌>>◌, ◌≡◌, refl, ap, sym, subst, ◌∙◌, inl, inr, Bool-cases,
}
use fss_chassis.Base.Int.{ℤ}
use fss_chassis.Config.{
  RawRateLimits, RawIoLimits, RawValidation, RawSanitization, RawAuth, RawSecurity, RawServer, Raw,
  RateLimits, IoLimitConfig, ValidationConfig, SanitizationConfig, AuthConfig, SecurityConfig,
  ServerSettings, ServerConfig, ConfigError, get_or,
}
use fss_chassis.Config.Build.{
  valid_transports, valid_log_levels, valid_auth_providers, valid_auth_modes,
  valid_sanitization_levels, valid_profiles, is_positive, check_positive, checked_rate_limits,
  build_rate_limits, checked_io_limits, build_io_limits, checked_validation, build_validation,
  build_sanitization, build_auth, build_sections, build_from, build_security_config,
  build_server_settings, build_config, rate_limits_of, io_limits_of, validation_of, sanitization_of,
  auth_of, server_of,
}
use fss_chassis.Config.Profiles.{get_profile}
use fss_chassis.Fit.Verify.{member}

abbrev pub IsPositive : ℤ → Type 0
IsPositive n = is_positive n ≡ true

abbrev pub IsLimit : RateLimits → Type 0
IsLimit l =
    l.enabled ≡ true → IsPositive l.global_rpm × IsPositive l.per_tool_rpm × IsPositive l.burst_size

abbrev pub IsIoLimit : IoLimitConfig → Type 0
IsIoLimit l = IsPositive l.max_request_size × IsPositive l.max_response_size

abbrev pub IsValidation : ValidationConfig → Type 0
IsValidation l =
    IsPositive l.max_string_length × IsPositive l.max_array_length × IsPositive l.max_object_depth

abbrev pub IsAuth : AuthConfig → Type 0
IsAuth a = (member a.provider valid_auth_providers ≡ true) × (member a.mode valid_auth_modes ≡ true)

-- Limits are positive, the rates where they apply, and names are known.
abbrev pub IsSound : ServerConfig → Type 0
IsSound c =
    IsLimit c.security.rate_limits
    × IsIoLimit c.security.io_limits
    × IsValidation c.security.input_validation
    × (member c.security.input_sanitization.level valid_sanitization_levels ≡ true)
    × IsAuth c.security.auth
    × (member c.security.profile valid_profiles ≡ true)
    × (member c.server.transport valid_transports ≡ true)
    × (member c.server.log_level valid_log_levels ≡ true)

-- What a test in front of a chain has found
pub tested :
    {A : Type 0} (b : Bool) (e : ConfigError) (m : Result ConfigError A) (a : A)
    → (raise_unless b e >> m) ≡ returns a
    → (b ≡ true) × (m ≡ returns a)
tested true e m a h = (refl, h)
tested false e m a h = cc h

abbrev pub Gives : {A : Type 0} → Result ConfigError A → A → Type 0
Gives m a = m ≡ returns a

pub same_value : {A : Type 0} (a b : A) → Gives (returns a) b → a ≡ b
same_value a b h = cc h

checked_rate_limits-IsLimit :
    (limits l : RateLimits) → checked_rate_limits limits ≡ returns l → IsLimit l
unfolding check_positive
checked_rate_limits-IsLimit limits l h =
    let (global_rpm, h1) = tested (is_positive limits.global_rpm) _ _ l h in
    let (per_tool_rpm, h2) = tested (is_positive limits.per_tool_rpm) _ _ l h1 in
    let (burst_size, h3) = tested (is_positive limits.burst_size) _ _ l h2 in
    subst IsLimit (same_value limits l h3) (λ on. (global_rpm, per_tool_rpm, burst_size))

by_enabled :
    (limits l : RateLimits)
    → (if limits.enabled then checked_rate_limits limits else returns limits) ≡ returns l
    → IsLimit l
by_enabled limits l h = elim (Bool-cases limits.enabled) [
  | inl on ↦
      checked_rate_limits-IsLimit limits l
        (ap (λ b. if b then checked_rate_limits limits else returns limits) (sym on) ∙ h)
  | inr off ↦
      let same =
        same_value limits l
          (ap (λ b. if b then checked_rate_limits limits else returns limits) (sym off) ∙ h) in
      subst IsLimit same (λ on. cc (sym on ∙ off))
]

build_rate_limits-IsLimit :
    (raw : RawRateLimits) (l : RateLimits) → build_rate_limits raw ≡ returns l → IsLimit l
unfolding build_rate_limits
build_rate_limits-IsLimit raw l h = by_enabled (rate_limits_of raw) l h

checked_io_limits-IsIoLimit :
    (limits l : IoLimitConfig) → checked_io_limits limits ≡ returns l → IsIoLimit l
unfolding check_positive
checked_io_limits-IsIoLimit limits l h =
    let (max_request_size, h1) = tested (is_positive limits.max_request_size) _ _ l h in
    let (max_response_size, h2) = tested (is_positive limits.max_response_size) _ _ l h1 in
    subst IsIoLimit (same_value limits l h2) (max_request_size, max_response_size)

build_io_limits-IsIoLimit :
    (raw : RawIoLimits) (l : IoLimitConfig) → build_io_limits raw ≡ returns l → IsIoLimit l
unfolding build_io_limits
build_io_limits-IsIoLimit raw l h = checked_io_limits-IsIoLimit (io_limits_of raw) l h

checked_validation-IsValidation :
    (limits l : ValidationConfig) → checked_validation limits ≡ returns l → IsValidation l
unfolding check_positive
checked_validation-IsValidation limits l h =
    let (max_string_length, h1) = tested (is_positive limits.max_string_length) _ _ l h in
    let (max_array_length, h2) = tested (is_positive limits.max_array_length) _ _ l h1 in
    let (max_object_depth, h3) = tested (is_positive limits.max_object_depth) _ _ l h2 in
    subst IsValidation (same_value limits l h3)
      (max_string_length, max_array_length, max_object_depth)

build_validation-IsValidation :
    (raw : RawValidation) (l : ValidationConfig) → build_validation raw ≡ returns l → IsValidation l
unfolding build_validation
build_validation-IsValidation raw l h = checked_validation-IsValidation (validation_of raw) l h

build_sanitization-level :
    (raw : RawSanitization) (c : SanitizationConfig)
    → build_sanitization raw ≡ returns c
    → member c.level valid_sanitization_levels ≡ true
unfolding build_sanitization
build_sanitization-level raw c h =
    let level = (sanitization_of raw).level in
    let (known, h1) = tested (member level valid_sanitization_levels) _ _ c h in
    subst (λ (c : SanitizationConfig). member c.level valid_sanitization_levels ≡ true)
      (same_value (sanitization_of raw) c h1) known

build_auth-IsAuth : (raw : RawAuth) (a : AuthConfig) → build_auth raw ≡ returns a → IsAuth a
unfolding build_auth
build_auth-IsAuth raw a h =
    let auth = auth_of raw in
    let (provider, h1) = tested (member auth.provider valid_auth_providers) _ _ a h in
    let (mode, h2) = tested (member auth.mode valid_auth_modes) _ _ a h1 in
    subst IsAuth (same_value auth a h2) (provider, mode)

-- The sections of a security configuration that is built
abbrev IsSecure : SecurityConfig → Type 0
IsSecure c =
    IsLimit c.rate_limits
    × IsIoLimit c.io_limits
    × IsValidation c.input_validation
    × (member c.input_sanitization.level valid_sanitization_levels ≡ true)
    × IsAuth c.auth

build_from-IsSecure :
    (profile : Text) (defaults raw : RawSecurity) (c : SecurityConfig)
    → build_from profile defaults raw ≡ returns c
    → IsSecure c × (c.profile ≡ profile)
unfolding build_from build_sections
build_from-IsSecure profile defaults raw c h =
    let (rate_limits, g1, h1) = >>=-returns (build_rate_limits _) _ c h in
    let (io_limits, g2, h2) = >>=-returns (build_io_limits _) _ c h1 in
    let (validation, g3, h3) = >>=-returns (build_validation _) _ c h2 in
    let (sanitization, g4, h4) = >>=-returns (build_sanitization _) _ c h3 in
    let (auth, g5, h5) = >>=-returns (build_auth _) _ c h4 in
    subst (λ c. IsSecure c × (c.profile ≡ profile)) (same_value _ c h5)
      (
        (
          build_rate_limits-IsLimit _ rate_limits g1,
          build_io_limits-IsIoLimit _ io_limits g2,
          build_validation-IsValidation _ validation g3,
          build_sanitization-level _ sanitization g4,
          build_auth-IsAuth _ auth g5,
        ),
        refl,
      )

build_security_config-IsSecure :
    (raw : RawSecurity) (c : SecurityConfig)
    → build_security_config raw ≡ returns c
    → IsSecure c × (member c.profile valid_profiles ≡ true)
unfolding build_security_config
build_security_config-IsSecure raw c h =
    let profile = get_or (text "strict") raw.profile in
    let (known, h1) = tested (member profile valid_profiles) _ _ c h in
    let (defaults, found, h2) = >>=-returns (get_profile profile) _ c h1 in
    let (secure, same) = build_from-IsSecure profile defaults raw c h2 in
    (secure, subst (λ p. member p valid_profiles ≡ true) (sym same) known)

abbrev IsServer : ServerSettings → Type 0
IsServer s =
    (member s.transport valid_transports ≡ true) × (member s.log_level valid_log_levels ≡ true)

build_server_settings-IsServer :
    (raw : RawServer) (s : ServerSettings) → build_server_settings raw ≡ returns s → IsServer s
unfolding build_server_settings
build_server_settings-IsServer raw s h =
    let made = server_of raw in
    let (transport, h1) = tested (member made.transport valid_transports) _ _ s h in
    let (log_level, h2) = tested (member made.log_level valid_log_levels) _ _ s h1 in
    subst IsServer (same_value made s h2) (transport, log_level)

-- Every configuration that is built is sound, whatever the file, the environment and the profile
-- have: all size and validation limits are at least 1, so are the three rates where the rate limit
-- is on, and the profile, the level of sanitization, the auth provider and mode, the transport and
-- the log level are among those that the program knows.
pub build_config-IsSound : (raw : Raw) (c : ServerConfig) → build_config raw ≡ returns c → IsSound c
unfolding build_config
build_config-IsSound raw c h =
    let (server, g1, h1) = >>=-returns (build_server_settings raw.server) _ c h in
    let (security, g2, h2) = >>=-returns (build_security_config raw.security) _ c h1 in
    let (transport, log_level) = build_server_settings-IsServer raw.server server g1 in
    let (secure, profile) = build_security_config-IsSecure raw.security security g2 in
    let (rates, sizes, validation, level, auth) = secure in
    subst IsSound (same_value _ c h2)
      (rates, sizes, validation, level, auth, profile, transport, log_level)
