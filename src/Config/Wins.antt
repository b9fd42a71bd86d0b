-- ===== src/Config/Wins.antt =====
-- The environment over the file, and the profiles by themselves
-- (packages/fss-mcp/src/fss_mcp/config.py).
use fss_chassis.Base.{
  ℕ, Bool, true, false, Text, text, text_eq, Option, some, [], ◌∷◌, returns, raises, >>=-returns,
  ◌≡◌, refl, ap, sym, subst, inl, inr, Bool-cases, if◌then◌else◌, ◌∙◌,
}
use fss_chassis.Base.Int.{ℤ, pos}
use fss_chassis.Config.{
  RawAuth, RawSecurity, RawServer, RawRateLimits, RateLimits, Raw, AuthConfig, SecurityConfig,
  ServerSettings, ServerConfig, not_positive, get_or, over,
}
use fss_chassis.Config.Build.{
  valid_profiles, valid_auth_providers, valid_auth_modes, valid_transports, valid_log_levels,
  auth_of, build_auth, upper, is_positive, checked_rate_limits, rate_limits_of, server_of,
  build_server_settings, build_rate_limits, build_io_limits, build_validation, build_sanitization,
  build_sections, build_from, build_security_config, build_config, check_positive,
}
use fss_chassis.Config.Built.{same_value, tested}
use fss_chassis.Config.Overrides.{
  Variables, no_variables, given, switch, number, says_yes, apply_env_overrides, only_profile,
  from_profile,
}
use fss_chassis.Config.Profiles.{get_profile, over_auth, over_rate_limits}
use fss_chassis.Config.Started.{All-member}
use fss_chassis.Fit.Verify.{member}

build_auth-value : (raw : RawAuth) (a : AuthConfig) → build_auth raw ≡ returns a → auth_of raw ≡ a
unfolding build_auth
build_auth-value raw a h =
    let made = auth_of raw in
    let (_, h1) = tested (member made.provider valid_auth_providers) _ _ a h in
    let (_, h2) = tested (member made.mode valid_auth_modes) _ _ a h1 in same_value made a h2

build_server_settings-value :
    (raw : RawServer) (s : ServerSettings)
    → build_server_settings raw ≡ returns s
    → server_of raw ≡ s
unfolding build_server_settings
build_server_settings-value raw s h =
    let made = server_of raw in
    let (_, h1) = tested (member made.transport valid_transports) _ _ s h in
    let (_, h2) = tested (member made.log_level valid_log_levels) _ _ s h1 in same_value made s h2

build_rate_limits-value :
    (raw : RawRateLimits) (l : RateLimits)
    → build_rate_limits raw ≡ returns l
    → rate_limits_of raw ≡ l
unfolding build_rate_limits check_positive
build_rate_limits-value raw l h =
    let limits = rate_limits_of raw in
    elim (Bool-cases limits.enabled) [
      | inl on ↦
          let h0 =
            ap (λ b. if b then checked_rate_limits limits else returns limits) (sym on) ∙ h in
          let (_, h1) = tested (is_positive limits.global_rpm) _ _ l h0 in
          let (_, h2) = tested (is_positive limits.per_tool_rpm) _ _ l h1 in
          let (_, h3) = tested (is_positive limits.burst_size) _ _ l h2 in same_value limits l h3
      | inr off ↦
          same_value limits l
            (ap (λ b. if b then checked_rate_limits limits else returns limits) (sym off) ∙ h)
    ]

-- What a security configuration that is built has from the file, over a profile
record IsFrom (profile : Text) (defaults raw : RawSecurity) (c : SecurityConfig) : Type 0 where
  limits_from :
      rate_limits_of (over_rate_limits raw.rate_limits defaults.rate_limits) ≡ c.rate_limits
  auth_from : auth_of (over_auth raw.auth defaults.auth) ≡ c.auth
  profile_from : profile ≡ c.profile
  detail_from :
      get_or (get_or false defaults.detailed_errors) raw.detailed_errors ≡ c.detailed_errors
  window_from : get_or (pos 300) raw.replay_window_seconds ≡ c.replay_window_seconds
  path_from : get_or [] raw.security_log_path ≡ c.security_log_path

build_from-IsFrom :
    (profile : Text) (defaults raw : RawSecurity) (c : SecurityConfig)
    → build_from profile defaults raw ≡ returns c
    → IsFrom profile defaults raw c
unfolding build_from build_sections
build_from-IsFrom profile defaults raw c h =
    let (limits, g, h1) = >>=-returns (build_rate_limits _) _ c h in
    let (_, _, h2) = >>=-returns (build_io_limits _) _ c h1 in
    let (_, _, h3) = >>=-returns (build_validation _) _ c h2 in
    let (_, _, h4) = >>=-returns (build_sanitization _) _ c h3 in
    let (auth, k, h5) = >>=-returns (build_auth _) _ c h4 in
    let same = same_value _ c h5 in
    record {
      limits_from =
          build_rate_limits-value _ limits g ∙ ap (λ (c : SecurityConfig). c.rate_limits) same;
      auth_from = build_auth-value _ auth k ∙ ap (λ (c : SecurityConfig). c.auth) same;
      profile_from = ap (λ (c : SecurityConfig). c.profile) same;
      detail_from = ap (λ (c : SecurityConfig). c.detailed_errors) same;
      window_from = ap (λ (c : SecurityConfig). c.replay_window_seconds) same;
      path_from = ap (λ (c : SecurityConfig). c.security_log_path) same;
    }

build_security_config-IsFrom :
    (raw : RawSecurity) (c : SecurityConfig)
    → build_security_config raw ≡ returns c
    → (defaults : RawSecurity) × IsFrom (get_or (text "strict") raw.profile) defaults raw c
unfolding build_security_config
build_security_config-IsFrom raw c h =
    let profile = get_or (text "strict") raw.profile in
    let (_, h1) = tested (member profile valid_profiles) _ _ c h in
    let (defaults, _, h2) = >>=-returns (get_profile profile) _ c h1 in
    (defaults, build_from-IsFrom profile defaults raw c h2)

-- A variable that is set and not empty is where a built configuration has its value from, whatever
-- the file and the profile say. This is so of each of the twelve variables; that of the replay window
-- counts where it is an integer.
pub apply_env_overrides-wins :
    (parse_int : Text → Option ℤ) (env : Variables) (raw : Raw) (c : ServerConfig)
    → build_config (apply_env_overrides parse_int env raw) ≡ returns c
    → (v : Text) (n : ℤ)
    → (given env.log_level ≡ some v → c.server.log_level ≡ upper v)
      × (given env.security_profile ≡ some v → c.security.profile ≡ v)
      × (given env.auth_token ≡ some v → c.security.auth.token ≡ v)
      × (given env.auth_enabled ≡ some v → c.security.auth.enabled ≡ says_yes v)
      × (given env.auth_provider ≡ some v → c.security.auth.provider ≡ v)
      × (given env.detailed_errors ≡ some v → c.security.detailed_errors ≡ says_yes v)
      × (given env.rate_limit_enabled ≡ some v → c.security.rate_limits.enabled ≡ says_yes v)
      × (given env.auth_mode ≡ some v → c.security.auth.mode ≡ v)
      × (given env.auth_oauth_jwks_url ≡ some v → c.security.auth.oauth_jwks_url ≡ v)
      × (given env.replay_window_seconds ≡ some v
          → parse_int v ≡ some n
          → c.security.replay_window_seconds ≡ n)
      × (given env.security_log_path ≡ some v → c.security.security_log_path ≡ v)
      × (given env.transport ≡ some v → c.server.transport ≡ v)
unfolding build_config apply_env_overrides
apply_env_overrides-wins parse_int env raw c h v n =
    let set = apply_env_overrides parse_int env raw in
    let (server, g1, h1) = >>=-returns (build_server_settings set.server) _ c h in
    let (security, g2, h2) = >>=-returns (build_security_config set.security) _ c h1 in
    let same = same_value _ c h2 in
    let (defaults, from) =
      subst
        (λ s.
          (defaults : RawSecurity) × IsFrom (get_or (text "strict") set.security.profile) defaults
            set.security s)
        (ap (λ (c : ServerConfig). c.security) same)
        (build_security_config-IsFrom set.security security g2) in
    let served =
      build_server_settings-value set.server server g1 ∙ ap (λ (c : ServerConfig). c.server) same in
    let d = defaults.auth in
    let file = raw.security in
    (
      λ e.
          sym (ap (λ s. s.log_level) served)
          ∙ ap (λ o. upper (get_or (text "INFO") (over o raw.server.log_level))) e,
      λ e. sym from.profile_from ∙ ap (λ o. get_or (text "strict") (over o file.profile)) e,
      λ e.
          sym (ap (λ a. a.token) from.auth_from)
          ∙ ap (λ o. get_or [] (over (over o file.auth.token) d.token)) e,
      λ e.
          sym (ap (λ a. a.enabled) from.auth_from)
          ∙ ap (λ o. get_or false (over (over (switch o) file.auth.enabled) d.enabled)) e,
      λ e.
          sym (ap (λ a. a.provider) from.auth_from)
          ∙ ap (λ o. get_or (text "none") (over (over o file.auth.provider) d.provider)) e,
      λ e.
          sym from.detail_from
          ∙ ap
              (λ o.
                get_or (get_or false defaults.detailed_errors)
                  (over (switch o) file.detailed_errors))
              e,
      λ e.
          sym (ap (λ l. l.enabled) from.limits_from)
          ∙ ap
              (λ o.
                get_or true
                  (over (over (switch o) file.rate_limits.enabled) defaults.rate_limits.enabled))
              e,
      λ e.
          sym (ap (λ a. a.mode) from.auth_from)
          ∙ ap (λ o. get_or (text "none") (over (over o file.auth.mode) d.mode)) e,
      λ e.
          sym (ap (λ a. a.oauth_jwks_url) from.auth_from)
          ∙ ap (λ o. get_or [] (over (over o file.auth.oauth_jwks_url) d.oauth_jwks_url)) e,
      λ e k.
          sym from.window_from
          ∙ ap (λ o. get_or (pos 300) (over (number parse_int o) file.replay_window_seconds)) e
          ∙ ap (λ o. get_or (pos 300) (over o file.replay_window_seconds)) k,
      λ e. sym from.path_from ∙ ap (λ o. get_or [] (over o file.security_log_path)) e,
      λ e.
          sym (ap (λ s. s.transport) served)
          ∙ ap (λ o. get_or (text "stdio") (over o raw.server.transport)) e,
    )

-- Each of the three profiles can be used by itself: with no variable set, it builds.
pub from_profile-builds :
    (parse_int : Text → Option ℤ) (profile : Text)
    → member profile valid_profiles ≡ true
    → (c : ServerConfig) × (from_profile parse_int no_variables profile ≡ returns c)
      × (c.security.profile ≡ profile)
      × (c.security.input_sanitization.level ≡ profile)
unfolding from_profile apply_env_overrides build_config build_server_settings build_security_config
    get_profile build_from build_sections build_rate_limits build_io_limits build_validation
    build_sanitization build_auth check_positive
from_profile-builds parse_int profile h =
    All-member
      (λ p.
        (c : ServerConfig) × (from_profile parse_int no_variables p ≡ returns c)
        × (c.security.profile ≡ p)
        × (c.security.input_sanitization.level ≡ p))
      valid_profiles profile
      ((_, refl, refl, refl), ((_, refl, refl, refl), ((_, refl, refl, refl), tt))) h

abbrev permissive_with : Bool → Raw
permissive_with limited =
    let raw = only_profile (some (text "permissive")) in
    record raw {
      security = record raw.security {
        rate_limits = record raw.security.rate_limits { enabled = some limited };
      };
    }

-- The permissive profile has no rates, so that it cannot be built once MCP_RATE_LIMIT_ENABLED turns
-- the limit on, as long as the other variables are not set.
pub from_profile-permissive_limited :
    (parse_int : Text → Option ℤ) (c : ℕ) (s : Text)
    → says_yes (c ∷ s) ≡ true
    → from_profile parse_int
        (record no_variables { rate_limit_enabled = some (c ∷ s) })
        (text "permissive")
      ≡ raises (not_positive (text "global_rpm") (pos 0))
unfolding from_profile apply_env_overrides build_config build_server_settings build_security_config
    get_profile build_from build_sections build_rate_limits check_positive
from_profile-permissive_limited parse_int c s h = ap (λ b. build_config (permissive_with b)) h
