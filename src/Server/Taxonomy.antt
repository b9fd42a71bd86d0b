-- ===== src/Server/Taxonomy.antt =====
-- Which FSS code and which metrics stage a refusal has (packages/fss-mcp/src/fss_mcp/server.py).
use fss_chassis.Base.{Text, text, if◌then◌else◌, ◌≡◌, refl, ap}
use fss_chassis.Auth.{authentication_failed, lacks_scopes, unknown_provider}
use fss_chassis.Integrity.Keys.{lower}
use fss_chassis.Pipeline.{
  Refusal, replayed, io_limit, not_authenticated, fit_required, fit_invalid, rate_limited,
  not_sanitized, invalid,
}
use fss_chassis.Sanitization.Values.{unknown_level, depth_exceeded, key_collision}
use fss_chassis.Server.Codes.{io_code, refusal_code, contains, map_code}

-- Refusals as the steps make them: the size check of a request has one code.
abbrev pub IsRaised : Refusal → Type 0
IsRaised (io_limit e) = io_code e ≡ text "REQUEST_TOO_LARGE"
IsRaised _ = Unit

abbrev pub asks_to_authenticate : Text → Text
asks_to_authenticate message =
    if contains (text "authentication required") (lower message)
    then text "FSS_AUTH_REQUIRED"
    else text "FSS_AUTH_DENIED"

-- By the step that refused: replay, size, authentication, FIT, rate limit, sanitization, validation
abbrev pub expected : Text → Refusal → Text × Text
expected message (replayed _) = (text "FSS_REPLAY_REJECTED", text "replay")
expected message (io_limit _) = (text "FSS_PARAM_INVALID", text "validation")
expected message (not_authenticated _) = (asks_to_authenticate message, text "auth")
expected message fit_required = (asks_to_authenticate message, text "auth")
expected message (fit_invalid _) = (asks_to_authenticate message, text "auth")
expected message (rate_limited _) = (text "FSS_RATE_LIMITED", text "rate_limit")
expected message (not_sanitized (key_collision _ _ _)) =
    (text "FSS_PARAM_INVALID", text "validation")
expected message (not_sanitized _) = (text "FSS_PARAM_INVALID", text "sanitization")
expected message (invalid _) = (text "FSS_PARAM_INVALID", text "validation")

-- The search for parts of an error code gives each refusal of the pipeline the code and the stage of
-- the step that made it, with three exceptions: a refusal of the FIT has those of authentication,
-- and a request over the size limit and two keys that collide have those of validation. An
-- authentication refusal has FSS_AUTH_REQUIRED if its message asks to authenticate, and else
-- FSS_AUTH_DENIED.
pub map_code-refusal :
    (message : Text) (r : Refusal)
    → IsRaised r
    → map_code (refusal_code r) message ≡ expected message r
unfolding map_code contains
map_code-refusal message (replayed _) h = refl
map_code-refusal message (io_limit e) h = ap (λ c. map_code c message) h
map_code-refusal message (not_authenticated (authentication_failed _)) h = refl
map_code-refusal message (not_authenticated (lacks_scopes _)) h = refl
map_code-refusal message (not_authenticated (unknown_provider _)) h = refl
map_code-refusal message fit_required h = refl
map_code-refusal message (fit_invalid _) h = refl
map_code-refusal message (rate_limited _) h = refl
map_code-refusal message (not_sanitized (key_collision _ _ _)) h = refl
map_code-refusal message (not_sanitized (unknown_level _)) h = refl
map_code-refusal message (not_sanitized depth_exceeded) h = refl
map_code-refusal message (invalid _) h = refl
