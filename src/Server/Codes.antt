-- ===== src/Server/Codes.antt =====
-- Error codes: those of the checks, and what a tool call makes of them
-- (packages/fss-mcp/src/fss_mcp/server.py, packages/fss-core/src/fss_core/errors.py).
use fss_chassis.Base.{Bool, true, ◌||◌, Text, text, Option, some, [], ◌∷◌, is_some, if◌then◌else◌}
use fss_chassis.Auth.{AuthError, authentication_failed, lacks_scopes, unknown_provider}
use fss_chassis.Integrity.Cai.{after_prefix}
use fss_chassis.Integrity.Keys.{lower}
use fss_chassis.IoLimits.{IoError, too_large, unicode_encode_error}
use fss_chassis.Json.{Json, bool, str, Fields, end, field}
use fss_chassis.Pipeline.{
  Refusal, replayed, io_limit, not_authenticated, fit_required, fit_invalid, rate_limited,
  not_sanitized, invalid,
}
use fss_chassis.Provenance.Build.{maybe}
use fss_chassis.Sanitization.Values.{error_code}

-- FSSError
pub record FssError : Type 0 where
  pub error_code : Text
  pub error_message : Text
  pub transaction_id : Option Text
  pub partial_result : Bool
  pub partial_data : Option Json

abbrev partial_fields : Bool → Option Json → Fields
partial_fields true (some v) = field (text "partial_data") v end
partial_fields _ _ = end

unfoldable pub to_dict : FssError → Fields
to_dict e = field (text "error_code") (str e.error_code) (
    field (text "error_message") (str e.error_message) (
      field (text "transaction_id") (maybe e.transaction_id) (
        field (text "partial_result") (bool e.partial_result) (
          field (text "evidentiary_status") (str (text "non-evidentiary"))
            (partial_fields e.partial_result e.partial_data)))))

abbrev auth_code : AuthError → Text
auth_code (authentication_failed _) = text "AUTH_ERROR"
auth_code (lacks_scopes _) = text "AUTH_ERROR"
auth_code (unknown_provider _) = text "UNKNOWN_AUTH_PROVIDER"

-- `code` of an IOLimitError; a UnicodeEncodeError has none, and no step refuses with one.
abbrev pub io_code : IoError → Text
io_code (too_large code _ _) = code
io_code unicode_encode_error = []

-- `code` of the exception that a step raises
abbrev pub refusal_code : Refusal → Text
refusal_code (replayed _) = text "FSS_REPLAY_REJECTED"
refusal_code (io_limit e) = io_code e
refusal_code (not_authenticated e) = auth_code e
refusal_code fit_required = text "FSS_AUTH_DENIED"
refusal_code (fit_invalid _) = text "FSS_AUTH_DENIED"
refusal_code (rate_limited _) = text "RATE_LIMIT_EXCEEDED"
refusal_code (not_sanitized e) = error_code e
refusal_code (invalid _) = text "VALIDATION_ERROR"

-- needle in s
unfoldable pub contains : Text → Text → Bool
contains needle [] = is_some (after_prefix needle [])
contains needle (c ∷ s) =
    let later = contains needle s in if is_some (after_prefix needle (c ∷ s)) then true else later

-- The FSS code, and the stage that the metrics count
abbrev pub first_of : (auth required limited replay sized sanitized : Bool) → Text × Text
first_of auth required limited replay sized sanitized =
    if auth
    then (if required then text "FSS_AUTH_REQUIRED" else text "FSS_AUTH_DENIED", text "auth")
    else if limited
    then (text "FSS_RATE_LIMITED", text "rate_limit")
    else if replay
    then (text "FSS_REPLAY_REJECTED", text "replay")
    else if sized
    then (text "FSS_PARAM_INVALID", text "io_limit")
    else if sanitized
    then (text "FSS_PARAM_INVALID", text "sanitization")
    else (text "FSS_PARAM_INVALID", text "validation")

unfoldable pub map_code : (code message : Text) → Text × Text
map_code code message =
    first_of (contains (text "AUTH") code)
      (contains (text "authentication required") (lower message))
      (contains (text "RATE_LIMIT") code) (contains (text "REPLAY") code)
      (contains (text "IO_LIMIT") code || contains (text "SIZE") code)
      (contains (text "SANIT") code)
