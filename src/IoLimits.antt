-- ===== src/IoLimits.antt =====
-- Size limits of requests and responses: packages/fss-mcp/src/fss_mcp/security/io_limits.py.
pub mod Sizes
mod Tests
use fss_chassis.Base.{
  ℕ, suc, ◌+◌, Bool, true, false, ◌&&◌, Text, text, Option, none, some, List, [], ◌∷◌, length, ltb,
  leb, if◌then◌else◌, Result, returns, raises,
}

-- `bytes | str`
pub data Payload : Type 0 where
  bytes : List ℕ → Payload
  string : Text → Payload

-- IOLimitError, and what `encode` raises for a surrogate
pub data IoError : Type 0 where
  too_large : (code : Text) (size max_size : ℕ) → IoError
  unicode_encode_error : IoError

abbrev pub is_surrogate : ℕ → Bool
is_surrogate c = leb 0xd800 c && leb c 0xdfff

-- How many bytes UTF-8 has for one character
unfoldable pub utf8_width : ℕ → ℕ
utf8_width c = if ltb c 0x80 then 1 else if ltb c 0x800 then 2 else if ltb c 0x10000 then 3 else 4

abbrev add_width : ℕ → Option ℕ → Option ℕ
add_width w none = none
add_width w (some n) = some (w + n)

-- len(s.encode("utf-8"))
unfoldable pub encoded_length : Text → Option ℕ
encoded_length [] = some 0
encoded_length (c ∷ s) =
    if is_surrogate c then none else add_width (utf8_width c) (encoded_length s)

unfoldable pub byte_length : Payload → Option ℕ
byte_length (bytes bs) = some (length bs)
byte_length (string s) = encoded_length s

abbrev pub refuse_above : Text → ℕ → Option ℕ → Result IoError (Unit {0})
refuse_above code max_size none = raises unicode_encode_error
refuse_above code max_size (some size) =
    if ltb max_size size then raises (too_large code size max_size) else returns tt

-- The body that `check_request_size` and `check_response_size` share
unfoldable pub check_size : Text → Payload → ℕ → Result IoError (Unit {0})
check_size code payload max_size = refuse_above code max_size (byte_length payload)

abbrev pub check_request_size : Payload → ℕ → Result IoError (Unit {0})
check_request_size payload max_size = check_size (text "REQUEST_TOO_LARGE") payload max_size

abbrev pub check_response_size : Payload → ℕ → Result IoError (Unit {0})
check_response_size payload max_size = check_size (text "RESPONSE_TOO_LARGE") payload max_size
