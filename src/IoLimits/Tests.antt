-- ===== src/IoLimits/Tests.antt =====
-- Runs of the size limits, and their theorems at concrete payloads
-- (packages/fss-mcp/src/fss_mcp/security/io_limits.py).
use fss_chassis.Base.{text, some, raises, ◌≡◌, refl}
use fss_chassis.IoLimits.{
  string, utf8_width, encoded_length, byte_length, check_size, check_request_size, too_large,
}

snowman : encoded_length (text "a☃") ≡ some 4
unfolding encoded_length utf8_width
snowman = refl

request_refused :
    check_request_size (string (text "a☃")) 3 ≡ raises (too_large (text "REQUEST_TOO_LARGE") 4 3)
unfolding check_size byte_length encoded_length utf8_width
request_refused = refl
