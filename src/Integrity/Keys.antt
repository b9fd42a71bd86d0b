-- ===== src/Integrity/Keys.antt =====
-- Signing keys: `_compute_key_id`, `ensure_signing_key_pair` and `load_signing_key`
-- (packages/fss-core/src/fss_core/integrity.py). What evidentiary mode changes is a warning, which
-- is left out; `fresh` is the key that `generate` would give.
use fss_chassis.Base.{
  ℕ, zero, suc, ◌+◌, ◌-◌, ◌*◌, ◌/◌, ◌%◌, Bool, not, ◌&&◌, Text, text, text_eq, ◌==◌, Option, none,
  some, [], ◌∷◌, ltb, if◌then◌else◌, map, leb,
}
use fss_chassis.Integrity.{Bytes, Hashes, Crypto}

-- The alphabet of base64.urlsafe_b64encode
unfoldable pub base64_char : ℕ → ℕ
base64_char v =
    if ltb v 26
    then b'A' + v
    else if ltb v 52
    then b'a' + (v - 26)
    else if ltb v 62
    then b'0' + (v - 52)
    else if ltb v 63
    then b'-'
    else b'_'

-- base64.urlsafe_b64encode(bytes).rstrip(b"=")
unfoldable pub base64url : Bytes → Text
base64url [] = []
base64url (a ∷ []) = base64_char (a / 4) ∷ base64_char (a % 4 * 16) ∷ []
base64url (a ∷ b ∷ []) =
    base64_char (a / 4) ∷ base64_char (a % 4 * 16 + b / 16) ∷ base64_char (b % 16 * 4) ∷ []
base64url (a ∷ b ∷ c ∷ s) =
    base64_char (a / 4)
    ∷ base64_char (a % 4 * 16 + b / 16)
    ∷ base64_char (b % 16 * 4 + c / 64)
    ∷ base64_char (c % 64)
    ∷ base64url s

unfoldable pub compute_key_id : Hashes → Crypto → Bytes → Text
compute_key_id hashes crypto private_key =
    base64url (hashes.sha256_digest (crypto.public_raw private_key))

-- How writing a file and setting its mode goes: no file is made; the file is made, and an OSError
-- comes after some bytes; `chmod` raises; all is done.
pub data Write : Type 0 where
  refused : Write
  cut_off : ℕ → Write
  not_chmoded : Write
  done : Write

abbrev take : ℕ → Bytes → Bytes
take zero bytes = []
take (suc n) [] = []
take (suc n) (b ∷ bytes) = b ∷ take n bytes

-- The file that is left
abbrev pub left : Write → Bytes → Option Bytes
left refused bytes = none
left (cut_off n) bytes = some (take n bytes)
left not_chmoded bytes = some bytes
left done bytes = some bytes

abbrev pub key_if_done : Write → Bytes → Option Bytes
key_if_done done key = some key
key_if_done _ key = none

-- What the key directory holds, and how writing its two files would go.
pub record KeyDir : Type 0 where
  pub priv_pem : Option Bytes
  pub pub_pem : Option Bytes
  pub priv_write : Write
  pub pub_write : Write

-- What is written before an OSError stays.
abbrev pub written : Crypto → Bytes → KeyDir → Write → Write → Option Bytes × KeyDir
written crypto key d done pub_write = (
  key_if_done pub_write key,
  record d {
    priv_pem = some (crypto.private_pem key);
    pub_pem = left pub_write (crypto.public_pem key);
  },
)
written crypto key d priv_write pub_write =
    (none, record d { priv_pem = left priv_write (crypto.private_pem key) })

abbrev pub write_pair : Crypto → Bytes → KeyDir → Option Bytes × KeyDir
write_pair crypto key d = written crypto key d d.priv_write d.pub_write

-- An exception while loading is logged, and gives None.
abbrev pub by_files : Crypto → Bytes → KeyDir → Option Bytes → Option Bytes → Option Bytes × KeyDir
by_files crypto fresh d (some priv) (some pub_half) = (crypto.load_pem priv, d)
by_files crypto fresh d (some priv) none = (none, d)
by_files crypto fresh d none (some pub_half) = (none, d)
by_files crypto fresh d none none = write_pair crypto fresh d

unfoldable pub ensure_signing_key_pair : Crypto → Bool → Bytes → KeyDir → Option Bytes × KeyDir
ensure_signing_key_pair crypto available fresh d =
    if not available then (none, d) else by_files crypto fresh d d.priv_pem d.pub_pem

abbrev pub load : Crypto → Option Bytes → Option Bytes
load crypto none = none
load crypto (some pem) = crypto.load_pem pem

-- FSS_SIGNING, FSS_SIGNING_KEY_PATH and FSS_SIGNING_KEY_B64, empty where they are not set; `file` is
-- what the path leads to, if it can be read.
pub record SigningSettings : Type 0 where
  pub signing : Text
  pub key_path : Text
  pub file : Option Bytes
  pub key_base64 : Text

-- str.lower on ASCII letters, which are all that the texts compared with hold
abbrev pub lower : Text → Text
lower s = map (λ c. if leb b'A' c && leb c b'Z' then c + 32 else c) s

unfoldable pub load_signing_key :
    Crypto → Bool → Bytes → SigningSettings → KeyDir → Option Bytes × KeyDir
load_signing_key crypto available fresh env d =
    if lower env.signing == text "false"
    then (none, d)
    else if not available
    then (none, d)
    else if not (env.key_path == [])
    then (load crypto env.file, d)
    else if not (env.key_base64 == [])
    then (crypto.load_base64 env.key_base64, d)
    else ensure_signing_key_pair crypto available fresh d
