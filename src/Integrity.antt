-- ===== src/Integrity.antt =====
-- Content-addressed identifiers, signing keys and signatures:
-- packages/fss-core/src/fss_core/integrity.py.
-- Bytes are numbers below 256. hashlib, the canonical form of JSON (`jcs.canonicalize`, or the
-- `json.dumps` that stands in for it), PEM and Ed25519 are parameters.
pub mod Cai
pub mod Format
pub mod Keys
pub mod KeyStore
pub mod Signing
pub mod Signed
mod Tests
use fss_chassis.Base.{ℕ, Text, List, Option}
use fss_chassis.Json.{Fields}

abbrev pub Bytes : Type 0
Bytes = List ℕ

-- `hashlib.new(name, data).hexdigest()`, and `digest()` of SHA-256
pub record Hashes : Type 0 where
  pub hexdigest : Text → Bytes → Text
  pub sha256_digest : Bytes → Bytes

-- An Ed25519 private key is its serialization.
pub record Crypto : Type 0 where
  -- the 32 raw bytes of the public key, and its PEM form
  pub public_raw : Bytes → Bytes
  pub public_pem : Bytes → Bytes
  -- the PEM form of a private key, and load_pem_private_key, which can raise
  pub private_pem : Bytes → Bytes
  pub load_pem : Bytes → Option Bytes
  -- base64.b64decode and from_private_bytes, either of which can raise
  pub load_base64 : Text → Option Bytes
  pub sign : Bytes → Bytes → Bytes
  pub canonicalize : Fields → Bytes
