-- ===== src/Provenance.antt =====
-- Provenance records: packages/fss-core/src/fss_core/provenance.py, over the context variables of
-- packages/fss-core/src/fss_core/fss_context.py.
pub mod Context
pub mod Build
pub mod Status
mod Tests
use fss_chassis.Base.{Text, Option}
use fss_chassis.Integrity.{Bytes, Hashes, Crypto}

-- The environment variables that a record is built from; `none` is one that is not set. `fss_core_version` is the
-- version of the package.
pub record Settings : Type 0 where
  pub fss_provenance : Option Text
  pub fss_metadata : Option Text
  pub fss_level : Option Text
  pub fss_server_version : Option Text
  pub image_digest : Option Text
  pub mcp_invocation_type : Option Text
  pub fss_core_version : Text
  pub hashes : Hashes
  pub crypto : Crypto
