-- ===== src/Sanitization.antt =====
-- Input sanitization: packages/fss-mcp/src/fss_mcp/security/sanitization.py.
pub mod Characters
pub mod Traversal
pub mod Nesting
pub mod Clean
pub mod Values
pub mod Spec
pub mod Returned
pub mod Outcome
pub mod Stripped
mod Tests
