-- ===== src/RateLimiter.antt =====
-- The rate limiter: packages/fss-mcp/src/fss_mcp/security/rate_limiter.py.
pub mod Bucket
pub mod Waiting
pub mod Limiter
pub mod Raising
pub mod View
pub mod Spec
pub mod Buckets
pub mod Start
pub mod Refinement
pub mod Isolation
pub mod Bound
mod Tests
