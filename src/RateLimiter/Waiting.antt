-- ===== src/RateLimiter/Waiting.antt =====
-- What `_Bucket.retry_after` promises (packages/fss-mcp/src/fss_mcp/security/rate_limiter.py).
use fss_chassis.Base.{ℕ, ◌<◌, false, ◌≡◌, arith}
use fss_chassis.RateLimiter.Bucket.{Bucket, one_token, has_token, refill, infinite, retry_after}

-- An infinite `retry_after` is true: a bucket that lacks a token and has it never gets one.
pub retry_after-infinite :
    (b : Bucket) (now : ℕ)
    → b.tokens < one_token
    → retry_after b ≡ infinite
    → (has_token now b).0 ≡ false
unfolding has_token refill retry_after
retry_after-infinite b now h e = ground arith
