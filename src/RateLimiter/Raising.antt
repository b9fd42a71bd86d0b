-- ===== src/RateLimiter/Raising.antt =====
-- `check_rate_limit`, which raises what `check` denies
-- (packages/fss-mcp/src/fss_mcp/security/rate_limiter.py).
use fss_chassis.Base.{
  ℕ, true, Text, Option, Result, returns, raises, if◌then◌else◌, ◌≡◌, refl, ◌↔◌, inl, inr,
  Bool-cases, arith,
}
use fss_chassis.RateLimiter.Bucket.{Wait}
use fss_chassis.RateLimiter.Limiter
use fss_chassis.RateLimiter.Limiter.{Reason, RateLimitResult, RateLimiter, Outcome}

-- RateLimitError, and what `check` raises itself
pub data CheckError : Type 0 where
  rate_limit_error : Reason → Wait → CheckError
  key_error : CheckError
  runtime_error : CheckError

abbrev pub raise_denied : Outcome → Result CheckError (Unit {0})
raise_denied (Outcome.returns r) =
    if r.allowed then returns tt else raises (rate_limit_error r.reason r.retry_after)
raise_denied Outcome.raises_key_error = raises key_error
raise_denied Outcome.raises_runtime_error = raises runtime_error

unfoldable pub check_rate_limit :
    ℕ → Option Text → Text → RateLimiter → Result CheckError (Unit {0}) × RateLimiter
check_rate_limit now session_id tool_name limiter =
    let (outcome, after) = Limiter.check now session_id tool_name limiter in
    (raise_denied outcome, after)

raise_denied_iff :
    (o : Outcome)
    → (raise_denied o ≡ returns tt)
      ↔ ((r : RateLimitResult) × (o ≡ Outcome.returns r) × (r.allowed ≡ true))
raise_denied_iff (Outcome.returns r) = elim (Bool-cases r.allowed) [
  | inl yes_allowed ↦ (λ h. (r, refl, yes_allowed), λ h. rw yes_allowed refl)
  | inr no_token ↦ (
    λ h. absurd (ground (arith, no_token, h)),
    λ h. let same : h.0 ≡ r = cc (h.1) in absurd (ground (arith, no_token, same, h.2)),
  )
]
raise_denied_iff Outcome.raises_key_error = (λ h. cc h, λ h. cc (h.1))
raise_denied_iff Outcome.raises_runtime_error = (λ h. cc h, λ h. cc (h.1))

-- The wrapper returns exactly if the check returns a result that allows.
pub check_rate_limit_iff :
    (now : ℕ) (session_id : Option Text) (tool_name : Text) (limiter : RateLimiter)
    → ((check_rate_limit now session_id tool_name limiter).0 ≡ returns tt) ↔ (
        (r : RateLimitResult) × ((Limiter.check now session_id tool_name limiter).0
          ≡ Outcome.returns r)
        × (r.allowed ≡ true))
unfolding check_rate_limit
check_rate_limit_iff now session_id tool_name limiter =
    raise_denied_iff (Limiter.check now session_id tool_name limiter).0
