-- ===== src/RateLimiter/Spec.antt =====
-- What the limiter promises, with no dictionary, no lazily made bucket and no eviction: a level for
-- all requests and one for every key, each of which rises with time up to the burst size, and a
-- request that takes one token from both or nothing
-- (packages/fss-mcp/src/fss_mcp/security/rate_limiter.py).
use fss_chassis.Base.{
  ℕ, ◌+◌, ◌-◌, ◌*◌, min, Bool, true, false, Option, none, some, leb, ◌&&◌, if◌then◌else◌, ◌==◌,
  text_eq, pair_eq,
}
use fss_chassis.RateLimiter.Bucket.{one_token}
use fss_chassis.RateLimiter.Limiter.{
  RateLimitConfig, RateLimiter, Key, Outcome, returns, raises_key_error, raises_runtime_error,
}
use fss_chassis.RateLimiter.View.{capacity, tool_level, global_level}

pub record Levels : Type 0 where
  pub time : ℕ
  pub overall : ℕ
  pub of_tool : Key → ℕ

abbrev pub rise : ℕ → ℕ → ℕ → ℕ → ℕ
rise full elapsed rpm tokens = min full (tokens + elapsed * rpm)

unfoldable pub advance : RateLimitConfig → ℕ → Levels → Levels
advance c now s = record {
  time = now;
  overall = rise (capacity c) (now - s.time) c.global_rpm s.overall;
  of_tool = λ key. rise (capacity c) (now - s.time) c.per_tool_rpm (s.of_tool key);
}

-- Whether the request passes, and the levels after it.
unfoldable pub admit : Key → Levels → Bool × Levels
admit key s =
    if leb one_token s.overall && leb one_token (s.of_tool key)
    then (
      true,
      record s {
        overall = s.overall - one_token;
        of_tool = λ other. if key == other then s.of_tool other - one_token else s.of_tool other;
      },
    )
    else (false, s)

unfoldable pub step : RateLimitConfig → ℕ → Key → Levels → Bool × Levels
step c now key s = admit key (advance c now s)

-- The levels that a limiter stands for at a time.
unfoldable pub levels : ℕ → RateLimiter → Levels
levels now l = record {
  time = now;
  overall = global_level now l;
  of_tool = λ key. tool_level now key l;
}

-- The decision of a check that returns.
abbrev pub decision : Outcome → Option Bool
decision (returns r) = some r.allowed
decision raises_key_error = none
decision raises_runtime_error = none
