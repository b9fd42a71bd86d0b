-- ===== src/RateLimiter/Tests.antt =====
-- The rate limiter on concrete requests (packages/fss-mcp/src/fss_mcp/security/rate_limiter.py).
use fss_chassis.Base.{
  ◌+◌, ◌*◌, ◌≤◌, ◌-◌, Text, text, true, false, none, some, List, [], ◌∷◌, ◌≡◌, ◌≢◌, refl, arith,
  text_eq, pair_eq, pair_same_iff,
}
use fss_chassis.RateLimiter.Bucket.{Bucket, one_token, refill, has_token, consume, retry_after}
use fss_chassis.RateLimiter.Limiter.{
  RateLimitConfig, RateLimiter, Key, init, check, check_key, check_buckets, ensure_bucket,
  evict_stale, is_stale,
}
use fss_chassis.RateLimiter.View.{IsValid, tool_level}
use fss_chassis.RateLimiter.Spec.{decision, levels, step}
use fss_chassis.RateLimiter.Refinement.{check-refines, check-IsValid}
use fss_chassis.RateLimiter.Start.{init-IsValid}
use fss_chassis.RateLimiter.Isolation.{check-denied, check-isolated}
use fss_chassis.RateLimiter.Bound.{Request, allowed_where, global_bound}

-- The limits of the strict profile, with a burst of one.
abbrev config : RateLimitConfig
config = record { enabled = true; global_rpm = 60; per_tool_rpm = 30; burst_size = 1 }

abbrev fresh : RateLimiter
fresh = init 0 config

fresh-IsValid : IsValid 0 fresh
fresh-IsValid = init-IsValid 0 config refl

abbrev session : Text
session = text "s1"

abbrev search_tool : Text
search_tool = text "search"

-- A second request at once is denied, and one two seconds later is allowed.
abbrev requests : List Request
requests =
    record { at = 5; session_id = some session; tool_name = search_tool }
    ∷ record { at = 5; session_id = some session; tool_name = search_tool }
    ∷ record { at = 2_000_000_005; session_id = none; tool_name = search_tool }
    ∷ []

limiter_runs : Unit {0}
unfolding init check check_key check_buckets ensure_bucket evict_stale is_stale has_token consume
    refill retry_after
limiter_runs = tt

two_allowed : allowed_where (λ _. true) requests fresh ≡ 2
unfolding allowed_where limiter_runs
two_allowed = refl

abbrev used : RateLimiter
used = (check 5 (some session) search_tool fresh).1

denied_at_once : decision (check 5 (some session) search_tool used).0 ≡ some false
unfolding limiter_runs
denied_at_once = refl

used-IsValid : IsValid 5 used
used-IsValid = (check-IsValid 0 5 (some session) search_tool fresh fresh-IsValid (omega arith)).0

abbrev drained : Bucket
drained = record { tokens = 0; last_refill = 0; capacity = 600_000_000_000; refill_rate = 60 }

abbrev frozen : Bucket
frozen = record drained { refill_rate = 0 }

check-refines_example :
    (decision (check 5 (some session) search_tool fresh).0
      ≡ some (step config 5 (session, search_tool) (levels 0 fresh)).0)
    × (levels 5 (check 5 (some session) search_tool fresh).1
        ≡ (step config 5 (session, search_tool) (levels 0 fresh)).1)
unfolding init
check-refines_example =
    check-refines 0 5 (some session) search_tool fresh fresh-IsValid (omega arith)

check-IsValid_example :
    IsValid 5 (check 5 (some session) search_tool fresh).1
    × ((check 5 (some session) search_tool fresh).1.config ≡ fresh.config)
check-IsValid_example =
    check-IsValid 0 5 (some session) search_tool fresh fresh-IsValid (omega arith)

check-denied_example : levels 5 (check 5 (some session) search_tool used).1 ≡ levels 5 used
check-denied_example =
    check-denied 5 5 (some session) search_tool used used-IsValid (omega arith) denied_at_once

abbrev other_key : Key
other_key = (text "s2", search_tool)

keys_differ : ◌≢◌ {A = Key} (session, search_tool) other_key
keys_differ = ground (arith, pair_same_iff {A = Text} {B = Text} (session, search_tool) other_key)

check-isolated_example :
    tool_level 5 other_key (check 5 (some session) search_tool used).1 ≡ tool_level 5 other_key used
check-isolated_example =
    check-isolated 5 5 (some session) search_tool other_key used used-IsValid (omega arith)
      keys_differ

global_bound_example :
    allowed_where (λ _. true) requests fresh * one_token ≤ 1 * one_token + (2_000_000_005 - 0) * 60
unfolding init
global_bound_example = global_bound 0 requests fresh fresh-IsValid (omega arith)
