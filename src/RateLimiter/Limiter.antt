-- ===== src/RateLimiter/Limiter.antt =====
-- `RateLimitConfig` of packages/fss-mcp/src/fss_mcp/config.py, and `RateLimitResult`,
-- `RateLimiter` and `check_rate_limit` of packages/fss-mcp/src/fss_mcp/security/rate_limiter.py.
-- The clock's reading and the session id of the context come as arguments. Both buckets of a check
-- are objects that the limiter shares, so what happens to them is written back.
use fss_chassis.Base.{
  ℕ, ◌-◌, ◌*◌, Text, text_eq, pair_eq, Bool, true, false, not, Option, none, some, ltb,
  if◌then◌else◌, remove_if, [],
}
use fss_chassis.Base.Dict.{Dict, lookup, has, insert}
use fss_chassis.RateLimiter.Bucket.{Bucket, one_token, has_token, consume, Wait, ticks, retry_after}

pub record RateLimitConfig : Type 0 where
  pub enabled : Bool
  pub global_rpm : ℕ
  pub per_tool_rpm : ℕ
  pub burst_size : ℕ

-- The formatted reasons, with what they show.
pub data Reason : Type 0 where
  no_reason : Reason
  global_exceeded : Wait → Reason
  tool_exceeded : (tool_name : Text) → Wait → Reason

pub record RateLimitResult : Type 0 where
  pub allowed : Bool
  pub retry_after : Wait
  pub reason : Reason

abbrev pub ok : RateLimitResult
ok = record { allowed = true; retry_after = ticks 0 1; reason = no_reason }

-- (session_id, tool_name)
abbrev pub Key : Type 0
Key = Text × Text

pub record RateLimiter : Type 0 where
  pub config : RateLimitConfig
  pub global_bucket : Option Bucket
  pub tool_buckets : Dict Key Bucket

-- What `check` returns or raises.
pub data Outcome : Type 0 where
  returns : RateLimitResult → Outcome
  raises_key_error : Outcome
  raises_runtime_error : Outcome

-- `_Bucket(...)` with its tokens at the burst size.
abbrev pub full_bucket : ℕ → ℕ → ℕ → Bucket
full_bucket now burst_size rpm = record {
  tokens = burst_size * one_token;
  last_refill = now;
  capacity = burst_size * one_token;
  refill_rate = rpm;
}

-- RateLimiter.__init__
unfoldable pub init : ℕ → RateLimitConfig → RateLimiter
init now config = record {
  config = config;
  global_bucket =
      if config.enabled then some (full_bucket now config.burst_size config.global_rpm) else none;
  tool_buckets = [];
}

-- The test of `_evict_stale`, multiplied by the refill rate.
unfoldable pub is_stale : ℕ → Key × Bucket → Bool
is_stale now (key, b) =
    if ltb 0 b.refill_rate then ltb b.capacity ((now - b.last_refill) * b.refill_rate) else false

unfoldable pub evict_stale : ℕ → RateLimiter → RateLimiter
evict_stale now l = record l { tool_buckets = remove_if (is_stale now) l.tool_buckets }

-- The bucket of a new key, and the eviction that comes with it.
unfoldable pub ensure_bucket : ℕ → Key → RateLimiter → RateLimiter
ensure_bucket now key l =
    if has key l.tool_buckets
    then l
    else evict_stale now (record l {
      tool_buckets =
          insert key (full_bucket now l.config.burst_size l.config.per_tool_rpm) l.tool_buckets;
    })

abbrev pub denied : Wait → Reason → RateLimitResult
denied wait reason = record { allowed = false; retry_after = wait; reason = reason }

abbrev pub put_buckets : Key → Bucket → Bucket → RateLimiter → RateLimiter
put_buckets key g b l = record l {
  global_bucket = some g;
  tool_buckets = insert key b l.tool_buckets;
}

-- The part of `check` that has both buckets at hand.
unfoldable pub check_buckets : ℕ → Key → Bucket → Bucket → RateLimiter → Outcome × RateLimiter
check_buckets now key g b l =
    let (global_ok, g') = has_token now g in
    let (tool_ok, b') = has_token now b in
    if not global_ok
    then (
      returns (denied (retry_after g') (global_exceeded (retry_after g'))),
      put_buckets key g' b l,
    )
    else if not tool_ok
    then (
      returns (denied (retry_after b') (tool_exceeded key.1 (retry_after b'))),
      put_buckets key g' b' l,
    )
    else (returns ok, put_buckets key (consume g').1 (consume b').1 l)

-- RateLimiter.check, once the bucket of the key is there
unfoldable pub check_key : ℕ → Key → RateLimiter → Outcome × RateLimiter
check_key now key l = elim (lookup key l.tool_buckets) [
  | none ↦ (raises_key_error, l)
  | some b ↦ elim l.global_bucket [
    | none ↦ (raises_runtime_error, l)
    | some g ↦ check_buckets now key g b l
  ]
]

-- `fss_session_id.get() or ""`
abbrev pub or_empty : Option Text → Text
or_empty none = []
or_empty (some s) = s

unfoldable pub check : ℕ → Option Text → Text → RateLimiter → Outcome × RateLimiter
check now session_id tool_name l =
    let key : Key = (or_empty session_id, tool_name) in
    if not l.config.enabled then (returns ok, l) else check_key now key (ensure_bucket now key l)

unfoldable pub reset : ℕ → RateLimiter → RateLimiter
reset now l = record l {
  global_bucket = elim l.global_bucket [
    | none ↦ none
    | some g ↦ some (record g { tokens = g.capacity; last_refill = now })
  ];
  tool_buckets = [];
}
