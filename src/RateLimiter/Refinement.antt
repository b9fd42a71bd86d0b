-- ===== src/RateLimiter/Refinement.antt =====
-- `RateLimiter.check` does what the specification does
-- (packages/fss-mcp/src/fss_mcp/security/rate_limiter.py).
use fss_chassis.Base.{
  some_of_is_some, ℕ, ◌≤◌, true, Option, some, Text, text_eq, pair_eq, ◌≡◌, subst, ◌∙◌, arith,
}
use fss_chassis.Base.Dict.{lookup}
use fss_chassis.RateLimiter.Bucket.{Bucket}
use fss_chassis.RateLimiter.Limiter.{
  RateLimiter, Key, ensure_bucket, evict_stale, check_buckets, check_key, check, or_empty,
}
use fss_chassis.RateLimiter.View.{
  global_level, IsValid, IsValid-later, ensure_bucket-IsValid, tool_level-ensure_bucket,
  ensure_bucket-found,
}
use fss_chassis.RateLimiter.Spec.{admit, step, levels, decision}
use fss_chassis.RateLimiter.Buckets.{
  levels_later, check_buckets-refines, check_buckets-IsValid, config-check_buckets,
}

check_enabled :
    (now : ℕ) (session_id : Option Text) (tool_name : Text) (l : RateLimiter)
    → l.config.enabled ≡ true
    → check now session_id tool_name l
      ≡ check_key now
          (or_empty session_id, tool_name)
          (ensure_bucket now (or_empty session_id, tool_name) l)
unfolding check
check_enabled now session_id tool_name l e = ground arith

check_key_lem :
    (now : ℕ) (key : Key) (g b : Bucket) (l : RateLimiter)
    → l.global_bucket ≡ some g
    → lookup key l.tool_buckets ≡ some b
    → check_key now key l ≡ check_buckets now key g b l
unfolding check_key
check_key_lem now key g b l eg eb = ground arith

-- A whole check, from the limiter as an earlier time `t` left it.
module _ (t now : ℕ) (session_id : Option Text) (tool_name : Text) (l : RateLimiter)
    (v : IsValid t l) (h : t ≤ now) where
  abbrev key_of : Key
  key_of = (or_empty session_id, tool_name)

  abbrev ready : RateLimiter
  ready = ensure_bucket now key_of l

  now-IsValid : IsValid now l
  now-IsValid = IsValid-later v h

  ready-IsValid : IsValid now ready
  ready-IsValid = ensure_bucket-IsValid now-IsValid key_of

  global_level-ensure_bucket : global_level now ready ≡ global_level now l
  unfolding global_level ensure_bucket evict_stale
  global_level-ensure_bucket = ground arith

  config-ensure_bucket : ready.config ≡ l.config
  unfolding ensure_bucket evict_stale
  config-ensure_bucket = ground arith

  levels-ensure_bucket : levels now ready ≡ levels now l
  unfolding levels
  levels-ensure_bucket = λ i. record {
    time = now;
    overall = global_level-ensure_bucket i;
    of_tool = λ other. tool_level-ensure_bucket now-IsValid key_of other i;
  }

  -- The check runs into neither error.
  check-eq :
      (g : Bucket) × (b : Bucket) × (ready.global_bucket ≡ some g)
      × (lookup key_of ready.tool_buckets ≡ some b)
      × (check now session_id tool_name l ≡ check_buckets now key_of g b ready)
  check-eq =
      let (b, eb) = ensure_bucket-found now-IsValid key_of in
      let (g, eg) = some_of_is_some ready.global_bucket ready-IsValid.has_global in
      (
        g,
        b,
        eg,
        eb,
        check_enabled now session_id tool_name l v.enabled
            ∙ check_key_lem now key_of g b ready eg eb,
      )

-- Reading the clock at `now`, no earlier than the limiter's last use, `check` returns, its decision
-- is that of the specification's step, and the levels that it leaves are those of the step.
pub check-refines :
    (t now : ℕ) (session_id : Option Text) (tool_name : Text) (l : RateLimiter)
    → IsValid t l
    → t ≤ now
    → (decision (check now session_id tool_name l).0
        ≡ some (step l.config now (or_empty session_id, tool_name) (levels t l)).0)
      × (levels now (check now session_id tool_name l).1
          ≡ (step l.config now (or_empty session_id, tool_name) (levels t l)).1)
unfolding step
check-refines t now session_id tool_name l v h =
    let (g, b, eg, eb, e) = check-eq t now session_id tool_name l v h in
    let key : Key = (or_empty session_id, tool_name) in
    let valid = ready-IsValid t now session_id tool_name l v h in
    let l' = ready t now session_id tool_name l v h in
    rw e (
      subst
        (λ s.
          (decision (check_buckets now key g b l').0 ≡ some (admit key s).0)
          × (levels now (check_buckets now key g b l').1 ≡ (admit key s).1))
        (levels-ensure_bucket t now session_id tool_name l v h ∙ levels_later v h)
        (check_buckets-refines now key g b l' valid eg eb))

-- `check` keeps the limiter valid and its configuration as it is.
pub check-IsValid :
    (t now : ℕ) (session_id : Option Text) (tool_name : Text) (l : RateLimiter)
    → IsValid t l
    → t ≤ now
    → IsValid now (check now session_id tool_name l).1
      × ((check now session_id tool_name l).1.config ≡ l.config)
check-IsValid t now session_id tool_name l v h =
    let (g, b, eg, eb, e) = check-eq t now session_id tool_name l v h in
    let key : Key = (or_empty session_id, tool_name) in
    let valid = ready-IsValid t now session_id tool_name l v h in
    let l' = ready t now session_id tool_name l v h in
    rw e (
      check_buckets-IsValid now key g b l' valid eg eb,
      config-check_buckets now key g b l' valid eg eb
          ∙ config-ensure_bucket t now session_id tool_name l v h,
    )
