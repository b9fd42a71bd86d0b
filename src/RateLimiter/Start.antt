-- ===== src/RateLimiter/Start.antt =====
-- A new limiter and a reset one (packages/fss-mcp/src/fss_mcp/security/rate_limiter.py).
use fss_chassis.Base.{some_of_is_some, ℕ, true, some, text_eq, pair_eq, ◌≡◌, refl, arith, subst}
use fss_chassis.RateLimiter.Bucket.{none_elapsed, Bucket, IsBucket, level, refill}
use fss_chassis.RateLimiter.Limiter.{RateLimitConfig, RateLimiter, Key, full_bucket, init, reset}
use fss_chassis.RateLimiter.View.{capacity, IsValid, tool_level, global_level, full_bucket-IsBucket}
use fss_chassis.RateLimiter.Spec.{Levels, levels}

-- The limiter that is made for an enabled configuration is valid.
pub init-IsValid : (now : ℕ) (c : RateLimitConfig) → c.enabled ≡ true → IsValid now (init now c)
unfolding init
init-IsValid now c e = record {
  enabled = e;
  has_global = ground arith;
  global = λ g h.
      let same : full_bucket now c.burst_size c.global_rpm ≡ g = ground arith in
      subst (IsBucket now (capacity c) c.global_rpm) same
        (full_bucket-IsBucket now c.burst_size c.global_rpm);
  unique = tt;
  tools = λ key b h. cc;
}

abbrev full_levels : ℕ → RateLimitConfig → Levels
full_levels now c = record { time = now; overall = capacity c; of_tool = λ _. capacity c }

abbrev refilled : ℕ → Bucket → Bucket
refilled now g = record g { tokens = g.capacity; last_refill = now }

refilled-IsBucket :
    {now full rate : ℕ} (g : Bucket)
    → IsBucket now full rate g
    → IsBucket now full rate (refilled now g) × (level now (refilled now g) ≡ full)
unfolding level refill
refilled-IsBucket {now} g v =
    ((omega arith), ground (arith, v.capacity_eq, none_elapsed now g.refill_rate))

reset-global :
    (now : ℕ) (l : RateLimiter) (g : Bucket)
    → l.global_bucket ≡ some g
    → (reset now l).global_bucket ≡ some (refilled now g)
unfolding reset
reset-global now l g e = ground arith

reset-overall :
    (now : ℕ) (l : RateLimiter) (g : Bucket)
    → l.global_bucket ≡ some g
    → level now (refilled now g) ≡ capacity l.config
    → global_level now (reset now l) ≡ capacity l.config
unfolding global_level reset
reset-overall now l g e full = ground arith

reset-of_tool :
    (now : ℕ) (l : RateLimiter) (key : Key) → tool_level now key (reset now l) ≡ capacity l.config
unfolding tool_level reset
reset-of_tool now l key = refl

-- `reset` fills every bucket of a valid limiter and keeps it valid: each later request of any
-- session and tool finds the burst size.
pub reset_lem :
    (now : ℕ) (l : RateLimiter)
    → IsValid now l
    → IsValid now (reset now l) × (levels now (reset now l) ≡ full_levels now l.config)
unfolding levels
reset_lem now l v =
    let (g, eg) = some_of_is_some l.global_bucket v.has_global in
    let (valid, full) = refilled-IsBucket g (v.global g eg) in
    let found = reset-global now l g eg in
    (
      record {
        enabled = unfold reset in v.enabled;
        has_global = rw found;
        global = λ g' e.
            let same : refilled now g ≡ g' = ground (arith, found, e) in
            unfold reset in subst (IsBucket now (capacity l.config) l.config.global_rpm) same valid;
        unique = unfold reset in tt;
        tools = λ key b e. unfold reset in cc e;
      },
      λ i. record {
        time = now;
        overall = reset-overall now l g eg full i;
        of_tool = λ key. reset-of_tool now l key i;
      },
    )
