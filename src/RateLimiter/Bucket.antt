-- ===== src/RateLimiter/Bucket.antt =====
-- `_Bucket` of packages/fss-mcp/src/fss_mcp/security/rate_limiter.py.
-- A token count is a float there; here it is an exact number of parts, `one_token` of which make
-- one token. Time counts ticks of the monotonic clock. A rate of `rpm` requests a minute adds
-- `rpm / 60` tokens a second, which is exactly `rpm` parts a tick.
use fss_chassis.Base.{
  ℕ, ◌+◌, ◌-◌, ◌*◌, ◌≤◌, min, Bool, true, false, ◌≡◌, sym, arith, leb, if◌then◌else◌,
}

abbrev pub ticks_per_second : ℕ
ticks_per_second = 1_000_000_000

abbrev pub one_token : ℕ
one_token = 60 * ticks_per_second

pub record Bucket : Type 0 where
  pub tokens : ℕ
  pub last_refill : ℕ
  pub capacity : ℕ
  pub refill_rate : ℕ

unfoldable pub refill : ℕ → Bucket → Bucket
refill now b =
    let elapsed = now - b.last_refill in
    record b { tokens = min b.capacity (b.tokens + elapsed * b.refill_rate); last_refill = now }

-- The answer, and the refilled bucket.
unfoldable pub has_token : ℕ → Bucket → Bool × Bucket
has_token now b = (leb one_token (refill now b).tokens, refill now b)

unfoldable pub consume : Bucket → Bool × Bucket
consume b =
    if leb one_token b.tokens
    then (true, record b { tokens = b.tokens - one_token })
    else (false, b)

-- A float of seconds, kept as the fraction that it is computed from: `missing / rate` ticks.
pub data Wait : Type 0 where
  infinite : Wait
  ticks : (missing rate : ℕ) → Wait

-- The quotient of its two numbers, exactly; the source divides floats, so that its hint is rounded.
unfoldable pub retry_after : Bucket → Wait
retry_after b =
    let deficit = one_token - b.tokens in
    if leb b.refill_rate 0 then infinite else ticks deficit b.refill_rate

-- What the bucket would hold if it were refilled at `now`.
unfoldable pub level : ℕ → Bucket → ℕ
level now b = (refill now b).tokens

-- What every bucket of one kind keeps: its capacity and rate, and no more tokens than it can hold.
pub record IsBucket (now capacity rate : ℕ) (b : Bucket) : Type 0 where
  pub capacity_eq : b.capacity ≡ capacity
  pub rate_eq : b.refill_rate ≡ rate
  pub tokens_le : b.tokens ≤ capacity
  pub last_refill_le : b.last_refill ≤ now

-- Two stretches of time refill as much as both together, and a cap on the way does not show.
refill_twice :
    (cap t r a b c : ℕ)
    → a ≤ b
    → b ≤ c
    → min cap (min cap (t + (b - a) * r) + (c - b) * r) ≡ min cap (t + (c - a) * r)
refill_twice cap t r a b c h k =
    let gap : c - a ≡ (b - a) + (c - b) = omega arith in rw gap (omega arith)

pub none_elapsed : (now rate : ℕ) → (now - now) * rate ≡ 0
none_elapsed now rate = let none : now - now ≡ 0 = omega arith in rw none (omega arith)

module _ {now capacity rate : ℕ} (b : Bucket) (v : IsBucket now capacity rate b) where
  -- Refilling in two steps is refilling in one.
  pub level_later :
      (later : ℕ) → now ≤ later → level later b ≡ min capacity (level now b + (later - now) * rate)
  unfolding level refill
  level_later later h =
      rw (← v.rate_eq, ← v.capacity_eq)
        (sym (
          refill_twice b.capacity b.tokens b.refill_rate b.last_refill now later v.last_refill_le
            h))

  pub refill-IsBucket : (later : ℕ) → now ≤ later → IsBucket later capacity rate (refill later b)
  unfolding refill
  refill-IsBucket later h = ground arith

  pub level-refill :
      (at later : ℕ) → now ≤ at → at ≤ later → level later (refill at b) ≡ level later b
  unfolding level refill
  level-refill at later h k =
      refill_twice b.capacity b.tokens b.refill_rate b.last_refill at later (omega arith) k

  -- A token taken right after a refill.
  pub level-consume :
      one_token ≤ level now b → level now (consume (refill now b)).1 ≡ level now b - one_token
  unfolding level refill consume
  level-consume h = ground (arith, none_elapsed now b.refill_rate)

  pub consume-IsBucket : IsBucket now capacity rate (consume b).1
  unfolding consume
  consume-IsBucket = ground arith

pub IsBucket-later :
    {now later capacity rate : ℕ} {b : Bucket}
    → IsBucket now capacity rate b
    → now ≤ later
    → IsBucket later capacity rate b
IsBucket-later v h = omega arith
