-- ===== src/RateLimiter/View.antt =====
-- What the buckets of the limiter amount to at a time, and that eviction does not show
-- (packages/fss-mcp/src/fss_mcp/security/rate_limiter.py).
use fss_chassis.Base.{
  refl, ◌≤◌, min, ◌+◌, ◌-◌, ℕ, ◌-◌, ◌*◌, ◌≤◌, text_eq, pair_eq, pair_same_iff, true, false, Option,
  none, some, ◌≡◌, ◌∙◌, subst, arith, inl, inr, Option-cases, is_some,
}
use fss_chassis.Base.Dict.{
  lookup, insert, IsDict, lookup-insert, insert-IsDict, lookup-remove_if-none,
  lookup-remove_if-eq-some, lookup-insert-eq-some, lookup-insert_self, lookup-remove_if-some,
  remove_if-IsDict,
}
use fss_chassis.RateLimiter.Bucket.{
  refill, Bucket, one_token, level, IsBucket, IsBucket-later, level_later,
}
use fss_chassis.RateLimiter.Limiter.{
  RateLimitConfig, RateLimiter, Key, full_bucket, is_stale, evict_stale, ensure_bucket,
}

abbrev pub capacity : RateLimitConfig → ℕ
capacity c = c.burst_size * one_token

-- The level of a bucket that may not be there: a tool without a bucket is at full capacity.
abbrev pub level_of : ℕ → ℕ → Option Bucket → ℕ
level_of full now none = full
level_of full now (some b) = level now b

-- Tokens that a request for the key would find at `now`.
unfoldable pub tool_level : ℕ → Key → RateLimiter → ℕ
tool_level now key l = level_of (capacity l.config) now (lookup key l.tool_buckets)

unfoldable pub global_level : ℕ → RateLimiter → ℕ
global_level now l = level_of (capacity l.config) now l.global_bucket

-- An enabled limiter as `check` finds and leaves it.
pub record IsValid (now : ℕ) (l : RateLimiter) : Type 0 where
  pub enabled : l.config.enabled ≡ true
  pub has_global : is_some l.global_bucket ≡ true
  pub global :
      (g : Bucket)
      → l.global_bucket ≡ some g
      → IsBucket now (capacity l.config) l.config.global_rpm g
  pub unique : IsDict l.tool_buckets
  pub tools :
      (key : Key) (b : Bucket)
      → lookup key l.tool_buckets ≡ some b
      → IsBucket now (capacity l.config) l.config.per_tool_rpm b

-- A stale bucket has refilled: it is at full capacity.
level_of_is_stale :
    {full rate now : ℕ} (key : Key) (b : Bucket)
    → IsBucket now full rate b
    → is_stale now (key, b) ≡ true
    → level now b ≡ full
unfolding is_stale level refill
level_of_is_stale key b v h = ground (arith, v)

tool_level-evict_stale :
    (now : ℕ) (key : Key) (l : RateLimiter)
    → IsValid now l
    → tool_level now key (evict_stale now l) ≡ tool_level now key l
unfolding tool_level evict_stale
tool_level-evict_stale now key l v = elim (Option-cases (lookup key l.tool_buckets)) [
  | inl missing ↦ ground (arith, lookup-remove_if-none (is_stale now) key l.tool_buckets, missing)
  | inr (b, found) ↦ ground (
    arith,
    lookup-remove_if-some (is_stale now) key b l.tool_buckets v.unique found,
    found,
    level_of_is_stale key b (v.tools key b found),
  )
]

-- Time alone raises a level, whether the bucket is there or not.
pub level_of_later :
    {full rate t now : ℕ} (o : Option Bucket)
    → ((b : Bucket) → o ≡ some b → IsBucket t full rate b)
    → t ≤ now
    → level_of full now o ≡ min full (level_of full t o + (now - t) * rate)
level_of_later none v h = omega arith
level_of_later {now = now} (some b) v h = level_later b (v b refl) now h

-- No level passes the burst size.
pub level_of-le :
    {full rate t : ℕ} (now : ℕ) (o : Option Bucket)
    → ((b : Bucket) → o ≡ some b → IsBucket t full rate b)
    → level_of full now o ≤ full
unfolding level refill
level_of-le now none v = omega arith
level_of-le now (some b) v = omega (arith, (v b refl).capacity_eq)

-- Time passes: what held then still holds.
pub IsValid-later :
    {now later : ℕ} {l : RateLimiter} → IsValid now l → now ≤ later → IsValid later l
IsValid-later {now} {later} {l} v h = record {
  enabled = v.enabled;
  has_global = v.has_global;
  global = λ g e. IsBucket-later (v.global g e) h;
  unique = v.unique;
  tools = λ key b e. IsBucket-later (v.tools key b e) h;
}

-- The bucket of a new key is full and not stale.
level-full_bucket : (now burst rpm : ℕ) → level now (full_bucket now burst rpm) ≡ burst * one_token
unfolding level refill
level-full_bucket now burst rpm = ground arith

is_stale-full_bucket :
    (now burst rpm : ℕ) (key : Key) → is_stale now (key, full_bucket now burst rpm) ≡ false
unfolding is_stale
is_stale-full_bucket now burst rpm key =
    let none_elapsed : now - now ≡ 0 = omega arith in rw none_elapsed (ground arith)

pub full_bucket-IsBucket :
    (now burst rpm : ℕ) → IsBucket now (burst * one_token) rpm (full_bucket now burst rpm)
full_bucket-IsBucket now burst rpm = omega arith

abbrev with_bucket : ℕ → RateLimiter → Key → RateLimiter
with_bucket now l key = record l {
  tool_buckets =
      insert key (full_bucket now l.config.burst_size l.config.per_tool_rpm) l.tool_buckets;
}

module _ {now : ℕ} {l : RateLimiter} (v : IsValid now l) where
  evict_stale-IsValid : IsValid now (evict_stale now l)
  unfolding evict_stale
  evict_stale-IsValid = record {
    enabled = v.enabled;
    has_global = v.has_global;
    global = v.global;
    unique = remove_if-IsDict (is_stale now) l.tool_buckets v.unique;
    tools = λ key b e.
        v.tools key b (lookup-remove_if-eq-some (is_stale now) key b l.tool_buckets v.unique e);
  }

  pub insert-IsValid :
      (key : Key) (b : Bucket)
      → IsBucket now (capacity l.config) l.config.per_tool_rpm b
      → IsValid now (record l { tool_buckets = insert key b l.tool_buckets })
  insert-IsValid key b w = record {
    enabled = v.enabled;
    has_global = v.has_global;
    global = v.global;
    unique = insert-IsDict key b l.tool_buckets v.unique;
    tools = λ other b' e. elim (lookup-insert-eq-some key other b b' l.tool_buckets e) [
      | inl same ↦ subst (IsBucket now (capacity l.config) l.config.per_tool_rpm) same w
      | inr old ↦ v.tools other b' old
    ];
  }

-- A new bucket changes the level of no key, and eviction changes none either.
module _ {now : ℕ} {l : RateLimiter} (v : IsValid now l) (key : Key) where
  with_bucket-IsValid : IsValid now (with_bucket now l key)
  with_bucket-IsValid =
      insert-IsValid v key (full_bucket now l.config.burst_size l.config.per_tool_rpm)
        (full_bucket-IsBucket now l.config.burst_size l.config.per_tool_rpm)

  tool_level-with_bucket :
      (other : Key)
      → lookup key l.tool_buckets ≡ none
      → tool_level now other (with_bucket now l key) ≡ tool_level now other l
  unfolding tool_level
  tool_level-with_bucket other missing = ground (
    arith,
    lookup-insert key other (full_bucket now l.config.burst_size l.config.per_tool_rpm)
        l.tool_buckets,
    pair_same_iff key other,
    missing,
    level-full_bucket now l.config.burst_size l.config.per_tool_rpm,
  )

  pub ensure_bucket-IsValid : IsValid now (ensure_bucket now key l)
  unfolding ensure_bucket
  ensure_bucket-IsValid = elim (Option-cases (lookup key l.tool_buckets)) [
    | inl missing ↦ rw missing (evict_stale-IsValid with_bucket-IsValid)
    | inr (b, found) ↦ rw found v
  ]

  pub tool_level-ensure_bucket :
      (other : Key) → tool_level now other (ensure_bucket now key l) ≡ tool_level now other l
  unfolding ensure_bucket
  tool_level-ensure_bucket other = elim (Option-cases (lookup key l.tool_buckets)) [
    | inl missing ↦ rw missing (
        tool_level-evict_stale now other (with_bucket now l key) with_bucket-IsValid
        ∙ tool_level-with_bucket other missing)
    | inr (b, found) ↦ rw found
  ]

  pub ensure_bucket-found :
      (b : Bucket) × (lookup key (ensure_bucket now key l).tool_buckets ≡ some b)
  unfolding ensure_bucket evict_stale
  ensure_bucket-found = elim (Option-cases (lookup key l.tool_buckets)) [
    | inl missing ↦
        let fresh = full_bucket now l.config.burst_size l.config.per_tool_rpm in
        (
          fresh,
          rw missing (
              lookup-remove_if-some (is_stale now) key fresh (insert key fresh l.tool_buckets)
                with_bucket-IsValid.unique (lookup-insert_self key fresh l.tool_buckets)
              ∙ rw is_stale-full_bucket),
        )
    | inr (b, found) ↦ rw found (b, found)
  ]
