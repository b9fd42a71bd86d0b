-- ===== src/RateLimiter/Buckets.antt =====
-- One request with both buckets at hand, against the specification
-- (packages/fss-mcp/src/fss_mcp/security/rate_limiter.py).
use fss_chassis.Base.{
  leb→le, same_refl, ℕ, ◌-◌, ◌≤◌, true, some, leb, if◌then◌else◌, ◌==◌, text_eq, pair_eq,
  pair_same_iff, ◌≡◌, subst, refl, arith, Bool-cases, inl, inr,
}
use fss_chassis.Base.Dict.{lookup, lookup-insert}
use fss_chassis.RateLimiter.Bucket.{
  Bucket, one_token, IsBucket, level, level-refill, level-consume, refill, refill-IsBucket, consume,
  has_token, consume-IsBucket,
}
use fss_chassis.RateLimiter.Limiter.{RateLimiter, Key, check_buckets, put_buckets}
use fss_chassis.RateLimiter.View.{
  capacity, tool_level, global_level, level_of_later, IsValid, insert-IsValid,
}
use fss_chassis.RateLimiter.Spec.{advance, admit, levels, decision}

-- Writing a bucket back changes the levels as it says.
module _ (now : ℕ) (key : Key) (g b : Bucket) (l : RateLimiter) where
  tool_level-put_buckets :
      (other : Key)
      → tool_level now other (put_buckets key g b l)
        ≡ (if key == other then level now b else tool_level now other l)
  unfolding tool_level
  tool_level-put_buckets other = ground (arith, lookup-insert key other b l.tool_buckets)

  global_level-put_buckets : global_level now (put_buckets key g b l) ≡ level now g
  unfolding global_level
  global_level-put_buckets = refl

  put_buckets-IsValid :
      IsValid now l
      → IsBucket now (capacity l.config) l.config.global_rpm g
      → IsBucket now (capacity l.config) l.config.per_tool_rpm b
      → IsValid now (put_buckets key g b l)
  put_buckets-IsValid v vg vb =
      let w = insert-IsValid v key b vb in
      record {
        enabled = v.enabled;
        has_global = refl;
        global = λ g' e.
            let same : g ≡ g' = cc in
            subst (IsBucket now (capacity l.config) l.config.global_rpm) same vg;
        unique = w.unique;
        tools = w.tools;
      }

-- Time alone.
pub levels_later :
    {t now : ℕ} {l : RateLimiter}
    → IsValid t l
    → t ≤ now
    → levels now l ≡ advance l.config now (levels t l)
unfolding levels advance tool_level global_level
levels_later {t} {now} {l} v h = λ i. record {
  time = now;
  overall = level_of_later l.global_bucket v.global h i;
  of_tool = λ key. level_of_later (lookup key l.tool_buckets) (v.tools key) h i;
}

-- One request with both buckets at hand.
module _ (now : ℕ) (key : Key) (g b : Bucket) (l : RateLimiter) (v : IsValid now l)
    (eg : l.global_bucket ≡ some g) (eb : lookup key l.tool_buckets ≡ some b) where
  overall_eq : global_level now l ≡ level now g
  unfolding global_level
  overall_eq = rw eg

  of_tool_eq : (other : Key) → (key == other) ≡ true → tool_level now other l ≡ level now b
  unfolding tool_level
  of_tool_eq other e = rw (← (pair_same_iff key other).0 e, eb)

  key_level : tool_level now key l ≡ level now b
  key_level = of_tool_eq key (same_refl key)

  vg : IsBucket now (capacity l.config) l.config.global_rpm g
  vg = v.global g eg

  vb : IsBucket now (capacity l.config) l.config.per_tool_rpm b
  vb = v.tools key b eb

  kept :
      (g' b' : Bucket)
      → level now b' ≡ level now b
      → (other : Key) → tool_level now other (put_buckets key g' b' l) ≡ tool_level now other l
  kept g' b' e other =
      ground (arith, tool_level-put_buckets now key g' b' l other, of_tool_eq other)

  taken :
      (g' b' : Bucket)
      → level now b' ≡ level now b - one_token
      → (other : Key)
      → tool_level now other (put_buckets key g' b' l)
        ≡ (if key == other then tool_level now other l - one_token else tool_level now other l)
  taken g' b' e other =
      ground (arith, tool_level-put_buckets now key g' b' l other, of_tool_eq other)

  same_g : level now (refill now g) ≡ level now g
  same_g = level-refill g vg now now (omega arith) (omega arith)

  same_b : level now (refill now b) ≡ level now b
  same_b = level-refill b vb now now (omega arith) (omega arith)

  pub check_buckets-refines :
      (decision (check_buckets now key g b l).0 ≡ some (admit key (levels now l)).0)
      × (levels now (check_buckets now key g b l).1 ≡ (admit key (levels now l)).1)
  unfolding check_buckets has_token admit levels level tool_level global_level
  check_buckets-refines = elim (Bool-cases (leb one_token (level now g))) [
    | inl g_ok ↦ elim (Bool-cases (leb one_token (level now b))) [
      | inl b_ok ↦
          rw (overall_eq, key_level, g_ok, b_ok)
            (
              refl,
              λ i. record {
                time = now;
                overall = level-consume g vg (leb→le _ _ g_ok) i;
                of_tool = λ other.
                    taken (consume (refill now g)).1 (consume (refill now b)).1
                      (level-consume b vb (leb→le _ _ b_ok)) other i;
              },
            )
      | inr b_no ↦
          rw (overall_eq, key_level, g_ok, b_no)
            (
              refl,
              λ i. record {
                time = now;
                overall = same_g i;
                of_tool = λ other. kept (refill now g) (refill now b) same_b other i;
              },
            )
    ]
    | inr g_no ↦
        rw (overall_eq, g_no)
          (
            refl,
            λ i. record {
              time = now;
              overall = same_g i;
              of_tool = λ other. kept (refill now g) b refl other i;
            },
          )
  ]

  after_refill_g : IsBucket now (capacity l.config) l.config.global_rpm (refill now g)
  after_refill_g = refill-IsBucket g vg now (omega arith)

  after_refill_b : IsBucket now (capacity l.config) l.config.per_tool_rpm (refill now b)
  after_refill_b = refill-IsBucket b vb now (omega arith)

  pub check_buckets-IsValid : IsValid now (check_buckets now key g b l).1
  unfolding check_buckets has_token
  check_buckets-IsValid = elim (Bool-cases (leb one_token (refill now g).tokens)) [
    | inl g_ok ↦ elim (Bool-cases (leb one_token (refill now b).tokens)) [
      | inl b_ok ↦
          rw (g_ok, b_ok)
            (put_buckets-IsValid now key (consume (refill now g)).1 (consume (refill now b)).1 l v
              (consume-IsBucket (refill now g) after_refill_g)
              (consume-IsBucket (refill now b) after_refill_b))
      | inr b_no ↦
          rw (g_ok, b_no)
            (put_buckets-IsValid now key (refill now g) (refill now b) l v after_refill_g
              after_refill_b)
    ]
    | inr g_no ↦ rw g_no (put_buckets-IsValid now key (refill now g) b l v after_refill_g vb)
  ]

  pub config-check_buckets : (check_buckets now key g b l).1.config ≡ l.config
  unfolding check_buckets
  config-check_buckets = ground arith
