-- ===== src/RateLimiter/Bound.antt =====
-- How many requests a limiter allows over a stretch of time
-- (packages/fss-mcp/src/fss_mcp/security/rate_limiter.py).
use fss_chassis.Base.{
  leb, Bool-cases, inl, inr, pair_same_iff, ℕ, ◌+◌, ◌-◌, ◌*◌, ◌≤◌, Bool, true, false, ◌&&◌, Option,
  none, some, Text, text_eq, pair_eq, ◌==◌, if◌then◌else◌, ◌≡◌, subst, arith, List, [], ◌∷◌,
}
use fss_chassis.RateLimiter.Bucket.{one_token}
use fss_chassis.RateLimiter.Limiter.{RateLimitConfig, RateLimiter, Key, check, or_empty}
use fss_chassis.RateLimiter.View.{IsValid, level_of-le, tool_level, global_level}
use fss_chassis.Base.Dict.{lookup}
use fss_chassis.RateLimiter.Spec.{Levels, advance, admit, step, levels, decision}
use fss_chassis.RateLimiter.Refinement.{check-refines, check-IsValid}

pub record Request : Type 0 where
  pub at : ℕ
  pub session_id : Option Text
  pub tool_name : Text

abbrev pub key_of : Request → Key
key_of r = (or_empty r.session_id, r.tool_name)

-- The clock does not go back.
abbrev pub Ordered : ℕ → List Request → Type 0
Ordered t [] = Unit
Ordered t (r ∷ rs) = (t ≤ r.at) × Ordered r.at rs

abbrev pub end_time : ℕ → List Request → ℕ
end_time t [] = t
end_time t (r ∷ rs) = end_time r.at rs

abbrev pub is_allowed : Option Bool → Bool
is_allowed none = false
is_allowed (some b) = b

abbrev pub one_if : Bool → ℕ
one_if b = if b then 1 else 0

-- Of the requests that `p` picks, how many are allowed when all are made in turn.
unfoldable pub allowed_where : (Key → Bool) → List Request → RateLimiter → ℕ
allowed_where p [] l = 0
allowed_where p (r ∷ rs) l =
    one_if (is_allowed (decision (check r.at r.session_id r.tool_name l).0) && p (key_of r))
    + allowed_where p rs (check r.at r.session_id r.tool_name l).1

step-overall :
    (c : RateLimitConfig) (now : ℕ) (key : Key) (s : Levels)
    → one_if (step c now key s).0 * one_token + (step c now key s).1.overall
      ≤ s.overall + (now - s.time) * c.global_rpm
unfolding step advance admit
step-overall c now key s = ground arith

of_tool-admit :
    (key mine : Key) (s : Levels)
    → (admit key s).1.of_tool mine
      ≡ (if (admit key s).0 && key == mine then s.of_tool mine - one_token else s.of_tool mine)
unfolding admit
of_tool-admit key mine s =
    elim (Bool-cases (leb one_token s.overall && leb one_token (s.of_tool key))) [
      | inl e ↦ rw e
      | inr e ↦ rw e
    ]

le_of_admit : (key : Key) (s : Levels) → (admit key s).0 ≡ true → one_token ≤ s.of_tool key
unfolding admit
le_of_admit key s h = ground arith

step-of_tool :
    (c : RateLimitConfig) (now : ℕ) (key mine : Key) (s : Levels)
    → one_if ((step c now key s).0 && key == mine) * one_token + (step c now key s).1.of_tool mine
      ≤ s.of_tool mine + (now - s.time) * c.per_tool_rpm
unfolding step advance
step-of_tool c now key mine s = ground (
  arith,
  pair_same_iff key mine,
  of_tool-admit key mine (advance c now s),
  le_of_admit key (advance c now s),
)

le-end_time : (t : ℕ) (rs : List Request) → Ordered t rs → t ≤ end_time t rs
le-end_time t [] h = omega arith
le-end_time t (r ∷ rs) (h, hs) = omega (arith, le-end_time r.at rs hs)

-- One request more: what is taken now, and what the rest takes from what is left.
account :
    (one taken n before after rate t u v : ℕ)
    → taken * one + after ≤ before + (u - t) * rate
    → n * one ≤ after + (v - u) * rate
    → t ≤ u
    → u ≤ v
    → (taken + n) * one ≤ before + (v - t) * rate
account one taken n before after rate t u v h k tu uv =
    let gap : v - t ≡ (u - t) + (v - u) = omega arith in rw gap (omega arith)

module _ (p : Key → Bool) (lev : Levels → ℕ) (rate : RateLimitConfig → ℕ)
    (step_bound : (c : RateLimitConfig) (now : ℕ) (key : Key) (s : Levels)
      → one_if ((step c now key s).0 && p key) * one_token + lev (step c now key s).1
        ≤ lev s + (now - s.time) * rate c) where
  check_bound :
      (t : ℕ) (r : Request) (l : RateLimiter)
      → IsValid t l
      → t ≤ r.at
      → one_if (is_allowed (decision (check r.at r.session_id r.tool_name l).0) && p (key_of r))
            * one_token
          + lev (levels r.at (check r.at r.session_id r.tool_name l).1)
        ≤ lev (levels t l) + (r.at - t) * rate l.config
  check_bound t r l v h =
      let (e, s) = check-refines t r.at r.session_id r.tool_name l v h in
      rw (e, s) (unfold levels in step_bound l.config r.at (key_of r) (levels t l))

  bound :
      (t : ℕ) (rs : List Request) (l : RateLimiter)
      → IsValid t l
      → Ordered t rs
      → allowed_where p rs l * one_token ≤ lev (levels t l) + (end_time t rs - t) * rate l.config
  unfolding allowed_where
  bound t [] l v h = omega arith
  bound t (r ∷ rs) l v (h, hs) =
      let l' = (check r.at r.session_id r.tool_name l).1 in
      let (v', same) = check-IsValid t r.at r.session_id r.tool_name l v h in
      account one_token
        (one_if (is_allowed (decision (check r.at r.session_id r.tool_name l).0) && p (key_of r)))
        (allowed_where p rs l') (lev (levels t l)) (lev (levels r.at l')) (rate l.config) t r.at
        (end_time r.at rs) (check_bound t r l v h)
        (subst
          (λ c.
            allowed_where p rs l' * one_token
            ≤ lev (levels r.at l') + (end_time r.at rs - r.at) * rate c)
          same (bound r.at rs l' v' hs))
        h (le-end_time r.at rs hs)

any_step :
    (c : RateLimitConfig) (now : ℕ) (key : Key) (s : Levels)
    → one_if ((step c now key s).0 && true) * one_token + (step c now key s).1.overall
      ≤ s.overall + (now - s.time) * c.global_rpm
any_step c now key s = ground (arith, step-overall c now key s)

-- From a limiter that is valid at `t`, and over requests whose times do not go back, the limiter
-- allows at most `burst_size` requests and those that the global rate adds from `t` to the last
-- request, whatever the sessions and tools are.
pub global_bound :
    (t : ℕ) (rs : List Request) (l : RateLimiter)
    → IsValid t l
    → Ordered t rs
    → allowed_where (λ _. true) rs l * one_token
      ≤ l.config.burst_size * one_token + (end_time t rs - t) * l.config.global_rpm
unfolding levels global_level
global_bound t rs l v h = omega (
  arith,
  bound (λ _. true) (λ s. s.overall) (λ c. c.global_rpm) any_step t rs l v h,
  level_of-le t l.global_bucket v.global,
)

-- The same for the requests of one session to one tool, with the rate for each tool.
pub tool_bound :
    (t : ℕ) (mine : Key) (rs : List Request) (l : RateLimiter)
    → IsValid t l
    → Ordered t rs
    → allowed_where (λ key. key == mine) rs l * one_token
      ≤ l.config.burst_size * one_token + (end_time t rs - t) * l.config.per_tool_rpm
unfolding levels tool_level
tool_bound t mine rs l v h = omega (
  arith,
  bound (λ key. key == mine) (λ s. s.of_tool mine) (λ c. c.per_tool_rpm)
      (λ c now key s. step-of_tool c now key mine s) t rs l v h,
  level_of-le t (lookup mine l.tool_buckets) (v.tools mine),
)
