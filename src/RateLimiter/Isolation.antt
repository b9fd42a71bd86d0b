-- ===== src/RateLimiter/Isolation.antt =====
-- What one request does to the others (packages/fss-mcp/src/fss_mcp/security/rate_limiter.py).
use fss_chassis.Base.{
  ℕ, ◌≤◌, false, Option, some, Text, text_eq, pair_eq, pair_same_iff, ◌≡◌, ◌≢◌, ap, sym, subst, ◌∙◌,
  arith,
}
use fss_chassis.RateLimiter.Limiter.{RateLimiter, Key, check, or_empty}
use fss_chassis.RateLimiter.View.{IsValid, tool_level}
use fss_chassis.RateLimiter.Spec.{Levels, admit, step, levels, decision}
use fss_chassis.RateLimiter.Buckets.{levels_later}
use fss_chassis.RateLimiter.Refinement.{check-refines}

admit_denied : (key : Key) (s : Levels) → (admit key s).0 ≡ false → (admit key s).1 ≡ s
unfolding admit
admit_denied key s h = ground arith

admit_other :
    (key other : Key) (s : Levels) → key ≢ other → (admit key s).1.of_tool other ≡ s.of_tool other
unfolding admit
admit_other key other s h = ground (arith, pair_same_iff key other)

-- What a check does to the levels of its own time.
check-admits :
    (t now : ℕ) (session_id : Option Text) (tool_name : Text) (l : RateLimiter)
    → IsValid t l
    → t ≤ now
    → (decision (check now session_id tool_name l).0
        ≡ some (admit (or_empty session_id, tool_name) (levels now l)).0)
      × (levels now (check now session_id tool_name l).1
          ≡ (admit (or_empty session_id, tool_name) (levels now l)).1)
unfolding step
check-admits t now session_id tool_name l v h =
    subst
      (λ s.
        (decision (check now session_id tool_name l).0
          ≡ some (admit (or_empty session_id, tool_name) s).0)
        × (levels now (check now session_id tool_name l).1
            ≡ (admit (or_empty session_id, tool_name) s).1))
      (sym (levels_later v h)) (check-refines t now session_id tool_name l v h)

-- A denied request takes no token: every level, the global one and those of all keys, is what it
-- was at that time before the request.
pub check-denied :
    (t now : ℕ) (session_id : Option Text) (tool_name : Text) (l : RateLimiter)
    → IsValid t l
    → t ≤ now
    → decision (check now session_id tool_name l).0 ≡ some false
    → levels now (check now session_id tool_name l).1 ≡ levels now l
check-denied t now session_id tool_name l v h d =
    let (e, s) = check-admits t now session_id tool_name l v h in
    let refused : (admit (or_empty session_id, tool_name) (levels now l)).0 ≡ false = cc in
    s ∙ admit_denied (or_empty session_id, tool_name) (levels now l) refused

-- A request leaves the level of every other session and tool as it is, whether it is allowed or
-- not, and also where it made the limiter evict buckets.
pub check-isolated :
    (t now : ℕ) (session_id : Option Text) (tool_name : Text) (other : Key) (l : RateLimiter)
    → IsValid t l
    → t ≤ now
    → (or_empty session_id, tool_name) ≢ other
    → tool_level now other (check now session_id tool_name l).1 ≡ tool_level now other l
check-isolated t now session_id tool_name other l v h different =
    let (e, s) = check-admits t now session_id tool_name l v h in
    unfold levels in
    (ap (λ (x : Levels). x.of_tool other) s
      ∙ admit_other (or_empty session_id, tool_name) other (levels now l) different)
