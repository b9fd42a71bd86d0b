-- ===== src/Replay.antt =====
-- Replay prevention: `_check_replay`, `_evict_seen_timestamps` and the cache `_seen_timestamps` of
-- packages/fss-mcp/src/fss_mcp/middleware/pipeline.py.
-- Times are microseconds since the year 1, the resolution of `datetime`. What
-- `datetime.fromisoformat` makes of a header, with the time zone that the code adds where none is
-- given, is the argument `parse`; `none` stands for its `ValueError`. A window of zero or less
-- switches the check off, so the window is a natural number here.
pub mod Safety
pub mod Runs
pub mod Spellings
mod Tests
use fss_chassis.Base.{
  ℕ, ◌+◌, ◌-◌, ◌*◌, max, Text, text_eq, ltb, leb, if◌then◌else◌, Bool, Option, none, some, [], ◌∷◌,
  remove_if,
}
use fss_chassis.Base.Dict.{Dict, has, insert}

abbrev pub microseconds : ℕ → ℕ
microseconds s = s * 1_000_000

-- Timestamp text to acceptance time.
abbrev pub Seen : Type 0
Seen = Dict Text ℕ

-- The test `v < cutoff`, with the subtraction on the other side.
abbrev pub is_expired : ℕ → ℕ → Text × ℕ → Bool
is_expired now window (k, v) = ltb (v + microseconds (window * 2)) now

unfoldable pub evict_seen_timestamps : ℕ → ℕ → Seen → Seen
evict_seen_timestamps now window seen = remove_if (is_expired now window) seen

-- abs((now - request_time).total_seconds())
abbrev pub distance : ℕ → ℕ → ℕ
distance a b = max (a - b) (b - a)

pub data Rejection : Type 0 where
  outside_window : (delta window : ℕ) → Rejection
  duplicate : (timestamp : Text) → Rejection

-- The part of the `try` that has the request's time.
unfoldable pub check_parsed : ℕ → ℕ → Text → ℕ → Seen → Option Rejection × Seen
check_parsed window now timestamp request_time seen =
    let delta = distance now request_time in
    if ltb (microseconds window) delta
    then (some (outside_window delta window), seen)
    else if has timestamp seen
    then (some (duplicate timestamp), seen)
    else (none, evict_seen_timestamps now window (insert timestamp now seen))

-- The header, if one was sent that is not empty.
abbrev pub sent : Option Text → Option Text
sent none = none
sent (some []) = none
sent (some (c ∷ s)) = some (c ∷ s)

module _ (parse : Text → Option ℕ) where
  -- `none` lets the request through.
  unfoldable pub check_replay : ℕ → ℕ → Option Text → Seen → Option Rejection × Seen
  check_replay window now header seen = if leb window 0 then (none, seen) else elim (sent header) [
    | none ↦ (none, seen)
    | some timestamp ↦ elim (parse timestamp) [
      | none ↦ (none, seen)
      | some request_time ↦ check_parsed window now timestamp request_time seen
    ]
  ]
