-- ===== src/Replay/Spellings.antt =====
-- What the cache, which is keyed by the header's text, does not catch
-- (packages/fss-mcp/src/fss_mcp/middleware/pipeline.py).
use fss_chassis.Base.{
  ℕ, ◌≤◌, ◌<◌, Text, text_eq, text_beq_iff, false, Option, none, some, ◌∷◌, ◌≡◌, ◌≢◌, arith,
}
use fss_chassis.Base.Dict.{lookup, has, insert, lookup-insert, lookup-remove_if-none}
use fss_chassis.Replay.{
  Seen, microseconds, is_expired, evict_seen_timestamps, distance, check_parsed, check_replay,
}
use fss_chassis.Replay.Runs.{check_replay-parsed}

-- A timestamp that is near enough and not in the cache passes, and another text that was not in the
-- cache is not in it afterwards.
fresh_passes_now :
    (window now : ℕ) (x : Text) (t : ℕ) (seen : Seen)
    → distance now t ≤ microseconds window
    → has x seen ≡ false
    → (check_parsed window now x t seen).0 ≡ none
unfolding check_parsed
fresh_passes_now window now x t seen near fx = ground arith

fresh_passes :
    (window now : ℕ) (x y : Text) (t : ℕ) (seen : Seen)
    → distance now t ≤ microseconds window
    → has x seen ≡ false
    → has y seen ≡ false
    → x ≢ y
    → ((check_parsed window now x t seen).0 ≡ none)
      × (has y (check_parsed window now x t seen).1 ≡ false)
unfolding check_parsed evict_seen_timestamps
fresh_passes window now x y t seen near fx fy different =
    let absent : lookup y (insert x now seen) ≡ none =
      ground (arith, lookup-insert x y now seen, text_beq_iff x y) in
    (
      fresh_passes_now window now x t seen near fx,
      ground (arith, lookup-remove_if-none (is_expired now window) y (insert x now seen) absent),
    )

-- Two different non-empty texts that name one instant both pass, one after the other, where each
-- arrives inside the window of that instant and neither is in the cache.
pub respelled_passes :
    (parse : Text → Option ℕ) (window c d : ℕ) (x y : Text) (t now later : ℕ) (seen : Seen)
    → 0 < window
    → parse (c ∷ x) ≡ some t
    → parse (d ∷ y) ≡ some t
    → c ∷ x ≢ d ∷ y
    → distance now t ≤ microseconds window
    → distance later t ≤ microseconds window
    → has (c ∷ x) seen ≡ false
    → has (d ∷ y) seen ≡ false
    → ((check_replay parse window now (some (c ∷ x)) seen).0 ≡ none)
      × ((check_replay parse window later
            (some (d ∷ y))
            (check_replay parse window now (some (c ∷ x)) seen).1).0
          ≡ none)
respelled_passes parse window c d x y t now later seen on px py different near near' fx fy =
    let (passed, still) = fresh_passes window now (c ∷ x) (d ∷ y) t seen near fx fy different in
    let seen' = (check_parsed window now (c ∷ x) t seen).1 in
    rw (check_replay-parsed parse window c x t px on, check_replay-parsed parse window d y t py on)
      (passed, fresh_passes_now window later (d ∷ y) t seen' near' still)
