-- ===== src/Replay/Tests.antt =====
-- The replay check on concrete headers (packages/fss-mcp/src/fss_mcp/middleware/pipeline.py).
use fss_chassis.Base.{
  ℕ, ◌+◌, ◌≤◌, Text, text, text_eq, text_beq_iff, ◌==◌, ◌||◌, if◌then◌else◌, Option, none, some,
  List, [], ◌∷◌, ◌≡◌, ◌≢◌, refl, arith,
}
use fss_chassis.Replay.{check_replay, check_parsed, evict_seen_timestamps, duplicate}
use fss_chassis.Replay.Runs.{Request, accepted_count, no_replay}
use fss_chassis.Replay.Spellings.{respelled_passes}

abbrev midnight : ℕ
midnight = 63_871_286_400_000_000

-- Two spellings of midnight, and no other timestamp.
abbrev parse : Text → Option ℕ
parse s =
    if s == text "2025-01-01T00:00:00Z" || s == text "2025-01-01T00:00:00+00:00"
    then some midnight
    else none

abbrev header : Option Text
header = some (text "2025-01-01T00:00:00Z")

-- A replay at once, one from another client with a broken clock, and one far too late.
abbrev requests : List Request
requests =
    record { at = midnight + 5; header = header }
    ∷ record { at = midnight + 9; header = header }
    ∷ record { at = midnight + 9; header = some (text "yesterday") }
    ∷ record { at = midnight + 900_000_000; header = header }
    ∷ []

replay_runs : Unit {0}
unfolding check_replay check_parsed evict_seen_timestamps
replay_runs = tt

one_accepted : accepted_count parse 300 (text "2025-01-01T00:00:00Z") requests [] ≡ 1
unfolding accepted_count replay_runs
one_accepted = refl

second_is_duplicate :
    (check_replay parse 300
      (midnight + 9)
      header
      (check_replay parse 300 (midnight + 5) header []).1).0
    ≡ some (duplicate (text "2025-01-01T00:00:00Z"))
unfolding replay_runs
second_is_duplicate = refl

no_replay_example : accepted_count parse 300 (text "2025-01-01T00:00:00Z") requests [] ≤ 1
no_replay_example =
    no_replay parse 300 b'2' (text "025-01-01T00:00:00Z") midnight 0 requests [] refl (omega arith)
      tt (omega arith)

spellings_differ : text "2025-01-01T00:00:00Z" ≢ text "2025-01-01T00:00:00+00:00"
spellings_differ =
    ground (arith, text_beq_iff (text "2025-01-01T00:00:00Z") (text "2025-01-01T00:00:00+00:00"))

respelled_passes_example :
    ((check_replay parse 300 midnight header []).0 ≡ none)
    × ((check_replay parse 300 midnight
          (some (text "2025-01-01T00:00:00+00:00"))
          (check_replay parse 300 midnight header []).1).0
        ≡ none)
respelled_passes_example =
    respelled_passes parse 300 b'2' b'2' (text "025-01-01T00:00:00Z")
      (text "025-01-01T00:00:00+00:00") midnight midnight midnight [] (omega arith) refl refl
      spellings_differ (omega arith) (omega arith) refl refl
