-- ===== src/Replay/Runs.antt =====
-- A run of requests through the replay check
-- (packages/fss-mcp/src/fss_mcp/middleware/pipeline.py).
use fss_chassis.Base.{
  ℕ, ◌+◌, ◌≤◌, ◌<◌, Text, text_eq, ◌==◌, text_beq_iff, leb, if◌then◌else◌, Bool, true, false, not,
  ◌&&◌, Option, none, some, List, [], ◌∷◌, ◌≡◌, ◌⊎◌, ap, refl, arith, Option-cases, Bool-cases, inl,
  inr, is_some,
}
use fss_chassis.Base.Dict.{IsDict}
use fss_chassis.Replay.{Seen, check_parsed, check_replay}
use fss_chassis.Replay.Safety.{
  Spent, Spent-later, Spent-rejected, accepted-Spent, check_parsed-IsDict, check_parsed-Spent,
}

pub record Request : Type 0 where
  pub at : ℕ
  pub header : Option Text

-- The clock does not go back.
abbrev pub Ordered : ℕ → List Request → Type 0
Ordered now [] = Unit
Ordered now (r ∷ rs) = (now ≤ r.at) × Ordered r.at rs

abbrev pub is_for : Text → Option Text → Bool
is_for timestamp none = false
is_for timestamp (some h) = h == timestamp

abbrev pub one_if : Bool → ℕ
one_if b = if b then 1 else 0

module _ (parse : Text → Option ℕ) (window : ℕ) where
  -- How many of the requests that carry the timestamp pass the check, when all are made in turn.
  unfoldable pub accepted_count : Text → List Request → Seen → ℕ
  accepted_count timestamp [] seen = 0
  accepted_count timestamp (r ∷ rs) seen =
      one_if (
        is_for timestamp r.header && not (is_some (check_replay parse window r.at r.header seen).0))
      + accepted_count timestamp rs (check_replay parse window r.at r.header seen).1

  -- The cache after a check: untouched, or that of a timestamp that parsed.
  check_replay-cases :
      (now : ℕ) (header : Option Text) (seen : Seen)
      → ((check_replay parse window now header seen).1 ≡ seen)
        ⊎ ((timestamp : Text) × (t : ℕ) × ((check_replay parse window now header seen).1
              ≡ (check_parsed window now timestamp t seen).1))
  unfolding check_replay
  check_replay-cases now none seen = inl (ground arith)
  check_replay-cases now (some []) seen = inl (ground arith)
  check_replay-cases now (some (c ∷ s)) seen = elim (Option-cases (parse (c ∷ s))) [
    | inl bad ↦ inl (ground (arith, bad))
    | inr (t, good) ↦ elim (Bool-cases (leb window 0)) [
      | inl off ↦ inl (ground (arith, off))
      | inr on ↦ inr (c ∷ s, t, ground (arith, good, on))
    ]
  ]

  check_replay-IsDict :
      (now : ℕ) (header : Option Text) (seen : Seen)
      → IsDict seen
      → IsDict (check_replay parse window now header seen).1
  check_replay-IsDict now header seen u = elim (check_replay-cases now header seen) [
    | inl e ↦ rw e u
    | inr (timestamp, t, e) ↦ rw e (check_parsed-IsDict window now timestamp t seen u)
  ]

  check_replay-Spent :
      (timestamp : Text) (t now : ℕ) (header : Option Text) (seen : Seen)
      → IsDict seen
      → Spent window timestamp t now seen
      → Spent window timestamp t now (check_replay parse window now header seen).1
  check_replay-Spent timestamp t now header seen u h = elim (check_replay-cases now header seen) [
    | inl e ↦ rw e h
    | inr (other, t', e) ↦ rw e (check_parsed-Spent window now timestamp other t t' seen u h)
  ]

  -- One timestamp that parses, with the check switched on.
  module _ (c : ℕ) (s : Text) (t : ℕ) (good : parse (c ∷ s) ≡ some t) (on : 0 < window) where
    pub check_replay-parsed :
        (now : ℕ) (seen : Seen)
        → check_replay parse window now (some (c ∷ s)) seen ≡ check_parsed window now (c ∷ s) t seen
    unfolding check_replay
    check_replay-parsed now seen = ground (arith, good)

    -- Whether a request that carries the timestamp passes.
    passes : ℕ → Option Text → Seen → Bool
    passes now header seen =
        is_for (c ∷ s) header && not (is_some (check_replay parse window now header seen).0)

    passes-of_Spent :
        (now : ℕ) (header : Option Text) (seen : Seen)
        → Spent window (c ∷ s) t now seen
        → passes now header seen ≡ false
    unfolding passes
    passes-of_Spent now none seen h = refl
    passes-of_Spent now (some other) seen h = ground (
      arith,
      text_beq_iff other (c ∷ s),
      check_replay-parsed now seen,
      Spent-rejected window now (c ∷ s) t seen h,
    )

    passes-Spent :
        (now : ℕ) (header : Option Text) (seen : Seen)
        → IsDict seen
        → passes now header seen ≡ true
        → Spent window (c ∷ s) t now (check_replay parse window now header seen).1
    unfolding passes
    passes-Spent now none seen u h = cc
    passes-Spent now (some other) seen u h =
        let this : other ≡ c ∷ s = ground (arith, text_beq_iff other (c ∷ s)) in
        let passed : (check_parsed window now (c ∷ s) t seen).0 ≡ none =
          ground (arith, this, check_replay-parsed now seen) in
        rw (this, check_replay-parsed) (accepted-Spent window now (c ∷ s) t seen u passed)

    count-Spent :
        (now : ℕ) (rs : List Request) (seen : Seen)
        → IsDict seen
        → Ordered now rs
        → Spent window (c ∷ s) t now seen
        → accepted_count (c ∷ s) rs seen ≡ 0
    unfolding accepted_count passes
    count-Spent now [] seen u o h = refl
    count-Spent now (r ∷ rs) seen u (o, os) h =
        let later = Spent-later window (c ∷ s) t now r.at seen h o in
        omega (
          arith,
          ap one_if (passes-of_Spent r.at r.header seen later),
          count-Spent r.at rs (check_replay parse window r.at r.header seen).1
              (check_replay-IsDict r.at r.header seen u) os
              (check_replay-Spent (c ∷ s) t r.at r.header seen u later),
        )

    count-le-one :
        (now : ℕ) (rs : List Request) (seen : Seen)
        → IsDict seen
        → Ordered now rs
        → accepted_count (c ∷ s) rs seen ≤ 1
    unfolding accepted_count passes
    count-le-one now [] seen u o = omega arith
    count-le-one now (r ∷ rs) seen u (o, os) =
        let u' = check_replay-IsDict r.at r.header seen u in
        let seen' = (check_replay parse window r.at r.header seen).1 in
        elim (Bool-cases (passes r.at r.header seen)) [
          | inl yes_now ↦ omega (
            arith,
            ap one_if yes_now,
            count-Spent r.at rs seen' u' os (passes-Spent r.at r.header seen u yes_now),
          )
          | inr not_now ↦ omega (arith, ap one_if not_now, count-le-one r.at rs seen' u' os)
        ]

-- Over requests whose arrival times do not go back, from any cache, and with the check switched on,
-- at most one request that carries a given non-empty timestamp text that parses passes the check.
pub no_replay :
    (parse : Text → Option ℕ) (window c : ℕ) (s : Text) (t now : ℕ) (rs : List Request)
    (seen : Seen)
    → parse (c ∷ s) ≡ some t
    → 0 < window
    → IsDict seen
    → Ordered now rs
    → accepted_count parse window (c ∷ s) rs seen ≤ 1
no_replay parse window c s t now rs seen good on u o =
    count-le-one parse window c s t good on now rs seen u o
