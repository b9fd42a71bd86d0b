-- ===== src/Replay/Safety.antt =====
-- No timestamp is accepted twice (packages/fss-mcp/src/fss_mcp/middleware/pipeline.py).
use fss_chassis.Base.{
  ℕ, ◌+◌, ◌≤◌, ◌<◌, Text, text_eq, ◌==◌, ltb, true, false, none, some, ◌≡◌, ◌∙◌, ◌↔◌, text_beq_iff,
  ◌⊎◌, inl, inr, arith, Bool-cases, is_some,
}
use fss_chassis.Base.Dict.{
  lookup, has, insert, IsDict, insert-IsDict, remove_if-IsDict, lookup-insert,
  lookup-remove_if-some, lookup-insert_self,
}
use fss_chassis.Replay.{
  Seen, microseconds, is_expired, evict_seen_timestamps, distance, check_parsed,
}

-- The timestamp of a request that arrives at `now` and names the time `t` can pass no more: it
-- is in the cache, or its time is too long ago.
abbrev pub Spent : ℕ → Text → ℕ → ℕ → Seen → Type 0
Spent window timestamp t now seen =
    ((a : ℕ) × (lookup timestamp seen ≡ some a) × (a ≤ now) × (distance a t ≤ microseconds window))
    ⊎ (t + microseconds window < now)

pub Spent-later :
    (window : ℕ) (timestamp : Text) (t now later : ℕ) (seen : Seen)
    → Spent window timestamp t now seen
    → now ≤ later
    → Spent window timestamp t later seen
Spent-later window timestamp t now later seen (inl (a, e, h, d)) k = inl (a, e, omega arith, d)
Spent-later window timestamp t now later seen (inr h) k = inr (omega arith)

same_iff_text : (s t : Text) → ((s == t) ≡ true) ↔ (s ≡ t)
same_iff_text s t = text_beq_iff s t

-- Recording one more time and evicting keeps what is spent.
Spent-evict :
    (window : ℕ) (timestamp other : Text) (t now : ℕ) (seen : Seen)
    → IsDict seen
    → has other seen ≡ false
    → Spent window timestamp t now seen
    → Spent window timestamp t now (evict_seen_timestamps now window (insert other now seen))
unfolding evict_seen_timestamps
Spent-evict window timestamp other t now seen u fresh (inr h) = inr h
Spent-evict window timestamp other t now seen u fresh (inl (a, e, h, d)) =
    let seen' = insert other now seen in
    let found : lookup timestamp seen' ≡ some a =
      ground (arith, lookup-insert other timestamp now seen, e, same_iff_text other timestamp) in
    elim (Bool-cases (is_expired now window (timestamp, a))) [
      | inl gone ↦ inr (ground arith)
      | inr stays ↦ inl (
        a,
        lookup-remove_if-some (is_expired now window) timestamp a seen'
              (insert-IsDict other now seen u) found
            ∙ rw stays,
        h,
        d,
      )
    ]

pub check_parsed-IsDict :
    (window now : ℕ) (timestamp : Text) (t : ℕ) (seen : Seen)
    → IsDict seen
    → IsDict (check_parsed window now timestamp t seen).1
unfolding check_parsed evict_seen_timestamps
check_parsed-IsDict window now timestamp t seen u = ground (
  arith,
  remove_if-IsDict (is_expired now window) (insert timestamp now seen),
  insert-IsDict timestamp now seen u,
)

pub check_parsed-Spent :
    (window now : ℕ) (timestamp other : Text) (t u : ℕ) (seen : Seen)
    → IsDict seen
    → Spent window timestamp t now seen
    → Spent window timestamp t now (check_parsed window now other u seen).1
unfolding check_parsed
check_parsed-Spent window now timestamp other t u seen dict spent =
    elim (Bool-cases (ltb (microseconds window) (distance now u))) [
      | inl far ↦ rw far spent
      | inr near ↦ elim (Bool-cases (has other seen)) [
        | inl old ↦ rw (near, old) spent
        | inr fresh ↦
            rw (near, fresh) (Spent-evict window timestamp other t now seen dict fresh spent)
      ]
    ]

-- What is spent is rejected, and what is accepted is spent.
pub Spent-rejected :
    (window now : ℕ) (timestamp : Text) (t : ℕ) (seen : Seen)
    → Spent window timestamp t now seen
    → is_some (check_parsed window now timestamp t seen).0 ≡ true
unfolding check_parsed
Spent-rejected window now timestamp t seen (inl (a, e, h, d)) = ground arith
Spent-rejected window now timestamp t seen (inr h) = ground arith

pub accepted-Spent :
    (window now : ℕ) (timestamp : Text) (t : ℕ) (seen : Seen)
    → IsDict seen
    → (check_parsed window now timestamp t seen).0 ≡ none
    → Spent window timestamp t now (check_parsed window now timestamp t seen).1
unfolding check_parsed evict_seen_timestamps
accepted-Spent window now timestamp t seen u e =
    elim (Bool-cases (ltb (microseconds window) (distance now t))) [
      | inl far ↦ absurd (ground (arith, far))
      | inr near ↦ elim (Bool-cases (has timestamp seen)) [
        | inl old ↦ absurd (ground (arith, near, old))
        | inr fresh ↦
            let current : is_expired now window (timestamp, now) ≡ false = ground arith in
            rw (near, fresh)
              (inl (
                now,
                lookup-remove_if-some (is_expired now window) timestamp now
                      (insert timestamp now seen) (insert-IsDict timestamp now seen u)
                      (lookup-insert_self timestamp now seen)
                    ∙ rw current,
                omega arith,
                ground arith,
              ))
      ]
    ]
