-- ===== src/IdSource/Snowflake.antt =====
-- src/gutil.cpp, `snowflake2`: when two ids are equal.
use gqlite.Prelude.{ℕ, ◌+◌, ◌-◌, ◌*◌, ◌^◌, ◌<◌, ◌≤◌, ◌≡◌, ◌↔◌, arith}
use gqlite.IdSource.{Clock, twepoch, snowflake2}

-- The times whose distance from the epoch fits 40 bits.
unfoldable pub InRange : ℕ → Type 0
InRange now = (twepoch ≤ now) × (now < twepoch + 2 ^ 40)

-- A serial number that starts at 0 stays there.
unfoldable pub IsFresh : Clock → Type 0
IsFresh s = s.sequence ≡ 0

snowflake2-IsFresh : (s : Clock) (now input : ℕ) → IsFresh s → IsFresh ((snowflake2 s now input).1)
unfolding snowflake2 IsFresh
snowflake2-IsFresh s now input h = ground arith

snowflake2-value :
    (s : Clock) (now input : ℕ)
    → IsFresh s
    → InRange now
    → input < 2 ^ 16
    → (snowflake2 s now input).0 ≡ (now - twepoch) * 2 ^ 24 + input * 256
unfolding snowflake2 IsFresh InRange
snowflake2-value s now input h r lt = ground arith

-- The ids of two calls on one thread, one after the other and in the range of the clock, are equal
-- exactly if the milliseconds and the inputs are.
pub snowflake2-collides :
    (s : Clock) (now later a b : ℕ)
    → IsFresh s
    → InRange now
    → InRange later
    → a < 2 ^ 16
    → b < 2 ^ 16
    → ((snowflake2 s now a).0 ≡ (snowflake2 ((snowflake2 s now a).1) later b).0)
      ↔ ((now ≡ later) × (a ≡ b))
unfolding InRange
snowflake2-collides s now later a b h r r' la lb =
    rw
      (
        snowflake2-value s now a h r la,
        snowflake2-value ((snowflake2 s now a).1) later b (snowflake2-IsFresh s now a h) r' lb,
      )
      (ground arith)
