-- ===== src/IdSource.antt =====
-- src/gutil.cpp, `snowflake2` and `hash64`: the numeric ids of string keys. The clock, in milliseconds,
-- is an argument; the `thread_local` variables are the state. Widths are written out: `uint16_t` for the
-- input, 40 bits of time above 24 bits of input and serial number in a `uint64_t`.
pub mod Snowflake
pub mod Hash
pub mod Generator
use gqlite.Prelude.{
  ℕ, zero, suc, ◌+◌, ◌-◌, ◌*◌, ◌/◌, ◌%◌, ◌^◌, ◌≡◌, Bool, List, [], ◌∷◌, ◌++◌, ltb, ◌==◌,
  if◌then◌else◌, length, replicate,
}

abbrev pub twepoch : ℕ
twepoch = 1420041600000

-- The `thread_local` variables of `snowflake2`.
pub record Clock : Type 0 where
  pub sequence : ℕ
  pub last_time_stamp : ℕ

abbrev pub sequence_mask : ℕ
sequence_mask = 255

-- The id, and the state behind it. The next serial number is `(sequenceMask + 1) & sequenceMask`; the
-- fields do not overlap, so that their `|` is their sum. A time before the epoch wraps around.
unfoldable pub snowflake2 : Clock → ℕ → ℕ → ℕ × Clock
snowflake2 s now input =
    let sequence = if now == s.last_time_stamp then (sequence_mask + 1) % 256 else s.sequence in
    (
      (((now + 2 ^ 64 - twepoch) % 2 ^ 64) * 2 ^ 24) % 2 ^ 64 + (input % 2 ^ 16) * 256 + sequence,
      record { sequence = sequence; last_time_stamp = now },
    )

-- The padding with '0', up to a positive multiple of eight characters.
unfoldable pub padded : List ℕ → List ℕ
padded str =
    let rest = length str % 8 in
    if rest == 0
    then (if length str == 0 then replicate 8 48 else str)
    else str ++ replicate (8 - rest) 48

-- The low 16 bits of `uint64_t(b) << 8 | uint64_t(a)`, for characters that are signed.
unfoldable pub word : ℕ → ℕ → ℕ
word a b = if ltb a 128 then b * 256 + a else 255 * 256 + a

-- The loop over the blocks of eight characters.
unfoldable pub sum_blocks : List ℕ → ℕ → ℕ
unfolding word
sum_blocks (a ∷ b ∷ c ∷ d ∷ e ∷ f ∷ g ∷ h ∷ rest) id = sum_blocks rest ((id + word a b) % 2 ^ 16)
sum_blocks _ id = id

unfoldable pub hash64 : Clock → ℕ → List ℕ → ℕ × Clock
unfolding padded sum_blocks snowflake2
hash64 s now input = snowflake2 s now (sum_blocks (padded input) 0)
