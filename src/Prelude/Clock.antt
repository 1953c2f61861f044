-- ===== src/Prelude/Clock.antt =====
-- Time. A `time.Time` is the number of nanoseconds since Go's zero time, so that `IsZero` is the
-- test against 0; a non-negative `time.Duration` is a number of nanoseconds.
use Prim.Native.Nat.{ℕ, ◌*◌}

abbrev pub second : ℕ
second = 1_000_000_000

abbrev pub minute : ℕ
minute = 60 * second

abbrev pub hour : ℕ
hour = 60 * minute
