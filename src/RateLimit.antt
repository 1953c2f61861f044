-- ===== src/RateLimit.antt =====
-- backend/internal/services/ratelimit/limiter.go: a fixed-window limiter. The mutex makes a call of
-- `Allow` atomic, so the limiter is a value that each call replaces; the call's clock reading is
-- the argument `now`.
pub mod Bound
mod Tests
use openpostfork.Prelude.{
  ℕ, suc, ◌+◌, String, ◌==◌, Bool, true, false, Option, none, some, leb, if◌then◌else◌,
}

pub record Bucket : Type 0 where
  pub window_start : ℕ
  pub count : ℕ

-- The map of buckets; a missing key is `none`.
pub record Limiter : Type 0 where
  pub buckets : String → Option Bucket

abbrev pub put : (String → Option Bucket) → String → Bucket → String → Option Bucket
put m k b j = if k == j then some b else m j

unfoldable pub new : Limiter
new = record { buckets = λ _. none }

restart : Limiter → String → ℕ → Limiter × Bool
restart l key now =
    (record { buckets = put l.buckets key (record { window_start = now; count = 1 }) }, true)

within : Limiter → String → ℕ → ℕ → ℕ → Bucket → Limiter × Bool
unfolding restart
within l key limit window now current =
    if leb (current.window_start + window) now
    then restart l key now
    else if leb limit current.count
    then (l, false)
    else (
      record { buckets = put l.buckets key (record current { count = suc current.count }) },
      true,
    )

-- `now.Sub(windowStart) >= window` is read as `windowStart + window <= now`, on all integers.
unfoldable pub allow : Limiter → String → ℕ → ℕ → ℕ → Limiter × Bool
unfolding restart within
allow l key limit window now = elim (l.buckets key) [
  | none ↦ restart l key now
  | some current ↦ within l key limit window now current
]
