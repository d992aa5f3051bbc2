-- ===== src/Worker/Runtime/Release.antt =====
-- `_release`, and the waits between attempts.
use clipper_ai.Base.{ℕ, ◌-◌, ◌*◌, ◌/◌, ◌≤◌, arith, seconds, suc}
use native.Mathlib.Nat.{one-le-pow, pow-le-pow_right}
use clipper_ai.Worker.Runtime.{backoff_seconds, backoff_raw}

raw_bounds :
    (attempt : ℕ) → (seconds 15 ≤ backoff_raw attempt) × (backoff_raw attempt ≤ seconds 3600)
unfolding backoff_raw
raw_bounds attempt = omega (arith, one-le-pow (attempt - 1) 2 (omega arith))

-- Whatever the draw in its interval, a wait is at least three quarters and at most five quarters of
-- the exponential one, and the exponential one is from fifteen seconds to an hour.
pub backoff_bounds :
    (uniform : ℕ → ℕ) (attempt : ℕ)
    → ((width : ℕ) → uniform width ≤ width)
    → let raw = backoff_raw attempt in
      (3 * raw ≤ 4 * backoff_seconds uniform attempt)
      × (4 * backoff_seconds uniform attempt ≤ 5 * raw)
      × (seconds 15 ≤ raw)
      × (raw ≤ seconds 3600)
unfolding backoff_seconds
backoff_bounds uniform attempt h =
    let raw = backoff_raw attempt in omega (arith, raw_bounds attempt, h (2 * (raw / 4)))

-- A longer run of failures never makes the exponential wait shorter.
pub backoff_mono : (attempt : ℕ) → backoff_raw attempt ≤ backoff_raw (suc attempt)
unfolding backoff_raw
backoff_mono attempt = omega (
  arith,
  pow-le-pow_right {n = 2} (omega arith) {i = attempt - 1} {j = suc attempt - 1} (omega arith),
)
