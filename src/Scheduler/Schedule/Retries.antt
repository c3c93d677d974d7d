-- ===== src/Scheduler/Schedule/Retries.antt =====
-- The retry delay: an exponential back-off between two bounds.
use cse_analysis.Base.{ℕ, suc, zero, ◌+◌, ◌-◌, ◌*◌, ◌^◌, ◌≤◌, ◌≡◌, min, max, arith}
use native.Mathlib.Nat.{pow-suc}
use cse_analysis.Scheduler.Schedule.{Snapshot, retry_delay_minutes, next_attempt_at, minute_us}

pow-pos : (n : ℕ) → 1 ≤ 2 ^ n
pow-pos zero = omega arith
pow-pos (suc n) = omega (arith, pow-pos n, pow-suc 2 n)

-- Where the base lies below the cap, the delay after any number of capture actions lies between the
-- base and the cap.
pub delay_bounds :
    (s : Snapshot) (n : ℕ)
    → s.retry_base_minutes ≤ s.retry_max_minutes
    → (s.retry_base_minutes ≤ retry_delay_minutes s n)
      × (retry_delay_minutes s n ≤ s.retry_max_minutes)
unfolding retry_delay_minutes
delay_bounds s n h = grind (arith, pow-pos (max 1 n - 1))

-- Each further capture action doubles the delay until the cap stops it.
pub delay-suc :
    (s : Snapshot) (n : ℕ)
    → 1 ≤ n
    → retry_delay_minutes s (suc n) ≡ min (2 * retry_delay_minutes s n) s.retry_max_minutes
unfolding retry_delay_minutes
delay-suc s zero h = absurd (omega arith)
delay-suc s (suc k) h =
    let later : max 1 (suc (suc k)) - 1 ≡ suc k = omega arith in
    let now : max 1 (suc k) - 1 ≡ k = omega arith in rw (later, now, pow-suc 2 k) (omega arith)

-- The delay never falls as capture actions are added.
pub delay_mono : (s : Snapshot) (n : ℕ) → retry_delay_minutes s n ≤ retry_delay_minutes s (suc n)
unfolding retry_delay_minutes
delay_mono s zero = omega arith
delay_mono s (suc k) = omega (arith, delay-suc s (suc k) (omega arith))

-- The next attempt lies at least the base delay after the last one.
pub next_attempt-later :
    (s : Snapshot) (n last : ℕ)
    → s.retry_base_minutes ≤ s.retry_max_minutes
    → last + s.retry_base_minutes * minute_us ≤ next_attempt_at s n last
unfolding next_attempt_at
next_attempt-later s n last h = omega (arith, (delay_bounds s n h).0)
