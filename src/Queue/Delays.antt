-- ===== src/Queue/Delays.antt =====
-- The range of the retry delay that BackoffDelay of internal/queue/postgres.go computes.
use forge_queue.Prelude.{ℕ, ◌+◌, ◌*◌, ◌^◌, ◌≡◌, ◌≤◌, ◌<◌, min, some, arith, ℤ, pos, positive_or}
use native.Mathlib.Nat.{mul-le-mul_left, one-le-pow}
use forge_queue.Queue.Backoff.{
  Float, second, cap_delay, non_negative, to_duration, add_duration, capped, backoff_delay,
}

-- The delay before the cap: the base, doubled for each attempt.
abbrev pub doubled : ℤ → ℤ → ℕ
doubled base attempts = positive_or second base * 2 ^ non_negative attempts

kept : (float : Float) (x : ℕ) → x < 2 ^ 62 → to_duration float x ≡ pos x
unfolding to_duration
kept float x h = ground arith

added : (x r : ℕ) → x + r < 2 ^ 63 → add_duration (pos x) r ≡ pos (x + r)
unfolding add_duration
added x r h = ground arith

capped-min : (x : ℕ) → capped (pos x) ≡ pos (min x cap_delay)
unfolding capped
capped-min x = ground arith

doubled_le : (base attempts : ℤ) → positive_or second base ≤ doubled base attempts
doubled_le base attempts = omega (
  arith,
  mul-le-mul_left (positive_or second base) (one-le-pow (non_negative attempts) 2 (omega arith)),
)

-- While the base, doubled for each attempt, is below 2^62 and the jitter is drawn below the base,
-- the delay is at least the doubled base or 10 minutes, whichever is less, is less than the
-- doubled base and one base more, and is at most 10 minutes.
pub backoff_delay_bounds :
    (float : Float) (base attempts : ℤ) (rng : ℕ → ℕ)
    → doubled base attempts < 2 ^ 62
    → rng (positive_or second base) < positive_or second base
    → (n : ℕ) × (backoff_delay float base attempts (some rng) ≡ pos n)
      × (min (doubled base attempts) cap_delay ≤ n)
      × (n < doubled base attempts + positive_or second base)
      × (n ≤ cap_delay)
unfolding backoff_delay
backoff_delay_bounds float base attempts rng h k =
    let x = doubled base attempts in
    let r = rng (positive_or second base) in
    (
      min (x + r) cap_delay,
      rw (kept float x h, added x r (omega (arith, h, k, doubled_le base attempts)))
          (capped-min (x + r)),
      ground arith,
      ground arith,
      ground arith,
    )
