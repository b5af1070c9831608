-- ===== src/Queue/Backoff.antt =====
-- internal/queue/postgres.go: BackoffDelay. Durations are int64 nanoseconds. float64(base) and its
-- product with a power of two are exact while base < 2^53; what Go's conversion to int64 makes of a
-- product of 2^63 or more is left to the implementation, and is the field `out_of_range`.
use forge_queue.Prelude.{
  ℕ, ◌+◌, ◌-◌, ◌*◌, ◌^◌, ltb, leb, if◌then◌else◌, Option, none, some, ℤ, pos, negsuc, positive_or,
}

pub record Float : Type 0 where
  pub out_of_range : ℕ → ℤ

abbrev pub second : ℕ
second = 1000000000

abbrev pub cap_delay : ℕ
cap_delay = 600 * second

-- `if attempts < 0 { attempts = 0 }`.
abbrev pub non_negative : ℤ → ℕ
non_negative (pos n) = n
non_negative (negsuc n) = 0

-- time.Duration(float64(base) * pow).
unfoldable pub to_duration : Float → ℕ → ℤ
to_duration float x = if ltb x (2 ^ 63) then pos x else float.out_of_range x

-- `delay += d` on int64, for d >= 0.
unfoldable pub add_duration : ℤ → ℕ → ℤ
add_duration (pos n) d = if ltb (n + d) (2 ^ 63) then pos (n + d) else negsuc (2 ^ 64 - (n + d) - 1)
add_duration (negsuc n) d = if leb d n then negsuc (n - d) else pos (d - n - 1)

unfoldable pub capped : ℤ → ℤ
capped (pos n) = if ltb cap_delay n then pos cap_delay else pos n
capped (negsuc n) = negsuc n

-- `rng` draws below its argument, as rand.Rand.Int63n does.
abbrev pub jittered : Option (ℕ → ℕ) → ℕ → ℤ → ℤ
jittered none base delay = delay
jittered (some rng) base delay = add_duration delay (rng base)

unfoldable pub backoff_delay : Float → ℤ → ℤ → Option (ℕ → ℕ) → ℤ
unfolding to_duration add_duration capped
backoff_delay float base attempts rng =
    let b = positive_or second base in
    capped (jittered rng b (to_duration float (b * 2 ^ non_negative attempts)))
