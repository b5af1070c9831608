-- ===== src/Prelude/Signed.antt =====
-- Go's signed integers as far as the program reads them: by the test `x <= 0`, and as int16.
use Prim.Native.Nat.{ℕ, zero, suc, ◌-◌, ◌%◌}
use forge_queue.Prelude.Tests.{if◌then◌else◌, ltb}

-- `negsuc n` is -(n + 1).
pub data ℤ : Type 0 where
  pos : ℕ → ℤ
  negsuc : ℕ → ℤ

-- `if x <= 0 { x = fallback }`.
abbrev pub positive_or : ℕ → ℤ → ℕ
positive_or fallback (pos zero) = fallback
positive_or fallback (pos (suc n)) = suc n
positive_or fallback (negsuc n) = fallback

-- The int16 of sixteen bits.
abbrev from_bits16 : ℕ → ℤ
from_bits16 b = if ltb b 32768 then pos b else negsuc (65535 - b)

-- int16(x) of an int: the lowest sixteen bits.
abbrev pub to_int16 : ℤ → ℤ
to_int16 (pos n) = from_bits16 (n % 65536)
to_int16 (negsuc n) = from_bits16 (65535 - n % 65536)

-- The int64 of a number that is not negative: its lowest 64 bits.
abbrev pub to_int64 : ℕ → ℤ
to_int64 n =
    let b = n % 18446744073709551616 in
    if ltb b 9223372036854775808 then pos b else negsuc (18446744073709551615 - b)
