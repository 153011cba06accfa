-- ===== src/Prelude/Int.antt =====
-- `int32_t` values as integers: `negsuc n` is -(n + 1).
use Prim.Native.Nat.{ℕ, ◌+◌, ◌-◌, ◌*◌, ◌/◌, ◌^◌, ◌%◌}
use mathlib.Core.Bool.{Bool, true, false}
use linux_kernel_os.Prelude.Tests.{ltb, leb, ◌==◌, if◌then◌else◌}

pub data ℤ : Type 0 where
  pos : ℕ → ℤ
  negsuc : ℕ → ℤ

-- The error code -1.
abbrev pub fail : ℤ
fail = negsuc 0

abbrev pub is_fail : ℤ → Bool
is_fail (pos n) = false
is_fail (negsuc n) = n == 0

-- a < b
abbrev pub lt_int : ℤ → ℤ → Bool
lt_int (pos a) (pos b) = ltb a b
lt_int (pos a) (negsuc b) = false
lt_int (negsuc a) (pos b) = true
lt_int (negsuc a) (negsuc b) = ltb b a

-- `uint32_t` arithmetic.
abbrev pub add32 : ℕ → ℕ → ℕ
add32 a b = (a + b) % 2 ^ 32

-- The conversions between `uint32_t` and `int32_t`.
abbrev pub int32 : ℕ → ℤ
int32 w = if ltb w (2 ^ 31) then pos w else negsuc (2 ^ 32 - w - 1)

abbrev pub uint32 : ℤ → ℕ
uint32 (pos n) = n % 2 ^ 32
uint32 (negsuc n) = 2 ^ 32 - 1 - n

abbrev pub is_zero : ℤ → Bool
is_zero (pos n) = n == 0
is_zero (negsuc n) = false

-- a - b, for natural numbers.
abbrev pub sub_nat : ℕ → ℕ → ℤ
sub_nat a b = if leb b a then pos (a - b) else negsuc (b - a - 1)

-- a + n
abbrev pub plus : ℤ → ℕ → ℤ
plus (pos a) n = pos (a + n)
plus (negsuc a) n = sub_nat n (a + 1)

-- a - n
abbrev pub minus : ℤ → ℕ → ℤ
minus (pos a) n = sub_nat a n
minus (negsuc a) n = negsuc (a + n)

-- a + b
abbrev pub add_int : ℤ → ℤ → ℤ
add_int a (pos b) = plus a b
add_int a (negsuc b) = minus a (b + 1)

-- The C operators `/` and `%` by a positive number, which round towards 0.
abbrev pub div_int : ℤ → ℕ → ℤ
div_int (pos a) n = pos (a / n)
div_int (negsuc a) n = sub_nat 0 ((a + 1) / n)

abbrev pub mod_int : ℤ → ℕ → ℤ
mod_int (pos a) n = pos (a % n)
mod_int (negsuc a) n = sub_nat 0 ((a + 1) % n)

-- a * n
abbrev pub times : ℤ → ℕ → ℤ
times (pos a) n = pos (a * n)
times (negsuc a) n = sub_nat 0 ((a + 1) * n)
