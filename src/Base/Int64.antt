-- ===== src/Base/Int64.antt =====
-- Go's signed 64-bit integers: an integer in two's-complement range, with wrap-around written out.
use Prim.Native.Nat.{ℕ, ◌+◌, ◌-◌, ◌*◌, ◌%◌, ◌^◌, ◌<◌}
use mathlib.Core.Path.{◌≡◌}
use mathlib.Core.Bool.{Bool, true, false, not}
use native.Mathlib.Omega.{arith}
use microvm_terminal.Base.Tests.{ltb, if◌then◌else◌}

-- `negsuc n` is -(n + 1).
pub data ℤ : Type 0 where
  pos : ℕ → ℤ
  negsuc : ℕ → ℤ

abbrev pub int64_half : ℕ
int64_half = 2 ^ 63

abbrev pub int64_mod : ℕ
int64_mod = 2 ^ 64

-- The int64 whose bit pattern is that of the number.
unfoldable pub of_bits : ℕ → ℤ
of_bits n =
    let m : ℕ = n % int64_mod in if ltb m int64_half then pos m else negsuc (int64_mod - 1 - m)

unfoldable pub to_bits : ℤ → ℕ
to_bits (pos n) = n % int64_mod
to_bits (negsuc n) = int64_mod - 1 - n % int64_mod

-- a + b and a * k on int64.
unfoldable pub add64 : ℤ → ℤ → ℤ
unfolding of_bits to_bits
add64 a b = of_bits (to_bits a + to_bits b)

unfoldable pub mul64 : ℤ → ℕ → ℤ
unfolding of_bits to_bits
mul64 a k = of_bits (to_bits a * k)

-- a < b on integers.
abbrev pub lt64 : ℤ → ℤ → Bool
lt64 (pos a) (pos b) = ltb a b
lt64 (pos a) (negsuc b) = false
lt64 (negsuc a) (pos b) = true
lt64 (negsuc a) (negsuc b) = ltb b a

abbrev pub le64 : ℤ → ℤ → Bool
le64 a b = not (lt64 b a)

-- Sums of non-negative numbers below 2^63 are exact.
pub add64_pos : (a b : ℕ) → a + b < int64_half → add64 (pos a) (pos b) ≡ pos (a + b)
unfolding add64
add64_pos a b h = ground arith

pub mul64_pos : (a k : ℕ) → a < int64_half → a * k < int64_half → mul64 (pos a) k ≡ pos (a * k)
unfolding mul64
mul64_pos a k h g = ground arith
