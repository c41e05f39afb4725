-- ===== src/Prelude/Words.antt =====
-- Machine integers as two's complement bit patterns: an `int8` is a number below 2 ^ 8, an `int64`
-- a number below 2 ^ 64, and a conversion between signed and unsigned leaves the pattern alone.
-- Signed comparisons and differences read a pattern through its offset by half of the range.
use Prim.Native.Nat.{ℕ, ◌+◌, ◌-◌, ◌%◌}
use mathlib.Core.Bool.{Bool, false}
use iavl.Prelude.Tests.{ltb, leb, if◌then◌else◌}

-- `negsuc n` is -(n + 1).
pub data ℤ : Type 0 where
  pos : ℕ → ℤ
  negsuc : ℕ → ℤ

-- a - b, as an integer.
abbrev pub sub_ℕ : ℕ → ℕ → ℤ
sub_ℕ a b = if leb b a then pos (a - b) else negsuc (b - a - 1)

-- i < n and -n < i, for a number n
abbrev pub lt_pos : ℕ → ℤ → Bool
lt_pos n (pos m) = ltb n m
lt_pos n (negsuc m) = false

abbrev pub lt_neg : ℤ → ℕ → Bool
lt_neg (pos m) n = false
lt_neg (negsuc m) n = leb n m

abbrev pub two_8 : ℕ
two_8 = 0x100

abbrev pub two_32 : ℕ
two_32 = 0x1_0000_0000

abbrev pub two_63 : ℕ
two_63 = 0x8000_0000_0000_0000

abbrev pub two_64 : ℕ
two_64 = 0x1_0000_0000_0000_0000

-- the value of an `int8`, plus 128
abbrev pub offset_8 : ℕ → ℕ
offset_8 x = (x + 0x80) % two_8

-- `a < b` on `int8`
abbrev pub lt_int8 : ℕ → ℕ → Bool
lt_int8 a b = ltb (offset_8 a) (offset_8 b)

-- the value of an `int64`, plus 2 ^ 63
abbrev pub offset_64 : ℕ → ℕ
offset_64 x = (x + two_63) % two_64

-- `a < b` on `int64`
abbrev pub lt_int64 : ℕ → ℕ → Bool
lt_int64 a b = ltb (offset_64 a) (offset_64 b)

abbrev pub is_negative_64 : ℕ → Bool
is_negative_64 x = leb two_63 x
