-- ===== src/Prelude/Word.antt =====
-- Go's 64-bit integers. A `uint64` is a number below `two64`; sums and differences wrap around.
-- An `int64` or an `int` (64 bits wide) is an integer, and its sums are read back as int64.
use Prim.Native.Nat.{ℕ, ◌+◌, ◌-◌, ◌%◌}
use mathlib.Core.Bool.{Bool, true, false}
use blob.Prelude.Tests.{ltb, leb, if◌then◌else◌}

-- 2^64
abbrev pub two64 : ℕ
two64 = 18_446_744_073_709_551_616

-- 2^63
abbrev pub two63 : ℕ
two63 = 9_223_372_036_854_775_808

-- math.MaxUint64, `^uint64(0)`
abbrev pub max_uint64 : ℕ
max_uint64 = 18_446_744_073_709_551_615

-- math.MaxInt64, and math.MaxInt where an int has 64 bits
abbrev pub max_int64 : ℕ
max_int64 = 9_223_372_036_854_775_807

abbrev pub add_u64 : ℕ → ℕ → ℕ
add_u64 a b = (a + b) % two64

abbrev pub sub_u64 : ℕ → ℕ → ℕ
sub_u64 a b = (a + two64 - b) % two64

-- `negsuc n` is -(n + 1).
pub data ℤ : Type 0 where
  pos : ℕ → ℤ
  negsuc : ℕ → ℤ

abbrev pub is_negative : ℤ → Bool
is_negative (pos n) = false
is_negative (negsuc n) = true

-- The sum of two int64 that are not negative: past 2^63 - 1 it wraps to a negative number.
abbrev pub add_i64 : ℕ → ℕ → ℤ
add_i64 a b = if ltb (a + b) two63 then pos (a + b) else negsuc (two64 - 1 - (a + b))

-- `a < b` for an int64 `a` that is not negative.
abbrev pub lt_i64 : ℕ → ℤ → Bool
lt_i64 a (pos b) = ltb a b
lt_i64 a (negsuc b) = false

abbrev pub pos_part : ℤ → ℕ
pos_part (pos n) = n
pos_part (negsuc n) = 0

abbrev pub neg_part : ℤ → ℕ
neg_part (pos n) = 0
neg_part (negsuc n) = n + 1

-- a - b, as an integer.
abbrev pub sub_ℕ : ℕ → ℕ → ℤ
sub_ℕ a b = if leb b a then pos (a - b) else negsuc (b - a - 1)

-- An integer more or less by a count, where no overflow is near.
abbrev pub raise : ℤ → ℕ → ℤ
raise a n = sub_ℕ (pos_part a + n) (neg_part a)

abbrev pub lower : ℤ → ℕ → ℤ
lower a n = sub_ℕ (pos_part a) (neg_part a + n)

-- a ≤ b, for a count b.
abbrev pub leb_ℤ : ℤ → ℕ → Bool
leb_ℤ a b = leb (pos_part a) (b + neg_part a)
