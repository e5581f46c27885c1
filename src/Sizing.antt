-- ===== src/Sizing.antt =====
-- core/internal/sizing/size.go: checked conversions between the integer types, a checked sum, and
-- a bounded read. `int` has 64 bits.
pub mod Bounds
use blob.Prelude.{
  ℕ, ◌+◌, ◌-◌, ◌≡◌, Bool, true, false, List, arith, two64, max_int64, add_u64, ltb, leb,
  if◌then◌else◌, Error, eof, Result, ok, err, length, take,
}
use blob.Prelude.Bytes.{Bytes}
use blob.Stream.{Reader}

unfoldable pub to_int : ℕ → Error → Result ℕ
to_int size overflow = if ltb max_int64 size then err overflow else ok size

unfoldable pub to_int64 : ℕ → Error → Result ℕ
to_int64 size overflow = if ltb max_int64 size then err overflow else ok size

-- The sum, and whether it fits; on overflow the result is 0.
unfoldable pub add_uint64 : ℕ → ℕ → ℕ × Bool
add_uint64 a b = let sum = add_u64 a b in if ltb sum a then (0, false) else (sum, true)

-- io.ReadAll: io.EOF is no error.
abbrev pub finish : Bytes → Error → Result Bytes
finish content eof = ok content
finish content e = err e

-- io.ReadAll over an io.LimitedReader, which does not read past its limit.
unfoldable pub read_limited : Reader → ℕ → Result Bytes
read_limited r limit =
    if leb limit (length r.content) then ok (take limit r.content) else finish r.content r.ending

unfoldable pub check_length : ℕ → Error → Result Bytes → Result Bytes
check_length max_size overflow (ok content) =
    if ltb max_size (length content) then err overflow else ok content
check_length max_size overflow (err e) = err e

unfoldable pub read_all_with_limit : Reader → ℕ → Error → Result Bytes
unfolding read_limited check_length
read_all_with_limit r max_size overflow =
    if ltb (max_int64 - 1) max_size
    then err overflow
    else check_length max_size overflow (read_limited r (max_size + 1))
