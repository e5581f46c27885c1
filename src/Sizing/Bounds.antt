-- ===== src/Sizing/Bounds.antt =====
-- The checked sums, conversions and reads of core/internal/sizing/size.go.
use blob.Prelude.{
  ℕ, ◌+◌, ◌≤◌, ◌<◌, ◌≡◌, ◌↔◌, true, arith, two64, max_int64, Error, eof, ok, err, length,
  length-take,
}
use blob.Stream.{Reader}
use blob.Sizing.{to_int, to_int64, add_uint64, read_all_with_limit}

-- For uint64 arguments the sum is reported as good exactly when it fits in a uint64.
pub add_uint64-fits :
    (a b : ℕ) → a < two64 → b < two64 → ((add_uint64 a b).1 ≡ true) ↔ (a + b < two64)
unfolding add_uint64
add_uint64-fits a b ha hb = (λ h. ground arith, λ h. ground arith)

pub add_uint64-exact :
    (a b : ℕ) → a < two64 → b < two64 → a + b < two64 → add_uint64 a b ≡ (a + b, true)
unfolding add_uint64
add_uint64-exact a b ha hb h = ground arith

pub to_int64-ok : (n m : ℕ) (e : Error) → to_int64 n e ≡ ok m → (m ≡ n) × (n ≤ max_int64)
unfolding to_int64
to_int64-ok n m e h = ground arith

pub to_int64-fits : (n : ℕ) (e : Error) → n ≤ max_int64 → to_int64 n e ≡ ok n
unfolding to_int64
to_int64-fits n e h = ground arith

pub to_int-fits : (n : ℕ) (e : Error) → n ≤ max_int64 → to_int n e ≡ ok n
unfolding to_int
to_int-fits n e h = ground arith

-- A reader that ends well and holds at most `max_size` bytes, below the largest int, is read whole.
pub read_all_with_limit-whole :
    (r : Reader) (max_size : ℕ) (overflow : Error)
    → r.ending ≡ eof
    → max_size < max_int64
    → length r.content ≤ max_size
    → read_all_with_limit r max_size overflow ≡ ok r.content
unfolding read_all_with_limit
read_all_with_limit-whole r max_size overflow e bound fits = ground arith

-- A reader with more than `max_size` bytes is refused, however it ends.
pub read_all_with_limit-refused :
    (r : Reader) (max_size : ℕ) (overflow : Error)
    → max_size < length r.content
    → read_all_with_limit r max_size overflow ≡ err overflow
unfolding read_all_with_limit
read_all_with_limit-refused r max_size overflow h =
    ground (arith, length-take (max_size + 1) r.content)
