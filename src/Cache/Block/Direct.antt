-- ===== src/Cache/Block/Direct.antt =====
-- Direct reads of a source that holds some bytes, by ReadAt and by the blocks of
-- core/cache/disk/blockcache.go.
use blob.Prelude.{
  ℕ, zero, suc, ◌+◌, ◌-◌, ◌≤◌, ◌≡◌, refl, ap, ◌∙◌, min, Option, none, some, [], ◌∷◌, ◌++◌, arith,
  length, take, drop, Result, ok, length-take, length-drop,
}
use blob.Prelude.Bytes.{Bytes}
use blob.Stream.{Reader}
use blob.ByteSource.{ByteSource, direct_read, Holds}
use blob.Cache.Block.{read_block_from_source, fetch_block, checked_read, zeros, exact}

pub length-zeros : (n : ℕ) → length (zeros n) ≡ n
length-zeros zero = refl
length-zeros (suc n) = ap suc (length-zeros n)

drop-zeros : (n : ℕ) → drop n (zeros n) ≡ []
drop-zeros zero = refl
drop-zeros (suc n) = drop-zeros n

append_nil : (xs : Bytes) → xs ++ [] ≡ xs
append_nil [] = refl
append_nil (x ∷ xs) = ap (◌∷◌ x) (append_nil xs)

-- A full read of a range into a buffer of its length.
direct_read-range :
    (content : Bytes) (off n : ℕ)
    → off + n ≤ length content
    → direct_read content (zeros n) off
      ≡ record { count = n; buffer = take n (drop off content); error = none }
direct_read-range content off n fits = answer
  where
    count : min (length (zeros n)) (length content - off) ≡ n
    count = omega (arith, length-zeros n)

    answer :
        direct_read content (zeros n) off
        ≡ record { count = n; buffer = take n (drop off content); error = none }
    answer =
        rw count
          (rw (length-zeros n, drop-zeros n, append_nil (take n (drop off content))) (ground arith))

exact-range :
    (content : Bytes) (off n : ℕ)
    → off + n ≤ length content
    → exact n (take n (drop off content)) ≡ ok (take n (drop off content))
exact-range content off n fits =
    ground (arith, length-take n (drop off content), length-drop off content)

-- A block of a source that holds `content` is read as it is.
pub read_block_from_source-Holds :
    (src : ByteSource) (content : Bytes) (off n : ℕ)
    → Holds src content
    → off + n ≤ length content
    → read_block_from_source src off n ≡ ok (take n (drop off content))
unfolding read_block_from_source
read_block_from_source-Holds src content off zero holds fits = refl
read_block_from_source-Holds src content off (suc n) holds fits = go src.read_range refl
  where
    go :
        (r : Option (ℕ → ℕ → Result Reader))
        → src.read_range ≡ r
        → fetch_block src r off (suc n) ≡ ok (take (suc n) (drop off content))
    go none e =
        ap (checked_read (suc n)) (
          holds.reads (zeros (suc n)) off (omega (arith, length-zeros (suc n))) (omega arith)
          ∙ direct_read-range content off (suc n) fits)
        ∙ ground arith
    go (some r) e = rw (holds.ranges r off (suc n) e fits) (exact-range content off (suc n) fits)
