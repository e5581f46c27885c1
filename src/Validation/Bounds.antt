-- ===== src/Validation/Bounds.antt =====
-- The checks of core/internal/file/validation.go against what a reader relies on.
use blob.Prelude.{ℕ, ◌+◌, ◌≤◌, ◌<◌, ◌≡◌, ◌↔◌, arith, two64, two63, pos, ok, length}
use blob.Entry.{Entry, uncompressed}
use blob.Validation.{validate_all, sha256_size}

-- The fields of an entry are uint64.
pub record InRange (e : Entry) : Type 0 where
  pub offset : e.data_offset < two64
  pub size : e.data_size < two64
  pub original : e.original_size < two64

-- What a reader relies on.
pub record IsReadable (e : Entry) (source_size max_file_size : ℕ) : Type 0 where
  pub within : e.data_offset + e.data_size ≤ source_size
  pub data_limit : 0 < max_file_size → e.data_size ≤ max_file_size
  pub original_limit : 0 < max_file_size → e.original_size ≤ max_file_size
  pub hash_length : length e.hash ≡ sha256_size
  pub raw_size : e.compression ≡ uncompressed → e.data_size ≡ e.original_size

pub validate_all_sound :
    (e : Entry) (n limit : ℕ)
    → InRange e
    → validate_all e (pos n) limit ≡ ok tt
    → IsReadable e n limit
unfolding validate_all
validate_all_sound e n limit r h = record {
  within = ground arith;
  data_limit = λ p. ground arith;
  original_limit = λ p. ground arith;
  hash_length = ground arith;
  raw_size = λ p. ground arith;
}

pub validate_all_complete :
    (e : Entry) (n limit : ℕ)
    → InRange e
    → n < two63
    → IsReadable e n limit
    → validate_all e (pos n) limit ≡ ok tt
unfolding validate_all
validate_all_complete e n limit r b h = ground (arith, h.raw_size, h.data_limit, h.original_limit)

-- validate_all accepts an entry with uint64 fields exactly when its range lies in the source, its
-- sizes keep the limit (0 is no limit), its hash has 32 bytes and, uncompressed, its sizes agree.
pub validate_all_iff :
    (e : Entry) (n limit : ℕ)
    → InRange e
    → n < two63
    → (validate_all e (pos n) limit ≡ ok tt) ↔ IsReadable e n limit
validate_all_iff e n limit r b =
    (validate_all_sound e n limit r, validate_all_complete e n limit r b)
