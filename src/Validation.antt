-- ===== src/Validation.antt =====
-- core/internal/file/validation.go: the checks before an entry is read.
pub mod Bounds
use blob.Prelude.{
  ℕ, ◌+◌, ◌-◌, Bool, true, false, not, ◌&&◌, ◌||◌, ltb, ◌==◌, if◌then◌else◌, ℤ, pos, negsuc,
  is_negative, Error, size_overflow, invalid_hash_length, decompression, Result, ok, err, ◌>>=◌,
  ◌>>◌, reject_if, two64, length,
}
use blob.Sizing.{add_uint64}
use blob.Entry.{Entry, Compression, uncompressed, zstd, other}

-- `uint64(n)` of an int64
abbrev pub to_uint64 : ℤ → ℕ
to_uint64 (pos n) = n
to_uint64 (negsuc n) = two64 - 1 - n

abbrev pub is_uncompressed : Compression → Bool
is_uncompressed uncompressed = true
is_uncompressed zstd = false
is_uncompressed (other v) = false

unfoldable pub validate_for_read : Entry → ℤ → ℕ → Result (Unit {0})
unfolding add_uint64
validate_for_read entry source_size max_file_size = do
  reject_if (is_negative source_size) size_overflow
  reject_if
      (ltb 0 max_file_size
        && (ltb max_file_size entry.data_size || ltb max_file_size entry.original_size))
      size_overflow
  let (end, fits) = add_uint64 entry.data_offset entry.data_size
  reject_if (not fits) size_overflow
  reject_if (ltb (to_uint64 source_size) end) size_overflow
  ok tt

-- sha256.Size
abbrev pub sha256_size : ℕ
sha256_size = 32

unfoldable pub validate_hash : Entry → Result (Unit {0})
validate_hash entry = if length entry.hash == sha256_size then ok tt else err invalid_hash_length

unfoldable pub validate_compression : Entry → Result (Unit {0})
validate_compression entry =
    if is_uncompressed entry.compression && not (entry.data_size == entry.original_size)
    then err decompression
    else ok tt

unfoldable pub validate_all : Entry → ℤ → ℕ → Result (Unit {0})
unfolding validate_for_read validate_hash validate_compression
validate_all entry source_size max_file_size = do
  validate_for_read entry source_size max_file_size
  validate_hash entry
  validate_compression entry
