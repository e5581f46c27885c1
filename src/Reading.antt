-- ===== src/Reading.antt =====
-- core/internal/file/reader.go: reading a whole entry from a byte source. The source, the zstd decoder
-- that the pool hands out and SHA-256 are parameters.
pub mod Verified
use blob.Prelude.{
  ℕ, zero, suc, ◌≡◌, Bool, true, false, Option, none, some, List, [], ◌==◌, if◌then◌else◌, length,
  ℤ, Error, size_overflow, hash_mismatch, decompression, unknown_compression, short_read, eof,
  unexpected_eof, Result, ok, err, ◌>>=◌, ◌>>◌,
}
use blob.Prelude.Bytes.{Bytes, equal}
use blob.Stream.{Reader, skip, ensure_no_extra, read_full}
use blob.Sizing.{to_int, to_int64}
use blob.Entry.{Entry, Compression, uncompressed, zstd, other}
use blob.Validation.{validate_all}

-- ByteSource, with ReadRange where it has one. `section` is what io.NewSectionReader reads from an
-- offset for a length, `read_at` the answer to ReadAt of so many bytes at an offset.
pub record Source : Type 0 where
  pub size : ℤ
  pub section : ℕ → ℕ → Reader
  pub read_at : ℕ → ℕ → Bytes × Option Error
  pub read_range : Option (ℕ → ℕ → Result Reader)

-- Reader, with DecompressPool.Get and SHA-256.
pub record FileReader : Type 0 where
  pub source : Source
  pub max_file_size : ℕ
  pub get_decoder : Reader → Result Reader
  pub sha256 : Bytes → Bytes

unfoldable pub section_reader : FileReader → Entry → Result Reader
unfolding to_int64
section_reader r entry = do
  offset ← to_int64 entry.data_offset size_overflow
  length ← to_int64 entry.data_size size_overflow
  ok (r.source.section offset length)

-- An empty range is not asked for.
abbrev pub range_of : (ℕ → ℕ → Result Reader) → ℕ → ℕ → Result Reader
range_of read_range offset zero = ok (record { content = []; ending = eof })
range_of read_range offset (suc length) = read_range offset (suc length)

unfoldable pub range_reader : Entry → (ℕ → ℕ → Result Reader) → Result Reader
unfolding to_int64
range_reader entry read_range = do
  offset ← to_int64 entry.data_offset size_overflow
  length ← to_int64 entry.data_size size_overflow
  range_of read_range offset length

-- "%w: %v" with ErrDecompression
abbrev pub as_decompression {ℓ} : {A : Type ℓ} → Result A → Result A
as_decompression (ok a) = ok a
as_decompression (err e) = err decompression

abbrev pub zstd_reader :
    FileReader → Entry → Reader → Option (ℕ → ℕ → Result Reader) → Result Reader
zstd_reader r entry section none = as_decompression (r.get_decoder section)
zstd_reader r entry section (some read_range) = do
  reader ← as_decompression (range_reader entry read_range)
  as_decompression (r.get_decoder reader)

abbrev pub reader_of : FileReader → Entry → Reader → Compression → Result Reader
reader_of r entry section uncompressed = ok section
reader_of r entry section zstd = zstd_reader r entry section r.source.read_range
reader_of r entry section (other v) = err unknown_compression

unfoldable pub entry_reader : FileReader → Entry → Reader → Result Reader
unfolding range_reader
entry_reader r entry section = reader_of r entry section entry.compression

-- mapReadError: an early end is a short read of raw data; of compressed data every error is one of
-- the decompression.
abbrev pub raw_error : Error → Error
raw_error eof = short_read
raw_error unexpected_eof = short_read
raw_error e = e

unfoldable pub map_read_error : Compression → Error → Error
map_read_error uncompressed e = raw_error e
map_read_error zstd e = decompression
map_read_error (other v) e = decompression

abbrev pub map_error {ℓ} : {A : Type ℓ} → (Error → Error) → Result A → Result A
map_error f (ok a) = ok a
map_error f (err e) = err (f e)

-- The content and its hash.
unfoldable pub read_content_and_hash : FileReader → Entry → Reader → Result (Bytes × Bytes)
unfolding to_int read_full ensure_no_extra map_read_error
read_content_and_hash r entry reader = do
  content_size ← to_int entry.original_size size_overflow
  content ← map_error (map_read_error entry.compression) (read_full reader content_size)
  ensure_no_extra (skip content_size reader)
  ok (content, r.sha256 content)

abbrev pub check_sum : Entry → Bytes × Bytes → Result Bytes
check_sum entry (content, sum) = if equal sum entry.hash then ok content else err hash_mismatch

unfoldable pub read_all : FileReader → Entry → Result Bytes
unfolding section_reader entry_reader read_content_and_hash
read_all r entry = do
  validate_all entry r.source.size r.max_file_size
  section ← section_reader r entry
  reader ← entry_reader r entry section
  read ← read_content_and_hash r entry reader
  check_sum entry read
