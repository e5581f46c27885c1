-- ===== src/Reading/Verified.antt =====
-- What ReadAll of core/internal/file/reader.go returns.
use blob.Prelude.{
  ℕ, ◌+◌, ◌-◌, ◌≤◌, ◌<◌, ◌≡◌, sym, ap, ◌∙◌, [], arith, length, drop, pos, two63, Error,
  size_overflow, eof, Result, ok, err, >>=-eq-ok, take_of_length-le, slice, length-take,
  length-drop, drop-all,
}
use blob.Prelude.Bytes.{Bytes, equal_iff}
use blob.Stream.{Reader, skip, ensure_no_extra, read_full}
use blob.Sizing.{to_int}
use blob.Sizing.Bounds.{to_int64-fits, to_int-fits}
use blob.Entry.{Entry, uncompressed}
use blob.Validation.{validate_all}
use blob.Validation.Bounds.{InRange, IsReadable, validate_all_complete}
use blob.Batch.Content.Verified.{read_full-length}
use blob.Reading.{
  Source, FileReader, section_reader, entry_reader, read_content_and_hash, map_error,
  map_read_error, check_sum, read_all,
}

-- The content has the size and the hash that the entry records.
pub record HasContent (r : FileReader) (entry : Entry) (content : Bytes) : Type 0 where
  pub size : length content ≡ entry.original_size
  pub hash : r.sha256 content ≡ entry.hash

map_error-ok {ℓ} :
    {A : Type ℓ} (f : Error → Error) (m : Result A) {a : A} → map_error f m ≡ ok a → m ≡ ok a
map_error-ok f (ok b) h = h
map_error-ok f (err e) h = cc

to_int-ok : (n m : ℕ) (e : Error) → to_int n e ≡ ok m → m ≡ n
unfolding to_int
to_int-ok n m e h = ground arith

content-size :
    (r : FileReader) (entry : Entry) (reader : Reader) {read : Bytes × Bytes}
    → read_content_and_hash r entry reader ≡ ok read
    → (length (read.0) ≡ entry.original_size) × (read.1 ≡ r.sha256 (read.0))
unfolding read_content_and_hash
content-size r entry reader {read} h =
    let (n, fits, h1) = >>=-eq-ok (to_int entry.original_size size_overflow) _ h in
    let (c, full, h2) =
      >>=-eq-ok (map_error (map_read_error entry.compression) (read_full reader n)) _ h1 in
    let (u, last, h3) = >>=-eq-ok (ensure_no_extra (skip n reader)) _ h2 in
    let whole : length c ≡ n =
      read_full-length reader n (map_error-ok _ (read_full reader n) full) in
    let size : n ≡ entry.original_size = to_int-ok entry.original_size n size_overflow fits in
    let same : (c, r.sha256 c) ≡ read = cc in
    (
      ap (λ (x : Bytes × Bytes). length (x.0)) (sym same) ∙ whole ∙ size,
      ap (λ (x : Bytes × Bytes). x.1) (sym same) ∙ ap (λ (x : Bytes × Bytes). r.sha256 (x.0)) same,
    )

check_sum-ok :
    (entry : Entry) (read : Bytes × Bytes) {content : Bytes}
    → check_sum entry read ≡ ok content
    → (read.0 ≡ content) × (read.1 ≡ entry.hash)
check_sum-ok entry (c, sum) h = ground (arith, equal_iff sum entry.hash)

-- Whatever the source and the decoder deliver: where ReadAll returns a content, it has the size and the
-- hash that the entry records.
pub read_all-HasContent :
    (r : FileReader) (entry : Entry) {content : Bytes}
    → read_all r entry ≡ ok content
    → HasContent r entry content
unfolding read_all
read_all-HasContent r entry {content} h =
    let (u, valid, h1) = >>=-eq-ok (validate_all entry r.source.size r.max_file_size) _ h in
    let (section, p, h2) = >>=-eq-ok (section_reader r entry) _ h1 in
    let (reader, q, h3) = >>=-eq-ok (entry_reader r entry section) _ h2 in
    let (read, s, h4) = >>=-eq-ok (read_content_and_hash r entry reader) _ h3 in
    let (same, good) = check_sum-ok entry read h4 in
    let (size, sum) = content-size r entry reader s in
    record { size = ap length (sym same) ∙ size; hash = ap r.sha256 (sym same) ∙ sym sum ∙ good }

-- The source holds these bytes: its size, and what a section of it reads.
pub record Holds (source : Source) (data_bytes : Bytes) : Type 0 where
  pub size : source.size ≡ pos (length data_bytes)
  pub fits : length data_bytes < two63
  pub section :
      (o n : ℕ)
      → o + n ≤ length data_bytes
      → source.section o n ≡ record { content = slice o (o + n) data_bytes; ending = eof }

abbrev pub data_of : Entry → Bytes → Bytes
data_of e data_bytes = slice e.data_offset (e.data_offset + e.data_size) data_bytes

module _ (r : FileReader) (e : Entry) (data_bytes : Bytes) (holds : Holds r.source data_bytes)
    (ranges : InRange e) (readable : IsReadable e (length data_bytes) r.max_file_size)
    (raw : e.compression ≡ uncompressed) (hash : r.sha256 (data_of e data_bytes) ≡ e.hash) where
  valid-ok : validate_all e r.source.size r.max_file_size ≡ ok tt
  valid-ok =
      rw holds.size
        (validate_all_complete e (length data_bytes) r.max_file_size ranges holds.fits readable)

  data-length : length (data_of e data_bytes) ≡ e.data_size
  data-length = omega (
    arith,
    readable.within,
    length-take e.data_size (drop e.data_offset data_bytes),
    length-drop e.data_offset data_bytes,
    length-take (e.data_offset + e.data_size - e.data_offset) (drop e.data_offset data_bytes),
  )

  abbrev data_reader : Reader
  data_reader = record { content = data_of e data_bytes; ending = eof }

  section-ok : section_reader r e ≡ ok data_reader
  unfolding section_reader
  section-ok =
      rw (to_int64-fits e.data_offset size_overflow (omega (arith, readable.within, holds.fits))) (
        rw (to_int64-fits e.data_size size_overflow (omega (arith, readable.within, holds.fits)))
          (ap ok (holds.section e.data_offset e.data_size readable.within)))

  reader-ok : entry_reader r e data_reader ≡ ok data_reader
  unfolding entry_reader
  reader-ok = rw raw

  full-ok : read_full data_reader e.original_size ≡ ok (data_of e data_bytes)
  unfolding read_full
  full-ok = ground (
    arith,
    data-length,
    readable.raw_size raw,
    take_of_length-le e.original_size (data_of e data_bytes),
  )

  end-ok : ensure_no_extra (skip e.original_size data_reader) ≡ ok tt
  unfolding ensure_no_extra
  end-ok =
      let whole : length (data_of e data_bytes) ≡ e.original_size =
        data-length ∙ readable.raw_size raw in
      let empty : drop e.original_size (data_of e data_bytes) ≡ [] =
        ap (λ n. drop n (data_of e data_bytes)) (sym whole) ∙ drop-all (data_of e data_bytes) in
      rw empty

  content-ok :
      read_content_and_hash r e data_reader
      ≡ ok (data_of e data_bytes, r.sha256 (data_of e data_bytes))
  unfolding read_content_and_hash
  content-ok =
      rw
        (to_int-fits e.original_size size_overflow
          (omega (arith, readable.within, holds.fits, readable.raw_size raw)))
        (rw (full-ok, map_error) (rw end-ok))

  check-ok :
      check_sum e (data_of e data_bytes, r.sha256 (data_of e data_bytes))
      ≡ ok (data_of e data_bytes)
  check-ok = ground (arith, equal_iff (r.sha256 (data_of e data_bytes)) e.hash)

  -- Of a source that holds some bytes, ReadAll returns for an uncompressed entry that is readable and
  -- whose hash is right exactly the bytes of its range.
  pub read_all-raw : read_all r e ≡ ok (data_of e data_bytes)
  unfolding read_all
  read_all-raw = rw valid-ok (rw section-ok (rw reader-ok (rw content-ok check-ok)))
