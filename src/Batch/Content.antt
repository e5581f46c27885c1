-- ===== src/Batch/Content.antt =====
-- core/internal/batch/batch.go: decoding, verifying and delivering one entry of a group.
-- SHA-256 and zstd are parameters. A sink answers each call by a function of the entry. The state is what
-- it has got by its own calls: the bytes that a writer has accepted, and the contents put or committed.
pub mod Verified
pub mod Accepts
use blob.Prelude.{
  ℕ, zero, suc, ◌+◌, Bool, true, false, not, ◌||◌, Option, none, some, List, [], ◌∷◌, ◌++◌, ltb,
  ◌==◌, if◌then◌else◌, add_u64, sub_u64, length, slice, take, drop, Error, size_overflow,
  hash_mismatch, decompression, unknown_compression, eof, unexpected_eof, short_write, Result, ok,
  err, ◌>>=◌, ◌>>◌, reject_if,
}
use blob.Prelude.Bytes.{Bytes, equal}
use blob.Stream.{Reader, skip, ensure_no_extra, read_full}
use blob.Sizing.{to_int, to_int64}
use blob.Entry.{Entry, Compression, uncompressed, zstd, other}

-- crypto/sha256, the zstd decoder that the pool hands out for some data, and how many bytes, beside one, a
-- read of its output gives at most.
pub record Codec : Type 0 where
  pub sha256 : Bytes → Bytes
  pub open_zstd : Bytes → Result Reader
  pub pace : ℕ → ℕ

-- Sink, BufferedSink and Committer: which entries it wants, and how its calls end. `write` gives the
-- number of bytes accepted, which is at most the number of bytes given, and the error.
pub record Sink : Type 0 where
  pub should_process : Entry → Bool
  pub is_buffered : Bool
  pub put_error : Entry → Option Error
  pub open_error : Entry → Option Error
  pub write : Entry → Bytes → ℕ × Option Error
  pub commit_error : Entry → Option Error

-- The contents that were put or committed, in order.
abbrev pub Store : Type 0
Store = List (Entry × Bytes)

abbrev pub fail_with : Option Error → Result (Unit {0})
fail_with none = ok tt
fail_with (some e) = err e

-- "%w: %v" with ErrDecompression
abbrev pub as_decompression {ℓ} : {A : Type ℓ} → Result A → Result A
as_decompression (ok a) = ok a
as_decompression (err e) = err decompression

-- An end of the data before the expected size is a decompression error, another error stays.
abbrev pub copy_error : Error → Error
copy_error eof = decompression
copy_error unexpected_eof = decompression
copy_error e = e

abbrev pub map_copy_error {ℓ} : {A : Type ℓ} → Result A → Result A
map_copy_error (ok a) = ok a
map_copy_error (err e) = err (copy_error e)

-- writeAll: the loop over partial writes, with the rounds left, and the bytes that the writer has. A write
-- that accepts nothing ends it.
unfoldable pub write_all :
    (Bytes → ℕ × Option Error) → ℕ → Bytes → Bytes → Result (Unit {0}) × Bytes
write_all write fuel [] staged = (ok tt, staged)
write_all write zero (b ∷ bs) staged = (err short_write, staged)
write_all write (suc fuel) (b ∷ bs) staged =
    let (n, e) = write (b ∷ bs) in
    elim e [
      | some e' ↦ (err e', staged ++ take n (b ∷ bs))
      | none ↦ elim n [
        | zero ↦ (err short_write, staged)
        | suc m ↦ write_all write fuel (drop (suc m) (b ∷ bs)) (staged ++ take (suc m) (b ∷ bs))
      ]
    ]

abbrev pub push_byte : ℕ → List Bytes → List Bytes
push_byte b [] = (b ∷ []) ∷ []
push_byte b (c ∷ cs) = (b ∷ c) ∷ cs

-- What the reads of io.Copy get: the read at hand gives at most so many bytes and one more.
unfoldable pub chunks : (ℕ → ℕ) → ℕ → ℕ → Bytes → List Bytes
chunks pace i room [] = []
chunks pace i zero (b ∷ bs) = (b ∷ []) ∷ chunks pace (suc i) (pace (suc i)) bs
chunks pace i (suc room) (b ∷ bs) = push_byte b (chunks pace i room bs)

-- io.Copy of what the reader delivered: an error of a write, or a short one, ends it.
unfoldable pub copy_write :
    (Bytes → ℕ × Option Error) → List Bytes → Bytes → Result (Unit {0}) × Bytes
copy_write write [] staged = (ok tt, staged)
copy_write write (c ∷ cs) staged =
    let (n, e) = write c in
    let rest = copy_write write cs (staged ++ take n c) in
    elim e [
      | some x ↦ (err x, staged ++ take n c)
      | none ↦ if n == length c then rest else (err short_write, staged ++ take n c)
    ]

-- io.CopyN: the bytes copied, at most `n`, or the error; and the bytes that the writer has.
unfoldable pub copy_n :
    (ℕ → ℕ) → (Bytes → ℕ × Option Error) → Reader → ℕ → Bytes → Result Bytes × Bytes
unfolding copy_write chunks
copy_n pace write r n staged =
    let (written, has) = copy_write write (chunks pace 0 (pace 0) (take n r.content)) staged in
    ((do written; if ltb (length r.content) n then err r.ending else ok (take n r.content)), has)

-- The entry's part of the group's data.
unfoldable pub local_data : Entry → Bytes → ℕ → Result Bytes
unfolding to_int
local_data entry group_data group_start = do
  let local_offset = sub_u64 entry.data_offset group_start
  let local_end = add_u64 local_offset entry.data_size
  reject_if (ltb local_end local_offset || ltb (length group_data) local_end) size_overflow
  start ← to_int local_offset size_overflow
  end ← to_int local_end size_overflow
  ok (slice start end group_data)

module _ (codec : Codec) where
  open codec use {sha256, open_zstd, pace}

  unfoldable pub check_hash : Entry → Bytes → Result (Unit {0})
  check_hash entry content = if equal (sha256 content) entry.hash then ok tt else err hash_mismatch

  unfoldable pub verify_uncompressed : Entry → Bytes → Result (Unit {0})
  unfolding check_hash
  verify_uncompressed entry bytes = do
    reject_if (not (length bytes == entry.original_size)) decompression
    check_hash entry bytes

  unfoldable pub new_entry_reader : Compression → Bytes → Result Reader
  new_entry_reader uncompressed bytes = ok (record { content = bytes; ending = eof })
  new_entry_reader zstd bytes = as_decompression (open_zstd bytes)
  new_entry_reader (other v) bytes = err unknown_compression

  unfoldable pub decompress : Compression → ℕ → Bytes → Result Bytes
  decompress uncompressed size bytes = if length bytes == size then ok bytes else err decompression
  decompress zstd size bytes = do
    content_size ← to_int size size_overflow
    r ← as_decompression (open_zstd bytes)
    content ← as_decompression (read_full r content_size)
    ensure_no_extra (skip content_size r)
    ok content
  decompress (other v) size bytes = err unknown_compression

  module _ (sink : Sink) where
    -- The bytes that the writer has behind it are given beside the result.
    unfoldable pub write_verify_uncompressed : Entry → Bytes → Result (Unit {0}) × Bytes
    unfolding verify_uncompressed write_all
    write_verify_uncompressed entry bytes = elim (verify_uncompressed entry bytes) [
      | err e ↦ (err e, [])
      | ok u ↦ write_all (sink.write entry) (length bytes) bytes []
    ]

    -- Behind the reader and the size: copy, no extra data, the hash of what was copied.
    unfoldable pub copy_verify : Entry → Result (Reader × ℕ) → Result (Unit {0}) × Bytes
    unfolding check_hash ensure_no_extra copy_n
    copy_verify entry (err e) = (err e, [])
    copy_verify entry (ok (r, expected)) =
        let (copied, has) = copy_n pace (sink.write entry) r expected [] in
        (
          (do
            content ← map_copy_error copied
            ensure_no_extra (skip expected r)
            check_hash entry content),
          has,
        )

    unfoldable pub stream_decompress_verify : Entry → Bytes → Result (Unit {0}) × Bytes
    unfolding new_entry_reader copy_verify to_int64
    stream_decompress_verify entry bytes = copy_verify entry (do
      r ← new_entry_reader entry.compression bytes
      expected ← to_int64 entry.original_size size_overflow
      ok (r, expected))

    abbrev stage_as : Compression → Entry → Bytes → Result (Unit {0}) × Bytes
    stage_as uncompressed entry bytes = write_verify_uncompressed entry bytes
    stage_as _ entry bytes = stream_decompress_verify entry bytes

    -- PutBuffered and Commit: without an error the sink has one more content.
    unfoldable pub put_buffered : Entry → Bytes → Store → Result (Unit {0}) × Store
    put_buffered entry content store = elim (sink.put_error entry) [
      | some e ↦ (err e, store)
      | none ↦ (ok tt, store ++ (entry, content) ∷ [])
    ]

    unfoldable pub commit : Entry → Bytes → Store → Result (Unit {0}) × Store
    commit entry staged store = elim (sink.commit_error entry) [
      | some e ↦ (err e, store)
      | none ↦ (ok tt, store ++ (entry, staged) ∷ [])
    ]

    -- The branch of a buffered sink: decode, verify, put.
    unfoldable pub process_buffered : Entry → Bytes → Store → Result (Unit {0}) × Store
    unfolding check_hash decompress put_buffered
    process_buffered entry bytes store =
        elim (decompress entry.compression entry.original_size bytes) [
          | err e ↦ (err e, store)
          | ok content ↦ elim (check_hash entry content) [
            | err e ↦ (err e, store)
            | ok u ↦ put_buffered entry content store
          ]
        ]

    -- A failure before the commit is a discard of the bytes that the writer has.
    abbrev pub commit_or_discard :
        Entry → Store → Result (Unit {0}) × Bytes → Result (Unit {0}) × Store
    commit_or_discard entry store (err e, staged) = (err e, store)
    commit_or_discard entry store (ok u, staged) = commit entry staged store

    -- The other branch: open a writer, stage, commit.
    unfoldable pub process_streamed : Entry → Bytes → Store → Result (Unit {0}) × Store
    unfolding write_verify_uncompressed stream_decompress_verify commit
    process_streamed entry bytes store = elim (sink.open_error entry) [
      | some e ↦ (err e, store)
      | none ↦ commit_or_discard entry store (stage_as entry.compression entry bytes)
    ]

    abbrev process_data : Entry → Store → Result Bytes → Result (Unit {0}) × Store
    process_data entry store (err e) = (err e, store)
    process_data entry store (ok bytes) =
        if sink.is_buffered
        then process_buffered entry bytes store
        else process_streamed entry bytes store

    unfoldable pub process_entry : Entry → Bytes → ℕ → Store → Result (Unit {0}) × Store
    unfolding local_data process_buffered process_streamed
    process_entry entry group_data group_start store =
        process_data entry store (local_data entry group_data group_start)
