-- ===== src/Batch/Content/Accepts.antt =====
-- processEntry (core/internal/batch/batch.go) on a stored entry that is as it should be.
use mathlib.Core.List.{append_assoc, append-nil}
use blob.Prelude.{
  sym, ap, ◌∙◌, take, take-append-drop, Result, ℕ, zero, suc, ◌+◌, ◌-◌, ◌≤◌, ◌<◌, ◌≡◌, Bool, true,
  false, Option, none, [], ◌∷◌, ◌++◌, arith, length, drop, length-drop, slice, Error, ok, max_int64,
  two64, add_u64, sub_u64, if◌then◌else◌,
}
use blob.Prelude.Bytes.{Bytes, equal_iff}
use blob.Entry.{Entry, Compression, uncompressed, zstd, other}
use blob.Batch.Content.{
  Codec, Sink, Store, verify_uncompressed, write_verify_uncompressed, stage_as, process_buffered,
  process_streamed, local_data, process_entry, write_all, commit,
}

-- A sink without buffering whose calls succeed and whose writes take at least a byte.
pub record Accepts (sink : Sink) (e : Entry) : Type 0 where
  pub streamed : sink.is_buffered ≡ false
  pub opens : sink.open_error e ≡ none
  pub takes : (b : ℕ) (bs : Bytes) → (n : ℕ) × (sink.write e (b ∷ bs) ≡ (suc n, none))
  pub commits : sink.commit_error e ≡ none

-- The entry's range lies in the data of the group that starts at `s`.
pub record Lies (e : Entry) (s : ℕ) (group_data : Bytes) : Type 0 where
  pub starts : s ≤ e.data_offset
  pub ends : e.data_offset + e.data_size ≤ s + length group_data
  pub start_fits : e.data_offset < two64
  pub length_fits : length group_data ≤ max_int64

abbrev pub entry_bytes : Entry → ℕ → Bytes → Bytes
entry_bytes e s group_data = slice (e.data_offset - s) (e.data_offset - s + e.data_size) group_data

local_data-slice :
    (e : Entry) (s : ℕ) (dat : Bytes) → Lies e s dat → local_data e dat s ≡ ok (entry_bytes e s dat)
unfolding local_data
local_data-slice e s dat h =
    let lo : sub_u64 e.data_offset s ≡ e.data_offset - s = omega arith in
    let hi : add_u64 (e.data_offset - s) e.data_size ≡ e.data_offset - s + e.data_size =
      omega arith in
    rw (lo, hi, local_data) (ground arith)

-- Partial writes that accept at least one byte and report no error get everything written.
write_all-total :
    (write : Bytes → ℕ × Option Error) (fuel : ℕ) (bytes staged : Bytes)
    → ((b : ℕ) (bs : Bytes) → (n : ℕ) × (write (b ∷ bs) ≡ (suc n, none)))
    → length bytes ≤ fuel
    → write_all write fuel bytes staged ≡ (ok tt, staged ++ bytes)
unfolding write_all
write_all-total write zero [] staged t h = ap (λ x. (ok tt, x)) (sym (append-nil staged))
write_all-total write zero (b ∷ bs) staged t h = absurd (omega arith)
write_all-total write (suc fuel) [] staged t h = ap (λ x. (ok tt, x)) (sym (append-nil staged))
write_all-total write (suc fuel) (b ∷ bs) staged t h =
    let (n, e) = t b bs in
    rw (e, write_all)
      (rw e (
        write_all-total write fuel (drop n bs) (staged ++ (b ∷ take n bs)) t
          (omega (arith, length-drop n bs))
        ∙ ap (λ x. (ok tt, x))
            (append_assoc staged (b ∷ take n bs) (drop n bs)
              ∙ ap (λ x. staged ++ (b ∷ x)) (take-append-drop n bs))))

module _ (codec : Codec) (sink : Sink) (e : Entry) (bytes : Bytes) (acc : Accepts sink e)
    (size : length bytes ≡ e.original_size) (hash : codec.sha256 bytes ≡ e.hash) where
  verify-ok : verify_uncompressed codec e bytes ≡ ok tt
  unfolding verify_uncompressed
  verify-ok = ground (arith, equal_iff (codec.sha256 bytes) e.hash)

  write-ok : write_verify_uncompressed codec sink e bytes ≡ (ok tt, bytes)
  unfolding write_verify_uncompressed
  write-ok =
      rw (verify-ok, write_verify_uncompressed)
        (write_all-total (sink.write e) (length bytes) bytes [] acc.takes (omega arith))

  stage-ok : (k : Compression) → k ≡ uncompressed → stage_as codec sink k e bytes ≡ (ok tt, bytes)
  stage-ok uncompressed h = write-ok
  stage-ok zstd h = cc
  stage-ok (other v) h = cc

  streamed-ok :
      (store : Store)
      → e.compression ≡ uncompressed
      → process_streamed codec sink e bytes store ≡ (ok tt, store ++ (e, bytes) ∷ [])
  unfolding process_streamed commit
  streamed-ok store raw =
      rw (acc.opens, process_streamed) (rw (stage-ok e.compression raw) (rw (acc.commits, commit)))

module _ (codec : Codec) (sink : Sink) where
  process_data-mode :
      (b : Bool) (e : Entry) (bytes : Bytes) (store : Store) (r : Result (Unit {0}) × Store)
      → b ≡ false
      → process_streamed codec sink e bytes store ≡ r
      → (if b
          then process_buffered codec sink e bytes store
          else process_streamed codec sink e bytes store)
        ≡ r
  process_data-mode true e bytes store r h p = cc
  process_data-mode false e bytes store r h p = p

  -- An entry stored without compression, whose range lies in the group's data and holds its size and
  -- its hash, is delivered with exactly those bytes by a sink that accepts it.
  process_entry-uncompressed :
      (e : Entry) (s : ℕ) (dat : Bytes) (store : Store)
      → Accepts sink e
      → Lies e s dat
      → e.compression ≡ uncompressed
      → length (entry_bytes e s dat) ≡ e.original_size
      → codec.sha256 (entry_bytes e s dat) ≡ e.hash
      → process_entry codec sink e dat s store ≡ (ok tt, store ++ (e, entry_bytes e s dat) ∷ [])
  unfolding process_entry
  process_entry-uncompressed e s dat store acc lies raw size hash =
      rw (local_data-slice e s dat lies) (
        process_data-mode sink.is_buffered e (entry_bytes e s dat) store
          (ok tt, store ++ (e, entry_bytes e s dat) ∷ []) acc.streamed
          (streamed-ok codec sink e (entry_bytes e s dat) acc size hash store raw))
