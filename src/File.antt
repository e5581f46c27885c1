-- ===== src/File.antt =====
-- core/internal/file/file.go: an open file, read piece by piece, with its hash checked at the end.
-- The reader below may return fewer bytes than asked for, and may report its end with the last bytes
-- or in a read of its own: a `Pace` says how it behaves in one call.
pub mod Reads
pub mod Starts
pub mod Delivers
pub mod Closing
use blob.Prelude.{
  ℕ, zero, suc, ◌+◌, ◌-◌, ◌≡◌, Bool, true, false, not, ◌&&◌, ◌||◌, Option, none, some, List, [],
  ◌∷◌, ◌++◌, ltb, leb, ◌==◌, if◌then◌else◌, length, take, min, ℤ, pos, negsuc, add_i64, Error,
  size_overflow, hash_mismatch, decompression, negative_offset, unknown_compression, eof, Result,
  ok, err, ◌>>=◌, ◌>>◌,
}
use blob.Prelude.Bytes.{Bytes, equal}
use blob.Stream.{Reader, skip}
use blob.Sizing.{to_int64}
use blob.Entry.{Entry, Compression, uncompressed, zstd, other}
use blob.Validation.{validate_for_read, validate_hash, validate_compression, is_uncompressed}
use blob.Reading.{Source, FileReader, section_reader, entry_reader}

-- How the reader below answers one call: at most so many bytes, and whether it reports its end
-- together with the last of them.
pub record Pace : Type 0 where
  pub grant : ℕ
  pub eager : Bool

-- The error that comes with some bytes.
abbrev pub error_with : Bool → Bytes → Error → Option Error
error_with true [] ending = some ending
error_with eager left ending = none

-- A call of Read with room for `room` bytes.
abbrev pub read_some : Pace → ℕ → Bytes → Error → Bytes × Option Error
read_some pace room [] ending = ([], some ending)
read_some pace room (b ∷ bs) ending =
    let n = min room pace.grant in
    (
      take n (b ∷ bs),
      error_with pace.eager (skip n (record { content = b ∷ bs; ending = ending })).content ending,
    )

-- A file that init has set up: the reader below, the bytes that the hasher got, what remains to be
-- read, and the outcome of the verification, if there was one.
pub record Opened : Type 0 where
  pub reader : Reader
  pub hashed : Bytes
  pub remaining : ℕ
  pub verified : Bool
  pub verify_error : Option Error

pub data Phase : Type 0 where
  fresh : Phase
  failed : Error → Phase
  opened : Opened → Phase

pub record File : Type 0 where
  pub file_reader : FileReader
  pub entry : Entry
  pub verify_on_close : Bool
  pub phase : Phase

unfoldable pub open_file : FileReader → Entry → Bool → File
open_file r entry verify_on_close = record {
  file_reader = r;
  entry = entry;
  verify_on_close = verify_on_close;
  phase = fresh;
}

-- init of a file that is not initialized
unfoldable pub start : FileReader → Entry → Result Opened
unfolding validate_for_read validate_hash validate_compression section_reader entry_reader
start r entry = do
  validate_for_read entry r.source.size r.max_file_size
  validate_hash entry
  validate_compression entry
  section ← section_reader r entry
  reader ← entry_reader r entry section
  ok (record {
    reader = reader;
    hashed = [];
    remaining = entry.original_size;
    verified = false;
    verify_error = none;
  })

abbrev pub phase_of : Result Opened → Phase
phase_of (ok o) = opened o
phase_of (err e) = failed e

abbrev pub started : FileReader → Entry → Phase → Phase
started r entry fresh = phase_of (start r entry)
started r entry (failed e) = failed e
started r entry (opened o) = opened o

unfoldable pub init : File → File
unfolding start
init f = record f { phase = started f.file_reader f.entry f.phase }

module _ (sha256 : Bytes → Bytes) (entry : Entry) where
  -- verifyHash, given whether it was verified and whether the hash is right
  abbrev pub verify_with : Opened → Bool → Bool → Opened
  verify_with o true right = o
  verify_with o false true = record o { verified = true }
  verify_with o false false = record o { verified = true; verify_error = some hash_mismatch }

  unfoldable pub verify_hash : Opened → Opened
  verify_hash o = verify_with o o.verified (equal (sha256 o.hashed) entry.hash)

  abbrev pub or_eof : Option Error → Error
  or_eof (some e) = e
  or_eof none = eof

  -- The end of the data: verify, and return the mismatch or io.EOF.
  abbrev pub at_end : Bytes → Opened → (Bytes × Option Error) × Opened
  at_end bytes o = let o' = verify_hash o in ((bytes, some (or_eof o'.verify_error)), o')

  abbrev pub extra_end : Opened → Option Error → (Bytes × Option Error) × Opened
  extra_end o none = (([], none), o)
  extra_end o (some eof) = at_end [] o
  extra_end o (some e) = (([], some e), o)

  -- A byte that was read is lost, and an error.
  abbrev pub extra : Opened → Bytes × Option Error → (Bytes × Option Error) × Opened
  extra o ([], e) = extra_end o e
  extra o (b ∷ bs, e) =
      (([], some size_overflow), record o { reader = skip (length (b ∷ bs)) o.reader })

  unfoldable pub read_extra : Pace → Opened → (Bytes × Option Error) × Opened
  unfolding verify_hash
  read_extra pace o = extra o (read_some pace 1 o.reader.content o.reader.ending)

  abbrev pub after_read : Bytes → Opened → Option Error → (Bytes × Option Error) × Opened
  after_read bytes o none = ((bytes, none), o)
  after_read bytes o (some eof) =
      if o.remaining == 0 then at_end bytes o else ((bytes, some decompression), o)
  after_read bytes o (some e) = ((bytes, some e), o)

  -- What was read goes into the hasher.
  abbrev pub absorb : Opened → Bytes × Option Error → (Bytes × Option Error) × Opened
  absorb o (bytes, e) =
      after_read bytes
        (record o {
          reader = skip (length bytes) o.reader;
          hashed = o.hashed ++ bytes;
          remaining = o.remaining - length bytes;
        })
        e

  abbrev pub read_unverified : Pace → ℕ → Opened → Option Error → (Bytes × Option Error) × Opened
  read_unverified pace room o (some e) = (([], some e), o)
  read_unverified pace room o none =
      if room == 0
      then (([], none), o)
      else if o.remaining == 0
      then read_extra pace o
      else absorb o (read_some pace (min room o.remaining) o.reader.content o.reader.ending)

  -- Read behind init
  unfoldable pub read_opened : Pace → ℕ → Opened → (Bytes × Option Error) × Opened
  unfolding read_extra verify_hash
  read_opened pace room o = read_unverified pace room o o.verify_error

abbrev pub store_opened : File → (Bytes × Option Error) × Opened → (Bytes × Option Error) × File
store_opened f (answer, o) = (answer, record f { phase = opened o })

abbrev pub read_phase : Pace → ℕ → File → Phase → (Bytes × Option Error) × File
read_phase pace room f fresh = (([], none), f)
read_phase pace room f (failed e) = (([], some e), f)
read_phase pace room f (opened o) =
    store_opened f (read_opened f.file_reader.sha256 f.entry pace room o)

-- Read; after init the phase is not `fresh`.
unfoldable pub read : Pace → ℕ → File → (Bytes × Option Error) × File
unfolding init read_opened
read pace room f = let f' = init f in read_phase pace room f' f'.phase

-- ReadAt into `room` bytes: no verification, and for uncompressed entries only.
abbrev pub finish_read_at : ℕ → ℕ → Bytes × Option Error → Bytes × Option Error
finish_read_at room expected (bytes, e) =
    let short : Option Error = if ltb expected room then some eof else none in
    elim e [
      | none ↦ (bytes, short)
      | some eof ↦ (if length bytes == expected then (bytes, short) else (bytes, some eof))
      | some x ↦ (bytes, some x)
    ]

-- The answer of a Result: no bytes with an error.
abbrev pub answer_of : Result (Bytes × Option Error) → Bytes × Option Error
answer_of (ok a) = a
answer_of (err e) = ([], some e)

-- Of so many bytes that the offset leaves, or the room.
abbrev pub read_source : FileReader → ℕ → ℕ → ℕ → ℕ → Bytes × Option Error
read_source r size data_offset room off =
    let expected = if ltb (size - off) room then size - off else room in
    finish_read_at room expected (r.source.read_at expected (data_offset + off))

abbrev pub read_below : FileReader → Entry → ℕ → ℕ → ℕ → Result (Bytes × Option Error)
read_below r entry room off size =
    if leb size off
    then ok ([], some eof)
    else (to_int64 entry.data_offset size_overflow >>= λ data_offset.
        ok (read_source r size data_offset room off))

unfoldable pub read_at_range : FileReader → Entry → ℕ → ℕ → Result (Bytes × Option Error)
unfolding to_int64
read_at_range r entry room off = do
  size ← to_int64 entry.original_size size_overflow
  read_below r entry room off size

-- `read at: unsupported compression` has the number of an unknown compression here.
abbrev pub read_at_offset : FileReader → Entry → ℕ → ℤ → Bytes × Option Error
read_at_offset r entry room (negsuc n) = ([], some negative_offset)
read_at_offset r entry room (pos off) =
    if is_uncompressed entry.compression
    then answer_of (read_at_range r entry room off)
    else ([], some unknown_compression)

abbrev pub read_at_opened : File → ℕ → ℤ → Option Error → Bytes × Option Error
read_at_opened f room off (some e) = ([], some e)
read_at_opened f room off none =
    if room == 0 then ([], none) else read_at_offset f.file_reader f.entry room off

abbrev pub read_at_phase : File → ℕ → ℤ → Phase → Bytes × Option Error
read_at_phase f room off fresh = ([], none)
read_at_phase f room off (failed e) = ([], some e)
read_at_phase f room off (opened o) = read_at_opened f room off o.verify_error

unfoldable pub read_at : ℕ → ℤ → File → (Bytes × Option Error) × File
unfolding init read_at_range
read_at room off f = let f' = init f in (read_at_phase f' room off f'.phase, f')

-- The drain of Close: reads of 32 KiB until an error, with the paces of the reads that are left.
abbrev pub drain_room : ℕ
drain_room = 32768

abbrev pub drained :
    ((o : Opened) → Option (Option Error × Opened))
    → (Bytes × Option Error) × Opened
    → Option (Option Error × Opened)
drained again ((bytes, none), o) = again o
drained again ((bytes, some eof), o) = some (o.verify_error, o)
drained again ((bytes, some e), o) = some (some e, o)

unfoldable pub drain : (Bytes → Bytes) → Entry → List Pace → Opened → Option (Option Error × Opened)
unfolding read_opened
drain sha256 entry [] o = none
drain sha256 entry (pace ∷ paces) o =
    drained (drain sha256 entry paces) (read_opened sha256 entry pace drain_room o)

abbrev pub close_opened : File → List Pace → Opened → Option (Option Error × Opened)
close_opened f paces o =
    if o.verified
    then some (o.verify_error, o)
    else if not f.verify_on_close
    then some (none, o)
    else drain f.file_reader.sha256 f.entry paces o

-- Close: `none` where the paces end before the drain does. The release of the decoder is left out.
abbrev pub close_phase : File → List Pace → Phase → Option (Option Error)
close_phase f paces fresh = none
close_phase f paces (failed e) = some (some e)
close_phase f paces (opened o) = elim (close_opened f paces o) [
  | none ↦ none
  | some (e, o') ↦ some e
]

unfoldable pub close : List Pace → File → Option (Option Error)
unfolding init drain
close paces f = let f' = init f in close_phase f' paces f'.phase
