-- ===== src/Cache/Block.antt =====
-- core/cache/disk/blockcache.go: a byte source read through a cache of its blocks. The files lie under
-- a directory as those of `Disk`, with whose record, pruning and faults this module works. The
-- source, SHA-256, and the names and times of the temporary files are parameters. One caller at a
-- time: the single flight of getBlock has one flight. Sums of offsets and lengths stay below 2^63.
pub mod Coherent
pub mod Direct
pub mod Through
pub mod Counts
use blob.Prelude.{
  ℕ, zero, suc, ◌+◌, ◌-◌, ◌*◌, ◌/◌, ◌%◌, ◌^◌, min, max, Bool, true, false, not, ◌&&◌, Option, none,
  some, List, [], ◌∷◌, ◌++◌, ltb, leb, ◌==◌, if◌then◌else◌, length, take, drop, slice, ℤ, pos,
  negsuc, lower, is_negative, Error, external, negative_offset, eof, unexpected_eof, Result, ok,
  err, ◌>>=◌, ◌>>◌, reject_if,
}
use blob.Prelude.Bytes.{Bytes, equal}
use blob.Prelude.Copies.{copy_into}
use blob.ByteSource.{Read, ByteSource}
use blob.Stream.{Reader, read_to_end}
use blob.Cache.Disk.{
  DiskFile, Cache, Faults, find_file, drop_file, exists_file, size_of, is_not_exist, prune,
  ensure_capacity, rename_file, renamed, hex_encode, join_path,
}

-- The rest of the world: the calls that may fail, os.ReadFile's error on a path, the name and the time
-- of the temporary file for a block, and SHA-256.
pub record World : Type 0 where
  pub faults : Faults
  pub unreadable : Bytes → Option Error
  pub temp : ℕ → Bytes
  pub now : ℕ
  pub sha256 : Bytes → Bytes

abbrev pub BlockCache : Type 0
BlockCache = Cache

-- WrapConfig
pub record WrapConfig : Type 0 where
  pub block_size : ℤ
  pub max_blocks_per_read : ℤ

abbrev pub default_wrap_config : WrapConfig
default_wrap_config = record { block_size = pos 65_536; max_blocks_per_read = pos 4 }

pub record CachedSource : Type 0 where
  pub src : ByteSource
  pub source_id : Bytes
  pub block_size : ℕ
  pub max_blocks_per_read : ℕ

-- dirSize: a root that is not there is empty.
unfoldable pub dir_size : Option Error → List DiskFile → Result ℕ
dir_size none files = ok (size_of files)
dir_size (some e) files = if is_not_exist e then ok 0 else err e

-- An error that has only its message.
abbrev pub invalid_config : Error
invalid_config = external 20

abbrev pub failing : Option Error → Result (Unit {0})
failing none = ok tt
failing (some e) = err e

-- NewBlockCache, of the directory, the options, and the files that are there.
unfoldable pub new_block_cache : Faults → Bytes → ℤ → ℤ → List DiskFile → Result BlockCache
unfolding dir_size
new_block_cache faults dir shard_prefix_len max_bytes files = do
  reject_if (equal dir []) invalid_config
  reject_if (is_negative shard_prefix_len) invalid_config
  reject_if (is_negative max_bytes) invalid_config
  failing faults.mkdir
  size ← dir_size faults.walk files
  ok (record {
    dir = dir;
    shard_prefix_len = elim shard_prefix_len [ pos n ↦ n | negsuc n ↦ 0 ];
    max_bytes = elim max_bytes [ pos n ↦ n | negsuc n ↦ 0 ];
    bytes = pos size;
    files = files;
  })

abbrev pub wrapped : ByteSource → ℤ → ℤ → Result CachedSource
wrapped src (pos (suc b)) (pos m) =
    ok
      (record { src = src; source_id = src.source_id; block_size = suc b; max_blocks_per_read = m })
wrapped src b m = err invalid_config

-- Wrap: the block size is positive, the limit not negative, the source has an identity.
unfoldable pub wrap : ByteSource → WrapConfig → Result CachedSource
wrap src config = do
  cached ← wrapped src config.block_size config.max_blocks_per_read
  reject_if (equal src.source_id []) invalid_config
  ok cached

-- binary.BigEndian.PutUint64
unfoldable pub put_uint64 : (bytes : ℕ) → ℕ → Bytes
put_uint64 zero n = []
put_uint64 (suc k) n = ((n / 256 ^ k) % 256) ∷ put_uint64 k n

unfoldable pub block_key_hex : World → Bytes → ℕ → ℕ → Bytes
unfolding put_uint64 hex_encode
block_key_hex w source_id block_size index =
    hex_encode (w.sha256 (source_id ++ (put_uint64 8 block_size ++ put_uint64 8 index)))

unfoldable pub path_for_key : Bytes → ℕ → Bytes → Bytes
path_for_key dir shard_prefix_len key =
    if shard_prefix_len == 0
    then join_path dir key
    else join_path (join_path dir (take (min shard_prefix_len (length key)) key)) key

-- io.EOF is no error here.
abbrev pub read_error : Option Error → Result (Unit {0})
read_error none = ok tt
read_error (some eof) = ok tt
read_error (some e) = err e

abbrev pub exact : ℕ → Bytes → Result Bytes
exact n block = if length block == n then ok block else err unexpected_eof

abbrev pub zeros : ℕ → Bytes
zeros zero = []
zeros (suc n) = 0 ∷ zeros n

-- A read of `n` bytes; an end right behind them is no error.
abbrev pub checked_read : ℕ → Read → Result Bytes
checked_read n read = do
  read_error read.error
  reject_if (not (read.count == n)) unexpected_eof
  ok read.buffer

abbrev pub fetch_block : ByteSource → Option (ℕ → ℕ → Result Reader) → ℕ → ℕ → Result Bytes
fetch_block src (some read_range) offset n = do
  reader ← read_range offset n
  block ← read_to_end reader
  exact n block
fetch_block src none offset n = checked_read n (src.read_at (zeros n) offset)

unfoldable pub read_block_from_source : ByteSource → ℕ → ℕ → Result Bytes
read_block_from_source src offset zero = ok []
read_block_from_source src offset (suc n) = fetch_block src src.read_range offset (suc n)

-- The first fault behind the capacity check; the temporary file is removed again.
abbrev pub write_fault : Faults → Option Error
write_fault faults = elim faults.mkdir [
  | some e ↦ some e
  | none ↦ elim faults.create_temp [
    | some e ↦ some e
    | none ↦ elim faults.copy [ some e ↦ some e | none ↦ faults.close ]
  ]
]

-- Prune
abbrev pub prune_blocks : Faults → ℤ → BlockCache → Result ℕ × BlockCache
prune_blocks faults target c = prune faults target c

-- ensureCapacity
abbrev pub ensure_block_capacity : Faults → ℕ → BlockCache → Result Bool × BlockCache
ensure_block_capacity faults need c = ensure_capacity faults need c

-- The temporary file, renamed to the block's path.
unfoldable pub rename_block :
    World → ℕ → Bytes → Bytes → BlockCache → Result (Unit {0}) × BlockCache
unfolding rename_file
rename_block w index path block c =
    let tmp = w.temp index in
    let temp : DiskFile = record { path = tmp; content = block; mod_time = w.now } in
    let c' : BlockCache = record c { files = temp ∷ c.files } in
    renamed tmp path (length block) c' (rename_file w.faults tmp path c'.files)

-- Behind ensureCapacity: where there is no room, the block is not written. After a failed write or close the
-- removal of the temporary file is taken to succeed.
unfoldable pub place_block :
    World → ℕ → Bytes → Bytes → Result Bool × BlockCache → Result (Unit {0}) × BlockCache
unfolding rename_block
place_block w index path block (err e, c) = (err e, c)
place_block w index path block (ok false, c) = (ok tt, c)
place_block w index path block (ok true, c) = elim (write_fault w.faults) [
  | some e ↦ (err e, c)
  | none ↦ rename_block w index path block c
]

unfoldable pub write_block : World → ℕ → Bytes → Bytes → BlockCache → Result (Unit {0}) × BlockCache
unfolding ensure_capacity place_block
write_block w index path [] c = (ok tt, c)
write_block w index path (b ∷ bs) c =
    if exists_file path c.files
    then (ok tt, c)
    else place_block w index path (b ∷ bs) (ensure_block_capacity w.faults (length (b ∷ bs)) c)

-- A block that was fetched is returned, whether or not it could be written.
abbrev pub store_block :
    World → ℕ → Bytes → ℕ → Result Bytes → BlockCache → Result Bytes × BlockCache
store_block w index path n (err e) c = (err e, c)
store_block w index path n (ok block) c =
    if length block == n
    then (ok block, (write_block w index path block c).1)
    else (err unexpected_eof, c)

-- os.Remove, whose error is not looked at; the counter has been lowered all the same.
abbrev pub remove_block : Faults → Bytes → ℕ → BlockCache → BlockCache
remove_block faults path n c = elim (faults.remove path) [
  | some e ↦ record c { bytes = lower c.bytes n }
  | none ↦ record c { bytes = lower c.bytes n; files = drop_file path c.files }
]

-- The file that os.ReadFile finds: one of the right length is the block, another is removed.
abbrev pub use_file :
    World → ℕ → Bytes → ℕ → Result Bytes → BlockCache → Option DiskFile → Result Bytes × BlockCache
use_file w index path n fetched c none = store_block w index path n fetched c
use_file w index path n fetched c (some f) =
    if length f.content == n
    then (ok f.content, c)
    else store_block w index path n fetched (remove_block w.faults path (length f.content) c)

abbrev pub open_block :
    World → ℕ → Bytes → ℕ → Result Bytes → BlockCache → Option Error → Result Bytes × BlockCache
open_block w index path n fetched c none =
    use_file w index path n fetched c (find_file path c.files)
open_block w index path n fetched c (some e) =
    if is_not_exist e then store_block w index path n fetched c else (err e, c)

-- getBlock, of what fetch answers.
unfoldable pub block_path : World → CachedSource → Bytes → ℕ → ℕ → Bytes
unfolding block_key_hex path_for_key
block_path w s dir shard_prefix_len index =
    path_for_key dir shard_prefix_len (block_key_hex w s.source_id s.block_size index)

unfoldable pub get_block :
    World → CachedSource → ℕ → ℕ → Result Bytes → BlockCache → Result Bytes × BlockCache
unfolding write_block block_path
get_block w s index n fetched c =
    let path = block_path w s c.dir c.shard_prefix_len index in
    open_block w index path n fetched c (w.unreadable path)

abbrev pub block_start : CachedSource → ℕ → ℕ
block_start s index = index * s.block_size

abbrev pub block_end : CachedSource → ℕ → ℕ
block_end s index = min (block_start s index + s.block_size) s.src.size

abbrev pub block_len : CachedSource → ℕ → ℕ
block_len s index = block_end s index - block_start s index

-- The part of a block that is asked for, copied into the buffer.
abbrev pub copy_block : CachedSource → ℕ → ℕ → ℕ → Bytes → ℕ → Bytes → ℕ × Bytes
copy_block s off expected index block n p =
    let copy_start = max off (block_start s index) in
    let copy_end = min (off + expected) (block_end s index) in
    if ltb copy_start copy_end
    then (
      n + (copy_end - copy_start),
      copy_into p (copy_start - off)
          (slice (copy_start - block_start s index) (copy_end - block_start s index) block),
    )
    else (n, p)

-- What the loop does with the answer of getBlock: `next` goes on with a block that is long enough.
abbrev pub after_block :
    ℕ → ℕ → Bytes → BlockCache → (Bytes → Read × BlockCache) → Result Bytes → Read × BlockCache
after_block len n p c next (err e) = (record { count = n; buffer = p; error = some e }, c)
after_block len n p c next (ok block) =
    if ltb (length block) len
    then (record { count = n; buffer = p; error = some unexpected_eof }, c)
    else next block

-- ReadAt's loop over `blocks` blocks from `index`.
unfoldable pub blocks_loop :
    World → CachedSource → ℕ → ℕ → (blocks : ℕ) → ℕ → ℕ → Bytes → BlockCache → Read × BlockCache
unfolding get_block read_block_from_source
blocks_loop w s off expected zero index n p c = (
  record { count = n; buffer = p; error = if ltb expected (length p) then some eof else none },
  c,
)
blocks_loop w s off expected (suc k) index n p c =
    let fetched = read_block_from_source s.src (block_start s index) (block_len s index) in
    let got = get_block w s index (block_len s index) fetched c in
    after_block (block_len s index) n p got.1
      (λ block.
        let copied = copy_block s off expected index block n p in
        blocks_loop w s off expected k (index + 1) copied.0 copied.1 got.1)
      got.0

-- How many bytes there are to read.
abbrev pub available : ℕ → ℕ → ℕ → ℕ
available size off n = if ltb size (off + n) then size - off else n

abbrev pub read_blocks : World → CachedSource → ℕ → ℕ → Bytes → BlockCache → Read × BlockCache
read_blocks w s off expected p c =
    let start_block = off / s.block_size in
    let end_block = (off + expected - 1) / s.block_size in
    let block_count = end_block + 1 - start_block in
    if ltb 0 s.max_blocks_per_read && ltb s.max_blocks_per_read block_count
    then (s.src.read_at p off, c)
    else blocks_loop w s off expected block_count start_block 0 p c

abbrev pub read_from : World → CachedSource → ℕ → Bytes → BlockCache → Read × BlockCache
read_from w s off p c =
    if leb s.src.size off
    then (record { count = 0; buffer = p; error = some eof }, c)
    else read_blocks w s off (available s.src.size off (length p)) p c

-- ReadAt of the cached source.
unfoldable pub read_at : World → CachedSource → Bytes → ℤ → BlockCache → Read × BlockCache
unfolding blocks_loop
read_at w s [] off c = (record { count = 0; buffer = []; error = none }, c)
read_at w s p (negsuc n) c = (record { count = 0; buffer = p; error = some negative_offset }, c)
read_at w s p (pos off) c = read_from w s off p c

-- The reader that ReadRange returns: an empty one, or io.NewSectionReader over the cached source.
pub data RangeReader : Type 0 where
  empty : RangeReader
  section : (off length : ℕ) → RangeReader

abbrev pub range_from : CachedSource → ℕ → ℕ → Option RangeReader × Option Error
range_from s off n =
    if leb s.src.size off
    then (some empty, some eof)
    else (some (section off (if ltb (s.src.size - off) n then s.src.size - off else n)), none)

-- ReadRange: a reader (nil where there is none) and an error.
unfoldable pub read_range : CachedSource → ℤ → ℤ → Option RangeReader × Option Error
read_range s off (negsuc n) = (none, some invalid_config)
read_range s off (pos zero) = (some empty, none)
read_range s (negsuc o) (pos (suc n)) = (none, some negative_offset)
read_range s (pos off) (pos (suc n)) = range_from s off (suc n)
