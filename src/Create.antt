-- ===== src/Create.antt =====
-- core/create.go and core/internal/write: creating an archive from the files of a directory. A `Visit`
-- is one call that fs.WalkDir makes, with what the file system answers in it. The zstd encoder and
-- SHA-256 are parameters. A failure ends the creation; the bytes written before it are left out, as are
-- progress reports and the serialization of the index.
pub mod Layout
pub mod Order
pub mod RoundTrip
use Prim.Native.Nat.{bit_and}
use blob.Prelude.{
  ℕ, zero, suc, ◌+◌, ◌-◌, Bool, true, false, not, ◌&&◌, ◌||◌, Option, none, some, List, [], ◌∷◌,
  ◌++◌, ltb, leb, ◌==◌, if◌then◌else◌, length, take, map, max_uint64, ℤ, pos, negsuc, add_u64,
  Error, size_overflow, eof, external, Result, ok, err, ◌>>=◌, ◌>>◌, reject_if,
}
use blob.Prelude.Bytes.{Bytes}
use blob.Stream.{Reader}
use blob.Sizing.{finish}
use blob.Entry.{Entry, FbEntry, Compression, uncompressed, zstd, other, is_regular}
use blob.Index.{Index}
use blob.Validation.{is_uncompressed}

-- fs.FileInfo of a file, with its identity for os.SameFile
pub record FileInfo : Type 0 where
  pub mode : ℕ
  pub size : ℤ
  pub mod_time : ℤ
  pub identity : ℕ
  pub uid : ℕ
  pub gid : ℕ

-- A file that was opened: what Stat says before and after the copy, and what it delivers.
pub record OpenFile : Type 0 where
  pub before : Result FileInfo
  pub content : Reader
  pub after : Result FileInfo

pub record Visit : Type 0 where
  pub path : Bytes
  pub walk_error : Option Error
  pub context_error : Option Error
  pub is_dir : Bool
  pub type_bits : ℕ
  pub lstat : Result FileInfo
  pub dir_info : Result FileInfo
  pub open_file : Result OpenFile

-- The configuration, with the encoder and the hash. The file limit is 0 for the default, a negative
-- one for none.
pub record Config : Type 0 where
  pub compression : Compression
  pub strict : Bool
  pub max_files : ℤ
  pub skip_compression : List (Bytes → FileInfo → Bool)
  pub encode : Bytes → Bytes
  pub sha256 : Bytes → Bytes

-- `too many files`, a symbolic link, a file that changed, one that is not regular, no file info
abbrev pub too_many_files : Error
too_many_files = external 21

abbrev pub symlink : Error
symlink = external 22

abbrev pub file_changed : Error
file_changed = external 23

abbrev pub not_a_file : Error
not_a_file = external 24

abbrev pub missing_info : Error
missing_info = external 25

-- DefaultMaxFiles
abbrev pub default_max_files : ℕ
default_max_files = 200000

abbrev pub is_symlink_mode : ℕ → Bool
is_symlink_mode mode = not (bit_and mode 0x8000000 == 0)

-- ResolveEntryInfo: `none` is a file to be passed over, an inner `none` no file info.
abbrev pub lstat_info : FileInfo → Option (Option FileInfo)
lstat_info info =
    if is_symlink_mode info.mode
    then none
    else if is_regular info.mode
    then some (some info)
    else none

abbrev pub dir_entry_info : FileInfo → Option (Option FileInfo)
dir_entry_info info = if is_regular info.mode then some (some info) else none

unfoldable pub resolve_entry_info : Bool → Visit → Result (Option (Option FileInfo))
resolve_entry_info strict v =
    if is_symlink_mode v.type_bits
    then ok none
    else if v.type_bits == 0
    then v.lstat >>= (λ info. ok (lstat_info info))
    else if not (is_regular v.type_bits)
    then ok none
    else if not strict
    then ok (some none)
    else v.dir_info >>= (λ info. ok (dir_entry_info info))

abbrev pub same_file : FileInfo → Option FileInfo → Result (Unit {0})
same_file found none = err missing_info
same_file found (some info) = if info.identity == found.identity then ok tt else err file_changed

unfoldable pub validate_file_info : Bool → Option FileInfo → FileInfo → Result (Unit {0})
validate_file_info strict info found = if strict then same_file found info else ok tt

abbrev pub equal_ℤ : ℤ → ℤ → Bool
equal_ℤ (pos m) (pos n) = m == n
equal_ℤ (negsuc m) (negsuc n) = m == n
equal_ℤ _ _ = false

-- The permission bits
abbrev pub perm : ℕ → ℕ
perm mode = bit_and mode 0x1ff

abbrev pub unchanged : FileInfo → FileInfo → Result (Unit {0})
unchanged before after =
    if (equal_ℤ after.size before.size && equal_ℤ after.mod_time before.mod_time)
      && perm after.mode == perm before.mode
    then ok tt
    else err file_changed

unfoldable pub check_file_unchanged : Bool → OpenFile → FileInfo → Result (Unit {0})
check_file_unchanged strict f before =
    if strict then f.after >>= (λ after. unchanged before after) else ok tt

unfoldable pub should_skip : Bytes → FileInfo → List (Bytes → FileInfo → Bool) → Bool
should_skip path info [] = false
should_skip path info (skips ∷ rest) =
    let later = should_skip path info rest in if skips path info then true else later

-- The bytes of a file, at most as many as expected
abbrev pub read_expected : Reader → ℕ → Result Bytes
read_expected r expected =
    if leb expected (length r.content)
    then ok (take expected r.content)
    else finish r.content r.ending

abbrev pub encoded : Config → Compression → Bytes → Bytes
encoded cfg uncompressed bytes = bytes
encoded cfg _ bytes = cfg.encode bytes

-- What was read and what is written for it
abbrev pub check_size : ℕ → Bytes → Result Bytes
check_size expected bytes = if length bytes == expected then ok bytes else err file_changed

unfoldable pub write_file : Reader → ℤ → Result Bytes
write_file r (negsuc n) = err not_a_file
write_file r (pos expected) = do bytes ← read_expected r expected; check_size expected bytes

-- An entry without its offset, and the bytes that are written for it
abbrev pub make_entry : Config → Bytes → FileInfo → Compression → Bytes → Entry × Bytes
make_entry cfg path info compression bytes = (
  record {
    path = path;
    data_offset = 0;
    data_size = length (encoded cfg compression bytes);
    original_size = length bytes;
    hash = cfg.sha256 bytes;
    mode = perm info.mode;
    uid = info.uid;
    gid = info.gid;
    mod_time = info.mod_time;
    compression = compression;
  },
  encoded cfg compression bytes,
)

abbrev pub compression_for : Config → Bytes → FileInfo → Compression
compression_for cfg path info =
    if not (is_uncompressed cfg.compression) && should_skip path info cfg.skip_compression
    then uncompressed
    else cfg.compression

unfoldable pub write_entry :
    Config → Bytes → Option FileInfo → Result OpenFile → Result (Entry × Bytes)
unfolding validate_file_info should_skip write_file check_file_unchanged
write_entry cfg path info opened = do
  f ← opened
  found ← f.before
  reject_if (not (is_regular found.mode)) not_a_file
  validate_file_info cfg.strict info found
  bytes ← write_file f.content found.size
  check_file_unchanged cfg.strict f found
  ok (make_entry cfg path found (compression_for cfg path found) bytes)

abbrev pub fail_on : Option Error → Result (Unit {0})
fail_on none = ok tt
fail_on (some e) = err e

abbrev pub is_full : ℤ → ℕ → Bool
is_full (pos zero) count = leb default_max_files count
is_full (pos (suc n)) count = leb (suc n) count
is_full (negsuc n) count = false

-- A symbolic link is passed over, also where only opening it shows that it is one.
abbrev pub is_symlink_error : Error → Bool
is_symlink_error (external n) = n == 22
is_symlink_error _ = false

abbrev pub pass_symlink : Result (Entry × Bytes) → Result (Option (Entry × Bytes))
pass_symlink (ok written) = ok (some written)
pass_symlink (err e) = if is_symlink_error e then ok none else err e

abbrev pub write_resolved :
    Config → ℕ → Visit → Option (Option FileInfo) → Result (Option (Entry × Bytes))
write_resolved cfg count v none = ok none
write_resolved cfg count v (some info) =
    if is_full cfg.max_files count
    then err too_many_files
    else pass_symlink (write_entry cfg v.path info v.open_file)

abbrev pub process_file : Config → ℕ → Visit → Result (Option (Entry × Bytes))
process_file cfg count v = do
  info ← resolve_entry_info cfg.strict v
  write_resolved cfg count v info

unfoldable pub process_entry : Config → ℕ → Visit → Result (Option (Entry × Bytes))
unfolding resolve_entry_info write_entry
process_entry cfg count v = do
  fail_on v.walk_error
  fail_on v.context_error
  if v.is_dir then ok none else process_file cfg count v

-- The entries so far, and the bytes written for them; their number is `totalBytes`.
pub record Written : Type 0 where
  pub entries : List Entry
  pub bytes : Bytes
  pub total : ℕ

abbrev pub append_entry : Written → Option (Entry × Bytes) → Result Written
append_entry w none = ok w
append_entry w (some (entry, bytes)) =
    if ltb (max_uint64 - w.total) entry.data_size
    then err size_overflow
    else ok (record {
      entries = w.entries ++ record entry { data_offset = w.total } ∷ [];
      bytes = w.bytes ++ bytes;
      total = add_u64 w.total entry.data_size;
    })

-- The walk of writeData
unfoldable pub write_visits : Config → List Visit → Written → Result Written
unfolding process_entry
write_visits cfg [] w = ok w
write_visits cfg (v ∷ vs) w = do
  written ← process_entry cfg (length w.entries) v
  next ← append_entry w written
  write_visits cfg vs next

unfoldable pub write_data : Config → List Visit → Result Written
unfolding write_visits
write_data cfg visits = write_visits cfg visits (record { entries = []; bytes = []; total = 0 })

-- buildIndex, with the tables as the records of their fields. The vector is in the order of the entries.
abbrev pub compression_code : Compression → ℤ
compression_code uncompressed = pos 0
compression_code zstd = pos 1
compression_code (other v) = if ltb v 128 then pos v else negsuc (255 - v)

unfoldable pub view_of : Entry → FbEntry
view_of e = record {
  path = e.path;
  data_offset = e.data_offset;
  data_size = e.data_size;
  original_size = e.original_size;
  hash = e.hash;
  mode = e.mode;
  uid = e.uid;
  gid = e.gid;
  mtime_ns = e.mod_time;
  compression = compression_code e.compression;
}

unfoldable pub build_index : List Entry → ℕ → Bytes → Index
unfolding view_of
build_index entries data_size data_hash = record {
  version = 1;
  entries = map view_of entries;
  data_size = data_size;
  data_hash = data_hash;
}
