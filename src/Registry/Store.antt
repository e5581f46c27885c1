-- ===== src/Registry/Store.antt =====
-- What the caches of registry/cache/disk/cache.go have in common: files under a root, with paths relative
-- to it, a counter of bytes, and the pruning of size.go, which is that of core/cache/disk. Calls that
-- fail are given by `World`. One caller at a time; sizes are far below 2^63; rand.Read does not fail.
pub mod Entries
use blob.Prelude.{
  ℕ, zero, suc, ◌+◌, ◌-◌, Bool, true, false, not, ◌&&◌, ◌||◌, Option, none, some, List, [], ◌∷◌,
  ◌++◌, ltb, leb, ◌==◌, if◌then◌else◌, length, take, drop, min, ℤ, pos, negsuc, is_negative, Error,
  external, Result, ok, err, ◌>>=◌, ◌>>◌, reject_if,
}
use blob.Prelude.Bytes.{Bytes, equal}
use blob.FilePath.{slash}
use blob.Cache.Disk.{
  DiskFile, Cache, Faults, find_file, is_not_exist, deleted, ensure_capacity, rename_file, renamed,
  or_else, join_path,
}
use blob.Cache.Block.{dir_size, failing}

-- Calls that fail on their own, the random part of the names of temporary files, and the time.
pub record World : Type 0 where
  pub faults : Faults
  pub open_root : Option Error
  pub stat : Bytes → Option Error
  pub unreadable : Bytes → Option Error
  pub random : ℕ → Bytes
  pub now : ℕ

-- The digests of github.com/opencontainers/go-digest: Parse with the algorithm's name, Validate,
-- Available, and FromBytes.
pub record Digests : Type 0 where
  pub parse : Bytes → Result Bytes
  pub validate : Bytes → Result (Unit {0})
  pub available : Bytes → Bool
  pub from_bytes : Bytes → Bytes → Bytes

abbrev pub invalid_cache : Error
invalid_cache = external 40

abbrev pub invalid_digest : Error
invalid_digest = external 41

abbrev pub digest_mismatch : Error
digest_mismatch = external 42

abbrev pub no_temp : Error
no_temp = external 43

-- The options of a cache, config.
pub record Config : Type 0 where
  pub shard_prefix_len : ℤ
  pub max_bytes : ℤ
  pub ref_ttl : ℤ

abbrev pub default_config : Config
default_config = record { shard_prefix_len = pos 2; max_bytes = pos 0; ref_ttl = pos 0 }

abbrev pub count_of : ℤ → ℕ
count_of (pos n) = n
count_of (negsuc n) = 0

-- What the constructors do for all caches, of the files that are there.
unfoldable pub new_store : World → Bytes → Config → List DiskFile → Result Cache
unfolding dir_size
new_store w dir config files = do
  reject_if (equal dir []) invalid_cache
  reject_if (is_negative config.shard_prefix_len) invalid_cache
  reject_if (is_negative config.max_bytes) invalid_cache
  failing w.faults.mkdir
  size ← dir_size w.faults.walk files
  ok (record {
    dir = dir;
    shard_prefix_len = count_of config.shard_prefix_len;
    max_bytes = count_of config.max_bytes;
    bytes = pos size;
    files = files;
  })

-- The directory of a key under the root; none without sharding.
abbrev pub shard_of : Cache → Bytes → Option Bytes
shard_of c key =
    if c.shard_prefix_len == 0 then none else some (take (min c.shard_prefix_len (length key)) key)

abbrev pub in_shard : Option Bytes → Bytes → Bytes
in_shard none name = name
in_shard (some dir) name = join_path dir name

unfoldable pub path_of : Cache → Bytes → Bytes
path_of c key = in_shard (shard_of c key) key

-- What Stat says.
pub data Stat : Type 0 where
  missing : Stat
  failed : Error → Stat
  found : DiskFile → Stat

abbrev pub found_file : Option DiskFile → Stat
found_file none = missing
found_file (some f) = found f

unfoldable pub stat_file : World → Bytes → Cache → Stat
stat_file w path c = elim (w.stat path) [
  | some e ↦ (if is_not_exist e then missing else failed e)
  | none ↦ found_file (find_file path c.files)
]

-- deleteByPath, and Delete behind its path
unfoldable pub delete_by_path : World → Bytes → Cache → Result (Unit {0}) × Cache
unfolding stat_file
delete_by_path w path c = elim (stat_file w path c) [
  | missing ↦ (ok tt, c)
  | failed e ↦ (err e, c)
  | found f ↦ deleted path (some f) (w.faults.remove path) c
]

-- ReadFile
abbrev pub read_file : World → Bytes → Cache → Option Bytes
read_file w path c = elim (w.unreadable path) [
  | some e ↦ none
  | none ↦ elim (find_file path c.files) [ none ↦ none | some f ↦ some f.content ]
]

-- createTemp: a name that is not taken, in 10,000 attempts.
unfoldable pub create_temp_loop :
    (attempts : ℕ) → ℕ → World → Option Bytes → Bytes → Cache → Result Bytes
create_temp_loop zero i w shard stem c = err no_temp
create_temp_loop (suc k) i w shard stem c =
    let path = in_shard shard (stem ++ w.random i) in
    elim (find_file path c.files) [
      | some f ↦ create_temp_loop k (i + 1) w shard stem c
      | none ↦ elim w.faults.create_temp [ some e ↦ err e | none ↦ ok path ]
    ]

unfoldable pub create_temp : World → Option Bytes → Bytes → Cache → Result Bytes
unfolding create_temp_loop
create_temp w shard stem c = create_temp_loop 10_000 0 w shard stem c

-- MkdirAll is called for a shard only.
abbrev pub mkdir_fault : World → Option Bytes → Option Error
mkdir_fault w none = none
mkdir_fault w (some dir) = w.faults.mkdir

-- The temporary file with its content, renamed to `path`.
unfoldable pub rename_entry : World → Bytes → Bytes → Bytes → Cache → Result (Unit {0}) × Cache
unfolding rename_file
rename_entry w tmp path raw c = elim (or_else w.faults.copy w.faults.close) [
  | some e ↦ (err e, c)
  | none ↦
      let temp : DiskFile = record { path = tmp; content = raw; mod_time = w.now } in
      let c' : Cache = record c { files = temp ∷ c.files } in
      renamed tmp path (length raw) c' (rename_file w.faults tmp path c'.files)
]

abbrev pub write_temp : World → Bytes → Bytes → Cache → Result Bytes → Result (Unit {0}) × Cache
write_temp w path raw c (err e) = (err e, c)
write_temp w path raw c (ok tmp) = rename_entry w tmp path raw c

-- Behind ensureCapacity: where there is no room, nothing is written.
unfoldable pub write_entry :
    World → Bytes → Bytes → Bytes → Bytes → Result Bool × Cache → Result (Unit {0}) × Cache
unfolding create_temp rename_entry
write_entry w stem key path raw (err e, c) = (err e, c)
write_entry w stem key path raw (ok false, c) = (ok tt, c)
write_entry w stem key path raw (ok true, c) = elim (mkdir_fault w (shard_of c key)) [
  | some e ↦ (err e, c)
  | none ↦ write_temp w path raw c (create_temp w (shard_of c key) stem c)
]

abbrev pub checked_entry :
    World → Bytes → Bytes → Bytes → Bytes → Cache → Result (Unit {0}) → Result (Unit {0}) × Cache
checked_entry w stem key path raw c (err e) = (err e, c)
checked_entry w stem key path raw c (ok u) =
    write_entry w stem key path raw (ensure_capacity w.faults (length raw) c)

-- The Put of a cache: an entry that is there is kept; `check` is what is asked of a new one.
unfoldable pub put_entry :
    World → Bytes → Bytes → Bytes → Result (Unit {0}) → Cache → Result (Unit {0}) × Cache
unfolding stat_file path_of write_entry ensure_capacity
put_entry w stem key raw check c = elim w.open_root [
  | some e ↦ (err e, c)
  | none ↦
      let path = path_of c key in
      elim (stat_file w path c) [
        | found f ↦ (ok tt, c)
        | failed e ↦ (err e, c)
        | missing ↦ checked_entry w stem key path raw c check
      ]
]

-- digestMatches
unfoldable pub digest_matches : Digests → Bytes → Bytes → Result Bool
digest_matches d dgst raw = do
  algorithm ← d.parse dgst
  d.validate dgst
  reject_if (not (d.available algorithm)) invalid_digest
  ok (equal (d.from_bytes algorithm raw) dgst)

abbrev pub is_hex : ℕ → Bool
is_hex b = (leb b'0' b && leb b b'9') || (leb b'a' b && leb b b'f') || (leb b'A' b && leb b b'F')

-- strings.IndexByte(dgst, ':')
unfoldable pub index_colon : Bytes → Option ℕ
index_colon [] = none
index_colon (b ∷ bs) =
    if b == b':' then some 0 else elim (index_colon bs) [ none ↦ none | some i ↦ some (i + 1) ]

abbrev pub all_of : (ℕ → Bool) → Bytes → Bool
all_of f [] = true
all_of f (b ∷ bs) = f b && all_of f bs

abbrev pub hex_of : Bytes → Option ℕ → Bytes
hex_of dgst none = dgst
hex_of dgst (some i) = drop (i + 1) dgst

-- sanitizeHexDigest
unfoldable pub sanitize_hex_digest : Bytes → Result Bytes
unfolding index_colon
sanitize_hex_digest dgst =
    let hex_hash = hex_of dgst (index_colon dgst) in
    if equal hex_hash []
    then err invalid_digest
    else if all_of is_hex hex_hash
    then ok hex_hash
    else err invalid_digest
