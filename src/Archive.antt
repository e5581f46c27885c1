-- ===== src/Archive.antt =====
-- core/blob.go: the queries of an archive over its index, and ReadFile with its cache. ReadDir and the
-- open directory are in Dir.antt, the extraction by the batch processor in Batch.antt.
pub mod Queries
pub mod Stats
pub mod Contents
use blob.Prelude.{
  ℕ, zero, suc, ◌+◌, ◌≡◌, Bool, true, false, not, ◌&&◌, ◌||◌, Option, none, some, List, [], ◌∷◌,
  ◌++◌, ltb, ◌==◌, if◌then◌else◌, length, add_u64, Error, invalid_path, not_exist, hash_mismatch,
  Result, ok, err, ◌>>=◌, map,
}
use blob.Prelude.Bytes.{Bytes, equal}
use blob.Entry.{Entry, FbEntry, entry_from_view_with_path, is_regular}
use blob.FilePath.{slash, dot_path, base, dir_prefix, normalize_path, valid_path}
use blob.Index.{Index, lookup_view, entries_with_prefix_view, len}
use blob.Dir.{Info, new_info, dir_info}
use blob.Reading.{FileReader, read_all}

abbrev pub is_some {ℓ} : {A : Type ℓ} → Option A → Bool
is_some none = false
is_some (some a) = true

-- The loop that returns at the first entry
abbrev pub is_any : List FbEntry → Bool
is_any [] = false
is_any (e ∷ es) = true

-- isDir, of a path that is valid
unfoldable pub is_dir_named : Index → Bytes → Bool
is_dir_named idx name =
    if equal name dot_path
    then ltb 0 (len idx)
    else is_any (entries_with_prefix_view idx (name ++ slash ∷ []))

abbrev pub is_regular_view : Option FbEntry → Bool
is_regular_view none = false
is_regular_view (some view) = is_regular view.mode

-- Behind the normalization
abbrev pub is_file_at : Index → Bytes → Bool
is_file_at idx path = if valid_path path then is_regular_view (lookup_view idx path) else false

abbrev pub is_dir_at : Index → Bytes → Bool
is_dir_at idx path = if valid_path path then is_dir_named idx path else false

unfoldable pub is_file : Index → Bytes → Bool
is_file idx path = is_file_at idx (normalize_path path)

unfoldable pub is_dir : Index → Bytes → Bool
unfolding is_dir_named
is_dir idx path = is_dir_at idx (normalize_path path)

-- Exists calls the methods, which normalize the path again.
abbrev pub exists_at : Index → Bytes → Bool
exists_at idx path = if valid_path path then is_file idx path || is_dir idx path else false

unfoldable pub exists_path : Index → Bytes → Bool
unfolding is_file is_dir
exists_path idx path = exists_at idx (normalize_path path)

-- ValidationError's reasons
pub data Reason : Type 0 where
  bad_path is_a_directory not_found not_regular : Reason

pub data Checked : Type 0 where
  valid : List Bytes → Checked
  invalid : Bytes → Reason → Checked

abbrev pub entry_reason : Index → Bytes → Option FbEntry → Option Reason
entry_reason idx name none = if is_dir_named idx name then some is_a_directory else some not_found
entry_reason idx name (some view) = if is_regular view.mode then none else some not_regular

-- What is wrong with a normalized path
unfoldable pub reason_of : Index → Bytes → Option Reason
unfolding is_dir_named
reason_of idx name =
    if valid_path name then entry_reason idx name (lookup_view idx name) else some bad_path

abbrev pub with_normalized : Bytes → Checked → Checked
with_normalized name (valid names) = valid (name ∷ names)
with_normalized name (invalid path reason) = invalid path reason

unfoldable pub validate_files : Index → List Bytes → Checked
unfolding reason_of
validate_files idx [] = valid []
validate_files idx (path ∷ paths) =
    let rest = validate_files idx paths in
    elim (reason_of idx (normalize_path path)) [
      | some reason ↦ invalid path reason
      | none ↦ with_normalized (normalize_path path) rest
    ]

-- Stat
abbrev pub stat_dir : Index → Bytes → Result Info
stat_dir idx name =
    if is_dir_named idx name
    then ok (dir_info (if equal name dot_path then dot_path else base name))
    else err not_exist

abbrev pub stat_view : Index → Bytes → Option FbEntry → Result Info
stat_view idx name none = stat_dir idx name
stat_view idx name (some view) = new_info (entry_from_view_with_path view name) (base name)

unfoldable pub stat : Index → Bytes → Result Info
unfolding is_dir_named
stat idx name =
    if valid_path name then stat_view idx name (lookup_view idx name) else err invalid_path

pub record DirStats : Type 0 where
  pub file_count : ℕ
  pub total_bytes : ℕ
  pub compressed_bytes : ℕ

abbrev pub no_dir_stats : DirStats
no_dir_stats = record { file_count = 0; total_bytes = 0; compressed_bytes = 0 }

-- The loop over the entries: the regular ones count, in uint64 sums.
unfoldable pub stats_loop : DirStats → List FbEntry → DirStats
stats_loop stats [] = stats
stats_loop stats (view ∷ views) =
    let counted =
      stats_loop
        (record {
          file_count = stats.file_count + 1;
          total_bytes = add_u64 stats.total_bytes view.original_size;
          compressed_bytes = add_u64 stats.compressed_bytes view.data_size;
        })
        views in
    let passed = stats_loop stats views in if is_regular view.mode then counted else passed

-- An exact file, if the prefix names one
abbrev pub file_stats : Option FbEntry → Option DirStats
file_stats none = none
file_stats (some view) =
    if is_regular view.mode
    then some (record {
      file_count = 1;
      total_bytes = view.original_size;
      compressed_bytes = view.data_size;
    })
    else none

abbrev pub stats_below : Index → Bytes → Option DirStats → DirStats
stats_below idx prefix (some stats) = stats
stats_below idx prefix none =
    stats_loop no_dir_stats (entries_with_prefix_view idx (dir_prefix prefix))

abbrev pub dir_stats_at : Index → Bytes → DirStats
dir_stats_at idx prefix =
    if valid_path prefix
    then stats_below idx prefix
        (if equal prefix dot_path then none else file_stats (lookup_view idx prefix))
    else no_dir_stats

unfoldable pub dir_stats : Index → Bytes → DirStats
unfolding stats_loop
dir_stats idx prefix = dir_stats_at idx (normalize_path prefix)

-- collectPathEntries: paths that are invalid or missing are passed over.
abbrev pub with_path_entry : Bytes → Option FbEntry → List Entry → List Entry
with_path_entry path none entries = entries
with_path_entry path (some view) entries = entry_from_view_with_path view path ∷ entries

unfoldable pub collect_path_entries : Index → List Bytes → List Entry
collect_path_entries idx [] = []
collect_path_entries idx (path ∷ paths) =
    let rest = collect_path_entries idx paths in
    if valid_path path then with_path_entry path (lookup_view idx path) rest else rest

unfoldable pub entries_of : List FbEntry → List Entry
entries_of [] = []
entries_of (view ∷ views) = entry_from_view_with_path view view.path ∷ entries_of views

abbrev pub is_root : Bytes → Bool
is_root prefix = equal prefix [] || equal prefix dot_path

-- collectPrefixEntries
unfoldable pub collect_prefix_entries : Index → Bytes → List Entry
unfolding entries_of
collect_prefix_entries idx prefix =
    let dir = if is_root prefix then [] else dir_prefix prefix in
    if not (is_root prefix) && not (valid_path prefix)
    then []
    else entries_of (entries_with_prefix_view idx dir)

-- ReadFile. What the cache holds under the entry's hash is seen twice, before and inside the single
-- flight, and other callers may change it between; `none` for the cache is an archive without one.
pub record CacheView : Type 0 where
  pub before : Option (Result Bytes)
  pub inside : Option (Result Bytes)

pub data CacheAction : Type 0 where
  keep : CacheAction
  delete : Bytes → CacheAction
  store : Bytes → Bytes → CacheAction

abbrev pub checked_hit : FileReader → Entry → Result Bytes → Result Bytes × CacheAction
checked_hit r entry (err e) = (err e, keep)
checked_hit r entry (ok content) =
    if equal (r.sha256 content) entry.hash
    then (ok content, keep)
    else (err hash_mismatch, delete entry.hash)

abbrev pub fetched : Entry → Result Bytes → Result Bytes × CacheAction
fetched entry (err e) = (err e, keep)
fetched entry (ok content) = (ok content, store entry.hash content)

-- The function of the single flight
abbrev pub flight : FileReader → Entry → Option (Result Bytes) → Result Bytes × CacheAction
flight r entry (some content) = (content, keep)
flight r entry none = fetched entry (read_all r entry)

abbrev pub read_cached :
    FileReader → Entry → CacheView → Option (Result Bytes) → Result Bytes × CacheAction
read_cached r entry view (some content) = checked_hit r entry content
read_cached r entry view none = flight r entry view.inside

abbrev pub read_entry : FileReader → Entry → Option CacheView → Result Bytes × CacheAction
read_entry r entry none = (read_all r entry, keep)
read_entry r entry (some view) = read_cached r entry view view.before

abbrev pub read_view :
    FileReader → Bytes → Option FbEntry → (Bytes → Option CacheView) → Result Bytes × CacheAction
read_view r name none cache = (err not_exist, keep)
read_view r name (some view) cache =
    read_entry r (entry_from_view_with_path view name) (cache view.hash)

-- With what the cache shows under a hash
unfoldable pub read_file :
    Index → FileReader → (Bytes → Option CacheView) → Bytes → Result Bytes × CacheAction
read_file idx r cache name =
    if valid_path name
    then read_view r name (lookup_view idx name) cache
    else (err invalid_path, keep)
