-- ===== src/Cache/Disk.antt =====
-- core/cache/disk/cache.go and size.go: a cache of files named by their hash. The state holds the
-- files under the cache's directory beside the counter of bytes, so that Put can be seen to write a
-- temporary file, prune with it in place, and rename it. Calls of the system that fail are given by
-- `Faults`. One caller at a time; sizes are far below 2^63.
pub mod Files
pub mod Pruning
pub mod Accounts
pub mod Faulty
use blob.Prelude.{
  ℕ, zero, suc, ◌+◌, ◌-◌, ◌/◌, ◌%◌, Bool, true, false, not, ◌&&◌, ◌||◌, Option, none, some, List,
  [], ◌∷◌, ◌++◌, ltb, leb, ◌==◌, if◌then◌else◌, length, take, min, ℤ, pos, negsuc, raise, lower,
  leb_ℤ, Error, external, not_exist, Result, ok, err, ◌>>=◌,
}
use blob.Prelude.Bytes.{Bytes, equal, compare_bytes, at_least}
use blob.FilePath.{slash}

pub record DiskFile : Type 0 where
  pub path : Bytes
  pub content : Bytes
  pub mod_time : ℕ

pub record Cache : Type 0 where
  pub dir : Bytes
  pub shard_prefix_len : ℕ
  pub max_bytes : ℕ
  pub bytes : ℤ
  pub files : List DiskFile

-- The system calls that may fail.
pub record Faults : Type 0 where
  pub mkdir : Option Error
  pub create_temp : Option Error
  pub copy : Option Error
  pub close : Option Error
  pub rename : Option Error
  pub walk : Option Error
  pub remove : Bytes → Option Error

abbrev pub no_faults : Faults
no_faults = record {
  mkdir = none;
  create_temp = none;
  copy = none;
  close = none;
  rename = none;
  walk = none;
  remove = λ p. none;
}

-- `hash is empty`
abbrev pub empty_hash : Error
empty_hash = external 11

abbrev pub hex_digit : ℕ → ℕ
hex_digit d = if ltb d 10 then b'0' + d else b'a' + (d - 10)

-- hex.EncodeToString
unfoldable pub hex_encode : Bytes → Bytes
hex_encode [] = []
hex_encode (b ∷ bs) = hex_digit (b / 16) ∷ hex_digit (b % 16) ∷ hex_encode bs

-- filepath.Join, of a clean directory
abbrev pub join_path : Bytes → Bytes → Bytes
join_path dir name = dir ++ (slash ∷ name)

unfoldable pub path_of : Cache → Bytes → Result Bytes
path_of c [] = err empty_hash
path_of c (b ∷ bs) =
    let hex_hash = hex_encode (b ∷ bs) in
    if c.shard_prefix_len == 0
    then ok (join_path c.dir hex_hash)
    else ok (
        join_path (join_path c.dir (take (min c.shard_prefix_len (length hex_hash)) hex_hash))
          hex_hash)

-- Files by path
unfoldable pub find_file : Bytes → List DiskFile → Option DiskFile
find_file p [] = none
find_file p (f ∷ fs) = if equal f.path p then some f else find_file p fs

unfoldable pub drop_file : Bytes → List DiskFile → List DiskFile
drop_file p [] = []
drop_file p (f ∷ fs) = let rest = drop_file p fs in if equal f.path p then rest else f ∷ rest

abbrev pub exists_file : Bytes → List DiskFile → Bool
exists_file p fs = elim (find_file p fs) [ none ↦ false | some f ↦ true ]

unfoldable pub size_of : List DiskFile → ℕ
size_of [] = 0
size_of (f ∷ fs) = length f.content + size_of fs

-- pruneDir: the oldest files first, those of one age by path.
unfoldable pub is_before : DiskFile → DiskFile → Bool
is_before f g =
    if f.mod_time == g.mod_time then not (at_least f.path g.path) else ltb f.mod_time g.mod_time

unfoldable pub insert_by_age : DiskFile → List DiskFile → List DiskFile
insert_by_age f [] = f ∷ []
insert_by_age f (g ∷ gs) =
    let rest = insert_by_age f gs in if is_before g f then g ∷ rest else f ∷ g ∷ gs

unfoldable pub sort_by_age : List DiskFile → List DiskFile
unfolding insert_by_age is_before
sort_by_age [] = []
sort_by_age (f ∷ fs) = insert_by_age f (sort_by_age fs)

-- What the pruning loop leaves: the bytes freed and remaining, the error, and the files.
pub record Pruned : Type 0 where
  pub freed : ℕ
  pub remaining : ℕ
  pub error : Option Error
  pub files : List DiskFile

abbrev pub is_not_exist : Error → Bool
is_not_exist not_exist = true
is_not_exist _ = false

-- The loop over the sorted entries. A file that is gone is passed over; another error ends it.
unfoldable pub prune_loop : (Bytes → Option Error) → ℕ → List DiskFile → Pruned → Pruned
prune_loop remove target [] p = p
prune_loop remove target (f ∷ fs) p = if leb p.remaining target then p else (elim (remove f.path) [
  | none ↦ prune_loop remove target fs (record {
    freed = p.freed + length f.content;
    remaining = p.remaining - length f.content;
    error = none;
    files = drop_file f.path p.files;
  })
  | some e ↦ if is_not_exist e then prune_loop remove target fs p else record p { error = some e }
])

unfoldable pub prune_dir : Faults → ℕ → List DiskFile → Pruned
unfolding prune_loop sort_by_age
prune_dir faults target files = elim faults.walk [
  | some e ↦
      (if is_not_exist e
        then record { freed = 0; remaining = 0; error = none; files = files }
        else record { freed = 0; remaining = 0; error = some e; files = files })
  | none ↦
      let start : Pruned = record {
        freed = 0;
        remaining = size_of files;
        error = none;
        files = files;
      } in
      prune_loop faults.remove target (sort_by_age files) start
]

abbrev pub store_pruned : Option Error → Pruned → Cache → Result ℕ × Cache
store_pruned (some e) p c = (err e, record c { files = p.files })
store_pruned none p c = (ok p.freed, record c { bytes = pos p.remaining; files = p.files })

-- A negative target is 0.
abbrev pub target_of : ℤ → ℕ
target_of (pos n) = n
target_of (negsuc n) = 0

-- Prune: the counter is set to what remains, unless there was an error.
unfoldable pub prune : Faults → ℤ → Cache → Result ℕ × Cache
unfolding prune_dir
prune faults target c =
    let p = prune_dir faults (target_of target) c.files in store_pruned p.error p c

abbrev pub after_prune : ℕ → Result ℕ × Cache → Result Bool × Cache
after_prune need (err e, c) = (err e, c)
after_prune need (ok freed, c) = (ok (leb_ℤ (raise c.bytes need) c.max_bytes), c)

unfoldable pub ensure_capacity : Faults → ℕ → Cache → Result Bool × Cache
unfolding prune
ensure_capacity faults need c =
    if c.max_bytes == 0
    then (ok true, c)
    else if ltb c.max_bytes need
    then (ok false, c)
    else if leb_ℤ (raise c.bytes need) c.max_bytes
    then (ok true, c)
    else after_prune need (prune faults (pos (c.max_bytes - need)) c)

unfoldable pub get : Cache → Bytes → Option Bytes
unfolding path_of
get c hash = elim (path_of c hash) [
  | err e ↦ none
  | ok path ↦ elim (find_file path c.files) [ none ↦ none | some f ↦ some f.content ]
]

-- os.Rename of the temporary file over `path`.
unfoldable pub rename_file : Faults → Bytes → Bytes → List DiskFile → Result (List DiskFile)
rename_file faults tmp path files = elim faults.rename [
  | some e ↦ err e
  | none ↦ elim (find_file tmp files) [
    | none ↦ err not_exist
    | some f ↦ ok (record f { path = path } ∷ drop_file path (drop_file tmp files))
  ]
]

abbrev pub remove_temp : Bytes → Cache → Cache
remove_temp tmp c = record c { files = drop_file tmp c.files }

-- The end of Put: rename, and count the bytes; if it fails, drop the temporary file.
abbrev pub renamed : Bytes → Bytes → ℕ → Cache → Result (List DiskFile) → Result (Unit {0}) × Cache
renamed tmp path written c (ok files) =
    (ok tt, record c { bytes = raise c.bytes written; files = files })
renamed tmp path written c (err e) =
    (if exists_file path c.files then ok tt else err e, remove_temp tmp c)

-- Behind ensureCapacity: no room is no error.
unfoldable pub place : Faults → Bytes → Bytes → ℕ → Result Bool × Cache → Result (Unit {0}) × Cache
unfolding rename_file
place faults tmp path written (err e, c) = (err e, remove_temp tmp c)
place faults tmp path written (ok false, c) = (ok tt, remove_temp tmp c)
place faults tmp path written (ok true, c) =
    renamed tmp path written c (rename_file faults tmp path c.files)

abbrev pub or_else : Option Error → Option Error → Option Error
or_else (some e) later = some e
or_else none later = later

-- The first call that fails before the capacity is checked; the temporary file is then removed again.
abbrev pub first_fault : Faults → Option Error
first_fault faults =
    or_else faults.mkdir (or_else faults.create_temp (or_else faults.copy faults.close))

-- The content in its temporary file, room made for it, and the rename.
unfoldable pub store_temp : Faults → Bytes → ℕ → Cache → Bytes → Bytes → Result (Unit {0}) × Cache
unfolding ensure_capacity place
store_temp faults tmp now c path content =
    let temp : DiskFile = record { path = tmp; content = content; mod_time = now } in
    place faults tmp path (length content)
      (ensure_capacity faults (length content) (record c { files = temp ∷ c.files }))

unfoldable pub put_at : Faults → Bytes → ℕ → Cache → Bytes → Bytes → Result (Unit {0}) × Cache
unfolding store_temp
put_at faults tmp now c path content =
    if exists_file path c.files then (ok tt, c) else (elim (first_fault faults) [
      | some e ↦ (err e, c)
      | none ↦ store_temp faults tmp now c path content
    ])

-- Put of a file's content, with the name and the time of the temporary file that CreateTemp makes.
unfoldable pub put : Faults → Bytes → ℕ → Cache → Bytes → Bytes → Result (Unit {0}) × Cache
unfolding path_of put_at
put faults tmp now c hash content = elim (path_of c hash) [
  | err e ↦ (err e, c)
  | ok path ↦ put_at faults tmp now c path content
]

-- Delete
abbrev pub deleted : Bytes → Option DiskFile → Option Error → Cache → Result (Unit {0}) × Cache
deleted path none fault c = (ok tt, c)
deleted path (some f) (some e) c = (if is_not_exist e then ok tt else err e, c)
deleted path (some f) none c =
    (ok tt, record c { bytes = lower c.bytes (length f.content); files = drop_file path c.files })

unfoldable pub delete : Faults → Cache → Bytes → Result (Unit {0}) × Cache
unfolding path_of
delete faults c hash = elim (path_of c hash) [
  | err e ↦ (err e, c)
  | ok path ↦ deleted path (find_file path c.files) (faults.remove path) c
]
