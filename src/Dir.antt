-- ===== src/Dir.antt =====
-- Directories of an archive (core/blob.go, core/internal/file/file.go): the listing that dirIter,
-- ReadDir and openDir make up from the paths of the files.
pub mod Listing
pub mod Pages
pub mod Names
use blob.Prelude.{
  ℕ, zero, suc, ◌+◌, ◌-◌, Bool, true, false, not, ◌&&◌, Option, none, some, List, [], ◌∷◌, ◌++◌,
  if◌then◌else◌, ltb, length, Error, size_overflow, invalid_path, not_exist, eof, Result, ok, err,
}
use blob.Prelude.Bytes.{Bytes, equal}
use blob.Sizing.{to_int64}
use blob.Entry.{Entry, FbEntry, entry_from_view_with_path}
use blob.FilePath.{dot_path, child, dir_prefix, valid_path}
use blob.Index.{Index, entries_with_prefix_view}

-- fs.FileInfo, of a file or of a synthetic directory
pub data Info : Type 0 where
  file_info : Entry → Bytes → ℕ → Info
  dir_info : Bytes → Info

-- NewInfo: the size must fit in an int64.
abbrev pub info_with : Entry → Bytes → Result ℕ → Result Info
info_with entry name (ok size) = ok (file_info entry name size)
info_with entry name (err e) = err e

unfoldable pub new_info : Entry → Bytes → Result Info
new_info entry name = info_with entry name (to_int64 entry.original_size size_overflow)

-- fs.DirEntry: its name, whether it is a directory, and what Info returns.
pub record DirEntry : Type 0 where
  pub name : Bytes
  pub is_dir : Bool
  pub info : Result Info

-- Where NewInfo fails the code falls back on an empty Info, whose name is empty.
abbrev pub file_entry : Bytes → Result Info → DirEntry
file_entry name (ok info) = record { name = name; is_dir = false; info = ok info }
file_entry name (err e) = record { name = []; is_dir = false; info = err e }

unfoldable pub make_entry : FbEntry → Bytes → Bool → DirEntry
make_entry view name true = record { name = name; is_dir = true; info = ok (dir_info name) }
make_entry view name false =
    file_entry name (new_info (entry_from_view_with_path view view.path) name)

-- dirIter: the entries that the pulled sequence still holds, and the last name.
pub record DirIter : Type 0 where
  pub pending : List FbEntry
  pub prefix : Bytes
  pub last_name : Bytes
  pub done : Bool

unfoldable pub new_dir_iter : Index → Bytes → DirIter
new_dir_iter idx prefix = record {
  pending = entries_with_prefix_view idx prefix;
  prefix = prefix;
  last_name = [];
  done = false;
}

-- The loop of Next over the sequence.
unfoldable pub next_from : Bytes → Bytes → List FbEntry → Option DirEntry × DirIter
next_from prefix last_name [] =
    (none, record { pending = []; prefix = prefix; last_name = last_name; done = true })
next_from prefix last_name (view ∷ views) =
    let rest = next_from prefix last_name views in
    let (name, is_sub) = child view.path prefix in
    if equal name last_name then rest else (
      some (make_entry view name is_sub),
      record { pending = views; prefix = prefix; last_name = name; done = false },
    )

unfoldable pub next : DirIter → Option DirEntry × DirIter
unfolding next_from
next it = if it.done then (none, it) else next_from it.prefix it.last_name it.pending

-- The body of the loops over Next: stop at the end, else append the entry and go on.
abbrev pub collect :
    (DirIter → List DirEntry × DirIter) → Option DirEntry × DirIter → List DirEntry × DirIter
collect again (none, it) = ([], it)
collect again (some entry, it) = let (entries, it') = again it in (entry ∷ entries, it')

-- The loops of ReadDir and readAll. The fuel is a bound on the calls of Next.
unfoldable pub read_all_loop : ℕ → DirIter → List DirEntry × DirIter
read_all_loop zero it = ([], it)
read_all_loop (suc fuel) it = collect (read_all_loop fuel) (next it)

unfoldable pub read_all : DirIter → List DirEntry × DirIter
read_all it = read_all_loop (length it.pending + 1) it

unfoldable pub listed : Bytes → List DirEntry → Result (List DirEntry)
listed name [] = if equal name dot_path then ok [] else err not_exist
listed name (e ∷ es) = ok (e ∷ es)

unfoldable pub read_dir : Index → Bytes → Result (List DirEntry)
unfolding listed
read_dir idx name =
    if valid_path name
    then listed name (read_all (new_dir_iter idx (dir_prefix name))).0
    else err invalid_path

-- openDir.ReadDir(n) for n > 0: at most n entries; at the end io.EOF.
unfoldable pub page_loop : ℕ → DirIter → List DirEntry × DirIter
page_loop zero it = ([], it)
page_loop (suc n) it = collect (page_loop n) (next it)

abbrev pub page_result : List DirEntry → Result (List DirEntry)
page_result [] = err eof
page_result (e ∷ es) = ok (e ∷ es)

unfoldable pub read_page : ℕ → DirIter → Result (List DirEntry) × DirIter
read_page zero it = let (entries, it') = read_all it in (ok entries, it')
read_page (suc n) it = let (entries, it') = page_loop (suc n) it in (page_result entries, it')
