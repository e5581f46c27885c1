-- ===== src/Batch/FileSink.antt =====
-- core/internal/batch/filesink.go: entries written to files below a directory. Paths are relative to the
-- directory, on a system whose separator is the slash. Calls that fail are given by `Faults`; errors of
-- rand.Read and of the closing of the root are left out.
pub mod Files
pub mod Atomic
use Prim.Native.Nat.{bit_and}
use blob.Prelude.{
  ℕ, zero, suc, ◌+◌, Bool, true, false, not, ◌&&◌, Option, none, some, List, [], ◌∷◌, ◌++◌, ◌==◌,
  if◌then◌else◌, length, take, ℤ, Error, external, invalid_path, exists, Result, ok, err, ◌>>=◌,
  ◌>>◌,
}
use blob.Prelude.Bytes.{Bytes, equal}
use blob.FilePath.{slash, valid_path}
use blob.Entry.{Entry}

pub record OutFile : Type 0 where
  pub path : Bytes
  pub content : Bytes
  pub mode : ℕ
  pub mod_time : ℤ

-- FileSink. Its directory is the root of the paths.
pub record FileSink : Type 0 where
  pub overwrite : Bool
  pub preserve_mode : Bool
  pub preserve_times : Bool
  pub direct_write : Bool

-- The calls that fail; a write that fails has written some bytes. `random` is the random suffix of an
-- attempt, and `now` the time that a new or written file gets.
pub record Faults : Type 0 where
  pub stat : Option Error
  pub open_root : Option Error
  pub mkdir : Option Error
  pub open_file : Option Error
  pub write : Option (ℕ × Error)
  pub close : Option Error
  pub chmod : Option Error
  pub chtimes : Option Error
  pub rename : Option Error
  pub remove : Option Error
  pub random : ℕ → Bytes
  pub now : ℤ

abbrev pub exhausted : Error
exhausted = external 90

unfoldable pub find_out : Bytes → List OutFile → Option OutFile
find_out p [] = none
find_out p (f ∷ fs) = if equal f.path p then some f else find_out p fs

unfoldable pub drop_out : Bytes → List OutFile → List OutFile
drop_out p [] = []
drop_out p (f ∷ fs) = let rest = drop_out p fs in if equal f.path p then rest else f ∷ rest

-- A change of the file with a path
unfoldable pub change : (OutFile → OutFile) → Bytes → List OutFile → List OutFile
change g p [] = []
change g p (f ∷ fs) =
    let rest = change g p fs in
    (if equal f.path p then record (g f) { path = f.path } else f) ∷ rest

abbrev pub is_missing : Option Error → Option OutFile → Bool
is_missing (some e) o = false
is_missing none none = true
is_missing none (some f) = false

-- ShouldProcess
unfoldable pub should_process : Faults → FileSink → List OutFile → Entry → Bool
unfolding find_out
should_process faults s files e =
    if s.overwrite
    then true
    else if not (valid_path e.path)
    then false
    else is_missing faults.stat (find_out e.path files)

-- A committer: the file that is written, whether it is the final one, and the entry.
pub record Committer : Type 0 where
  pub written : Bytes
  pub direct : Bool
  pub entry : Entry

-- filepath.Dir with its slash; nothing for a name alone
unfoldable pub parent_prefix : Bytes → Bytes
parent_prefix [] = []
parent_prefix (b ∷ bs) = elim (parent_prefix bs) [
  | [] ↦ if b == slash then b ∷ [] else []
  | (x ∷ xs) ↦ b ∷ x ∷ xs
]

-- ".blob-"
abbrev pub temp_prefix : Bytes
temp_prefix = b'.' ∷ b'b' ∷ b'l' ∷ b'o' ∷ b'b' ∷ b'-' ∷ []

abbrev pub new_file : Faults → Bytes → OutFile
new_file faults path = record { path = path; content = []; mode = 0x180; mod_time = faults.now }

abbrev pub temp_name : Faults → Bytes → ℕ → Bytes
temp_name faults dest i = parent_prefix dest ++ (temp_prefix ++ faults.random i)

-- errors.Is(err, os.ErrExist)
abbrev pub is_exist : Error → Bool
is_exist exists = true
is_exist e = false

-- createTempFile: a name that is not taken, in 10 attempts. An error that says that the file exists, wherever
-- it comes from, leads to the next attempt.
unfoldable pub create_temp_file : (attempts : ℕ) → ℕ → Faults → Bytes → List OutFile → Result Bytes
unfolding parent_prefix
create_temp_file zero i faults dest files = err exhausted
create_temp_file (suc k) i faults dest files =
    let rest = create_temp_file k (i + 1) faults dest files in
    elim (find_out (temp_name faults dest i) files) [
      | some f ↦ rest
      | none ↦ elim faults.open_file [
        | some e ↦ if is_exist e then rest else err e
        | none ↦ ok (temp_name faults dest i)
      ]
    ]

-- O_CREATE|O_TRUNC: a file that is there keeps its mode.
abbrev pub truncated : Faults → Bytes → List OutFile → Option OutFile → List OutFile
truncated faults path files none = new_file faults path ∷ files
truncated faults path files (some f) =
    change (λ g. record g { content = []; mod_time = faults.now }) path files

abbrev pub open_direct : Faults → Entry → List OutFile → Result Committer × List OutFile
open_direct faults e files = elim faults.open_file [
  | some x ↦ (err x, files)
  | none ↦ (
    ok (record { written = e.path; direct = true; entry = e }),
    truncated faults e.path files (find_out e.path files),
  )
]

abbrev pub opened_temp :
    Faults → Entry → List OutFile → Result Bytes → Result Committer × List OutFile
opened_temp faults e files (err x) = (err x, files)
opened_temp faults e files (ok temp) =
    (ok (record { written = temp; direct = false; entry = e }), new_file faults temp ∷ files)

abbrev pub first_error : Option Error → Option Error → Option Error
first_error (some e) other = some e
first_error none other = other

-- Writer
unfoldable pub writer : Faults → FileSink → List OutFile → Entry → Result Committer × List OutFile
unfolding create_temp_file find_out change
writer faults s files e =
    if not (valid_path e.path)
    then (err invalid_path, files)
    else (elim (first_error faults.open_root faults.mkdir) [
      | some x ↦ (err x, files)
      | none ↦
          (if s.direct_write
            then open_direct faults e files
            else opened_temp faults e files (create_temp_file 10 0 faults e.path files))
    ])

abbrev pub append_content : Faults → Bytes → OutFile → OutFile
append_content faults p f = record f { content = f.content ++ p; mod_time = faults.now }

-- Write
unfoldable pub write : Faults → Committer → Bytes → List OutFile → (ℕ × Option Error) × List OutFile
unfolding change
write faults c p files = elim faults.write [
  | none ↦ ((length p, none), change (append_content faults p) c.written files)
  | some (n, e) ↦ ((n, some e), change (append_content faults (take n p)) c.written files)
]

abbrev pub removed : Faults → Bytes → List OutFile → List OutFile
removed faults path files = elim faults.remove [ some e ↦ files | none ↦ drop_out path files ]

abbrev pub when : Bool → Option Error → Option Error
when true e = e
when false e = none

-- Mode.Perm()
abbrev pub perm : ℕ → ℕ
perm mode = bit_and mode 0x1ff

abbrev pub with_mode : FileSink → Committer → OutFile → OutFile
with_mode s c f = if s.preserve_mode then record f { mode = perm c.entry.mode } else f

abbrev pub with_times : FileSink → Committer → OutFile → OutFile
with_times s c f = if s.preserve_times then record f { mod_time = c.entry.mod_time } else f

-- The metadata that Commit applies
abbrev pub finished : FileSink → Committer → OutFile → OutFile
finished s c f = with_times s c (with_mode s c f)

-- The first call of Commit that fails before the rename
abbrev pub commit_fault : Faults → FileSink → Option Error
commit_fault faults s =
    first_error faults.close
      (first_error (when s.preserve_mode faults.chmod) (when s.preserve_times faults.chtimes))

-- The files when a call before the rename has failed: the mode may have been set.
unfoldable pub reached : Faults → FileSink → Committer → List OutFile → List OutFile
unfolding change
reached faults s c files = elim (first_error faults.close (when s.preserve_mode faults.chmod)) [
  | some e ↦ files
  | none ↦ change (with_mode s c) c.written files
]

abbrev pub moved : Bytes → List OutFile → Option OutFile → List OutFile
moved dest files none = files
moved dest files (some f) = record f { path = dest } ∷ drop_out dest (drop_out f.path files)

-- The end of Commit: a temporary file is renamed over the final path.
abbrev pub rename_out : Faults → Committer → List OutFile → Result (Unit {0}) × List OutFile
rename_out faults c files = if c.direct then (ok tt, files) else (elim faults.rename [
  | some e ↦ (err e, removed faults c.written files)
  | none ↦ (ok tt, moved c.entry.path files (find_out c.written files))
])

-- Commit
unfoldable pub commit :
    Faults → FileSink → Committer → List OutFile → Result (Unit {0}) × List OutFile
unfolding find_out drop_out change reached
commit faults s c files = elim (commit_fault faults s) [
  | some e ↦ (err e, removed faults c.written (reached faults s c files))
  | none ↦ rename_out faults c (change (finished s c) c.written files)
]

-- Discard
unfoldable pub discard : Faults → Committer → List OutFile → Result (Unit {0}) × List OutFile
unfolding drop_out
discard faults c files = elim faults.remove [
  | some e ↦ (err e, files)
  | none ↦ (ok tt, drop_out c.written files)
]

-- Writes one after the other
unfoldable pub writes : Faults → Committer → List Bytes → List OutFile → List OutFile
unfolding write
writes faults c [] files = files
writes faults c (p ∷ ps) files = writes faults c ps (write faults c p files).1
