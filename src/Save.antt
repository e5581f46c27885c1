-- ===== src/Save.antt =====
-- core/save.go: writing an archive to an index file and a data file. Calls that fail are given by `Faults`;
-- os.CreateTemp and the source of the data are a library's, so the temporary name and what the stream of the
-- data yields are arguments. Paths are those of one directory tree.
pub mod Atomic
use blob.Prelude.{
  ℕ, ◌≡◌, Option, none, some, List, [], ◌∷◌, length, take, ℤ, Error, Result, ok, err,
}
use blob.Prelude.Bytes.{Bytes, equal}
use blob.Batch.FileSink.{OutFile, find_out, drop_out, first_error, moved}

-- The calls on one file that fail; a write that fails has written some bytes. `temp` is the name that
-- CreateTemp takes, and `now` the time of the file.
pub record Faults : Type 0 where
  pub create : Option Error
  pub write : Option (ℕ × Error)
  pub close : Option Error
  pub rename : Option Error
  pub remove : Option Error
  pub temp : Bytes
  pub now : ℤ

-- os.CreateTemp, and what is written to the file
abbrev pub temp_file : Faults → Bytes → OutFile
temp_file faults body = record {
  path = faults.temp;
  content = body;
  mode = 0x180;
  mod_time = faults.now;
}

unfoldable pub cleaned : Option Error → Bytes → List OutFile → List OutFile
unfolding drop_out
cleaned (some e) path files = files
cleaned none path files = drop_out path files

-- The end of both functions: Close and Rename
unfoldable pub finish_atomic :
    Faults → Bytes → Bytes → List OutFile → Result (Unit {0}) × List OutFile
unfolding find_out drop_out cleaned
finish_atomic faults target body files = elim (first_error faults.close faults.rename) [
  | some e ↦ (err e, cleaned faults.remove faults.temp (temp_file faults body ∷ files))
  | none ↦ (
    ok tt,
    moved target (temp_file faults body ∷ files)
        (find_out faults.temp (temp_file faults body ∷ files)),
  )
]

-- What follows the copy into the temporary file, which fails with the error after some bytes
unfoldable pub copied :
    Option (ℕ × Error) → Faults → Bytes → Bytes → List OutFile → Result (Unit {0}) × List OutFile
unfolding finish_atomic cleaned
copied (some (n, e)) faults target body files =
    (err e, cleaned faults.remove faults.temp (temp_file faults (take n body) ∷ files))
copied none faults target body files = finish_atomic faults target body files

-- writeFileAtomic
unfoldable pub write_file_atomic :
    Faults → Bytes → Bytes → List OutFile → Result (Unit {0}) × List OutFile
unfolding copied
write_file_atomic faults target body files = elim faults.create [
  | some e ↦ (err e, files)
  | none ↦ copied faults.write faults target body files
]

-- io.Copy fails where the file does, or at the end of a stream that ends in an error.
abbrev pub copy_fault : Option (ℕ × Error) → Bytes × Option Error → Option (ℕ × Error)
copy_fault (some w) r = some w
copy_fault none (body, none) = none
copy_fault none (body, some e) = some (length body, e)

-- streamFileAtomic
unfoldable pub stream_file_atomic :
    Faults → Bytes → Bytes × Option Error → List OutFile → Result (Unit {0}) × List OutFile
unfolding copied
stream_file_atomic faults target r files = elim faults.create [
  | some e ↦ (err e, files)
  | none ↦ copied (copy_fault faults.write r) faults target r.0 files
]

-- The calls of Save that fail; the last one removes the index file.
pub record SaveFaults : Type 0 where
  pub mkdir_index : Option Error
  pub mkdir_data : Option Error
  pub index : Faults
  pub body : Faults
  pub remove_index : Option Error

-- A failure of the data file takes the index file away again.
unfoldable pub after_data :
    SaveFaults → Bytes → Result (Unit {0}) × List OutFile → Result (Unit {0}) × List OutFile
unfolding cleaned
after_data faults index_path (ok u, files) = (ok u, files)
after_data faults index_path (err e, files) = (err e, cleaned faults.remove_index index_path files)

unfoldable pub after_index :
    SaveFaults
    → (index_path data_path : Bytes) → Bytes × Option Error
    → Result (Unit {0}) × List OutFile
    → Result (Unit {0}) × List OutFile
unfolding after_data stream_file_atomic
after_index faults index_path data_path r (err e, files) = (err e, files)
after_index faults index_path data_path r (ok u, files) =
    after_data faults index_path (stream_file_atomic faults.body data_path r files)

-- Save
unfoldable pub save :
    SaveFaults
    → (index_path data_path : Bytes) → (index_data : Bytes) → Bytes × Option Error
    → List OutFile
    → Result (Unit {0}) × List OutFile
unfolding after_index write_file_atomic
save faults index_path data_path index_data r files =
    elim (first_error faults.mkdir_index faults.mkdir_data) [
      | some e ↦ (err e, files)
      | none ↦
          after_index faults index_path data_path r
            (write_file_atomic faults.index index_path index_data files)
    ]
