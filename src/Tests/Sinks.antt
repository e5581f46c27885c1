-- ===== src/Tests/Sinks.antt =====
-- The file sink on a small directory.
use blob.Prelude.{◌≡◌, ◌++◌, refl, false, true, none, some, List, [], ◌∷◌, ok, external, pos}
use blob.Prelude.Bytes.{Bytes, equal}
use blob.Batch.FileSink.{
  OutFile, FileSink, Faults, Committer, find_out, temp_prefix, writer, writes, commit, discard,
}
use blob.Batch.FileSink.Files.{all_put, fresh}
use blob.Batch.FileSink.Atomic.{seen, writer-atomic}
use blob.FilePath.{valid_path, valid_string, valid_from, lead, split}
use blob.Tests.Samples.{entry_c}

abbrev keeping_times : FileSink
keeping_times = record {
  overwrite = true;
  preserve_mode = false;
  preserve_times = true;
  direct_write = false;
}

-- A disk on which the rename fails
abbrev bad_rename : Faults
bad_rename = record {
  stat = none;
  open_root = none;
  mkdir = none;
  open_file = none;
  write = none;
  close = none;
  chmod = none;
  chtimes = none;
  rename = some (external 7);
  remove = none;
  random = λ i. i ∷ [];
  now = pos 9;
}

abbrev old_files : List OutFile
old_files =
    record { path = entry_c.path; content = 1 ∷ 2 ∷ []; mode = 0x1a4; mod_time = pos 3 } ∷ []

abbrev temp_path : Bytes
temp_path = b'b' ∷ b'/' ∷ (temp_prefix ++ (0 ∷ []))

abbrev temp_c : Committer
temp_c = record { written = temp_path; direct = false; entry = entry_c }

abbrev with_temp : List OutFile
with_temp = fresh bad_rename temp_path [] ∷ old_files

opens_temp : writer bad_rename keeping_times old_files entry_c ≡ (ok temp_c, with_temp)
unfolding writer valid_path valid_string valid_from lead equal split
opens_temp = refl

temp_apart : equal temp_path entry_c.path ≡ false
unfolding equal
temp_apart = refl

writer-atomic_example :
    (find_out temp_path old_files ≡ none)
    × (find_out entry_c.path (writes bad_rename temp_c ((4 ∷ []) ∷ []) with_temp)
        ≡ find_out entry_c.path old_files)
    × (find_out entry_c.path
          (discard bad_rename temp_c (writes bad_rename temp_c ((4 ∷ []) ∷ []) with_temp)).1
        ≡ find_out entry_c.path old_files)
    × (find_out entry_c.path
          (commit bad_rename keeping_times temp_c
            (writes bad_rename temp_c ((4 ∷ []) ∷ []) with_temp)).1
        ≡ seen bad_rename keeping_times entry_c
            (all_put none ((4 ∷ []) ∷ []) [])
            (commit bad_rename keeping_times temp_c
              (writes bad_rename temp_c ((4 ∷ []) ∷ []) with_temp)).0
            entry_c.path
            old_files)
writer-atomic_example =
    writer-atomic bad_rename keeping_times old_files entry_c temp_c with_temp ((4 ∷ []) ∷ [])
      entry_c.path refl opens_temp temp_apart
