-- ===== src/Tests/Saves.antt =====
-- Save on concrete data.
use blob.Prelude.{◌≡◌, refl, false, Option, none, some, [], ◌∷◌, Error, external, pos}
use blob.Prelude.Bytes.{Bytes, equal}
use blob.Batch.FileSink.{find_out}
use blob.Save.{Faults, SaveFaults, save}
use blob.Save.Atomic.{Saved, placed, save-Saved}

-- An index file that takes the place of an old one, and a data stream that breaks off
abbrev good_calls : Faults
good_calls = record {
  create = none;
  write = none;
  close = none;
  rename = none;
  remove = none;
  temp = 1 ∷ [];
  now = pos 5;
}

abbrev save_faults : SaveFaults
save_faults = record {
  mkdir_index = none;
  mkdir_data = none;
  index = good_calls;
  body = good_calls;
  remove_index = none;
}

abbrev broken_stream : Bytes × Option Error
broken_stream = (4 ∷ [], some (external 8))

temp_apart_from_index : equal good_calls.temp (2 ∷ []) ≡ false
unfolding equal
temp_apart_from_index = refl

save-Saved_example :
    Saved save_faults
      (2 ∷ [])
      (3 ∷ [])
      (6 ∷ [])
      broken_stream
      (save save_faults
        (2 ∷ [])
        (3 ∷ [])
        (6 ∷ [])
        broken_stream
        (placed good_calls (2 ∷ []) [] ∷ [])).0
      (2 ∷ [])
      (placed good_calls (2 ∷ []) [] ∷ [])
      (find_out
        (2 ∷ [])
        (save save_faults
          (2 ∷ [])
          (3 ∷ [])
          (6 ∷ [])
          broken_stream
          (placed good_calls (2 ∷ []) [] ∷ [])).1)
save-Saved_example =
    save-Saved save_faults (2 ∷ []) (3 ∷ []) (6 ∷ []) broken_stream
      (placed good_calls (2 ∷ []) [] ∷ []) (2 ∷ []) temp_apart_from_index temp_apart_from_index
