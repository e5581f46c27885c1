-- ===== src/Tests/Contents.antt =====
-- Reading, decoding and delivering on concrete data.
use mathlib.Core.List.{Perm}
use blob.Entry.{Entry}
use blob.Prelude.{List, ◌≡◌, refl, true, none, some, [], ◌∷◌, ◌++◌, arith, eof, ok}
use blob.Prelude.Bytes.{Bytes, equal}
use blob.Validation.{validate_all}
use blob.Validation.Bounds.{InRange, IsReadable}
use blob.Batch.Group.{group_adjacent_entries, group_loop}
use blob.Batch.Group.Ranges.{IsGrouping, group_adjacent_entries-IsGrouping}
use blob.Batch.Content.{process_entry}
use blob.Batch.Content.Verified.{Delivers, process_entry-Delivers}
use blob.Batch.Content.Accepts.{Accepts, Lies}
use blob.Batch.Process.{process, process_group, select_entries, process_group_with_data}
use blob.Batch.Process.Chosen.{wanted}
use blob.Batch.Process.Outcome.{Outcome, process-Outcome}
use blob.Batch.Process.Complete.{stored, Ascending, process-Completes}
use blob.Reading.{read_all}
use blob.Reading.Verified.{HasContent, Holds, data_of, read_all-HasContent, read_all-raw}
use blob.File.{read, open_file, close}
use blob.File.Closing.{close-HasContent}
use blob.File.Delivers.{reads, read-HasContent}
use blob.Tests.Samples.{
  entry_a, entry_c, five_bytes, five_source, toy_reader, toy_codec, slow_sink, toy_processor,
  steady,
}

process_entry-Delivers_example :
    Delivers toy_codec entry_c [] (process_entry toy_codec slow_sink entry_c five_bytes 0 [])
process_entry-Delivers_example = process_entry-Delivers toy_codec slow_sink entry_c five_bytes 0 []

process-Outcome_example :
    Outcome toy_codec slow_sink
      (entry_c ∷ entry_a ∷ [])
      []
      (process toy_processor slow_sink (λ g. []) none (entry_c ∷ entry_a ∷ []) [])
process-Outcome_example =
    process-Outcome toy_processor slow_sink (λ g. []) none (entry_c ∷ entry_a ∷ []) []

runs-well :
    (process toy_processor slow_sink (λ g. []) none (entry_c ∷ entry_a ∷ []) []).result ≡ ok tt
unfolding process select_entries validate_all group_adjacent_entries group_loop process_group
    process_group_with_data process_entry equal
runs-well = refl

process-Completes_example :
    (delivered : List Entry) × (stored
        (process toy_processor slow_sink (λ g. []) none (entry_c ∷ entry_a ∷ []) []).store
      ≡ stored [] ++ delivered)
    × Perm delivered (wanted slow_sink (entry_c ∷ entry_a ∷ []))
    × Ascending delivered
process-Completes_example =
    process-Completes toy_processor slow_sink 0 refl (λ g. []) none (entry_c ∷ entry_a ∷ []) []
      runs-well

slow-Accepts : Accepts slow_sink entry_c
slow-Accepts = record { streamed = refl; opens = refl; takes = λ b bs. (0, refl); commits = refl }

c-Lies : Lies entry_c 0 five_bytes
c-Lies = record {
  starts = omega arith;
  ends = omega arith;
  start_fits = omega arith;
  length_fits = omega arith;
}

group_adjacent_entries-IsGrouping_example :
    IsGrouping (entry_a ∷ entry_c ∷ []) (group_adjacent_entries entry_a (entry_c ∷ []))
group_adjacent_entries-IsGrouping_example =
    group_adjacent_entries-IsGrouping entry_a (entry_c ∷ []) (omega arith, (omega arith, tt))

c-read : read_all toy_reader entry_c ≡ ok (12 ∷ 13 ∷ 14 ∷ [])
unfolding read_all validate_all equal
c-read = refl

read_all-HasContent_example : HasContent toy_reader entry_c (12 ∷ 13 ∷ 14 ∷ [])
read_all-HasContent_example = read_all-HasContent toy_reader entry_c c-read

five-Holds : Holds five_source five_bytes
five-Holds = record { size = refl; fits = omega arith; section = λ o n h. refl }

c-InRange : InRange entry_c
c-InRange = record { offset = omega arith; size = omega arith; original = omega arith }

c-IsReadable : IsReadable entry_c 5 100
c-IsReadable = record {
  within = omega arith;
  data_limit = λ h. omega arith;
  original_limit = λ h. omega arith;
  hash_length = refl;
  raw_size = λ h. refl;
}

read_all-raw_example : read_all toy_reader entry_c ≡ ok (data_of entry_c five_bytes)
read_all-raw_example =
    read_all-raw toy_reader entry_c five_bytes five-Holds c-InRange c-IsReadable refl refl

c-ends :
    (read steady 4
      (reads ((steady, 2) ∷ (steady, 4) ∷ []) (open_file toy_reader entry_c true)).1).0.1
    ≡ some eof
unfolding read reads open_file equal
c-ends = refl

read-HasContent_example : HasContent toy_reader entry_c (
    (reads ((steady, 2) ∷ (steady, 4) ∷ []) (open_file toy_reader entry_c true)).0
    ++ (read steady 4
        (reads ((steady, 2) ∷ (steady, 4) ∷ []) (open_file toy_reader entry_c true)).1).0.0)
read-HasContent_example =
    read-HasContent toy_reader entry_c true ((steady, 2) ∷ (steady, 4) ∷ []) steady 4 c-ends

c-closes :
    close (steady ∷ steady ∷ []) (reads ((steady, 2) ∷ []) (open_file toy_reader entry_c true)).1
    ≡ some none
unfolding read reads open_file close equal
c-closes = refl

close-HasContent_example :
    (more : Bytes) × HasContent toy_reader entry_c
      ((reads ((steady, 2) ∷ []) (open_file toy_reader entry_c true)).0 ++ more)
close-HasContent_example =
    close-HasContent toy_reader entry_c ((steady, 2) ∷ []) (steady ∷ steady ∷ []) c-closes
