-- ===== src/Batch/Group.antt =====
-- core/internal/batch/group.go and stats.go: entries that touch are read together; counters.
pub mod Ranges
use blob.Prelude.{
  ℕ, ◌+◌, ◌-◌, Bool, true, false, List, [], ◌∷◌, ◌++◌, ◌==◌, if◌then◌else◌, add_u64, sub_u64,
  Result, size_overflow,
}
use blob.Sizing.{to_int64}
use blob.Entry.{Entry}

-- A contiguous range of the data blob and the entries in it.
pub record RangeGroup : Type 0 where
  pub start : ℕ
  pub end : ℕ
  pub entries : List Entry

abbrev pub entry_end : Entry → ℕ
entry_end e = add_u64 e.data_offset e.data_size

abbrev pub single_group : Entry → RangeGroup
single_group e = record { start = e.data_offset; end = entry_end e; entries = e ∷ [] }

-- The loop, with the group that is being built.
unfoldable pub group_loop : RangeGroup → List Entry → List RangeGroup
group_loop current [] = current ∷ []
group_loop current (entry ∷ rest) =
    let extended =
      group_loop (record current { end = entry_end entry; entries = current.entries ++ entry ∷ [] })
        rest in
    let separate = current ∷ group_loop (single_group entry) rest in
    if entry.data_offset == current.end then extended else separate

-- On no entry the source indexes out of range; its caller has at least one.
unfoldable pub group_adjacent_entries : Entry → List Entry → List RangeGroup
group_adjacent_entries first rest = group_loop (single_group first) rest

-- groupSize
unfoldable pub group_size : RangeGroup → Result ℕ
group_size group = to_int64 (sub_u64 group.end group.start) size_overflow

-- ProcessStats; the counts are ints, the bytes a uint64 that wraps around.
pub record ProcessStats : Type 0 where
  pub processed : ℕ
  pub skipped : ℕ
  pub total_bytes : ℕ

abbrev pub no_stats : ProcessStats
no_stats = record { processed = 0; skipped = 0; total_bytes = 0 }

unfoldable pub add_stats : ProcessStats → ProcessStats → ProcessStats
add_stats s other = record {
  processed = s.processed + other.processed;
  skipped = s.skipped + other.skipped;
  total_bytes = add_u64 s.total_bytes other.total_bytes;
}
