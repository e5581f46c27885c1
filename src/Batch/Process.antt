-- ===== src/Batch/Process.antt =====
-- core/internal/batch/batch.go: the processor. Groups are processed in their order, read by the way or
-- ahead; the entries of a group one after the other, or by several goroutines. A schedule says which
-- goroutine goes on next; a goroutine's step is one round of its loop. Of the pipeline that reads ahead
-- this module has what its consumer does, and the failure that may stop it; the waiting of its goroutines
-- for one another and for the budget of bytes is in `Pipeline`.
pub mod Progress
pub mod Runs
pub mod Chosen
pub mod Outcome
pub mod Complete
use blob.Prelude.{
  ℕ, zero, suc, ◌+◌, ◌-◌, ◌/◌, Bool, true, false, not, ◌&&◌, ◌||◌, Option, none, some, List, [],
  ◌∷◌, ◌++◌, ltb, ◌==◌, if◌then◌else◌, add_u64, sub_u64, max_uint64, length, get_elem?, ℤ, pos,
  negsuc, Error, size_overflow, short_read, eof, Result, ok, err, ◌>>=◌, ◌>>◌,
}
use blob.Prelude.Bytes.{Bytes}
use blob.Sizing.{to_int, to_int64, add_uint64}
use blob.Entry.{Entry}
use blob.Validation.{validate_all}
use blob.Batch.Group.{RangeGroup, ProcessStats, no_stats, add_stats, group_adjacent_entries}
use blob.Batch.Content.{Codec, Sink, Store, process_entry}

-- file.ByteSource: its size, and ReadAt of so many bytes at an offset, with what was read.
pub record ByteSource : Type 0 where
  pub size : ℤ
  pub read_at : ℕ → ℕ → Bytes × Option Error

-- A worker count: 0 is automatic, a negative one is serial. `cores` is GOMAXPROCS(0), and
-- `read_ahead` the budget of bytes, where one is set.
pub record Processor : Type 0 where
  pub codec : Codec
  pub source : ByteSource
  pub max_file_size : ℕ
  pub workers : ℤ
  pub cores : ℕ
  pub read_concurrency : ℤ
  pub read_ahead : Option ℕ

abbrev pub is_eof : Error → Bool
is_eof eof = true
is_eof _ = false

abbrev pub read_error : Option Error → Option Error
read_error none = none
read_error (some e) = if is_eof e then none else some e

abbrev pub read_exactly : ℕ → Bytes × Option Error → Result Bytes
read_exactly size (bytes, e) = elim (read_error e) [
  | some x ↦ err x
  | none ↦ if length bytes == size then ok bytes else err short_read
]

unfoldable pub read_group_data : ByteSource → RangeGroup → Result Bytes
unfolding to_int
read_group_data source group = do
  let size = sub_u64 group.end group.start
  size_int ← to_int size size_overflow
  read_exactly size (source.read_at size_int group.start)

-- The sum of the sizes, or the largest uint64 where it overflows.
unfoldable pub total_size : ℕ → List Entry → ℕ
total_size total [] = total
total_size total (e ∷ es) =
    let (sum, fits) = add_uint64 total e.original_size in
    elim fits [ true ↦ total_size sum es | false ↦ max_uint64 ]

-- parallelMinAvgBytes, 64 KB
abbrev pub parallel_min_avg_bytes : ℕ
parallel_min_avg_bytes = 65536

abbrev pub cap_workers : ℕ → List Entry → ℕ
cap_workers workers entries =
    let capped = if ltb (length entries) workers then length entries else workers in
    if ltb capped 2 then 1 else capped

abbrev pub auto_workers : ℕ → List Entry → ℕ
auto_workers cores entries =
    if ltb cores 2
    then 1
    else if ltb (total_size 0 entries / length entries) parallel_min_avg_bytes
    then 1
    else cap_workers cores entries

abbrev pub worker_count_of : ℤ → ℕ → List Entry → ℕ
worker_count_of (negsuc n) cores entries = 1
worker_count_of (pos zero) cores entries = auto_workers cores entries
worker_count_of (pos (suc n)) cores entries = cap_workers (suc n) entries

unfoldable pub worker_count : Processor → List Entry → ℕ
unfolding total_size
worker_count p entries =
    if ltb (length entries) 2 then 1 else worker_count_of p.workers p.cores entries

-- What a run has done so far: counters, the first error, and the sink's contents.
pub record Run : Type 0 where
  pub stats : ProcessStats
  pub result : Result (Unit {0})
  pub store : Store

abbrev pub count_entry : ProcessStats → Entry → ProcessStats
count_entry s e = record s {
  processed = s.processed + 1;
  total_bytes = add_u64 s.total_bytes e.original_size;
}

-- A round that succeeded is counted, one that failed gives the result.
abbrev pub after_entry : ProcessStats → Entry → Result (Unit {0}) × Store → Run
after_entry stats e (ok u, store) = record {
  stats = count_entry stats e;
  result = ok tt;
  store = store;
}
after_entry stats e (err x, store) = record { stats = stats; result = err x; store = store }

abbrev pub then_run : (Run → Run) → Run → Run
then_run next r = elim r.result [ ok u ↦ next r | err x ↦ r ]

module _ (p : Processor) (sink : Sink) where
  -- processEntriesSerial
  unfoldable pub process_entries_serial : List Entry → Bytes → ℕ → Run → Run
  process_entries_serial [] group_data start r = r
  process_entries_serial (e ∷ es) group_data start r =
      then_run (process_entries_serial es group_data start)
        (after_entry r.stats e (process_entry p.codec sink e group_data start r.store))

  -- processEntriesParallel: each goroutine's index, or none when it has returned.
  pub record Workers : Type 0 where
    pub positions : List (Option ℕ)
    pub stop : Bool
    pub run : Run

  unfoldable pub set_position : ℕ → Option ℕ → List (Option ℕ) → List (Option ℕ)
  set_position w i [] = []
  set_position zero i (x ∷ xs) = i ∷ xs
  set_position (suc w) i (x ∷ xs) = x ∷ set_position w i xs

  abbrev pub finish : ℕ → Workers → Workers
  finish w s = record s { positions = set_position w none s.positions }

  -- The entry at the goroutine's index: processed, counted and passed, or the first error kept.
  abbrev pub attempt : ℕ → ℕ → ℕ → Entry → Result (Unit {0}) × Store → Workers → Workers
  attempt workers w i e (ok u, store) s = record s {
    positions = set_position w (some (i + workers)) s.positions;
    run = record s.run { stats = count_entry s.run.stats e; store = store };
  }
  attempt workers w i e (err x, store) s = record s {
    positions = set_position w none s.positions;
    stop = true;
    run = record s.run { result = err x; store = store };
  }

  abbrev pub visit : ℕ → ℕ → ℕ → Bytes → ℕ → Workers → Option Entry → Workers
  visit workers w i group_data start s none = finish w s
  visit workers w i group_data start s (some e) =
      if s.stop
      then finish w s
      else attempt workers w i e (process_entry p.codec sink e group_data start s.run.store) s

  unfoldable pub worker_round :
      ℕ → List Entry → Bytes → ℕ → ℕ → Workers → Option (Option ℕ) → Workers
  worker_round workers entries group_data start w s none = s
  worker_round workers entries group_data start w s (some none) = s
  worker_round workers entries group_data start w s (some (some i)) =
      visit workers w i group_data start s (get_elem? entries i)

  unfoldable pub run_schedule : ℕ → List Entry → Bytes → ℕ → List ℕ → Workers → Workers
  unfolding worker_round
  run_schedule workers entries group_data start [] s = s
  run_schedule workers entries group_data start (w ∷ ws) s =
      run_schedule workers entries group_data start ws
        (worker_round workers entries group_data start w s (get_elem? s.positions w))

  -- Goroutine `w` starts at index `w`.
  abbrev pub starts_from : ℕ → ℕ → List (Option ℕ)
  starts_from w zero = []
  starts_from w (suc n) = some w ∷ starts_from (suc w) n

  unfoldable pub process_entries_parallel : ℕ → List Entry → Bytes → ℕ → List ℕ → Run → Workers
  unfolding run_schedule
  process_entries_parallel workers entries group_data start schedule r =
      run_schedule workers entries group_data start schedule
        (record { positions = starts_from 0 workers; stop = false; run = r })

  unfoldable pub process_group_with_data : List ℕ → RangeGroup → Bytes → Run → Run
  unfolding worker_count process_entries_serial process_entries_parallel
  process_group_with_data schedule group group_data r =
      let workers = worker_count p group.entries in
      if length group.entries == 0
      then r
      else if ltb workers 2
      then process_entries_serial group.entries group_data group.start r
      else (process_entries_parallel workers group.entries group_data group.start schedule r).run

  abbrev pub with_group_data : List ℕ → RangeGroup → Result Bytes → Run → Run
  with_group_data schedule group (ok bytes) r = process_group_with_data schedule group bytes r
  with_group_data schedule group (err x) r = record r { result = err x }

  unfoldable pub process_group : List ℕ → RangeGroup → Run → Run
  unfolding read_group_data
  process_group schedule group r = with_group_data schedule group (read_group_data p.source group) r

  -- processGroupsSequential, with a schedule for the goroutines of each group.
  unfoldable pub process_groups_sequential : (RangeGroup → List ℕ) → List RangeGroup → Run → Run
  process_groups_sequential schedule [] r = r
  process_groups_sequential schedule (g ∷ gs) r =
      then_run (process_groups_sequential schedule gs) (process_group (schedule g) g r)

  -- The consumer of processGroupsPipelined: it takes the groups in their order, until all are done, one
  -- fails, or, behind so many groups, the error of another goroutine stops it.
  unfoldable pub consume_groups :
      (RangeGroup → List ℕ) → Option (ℕ × Error) → List RangeGroup → Run → Run
  consume_groups schedule stop [] r = r
  consume_groups schedule none (g ∷ gs) r =
      then_run (consume_groups schedule none gs) (process_group (schedule g) g r)
  consume_groups schedule (some (zero, e)) (g ∷ gs) r = record r { result = err e }
  consume_groups schedule (some (suc n, e)) (g ∷ gs) r =
      then_run (consume_groups schedule (some (n, e)) gs) (process_group (schedule g) g r)

  abbrev pub checked_budget : Option ℕ → Result ℕ
  checked_budget none = ok 0
  checked_budget (some limit) = to_int64 limit size_overflow

  abbrev pub pipelined_with : Result ℕ → (Run → Run) → Run → Run
  pipelined_with (ok limit) consume r = consume r
  pipelined_with (err e) consume r = record r { result = err e }

  unfoldable pub process_groups_pipelined :
      (RangeGroup → List ℕ) → Option (ℕ × Error) → List RangeGroup → Run → Run
  unfolding to_int64 consume_groups
  process_groups_pipelined schedule stop groups r =
      pipelined_with (checked_budget p.read_ahead) (consume_groups schedule stop groups) r

  abbrev pub is_ahead : Option ℕ → Bool
  is_ahead none = false
  is_ahead (some limit) = true

  abbrev pub several : ℤ → Bool
  several (pos n) = ltb 1 n
  several (negsuc n) = false

  -- The choice that Process makes
  unfoldable pub process_groups :
      (RangeGroup → List ℕ) → Option (ℕ × Error) → List RangeGroup → Run → Run
  unfolding process_groups_sequential process_groups_pipelined
  process_groups schedule stop groups r =
      if ltb 1 (length groups) && (several p.read_concurrency || is_ahead p.read_ahead)
      then process_groups_pipelined schedule stop groups r
      else process_groups_sequential schedule groups r

-- The filter by ShouldProcess, with the number of entries that it drops.
unfoldable pub select_entries : Sink → List Entry → List Entry × ℕ
select_entries sink [] = ([], 0)
select_entries sink (e ∷ es) =
    let (chosen, skipped) = select_entries sink es in
    if sink.should_process e then (e ∷ chosen, skipped) else (chosen, skipped + 1)

unfoldable pub validate_entries : List Entry → ℤ → ℕ → Result (Unit {0})
validate_entries [] source_size max_file_size = ok tt
validate_entries (e ∷ es) source_size max_file_size = do
  validate_all e source_size max_file_size
  validate_entries es source_size max_file_size

-- slices.SortFunc by the data offset. The library's sort promises no order among equal offsets; this
-- one keeps theirs.
unfoldable pub insert_by_offset : Entry → List Entry → List Entry
insert_by_offset e [] = e ∷ []
insert_by_offset e (x ∷ xs) =
    let rest = insert_by_offset e xs in
    if ltb x.data_offset e.data_offset then x ∷ rest else e ∷ x ∷ xs

unfoldable pub sort_by_offset : List Entry → List Entry
unfolding insert_by_offset
sort_by_offset [] = []
sort_by_offset (e ∷ es) = insert_by_offset e (sort_by_offset es)

abbrev pub group_all : List Entry → List RangeGroup
group_all [] = []
group_all (e ∷ es) = group_adjacent_entries e es

module _ (p : Processor) (sink : Sink) (schedule : RangeGroup → List ℕ)
    (stop : Option (ℕ × Error)) where
  abbrev pub started : ProcessStats → Store → Run
  started stats store = record { stats = stats; result = ok tt; store = store }

  abbrev pub add_run : ProcessStats → Run → Run
  add_run stats r = record r { stats = add_stats stats r.stats }

  -- Behind the filter: validate every entry, sort, group, and process the groups in order.
  unfoldable pub process_selected : ProcessStats → List Entry → Store → Run
  unfolding validate_entries sort_by_offset process_groups
  process_selected stats chosen store =
      elim (validate_entries chosen p.source.size p.max_file_size) [
        | err x ↦ record { stats = stats; result = err x; store = store }
        | ok u ↦ add_run stats (
            process_groups p sink schedule stop (group_all (sort_by_offset chosen))
              (started no_stats store))
      ]

  unfoldable pub process : List Entry → Store → Run
  unfolding select_entries process_selected
  process entries store =
      let (chosen, skipped) = select_entries sink entries in
      let stats : ProcessStats = record no_stats { skipped = skipped } in
      elim chosen [ [] ↦ started stats store | e ∷ es ↦ process_selected stats (e ∷ es) store ]
