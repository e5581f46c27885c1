-- ===== src/Batch/Process/Outcome.antt =====
-- What Process (core/internal/batch/batch.go) leaves, whether it succeeds or fails.
use mathlib.Core.List.{append-nil, Mem}
use blob.Batch.Process.Chosen.{wanted, select_entries-mem, All-group_all}
use blob.Prelude.{
  All, ℕ, ◌+◌, if◌then◌else◌, ◌≡◌, refl, sym, Option, List, [], ◌∷◌, ◌++◌, arith, length, Error,
  Result, ok, err,
}
use blob.Entry.{Entry}
use blob.Batch.Group.{RangeGroup, ProcessStats, no_stats, add_stats}
use blob.Batch.Content.{Codec, Sink, Store}
use blob.Batch.Process.{
  Processor, Run, process, process_selected, select_entries, started, add_run, validate_entries,
  group_all, sort_by_offset, process_groups,
}
use blob.Batch.Process.Progress.{AllVerified, sum_bytes, Progress, sum_bytes-lt}
use blob.Batch.Process.Runs.{process_groups-Progress}

-- How many entries the sink does not want, by its own answers
unfoldable pub unwanted : Sink → List Entry → ℕ
unwanted sink [] = 0
unwanted sink (e ∷ es) = (if sink.should_process e then 0 else 1) + unwanted sink es

select_entries-unwanted :
    (sink : Sink) (es : List Entry) → (select_entries sink es).1 ≡ unwanted sink es
unfolding select_entries unwanted
select_entries-unwanted sink [] = refl
select_entries-unwanted sink (e ∷ es) = ground (arith, select_entries-unwanted sink es)

module _ (codec : Codec) (sink : Sink) where
  -- Process, from the store that the sink has: behind a filter, the run of the groups.
  pub record Outcome (entries : List Entry) (before : Store) (r : Run) : Type 0 where
    pub added : Store
    pub store : r.store ≡ before ++ added
    pub verified : AllVerified codec (λ e. Mem e (wanted sink entries)) added
    pub processed : r.stats.processed ≡ length added
    pub total : r.stats.total_bytes ≡ sum_bytes 0 added
    pub skipped : r.stats.skipped ≡ unwanted sink entries

module _ (p : Processor) (sink : Sink) (schedule : RangeGroup → List ℕ)
    (stop : Option (ℕ × Error)) where
  abbrev pub counted : List Entry → ProcessStats
  counted entries = record no_stats { skipped = (select_entries sink entries).1 }

  add_run-Outcome :
      (entries : List Entry) (before : Store) (r : Run)
      → Progress p.codec
          (λ e. Mem e (wanted sink entries))
          (started p sink schedule stop no_stats before)
          r
      → Outcome p.codec sink entries before (add_run p sink schedule stop (counted entries) r)
  unfolding add_stats
  add_run-Outcome entries before r (added, a) = record {
    added = added;
    store = a.store;
    verified = a.verified;
    processed = omega (arith, a.processed);
    total = omega (arith, a.total, sum_bytes-lt 0 added (omega arith));
    skipped = omega (arith, a.skipped, select_entries-unwanted sink entries);
  }

  nothing-Outcome :
      (entries : List Entry) (before : Store) (result : Result (Unit {0}))
      → Outcome p.codec sink entries before
          (record { stats = counted entries; result = result; store = before })
  nothing-Outcome entries before result = record {
    added = [];
    store = sym (append-nil before);
    verified = tt;
    processed = refl;
    total = unfold sum_bytes in refl;
    skipped = select_entries-unwanted sink entries;
  }

  selected-Outcome :
      (entries chosen : List Entry) (before : Store)
      → All (λ e. Mem e (wanted sink entries)) chosen
      → Outcome p.codec sink entries before
          (process_selected p sink schedule stop (counted entries) chosen before)
  unfolding process_selected
  selected-Outcome entries chosen before inside =
      go (validate_entries chosen p.source.size p.max_file_size)
    where
      groups : List RangeGroup
      groups = group_all (sort_by_offset chosen)

      go :
          (v : Result (Unit {0}))
          → Outcome p.codec sink entries before (
              let r : Run = elim v [
                | err x ↦ record { stats = counted entries; result = err x; store = before }
                | ok u ↦ add_run p sink schedule stop (counted entries) (
                    process_groups p sink schedule stop groups
                      (started p sink schedule stop no_stats before))
              ] in
              r)
      go (ok u) = add_run-Outcome entries before _ (
          process_groups-Progress p sink (λ e. Mem e (wanted sink entries)) schedule stop groups
            (started p sink schedule stop no_stats before)
            (All-group_all (λ e. Mem e (wanted sink entries)) chosen inside))
      go (err x) = nothing-Outcome entries before (err x)

  -- Whatever the entries, the source, the sink, the decoder, the schedules and the failure that stops
  -- the pipeline, and whether Process succeeds or fails: the sink keeps what it had and gets some
  -- contents, each for one of the entries that it wants and with bytes of that entry's size and hash;
  -- `processed` is their number, `total_bytes` their recorded sizes' sum (mod 2^64),
  -- and `skipped` the number of entries that the sink did not want.
  pub process-Outcome :
      (entries : List Entry) (before : Store)
      → Outcome p.codec sink entries before (process p sink schedule stop entries before)
  unfolding process
  process-Outcome entries before =
      go (select_entries sink entries).0 (select_entries-mem sink entries)
    where
      go :
          (chosen : List Entry)
          → All (λ e. Mem e (wanted sink entries)) chosen
          → Outcome p.codec sink entries before (
              let r : Run = elim chosen [
                | [] ↦ started p sink schedule stop (counted entries) before
                | e ∷ es ↦ process_selected p sink schedule stop (counted entries) (e ∷ es) before
              ] in
              r)
      go [] a = nothing-Outcome entries before (ok tt)
      go (e ∷ es) a = selected-Outcome entries (e ∷ es) before a
