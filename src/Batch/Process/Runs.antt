-- ===== src/Batch/Process/Runs.antt =====
-- The loops of the processor (core/internal/batch/batch.go), serial and concurrent, keep the
-- contents of the sink and count what they add.
use blob.Prelude.{
  All, All-get_elem?, ◌≡◌, ℕ, zero, suc, refl, Bool, true, false, Option, none, some, List, [], ◌∷◌,
  arith, if◌then◌else◌, get_elem?, Error, Result, ok, err,
}
use blob.Prelude.Bytes.{Bytes}
use blob.Entry.{Entry}
use blob.Batch.Group.{RangeGroup}
use blob.Batch.Content.{Sink, Store, process_entry}
use blob.Batch.Content.Verified.{Delivers, process_entry-Delivers}
use blob.Batch.Process.{
  Processor, Run, Workers, attempt, finish, visit, after_entry, process_entries_serial,
  worker_round, run_schedule, process_entries_parallel, process_group_with_data, with_group_data,
  process_group, process_groups_sequential, consume_groups, checked_budget, pipelined_with,
  process_groups_pipelined, process_groups, read_group_data,
}
use blob.Batch.Process.Progress.{
  sum_bytes, Progress, Progress-none, Progress-trans, Progress-after_entry, Progress-then_run,
}

module _ (p : Processor) (sink : Sink) (Q : Entry → Type 0) where
  pub serial-Progress :
      (es : List Entry) (group_data : Bytes) (start : ℕ) (r : Run)
      → All Q es
      → Progress p.codec Q r (process_entries_serial p sink es group_data start r)
  unfolding process_entries_serial
  serial-Progress [] dat start r a = Progress-none p.codec Q r r refl refl
  serial-Progress (e ∷ es) dat start r a =
      Progress-then_run p.codec Q (process_entries_serial p sink es dat start) r
        (after_entry r.stats e (process_entry p.codec sink e dat start r.store))
        (Progress-after_entry p.codec Q r e (process_entry p.codec sink e dat start r.store) a.0
          (process_entry-Delivers p.codec sink e dat start r.store))
        (λ t. serial-Progress es dat start t a.1)

  attempt-Progress :
      (workers w i : ℕ) (e : Entry) (o : Result (Unit {0}) × Store) (s : Workers p sink)
      → Q e
      → Delivers p.codec e s.run.store o
      → Progress p.codec Q s.run (attempt p sink workers w i e o s).run
  attempt-Progress workers w i e (ok u, store) s q (content, eq, v) = (
    (e, content) ∷ [],
    record {
      store = eq;
      verified = ((v, q), tt);
      processed = omega arith;
      total = unfold sum_bytes in refl;
      skipped = refl;
    },
  )
  attempt-Progress workers w i e (err x, store) s q eq = Progress-none p.codec Q s.run _ eq refl

  Workers-if :
      (b : Bool) (r s t : Workers p sink)
      → Progress p.codec Q r.run s.run
      → Progress p.codec Q r.run t.run
      → Progress p.codec Q r.run (if b then s else t).run
  Workers-if true r s t h k = h
  Workers-if false r s t h k = k

  round-Progress :
      (workers : ℕ) (es : List Entry) (dat : Bytes) (start w : ℕ) (s : Workers p sink)
      (at : Option (Option ℕ))
      → All Q es
      → Progress p.codec Q s.run (worker_round p sink workers es dat start w s at).run
  unfolding worker_round
  round-Progress workers es dat start w s none a = Progress-none p.codec Q s.run s.run refl refl
  round-Progress workers es dat start w s (some none) a =
      Progress-none p.codec Q s.run s.run refl refl
  round-Progress workers es dat start w s (some (some i)) a = go (get_elem? es i) refl
    where
      go :
          (found : Option Entry)
          → get_elem? es i ≡ found
          → Progress p.codec Q s.run (visit p sink workers w i dat start s found).run
      go none q = Progress-none p.codec Q s.run s.run refl refl
      go (some e) q =
          Workers-if s.stop s (finish p sink w s) _ (Progress-none p.codec Q s.run s.run refl refl)
            (attempt-Progress workers w i e (process_entry p.codec sink e dat start s.run.store) s
              (All-get_elem? Q es i e a q)
              (process_entry-Delivers p.codec sink e dat start s.run.store))

  -- Whatever the schedule of the goroutines.
  pub schedule-Progress :
      (workers : ℕ) (es : List Entry) (dat : Bytes) (start : ℕ) (ws : List ℕ) (s : Workers p sink)
      → All Q es
      → Progress p.codec Q s.run (run_schedule p sink workers es dat start ws s).run
  unfolding run_schedule
  schedule-Progress workers es dat start [] s a = Progress-none p.codec Q s.run s.run refl refl
  schedule-Progress workers es dat start (w ∷ ws) s a =
      let s' = worker_round p sink workers es dat start w s (get_elem? s.positions w) in
      Progress-trans p.codec Q s.run s'.run (run_schedule p sink workers es dat start ws s').run
        (round-Progress workers es dat start w s (get_elem? s.positions w) a)
        (schedule-Progress workers es dat start ws s' a)

  Progress-if :
      (b : Bool) (r s t : Run)
      → Progress p.codec Q r s
      → Progress p.codec Q r t
      → Progress p.codec Q r (if b then s else t)
  Progress-if true r s t h k = h
  Progress-if false r s t h k = k

  data-Progress :
      (ws : List ℕ) (g : RangeGroup) (dat : Bytes) (r : Run)
      → All Q g.entries
      → Progress p.codec Q r (process_group_with_data p sink ws g dat r)
  unfolding process_group_with_data process_entries_parallel
  data-Progress ws g dat r a = Progress-if _ r r _ (Progress-none p.codec Q r r refl refl) (
      Progress-if _ r _ _ (serial-Progress g.entries dat g.start r a)
        (schedule-Progress _ g.entries dat g.start ws _ a))

  group-Progress :
      (ws : List ℕ) (g : RangeGroup) (r : Run)
      → All Q g.entries
      → Progress p.codec Q r (process_group p sink ws g r)
  unfolding process_group
  group-Progress ws g r a = go (read_group_data p.source g)
    where
      go : (bytes : Result Bytes) → Progress p.codec Q r (with_group_data p sink ws g bytes r)
      go (ok bytes) = data-Progress ws g bytes r a
      go (err x) = Progress-none p.codec Q r _ refl refl

  pub groups-Progress :
      (schedule : RangeGroup → List ℕ) (gs : List RangeGroup) (r : Run)
      → All (λ (g : RangeGroup). All Q g.entries) gs
      → Progress p.codec Q r (process_groups_sequential p sink schedule gs r)
  unfolding process_groups_sequential
  groups-Progress schedule [] r a = Progress-none p.codec Q r r refl refl
  groups-Progress schedule (g ∷ gs) r a =
      Progress-then_run p.codec Q (process_groups_sequential p sink schedule gs) r
        (process_group p sink (schedule g) g r) (group-Progress (schedule g) g r a.0)
        (λ t. groups-Progress schedule gs t a.1)

  consume-Progress :
      (schedule : RangeGroup → List ℕ) (stop : Option (ℕ × Error)) (gs : List RangeGroup) (r : Run)
      → All (λ (g : RangeGroup). All Q g.entries) gs
      → Progress p.codec Q r (consume_groups p sink schedule stop gs r)
  unfolding consume_groups
  consume-Progress schedule none [] r a = Progress-none p.codec Q r r refl refl
  consume-Progress schedule (some s) [] r a = Progress-none p.codec Q r r refl refl
  consume-Progress schedule none (g ∷ gs) r a =
      Progress-then_run p.codec Q (consume_groups p sink schedule none gs) r
        (process_group p sink (schedule g) g r) (group-Progress (schedule g) g r a.0)
        (λ t. consume-Progress schedule none gs t a.1)
  consume-Progress schedule (some (zero, e)) (g ∷ gs) r a = Progress-none p.codec Q r _ refl refl
  consume-Progress schedule (some (suc n, e)) (g ∷ gs) r a =
      Progress-then_run p.codec Q (consume_groups p sink schedule (some (n, e)) gs) r
        (process_group p sink (schedule g) g r) (group-Progress (schedule g) g r a.0)
        (λ t. consume-Progress schedule (some (n, e)) gs t a.1)

  pipelined-Progress :
      (schedule : RangeGroup → List ℕ) (stop : Option (ℕ × Error)) (gs : List RangeGroup) (r : Run)
      → All (λ (g : RangeGroup). All Q g.entries) gs
      → Progress p.codec Q r (process_groups_pipelined p sink schedule stop gs r)
  unfolding process_groups_pipelined
  pipelined-Progress schedule stop gs r a = go (checked_budget p sink p.read_ahead)
    where
      go :
          (limit : Result ℕ)
          → Progress p.codec Q r
              (pipelined_with p sink limit (consume_groups p sink schedule stop gs) r)
      go (ok n) = consume-Progress schedule stop gs r a
      go (err e) = Progress-none p.codec Q r _ refl refl

  -- Either way of reading the groups.
  pub process_groups-Progress :
      (schedule : RangeGroup → List ℕ) (stop : Option (ℕ × Error)) (gs : List RangeGroup) (r : Run)
      → All (λ (g : RangeGroup). All Q g.entries) gs
      → Progress p.codec Q r (process_groups p sink schedule stop gs r)
  unfolding process_groups
  process_groups-Progress schedule stop gs r a =
      Progress-if _ r _ _ (pipelined-Progress schedule stop gs r a)
        (groups-Progress schedule gs r a)
