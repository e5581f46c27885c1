-- ===== src/Batch/Process/Complete.antt =====
-- What a serial Process (core/internal/batch/batch.go) has delivered where it succeeds.
use mathlib.Core.Path.{subst}
use mathlib.Core.List.{append_assoc, append-nil, Perm}
use mathlib.Core.List.Perm
use blob.Prelude.{
  ℕ, zero, suc, ◌≤◌, All, ◌≡◌, refl, sym, ap, ◌∙◌, Bool, true, false, inl, inr, Option, none, some,
  List, [], ◌∷◌, ◌++◌, arith, if◌then◌else◌, length, Error, ◌&&◌, ◌||◌, Result, ok, err, Bool-cases,
  negsuc, ltb, ◌==◌,
}
use blob.Prelude.Bytes.{Bytes}
use blob.Entry.{Entry}
use blob.Batch.Group.{RangeGroup, ProcessStats, no_stats}
use blob.Batch.Group.Ranges.{all_entries}
use blob.Batch.Content.{Codec, Sink, Store, process_entry}
use blob.Batch.Content.Verified.{Delivers, process_entry-Delivers}
use blob.Batch.Process.Outcome.{counted}
use blob.Batch.Process.Chosen.{
  wanted, select_entries-wanted, All-insert_by_offset, group_all-entries,
}
use blob.Batch.Process.{
  Processor, Run, process, process_selected, select_entries, started, add_run, validate_entries,
  group_all, sort_by_offset, insert_by_offset, after_entry, then_run, process_entries_serial,
  process_group_with_data, with_group_data, process_group, process_groups_sequential,
  consume_groups, checked_budget, pipelined_with, several, is_ahead, process_groups_pipelined,
  process_groups, read_group_data, worker_count,
}

-- The entries of a store.
unfoldable pub stored : Store → List Entry
stored [] = []
stored (x ∷ xs) = x.0 ∷ stored xs

stored-append : (xs ys : Store) → stored (xs ++ ys) ≡ stored xs ++ stored ys
unfolding stored
stored-append [] ys = refl
stored-append (x ∷ xs) ys = ap (◌∷◌ (x.0)) (stored-append xs ys)

-- A run that succeeds has added exactly these entries.
abbrev Completes : List Entry → Run → Run → Type 0
Completes es r r' = r'.result ≡ ok tt → stored r'.store ≡ stored r.store ++ es

Completes-nil : (r r' : Run) → r'.store ≡ r.store → Completes [] r r'
Completes-nil r r' e h = ap stored e ∙ sym (append-nil (stored r.store))

Completes-then :
    (next : Run → Run) (xs ys : List Entry) (r s : Run)
    → Completes xs r s
    → ((t : Run) → Completes ys t (next t))
    → Completes (xs ++ ys) r (then_run next s)
Completes-then next xs ys r s h n = go s.result refl
  where
    go :
        (x : Result (Unit {0}))
        → s.result ≡ x
        → (let r' : Run = elim x [ ok u ↦ next s | err e ↦ s ] in r').result ≡ ok tt
        → stored (let r' : Run = elim x [ ok u ↦ next s | err e ↦ s ] in r').store
          ≡ stored r.store ++ (xs ++ ys)
    go (ok u) e k = n s k ∙ ap (λ l. l ++ ys) (h e) ∙ append_assoc (stored r.store) xs ys
    go (err x) e k = cc

after_entry-Completes :
    (codec : Codec) (r : Run) (e : Entry) (o : Result (Unit {0}) × Store)
    → Delivers codec e r.store o
    → Completes (e ∷ []) r (after_entry r.stats e o)
after_entry-Completes codec r e (ok u, store) (content, s, v) h =
    ap stored s ∙ stored-append r.store ((e, content) ∷ []) ∙ unfold stored in refl
after_entry-Completes codec r e (err x, store) s h = cc

serial_branch :
    (es : List Entry) (k : ℕ) (r s t : Run)
    → k ≡ 1
    → Completes es r s
    → Completes es r (if length es == 0 then r else if ltb k 2 then s else t)
serial_branch [] k r s t e h = Completes-nil r r refl
serial_branch (x ∷ xs) k r s t e h =
    let two : ltb k 2 ≡ true = ground arith in
    let some_left : (length (x ∷ xs) == 0) ≡ false = ground arith in rw (some_left, two) h

-- In the order of the data offsets
abbrev pub Ascending : List Entry → Type 0
Ascending [] = Unit
Ascending (e ∷ es) = All (λ (x : Entry). e.data_offset ≤ x.data_offset) es × Ascending es

All-above :
    (m n : ℕ) (es : List Entry)
    → m ≤ n
    → All (λ (x : Entry). n ≤ x.data_offset) es
    → All (λ (x : Entry). m ≤ x.data_offset) es
All-above m n [] h a = tt
All-above m n (x ∷ xs) h a = (omega (arith, a.0), All-above m n xs h a.1)

insert_by_offset-Ascending :
    (e : Entry) (es : List Entry) → Ascending es → Ascending (insert_by_offset e es)
unfolding insert_by_offset
insert_by_offset-Ascending e [] a = (tt, tt)
insert_by_offset-Ascending e (x ∷ xs) a = elim (Bool-cases (ltb x.data_offset e.data_offset)) [
  | inl q ↦
      rw (q, insert_by_offset)
        (
          All-insert_by_offset (λ (y : Entry). x.data_offset ≤ y.data_offset) e xs (ground arith)
              a.0,
          insert_by_offset-Ascending e xs a.1,
        )
  | inr q ↦
      let low : e.data_offset ≤ x.data_offset = ground arith in
      rw (q, insert_by_offset) ((low, All-above e.data_offset x.data_offset xs low a.0), a)
]

sort_by_offset-Ascending : (es : List Entry) → Ascending (sort_by_offset es)
unfolding sort_by_offset
sort_by_offset-Ascending [] = tt
sort_by_offset-Ascending (e ∷ es) =
    insert_by_offset-Ascending e (sort_by_offset es) (sort_by_offset-Ascending es)

insert_by_offset-perm : (e : Entry) (es : List Entry) → Perm (insert_by_offset e es) (e ∷ es)
unfolding insert_by_offset
insert_by_offset-perm e [] = Perm.refl (e ∷ [])
insert_by_offset-perm e (x ∷ xs) = elim (Bool-cases (ltb x.data_offset e.data_offset)) [
  | inl h ↦
      rw (h, insert_by_offset)
        (Perm.trans (Perm.cons x (insert_by_offset-perm e xs)) (Perm.swap e x xs))
  | inr h ↦ rw (h, insert_by_offset) (Perm.refl (e ∷ x ∷ xs))
]

-- Sorting by the offset loses no entry and adds none.
sort_by_offset-perm : (es : List Entry) → Perm (sort_by_offset es) es
unfolding sort_by_offset
sort_by_offset-perm [] = Perm.refl []
sort_by_offset-perm (e ∷ es) =
    Perm.trans (insert_by_offset-perm e (sort_by_offset es)) (Perm.cons e (sort_by_offset-perm es))

module _ (p : Processor) (sink : Sink) where
  serial-Completes :
      (es : List Entry) (dat : Bytes) (start : ℕ) (r : Run)
      → Completes es r (process_entries_serial p sink es dat start r)
  unfolding process_entries_serial
  serial-Completes [] dat start r = Completes-nil r r refl
  serial-Completes (e ∷ es) dat start r =
      Completes-then (process_entries_serial p sink es dat start) (e ∷ []) es r
        (after_entry r.stats e (process_entry p.codec sink e dat start r.store))
        (after_entry-Completes p.codec r e (process_entry p.codec sink e dat start r.store)
          (process_entry-Delivers p.codec sink e dat start r.store))
        (λ t. serial-Completes es dat start t)

  module _ (n : ℕ) (serial : p.workers ≡ negsuc n) where
    one_worker : (es : List Entry) → worker_count p es ≡ 1
    unfolding worker_count
    one_worker es = ground arith

    data-Completes :
        (ws : List ℕ) (g : RangeGroup) (dat : Bytes) (r : Run)
        → Completes g.entries r (process_group_with_data p sink ws g dat r)
    unfolding process_group_with_data
    data-Completes ws g dat r =
        serial_branch g.entries _ r _ _ (one_worker g.entries)
          (serial-Completes g.entries dat g.start r)

    group-Completes :
        (ws : List ℕ) (g : RangeGroup) (r : Run)
        → Completes g.entries r (process_group p sink ws g r)
    unfolding process_group
    group-Completes ws g r = go (read_group_data p.source g)
      where
        go : (bytes : Result Bytes) → Completes g.entries r (with_group_data p sink ws g bytes r)
        go (ok bytes) h = data-Completes ws g bytes r h
        go (err x) h = cc

    groups-Completes :
        (schedule : RangeGroup → List ℕ) (gs : List RangeGroup) (r : Run)
        → Completes (all_entries gs) r (process_groups_sequential p sink schedule gs r)
    unfolding process_groups_sequential all_entries
    groups-Completes schedule [] r = Completes-nil r r refl
    groups-Completes schedule (g ∷ gs) r =
        Completes-then (process_groups_sequential p sink schedule gs) g.entries (all_entries gs) r
          (process_group p sink (schedule g) g r) (group-Completes (schedule g) g r)
          (λ t. groups-Completes schedule gs t)

    consume-Completes :
        (schedule : RangeGroup → List ℕ) (stop : Option (ℕ × Error)) (gs : List RangeGroup)
        (r : Run)
        → Completes (all_entries gs) r (consume_groups p sink schedule stop gs r)
    unfolding consume_groups all_entries
    consume-Completes schedule none [] r = Completes-nil r r refl
    consume-Completes schedule (some s) [] r = Completes-nil r r refl
    consume-Completes schedule none (g ∷ gs) r =
        Completes-then (consume_groups p sink schedule none gs) g.entries (all_entries gs) r
          (process_group p sink (schedule g) g r) (group-Completes (schedule g) g r)
          (λ t. consume-Completes schedule none gs t)
    consume-Completes schedule (some (zero, e)) (g ∷ gs) r = λ h. cc
    consume-Completes schedule (some (suc n, e)) (g ∷ gs) r =
        Completes-then (consume_groups p sink schedule (some (n, e)) gs) g.entries (all_entries gs)
          r (process_group p sink (schedule g) g r) (group-Completes (schedule g) g r)
          (λ t. consume-Completes schedule (some (n, e)) gs t)

    process_groups-Completes :
        (schedule : RangeGroup → List ℕ) (stop : Option (ℕ × Error)) (gs : List RangeGroup)
        (r : Run)
        → Completes (all_entries gs) r (process_groups p sink schedule stop gs r)
    unfolding process_groups process_groups_pipelined
    process_groups-Completes schedule stop gs r =
        choose
          (ltb 1 (length gs) && (several p sink p.read_concurrency || is_ahead p sink p.read_ahead))
          (checked_budget p sink p.read_ahead)
      where
        choose :
            (b : Bool) (limit : Result ℕ)
            → Completes (all_entries gs) r (
                if b
                then pipelined_with p sink limit (consume_groups p sink schedule stop gs) r
                else process_groups_sequential p sink schedule gs r)
        choose true (ok n) = consume-Completes schedule stop gs r
        choose true (err e) = λ h. cc
        choose false limit = groups-Completes schedule gs r

    selected-Completes :
        (schedule : RangeGroup → List ℕ) (stop : Option (ℕ × Error)) (stats : ProcessStats)
        (chosen : List Entry) (before : Store)
        → (process_selected p sink schedule stop stats chosen before).result ≡ ok tt
        → stored (process_selected p sink schedule stop stats chosen before).store
          ≡ stored before ++ sort_by_offset chosen
    unfolding process_selected
    selected-Completes schedule stop stats chosen before =
        go (validate_entries chosen p.source.size p.max_file_size)
      where
        run : Run
        run =
            process_groups p sink schedule stop (group_all (sort_by_offset chosen))
              (started p sink schedule stop no_stats before)

        branch : Result (Unit {0}) → Run
        branch v = elim v [
          | err x ↦ record { stats = stats; result = err x; store = before }
          | ok u ↦ add_run p sink schedule stop stats run
        ]

        go :
            (v : Result (Unit {0}))
            → (branch v).result ≡ ok tt
            → stored (branch v).store ≡ stored before ++ sort_by_offset chosen
        go (ok u) h =
            process_groups-Completes schedule stop (group_all (sort_by_offset chosen))
              (started p sink schedule stop no_stats before) h
            ∙ ap (λ l. stored before ++ l) (group_all-entries (sort_by_offset chosen))
        go (err x) h = cc

    process-sorted :
        (schedule : RangeGroup → List ℕ) (stop : Option (ℕ × Error)) (entries : List Entry)
        (before : Store)
        → (process p sink schedule stop entries before).result ≡ ok tt
        → stored (process p sink schedule stop entries before).store
          ≡ stored before ++ sort_by_offset (select_entries sink entries).0
    unfolding process
    process-sorted schedule stop entries before = go (select_entries sink entries).0
      where
        branch : List Entry → Run
        branch chosen = elim chosen [
          | [] ↦ started p sink schedule stop (counted p sink schedule stop entries) before
          | e ∷ es ↦
              process_selected p sink schedule stop (counted p sink schedule stop entries) (e ∷ es)
                before
        ]

        go :
            (chosen : List Entry)
            → (branch chosen).result ≡ ok tt
            → stored (branch chosen).store ≡ stored before ++ sort_by_offset chosen
        go [] h = unfold sort_by_offset in sym (append-nil (stored before))
        go (e ∷ es) h =
            selected-Completes schedule stop (counted p sink schedule stop entries) (e ∷ es) before
              h

    -- With serial workers (a negative count), where Process reports no error, the sink has got exactly one
    -- content for each entry that it wants, in the order of the data offsets.
    pub process-Completes :
        (schedule : RangeGroup → List ℕ) (stop : Option (ℕ × Error)) (entries : List Entry)
        (before : Store)
        → (process p sink schedule stop entries before).result ≡ ok tt
        → (delivered : List Entry) × (stored (process p sink schedule stop entries before).store
            ≡ stored before ++ delivered)
          × Perm delivered (wanted sink entries)
          × Ascending delivered
    process-Completes schedule stop entries before h = (
      sort_by_offset (select_entries sink entries).0,
      process-sorted schedule stop entries before h,
      subst (Perm (sort_by_offset (select_entries sink entries).0))
          (select_entries-wanted sink entries)
          (sort_by_offset-perm (select_entries sink entries).0),
      sort_by_offset-Ascending (select_entries sink entries).0,
    )
