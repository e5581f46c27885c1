-- ===== src/Batch/Process/Chosen.antt =====
-- The entries that Process (core/internal/batch/batch.go) chooses, on their way into the groups.
use mathlib.Core.Path.{subst}
use mathlib.Core.List.{Mem, mem-cons_self, mem-cons_of_mem}
use blob.Prelude.{
  ℕ, ◌+◌, ◌≡◌, refl, sym, ap, Bool, true, false, inl, inr, List, [], ◌∷◌, ◌++◌, if◌then◌else◌, All,
  ltb, Bool-cases,
}
use blob.Entry.{Entry}
use blob.Batch.Group.{RangeGroup}
use blob.Batch.Group.Ranges.{all_entries, group_adjacent_entries-keeps}
use blob.Batch.Content.{Sink}
use blob.Batch.Process.{select_entries, group_all, sort_by_offset, insert_by_offset}

-- The entries that the sink wants, by its own answers
unfoldable pub wanted : Sink → List Entry → List Entry
wanted sink [] = []
wanted sink (e ∷ es) = if sink.should_process e then e ∷ wanted sink es else wanted sink es

pub select_entries-wanted :
    (sink : Sink) (es : List Entry) → (select_entries sink es).0 ≡ wanted sink es
unfolding select_entries wanted
select_entries-wanted sink [] = refl
select_entries-wanted sink (e ∷ es) = go (sink.should_process e) (select_entries-wanted sink es)
  where
    go :
        (b : Bool)
        → (select_entries sink es).0 ≡ wanted sink es
        → (let r : List Entry × ℕ =
              if b
              then (e ∷ (select_entries sink es).0, (select_entries sink es).1)
              else ((select_entries sink es).0, (select_entries sink es).1 + 1) in
            r).0
          ≡ (if b then e ∷ wanted sink es else wanted sink es)
    go true ih = ap (◌∷◌ e) ih
    go false ih = ih

pub All-insert_by_offset :
    (P : Entry → Type 0) (e : Entry) (es : List Entry)
    → P e
    → All P es
    → All P (insert_by_offset e es)
unfolding insert_by_offset
All-insert_by_offset P e [] h a = (h, tt)
All-insert_by_offset P e (x ∷ xs) h a = elim (Bool-cases (ltb x.data_offset e.data_offset)) [
  | inl q ↦ rw (q, insert_by_offset) (a.0, All-insert_by_offset P e xs h a.1)
  | inr q ↦ rw (q, insert_by_offset) (h, a)
]

All-sort_by_offset : (P : Entry → Type 0) (es : List Entry) → All P es → All P (sort_by_offset es)
unfolding sort_by_offset
All-sort_by_offset P [] a = tt
All-sort_by_offset P (e ∷ es) a =
    All-insert_by_offset P e (sort_by_offset es) a.0 (All-sort_by_offset P es a.1)

pub group_all-entries : (es : List Entry) → all_entries (group_all es) ≡ es
group_all-entries [] = unfold all_entries in refl
group_all-entries (e ∷ es) = group_adjacent_entries-keeps e es

All-split {ℓ κ} :
    {A : Type ℓ} (P : A → Type κ) (xs ys : List A) → All P (xs ++ ys) → All P xs × All P ys
All-split P [] ys a = (tt, a)
All-split P (x ∷ xs) ys a = let (p, q) = All-split P xs ys a.1 in ((a.0, p), q)

All-all_entries :
    (P : Entry → Type 0) (gs : List RangeGroup)
    → All P (all_entries gs)
    → All (λ (g : RangeGroup). All P g.entries) gs
unfolding all_entries
All-all_entries P [] a = tt
All-all_entries P (g ∷ gs) a =
    let (p, q) = All-split P g.entries (all_entries gs) a in (p, All-all_entries P gs q)

-- What holds of the chosen entries holds of those of every group.
pub All-group_all :
    (P : Entry → Type 0) (es : List Entry)
    → All P es
    → All (λ (g : RangeGroup). All P g.entries) (group_all (sort_by_offset es))
All-group_all P es a =
    All-all_entries P (group_all (sort_by_offset es))
      (subst (All P) (sym (group_all-entries (sort_by_offset es))) (All-sort_by_offset P es a))

All-of_mem : (P : Entry → Type 0) (es : List Entry) → ((e : Entry) → Mem e es → P e) → All P es
All-of_mem P [] h = tt
All-of_mem P (e ∷ es) h = (h e mem-cons_self, All-of_mem P es (λ x m. h x (mem-cons_of_mem e m)))

pub select_entries-mem :
    (sink : Sink) (es : List Entry) → All (λ e. Mem e (wanted sink es)) (select_entries sink es).0
select_entries-mem sink es =
    subst (All (λ e. Mem e (wanted sink es))) (sym (select_entries-wanted sink es))
      (All-of_mem (λ e. Mem e (wanted sink es)) (wanted sink es) (λ e m. m))
