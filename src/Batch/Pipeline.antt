-- ===== src/Batch/Pipeline.antt =====
-- processGroupsPipelined of core/internal/batch/batch.go as a step relation: the goroutine that sends
-- the groups, the workers that read them, the consumer that processes them in their order, the channels
-- between them and the semaphore of bytes. A run in which nothing fails: an error ends it by the
-- context. The semaphore gives out what is free; golang.org/x/sync serves its waiters in their order,
-- which leaves fewer steps.
pub mod Moves
pub mod Blocked
pub mod Live
pub mod Crossed
use blob.Prelude.{
  ℕ, suc, ◌+◌, ◌-◌, ◌≤◌, ◌<◌, ◌≡◌, ◌⊎◌, Option, none, some, List, [], ◌∷◌, ◌++◌, length, get_elem?,
  ℤ, pos, negsuc, sub_u64, ltb, if◌then◌else◌,
}
use blob.Batch.Group.{RangeGroup}
use blob.Batch.Process.{Processor}

-- The number of the groups and their sizes, the workers that read, and the budget of bytes.
pub record Pipeline : Type 0 where
  pub count : ℕ
  pub size : ℕ → ℕ
  pub workers : ℕ
  pub budget : Option ℕ

abbrev pub size_at : Option RangeGroup → ℕ
size_at none = 0
size_at (some g) = sub_u64 g.end g.start

-- At least one worker reads.
abbrev pub read_workers : ℤ → ℕ
read_workers (pos n) = if ltb n 1 then 1 else n
read_workers (negsuc n) = 1

-- The pipeline of a processor for some groups
abbrev pub pipeline_of : Processor → List RangeGroup → Pipeline
pipeline_of p groups = record {
  count = length groups;
  size = λ i. size_at (get_elem? groups i);
  workers = read_workers p.read_concurrency;
  budget = p.read_ahead;
}

-- Groups by their index: the next one to be sent; those of the workers that wait for the budget, that
-- read, and that wait to hand over what they have read; those in readyCh and in the consumer's map; the
-- one that the consumer processes next; and the bytes taken from the budget.
pub record State : Type 0 where
  pub sent : ℕ
  pub waiting : List ℕ
  pub reading : List ℕ
  pub handing : List ℕ
  pub ready : List ℕ
  pub pending : List ℕ
  pub next : ℕ
  pub used : ℕ

abbrev pub initial : State
initial = record {
  sent = 0;
  waiting = [];
  reading = [];
  handing = [];
  ready = [];
  pending = [];
  next = 0;
  used = 0;
}

-- An element of a list, and the others.
pub data Pick (i : ℕ) : List ℕ → List ℕ → Type 0 where
  here : {xs : List ℕ} → Pick i (i ∷ xs) xs
  there : {x : ℕ} {xs ys : List ℕ} → Pick i xs ys → Pick i (x ∷ xs) (x ∷ ys)

abbrev pub Has : ℕ → List ℕ → Type 0
Has i [] = ⊥
Has i (x ∷ xs) = (i ≡ x) ⊎ Has i xs

abbrev pub busy : State → ℕ
busy s = length s.waiting + (length s.reading + length s.handing)

-- Acquire of so many bytes may go on.
abbrev pub IsFree : Option ℕ → ℕ → ℕ → Type 0
IsFree none used n = Unit
IsFree (some limit) used n = used + n ≤ limit

-- What one goroutine does at a time: a group is sent to an idle worker; a worker gets its bytes; it has
-- read; it puts what it has read into readyCh, which holds one result for each worker; the consumer,
-- whose map has not the next group, takes a result; it processes the next group and releases its bytes.
pub data Step (p : Pipeline) : State → State → Type 0 where
  send :
      {s : State}
      → s.sent < p.count
      → busy s < p.workers
      → Step p s (record s { sent = suc s.sent; waiting = s.sent ∷ s.waiting })
  acquire :
      {s : State} {i : ℕ} {rest : List ℕ}
      → Pick i s.waiting rest
      → IsFree p.budget s.used (p.size i)
      → Step p s (record s { waiting = rest; reading = i ∷ s.reading; used = s.used + p.size i })
  read :
      {s : State} {i : ℕ} {rest : List ℕ}
      → Pick i s.reading rest
      → Step p s (record s { reading = rest; handing = i ∷ s.handing })
  hand :
      {s : State} {i : ℕ} {rest : List ℕ}
      → Pick i s.handing rest
      → length s.ready < p.workers
      → Step p s (record s { handing = rest; ready = s.ready ++ (i ∷ []) })
  receive :
      {s : State} {i : ℕ} {rest : List ℕ}
      → s.ready ≡ i ∷ rest
      → (Has s.next s.pending → ⊥)
      → Step p s (record s { ready = rest; pending = i ∷ s.pending })
  consume :
      {s : State} {rest : List ℕ}
      → Pick s.next s.pending rest
      → Step p s (record s { pending = rest; next = suc s.next; used = s.used - p.size s.next })

-- The states that a run comes to
pub data Reach (p : Pipeline) : State → Type 0 where
  start : Reach p initial
  later : {s t : State} → Reach p s → Step p s t → Reach p t

-- Wait returns without an error once the consumer has processed all groups.
abbrev pub IsFinished : Pipeline → State → Type 0
IsFinished p s = p.count ≤ s.next
