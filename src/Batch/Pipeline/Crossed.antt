-- ===== src/Batch/Pipeline/Crossed.antt =====
-- Two groups of the pipeline of core/internal/batch/batch.go that share a budget.
use mathlib.Core.Path.{subst}
use blob.Prelude.{ℕ, ◌+◌, ◌≤◌, ◌<◌, ◌≡◌, refl, sym, ap, inl, inr, some, [], ◌∷◌, arith}
use blob.Batch.Pipeline.Moves.{Has-of_Pick}
use blob.Batch.Pipeline.{
  Pipeline, State, here, Has, IsFree, Step, send, acquire, read, hand, receive, consume, Reach,
  start, later, IsFinished,
}

-- The second group has been read and waits for the first, which waits for the budget.
abbrev pub crossed : Pipeline → State
crossed p = record {
  sent = 2;
  waiting = 0 ∷ [];
  reading = [];
  handing = [];
  ready = [];
  pending = 1 ∷ [];
  next = 0;
  used = 0 + p.size 1;
}

module _ (p : Pipeline) (limit : ℕ) (limited : p.budget ≡ some limit) (two : p.count ≡ 2)
    (several : 2 ≤ p.workers) (fits : p.size 1 ≤ limit) where
  second-IsFree : IsFree p.budget 0 (p.size 1)
  second-IsFree = subst (λ b. IsFree b 0 (p.size 1)) (sym limited) (omega arith)

  crossed-Reach : Reach p (crossed p)
  crossed-Reach =
      let first : Reach p _ = later start (send (omega arith) (omega arith)) in
      let both : Reach p _ = later first (send (omega arith) (omega arith)) in
      let taken : Reach p _ = later both (acquire here second-IsFree) in
      let done : Reach p _ = later taken (read here) in
      let handed : Reach p _ = later done (hand here (omega arith)) in
      later handed (receive refl (λ h. h))

  module _ (over : limit < p.size 0 + p.size 1) where
    first-not_free : IsFree p.budget (0 + p.size 1) (p.size 0) → ⊥
    first-not_free free =
        let room = subst (λ b. IsFree b (0 + p.size 1) (p.size 0)) limited free in omega arith

    no-step : (s t : State) → s ≡ crossed p → Step p s t → ⊥
    no-step s t e (send below idle) = omega (arith, ap (λ (x : State). x.sent) e)
    no-step s t e (acquire {i} pick free) =
        elim (subst (λ (x : State). Has i x.waiting) e (Has-of_Pick pick)) [
          | inl zero ↦ first-not_free (
              subst (λ k. IsFree p.budget (0 + p.size 1) (p.size k)) zero
                (subst (λ (x : State). IsFree p.budget x.used (p.size i)) e free))
          | inr none ↦ none
        ]
    no-step s t e (read {i} pick) = subst (λ (x : State). Has i x.reading) e (Has-of_Pick pick)
    no-step s t e (hand {i} pick room) = subst (λ (x : State). Has i x.handing) e (Has-of_Pick pick)
    no-step s t e (receive taken other) =
        let empty : s.ready ≡ [] = ap (λ (x : State). x.ready) e in cc
    no-step s t e (consume pick) =
        elim (subst (λ (x : State). Has x.next x.pending) e (Has-of_Pick pick)) [
          | inl other ↦ omega (arith, other)
          | inr none ↦ none
        ]

    -- Two groups that each fit into the budget, but not together, and two or more workers: the pipeline
    -- comes to a state in which no step can be made and nothing has been processed. The worker with the
    -- second group has taken the budget, and it is given back only behind the first group.
    pub deadlocks :
        Reach p (crossed p)
        × (¬ ((t : State) × Step p (crossed p) t))
        × (¬ (IsFinished p (crossed p)))
    deadlocks = (
      crossed-Reach,
      (λ move. no-step (crossed p) move.0 refl move.1),
      (λ done. omega (arith, done)),
    )
