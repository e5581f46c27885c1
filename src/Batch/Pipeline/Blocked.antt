-- ===== src/Batch/Pipeline/Blocked.antt =====
-- A group larger than the budget of the pipeline of core/internal/batch/batch.go.
use blob.Prelude.{ℕ, ◌≤◌, ◌<◌, ◌≡◌, ◌≢◌, sym, ◌⊎◌, inl, inr, some, [], ◌∷◌, arith}
use mathlib.Core.Path.{subst}
use blob.Batch.Pipeline.{
  Pipeline, State, Has, IsFree, Step, send, acquire, read, hand, receive, consume, Reach, start,
  later, IsFinished,
}
use blob.Batch.Pipeline.Moves.{Has-of_Pick, Has-left, Has-append}

-- A group that has its bytes of the budget.
abbrev pub HasBytes : State → ℕ → Type 0
HasBytes s j = Has j s.reading ⊎ (Has j s.handing ⊎ (Has j s.ready ⊎ Has j s.pending))

-- A group that gets no bytes is not reached by the consumer.
pub record IsStuck (j : ℕ) (s : State) : Type 0 where
  pub before : s.next ≤ j
  pub without : HasBytes s j → ⊥

module _ (p : Pipeline) (limit j : ℕ) (limited : p.budget ≡ some limit)
    (large : limit < p.size j) where
  not-free : (used : ℕ) → IsFree p.budget used (p.size j) → ⊥
  not-free used free = let fits = subst (λ b. IsFree b used (p.size j)) limited free in omega arith

  Step-IsStuck : {s t : State} → Step p s t → IsStuck j s → IsStuck j t
  Step-IsStuck (send below idle) stuck = record { before = stuck.before; without = stuck.without }
  Step-IsStuck (acquire {s} {i} pick free) stuck = record {
    before = stuck.before;
    without = λ h. elim h [
      | inl (inl e) ↦ not-free s.used (subst (λ k. IsFree p.budget s.used (p.size k)) (sym e) free)
      | inl (inr r) ↦ stuck.without (inl r)
      | inr r ↦ stuck.without (inr r)
    ];
  }
  Step-IsStuck (read {s} pick) stuck = record {
    before = stuck.before;
    without = λ h. elim h [
      | inl r ↦ stuck.without (inl (Has-left j pick r))
      | inr (inl (inl e)) ↦
          stuck.without (inl (subst (λ k. Has k s.reading) (sym e) (Has-of_Pick pick)))
      | inr (inl (inr r)) ↦ stuck.without (inr (inl r))
      | inr (inr r) ↦ stuck.without (inr (inr r))
    ];
  }
  Step-IsStuck (hand {s} {i} pick room) stuck = record {
    before = stuck.before;
    without = λ h. elim h [
      | inl r ↦ stuck.without (inl r)
      | inr (inl r) ↦ stuck.without (inr (inl (Has-left j pick r)))
      | inr (inr (inl r)) ↦ elim (Has-append j s.ready (i ∷ []) r) [
        | inl q ↦ stuck.without (inr (inr (inl q)))
        | inr (inl e) ↦
            stuck.without (inr (inl (subst (λ k. Has k s.handing) (sym e) (Has-of_Pick pick))))
        | inr (inr q) ↦ q
      ]
      | inr (inr (inr r)) ↦ stuck.without (inr (inr (inr r)))
    ];
  }
  Step-IsStuck (receive {s} {i} {rest} taken other) stuck = record {
    before = stuck.before;
    without = λ h. elim h [
      | inl r ↦ stuck.without (inl r)
      | inr (inl r) ↦ stuck.without (inr (inl r))
      | inr (inr (inl r)) ↦ stuck.without (inr (inr (inl (subst (Has j) (sym taken) (inr r)))))
      | inr (inr (inr (inl e))) ↦
          stuck.without (inr (inr (inl (subst (Has j) (sym taken) (inl e)))))
      | inr (inr (inr (inr r))) ↦ stuck.without (inr (inr (inr r)))
    ];
  }
  Step-IsStuck (consume {s} pick) stuck = record {
    before =
        let other : s.next ≢ j = λ e.
          stuck.without (inr (inr (inr (subst (λ k. Has k s.pending) e (Has-of_Pick pick))))) in
        let below = stuck.before in ground arith;
    without = λ h. elim h [
      | inl r ↦ stuck.without (inl r)
      | inr (inl r) ↦ stuck.without (inr (inl r))
      | inr (inr (inl r)) ↦ stuck.without (inr (inr (inl r)))
      | inr (inr (inr r)) ↦ stuck.without (inr (inr (inr (Has-left j pick r))))
    ];
  }

  Reach-IsStuck : {s : State} → Reach p s → IsStuck j s
  Reach-IsStuck start = record { before = omega arith; without = λ h. ground arith }
  Reach-IsStuck (later r st) = Step-IsStuck st (Reach-IsStuck r)

  -- Where the budget is limited and a group is larger, no state that the pipeline comes to is one in which
  -- all groups are processed: the group is never read, and the consumer waits in front of it.
  pub blocked : {s : State} → j < p.count → Reach p s → (¬ (IsFinished p s)) × IsStuck j s
  blocked inside r =
      let stuck = Reach-IsStuck r in
      let below = stuck.before in ((λ done. omega (arith, done, below, inside)), stuck)
