-- ===== src/Batch/Pipeline/Live.antt =====
-- The pipeline of core/internal/batch/batch.go: the steps of a run, and the states without a budget of
-- bytes.
use mathlib.Core.Path.{subst}
use blob.Prelude.{
  ℕ, suc, ◌+◌, ◌-◌, ◌*◌, ◌≤◌, ◌<◌, ◌≡◌, refl, sym, ap, ◌⊎◌, inl, inr, none, List, [], ◌∷◌, arith,
  length, length-append, ltb, Bool-cases,
}
use blob.Batch.Pipeline.{
  Pipeline, State, Pick, here, Has, IsFree, Step, send, acquire, read, hand, receive, consume,
  Reach, start, later, IsFinished,
}
use blob.Batch.Pipeline.Moves.{
  Has-Pick, length-Pick, Pick-of_Has, Has-cases, Has-append_left, Has-append_last,
}

-- What is left to be done, at the start 6 for each group
abbrev work : Pipeline → State → ℕ
work p s =
    6 * (p.count - s.sent)
    + 5 * length s.waiting
    + 4 * length s.reading
    + 3 * length s.handing
    + 2 * length s.ready
    + length s.pending

-- A group between the goroutine that sends and the end of its processing.
abbrev Somewhere : State → ℕ → Type 0
Somewhere s i =
    Has i s.waiting ⊎ (Has i s.reading ⊎ (Has i s.handing ⊎ (Has i s.ready ⊎ Has i s.pending)))

-- The groups that have been sent and not been processed are all there.
pub record IsCovered (p : Pipeline) (s : State) : Type 0 where
  pub within : s.sent ≤ p.count
  pub covered : (i : ℕ) → s.next ≤ i → i < s.sent → Somewhere s i

module _ (p : Pipeline) where
  Step-work : {s t : State} → Step p s t → work p t < work p s
  Step-work (send below idle) = omega arith
  Step-work (acquire pick free) = omega (arith, length-Pick pick)
  Step-work (read pick) = omega (arith, length-Pick pick)
  Step-work (hand {s} {i} pick room) =
      omega (arith, length-Pick pick, length-append s.ready (i ∷ []))
  Step-work (receive taken other) = omega (arith, ap length taken)
  Step-work (consume pick) = omega (arith, length-Pick pick)

  -- The number of steps of a run
  unfoldable pub steps : {s : State} → Reach p s → ℕ
  steps start = 0
  steps (later r st) = suc (steps r)

  steps-work : {s : State} (r : Reach p s) → steps r + work p s ≤ 6 * p.count
  unfolding steps
  steps-work start = omega arith
  steps-work (later r st) = omega (arith, steps-work r, Step-work st)

  -- A run of the pipeline, with a budget or without, has at most six steps for each group.
  pub steps-bounded : {s : State} (r : Reach p s) → steps r ≤ 6 * p.count
  steps-bounded r = omega (arith, steps-work r)

  Step-IsCovered : {s t : State} → Step p s t → IsCovered p s → IsCovered p t
  Step-IsCovered (send {s} below idle) c = record {
    within = below;
    covered = λ i low high. elim (Bool-cases (ltb i s.sent)) [
      | inl l ↦ elim (c.covered i low (ground arith)) [ inl h ↦ inl (inr h) | inr h ↦ inr h ]
      | inr l ↦ inl (inl (ground arith))
    ];
  }
  Step-IsCovered (acquire {s} pick free) c = record {
    within = c.within;
    covered = λ k low high. elim (c.covered k low high) [
      | inl h ↦ elim (Has-Pick pick h) [ inl e ↦ inr (inl (inl e)) | inr r ↦ inl r ]
      | inr (inl h) ↦ inr (inl (inr h))
      | inr (inr h) ↦ inr (inr h)
    ];
  }
  Step-IsCovered (read {s} pick) c = record {
    within = c.within;
    covered = λ k low high. elim (c.covered k low high) [
      | inl h ↦ inl h
      | inr (inl h) ↦ elim (Has-Pick pick h) [
        | inl e ↦ inr (inr (inl (inl e)))
        | inr r ↦ inr (inl r)
      ]
      | inr (inr (inl h)) ↦ inr (inr (inl (inr h)))
      | inr (inr (inr h)) ↦ inr (inr (inr h))
    ];
  }
  Step-IsCovered (hand {s} {i} pick room) c = record {
    within = c.within;
    covered = λ k low high. elim (c.covered k low high) [
      | inl h ↦ inl h
      | inr (inl h) ↦ inr (inl h)
      | inr (inr (inl h)) ↦ elim (Has-Pick pick h) [
        | inl e ↦ inr (inr (inr (inl (Has-append_last s.ready e))))
        | inr r ↦ inr (inr (inl r))
      ]
      | inr (inr (inr (inl h))) ↦ inr (inr (inr (inl (Has-append_left k s.ready (i ∷ []) h))))
      | inr (inr (inr (inr h))) ↦ inr (inr (inr (inr h)))
    ];
  }
  Step-IsCovered (receive {s} {i} {rest} taken other) c = record {
    within = c.within;
    covered = λ k low high. elim (c.covered k low high) [
      | inl h ↦ inl h
      | inr (inl h) ↦ inr (inl h)
      | inr (inr (inl h)) ↦ inr (inr (inl h))
      | inr (inr (inr (inl h))) ↦ elim (subst (Has k) taken h) [
        | inl e ↦ inr (inr (inr (inr (inl e))))
        | inr r ↦ inr (inr (inr (inl r)))
      ]
      | inr (inr (inr (inr h))) ↦ inr (inr (inr (inr (inr h))))
    ];
  }
  Step-IsCovered (consume {s} pick) c = record {
    within = c.within;
    covered = λ k low high. elim (c.covered k (omega arith) high) [
      | inl h ↦ inl h
      | inr (inl h) ↦ inr (inl h)
      | inr (inr (inl h)) ↦ inr (inr (inl h))
      | inr (inr (inr (inl h))) ↦ inr (inr (inr (inl h)))
      | inr (inr (inr (inr h))) ↦ elim (Has-Pick pick h) [
        | inl e ↦ absurd (omega (arith, e))
        | inr r ↦ inr (inr (inr (inr r)))
      ]
    ];
  }

  Reach-IsCovered : {s : State} → Reach p s → IsCovered p s
  Reach-IsCovered start = record {
    within = omega arith;
    covered = λ i low high. absurd (omega arith);
  }
  Reach-IsCovered (later r st) = Step-IsCovered st (Reach-IsCovered r)

  module _ (unlimited : p.budget ≡ none) (some_worker : 0 < p.workers) where
    free : (used n : ℕ) → IsFree p.budget used n
    free used n = subst (λ b. IsFree b used n) (sym unlimited) tt

    picked : (i : ℕ) (xs rest : List ℕ) → xs ≡ i ∷ rest → Pick i xs rest
    picked i xs rest e = subst (λ zs. Pick i zs rest) (sym e) here

    -- Where no worker and no channel has a group, the next one has not been sent.
    unsent :
        (s : State)
        → IsCovered p s
        → s.waiting ≡ []
        → s.reading ≡ []
        → s.handing ≡ []
        → s.ready ≡ []
        → (Has s.next s.pending → ⊥)
        → s.sent ≤ s.next
    unsent s c w r h d other = elim (Bool-cases (ltb s.next s.sent)) [
      | inl below ↦ absurd (elim (c.covered s.next (omega arith) (ground arith)) [
        | inl x ↦ subst (Has s.next) w x
        | inr (inl x) ↦ subst (Has s.next) r x
        | inr (inr (inl x)) ↦ subst (Has s.next) h x
        | inr (inr (inr (inl x))) ↦ subst (Has s.next) d x
        | inr (inr (inr (inr x))) ↦ other x
      ])
      | inr above ↦ ground arith
    ]

    -- A state in which a group is left to be processed has a step.
    progress : (s : State) → IsCovered p s → s.next < p.count → (t : State) × Step p s t
    progress s c left = elim (Has-cases s.next s.pending) [
      | inl h ↦ let (rest, pick) = Pick-of_Has s.pending h in (_, consume pick)
      | inr other ↦ go other s.ready refl s.handing refl s.reading refl s.waiting refl
    ]
      where
        go :
            (Has s.next s.pending → ⊥)
            → (d : List ℕ) → s.ready ≡ d
            → (h : List ℕ) → s.handing ≡ h
            → (r : List ℕ) → s.reading ≡ r
            → (w : List ℕ) → s.waiting ≡ w
            → (t : State) × Step p s t
        go other (i ∷ rest) d h eh r er w ew = (_, receive d other)
        go other [] d (i ∷ rest) eh r er w ew =
            (_, hand (picked i s.handing rest eh) (omega (arith, ap length d)))
        go other [] d [] eh (i ∷ rest) er w ew = (_, read (picked i s.reading rest er))
        go other [] d [] eh [] er (i ∷ rest) ew =
            (_, acquire (picked i s.waiting rest ew) (free s.used (p.size i)))
        go other [] d [] eh [] er [] ew =
            let ahead = unsent s c ew er eh d other in
            (
              _,
              send (omega (arith, ahead)) (omega (arith, ap length ew, ap length er, ap length eh)),
            )

    -- Without a budget and with at least one worker that reads, no state that the pipeline comes to is
    -- stuck: all groups are processed, or a step can be made.
    pub lives : {s : State} → Reach p s → IsFinished p s ⊎ ((t : State) × Step p s t)
    lives {s} r = elim (Bool-cases (ltb s.next p.count)) [
      | inl left ↦ inr (progress s (Reach-IsCovered r) (ground arith))
      | inr done ↦ inl (ground arith)
    ]
