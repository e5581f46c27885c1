-- ===== src/Tests/Pipelines.antt =====
-- The pipeline on concrete data.
use blob.Prelude.{◌≤◌, ◌⊎◌, refl, arith, none, some, [], ◌∷◌}
use blob.Batch.Pipeline.{Pipeline, State, Step, send, Reach, start, later, IsFinished, initial}
use blob.Batch.Pipeline.Blocked.{IsStuck, blocked}
use blob.Batch.Pipeline.Live.{lives, steps, steps-bounded}
use blob.Batch.Pipeline.Crossed.{crossed, deadlocks}

-- Two groups of three bytes, with two workers
abbrev two_groups : Pipeline
two_groups = record { count = 2; size = λ i. 3; workers = 2; budget = some 4 }

abbrev small_budget : Pipeline
small_budget = record two_groups { budget = some 2 }

abbrev no_budget : Pipeline
no_budget = record two_groups { budget = none }

blocked_example : (¬ (IsFinished small_budget initial)) × IsStuck 1 initial
blocked_example = blocked small_budget 2 1 refl (omega arith) (omega arith) start

lives_example : IsFinished no_budget initial ⊎ ((t : State) × Step no_budget initial t)
lives_example = lives no_budget refl (omega arith) start

-- The first group is sent.
one_step : Reach two_groups (record initial { sent = 1; waiting = 0 ∷ [] })
one_step = later start (send (omega arith) (omega arith))

steps-bounded_example : steps two_groups one_step ≤ 12
steps-bounded_example = steps-bounded two_groups one_step

deadlocks_example :
    Reach two_groups (crossed two_groups)
    × (¬ ((t : State) × Step two_groups (crossed two_groups) t))
    × (¬ (IsFinished two_groups (crossed two_groups)))
deadlocks_example = deadlocks two_groups 4 refl refl (omega arith) (omega arith) (omega arith)
