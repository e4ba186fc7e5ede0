-- ===== src/Limit/Examples.antt =====
-- The limits of limit/limit.go at concrete settings. Contexts are numbers.
use go_stopper.Prelude.{ℕ, ◌-◌, ◌*◌, ◌≤◌, ◌⊎◌, ◌≡◌, refl, [], ◌∷◌, none, some, arith}
use go_stopper.Prelude.Int.{pos}
use go_stopper.Errors.{user_error}
use go_stopper.Prelude.Moves.{here, there, sum_of, All}
use go_stopper.Safe.{returns}
use go_stopper.Invocation.{ends, blocks, Func, chain, invoker_drop}
use go_stopper.Retry.{emits, Loop, attempt, loop_classify, retry_invoker}
use go_stopper.Limit.{takes_slot, release_slot, slot_invoker, with_max_concurrency}
use go_stopper.Limit.Crowd.{
  Crowd, running, over, start_crowd, enters, queues, takes, drops, leaves, Reach, begin, moves,
  stops, length_of,
}
use go_stopper.Limit.Crowd.Bound.{runs, concurrency_bounded}
use go_stopper.Limit.Crowd.Progress.{IsOver, CanMove, release_succeeds, concurrency_progress}
use go_stopper.Limit.Slots.{run_under, short_circuit_keeps_slot, retry_over_limit_blocks}

abbrev fails : Func ℕ ℕ
fails ctx held = ends (returns (some (user_error ctx))) held

short_circuit_keeps_slot_example :
    run_under
      ((λ x w. ends (returns (x, invoker_drop)) w) ∷ with_max_concurrency 3 takes_slot ∷ [])
      0
      fails
      1
    ≡ ends (returns none) 2
unfolding invoker_drop
short_circuit_keeps_slot_example =
    short_circuit_keeps_slot 3 takes_slot invoker_drop 0 fails 1 (returns none) (omega arith)
      (λ inner. refl)

abbrev twice : Loop
twice = record { max_attempts = pos 2; retryable = none }

retry_over_limit_blocks_example :
    chain (retry_invoker (loop_classify twice) (λ c. emits) 2 0 ∷ slot_invoker ∷ []) 0 fails 1
    ≡ blocks
unfolding loop_classify attempt
retry_over_limit_blocks_example =
    retry_over_limit_blocks (loop_classify twice) (λ c. emits) 0 0 1 0 fails (user_error 0)
      (returns (some (user_error 0))) refl refl refl

-- Three tasks under a limit of one: the first one ends and gives its slot to the second one, and a
-- stop drops the third one.
abbrev three_tasks : (s : Crowd) × Reach 1 (start_crowd 3) s
three_tasks =
    let entered = moves begin (enters (omega arith) here) in
    let full =
      moves (moves entered (queues (omega arith) (there here)))
        (queues (omega arith) (there (there here))) in
    let passed =
      moves (moves full (leaves (release_succeeds (omega arith)) here))
        (takes (omega arith) (there here)) in
    (_, moves (stops passed) (drops refl (there (there here))))

three_tasks_run : three_tasks.0.tasks ≡ over ∷ running ∷ over ∷ []
three_tasks_run = refl

concurrency_bounded_example :
    (three_tasks.0.held ≡ sum_of runs three_tasks.0.tasks) × (sum_of runs three_tasks.0.tasks ≤ 1)
concurrency_bounded_example = concurrency_bounded 1 3 three_tasks.1

concurrency_progress_example :
    (length_of 1 three_tasks.1 ≤ 3 * 3)
    × (All IsOver three_tasks.0.tasks ⊎ CanMove 1 three_tasks.0)
    × ((sum_of runs three_tasks.0.tasks ≡ 0)
        ⊎ (release_slot three_tasks.0.held ≡ ends (returns tt) (three_tasks.0.held - 1)))
concurrency_progress_example = concurrency_progress 1 3 (omega arith) three_tasks.1
