-- ===== src/Tree/Examples.antt =====
-- Runs of Apply on small trees.
use go_stopper.Prelude.{ℕ, arith, ◌≡◌, refl, true, false, [], ◌∷◌}
use go_stopper.Prelude.Int.{pos, negsuc, ◌+ℤ◌}
use go_stopper.Errors.{stopped}
use go_stopper.State.{State, new, result, user, cancel_with}
use go_stopper.State.Trace.{stops, applies, defers, exec, run}
use go_stopper.Tree.{Level, quiet, apply_path}
use go_stopper.Tree.Counts.{counts}
use go_stopper.Tree.Release.{IsLast, parents_cancel_first}
use go_stopper.Tree.Apply.{all_open, apply_all_or_nothing}

-- The root has one task; the state below it is stopped between its fast check and its lock.
abbrev raced : Level
raced = record { state = new 1 true; gap = (pos 3, stops (pos 9)) ∷ [] }

abbrev busy : State
busy = run (new 2 false) ((pos 0, applies (pos 1)) ∷ [])

raced_runs : (apply_path 3 (pos 4) (pos 1) (raced ∷ quiet busy ∷ [])).verdict ≡ result false
unfolding apply_path new exec run ◌+ℤ◌
raced_runs = refl

apply_all_or_nothing_example :
    ((apply_path 3 (pos 4) (pos 2) (raced ∷ quiet busy ∷ [])).verdict ≡ result false)
    × (counts (apply_path 3 (pos 4) (pos 2) (raced ∷ quiet busy ∷ [])).states ≡ pos 0 ∷ pos 1 ∷ [])
unfolding new exec run all_open ◌+ℤ◌
apply_all_or_nothing_example =
    apply_all_or_nothing 3 (pos 4) (pos 2) (raced ∷ quiet busy ∷ []) (omega arith) refl
      (refl, (refl, tt))

-- Two stopping states, each with a deferred function and its last task.
abbrev lasting : ℕ → ℕ → State
lasting cancel fn =
    run (new cancel false)
      ((pos 0, applies (pos 1)) ∷ (pos 1, defers fn) ∷ (pos 2, stops (pos 50)) ∷ [])

lasting-IsLast : (cancel fn : ℕ) → IsLast (lasting cancel fn) cancel
unfolding new exec run ◌+ℤ◌
lasting-IsLast cancel fn = record { stopping = refl; count = refl; cancel = refl; idle = refl }

parents_cancel_first_example :
    ((apply_path 3 (pos 4) (negsuc 0) (quiet (lasting 1 7) ∷ quiet (lasting 2 8) ∷ [])).verdict
      ≡ result true)
    × ((apply_path 3 (pos 4) (negsuc 0) (quiet (lasting 1 7) ∷ quiet (lasting 2 8) ∷ [])).called
        ≡ (0, user 8) ∷ (0, cancel_with 2 stopped) ∷ (1, user 7) ∷ (1, cancel_with 1 stopped) ∷ [])
unfolding new exec run ◌+ℤ◌
parents_cancel_first_example =
    parents_cancel_first 3 (pos 4) ((lasting 1 7, 1) ∷ (lasting 2 8, 2) ∷ []) (omega arith)
      (lasting-IsLast 1 7, (lasting-IsLast 2 8, tt))
