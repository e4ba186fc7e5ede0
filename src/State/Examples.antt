-- ===== src/State/Examples.antt =====
-- Runs of internal/state/state.go on small histories.
use mathlib.Core.List.{Memᴰ}
use go_stopper.Prelude.{
  Option, none, ◌<◌, ◌==◌, if◌then◌else◌, ◌+◌, ◌≡◌, refl, true, false, [], ◌∷◌, ◌++◌, map, some,
  reverse, count_if,
}
use go_stopper.Prelude.Int.{ℤ, pos, ◌+ℤ◌, ◌≤ℤ◌}
use go_stopper.Safe.{Outcome, returns, panics, other_value, call_e}
use go_stopper.Errors.{Error, user_error, stopped, grace_period_expired}
use go_stopper.State.{
  user, cancel_with, new, Callback, add_errors, add_deferred_or_run, add_deferred,
}
use go_stopper.State.Trace.{
  applies, defers, stops, stops_on_idle, expires, exec, IsPossible, History, run, called,
}
use go_stopper.State.Invariant.{IsWellFormed, new-IsWellFormed, run-IsWellFormed}
use go_stopper.State.Conservation.{is_user, deferred_conserved, deferred_stranded}
use go_stopper.State.Lifecycle.{view, Life}
use go_stopper.State.Refinement.{run_refines}
use go_stopper.State.Order.{unhooked, hard_stop_order}
use go_stopper.State.Drain.{
  stopping_is_final, release, releases, drain_completes, grace_timer_cancels, calls, deadline, All,
  stops_deadline,
}

-- One task, two deferred functions, and a stop whose grace period expires.
abbrev draining : History
draining =
    (pos 0, applies (pos 1))
    ∷ (pos 5, defers 7)
    ∷ (pos 10, stops (pos 20))
    ∷ (pos 12, defers 8)
    ∷ []

abbrev expiring : History
expiring = draining ++ (pos 30, expires) ∷ []

expiring_runs :
    called (new 1 false) expiring ≡ user 8 ∷ user 7 ∷ cancel_with 1 grace_period_expired ∷ []
unfolding new exec called ◌+ℤ◌
expiring_runs = refl

idle_runs :
    called
      (new 1 false)
      ((pos 0, applies (pos 2)) ∷ (pos 1, stops_on_idle (pos 5)) ∷ releases (pos 9) 2)
    ≡ cancel_with 1 stopped ∷ []
unfolding new exec called ◌+ℤ◌
idle_runs = refl

run-IsWellFormed_example : IsWellFormed (run (new 1 false) expiring)
unfolding new exec ◌+ℤ◌
run-IsWellFormed_example =
    run-IsWellFormed (new 1 false) [] expiring (new-IsWellFormed 1 false) (λ _. refl)
      (tt, (tt, (tt, (tt, (refl, tt)))))

deferred_conserved_example :
    count_if (is_user 7) (called (new 1 false) expiring)
      + count_if (is_user 7) (run (new 1 false) expiring).deferred
    ≡ count_if (is_user 7) (new 1 false).deferred + 1
deferred_conserved_example = deferred_conserved 7 (new 1 false) expiring

deferred_stranded_example :
    ((add_deferred 9 (run (new 1 false) expiring)).1 ≡ true)
    × (count_if
          (is_user 9)
          (called (add_deferred 9 (run (new 1 false) expiring)).0 (releases (pos 40) 1))
        ≡ 0)
    × (0
        < count_if
            (is_user 9)
            (run (add_deferred 9 (run (new 1 false) expiring)).0 (releases (pos 40) 1)).deferred)
unfolding new exec run ◌+ℤ◌
deferred_stranded_example =
    deferred_stranded 9 (run (new 1 false) expiring) (releases (pos 40) 1) refl refl refl

hard_stop_order_example :
    reverse (unhooked (exec (pos 30) expires (run (new 1 false) draining)).deferred)
    ≡ user 8 ∷ user 7 ∷ cancel_with 1 grace_period_expired ∷ []
unfolding new exec run ◌+ℤ◌
hard_stop_order_example =
    hard_stop_order 1 false draining (pos 30) expires (tt, (tt, (tt, (tt, (refl, tt))))) refl refl

stopping_is_final_example :
    ((run (run (new 1 false) draining) (releases (pos 15) 1)).stopping ≡ true)
    × ((run (run (new 1 false) draining) (releases (pos 15) 1)).count
        ≤ℤ (run (new 1 false) draining).count)
unfolding new exec run ◌+ℤ◌
stopping_is_final_example =
    stopping_is_final (run (new 1 false) draining) (releases (pos 15) 1) refl

drain_completes_example :
    ((run (run (new 1 false) draining) (releases (pos 15) 0)).cancel ≡ some 1)
    × (unhooked
          (exec (pos 15) release (run (run (new 1 false) draining) (releases (pos 15) 0))).deferred
        ≡ cancel_with 1 stopped ∷ (run (new 1 false) draining).deferred)
unfolding new exec run ◌+ℤ◌
drain_completes_example = drain_completes 0 (pos 15) (run (new 1 false) draining) 1 refl refl refl

draining-IsWellFormed : IsWellFormed (run (new 1 false) draining)
draining-IsWellFormed =
    run-IsWellFormed (new 1 false) [] draining (new-IsWellFormed 1 false) (λ _. refl)
      (tt, (tt, (tt, (tt, tt))))

grace_timer_cancels_example :
    let s = run (new 1 false) draining in
    (d : ℤ) × (s.grace_timer ≡ some d)
    × IsPossible (new 1 false) [] (draining ++ (d +ℤ pos 2, expires) ∷ [])
    × ((exec (d +ℤ pos 2) expires s).deferred ≡ cancel_with 1 grace_period_expired ∷ s.deferred)
    × ((exec (d +ℤ pos 2) expires s).after.cancel ≡ none)
    × ((exec (d +ℤ pos 2) expires s).after.deferred ≡ [])
unfolding new exec run ◌+ℤ◌
grace_timer_cancels_example =
    grace_timer_cancels 1 false draining 1 2 (tt, (tt, (tt, (tt, tt)))) refl refl

-- A state with one task.
abbrev busy : History
busy = (pos 0, applies (pos 1)) ∷ []

busy-IsWellFormed : IsWellFormed (run (new 1 false) busy)
unfolding new
busy-IsWellFormed =
    run-IsWellFormed (new 1 false) [] busy (new-IsWellFormed 1 false) (λ _. refl) (tt, tt)

stops_deadline_example :
    (d : ℤ) × ((run
        (run (new 1 false) busy)
        (calls ((pos 10, pos 20) ∷ (pos 12, pos 5) ∷ (pos 13, pos 9) ∷ []))).grace_timer
      ≡ some d)
    × All (λ r. d ≤ℤ deadline r) ((pos 10, pos 20) ∷ (pos 12, pos 5) ∷ (pos 13, pos 9) ∷ [])
    × Memᴰ d (map deadline ((pos 10, pos 20) ∷ (pos 12, pos 5) ∷ (pos 13, pos 9) ∷ []))
unfolding new exec run ◌+ℤ◌
stops_deadline_example =
    stops_deadline (pos 10) (pos 20) ((pos 12, pos 5) ∷ (pos 13, pos 9) ∷ [])
      (run (new 1 false) busy) busy-IsWellFormed refl refl (refl, (refl, (refl, tt)))

-- The function 7 fails, the function 8 panics.
abbrev runs : Callback → Outcome (Option Error)
runs (user fn) = if fn == 8 then panics (other_value 5) else returns (some (user_error fn))
runs _ = returns none

add_deferred_or_run-runs :
    (add_deferred_or_run 7 (runs (user 7)) (run (new 1 false) ((pos 3, stops (pos 0)) ∷ []))).0.errs
    ≡ user_error 7 ∷ []
unfolding new exec run add_deferred_or_run add_errors call_e
add_deferred_or_run-runs = refl

run_refines_example :
    Life
      (view (new 1 false))
      (view (run (new 1 false) expiring))
      (user 8 ∷ user 7 ∷ cancel_with 1 grace_period_expired ∷ [])
unfolding new exec ◌+ℤ◌
run_refines_example =
    run_refines (new 1 false) [] expiring (new-IsWellFormed 1 false) (λ _. refl)
      (tt, (tt, (tt, (tt, (refl, tt)))))
