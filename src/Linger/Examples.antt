-- ===== src/Linger/Examples.antt =====
-- Runs of linger/ on small recorders.
use go_stopper.Prelude.{ℕ, ◌≡◌, ◌≢◌, refl, List, [], ◌∷◌, none, arith}
use go_stopper.Safe.{returns, panics, other_value}
use go_stopper.Invocation.{Func, ends, then_run, chain, invoker_drop, set_up}
use go_stopper.Linger.{
  Stack, Recorder, new_recorder, callers, recorder_middleware, check_clean, lingering_detected,
  stuck_task, frame,
}
use go_stopper.Linger.Running.{starts, finishes, Event, observe, callers_running}
use go_stopper.Linger.Clean.{short_circuit_lingers}

abbrev two_tasks : List Event
two_tasks = starts (10 ∷ []) ∷ starts (20 ∷ 21 ∷ []) ∷ finishes 1 ∷ []

abbrev frames_of : Stack → ℕ × List ℕ
frames_of [] = (0, [])
frames_of (pc ∷ pcs) = (pc, pcs)

abbrev sampled : ℕ → ℕ → Stack
sampled offset depth = offset ∷ []

abbrev panicking : Func (Recorder × ℕ) ℕ
panicking ctx (r, v) = ends (panics (other_value 3)) (r, 9)

report_runs :
    check_clean frames_of (observe (new_recorder 2) two_tasks)
    ≡ lingering_detected ∷ stuck_task ∷ frame 20 ∷ frame 21 ∷ []
unfolding observe check_clean
report_runs = refl

callers_running_example : callers (observe (new_recorder 2) two_tasks) ≡ (20 ∷ 21 ∷ []) ∷ []
callers_running_example = callers_running 2 two_tasks (omega arith)

-- A task that is dropped, and then one that starts and ends.
short_circuit_lingers_example :
    (r' : Recorder) × (then_run
        (set_up
          ((λ ctx w. ends (returns (ctx, invoker_drop)) w) ∷ recorder_middleware sampled ∷ [])
          5
          (new_recorder 1, 0))
        (λ (ctx, invokers) w. chain invokers ctx panicking w)
      ≡ ends (returns none) (r', 0))
    × ((observe r' (starts (30 ∷ []) ∷ finishes 2 ∷ [])).data_map ≡ (1, 4 ∷ []) ∷ [])
    × (check_clean frames_of (observe r' (starts (30 ∷ []) ∷ finishes 2 ∷ [])) ≢ [])
short_circuit_lingers_example =
    short_circuit_lingers frames_of sampled panicking 5 (new_recorder 1) 0
      (starts (30 ∷ []) ∷ finishes 2 ∷ []) tt tt (omega arith) refl
