-- ===== src/Invocation/Examples.antt =====
-- Invocations of stopper.go over a world that counts the running tasks and logs what happens.
use go_stopper.Prelude.{ℕ, ◌+◌, ◌-◌, ◌≡◌, refl, true, false, List, [], ◌∷◌, Option, none, some}
use go_stopper.Errors.{named, user_error, stopped, Error, panic_text, recovered, joined, nil, cons}
use go_stopper.Safe.{Outcome, returns, panics, other_value, call_e}
use go_stopper.Invocation.{
  ends, Code, Func, Middleware, invoker_call, chain, set_up, decorate, Hooks, call, go,
}
use go_stopper.Prelude.Int.{pos, ◌+ℤ◌}
use go_stopper.State.{State, Callback, user, cancel_with, new}
use go_stopper.State.Trace.{History, applies, defers, stops, exec, run}
use go_stopper.State.Invariant.{IsWellFormed, new-IsWellFormed, exec-IsWellFormed}
use go_stopper.Invocation.Live.{Live, live_hooks}
use go_stopper.Invocation.Live.Drain.{ending, IsReleased, call_drains}
use go_stopper.Invocation.Chain.{call_result, setup_panic_leaks}

pub record World : Type 0 where
  running : ℕ
  events : List ℕ

abbrev idle : World
idle = record { running = 0; events = [] }

abbrev log : ℕ → World → World
log n w = record w { events = n ∷ w.events }

-- 1 stores an outcome, 2 finishes a task, 3 calls the handler.
abbrev hooks : Hooks World ℕ
hooks = record {
  apply = λ w. (record w { running = w.running + 1 }, true);
  release = λ w. record w { running = w.running - 1 };
  store = λ o w. log 1 w;
  finish = λ w. log 2 w;
  handler = λ ctx e w. ends (returns tt) (log 3 w);
}

abbrev fails : Func World ℕ
fails ctx w = ends (returns (some (user_error ctx))) (log 9 w)

abbrev bursts : Func World ℕ
bursts ctx w = ends (panics (other_value 4)) (log 9 w)

-- Raises the context and runs the task.
abbrev raising : Middleware World ℕ
raising ctx w = ends (returns (ctx + 1, invoker_call)) (log 7 w)

abbrev broken : Middleware World ℕ
broken ctx w = ends (panics (other_value 5)) w

call_runs :
    call hooks (b'a' ∷ []) (raising ∷ raising ∷ []) 0 bursts idle
    ≡ ends
        (returns (some (named (b'a' ∷ []) (recovered (joined (cons (panic_text 4) nil))))))
        (record { running = 0; events = 2 ∷ 1 ∷ 9 ∷ 7 ∷ 7 ∷ [] })
unfolding call
call_runs = refl

call_result_example :
    call hooks (b'a' ∷ []) (raising ∷ []) 0 fails idle
    ≡ ends
        (returns (some (named (b'a' ∷ []) (user_error 1))))
        (record { running = 0; events = 2 ∷ 1 ∷ 9 ∷ 7 ∷ [] })
unfolding set_up chain decorate call_e
call_result_example =
    call_result hooks (b'a' ∷ []) (raising ∷ []) 0 1 (invoker_call ∷ []) fails idle
      (record { running = 1; events = [] }) (record { running = 1; events = 7 ∷ [] })
      (record { running = 1; events = 9 ∷ 7 ∷ [] }) (returns (some (user_error 1))) refl refl refl

setup_panic_leaks_example :
    (call hooks [] (broken ∷ []) 0 fails idle
      ≡ ends (panics (other_value 5)) (record { running = 0; events = [] }))
    × (go hooks [] (broken ∷ []) 0 fails idle
        ≡ ends (panics (other_value 5)) (record { running = 1; events = [] }))
unfolding set_up
setup_panic_leaks_example =
    setup_panic_leaks hooks [] (broken ∷ []) 0 fails idle (record { running = 1; events = [] })
      (record { running = 1; events = [] }) (other_value 5) refl refl

-- A task that registers the function 5, stops its context with a grace period of 30, and fails.
abbrev fresh : Live
fresh = record { state = new 7 false; called = []; outcomes = []; finished = 0 }

abbrev stopping_ops : History
stopping_ops = (pos 0, defers 5) ∷ (pos 0, stops (pos 30)) ∷ []

abbrev stops_context : Func Live ℕ
stops_context ctx w =
    ends (returns (some (user_error ctx))) (record w { state = run w.state stopping_ops })

abbrev succeed : Callback → Outcome (Option Error)
succeed fn = returns none

abbrev silent : ℕ → Error → Code Live (Unit {0})
silent ctx e w = ends (returns tt) w

-- The state at the end of the task.
abbrev at_end : State
at_end = run (new 7 false) ((pos 0, applies (pos 1)) ∷ stopping_ops)

at_end-IsWellFormed : IsWellFormed at_end
unfolding run
at_end-IsWellFormed =
    let started =
      exec-IsWellFormed (pos 0) (applies (pos 1)) (new 7 false) tt (new-IsWellFormed 7 false) in
    let deferred = exec-IsWellFormed (pos 0) (defers 5) _ tt started in
    exec-IsWellFormed (pos 0) (stops (pos 30)) _ tt deferred

call_drains_example :
    (w : Live) × (call (live_hooks (pos 0) succeed silent) [] [] 4 stops_context fresh
      ≡ ends (returns (some (user_error 4))) w)
    × IsReleased succeed 7 at_end [] w
    × (w.outcomes ≡ some (user_error 4) ∷ [])
    × (w.finished ≡ 1)
unfolding set_up chain decorate call_e run exec new ◌+ℤ◌
call_drains_example =
    call_drains (pos 0) succeed silent [] [] 4 4 [] stops_context fresh
      (record fresh { state = record fresh.state { count = pos 1 } })
      (record fresh { state = at_end }) 0 7 (returns (some (user_error 4))) refl refl refl refl
      at_end-IsWellFormed refl refl refl

call_drains_order : ending 7 at_end ≡ user 5 ∷ cancel_with 7 stopped ∷ []
unfolding run exec new ◌+ℤ◌
call_drains_order = refl
