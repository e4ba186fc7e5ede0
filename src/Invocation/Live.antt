-- ===== src/Invocation/Live.antt =====
-- Call and Go of stopper.go on the State of internal/state/state.go: a task holds its state's count
-- from Apply(1) to Apply(-1). The state is that of a root context, since Tree has the parents.
pub mod Drain
use go_stopper.Prelude.{
  ℕ, ◌+◌, Bool, true, false, List, [], ◌∷◌, ◌++◌, reverse, Option, if◌then◌else◌,
}
use go_stopper.Prelude.Int.{ℤ, pos, negsuc}
use go_stopper.Errors.{Error}
use go_stopper.Safe.{Outcome}
use go_stopper.State.{
  State, Callback, Section, Verdict, result, over_released, apply_refused, call_deferred,
}
use go_stopper.State.Trace.{applies, exec}
use go_stopper.Invocation.{Code, Hooks}

-- The state, the callbacks that callDeferred has called, the outcomes that are stored in the task's
-- TaskInfo, and how often its channel was closed.
pub record Live : Type 0 where
  pub state : State
  pub called : List Callback
  pub outcomes : List (Option Error)
  pub finished : ℕ

-- The result of Apply. The panic "over-released" is no result; a release after an accepted Apply
-- does not meet it.
abbrev pub is_accepted : Verdict → Bool
is_accepted (result b) = b
is_accepted over_released = false

-- The time goes by `now`, and `runs` says how each callback ends.
module _ (now : ℤ) (runs : Callback → Outcome (Option Error)) where
  -- The end of Apply: its deferred callbacks, which run in reverse order, and its result.
  unfoldable pub leave_section : Section → Live → Live × Bool
  unfolding call_deferred
  leave_section sec w = (
    record w {
      state = call_deferred runs sec.deferred sec.after;
      called = w.called ++ reverse sec.deferred;
    },
    is_accepted sec.verdict,
  )

  -- Apply.
  unfoldable pub apply_live : ℤ → Live → Live × Bool
  unfolding apply_refused exec leave_section
  apply_live delta w =
      if apply_refused delta w.state
      then (w, false)
      else leave_section (exec now (applies delta) w.state) w

  unfoldable pub live_hooks : {X : Type 0} → (X → Error → Code Live (Unit {0})) → Hooks Live X
  unfolding apply_live
  live_hooks handler = record {
    apply = apply_live (pos 1);
    release = λ w. (apply_live (negsuc 0) w).0;
    store = λ o w. record w { outcomes = w.outcomes ++ o ∷ [] };
    finish = λ w. record w { finished = w.finished + 1 };
    handler = handler;
  }
