-- ===== src/State/Invariant.antt =====
-- The invariant of a State, which every critical section of internal/state/state.go keeps.
use go_stopper.Prelude.{ℕ, ◌≡◌, Bool, true, false, List, [], ◌∷◌, arith, if◌then◌else◌, is_some}
use go_stopper.Prelude.Int.{ℤ, pos, eqb_ℤ}
use go_stopper.State.{State, new}
use go_stopper.State.Trace.{
  Op, applies, defers, stops, stops_on_idle, adds_errors, adds_hook, cancels_hook, expires, exec,
  Fires, IsPossible, arm, History, run,
}

pub record IsWellFormed (s : State) : Type 0 where
  pub closed_once : s.closes ≡ (if s.stopping then 1 else 0)
  pub timer_agrees : s.grace_timer ≡ s.stop_at
  pub running_is_live : s.stopping ≡ false → is_some s.cancel ≡ true
  pub running_untimed : s.stopping ≡ false → is_some s.grace_timer ≡ false
  pub hooks_taken : s.stopping ≡ true → s.stop_hooks ≡ []
  pub draining_busy : s.stopping ≡ true → is_some s.cancel ≡ true → eqb_ℤ s.count (pos 0) ≡ false
  pub draining_timed : s.stopping ≡ true → is_some s.cancel ≡ true → is_some s.grace_timer ≡ true
  pub idle_stops : is_some s.stop_on_idle ≡ true → eqb_ℤ s.count (pos 0) ≡ true → s.stopping ≡ true

pub new-IsWellFormed : (k : ℕ) (p : Bool) → IsWellFormed (new k p)
unfolding new
new-IsWellFormed k p = ground arith

-- Before a stop no timer was started.
abbrev pub Untimed : State → List ℤ → Type 0
Untimed s timers = s.stopping ≡ false → timers ≡ []

abbrev pub Permitted : Op → State → Type 0
Permitted expires s = s.stopping ≡ true
Permitted _ s = Unit

pub exec-IsWellFormed :
    (now : ℤ) (op : Op) (s : State)
    → Permitted op s
    → IsWellFormed s
    → IsWellFormed (exec now op s).after
unfolding exec
exec-IsWellFormed now (applies delta) s p v = ground arith
exec-IsWellFormed now (defers fn) s p v = ground arith
exec-IsWellFormed now (stops g) s p v = ground arith
exec-IsWellFormed now (stops_on_idle g) s p v = ground arith
exec-IsWellFormed now (adds_errors es) s p v = ground arith
exec-IsWellFormed now (adds_hook h) s p v = ground arith
exec-IsWellFormed now (cancels_hook c) s p v = ground arith
exec-IsWellFormed now expires s p v = ground arith

pub Fires-Permitted :
    (now : ℤ) (op : Op) (s : State) (timers : List ℤ)
    → Untimed s timers
    → Fires now op timers
    → Permitted op s
Fires-Permitted now (applies delta) s timers u f = tt
Fires-Permitted now (defers fn) s timers u f = tt
Fires-Permitted now (stops g) s timers u f = tt
Fires-Permitted now (stops_on_idle g) s timers u f = tt
Fires-Permitted now (adds_errors es) s timers u f = tt
Fires-Permitted now (adds_hook h) s timers u f = tt
Fires-Permitted now (cancels_hook c) s timers u f = tt
Fires-Permitted now expires s [] u f = cc
Fires-Permitted now expires s (d ∷ ds) u f = ground arith

-- A stop is never undone.
pub exec_stays_stopping :
    (now : ℤ) (op : Op) (s : State) → s.stopping ≡ true → (exec now op s).after.stopping ≡ true
unfolding exec
exec_stays_stopping now (applies delta) s h = ground arith
exec_stays_stopping now (defers fn) s h = ground arith
exec_stays_stopping now (stops g) s h = ground arith
exec_stays_stopping now (stops_on_idle g) s h = ground arith
exec_stays_stopping now (adds_errors es) s h = ground arith
exec_stays_stopping now (adds_hook k) s h = ground arith
exec_stays_stopping now (cancels_hook c) s h = ground arith
exec_stays_stopping now expires s h = ground arith

pub arm-Untimed :
    (now : ℤ) (op : Op) (s : State) (timers : List ℤ)
    → Untimed s timers
    → IsWellFormed (exec now op s).after
    → Untimed (exec now op s).after (arm (exec now op s).after timers)
arm-Untimed now op s timers u v h =
    ground (arith, exec_stays_stopping now op s, v.running_untimed h)

-- Whatever can happen to a new state, the channel is closed exactly once it is stopping, a state
-- that is stopping and not yet canceled has tasks and a pending grace timer, and a state that is
-- to stop on idle and has no tasks is stopping.
pub run-IsWellFormed :
    (s : State) (timers : List ℤ) (ops : History)
    → IsWellFormed s
    → Untimed s timers
    → IsPossible s timers ops
    → IsWellFormed (run s ops)
unfolding run
run-IsWellFormed s timers [] v u p = v
run-IsWellFormed s timers ((now, op) ∷ ops) v u (f, p) =
    let v' = exec-IsWellFormed now op s (Fires-Permitted now op s timers u f) v in
    run-IsWellFormed (exec now op s).after _ ops v' (arm-Untimed now op s timers u v') p
