-- ===== src/State/Trace.antt =====
-- Histories of a State: every critical section of internal/state/state.go is one operation, and
-- the mutex puts the critical sections of all goroutines into one order.
use go_stopper.Prelude.{
  ℕ, ◌≡◌, Bool, true, false, List, [], ◌∷◌, ◌++◌, Option, none, some, if◌then◌else◌, reverse,
}
use go_stopper.Prelude.Int.{ℤ, leb_ℤ}
use go_stopper.Errors.{Error}
use go_stopper.State.{
  State, Callback, Hook, Section, result, section_of, user, soft_stop_locked, settle, apply_locked,
  after_count, add_deferred, add_errors, add_stop_hook, cancel_stop_hook, stop_on_idle,
  grace_timer_fires,
}

-- `applies` is the locked part of Apply. `expires` is the function of a grace timer, which may
-- also run late, after timer.Stop.
pub data Op : Type 0 where
  applies : ℤ → Op
  defers : ℕ → Op
  stops : ℤ → Op
  stops_on_idle : ℤ → Op
  adds_errors : List (Option Error) → Op
  adds_hook : Hook → Op
  cancels_hook : ℕ → Op
  expires : Op

-- One operation at a time `now`. A function that AddDeferred does not keep is run at once.
unfoldable pub exec : ℤ → Op → State → Section
unfolding soft_stop_locked settle apply_locked after_count add_deferred add_errors add_stop_hook
    cancel_stop_hook stop_on_idle grace_timer_fires
exec now (applies delta) s = apply_locked now delta s
exec now (defers fn) s =
    let (s', kept) = add_deferred fn s in
    record { after = s'; deferred = if kept then [] else user fn ∷ []; verdict = result kept }
exec now (stops grace_period) s = section_of (soft_stop_locked now grace_period s) (result true)
exec now (stops_on_idle grace_period) s = section_of (stop_on_idle now grace_period s) (result true)
exec now (adds_errors errs) s = section_of (add_errors errs s, []) (result true)
exec now (adds_hook h) s = section_of (add_stop_hook h s) (result true)
exec now (cancels_hook c) s = section_of (cancel_stop_hook c s, []) (result true)
exec now expires s = section_of (grace_timer_fires s) (result true)

abbrev pub History : Type 0
History = List (ℤ × Op)

-- The state after a history.
unfoldable pub run : State → History → State
run s [] = s
run s ((now, op) ∷ ops) = run (exec now op s).after ops

-- The callbacks that a history runs: those of each operation in reverse order, as callDeferred
-- runs them.
unfoldable pub called : State → History → List Callback
called s [] = []
called s ((now, op) ∷ ops) = reverse (exec now op s).deferred ++ called (exec now op s).after ops

-- The timers that time.AfterFunc has started so far, by the times at which they fire.
abbrev pub arm : State → List ℤ → List ℤ
arm s timers = elim s.grace_timer [ none ↦ timers | some d ↦ d ∷ timers ]

abbrev pub due : ℤ → List ℤ → Bool
due now [] = false
due now (d ∷ ds) = if leb_ℤ d now then true else due now ds

-- The function of a timer runs only if a timer was started and its time has come.
abbrev pub Fires : ℤ → Op → List ℤ → Type 0
Fires now expires timers = due now timers ≡ true
Fires now _ timers = Unit

-- A history that can happen, from a state for which the given timers were started.
abbrev pub IsPossible : State → List ℤ → History → Type 0
IsPossible s timers [] = Unit
IsPossible s timers ((now, op) ∷ ops) =
    Fires now op timers × IsPossible (exec now op s).after (arm (exec now op s).after timers) ops
