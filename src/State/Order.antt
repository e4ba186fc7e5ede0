-- ===== src/State/Order.antt =====
-- The order in which the hard stop of internal/state/state.go runs the callbacks, and its cause.
use mathlib.Core.List.{reverse-cons}
use go_stopper.Prelude.{
  ℕ, ◌≡◌, refl, ◌∙◌, ap, Bool, true, false, List, [], ◌∷◌, ◌++◌, reverse, some, arith,
  if◌then◌else◌, is_some, append-nil, append_assoc, Bool-cases, inl, inr,
}
use go_stopper.Prelude.Int.{ℤ, pos, eqb_ℤ}
use go_stopper.Errors.{Sentinel, stopped, grace_period_expired}
use go_stopper.State.{State, Callback, user, cancel_with, run_hooks, new}
use go_stopper.State.Trace.{
  Op, applies, defers, stops, stops_on_idle, adds_errors, adds_hook, cancels_hook, expires, exec,
  History, IsPossible, run,
}
use go_stopper.State.Invariant.{
  IsWellFormed, Untimed, Permitted, new-IsWellFormed, exec-IsWellFormed, Fires-Permitted,
  arm-Untimed,
}

abbrev pub registered_by : Op → List Callback
registered_by (defers fn) = user fn ∷ []
registered_by _ = []

-- The functions that a history registers, in the order of the calls.
abbrev pub registered : History → List Callback
registered [] = []
registered ((now, op) ∷ ops) = registered_by op ++ registered ops

-- The callbacks of softStopLocked behind the one that runs the stop hooks.
abbrev pub unhooked : List Callback → List Callback
unhooked [] = []
unhooked (run_hooks hs ∷ cbs) = cbs
unhooked (cb ∷ cbs) = cb ∷ cbs

-- Why a hard stop cancels: nothing is running any more, or the grace period has expired.
abbrev pub cause_at : ℤ → Sentinel
cause_at count = if eqb_ℤ count (pos 0) then stopped else grace_period_expired

exec_live :
    (now : ℤ) (op : Op) (s : State)
    → IsWellFormed s
    → is_some (exec now op s).after.cancel ≡ true
    → ((exec now op s).after.deferred ≡ s.deferred ++ registered_by op)
      × ((exec now op s).after.cancel ≡ s.cancel)
unfolding exec
exec_live now (applies delta) s v h = ground (arith, append-nil s.deferred)
exec_live now (defers fn) s v h = ground arith
exec_live now (stops g) s v h = ground (arith, append-nil s.deferred)
exec_live now (stops_on_idle g) s v h = ground (arith, append-nil s.deferred)
exec_live now (adds_errors es) s v h = ground (arith, append-nil s.deferred)
exec_live now (adds_hook k) s v h = ground (arith, append-nil s.deferred)
exec_live now (cancels_hook c) s v h = ground (arith, append-nil s.deferred)
exec_live now expires s v h = ground (arith, append-nil s.deferred)

exec_dead :
    (now : ℤ) (op : Op) (s : State)
    → is_some s.cancel ≡ false
    → is_some (exec now op s).after.cancel ≡ false
unfolding exec
exec_dead now (applies delta) s h = ground arith
exec_dead now (defers fn) s h = ground arith
exec_dead now (stops g) s h = ground arith
exec_dead now (stops_on_idle g) s h = ground arith
exec_dead now (adds_errors es) s h = ground arith
exec_dead now (adds_hook k) s h = ground arith
exec_dead now (cancels_hook c) s h = ground arith
exec_dead now expires s h = ground arith

run_dead :
    (s : State) (ops : History) → is_some s.cancel ≡ false → is_some (run s ops).cancel ≡ false
unfolding run
run_dead s [] h = h
run_dead s ((now, op) ∷ ops) h = run_dead (exec now op s).after ops (exec_dead now op s h)

run_live :
    (s : State) (timers : List ℤ) (ops : History)
    → IsWellFormed s
    → Untimed s timers
    → IsPossible s timers ops
    → is_some (run s ops).cancel ≡ true
    → ((run s ops).deferred ≡ s.deferred ++ registered ops) × ((run s ops).cancel ≡ s.cancel)
unfolding run
run_live s timers [] v u p h = ground (arith, append-nil s.deferred)
run_live s timers ((now, op) ∷ ops) v u (f, p) h =
    elim (Bool-cases (is_some (exec now op s).after.cancel)) [
      | inl live ↦
          let v' = exec-IsWellFormed now op s (Fires-Permitted now op s timers u f) v in
          let (d, c) = exec_live now op s v live in
          let (d', c') =
            run_live (exec now op s).after _ ops v' (arm-Untimed now op s timers u v') p h in
          (
            d'
                ∙ ap (λ l. l ++ registered ops) d
                ∙ append_assoc s.deferred (registered_by op) (registered ops),
            c' ∙ c,
          )
      | inr dead ↦ cc (run_dead (exec now op s).after ops dead)
    ]

exec_hard_stop :
    (now : ℤ) (op : Op) (s : State) (k : ℕ)
    → IsWellFormed s
    → Permitted op s
    → s.cancel ≡ some k
    → is_some (exec now op s).after.cancel ≡ false
    → unhooked (exec now op s).deferred
      ≡ cancel_with k (cause_at (exec now op s).after.count) ∷ s.deferred
unfolding exec
exec_hard_stop now (applies delta) s k v p c h = ground arith
exec_hard_stop now (defers fn) s k v p c h = ground arith
exec_hard_stop now (stops g) s k v p c h = ground arith
exec_hard_stop now (stops_on_idle g) s k v p c h = ground arith
exec_hard_stop now (adds_errors es) s k v p c h = ground arith
exec_hard_stop now (adds_hook l) s k v p c h = ground arith
exec_hard_stop now (cancels_hook l) s k v p c h = ground arith
exec_hard_stop now expires s k v p c h = ground arith

IsPossible-last :
    (s : State) (timers : List ℤ) (ops : History) (now : ℤ) (op : Op)
    → IsWellFormed s
    → Untimed s timers
    → IsPossible s timers (ops ++ (now, op) ∷ [])
    → IsPossible s timers ops × Permitted op (run s ops) × IsWellFormed (run s ops)
unfolding run
IsPossible-last s timers [] now op v u (f, p) = (tt, Fires-Permitted now op s timers u f, v)
IsPossible-last s timers ((t, o) ∷ ops) now op v u (f, p) =
    let v' = exec-IsWellFormed t o s (Fires-Permitted t o s timers u f) v in
    let (p', r, w) =
      IsPossible-last (exec t o s).after _ ops now op v' (arm-Untimed t o s timers u v') p in
    ((f, p'), r, w)

new-cancel : (k : ℕ) (b : Bool) → (new k b).cancel ≡ some k
unfolding new
new-cancel k b = refl

new-deferred : (k : ℕ) (b : Bool) (l : List Callback) → (new k b).deferred ++ l ≡ l
unfolding new
new-deferred k b l = refl

-- In any history that can happen to a new state, up to and with the operation that hard-stops it:
-- behind the hook callback, if any, the operation hands callDeferred the cancel function and then
-- every registered function in the order of registration. So callDeferred, which goes from the
-- last to the first, runs the functions last in first out and the cancel function behind them.
-- The cause is ErrStopped if no task is left and ErrGracePeriodExpired otherwise.
pub hard_stop_order :
    (k : ℕ) (b : Bool) (ops : History) (now : ℤ) (op : Op)
    → IsPossible (new k b) [] (ops ++ (now, op) ∷ [])
    → is_some (run (new k b) ops).cancel ≡ true
    → is_some (exec now op (run (new k b) ops)).after.cancel ≡ false
    → reverse (unhooked (exec now op (run (new k b) ops)).deferred)
      ≡ reverse (registered ops)
        ++ cancel_with k (cause_at (exec now op (run (new k b) ops)).after.count) ∷ []
hard_stop_order k b ops now op p live dead =
    let v = new-IsWellFormed k b in
    let (q, r, w) = IsPossible-last (new k b) [] ops now op v (λ _. refl) p in
    let (d, c) = run_live (new k b) [] ops v (λ _. refl) q live in
    let stop = cancel_with k (cause_at (exec now op (run (new k b) ops)).after.count) in
    let in_order = d ∙ new-deferred k b (registered ops) in
    ap reverse (exec_hard_stop now op (run (new k b) ops) k w r (c ∙ new-cancel k b) dead)
    ∙ reverse-cons stop (run (new k b) ops).deferred
    ∙ ap (λ l. reverse l ++ stop ∷ []) in_order
