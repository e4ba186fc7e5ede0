-- ===== src/State/Conservation.antt =====
-- Every callback that a State is given runs at most once (internal/state/state.go).
use go_stopper.Prelude.{
  ℕ, ◌+◌, ◌≡◌, Bool, true, false, List, [], ◌∷◌, ◌++◌, some, Option-cases, inl, inr, reverse, arith,
  ◌==◌, if◌then◌else◌, is_some, ◌≤◌, ◌<◌, refl, ==_iff, count_if, count_if-append, count_if-reverse,
}
use go_stopper.Prelude.Int.{ℤ, pos, ◌+ℤ◌, eqb_ℤ}
use go_stopper.State.{
  State, Callback, user, cancel_with, new, settle, close_stopping, take_hooks, soft_stop_locked,
  after_count, stop_on_idle, apply_locked, add_deferred,
}
use go_stopper.State.Trace.{
  Op, applies, defers, stops, stops_on_idle, adds_errors, adds_hook, cancels_hook, expires, exec,
  History, run, called,
}

abbrev pub is_user : ℕ → Callback → Bool
is_user fn (user g) = g == fn
is_user fn _ = false

abbrev pub is_cancel : Callback → Bool
is_cancel (cancel_with k err) = true
is_cancel _ = false

abbrev registers : ℕ → Op → ℕ
registers fn (defers g) = if g == fn then 1 else 0
registers fn _ = 0

-- How often a history registers a function.
abbrev pub registrations : ℕ → History → ℕ
registrations fn [] = 0
registrations fn ((now, op) ∷ ops) = registers fn op + registrations fn ops

exec-users :
    (fn : ℕ) (now : ℤ) (op : Op) (s : State)
    → count_if (is_user fn) (exec now op s).deferred
        + count_if (is_user fn) (exec now op s).after.deferred
      ≡ count_if (is_user fn) s.deferred + registers fn op
unfolding exec
exec-users fn now (applies delta) s = ground arith
exec-users fn now (defers g) s =
    ground (arith, count_if-append (is_user fn) s.deferred (user g ∷ []))
exec-users fn now (stops g) s = ground arith
exec-users fn now (stops_on_idle g) s = ground arith
exec-users fn now (adds_errors es) s = ground arith
exec-users fn now (adds_hook h) s = ground arith
exec-users fn now (cancels_hook c) s = ground arith
exec-users fn now expires s = ground arith

-- Each registration of a function is one run of it or one entry of the list of deferred functions:
-- over any history none is lost and none runs twice.
pub deferred_conserved :
    (fn : ℕ) (s : State) (ops : History)
    → count_if (is_user fn) (called s ops) + count_if (is_user fn) (run s ops).deferred
      ≡ count_if (is_user fn) s.deferred + registrations fn ops
unfolding run called
deferred_conserved fn s [] = omega arith
deferred_conserved fn s ((now, op) ∷ ops) = omega (
  arith,
  exec-users fn now op s,
  deferred_conserved fn (exec now op s).after ops,
  count_if-reverse (is_user fn) (exec now op s).deferred,
  count_if-append (is_user fn) (reverse (exec now op s).deferred)
      (called (exec now op s).after ops),
)

abbrev live : State → ℕ
live s = if is_some s.cancel then 1 else 0

-- What a step does with the cancel functions, from a state to the state and callbacks it gives.
abbrev KeepsCancels : State → State × List Callback → Type 0
KeepsCancels s (t, cbs) =
    count_if is_cancel cbs + (live t + count_if is_cancel t.deferred)
    ≡ live s + count_if is_cancel s.deferred

settle-cancels : (now g : ℤ) (s : State) → KeepsCancels s (settle now g s)
unfolding settle
settle-cancels now g s = ground arith

soft_stop_locked-cancels : (now g : ℤ) (s : State) → KeepsCancels s (soft_stop_locked now g s)
unfolding soft_stop_locked
soft_stop_locked-cancels now g s = ground (
  arith,
  settle-cancels now g (take_hooks (close_stopping s)).0,
  count_if-append is_cancel (take_hooks (close_stopping s)).1
      (settle now g (take_hooks (close_stopping s)).0).1,
)

after_count-cancels : (now : ℤ) (s : State) → KeepsCancels s (after_count now s)
unfolding after_count
after_count-cancels now s = elim (Option-cases s.stop_on_idle) [
  | inl e ↦ ground arith
  | inr (g, e) ↦ ground (arith, soft_stop_locked-cancels now g s)
]

stop_on_idle-cancels : (now g : ℤ) (s : State) → KeepsCancels s (stop_on_idle now g s)
unfolding stop_on_idle
stop_on_idle-cancels now g s =
    ground (arith, soft_stop_locked-cancels now g (record s { stop_on_idle = some g }))

apply_locked-cancels :
    (now delta : ℤ) (s : State)
    → KeepsCancels s ((apply_locked now delta s).after, (apply_locked now delta s).deferred)
unfolding apply_locked
apply_locked-cancels now delta s =
    ground (arith, after_count-cancels now (record s { count = s.count +ℤ delta }))

exec-cancels :
    (now : ℤ) (op : Op) (s : State)
    → count_if is_cancel (exec now op s).deferred
        + (live (exec now op s).after + count_if is_cancel (exec now op s).after.deferred)
      ≡ live s + count_if is_cancel s.deferred
unfolding exec
exec-cancels now (applies delta) s = apply_locked-cancels now delta s
exec-cancels now (defers g) s = ground (arith, count_if-append is_cancel s.deferred (user g ∷ []))
exec-cancels now (stops g) s = soft_stop_locked-cancels now g s
exec-cancels now (stops_on_idle g) s = stop_on_idle-cancels now g s
exec-cancels now (adds_errors es) s = ground arith
exec-cancels now (adds_hook h) s = ground arith
exec-cancels now (cancels_hook c) s = ground arith
exec-cancels now expires s = ground arith

run-cancels :
    (s : State) (ops : History)
    → count_if is_cancel (called s ops)
        + (live (run s ops) + count_if is_cancel (run s ops).deferred)
      ≡ live s + count_if is_cancel s.deferred
unfolding run called
run-cancels s [] = omega arith
run-cancels s ((now, op) ∷ ops) = omega (
  arith,
  exec-cancels now op s,
  run-cancels (exec now op s).after ops,
  count_if-reverse is_cancel (exec now op s).deferred,
  count_if-append is_cancel (reverse (exec now op s).deferred) (called (exec now op s).after ops),
)

exec-no_stored_cancel :
    (now : ℤ) (op : Op) (s : State)
    → count_if is_cancel s.deferred ≡ 0
    → count_if is_cancel (exec now op s).after.deferred ≡ 0
unfolding exec
exec-no_stored_cancel now (applies delta) s h = ground arith
exec-no_stored_cancel now (defers g) s h =
    ground (arith, count_if-append is_cancel s.deferred (user g ∷ []))
exec-no_stored_cancel now (stops g) s h = ground arith
exec-no_stored_cancel now (stops_on_idle g) s h = ground arith
exec-no_stored_cancel now (adds_errors es) s h = ground arith
exec-no_stored_cancel now (adds_hook k) s h = ground arith
exec-no_stored_cancel now (cancels_hook c) s h = ground arith
exec-no_stored_cancel now expires s h = ground arith

run-no_stored_cancel :
    (s : State) (ops : History)
    → count_if is_cancel s.deferred ≡ 0
    → count_if is_cancel (run s ops).deferred ≡ 0
unfolding run
run-no_stored_cancel s [] h = h
run-no_stored_cancel s ((now, op) ∷ ops) h =
    run-no_stored_cancel (exec now op s).after ops (exec-no_stored_cancel now op s h)

-- Over any history of a new state the cancel function runs once if the state no longer holds it,
-- and not at all while the state holds it.
cancel_once :
    (k : ℕ) (p : Bool) (ops : History)
    → count_if is_cancel (called (new k p) ops)
      ≡ (if is_some (run (new k p) ops).cancel then 0 else 1)
unfolding new
cancel_once k p ops = ground (arith, run-cancels (new k p) ops, run-no_stored_cancel (new k p) ops)

-- Once the cancel function is gone, what is in the list stays there.
exec-keeps_stored :
    (fn : ℕ) (now : ℤ) (op : Op) (s : State)
    → is_some s.cancel ≡ false
    → (is_some (exec now op s).after.cancel ≡ false)
      × (count_if (is_user fn) s.deferred ≤ count_if (is_user fn) (exec now op s).after.deferred)
unfolding exec
exec-keeps_stored fn now (applies delta) s h = ground arith
exec-keeps_stored fn now (defers g) s h =
    ground (arith, count_if-append (is_user fn) s.deferred (user g ∷ []))
exec-keeps_stored fn now (stops g) s h = ground arith
exec-keeps_stored fn now (stops_on_idle g) s h = ground arith
exec-keeps_stored fn now (adds_errors es) s h = ground arith
exec-keeps_stored fn now (adds_hook k) s h = ground arith
exec-keeps_stored fn now (cancels_hook c) s h = ground arith
exec-keeps_stored fn now expires s h = ground arith

run-keeps_stored :
    (fn : ℕ) (s : State) (ops : History)
    → is_some s.cancel ≡ false
    → count_if (is_user fn) s.deferred ≤ count_if (is_user fn) (run s ops).deferred
unfolding run
run-keeps_stored fn s [] h = omega arith
run-keeps_stored fn s ((now, op) ∷ ops) h =
    let (h', le) = exec-keeps_stored fn now op s h in
    omega (arith, le, run-keeps_stored fn (exec now op s).after ops h')

add_deferred-kept :
    (fn : ℕ) (s : State)
    → eqb_ℤ s.count (pos 0) ≡ false
    → add_deferred fn s ≡ (record s { deferred = s.deferred ++ user fn ∷ [] }, true)
unfolding add_deferred
add_deferred-kept fn s h = ground arith

-- A function that is registered after the hard stop, while tasks are still running, is accepted for
-- later, but no later history that does not register it again ever runs it, not even when the tasks
-- have ended: it stays in the list.
pub deferred_stranded :
    (fn : ℕ) (s : State) (ops : History)
    → is_some s.cancel ≡ false
    → eqb_ℤ s.count (pos 0) ≡ false
    → registrations fn ops ≡ 0
    → ((add_deferred fn s).1 ≡ true)
      × (count_if (is_user fn) (called (add_deferred fn s).0 ops) ≡ 0)
      × (0 < count_if (is_user fn) (run (add_deferred fn s).0 ops).deferred)
deferred_stranded fn s ops dead busy once =
    let kept = record s { deferred = s.deferred ++ user fn ∷ [] } in
    let conserved = deferred_conserved fn kept ops in
    let stays = run-keeps_stored fn kept ops dead in
    let added = count_if-append (is_user fn) s.deferred (user fn ∷ []) in
    rw (add_deferred-kept fn s busy)
      (refl, omega (arith, conserved, stays, once), ground (arith, stays, added, ==_iff fn fn))
