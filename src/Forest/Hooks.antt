-- ===== src/Forest/Hooks.antt =====
-- The stop hooks of internal/state/state.go: a critical section keeps them, or hands them out.
use go_stopper.Prelude.{
  ℕ, ◌+◌, ◌≤◌, ◌<◌, ◌≡◌, ◌≢◌, true, List, [], ◌∷◌, arith, ◌==◌, ==_iff, count_if,
}
use go_stopper.Prelude.Int.{ℤ}
use go_stopper.Prelude.Moves.{sum_of}
use go_stopper.State.{State, Callback, Hook, Verdict, result, run_hooks, put_hook, delete_hook}
use go_stopper.State.Trace.{Op, applies, stops, adds_hook, cancels_hook, exec}
use go_stopper.Forest.{Request, defer, stop_within, stop_idle, add_error, expire, op_of, hook_for}

abbrev pub hooks_of : ℕ → List Hook → ℕ
hooks_of c hs = count_if (λ (h : Hook). h.child == c) hs

-- How often a callback stops a child.
abbrev pub stops_child : ℕ → Callback → ℕ
stops_child c (run_hooks hs) = hooks_of c hs
stops_child c _ = 0

abbrev pub stops_in : ℕ → List Callback → ℕ
stops_in c cbs = sum_of (stops_child c) cbs

put_hook_keeps : (c : ℕ) (h : Hook) (hs : List Hook) → hooks_of c hs ≤ hooks_of c (put_hook h hs)
put_hook_keeps c h [] = omega arith
put_hook_keeps c h (k ∷ hs) =
    ground
      (arith, put_hook_keeps c h hs, ==_iff k.child h.child, ==_iff k.child c, ==_iff h.child c)

put_hook_adds : (h : Hook) (hs : List Hook) → 0 < hooks_of h.child (put_hook h hs)
put_hook_adds h [] = ground (arith, ==_iff h.child h.child)
put_hook_adds h (k ∷ hs) =
    ground (arith, put_hook_adds h hs, ==_iff k.child h.child, ==_iff h.child h.child)

delete_hook_keeps :
    (c d : ℕ) (hs : List Hook) → c ≢ d → hooks_of c hs ≤ hooks_of c (delete_hook d hs)
delete_hook_keeps c d [] e = omega arith
delete_hook_keeps c d (k ∷ hs) e =
    ground (arith, delete_hook_keeps c d hs e, ==_iff k.child c, ==_iff k.child d)

abbrev pub KeepsHooks : Op → Type 0
KeepsHooks op =
    (now : ℤ) (s : State) (c : ℕ)
    → hooks_of c s.stop_hooks
      ≤ hooks_of c (exec now op s).after.stop_hooks + stops_in c (exec now op s).deferred

pub request-KeepsHooks : (r : Request) → KeepsHooks (op_of r)
unfolding exec
request-KeepsHooks (defer fn) now s c = ground arith
request-KeepsHooks (stop_within g) now s c = ground arith
request-KeepsHooks (stop_idle g) now s c = ground arith
request-KeepsHooks (add_error es) now s c = ground arith
request-KeepsHooks expire now s c = ground arith

pub stops-KeepsHooks : (g : ℤ) → KeepsHooks (stops g)
unfolding exec
stops-KeepsHooks g now s c = ground arith

-- What the goroutine still calls of the callbacks of a section of Apply.
abbrev pub if_accepted : Verdict → ℕ → ℕ
if_accepted (result true) k = k
if_accepted _ k = 0

-- A section of Apply that does not accept leaves the hooks where they are.
pub applies_hooks :
    (d now : ℤ) (s : State) (c : ℕ)
    → hooks_of c s.stop_hooks
      ≤ hooks_of c (exec now (applies d) s).after.stop_hooks
        + if_accepted
            (exec now (applies d) s).verdict
            (stops_in c (exec now (applies d) s).deferred)
unfolding exec
applies_hooks d now s c = ground arith

pub adds_hook-KeepsHooks : (h : Hook) → KeepsHooks (adds_hook h)
unfolding exec
adds_hook-KeepsHooks h now s c = ground (arith, put_hook_keeps c h s.stop_hooks)

pub exec_adds_hook :
    (now : ℤ) (s : State) (c : ℕ)
    → 0
      < hooks_of c (exec now (adds_hook (hook_for c)) s).after.stop_hooks
        + stops_in c (exec now (adds_hook (hook_for c)) s).deferred
unfolding exec
exec_adds_hook now s c = ground (arith, put_hook_adds (hook_for c) s.stop_hooks, ==_iff c c)

pub exec_cancels_hook :
    (now : ℤ) (s : State) (c d : ℕ)
    → c ≢ d
    → hooks_of c s.stop_hooks ≤ hooks_of c (exec now (cancels_hook d) s).after.stop_hooks
unfolding exec
exec_cancels_hook now s c d e = ground (arith, delete_hook_keeps c d s.stop_hooks e)

pub exec_stops : (now g : ℤ) (s : State) → (exec now (stops g) s).after.stopping ≡ true
unfolding exec
exec_stops now g s = ground arith
