-- ===== src/Forest/Ties.antt =====
-- What ties a child to its parent, from AddStopHook to the stop of the child (stopper.go,
-- internal/state/state.go).
use go_stopper.Prelude.{
  ℕ, ◌+◌, ◌<◌, ◌≡◌, ◌≢◌, refl, true, List, [], ◌∷◌, ◌++◌, map, reverse, Option, none, some, arith,
  ◌==◌, ==_iff, if◌then◌else◌,
}
use go_stopper.Prelude.Int.{ℤ}
use go_stopper.Prelude.Moves.{sum_of, sum_of-append, sum_of-reverse}
use go_stopper.State.{Callback, Hook, user, cancel_with, run_hooks, release_parent}
use go_stopper.State.Trace.{Op, applies, stops, adds_hook, cancels_hook, exec}
use go_stopper.State.Invariant.{exec_stays_stopping}
use go_stopper.Forest.{
  Node, Nodes, put, Action, stop, callback, hook, callbacks, lock, answer, call_back, hook_for,
}
use go_stopper.Forest.Later.{stopping_of}
use go_stopper.Forest.Hooks.{
  hooks_of, stops_child, stops_in, KeepsHooks, applies_hooks, exec_adds_hook, exec_cancels_hook,
  exec_stops,
}

-- An action that stops a child, or lets its parent know the hook that does.
abbrev pub stopper_of : ℕ → Action → ℕ
stopper_of c (stop i) = if i == c then 1 else 0
stopper_of c (callback i cb) = stops_child c cb
stopper_of c (hook p i) = if i == c then 1 else 0
stopper_of c _ = 0

abbrev pub stop_hooks_of : Option Node → List Hook
stop_hooks_of none = []
stop_hooks_of (some n) = n.state.stop_hooks

-- What keeps a child in touch with its parent: it stops, or its parent has its hook.
abbrev pub ties : Nodes → ℕ → ℕ → ℕ
ties ns p c = (if stopping_of (ns c) then 1 else 0) + hooks_of c (stop_hooks_of (ns p))

callbacks_stop :
    (c i : ℕ) (cbs : List Callback) → sum_of (stopper_of c) (map (callback i) cbs) ≡ stops_in c cbs
callbacks_stop c i [] = refl
callbacks_stop c i (cb ∷ cbs) = omega (arith, callbacks_stop c i cbs)

-- A section at a context keeps the ties of every child.
pub section_ties :
    (now : ℤ) (op : Op) (i : ℕ) (n : Node) (ns : Nodes) (p c : ℕ)
    → KeepsHooks op
    → ns i ≡ some n
    → 0 < ties ns p c
    → 0
      < ties (lock now op i n ns).0 p c + sum_of (stopper_of c) (callbacks i (exec now op n.state))
section_ties now op i n ns p c k h t = ground (
  arith,
  k now n.state c,
  callbacks_stop c i (reverse (exec now op n.state).deferred),
  sum_of-reverse (stops_child c) (exec now op n.state).deferred,
  exec_stays_stopping now op n.state,
  ==_iff i p,
  ==_iff i c,
)

pub stopping_ties :
    (now : ℤ) (op : Op) (i : ℕ) (n : Node) (ns : Nodes) (p c : ℕ)
    → ns i ≡ some n
    → stopping_of (ns c) ≡ true
    → 0 < ties (lock now op i n ns).0 p c
stopping_ties now op i n ns p c h t = ground (arith, exec_stays_stopping now op n.state, ==_iff i c)

pub apply_ties :
    (now d : ℤ) (i : ℕ) (n : Node) (ns : Nodes) (p c : ℕ) (x : Action) (xs : List Action)
    → ns i ≡ some n
    → 0 < ties ns p c
    → let sec = exec now (applies d) n.state in
      0
      < ties (lock now (applies d) i n ns).0 p c
        + sum_of (stopper_of c) (answer sec.verdict (callbacks i sec ++ x ∷ []) xs)
apply_ties now d i n ns p c x xs h t = ground (
  arith,
  applies_hooks d now n.state c,
  callbacks_stop c i (reverse (exec now (applies d) n.state).deferred),
  sum_of-reverse (stops_child c) (exec now (applies d) n.state).deferred,
  sum_of-append (stopper_of c) (callbacks i (exec now (applies d) n.state)) (x ∷ []),
  exec_stays_stopping now (applies d) n.state,
  ==_iff i p,
  ==_iff i c,
)

pub stop_child_ties :
    (now g : ℤ) (i : ℕ) (n : Node) (ns : Nodes) (p : ℕ)
    → ns i ≡ some n
    → 0 < ties (lock now (stops g) i n ns).0 p i
stop_child_ties now g i n ns p h = ground (arith, exec_stops now g n.state, ==_iff i i)

pub add_hook_ties :
    (now : ℤ) (p c : ℕ) (n : Node) (ns : Nodes)
    → ns p ≡ some n
    → 0
      < ties (lock now (adds_hook (hook_for c)) p n ns).0 p c
        + sum_of (stopper_of c) (callbacks p (exec now (adds_hook (hook_for c)) n.state))
add_hook_ties now p c n ns h = ground (
  arith,
  exec_adds_hook now n.state c,
  callbacks_stop c p (reverse (exec now (adds_hook (hook_for c)) n.state).deferred),
  sum_of-reverse (stops_child c) (exec now (adds_hook (hook_for c)) n.state).deferred,
  ==_iff p p,
)

pub drop_hook_ties :
    (now : ℤ) (i q : ℕ) (m : Node) (ns : Nodes) (p c : ℕ)
    → c ≢ i
    → ns q ≡ some m
    → 0 < ties ns p c
    → 0 < ties (lock now (cancels_hook i) q m ns).0 p c
drop_hook_ties now i q m ns p c e h t = ground (
  arith,
  exec_cancels_hook now m.state c i e,
  exec_stays_stopping now (cancels_hook i) m.state,
  ==_iff q p,
  ==_iff q c,
)

pub ties-put :
    (i : ℕ) (n n' : Node) (ns : Nodes) (p c : ℕ)
    → ns i ≡ some n
    → n'.state ≡ n.state
    → ties (put i n' ns) p c ≡ ties ns p c
ties-put i n n' ns p c h e = ground (arith, ==_iff i p, ==_iff i c)

stops_children :
    (c : ℕ) (hs : List Hook)
    → sum_of (stopper_of c) (map (λ (h : Hook). stop h.child) hs) ≡ hooks_of c hs
stops_children c [] = refl
stops_children c (h ∷ hs) = omega (arith, stops_children c hs)

pub call_back_stops :
    (c i : ℕ) (cb : Callback)
    → sum_of (stopper_of c) (call_back i cb) ≡ stopper_of c (callback i cb)
call_back_stops c i (user fn) = refl
call_back_stops c i (cancel_with k e) = omega arith
call_back_stops c i (run_hooks hs) = stops_children c hs
call_back_stops c i (release_parent d) = refl
