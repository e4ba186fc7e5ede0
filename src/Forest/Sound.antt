-- ===== src/Forest/Sound.antt =====
-- What holds of the states of a forest, and of the cancel functions that its goroutines are about
-- to call (stopper.go, internal/state/state.go).
pub mod Moves
use go_stopper.Prelude.{
  ℕ, zero, suc, ◌+◌, ◌≤◌, ◌<◌, ◌≡◌, refl, sym, ap, subst, ◌∙◌, Bool, true, false, ◌&&◌, List, [],
  ◌∷◌, ◌++◌, map, reverse, Option, none, some, arith, inl, inr, ◌⊎◌, ◌==◌, ==_iff, if◌then◌else◌,
  Bool-cases, Option-cases, count_if, count_if-reverse,
}
use go_stopper.Prelude.Int.{ℤ, pos, negsuc}
use go_stopper.Prelude.Moves.{Swap, sum_of, sum_of-append, sum_of-Swap, le-sum_of}
use go_stopper.State.{
  State, Callback, Hook, Section, Verdict, result, over_released, user, cancel_with, run_hooks,
  release_parent, new,
}
use go_stopper.State.Trace.{Op, applies, stops, adds_hook, cancels_hook, exec}
use go_stopper.State.Invariant.{IsWellFormed, Permitted, exec-IsWellFormed, new-IsWellFormed}
use go_stopper.State.Conservation.{is_cancel}
use go_stopper.Forest.{
  Node, Nodes, put, Request, defer, stop_within, stop_idle, add_error, expire, op_of, Action, asks,
  stop, rises, enters, works, leaves, callback, hook, store_hook, arm, disarm, unhook, cancel,
  callbacks, lock, rise, enter, leave, answer, call_back, hook_for, Act, ask, stop_child, check,
  begin_work, count_up, end_work, return_work, count_down, run_callback, add_hook, keep_hook,
  arm_after, disarm_after, drop_hook, skip_hook, cancel_context, Forest, fresh_node, set_up_node,
  IsDue, Step, acts, calls, requests, creates, derives, loses_context, after, Reach, start, next,
}
use go_stopper.Forest.Holders.{count_at, count_of}
use go_stopper.Forest.Later.{stopping_of, Later, Step-Later}
use go_stopper.Forest.Endings.{
  is_clean, exec_defers_users, exec_cancel_stops, exec_clean_drains, clean-le-cancel,
}

-- An action that a context comes to only when it is stopping.
abbrev pub ending : ℕ → Action → ℕ
ending j (asks i expire) = if i == j then 1 else 0
ending j (callback i cb) = if i == j then (if is_cancel cb then 1 else 0) else 0
ending j (unhook i) = if i == j then 1 else 0
ending j _ = 0

-- The call of a context's cancel function with ErrStopped.
abbrev pub clean : ℕ → Action → ℕ
clean j (callback i cb) = if i == j then (if is_clean cb then 1 else 0) else 0
clean j _ = 0

abbrev pub total : (Action → ℕ) → List (List Action) → ℕ
total w threads = sum_of (sum_of w) threads

pub record IsSoundState (s : State) : Type 0 where
  pub well_formed : IsWellFormed s
  pub users : count_if is_cancel s.deferred ≡ 0

abbrev pub AreSound : Nodes → Type 0
AreSound ns = (j : ℕ) (n : Node) → ns j ≡ some n → IsSoundState n.state

-- What stands at a place after a put: what was put, or what was there.
put_cases :
    (i : ℕ) (n : Node) (ns : Nodes) (j : ℕ) (m : Node)
    → put i n ns j ≡ some m
    → (n ≡ m) ⊎ (ns j ≡ some m)
put_cases i n ns j m h = elim (Bool-cases (i == j)) [
  | inl e ↦ inl (ground (arith, h))
  | inr e ↦ inr (ground (arith, h))
]

pub put-AreSound :
    (i : ℕ) (n : Node) (ns : Nodes) → AreSound ns → IsSoundState n.state → AreSound (put i n ns)
put-AreSound i n ns v s j m h = elim (put_cases i n ns j m h) [
  | inl e ↦ subst (λ (k : Node). IsSoundState k.state) e s
  | inr e ↦ v j m e
]

pub exec-IsSoundState :
    (now : ℤ) (op : Op) (s : State)
    → Permitted op s
    → IsSoundState s
    → IsSoundState (exec now op s).after
exec-IsSoundState now op s p v = record {
  well_formed = exec-IsWellFormed now op s p v.well_formed;
  users = exec_defers_users now op s v.users;
}

-- The callbacks of a section by what they are.
weight_of_callbacks :
    (test : Callback → Bool) (w : Action → ℕ) (i : ℕ) (cbs : List Callback)
    → ((cb : Callback) → w (callback i cb) ≡ (if test cb then 1 else 0))
    → sum_of w (map (callback i) cbs) ≡ count_if test cbs
weight_of_callbacks test w i [] h = refl
weight_of_callbacks test w i (cb ∷ cbs) h = omega (arith, h cb, weight_of_callbacks test w i cbs h)

weightless_callbacks :
    (w : Action → ℕ) (i : ℕ) (cbs : List Callback)
    → ((cb : Callback) → w (callback i cb) ≡ 0)
    → sum_of w (map (callback i) cbs) ≡ 0
weightless_callbacks w i [] h = refl
weightless_callbacks w i (cb ∷ cbs) h = omega (arith, h cb, weightless_callbacks w i cbs h)

-- What a section comes to: the node with its new state, and actions with no more weight than the
-- callbacks have.
module _ (now : ℤ) (op : Op) (i : ℕ) (n : Node) (ns : Nodes) (p : Permitted op n.state)
    (v : IsSoundState n.state) where
  pub section_endings :
      (j : ℕ)
      → 0 < sum_of (ending j) (callbacks i (exec now op n.state))
      → stopping_of ((lock now op i n ns).0 j) ≡ true
  section_endings j l = elim (Bool-cases (i == j)) [
    | inl e ↦ rw e (
        exec_cancel_stops now op n.state p v.users (
          omega (
            arith,
            l,
            weight_of_callbacks is_cancel (ending j) i (reverse (exec now op n.state).deferred)
                (λ cb. rw e refl),
            count_if-reverse is_cancel (exec now op n.state).deferred,
          )))
    | inr e ↦ absurd (
        omega (
          arith,
          l,
          weightless_callbacks (ending j) i (reverse (exec now op n.state).deferred)
              (λ cb. rw e refl),
        ))
  ]

  pub section_cleans :
      (j : ℕ)
      → 0 < sum_of (clean j) (callbacks i (exec now op n.state))
      → count_at (lock now op i n ns).0 j ≡ pos 0
  section_cleans j l = elim (Bool-cases (i == j)) [
    | inl e ↦ rw e (
        exec_clean_drains now op n.state (clean-le-cancel n.state.deferred v.users) (
          omega (
            arith,
            l,
            weight_of_callbacks is_clean (clean j) i (reverse (exec now op n.state).deferred)
                (λ cb. rw e refl),
            count_if-reverse is_clean (exec now op n.state).deferred,
          )))
    | inr e ↦ absurd (
        omega (
          arith,
          l,
          weightless_callbacks (clean j) i (reverse (exec now op n.state).deferred)
              (λ cb. rw e refl),
        ))
  ]
