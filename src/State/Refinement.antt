-- ===== src/State/Refinement.antt =====
-- Every critical section of internal/state/state.go keeps the promises of a stopper.
use go_stopper.Prelude.{
  ℕ, ◌≡◌, refl, true, false, ◌&&◌, List, [], ◌∷◌, ◌++◌, arith, Bool-cases, Option-cases, inl, inr,
  ◌⊎◌, is_some, reverse,
}
use go_stopper.Prelude.Int.{ℤ, pos, ◌+ℤ◌, ltb_ℤ, leb_ℤ, eqb_ℤ}
use go_stopper.Errors.{stopped, grace_period_expired}
use go_stopper.State.{State, Callback}
use go_stopper.State.Trace.{
  Op, applies, defers, stops, stops_on_idle, adds_errors, adds_hook, cancels_hook, expires, exec,
  History, run, IsPossible,
}
use go_stopper.State.Invariant.{
  IsWellFormed, Permitted, Untimed, Fires-Permitted, exec-IsWellFormed, arm-Untimed,
}
use go_stopper.State.Lifecycle.{
  View, view, Move, keeps, counts, registers, calls_now, drains, closes, Moves, one, two, own, Life,
  ends_here, goes_on,
}

abbrev Refines : ℤ → Op → State → Type 0
Refines now op s = Moves (view s) (view (exec now op s).after) (own (exec now op s).deferred)

stops-Refines : (now g : ℤ) (s : State) → IsWellFormed s → Refines now (stops g) s
unfolding exec
stops-Refines now g s v = elim (Option-cases s.cancel) [
  | inl e ↦ one (keeps (ground arith) (ground arith))
  | inr (k, e) ↦ elim (Bool-cases (eqb_ℤ s.count (pos 0))) [
    | inl idle ↦ one (closes k stopped (ground arith) (ground arith) (ground arith) (ground arith))
    | inr busy ↦ elim (Bool-cases (leb_ℤ g (pos 0))) [
      | inl hard ↦ one (
          closes k grace_period_expired (ground arith) (ground arith) (ground arith) (ground arith))
      | inr soft ↦ elim (Bool-cases s.stopping) [
        | inl old ↦ one (keeps (ground arith) (ground arith))
        | inr new_ ↦ one (drains (ground arith) busy (ground arith) (ground arith))
      ]
    ]
  ]
]

stops_on_idle-Refines : (now g : ℤ) (s : State) → IsWellFormed s → Refines now (stops_on_idle g) s
unfolding exec
stops_on_idle-Refines now g s v = elim (Bool-cases (eqb_ℤ s.count (pos 0))) [
  | inr busy ↦ one (keeps (ground arith) (ground arith))
  | inl idle ↦ elim (Option-cases s.cancel) [
    | inl e ↦ one (keeps (ground arith) (ground arith))
    | inr (k, e) ↦
        one (closes k stopped (ground arith) (ground arith) (ground arith) (ground arith))
  ]
]

expires-Refines : (now : ℤ) (s : State) → s.stopping ≡ true → IsWellFormed s → Refines now expires s
unfolding exec
expires-Refines now s p v = elim (Option-cases s.cancel) [
  | inl e ↦ one (keeps (ground arith) (ground arith))
  | inr (k, e) ↦
      one
        (closes k grace_period_expired (ground arith) (ground arith) (ground arith) (ground arith))
]

defers-Refines : (now : ℤ) (fn : ℕ) (s : State) → IsWellFormed s → Refines now (defers fn) s
unfolding exec
defers-Refines now fn s v = elim (Bool-cases (s.stopping && eqb_ℤ s.count (pos 0))) [
  | inl e ↦ one (calls_now fn (ground arith) (ground arith) (ground arith))
  | inr e ↦ one (registers fn (ground arith) (ground arith))
]

-- A section of Apply whose count changes.
module _ (now d : ℤ) (s : State) (v : IsWellFormed s)
    (accepted : (s.stopping && ltb_ℤ (pos 0) d) ≡ false) where
  abbrev counted : View
  counted = record (view s) { tasks = s.count +ℤ d }

  counts_up : Move (view s) counted []
  counts_up = counts d (λ h. ground arith) refl refl

  -- The last task of a stopping state, or of one that is to stop on idle.
  last-Refines :
      ltb_ℤ (s.count +ℤ d) (pos 0) ≡ false
      → eqb_ℤ (s.count +ℤ d) (pos 0) ≡ true
      → is_some s.stop_on_idle ≡ true ⊎ s.stopping ≡ true
      → Refines now (applies d) s
  unfolding exec
  last-Refines sound idle ends = elim (Option-cases s.cancel) [
    | inl e ↦ one (counts d (λ h. ground arith) (ground arith) (ground arith))
    | inr (k, e) ↦
        two counted counts_up
          (closes k stopped (ground arith) (ground arith) (ground arith) (ground arith))
  ]

applies-Refines : (now d : ℤ) (s : State) → IsWellFormed s → Refines now (applies d) s
unfolding exec
applies-Refines now d s v = elim (Bool-cases (s.stopping && ltb_ℤ (pos 0) d)) [
  | inl refused ↦ one (keeps (ground arith) (ground arith))
  | inr accepted ↦ elim (Bool-cases (ltb_ℤ (s.count +ℤ d) (pos 0))) [
    | inl over ↦ one (counts d (λ h. ground arith) (ground arith) (ground arith))
    | inr sound ↦ elim (Bool-cases (eqb_ℤ (s.count +ℤ d) (pos 0))) [
      | inr busy ↦ one (counts d (λ h. ground arith) (ground arith) (ground arith))
      | inl idle ↦ elim (Option-cases s.stop_on_idle) [
        | inr (g, e) ↦ last-Refines now d s v accepted sound idle (inl (ground arith))
        | inl e ↦ elim (Bool-cases s.stopping) [
          | inl h ↦ last-Refines now d s v accepted sound idle (inr h)
          | inr h ↦ one (counts d (λ h. ground arith) (ground arith) (ground arith))
        ]
      ]
    ]
  ]
]

-- Every critical section of a well-formed state keeps the promises.
exec-Refines : (now : ℤ) (op : Op) (s : State) → Permitted op s → IsWellFormed s → Refines now op s
unfolding exec
exec-Refines now (applies d) s p v = applies-Refines now d s v
exec-Refines now (defers fn) s p v = defers-Refines now fn s v
exec-Refines now (stops g) s p v = stops-Refines now g s v
exec-Refines now (stops_on_idle g) s p v = stops_on_idle-Refines now g s v
exec-Refines now (adds_errors es) s p v = one (keeps (ground arith) (ground arith))
exec-Refines now (adds_hook h) s p v = one (keeps (ground arith) (ground arith))
exec-Refines now (cancels_hook c) s p v = one (keeps (ground arith) (ground arith))
exec-Refines now expires s p v = expires-Refines now s p v

-- The users' functions and the cancel function that a history calls.
abbrev pub own_called : State → History → List Callback
own_called s [] = []
own_called s ((now, op) ∷ ops) =
    reverse (own (exec now op s).deferred) ++ own_called (exec now op s).after ops

-- Every history of critical sections that can happen to a well-formed state is a life that a
-- stopper promises, with the functions called in the same order: it takes on tasks only while it
-- accepts them, drains only with tasks, and is closed at most once, with ErrStopped if no task is
-- left and with ErrGracePeriodExpired otherwise, when it calls all pending functions and then the
-- cancel function.
pub run_refines :
    (s : State) (timers : List ℤ) (ops : History)
    → IsWellFormed s
    → Untimed s timers
    → IsPossible s timers ops
    → Life (view s) (view (run s ops)) (own_called s ops)
unfolding run
run_refines s timers [] v u p = ends_here
run_refines s timers ((now, op) ∷ ops) v u (f, p) =
    let permitted = Fires-Permitted now op s timers u f in
    let v' = exec-IsWellFormed now op s permitted v in
    goes_on (exec-Refines now op s permitted v)
      (run_refines (exec now op s).after _ ops v' (arm-Untimed now op s timers u v') p)
