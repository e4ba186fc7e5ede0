-- ===== src/Forest/Examples.antt =====
-- Two contexts, a root 0 with its child 1, and goroutines that run tasks and stop them.
use mathlib.Core.List.{Memᴰ}
use go_stopper.Prelude.{ℕ, Option, none, some, ◌≡◌, refl, true, false, [], ◌∷◌, arith}
use go_stopper.Prelude.Int.{ℤ, pos, negsuc, ◌+ℤ◌}
use go_stopper.Prelude.Moves.{here}
use go_stopper.State.{apply_refused, new, result}
use go_stopper.State.Trace.{applies, exec}
use go_stopper.Forest.Holders.{held}
use go_stopper.Forest.Balance.{count_is_held, release_never_panics}
use go_stopper.Forest.Later.{stopping_of}
use go_stopper.Forest.Lines.{Within, itself, above}
use go_stopper.Forest.Cancels.{clean_cancel_is_last}
use go_stopper.Forest.Spread.{stop_reaches_below}
use go_stopper.Forest.Quiet.{drained_is_closed}
use go_stopper.Forest.{
  disarm_after, skip_hook, cancel_context, Node, stop_within, Forest, acts, calls, requests,
  creates, derives, Reach, start, next, ask, stop_child, check, begin_work, count_up, run_callback,
  add_hook, rise, enter, works, end_work, hook_for, store_hook, arm,
}

-- The child is created, and its hook is set.
abbrev family : (f : Forest) × Reach f
family =
    let root = next start (creates {i = 0} (pos 30) refl) in
    let born = next root (derives {i = 1} {p = 0} (pos 20) refl refl) in
    (_, next born (acts {now = pos 0} (add_hook refl) here))

-- A task of the child is accepted, which is counted in the root first.
abbrev busy : (f : Forest) × Reach f
unfolding rise enter exec new apply_refused ◌+ℤ◌
busy =
    let called = next family.1 (calls {i = 1} refl) in
    let risen = next called (acts {now = pos 0} (check refl) here) in
    let above_ = next risen (acts {now = pos 0} (check refl) here) in
    let first = next above_ (acts {now = pos 0} (count_up refl) here) in
    let second = next first (acts {now = pos 0} (count_up refl) here) in
    (_, next second (acts {now = pos 0} begin_work here))

busy_threads :
    busy.0.threads ≡ (works (1 ∷ 0 ∷ []) ∷ []) ∷ (store_hook 1 ∷ arm 1 ∷ []) ∷ (arm 0 ∷ []) ∷ []
unfolding busy
busy_threads = refl

count_is_held_example : ◌≡◌ {A = ℤ} (pos 1) (pos (held 0 busy.0.threads))
unfolding busy
count_is_held_example = count_is_held {i = 0} busy.1 refl

-- The task of the child is over, and its release has come to the root.
abbrev releasing : (f : Forest) × Reach f
unfolding busy
releasing = (_, next busy.1 (acts {now = pos 5} end_work here))

release_never_panics_example :
    (exec
      (pos 6)
      (applies (negsuc 0))
      (record (new 0 false) { count = pos 1; stop_hooks = hook_for 1 ∷ [] })).verdict
    ≡ result true
unfolding releasing
release_never_panics_example =
    release_never_panics {i = 0} (pos 6) releasing.1 refl (Memᴰ.head refl)

-- The root is stopped with a grace period, and its hook stops the child.
abbrev stopped_family : (f : Forest) × Reach f
unfolding busy
stopped_family =
    let asked = next busy.1 (requests {i = 0} {r = stop_within (pos 10)} refl tt) in
    let soft = next asked (acts {now = pos 7} (ask refl) here) in
    let hooked = next soft (acts {now = pos 7} run_callback here) in
    (_, next hooked (acts {now = pos 7} (stop_child refl) here))

stop_reaches_below_example : stopping_of (stopped_family.0.nodes 1) ≡ true
unfolding stopped_family
stop_reaches_below_example =
    stop_reaches_below {i = 0} {t = 1} stopped_family.1 (λ c. omega arith) (above refl itself) refl

-- A task of the root is run, and the idle child is stopped.
abbrev ending_child : (f : Forest) × Reach f
unfolding rise enter exec new apply_refused ◌+ℤ◌
ending_child =
    let called = next family.1 (calls {i = 0} refl) in
    let risen = next called (acts {now = pos 0} (check refl) here) in
    let first = next risen (acts {now = pos 0} (count_up refl) here) in
    let at_work = next first (acts {now = pos 0} begin_work here) in
    let asked = next at_work (requests {i = 1} {r = stop_within (pos 10)} refl tt) in
    (_, next asked (acts {now = pos 7} (ask refl) here))

clean_cancel_is_last_example : ¬ Within ending_child.0.nodes 1 0
unfolding ending_child
clean_cancel_is_last_example =
    clean_cancel_is_last {k = 1} ending_child.1 (Memᴰ.head refl) (Memᴰ.tail (Memᴰ.head refl))

-- The idle root is stopped: its cancel function runs, and its hook stops the child.
abbrev ended_family : (f : Forest) × Reach f
unfolding exec new ◌+ℤ◌
ended_family =
    let asked = next family.1 (requests {i = 0} {r = stop_within (pos 10)} refl tt) in
    let ended = next asked (acts {now = pos 7} (ask refl) here) in
    let cleaned = next ended (acts {now = pos 7} run_callback here) in
    let disarmed = next cleaned (acts {now = pos 7} (disarm_after refl) here) in
    let skipped = next disarmed (acts {now = pos 7} (skip_hook refl refl) here) in
    let canceled_ = next skipped (acts {now = pos 7} (cancel_context refl) here) in
    let hooked = next canceled_ (acts {now = pos 7} run_callback here) in
    (_, next hooked (acts {now = pos 7} (stop_child refl) here))

abbrev cancel_of : Option Node → Option ℕ
cancel_of none = none
cancel_of (some n) = n.state.cancel

drained_is_closed_example : cancel_of (ended_family.0.nodes 1) ≡ none
unfolding ended_family
drained_is_closed_example =
    drained_is_closed {i = 0} {t = 1} ended_family.1 (λ c. omega arith) (above refl itself) refl
      refl refl
