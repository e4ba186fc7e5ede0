-- ===== src/Tree/Release.antt =====
-- The last release on a path of stopping states (internal/state/state.go).
use go_stopper.Prelude.{
  ℕ, zero, suc, ◌<◌, length, ◌≡◌, refl, ◌∙◌, ap, true, false, List, [], ◌∷◌, ◌++◌, none, some, map,
  reverse, arith,
}
use go_stopper.Prelude.Int.{ℤ, pos, negsuc, ◌+ℤ◌}
use mathlib.Core.List.{reverse-cons}
use go_stopper.State.Trace.{run}
use go_stopper.Errors.{stopped}
use go_stopper.State.{
  State, Callback, result, cancel_with, apply_refused, apply_locked, after_count, hard_stop_locked,
  clear_timer,
}
use go_stopper.Tree.{Level, quiet, apply_path, apply_after}

-- A stopping state with one task, which is not canceled.
pub record IsLast (s : State) (cancel_fn : ℕ) : Type 0 where
  pub stopping : s.stopping ≡ true
  pub count : s.count ≡ pos 1
  pub cancel : s.cancel ≡ some cancel_fn
  pub idle : s.stop_on_idle ≡ none

last_release :
    (now : ℤ) (s : State) (f : ℕ)
    → IsLast s f
    → ((apply_locked now (negsuc 0) s).verdict ≡ result true)
      × ((apply_locked now (negsuc 0) s).deferred ≡ cancel_with f stopped ∷ s.deferred)
unfolding apply_locked after_count hard_stop_locked clear_timer ◌+ℤ◌
last_release now s f l = ground (arith, l.stopping, l.count, l.cancel, l.idle)

-- The states of a path with their cancel functions, each about to lose its last task.
abbrev pub AllLast : List (State × ℕ) → Type 0
AllLast [] = Unit
AllLast ((s, f) ∷ up) = IsLast s f × AllLast up

-- The callbacks of a path that ends: the root first, and at each state the deferred functions, last
-- in first out, and then its cancel function.
abbrev pub ended : List (State × ℕ) → List (ℕ × Callback)
ended [] = []
ended ((s, f) ∷ up) =
    ended up ++ map (λ cb. (length up, cb)) (reverse s.deferred ++ cancel_with f stopped ∷ [])

abbrev pub path_of : List (State × ℕ) → List Level
path_of = map (λ (s, f). quiet s)

release_refused : (s : State) → apply_refused (negsuc 0) s ≡ false
unfolding apply_refused
release_refused s = ground arith

release_called :
    (n : ℕ) (now : ℤ) (s : State) (f : ℕ) (up : List Level)
    → IsLast s f
    → (apply_path n now (negsuc 0) up).verdict ≡ result true
    → ((apply_path (suc n) now (negsuc 0) (quiet s ∷ up)).verdict ≡ result true)
      × ((apply_path (suc n) now (negsuc 0) (quiet s ∷ up)).called
          ≡ (apply_path n now (negsuc 0) up).called
            ++ map (λ cb. (length up, cb)) (reverse s.deferred ++ cancel_with f stopped ∷ []))
unfolding apply_path apply_after run
release_called n now s f up l p =
    let (v, cbs) = last_release now s f l in
    rw (release_refused s, p, v, cbs, reverse-cons (cancel_with f stopped) s.deferred) (refl, refl)

length-path : (up : List (State × ℕ)) → length (path_of up) ≡ length up
length-path [] = refl
length-path (x ∷ up) = ap suc (length-path up)

-- When the last task of a stopping state ends, not told to stop when idle and not canceled, and it
-- is the last one of each of its ancestors, which are the same, the release succeeds, with fuel
-- beyond the length of the path, and the deferred functions and the cancel function of every
-- ancestor run before those of the states below it.
pub parents_cancel_first :
    (n : ℕ) (now : ℤ) (path : List (State × ℕ))
    → length path < n
    → AllLast path
    → ((apply_path n now (negsuc 0) (path_of path)).verdict ≡ result true)
      × ((apply_path n now (negsuc 0) (path_of path)).called ≡ ended path)
unfolding apply_path
parents_cancel_first zero now path h a = ground arith
parents_cancel_first (suc n) now [] h a = (refl, refl)
parents_cancel_first (suc n) now ((s, f) ∷ up) h (l, ls) =
    let (v, before) = parents_cancel_first n now up (omega (arith, h)) ls in
    let (v', called) = release_called n now s f (path_of up) l v in
    (v', called ∙ rw (before, length-path up) refl)
