-- ===== src/Tree.antt =====
-- Apply of internal/state/state.go along a path of states, from a stopper to the root of its tree.
-- Between the fast check of a state and its critical section other goroutines may run: each level
-- has the history of what they do to it meanwhile.
pub mod Apply
pub mod Counts
pub mod Release
mod Examples
use go_stopper.Prelude.{
  ℕ, zero, suc, true, false, List, [], ◌∷◌, ◌++◌, map, reverse, if◌then◌else◌, length,
}
use go_stopper.Prelude.Int.{ℤ, negate}
use go_stopper.State.{
  State, Callback, Section, Verdict, result, over_released, apply_refused, apply_locked,
}
use go_stopper.State.Trace.{History, run}

pub record Level : Type 0 where
  pub state : State
  pub gap : History

-- The state of a level at its lock.
abbrev pub met : Level → State
met l = run l.state l.gap

-- A level that nobody else touches.
abbrev pub quiet : State → Level
quiet s = record { state = s; gap = [] }

-- How an Apply ends: the states of the path, its result, and the callbacks that it ran, in order,
-- each with the height of its state above the root.
pub record Climb : Type 0 where
  pub states : List State
  pub verdict : Verdict
  pub called : List (ℕ × Callback)

-- The callbacks of a critical section as callDeferred runs them, at a height.
abbrev pub ran : ℕ → Section → List (ℕ × Callback)
ran height sec = map (λ cb. (height, cb)) (reverse sec.deferred)

-- The critical section, after the parent has answered; `undone` is the call s.parent.Apply(-delta)
-- of a section that refuses.
unfoldable pub apply_after : ℕ → Climb → State → Section → Climb → Climb
apply_after height parent s sec undone = elim parent.verdict [
  | over_released ↦ record {
    states = s ∷ parent.states;
    verdict = over_released;
    called = parent.called;
  }
  | result accepted ↦
      if accepted
      then elim sec.verdict [
        | over_released ↦ record {
          states = sec.after ∷ parent.states;
          verdict = over_released;
          called = parent.called;
        }
        | result done ↦
            if done
            then record {
              states = sec.after ∷ parent.states;
              verdict = result true;
              called = parent.called ++ ran height sec;
            }
            else record {
              states = sec.after ∷ undone.states;
              verdict = result false;
              called = parent.called ++ undone.called;
            }
      ]
      else record { states = s ∷ parent.states; verdict = result false; called = parent.called }
]

-- Apply, with fuel for the height of the path: more than its length is enough.
unfoldable pub apply_path : ℕ → ℤ → ℤ → List Level → Climb
unfolding apply_after apply_refused
apply_path zero now delta ls = record { states = map met ls; verdict = result false; called = [] }
apply_path (suc n) now delta [] = record { states = []; verdict = result true; called = [] }
apply_path (suc n) now delta (l ∷ up) =
    let parent = apply_path n now delta up in
    let undone = apply_path n now (negate delta) (map quiet parent.states) in
    let climbed = apply_after (length up) parent (met l) (apply_locked now delta (met l)) undone in
    if apply_refused delta l.state
    then record { states = map met (l ∷ up); verdict = result false; called = [] }
    else climbed
