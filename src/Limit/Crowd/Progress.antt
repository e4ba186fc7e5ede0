-- ===== src/Limit/Crowd/Progress.antt =====
-- Every task under the limit of limit/limit.go gets its turn or is dropped.
use go_stopper.Prelude.{
  ℕ, zero, suc, ◌+◌, ◌-◌, ◌*◌, ◌≤◌, ◌<◌, ◌≡◌, List, [], ◌∷◌, arith, ◌⊎◌, inl, inr,
}
use native.Mathlib.Decide.{dec_lt}
use go_stopper.Prelude.Moves.{Swap, sum_of, sum_of-Swap, find_mover, All}
use go_stopper.Safe.{returns}
use go_stopper.Invocation.{ends}
use go_stopper.Limit.{release_slot}
use go_stopper.Limit.Crowd.{
  Place, arriving, waiting, running, over, Crowd, all_arriving, start_crowd, Move, enters, queues,
  takes, drops, leaves, Reach, begin, moves, stops, length_of,
}
use go_stopper.Limit.Crowd.Bound.{runs, Reach-IsFair}

-- How many moves a task has left at most.
abbrev pub moves_left : Place → ℕ
moves_left arriving = 3
moves_left waiting = 2
moves_left running = 1
moves_left over = 0

abbrev pub IsOver : Place → Type 0
IsOver over = Unit
IsOver _ = ⊥

Move-moves_left :
    {limit : ℕ} {s t : Crowd}
    → Move limit s t
    → sum_of moves_left t.tasks < sum_of moves_left s.tasks
Move-moves_left (enters h sw) = omega (arith, sum_of-Swap moves_left sw)
Move-moves_left (queues h sw) = omega (arith, sum_of-Swap moves_left sw)
Move-moves_left (takes h sw) = omega (arith, sum_of-Swap moves_left sw)
Move-moves_left (drops h sw) = omega (arith, sum_of-Swap moves_left sw)
Move-moves_left (leaves h sw) = omega (arith, sum_of-Swap moves_left sw)

Reach-moves_left :
    {limit : ℕ} {s t : Crowd} (r : Reach limit s t)
    → length_of limit r + sum_of moves_left t.tasks ≤ sum_of moves_left s.tasks
Reach-moves_left begin = omega arith
Reach-moves_left (moves r m) = omega (arith, Reach-moves_left r, Move-moves_left m)
Reach-moves_left (stops r) = Reach-moves_left r

start_moves_left : (n : ℕ) → sum_of moves_left (all_arriving n) ≡ 3 * n
start_moves_left zero = omega arith
start_moves_left (suc n) = omega (arith, start_moves_left n)

all-IsOver : (ps : List Place) → ¬ 0 < sum_of moves_left ps → All IsOver ps
all-IsOver [] h = tt
all-IsOver (arriving ∷ ps) h = absurd (h (omega arith))
all-IsOver (waiting ∷ ps) h = absurd (h (omega arith))
all-IsOver (running ∷ ps) h = absurd (h (omega arith))
all-IsOver (over ∷ ps) h = (tt, all-IsOver ps λ q. h (omega (arith, q)))

pub release_succeeds : {held : ℕ} → 0 < held → release_slot held ≡ ends (returns tt) (held - 1)
unfolding release_slot
release_succeeds {held} h = ground arith

module _ (limit : ℕ) (s : Crowd) where
  abbrev pub CanMove : Type 0
  CanMove = (t : Crowd) × Move limit s t

  abbrev CanBecome : Place → Type 0
  CanBecome p = (p' : Place) → (ps : List Place) × Swap p p' s.tasks ps

  module _ (counted : s.held ≡ sum_of runs s.tasks) where
    runner_moves : (p : Place) → 0 < runs p → CanBecome p → CanMove
    runner_moves arriving h swap = absurd (omega (arith, h))
    runner_moves waiting h swap = absurd (omega (arith, h))
    runner_moves over h swap = absurd (omega (arith, h))
    runner_moves running h swap =
        let (ps, sw) = swap over in
        (_, leaves (release_succeeds (omega (arith, counted, sum_of-Swap runs sw))) sw)

    slot_moves : 0 < s.held → CanMove
    slot_moves h =
        let (p, q, swap) = find_mover runs s.tasks (omega (arith, counted, h)) in
        runner_moves p q swap

    task_moves : 0 < limit → (p : Place) → 0 < moves_left p → CanBecome p → CanMove
    task_moves l arriving h swap = elim (dec_lt s.held limit) [
      | yes room ↦ (_, enters room (swap running).1)
      | no full ↦ (_, queues (omega (arith, full)) (swap waiting).1)
    ]
    task_moves l waiting h swap = elim (dec_lt s.held limit) [
      | yes room ↦ (_, takes room (swap running).1)
      | no full ↦ slot_moves (omega (arith, full, l))
    ]
    task_moves l running h swap = runner_moves running (omega arith) swap
    task_moves l over h swap = absurd (omega (arith, h))

-- Under a positive limit, `n` tasks make at most 3 * n moves in all, and as long as one of them is not
-- over some task can move. If some task is in its invoker, a release finds a value in the channel.
pub concurrency_progress :
    (limit n : ℕ) {s : Crowd}
    → 0 < limit
    → (r : Reach limit (start_crowd n) s)
    → (length_of limit r ≤ 3 * n)
      × (All IsOver s.tasks ⊎ CanMove limit s)
      × ((sum_of runs s.tasks ≡ 0) ⊎ (release_slot s.held ≡ ends (returns tt) (s.held - 1)))
concurrency_progress limit n {s} p r =
    let counted = (Reach-IsFair n r).counted in
    (
      omega (arith, Reach-moves_left r, start_moves_left n),
      elim (dec_lt 0 (sum_of moves_left s.tasks)) [
        | no done ↦ inl (all-IsOver s.tasks done)
        | yes left ↦
            let (w, q, swap) = find_mover moves_left s.tasks left in
            inr (task_moves limit s counted p w q swap)
      ],
      elim (dec_lt 0 s.held) [
        | no idle ↦ inl (omega (arith, idle, counted))
        | yes busy ↦ inr (release_succeeds busy)
      ],
    )
