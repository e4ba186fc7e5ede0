-- ===== src/Limit/Crowd/Bound.antt =====
-- The slots that the tasks of limit/limit.go hold, in any interleaving.
use go_stopper.Prelude.{ℕ, zero, suc, ◌≤◌, ◌≡◌, refl, arith}
use go_stopper.Prelude.Moves.{sum_of, sum_of-Swap}
use go_stopper.Safe.{returns}
use go_stopper.Invocation.{ends}
use go_stopper.Limit.{release_slot}
use go_stopper.Limit.Crowd.{
  Place, running, Crowd, all_arriving, start_crowd, Move, enters, queues, takes, drops, leaves,
  Reach, begin, moves, stops,
}

abbrev pub runs : Place → ℕ
runs running = 1
runs _ = 0

-- The channel has one value for each task in its invoker.
pub record IsFair (limit : ℕ) (s : Crowd) : Type 0 where
  pub counted : s.held ≡ sum_of runs s.tasks
  pub bounded : s.held ≤ limit

release_slot_lem : {held held' : ℕ} → release_slot held ≡ ends (returns tt) held' → held ≡ suc held'
unfolding release_slot
release_slot_lem {held} h = ground arith

Move-IsFair : {limit : ℕ} {s t : Crowd} → IsFair limit s → Move limit s t → IsFair limit t
Move-IsFair v (enters h sw) = record {
  counted = omega (arith, v.counted, sum_of-Swap runs sw);
  bounded = h;
}
Move-IsFair v (queues h sw) = record {
  counted = omega (arith, v.counted, sum_of-Swap runs sw);
  bounded = v.bounded;
}
Move-IsFair v (takes h sw) = record {
  counted = omega (arith, v.counted, sum_of-Swap runs sw);
  bounded = h;
}
Move-IsFair v (drops h sw) = record {
  counted = omega (arith, v.counted, sum_of-Swap runs sw);
  bounded = v.bounded;
}
Move-IsFair v (leaves h sw) = record {
  counted = omega (arith, v.counted, release_slot_lem h, sum_of-Swap runs sw);
  bounded = omega (arith, v.bounded, release_slot_lem h);
}

none_runs : (n : ℕ) → sum_of runs (all_arriving n) ≡ 0
none_runs zero = refl
none_runs (suc n) = omega (arith, none_runs n)

pub Reach-IsFair : {limit : ℕ} (n : ℕ) {s : Crowd} → Reach limit (start_crowd n) s → IsFair limit s
Reach-IsFair n begin = record { counted = omega (arith, none_runs n); bounded = omega arith }
Reach-IsFair n (moves r m) = Move-IsFair (Reach-IsFair n r) m
Reach-IsFair n (stops r) =
    let v = Reach-IsFair n r in record { counted = v.counted; bounded = v.bounded }

-- Whatever the order in which the tasks under a concurrency limit move, and whenever the context
-- stops, the channel has one value for each task in its invoker, and there are at most as many as
-- the limit says.
pub concurrency_bounded :
    (limit n : ℕ) {s : Crowd}
    → Reach limit (start_crowd n) s
    → (s.held ≡ sum_of runs s.tasks) × (sum_of runs s.tasks ≤ limit)
concurrency_bounded limit n r =
    let v = Reach-IsFair n r in (v.counted, omega (arith, v.counted, v.bounded))
