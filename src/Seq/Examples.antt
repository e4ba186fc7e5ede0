-- ===== src/Seq/Examples.antt =====
-- Runs of seq/ on small inputs.
use go_stopper.Prelude.{
  ℕ, ◌+◌, ◌*◌, ◌≤◌, ◌≡◌, ◌⊎◌, refl, true, [], ◌∷◌, map, Option, none, some, arith,
}
use go_stopper.Errors.{Error, user_error}
use go_stopper.Safe.{Outcome, returns, call_e, call_re}
use go_stopper.Prelude.Moves.{here, All}
use go_stopper.Seq.Ordered.{
  Res, System, returned, start_map, Runs, Reach, begin, work, start, works, halts, cancel, expire,
  check, pull, pull_end, enqueue, crash, call_fn, send, receive, yield_more, drained, waited, leave,
  idle_close, idle_cancel,
}
use go_stopper.Seq.Ordered.Invariant.{Ascending, index_of, IsRight, yields_in_order}
use go_stopper.Seq.Ordered.Exact.{outcomes}
use go_stopper.Seq.Ordered.Complete.{yields_all}
use go_stopper.Seq.Ordered.Lock.{IsReturned, crash_blocks_map, cancel_leaves_gap}
use go_stopper.Seq.Ordered.Size.{moves}
use go_stopper.Seq.Ordered.Progress.{CanMove, map_terminates}
use go_stopper.Seq.Tally.{occurs, wanted, IsResult}
use go_stopper.Seq.Each
use go_stopper.Seq.Each.{Pool, added, start_each}
use go_stopper.Seq.Each.Exact.{for_each_exact}
use go_stopper.Seq.Unordered
use go_stopper.Seq.Unordered.{start_unordered}
use go_stopper.Seq.Unordered.Complete.{yields_once, yields_each_once}

abbrev plus : ℕ → ℕ → Outcome (Res ℕ)
plus c x = returns (c + x, none)

-- One worker maps one item, up to its result.
abbrev first_result : (s : System ℕ ℕ) × Runs 0 plus 1 (start_map 1 (5 ∷ [])) s
first_result =
    let pulled = work (work begin (check refl here)) (pull refl refl here) in
    let called = work (work pulled (enqueue refl (omega arith) here)) (call_fn here) in
    (_, work (work (work called (send here)) (receive refl refl)) (yield_more refl refl))

-- The same run to its end.
abbrev whole_run : (s : System ℕ ℕ) × Runs 0 plus 1 (start_map 1 (5 ∷ [])) s
whole_run =
    let ended = work (work first_result.1 (check refl here)) (pull_end refl refl here) in
    let stopped =
      work (work ended (idle_close (refl, tt) refl)) (idle_cancel (refl, tt) refl refl) in
    (
      _,
      work (work (work stopped (drained refl refl refl)) (waited none refl refl)) (leave refl refl),
    )

whole_run_yields :
    (whole_run.0.yielded ≡ (0, (5, none)) ∷ []) × (whole_run.0.consumer ≡ returned true)
unfolding call_re
whole_run_yields = (refl, refl)

yields_all_example : whole_run.0.yielded ≡ outcomes 0 plus 0 (5 ∷ [])
yields_all_example = yields_all 0 plus (5 ∷ []) 1 1 (omega arith) whole_run.1 refl

map_terminates_example :
    (moves 0 plus 1 first_result.1 ≤ 8 * 1 + 2 * 1 + 6)
    × (IsReturned first_result.0.consumer ⊎ CanMove 0 plus 1 first_result.0)
map_terminates_example =
    map_terminates 0 plus 1 1 (5 ∷ []) (omega arith) (omega arith) first_result.1

-- A worker is blocked in its send when an expired grace period closes the channel.
abbrev blocked : (s : System ℕ ℕ) × Reach 0 plus 1 (start_map 1 (5 ∷ [])) s
blocked =
    let pulled = works (works start (check refl here)) (pull refl refl here) in
    (_, works (halts pulled (expire refl)) (crash refl here))

abbrev blocked_later : (s : System ℕ ℕ) × Reach 0 plus 1 blocked.0 s
blocked_later =
    (_, works (works (halts start cancel) (drained refl refl refl)) (waited none refl refl))

crash_blocks_map_example : (¬ IsReturned blocked_later.0.consumer) × (blocked_later.0.locked ≡ true)
crash_blocks_map_example =
    crash_blocks_map 0 plus 1 1 (5 ∷ []) blocked.1 (omega arith) (λ h. h) blocked_later.1

cancel_leaves_gap_example :
    (s : System ℕ ℕ) × Reach 0 plus 2 (start_map 2 (5 ∷ 6 ∷ 7 ∷ [])) s
    × (s.yielded ≡ (1, call_re 0 (plus 1 6)) ∷ [])
cancel_leaves_gap_example = cancel_leaves_gap 0 plus 2 5 6 (7 ∷ []) (omega arith)

-- A run that is canceled after its first result.
abbrev canceled_run : (s : System ℕ ℕ) × Reach 0 plus 1 (start_map 1 (5 ∷ 6 ∷ [])) s
canceled_run =
    let pulled = works (works start (check refl here)) (pull refl refl here) in
    let called = works (works pulled (enqueue refl (omega arith) here)) (call_fn here) in
    let yielded =
      works (works (works called (send here)) (receive refl refl)) (yield_more refl refl) in
    (_, halts yielded cancel)

yields_in_order_example :
    Ascending 0 (map index_of canceled_run.0.yielded) 2
    × All (IsRight 0 plus (5 ∷ 6 ∷ [])) canceled_run.0.yielded
yields_in_order_example = yields_in_order 0 plus (5 ∷ 6 ∷ []) 1 1 canceled_run.1

-- ForEach over one item whose call fails.
abbrev failing : ℕ → ℕ → Outcome (Option Error)
failing c x = returns (some (user_error x))

abbrev each_run : (s : Pool ℕ) × Each.Reach failing (start_each 1 (4 ∷ [])) s
each_run =
    let pulled = Each.works (Each.works Each.start (Each.check refl here)) (Each.pull refl here) in
    let called = Each.works (Each.works pulled (Each.call_fn here)) (Each.report here) in
    (_, Each.works (Each.works called (Each.check refl here)) (Each.pull_end refl here))

each_run_adds : added each_run.0.done ≡ (0, user_error 4) ∷ []
unfolding added call_e
each_run_adds = refl

for_each_exact_example :
    (occurs 0 each_run.0.done ≡ 1)
    × (occurs 0 (added each_run.0.done) ≡ 1)
    × All
        (λ (k, e). wanted (Each.Exact.run_fn failing (4 ∷ [])) (4 ∷ []) k ≡ some (some e))
        (added each_run.0.done)
unfolding call_e
for_each_exact_example =
    for_each_exact failing (4 ∷ []) 1 0 4 (omega arith) each_run.1 refl (refl, tt) refl

-- MapUnordered over one item.
abbrev unordered_run :
    (s : Unordered.System ℕ ℕ) × Unordered.Runs 0 plus 1 (start_unordered 1 (5 ∷ [])) s
unordered_run =
    let pulled =
      Unordered.work (Unordered.work Unordered.begin (Unordered.check refl here))
        (Unordered.pull refl here) in
    let called =
      Unordered.work (Unordered.work pulled (Unordered.call_fn here))
        (Unordered.send refl (omega arith) here) in
    let yielded = Unordered.work called (Unordered.yield_more refl refl) in
    let ended =
      Unordered.work (Unordered.work yielded (Unordered.check refl here))
        (Unordered.pull_end refl here) in
    let closed =
      Unordered.work (Unordered.work ended (Unordered.idle_close (refl, tt) refl))
        (Unordered.idle_cancel (refl, tt) refl refl) in
    (
      _,
      Unordered.work (Unordered.work closed (Unordered.drained refl refl refl))
          (Unordered.waited none refl refl),
    )

abbrev unordered_reach :
    (s : Unordered.System ℕ ℕ) × Unordered.Reach 0 plus 1 (start_unordered 1 (5 ∷ [])) s
unordered_reach =
    let pulled =
      Unordered.works (Unordered.works Unordered.start (Unordered.check refl here))
        (Unordered.pull refl here) in
    let called =
      Unordered.works (Unordered.works pulled (Unordered.call_fn here))
        (Unordered.send refl (omega arith) here) in
    (_, Unordered.cancels (Unordered.works called (Unordered.yield_more refl refl)))

yields_once_example :
    (occurs 0 unordered_reach.0.yielded ≤ 1)
    × All (IsResult (Unordered.Exact.run_fn 0 plus (5 ∷ [])) (5 ∷ [])) unordered_reach.0.yielded
yields_once_example = yields_once 0 plus (5 ∷ []) 1 1 0 unordered_reach.1

yields_each_once_example :
    (occurs 0 unordered_run.0.yielded ≡ 1)
    × All (IsResult (Unordered.Exact.run_fn 0 plus (5 ∷ [])) (5 ∷ [])) unordered_run.0.yielded
yields_each_once_example =
    yields_each_once 0 plus (5 ∷ []) 1 1 0 (omega arith) unordered_run.1 refl (omega arith)
