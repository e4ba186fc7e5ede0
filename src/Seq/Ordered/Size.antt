-- ===== src/Seq/Ordered/Size.antt =====
-- Every move of Map uses something up (seq/map.go).
use go_stopper.Prelude.{
  ℕ, zero, suc, ◌+◌, ◌*◌, ◌≤◌, ◌<◌, ◌≡◌, refl, ap, [], ◌∷◌, arith, length, length-append,
  if◌then◌else◌,
}
use go_stopper.Safe.{Outcome}
use go_stopper.Prelude.Moves.{sum_of, sum_of-Swap}
use go_stopper.Seq.Worker.{Worker, looping, checked, enqueuing, calling, sending}
use go_stopper.Seq.Ordered.{
  Res, System, Consumer, receiving, waiting, awaiting, refused, leaving, returned, repeat, Work,
  Runs, begin, work, check, exit, pull, pull_end, enqueue, crash, skip_broken, skip_canceled,
  call_fn, send, receive, yield_more, yield_last, break_early, drained, waited, leave, idle_close,
  idle_cancel,
}

-- The moves that are left to a worker, before it returns or pulls its next item.
abbrev pub worker_size : {T S : Type 0} → Worker T S → ℕ
worker_size looping = 2
worker_size checked = 1
worker_size (enqueuing c x) = 7
worker_size (calling c x) = 4
worker_size (sending c r) = 3
worker_size _ = 0

abbrev pub consumer_size : Consumer → ℕ
consumer_size receiving = 4
consumer_size (waiting c) = 5
consumer_size refused = 3
consumer_size awaiting = 3
consumer_size (leaving b) = 1
consumer_size (returned b) = 0

abbrev pub size : {T R : Type 0} → System T R → ℕ
size s =
    8 * length s.items
    + sum_of worker_size s.workers
    + 2 * length s.results
    + consumer_size s.consumer
    + (if s.closed then 0 else 1)
    + (if s.canceled then 0 else 1)

module _ {T R : Type 0} (zero_value : R) (fn : ℕ → T → Outcome (Res R)) (num_workers : ℕ) where
  pub Work-size : {s t : System T R} → Work zero_value fn num_workers s t → size t < size s
  Work-size {s} (check c sw) = omega (arith, sum_of-Swap worker_size sw)
  Work-size {s} (exit c sw) = omega (arith, sum_of-Swap worker_size sw)
  Work-size {s} (pull l e sw) = omega (arith, sum_of-Swap worker_size sw, ap length e)
  Work-size {s} (pull_end l e sw) = omega (arith, sum_of-Swap worker_size sw)
  Work-size {s} (enqueue {c} o l sw) =
      omega (arith, sum_of-Swap worker_size sw, length-append s.results (c ∷ []))
  Work-size {s} (crash c sw) = omega (arith, sum_of-Swap worker_size sw)
  Work-size {s} (skip_broken c sw) = omega (arith, sum_of-Swap worker_size sw)
  Work-size {s} (skip_canceled c sw) = omega (arith, sum_of-Swap worker_size sw)
  Work-size {s} (call_fn sw) = omega (arith, sum_of-Swap worker_size sw)
  Work-size {s} (send sw) = omega (arith, sum_of-Swap worker_size sw)
  Work-size {s} (receive k e) = omega (arith, ap consumer_size k, ap length e)
  Work-size {s} (yield_more k e) = omega (arith, ap consumer_size k)
  Work-size {s} (yield_last k e) = omega (arith, ap consumer_size k)
  Work-size {s} (break_early k) = omega (arith, ap consumer_size k)
  Work-size {s} (drained k r c) = omega (arith, ap consumer_size k)
  Work-size {s} (waited err k c) = omega (arith, ap consumer_size k)
  Work-size {s} (leave k l) = omega (arith, ap consumer_size k)
  Work-size {s} (idle_close f c) = ground (arith, c)
  Work-size {s} (idle_cancel f c d) = ground (arith, d)

  -- How many moves a run has.
  abbrev pub moves : {s t : System T R} → Runs zero_value fn num_workers s t → ℕ
  moves begin = 0
  moves (work r st) = suc (moves r)

  pub Runs-size :
      {s t : System T R} (r : Runs zero_value fn num_workers s t) → moves r + size t ≤ size s
  Runs-size begin = omega arith
  Runs-size (work r st) = omega (arith, Runs-size r, Work-size st)

  pub start_size : (n : ℕ) → sum_of (worker_size {T = T} {S = Res R}) (repeat n looping) ≡ 2 * n
  start_size zero = refl
  start_size (suc n) = omega (arith, start_size n)
