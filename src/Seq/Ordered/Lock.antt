-- ===== src/Seq/Ordered/Lock.antt =====
-- What a hard stop can do to Map (seq/map.go).
use go_stopper.Prelude.{
  ℕ, ◌≤◌, ◌<◌, ◌≡◌, refl, ap, true, false, List, [], ◌∷◌, arith, Bool-cases, inl, inr,
}
use go_stopper.Safe.{Outcome, call_re}
use go_stopper.Prelude.Moves.{here, there, sum_of, sum_of-Swap}
use go_stopper.Seq.Worker.{Worker, looping, checked, enqueuing, calling, sending, ended, crashed}
use go_stopper.Seq.Ordered.{
  Res, System, Consumer, returned, start_map, Work, Halt, Reach, start, works, halts, cancel,
  expire, check, exit, pull, pull_end, enqueue, crash, skip_broken, skip_canceled, call_fn, send,
  receive, yield_more, yield_last, break_early, drained, waited, leave, idle_close, idle_cancel,
}
use go_stopper.Seq.Ordered.Invariant.{held, holding, Inv, Work-Inv, start-Inv, Reach-Inv}
use go_stopper.Seq.Ordered.Exact.{crashing}

abbrev pub IsReturned : Consumer → Type 0
IsReturned (returned b) = Unit
IsReturned _ = ⊥

crashing-le-holding :
    {T S : Type 0} (ws : List (Worker T S)) → sum_of crashing ws ≤ sum_of holding ws
crashing-le-holding [] = omega arith
crashing-le-holding (looping ∷ ws) = omega (arith, crashing-le-holding ws)
crashing-le-holding (checked ∷ ws) = omega (arith, crashing-le-holding ws)
crashing-le-holding (enqueuing c x ∷ ws) = omega (arith, crashing-le-holding ws)
crashing-le-holding (calling c x ∷ ws) = omega (arith, crashing-le-holding ws)
crashing-le-holding (sending c r ∷ ws) = omega (arith, crashing-le-holding ws)
crashing-le-holding (ended e ∷ ws) = omega (arith, crashing-le-holding ws)
crashing-le-holding (crashed ∷ ws) = omega (arith, crashing-le-holding ws)

module _ {T R : Type 0} (zero_value : R) (fn : ℕ → T → Outcome (Res R)) (num_workers : ℕ) where
  -- A state whose mutex is held by a worker that panicked.
  pub record IsBlocked (items : List T) (s : System T R) : Type 0 where
    pub inv : Inv zero_value fn items s
    pub crash_left : 0 < sum_of crashing s.workers
    pub waits : ¬ IsReturned s.consumer

  taken_lock : (items : List T) (s : System T R) → IsBlocked items s → s.locked ≡ false → ⊥
  taken_lock items s b l =
      omega (arith, b.inv.counted, ap held l, b.crash_left, crashing-le-holding s.workers)

  Work-IsBlocked :
      (items : List T) {s t : System T R}
      → IsBlocked items s
      → Work zero_value fn num_workers s t
      → (0 < sum_of crashing t.workers) × (¬ IsReturned t.consumer)
  Work-IsBlocked items {s} b (check c sw) =
      (omega (arith, b.crash_left, sum_of-Swap crashing sw), b.waits)
  Work-IsBlocked items {s} b (exit c sw) =
      (omega (arith, b.crash_left, sum_of-Swap crashing sw), b.waits)
  Work-IsBlocked items {s} b (pull l e sw) = absurd (taken_lock items s b l)
  Work-IsBlocked items {s} b (pull_end l e sw) = absurd (taken_lock items s b l)
  Work-IsBlocked items {s} b (enqueue c l sw) =
      (omega (arith, b.crash_left, sum_of-Swap crashing sw), b.waits)
  Work-IsBlocked items {s} b (crash c sw) =
      (omega (arith, b.crash_left, sum_of-Swap crashing sw), b.waits)
  Work-IsBlocked items {s} b (skip_broken c sw) =
      (omega (arith, b.crash_left, sum_of-Swap crashing sw), b.waits)
  Work-IsBlocked items {s} b (skip_canceled c sw) =
      (omega (arith, b.crash_left, sum_of-Swap crashing sw), b.waits)
  Work-IsBlocked items {s} b (call_fn sw) =
      (omega (arith, b.crash_left, sum_of-Swap crashing sw), b.waits)
  Work-IsBlocked items {s} b (send sw) =
      (omega (arith, b.crash_left, sum_of-Swap crashing sw), b.waits)
  Work-IsBlocked items {s} b (receive k e) = (b.crash_left, λ h. absurd h)
  Work-IsBlocked items {s} b (yield_more k e) = (b.crash_left, λ h. absurd h)
  Work-IsBlocked items {s} b (yield_last k e) = (b.crash_left, λ h. absurd h)
  Work-IsBlocked items {s} b (break_early k) = (b.crash_left, λ h. absurd h)
  Work-IsBlocked items {s} b (drained k r c) = (b.crash_left, λ h. absurd h)
  Work-IsBlocked items {s} b (waited err k c) = (b.crash_left, λ h. absurd h)
  Work-IsBlocked items {s} b (leave k l) = absurd (taken_lock items s b l)
  Work-IsBlocked items {s} b (idle_close f c) = (b.crash_left, b.waits)
  Work-IsBlocked items {s} b (idle_cancel f c d) = (b.crash_left, b.waits)

  Halt-IsBlocked :
      (items : List T) {s t : System T R}
      → IsBlocked items s
      → Halt zero_value fn num_workers s t
      → (0 < sum_of crashing t.workers) × (¬ IsReturned t.consumer)
  Halt-IsBlocked items b cancel = (b.crash_left, b.waits)
  Halt-IsBlocked items b (expire c) = (b.crash_left, b.waits)

  Reach-IsBlocked :
      (items : List T) {s t : System T R}
      → IsBlocked items s
      → Reach zero_value fn num_workers s t
      → IsBlocked items t
  Reach-IsBlocked items b start = b
  Reach-IsBlocked items b (works r st) =
      let c = Reach-IsBlocked items b r in
      let (left, waits) = Work-IsBlocked items c st in
      record {
        inv = Work-Inv zero_value fn items num_workers c.inv st;
        crash_left = left;
        waits = waits;
      }
  Reach-IsBlocked items b (halts {t} {u} r h) =
      let c = Reach-IsBlocked items b r in
      record {
        inv = Reach-Inv zero_value fn items num_workers c.inv (halts start h);
        crash_left = (Halt-IsBlocked items c h).0;
        waits = (Halt-IsBlocked items c h).1;
      }

  -- Once a worker has panicked at its send on the results channel, which a hard stop has closed,
  -- the mutex stays locked: the range over the sequence never ends, whatever happens.
  pub crash_blocks_map :
      (n : ℕ) (items : List T) {s t : System T R}
      → Reach zero_value fn num_workers (start_map n items) s
      → 0 < sum_of crashing s.workers
      → ¬ IsReturned s.consumer
      → Reach zero_value fn num_workers s t
      → (¬ IsReturned t.consumer) × (t.locked ≡ true)
  crash_blocks_map n items {s} {t} r c w r' =
      let b =
        Reach-IsBlocked items
          (record {
            inv = Reach-Inv zero_value fn items num_workers (start-Inv zero_value fn items n) r;
            crash_left = c;
            waits = w;
          })
          r' in
      (b.waits, elim (Bool-cases t.locked) [ inl e ↦ e | inr e ↦ absurd (taken_lock items t b e) ])

  -- A cancellation between the pulls of two workers can leave a gap: for any two first items there
  -- is a run that yields the result of the second one and not that of the first.
  pub cancel_leaves_gap :
      (x y : T) (zs : List T)
      → 0 < num_workers
      → (s : System T R) × Reach zero_value fn num_workers (start_map 2 (x ∷ y ∷ zs)) s
        × (s.yielded ≡ (1, call_re zero_value (fn 1 y)) ∷ [])
  cancel_leaves_gap x y zs p =
      let both = works (works start (check refl here)) (check refl (there here)) in
      let dropped =
        works (halts (works both (pull refl refl here)) cancel) (skip_canceled refl here) in
      let sent =
        works (works dropped (pull refl refl (there here))) (enqueue refl p (there here)) in
      let called = works (works sent (call_fn (there here))) (send (there here)) in
      (_, works (works called (receive refl refl)) (yield_more refl refl), refl)
