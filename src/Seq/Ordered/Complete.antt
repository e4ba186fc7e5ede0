-- ===== src/Seq/Ordered/Complete.antt =====
-- The results of Map without a hard stop (seq/map.go).
use go_stopper.Prelude.{
  ℕ, zero, suc, ◌+◌, ◌-◌, ◌<◌, ◌≡◌, refl, sym, ◌∙◌, ap, subst, Bool, true, false, List, [], ◌∷◌,
  ◌++◌, map, Option, arith, length, length-append, take, take-all, append-nil, Bool-cases, inl, inr,
}
use go_stopper.Errors.{Error}
use go_stopper.Safe.{Outcome}
use go_stopper.Prelude.Moves.{Swap, All, sum_of, sum_of-Swap, All_moving, length-Swap}
use go_stopper.Seq.Worker.{Worker, looping, checked, enqueuing, calling, sending, ended, crashed}
use go_stopper.Seq.Ordered.{
  Res, System, Consumer, receiving, waiting, awaiting, refused, leaving, returned, start_map,
  repeat, finishing, IsFinished, Work, Runs, begin, work, check, exit, pull, pull_end, enqueue,
  crash, skip_broken, skip_canceled, call_fn, send, receive, yield_more, yield_last, break_early,
  drained, waited, leave, idle_close, idle_cancel,
}
use go_stopper.Seq.Ordered.Invariant.{
  Ascending, held, holding, pending, index_of, enqueued, enqueued_snoc, enqueued_yield, Inv,
  Work-Inv, start-Inv,
}
use go_stopper.Seq.Ordered.Exact.{
  IsPast, IsComplete, crashing, outcomes, dense_prefix, length-map, length-outcomes, right_prefix,
  IsExact, moved,
}

module _ {T R : Type 0} (zero_value : R) (fn : ℕ → T → Outcome (Res R)) (items : List T) where
  -- A worker that is still in its loop, so that nothing is closed.
  pub alive :
      (s : System T R) {w w' : Worker T (Res R)} {ws : List (Worker T (Res R))}
      → IsExact zero_value fn items s
      → Swap w w' s.workers ws
      → finishing w ≡ 0
      → s.closed ≡ true
      → ⊥
  alive s x sw h c = omega (arith, h, All_moving IsFinished sw (x.closed_idle c))

  pub all_finished :
      (ws : List (Worker T (Res R)))
      → All IsFinished ws
      → (sum_of finishing ws ≡ length ws) × (sum_of holding ws ≡ sum_of crashing ws)
  all_finished [] a = (refl, refl)
  all_finished (looping ∷ ws) (p, a) = absurd (omega (arith, p))
  all_finished (checked ∷ ws) (p, a) = absurd (omega (arith, p))
  all_finished (enqueuing c x ∷ ws) (p, a) = absurd (omega (arith, p))
  all_finished (calling c x ∷ ws) (p, a) = absurd (omega (arith, p))
  all_finished (sending c r ∷ ws) (p, a) = absurd (omega (arith, p))
  all_finished (ended e ∷ ws) (p, a) = omega (arith, all_finished ws a)
  all_finished (crashed ∷ ws) (p, a) = omega (arith, all_finished ws a)

  -- While the consumer ranges over the results nothing breaks.
  unbroken :
      (s : System T R)
      → IsExact zero_value fn items s
      → (IsPast s.consumer → ⊥)
      → s.early_break ≡ false
  unbroken s x n = elim (Bool-cases s.early_break) [ inl e ↦ absurd (n (x.broken e)) | inr e ↦ e ]

  -- The next result that is yielded belongs to the next item.
  yielded_next :
      (s : System T R) (c : ℕ) (r : Res R)
      → Inv zero_value fn items s
      → IsExact zero_value fn items s
      → s.consumer ≡ waiting c
      → Ascending 0 (map index_of (s.yielded ++ (c, r) ∷ [])) (length (s.yielded ++ (c, r) ∷ []))
  yielded_next s c r v x k =
      let whole = x.dense (unbroken s x (λ p. subst IsPast k p)) in
      let ys = map index_of (s.yielded ++ (c, r) ∷ []) in
      let upto : length items - (length s.items + held s.locked) ≡ length (enqueued s) =
        omega (arith, whole) in
      let a = subst (λ h. Ascending 0 (enqueued s) h) upto v.order in
      let b = subst (λ l. Ascending 0 l (length l)) (sym (enqueued_yield s c r k)) a in
      subst (λ h. Ascending 0 ys h) (omega (arith, length-map (s.yielded ++ (c, r) ∷ [])))
        (dense_prefix 0 ys s.results (subst (λ h. Ascending 0 (ys ++ s.results) h) (omega arith) b))

  -- The consumer or the flags move on.
  passed :
      (s : System T R) (cs : List ℕ) (k : Consumer) (ys : List (ℕ × Res R)) (err : Option Error)
      (b : Bool)
      → IsExact zero_value fn items s
      → map index_of ys ++ (pending k ++ cs) ≡ enqueued s
      → (b ≡ false → s.early_break ≡ false)
      → (b ≡ true → IsPast k)
      → Ascending 0 (map index_of ys) (length ys)
      → (IsComplete k → length ys ≡ length items)
      → IsExact zero_value fn items
          (record s { results = cs; consumer = k; yielded = ys; extra = err; early_break = b })
  passed s cs k ys err b x e back past a done = record {
    dense = λ h. omega (arith, x.dense (back h), ap length e);
    closed_idle = x.closed_idle;
    cancel_closed = x.cancel_closed;
    finish = λ h. x.finish (back h);
    intact = x.intact;
    manned = x.manned;
    broken = past;
    consecutive = a;
    complete = done;
  }

  flagged :
      (s : System T R) (c d : Bool)
      → IsExact zero_value fn items s
      → (c ≡ true → All IsFinished s.workers)
      → (d ≡ true → c ≡ true)
      → IsExact zero_value fn items (record s { closed = c; canceled = d })
  flagged s c d x idle closed = record {
    dense = x.dense;
    closed_idle = idle;
    cancel_closed = closed;
    finish = x.finish;
    intact = x.intact;
    manned = x.manned;
    broken = x.broken;
    consecutive = x.consecutive;
    complete = x.complete;
  }

  drained_all :
      (s : System T R)
      → Inv zero_value fn items s
      → IsExact zero_value fn items s
      → s.consumer ≡ receiving
      → s.results ≡ []
      → s.closed ≡ true
      → length s.yielded ≡ length items
  drained_all s v x k r c =
      let whole = unbroken s x (λ p. subst IsPast k p) in
      let (over, free) = all_finished s.workers (x.closed_idle c) in
      let none_left = x.finish whole (omega (arith, over, x.manned)) in
      let all : length (enqueued s) ≡ length items =
        omega (arith, x.dense whole, ap length none_left, free, x.intact, v.counted) in
      let taken : enqueued s ≡ map index_of s.yielded =
        rw (k, r) (append-nil (map index_of s.yielded)) in
      omega (arith, all, ap length taken, length-map s.yielded)

  pub Work-IsExact :
      (num_workers : ℕ) {s t : System T R}
      → Inv zero_value fn items s
      → IsExact zero_value fn items s
      → Work zero_value fn num_workers s t
      → IsExact zero_value fn items t
  Work-IsExact n {s} v x (check c sw) = moved zero_value fn items s s.cells x sw refl refl
  Work-IsExact n {s} v x (exit c sw) = absurd (alive s x sw refl (x.cancel_closed c))
  Work-IsExact n {s} v x (pull l e sw) = record {
    dense = λ h. omega (arith, x.dense h, ap length e, ap held l);
    closed_idle = λ c. absurd (alive s x sw refl c);
    cancel_closed = x.cancel_closed;
    finish = λ h p. cc (e, x.finish h (omega (arith, p, sum_of-Swap finishing sw)));
    intact = omega (arith, x.intact, sum_of-Swap crashing sw);
    manned = omega (arith, x.manned, length-Swap sw);
    broken = x.broken;
    consecutive = x.consecutive;
    complete = x.complete;
  }
  Work-IsExact n {s} v x (pull_end l e sw) = record {
    dense = x.dense;
    closed_idle = λ c. absurd (alive s x sw refl c);
    cancel_closed = x.cancel_closed;
    finish = λ h p. e;
    intact = omega (arith, x.intact, sum_of-Swap crashing sw);
    manned = omega (arith, x.manned, length-Swap sw);
    broken = x.broken;
    consecutive = x.consecutive;
    complete = x.complete;
  }
  Work-IsExact n {s} v x (enqueue {c} o l sw) =
      let taken : held s.locked ≡ 1 = ground (arith, v.counted, sum_of-Swap holding sw) in
      record {
        dense = λ h. omega (
          arith,
          x.dense h,
          taken,
          ap length (enqueued_snoc s c),
          length-append (enqueued s) (c ∷ []),
        );
        closed_idle = λ d. absurd (alive s x sw refl d);
        cancel_closed = x.cancel_closed;
        finish = λ h p. x.finish h (omega (arith, p, sum_of-Swap finishing sw));
        intact = omega (arith, x.intact, sum_of-Swap crashing sw);
        manned = omega (arith, x.manned, length-Swap sw);
        broken = x.broken;
        consecutive = x.consecutive;
        complete = x.complete;
      }
  Work-IsExact n {s} v x (crash c sw) = absurd (alive s x sw refl c)
  Work-IsExact n {s} v x (skip_broken b sw) = record {
    dense = λ h. cc (b, h);
    closed_idle = λ d. absurd (alive s x sw refl d);
    cancel_closed = x.cancel_closed;
    finish = λ h p. cc (b, h);
    intact = omega (arith, x.intact, sum_of-Swap crashing sw);
    manned = omega (arith, x.manned, length-Swap sw);
    broken = x.broken;
    consecutive = x.consecutive;
    complete = x.complete;
  }
  Work-IsExact n {s} v x (skip_canceled b sw) = absurd (alive s x sw refl (x.cancel_closed b))
  Work-IsExact n {s} v x (call_fn sw) = moved zero_value fn items s s.cells x sw refl refl
  Work-IsExact n {s} v x (send {c} {r} sw) =
      moved zero_value fn items s ((c, r) ∷ s.cells) x sw refl refl
  Work-IsExact n {s} v x (receive {c} {cs} k e) =
      passed s cs (waiting c) s.yielded s.extra s.early_break x (rw (k, e) refl) (λ h. h)
        (λ h. subst IsPast k (x.broken h)) x.consecutive (λ h. absurd h)
  Work-IsExact n {s} v x (yield_more {c} {r} k e) =
      passed s s.results receiving (s.yielded ++ (c, r) ∷ []) s.extra s.early_break x
        (enqueued_yield s c r k) (λ h. h) (λ h. subst IsPast k (x.broken h))
        (yielded_next s c r v x k) (λ h. absurd h)
  Work-IsExact n {s} v x (yield_last {c} {r} k e) =
      passed s s.results refused (s.yielded ++ (c, r) ∷ []) s.extra s.early_break x
        (enqueued_yield s c r k) (λ h. h) (λ h. subst IsPast k (x.broken h))
        (yielded_next s c r v x k) (λ h. absurd h)
  Work-IsExact n {s} v x (break_early k) =
      passed s s.results (leaving false) s.yielded s.extra true x (rw k refl) (λ h. cc) (λ h. tt)
        x.consecutive (λ h. absurd h)
  Work-IsExact n {s} v x (drained k r c) =
      passed s s.results awaiting s.yielded s.extra s.early_break x (rw k refl) (λ h. h)
        (λ h. subst IsPast k (x.broken h)) x.consecutive (λ h. drained_all s v x k r c)
  Work-IsExact n {s} v x (waited err k c) =
      passed s s.results (leaving true) s.yielded err s.early_break x (rw k refl) (λ h. h) (λ h. tt)
        x.consecutive (λ h. x.complete (subst IsComplete (sym k) tt))
  Work-IsExact n {s} v x (leave {b = true} k l) =
      passed s s.results (returned true) s.yielded s.extra s.early_break x (rw k refl) (λ h. h)
        (λ h. tt) x.consecutive (λ h. x.complete (subst IsComplete (sym k) tt))
  Work-IsExact n {s} v x (leave {b = false} k l) =
      passed s s.results (returned false) s.yielded s.extra s.early_break x (rw k refl) (λ h. h)
        (λ h. tt) x.consecutive (λ h. absurd h)
  Work-IsExact n {s} v x (idle_close f c) = flagged s true s.canceled x (λ h. f) (λ h. refl)
  Work-IsExact n {s} v x (idle_cancel f c d) = flagged s s.closed true x (λ h. f) (λ h. c)

  repeat_workers :
      (n : ℕ)
      → (sum_of (crashing {T = T} {S = Res R}) (repeat n looping) ≡ 0)
        × (sum_of (finishing {T = T} {S = Res R}) (repeat n looping) ≡ 0)
        × (length (repeat {A = Worker T (Res R)} n looping) ≡ n)
  repeat_workers zero = (refl, refl, refl)
  repeat_workers (suc n) = omega (arith, repeat_workers n)

  pub start-IsExact : (n : ℕ) → 0 < n → IsExact zero_value fn items (start_map n items)
  start-IsExact n p = record {
    dense = λ h. omega arith;
    closed_idle = λ c. cc;
    cancel_closed = λ c. cc;
    finish = λ h q. absurd (omega (arith, q, repeat_workers n));
    intact = (repeat_workers n).0;
    manned = omega (arith, repeat_workers n, p);
    broken = λ h. cc;
    consecutive = omega arith;
    complete = λ h. absurd h;
  }

  pub Runs-Inv :
      (num_workers : ℕ) {s t : System T R}
      → Inv zero_value fn items s
      → IsExact zero_value fn items s
      → Runs zero_value fn num_workers s t
      → Inv zero_value fn items t × IsExact zero_value fn items t
  Runs-Inv n v x begin = (v, x)
  Runs-Inv n v x (work r st) =
      let (v', x') = Runs-Inv n v x r in
      (Work-Inv zero_value fn items n v' st, Work-IsExact n v' x' st)

  -- With at least one worker and no hard stop, what Map has yielded at any time is the first part of
  -- the results of the function at the items in their order, each with its own index.
  pub yields_prefix :
      (n num_workers : ℕ) {s : System T R}
      → 0 < n
      → Runs zero_value fn num_workers (start_map n items) s
      → s.yielded ≡ take (length s.yielded) (outcomes zero_value fn 0 items)
  yields_prefix n num_workers {s} p r =
      let (v, x) = Runs-Inv num_workers (start-Inv zero_value fn items n) (start-IsExact n p) r in
      right_prefix zero_value fn items 0 s.yielded
        (subst (λ h. Ascending 0 (map index_of s.yielded) h) (omega arith) x.consecutive) v.right

  -- With at least one worker and no hard stop, Map has yielded the results of the function at all
  -- items, in their order, once the range over the sequence has come to its end by itself.
  pub yields_all :
      (n num_workers : ℕ) {s : System T R}
      → 0 < n
      → Runs zero_value fn num_workers (start_map n items) s
      → s.consumer ≡ returned true
      → s.yielded ≡ outcomes zero_value fn 0 items
  yields_all n num_workers {s} p r k =
      let (v, x) = Runs-Inv num_workers (start-Inv zero_value fn items n) (start-IsExact n p) r in
      yields_prefix n num_workers p r
      ∙ ap (λ i. take i (outcomes zero_value fn 0 items))
          (x.complete (subst IsComplete (sym k) tt) ∙ sym (length-outcomes zero_value fn 0 items))
      ∙ take-all (outcomes zero_value fn 0 items)
