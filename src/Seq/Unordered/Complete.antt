-- ===== src/Seq/Unordered/Complete.antt =====
-- The results of MapUnordered, with and without a hard stop (seq/map.go).
use go_stopper.Prelude.{
  ℕ, suc, ◌≤◌, ◌<◌, ◌≡◌, refl, sym, ◌∙◌, ap, subst, true, false, List, [], ◌∷◌, ◌++◌, arith, length,
  Bool-cases, inl, inr, length-le_of_drop,
}
use go_stopper.Safe.{Outcome}
use go_stopper.Prelude.Moves.{Swap, All, sum_of, sum_of-Swap, All_moving, length-Swap}
use go_stopper.Seq.Worker.{Worker}
use go_stopper.Seq.Ordered.{Res, finishing, IsFinished}
use go_stopper.Seq.Tally.{
  occurs, IsResult, IsLossless, IsLossless-move, IsLossless-end, IsLossless-pull,
  IsLossless-deliver, repeat_idle, finished_idle,
}
use go_stopper.Seq.Unordered.{
  Consumer, receiving, refused, returned, System, start_unordered, Work, Runs, Reach, check, exit,
  pull, pull_end, call_fn, send, crash, skip_broken, skip_canceled, yield_more, yield_last,
  break_early, drained, waited, idle_close, idle_cancel, begin, work, start, works, cancels,
  expires,
}
use go_stopper.Seq.Unordered.Exact.{
  IsComplete, IsPast, sent, occurs-append, All-prefix, run_fn, SystemTally, sent_snoc, yield_moves,
  Work-Tally,
}

module _ {T R : Type 0} (zero_value : R) (fn : ℕ → T → Outcome (Res R)) (items : List T) where
  abbrev Lossless : System T R → Type 0
  Lossless s = IsLossless (run_fn zero_value fn items) items s.idx s.workers (sent s)

  pub record IsExact (s : System T R) : Type 0 where
    pub lossless : s.early_break ≡ false → Lossless s
    pub closed_idle : s.closed ≡ true → All IsFinished s.workers
    pub cancel_closed : s.canceled ≡ true → s.closed ≡ true
    pub finish : s.early_break ≡ false → 0 < sum_of finishing s.workers → s.items ≡ []
    pub manned : 0 < length s.workers
    pub broken : s.early_break ≡ true → IsPast s.consumer
    pub complete : IsComplete s.consumer → (c : ℕ) → c < length items → occurs c s.yielded ≡ 1

  alive :
      (s : System T R) {w w' : Worker T (Res R)} {ws : List (Worker T (Res R))}
      → IsExact s
      → Swap w w' s.workers ws
      → finishing w ≡ 0
      → s.closed ≡ true
      → ⊥
  alive s x sw h c = omega (arith, h, All_moving IsFinished sw (x.closed_idle c))

  -- A worker moves; the items, the index and the channel are as given.
  worked :
      (s : System T R) {w w' : Worker T (Res R)} {ws : List (Worker T (Res R))} (left : List T)
      (idx : ℕ) (rs : List (ℕ × Res R))
      → IsExact s
      → Swap w w' s.workers ws
      → finishing w ≡ 0
      → (s.early_break ≡ false → 0 < sum_of finishing ws → left ≡ [])
      → (s.early_break ≡ false
          → IsLossless (run_fn zero_value fn items) items idx ws (s.yielded ++ rs))
      → IsExact (record s { items = left; idx = idx; workers = ws; results = rs })
  worked s left idx rs x sw h f l = record {
    lossless = l;
    closed_idle = λ c. absurd (alive s x sw h c);
    cancel_closed = x.cancel_closed;
    finish = f;
    manned = omega (arith, x.manned, length-Swap sw);
    broken = x.broken;
    complete = x.complete;
  }

  unbroken : (s : System T R) → IsExact s → s.consumer ≡ receiving → s.early_break ≡ false
  unbroken s x k = elim (Bool-cases s.early_break) [
    | inl e ↦ absurd (subst IsPast k (x.broken e))
    | inr e ↦ e
  ]

  -- With the channel closed and empty, every result has been yielded.
  drained_all :
      (s : System T R)
      → SystemTally zero_value fn items s
      → IsExact s
      → s.consumer ≡ receiving
      → s.results ≡ []
      → s.closed ≡ true
      → (c : ℕ) → c < length items
      → occurs c s.yielded ≡ 1
  drained_all s v x k e o c p =
      let whole = unbroken s x k in
      let (idle, over) = finished_idle c s.workers (x.closed_idle o) in
      let none_left = x.finish whole (omega (arith, over, x.manned)) in
      let last = length-le_of_drop s.idx items (sym v.rest ∙ none_left) in
      omega (
        arith,
        x.lossless whole c (omega (arith, p, last)) p,
        idle,
        occurs-append c s.yielded s.results,
        ap (occurs c) e,
      )

  -- The consumer takes a result.
  taken :
      (s : System T R) (y : ℕ × Res R) (ys : List (ℕ × Res R)) (k : Consumer)
      → IsExact s
      → s.consumer ≡ receiving
      → s.results ≡ y ∷ ys
      → (IsComplete k → ⊥)
      → IsExact (record s { results = ys; yielded = s.yielded ++ y ∷ []; consumer = k })
  taken s y ys k x r e n = record {
    lossless = λ h.
        subst (IsLossless (run_fn zero_value fn items) items s.idx s.workers)
          (yield_moves zero_value fn items s y ys e) (x.lossless h);
    closed_idle = x.closed_idle;
    cancel_closed = x.cancel_closed;
    finish = x.finish;
    manned = x.manned;
    broken = λ h. absurd (subst IsPast r (x.broken h));
    complete = λ h. absurd (n h);
  }

  Work-IsExact :
      (n : ℕ) {s t : System T R}
      → SystemTally zero_value fn items s
      → IsExact s
      → Work zero_value fn n s t
      → IsExact t
  Work-IsExact n {s} v x (check c sw) =
      worked s s.items s.idx s.results x sw refl
        (λ o p. x.finish o (omega (arith, p, sum_of-Swap finishing sw)))
        (λ o. IsLossless-move _ items v sw (λ k. refl) (x.lossless o))
  Work-IsExact n {s} v x (exit c sw) = absurd (alive s x sw refl (x.cancel_closed c))
  Work-IsExact n {s} v x (pull {xs} e sw) =
      worked s xs (suc s.idx) s.results x sw refl
        (λ o p. cc (e, x.finish o (omega (arith, p, sum_of-Swap finishing sw))))
        (λ o. IsLossless-pull _ items v sw (x.lossless o))
  Work-IsExact n {s} v x (pull_end e sw) =
      worked s s.items (suc s.idx) s.results x sw refl (λ o p. e)
        (λ o. IsLossless-end _ items v sw e (λ k. refl) (x.lossless o))
  Work-IsExact n {s} v x (call_fn sw) =
      worked s s.items s.idx s.results x sw refl
        (λ o p. x.finish o (omega (arith, p, sum_of-Swap finishing sw)))
        (λ o. IsLossless-move _ items v sw (λ k. refl) (x.lossless o))
  Work-IsExact n {s} v x (send {c} {r} o l sw) =
      worked s s.items s.idx (s.results ++ (c, r) ∷ []) x sw refl
        (λ o p. x.finish o (omega (arith, p, sum_of-Swap finishing sw)))
        (λ o.
          IsLossless-deliver _ items v (s.yielded ++ (s.results ++ (c, r) ∷ [])) sw (λ k. refl)
            (λ k. sent_snoc zero_value fn items s c k r) (x.lossless o))
  Work-IsExact n {s} v x (crash c sw) = absurd (alive s x sw refl c)
  Work-IsExact n {s} v x (skip_broken b sw) =
      worked s s.items s.idx s.results x sw refl (λ o p. cc (b, o)) (λ o. cc (b, o))
  Work-IsExact n {s} v x (skip_canceled c sw) = absurd (alive s x sw refl (x.cancel_closed c))
  Work-IsExact n {s} v x (yield_more {y} {ys} k e) =
      let t = taken s y ys receiving x k e (λ h. h) in
      record {
        lossless = t.lossless;
        closed_idle = t.closed_idle;
        cancel_closed = t.cancel_closed;
        finish = t.finish;
        manned = t.manned;
        broken = x.broken;
        complete = λ h. absurd (subst IsComplete k h);
      }
  Work-IsExact n {s} v x (yield_last {y} {ys} k e) = taken s y ys refused x k e (λ h. h)
  Work-IsExact n {s} v x (break_early k) = record {
    lossless = λ h. cc;
    closed_idle = x.closed_idle;
    cancel_closed = x.cancel_closed;
    finish = λ h. cc;
    manned = x.manned;
    broken = λ h. tt;
    complete = λ h. absurd h;
  }
  Work-IsExact n {s} v x (drained k r c) = record {
    lossless = x.lossless;
    closed_idle = x.closed_idle;
    cancel_closed = x.cancel_closed;
    finish = x.finish;
    manned = x.manned;
    broken = λ h. absurd (subst IsPast k (x.broken h));
    complete = λ h. drained_all s v x k r c;
  }
  Work-IsExact n {s} v x (waited err k c) = record {
    lossless = x.lossless;
    closed_idle = x.closed_idle;
    cancel_closed = x.cancel_closed;
    finish = x.finish;
    manned = x.manned;
    broken = λ h. tt;
    complete = λ h. x.complete (subst IsComplete (sym k) tt);
  }
  Work-IsExact n {s} v x (idle_close f c) = record {
    lossless = x.lossless;
    closed_idle = λ h. f;
    cancel_closed = λ h. refl;
    finish = x.finish;
    manned = x.manned;
    broken = x.broken;
    complete = x.complete;
  }
  Work-IsExact n {s} v x (idle_cancel f c d) = record {
    lossless = x.lossless;
    closed_idle = x.closed_idle;
    cancel_closed = λ h. c;
    finish = x.finish;
    manned = x.manned;
    broken = x.broken;
    complete = x.complete;
  }

  start-Tally : (n : ℕ) → SystemTally zero_value fn items (start_unordered n items)
  start-Tally n =
      let (a, f, g, l) = repeat_idle (run_fn zero_value fn items) items n in
      record {
        rest = refl;
        busy = a;
        right = tt;
        once = λ c. omega (arith, f c);
        unseen = λ c le. omega (arith, f c);
      }

  start-IsExact : (n : ℕ) → 0 < n → IsExact (start_unordered n items)
  start-IsExact n p =
      let (a, f, g, l) = repeat_idle (run_fn zero_value fn items) items n in
      record {
        lossless = λ o c q. absurd (omega (arith, q));
        closed_idle = λ c. cc;
        cancel_closed = λ c. cc;
        finish = λ o q. absurd (omega (arith, q, g));
        manned = omega (arith, l, p);
        broken = λ h. cc;
        complete = λ h. absurd h;
      }

  Runs-IsExact :
      (n m : ℕ) {s : System T R}
      → 0 < n
      → Runs zero_value fn m (start_unordered n items) s
      → SystemTally zero_value fn items s × IsExact s
  Runs-IsExact n m p begin = (start-Tally n, start-IsExact n p)
  Runs-IsExact n m p (work r st) =
      let (v, x) = Runs-IsExact n m p r in
      (Work-Tally zero_value fn items m v st, Work-IsExact m v x st)

  Reach-Tally :
      (n m : ℕ) {s : System T R}
      → Reach zero_value fn m (start_unordered n items) s
      → SystemTally zero_value fn items s
  Reach-Tally n m start = start-Tally n
  Reach-Tally n m (works r st) = Work-Tally zero_value fn items m (Reach-Tally n m r) st
  Reach-Tally n m (cancels r) = Reach-Tally n m r
  Reach-Tally n m (expires r c) = Reach-Tally n m r

  -- Hard stops included, MapUnordered yields at most one result for each index, and each is what
  -- CallRE gives for the function at that item.
  pub yields_once :
      (n num_workers : ℕ) {s : System T R} (c : ℕ)
      → Reach zero_value fn num_workers (start_unordered n items) s
      → (occurs c s.yielded ≤ 1) × All (IsResult (run_fn zero_value fn items) items) s.yielded
  yields_once n m {s} c r =
      let v = Reach-Tally n m r in
      (
        omega (arith, v.once c, occurs-append c s.yielded s.results),
        All-prefix (IsResult (run_fn zero_value fn items) items) s.yielded s.results v.right,
      )

  -- With at least one worker and no hard stop, MapUnordered has yielded exactly one result for each
  -- item once the range over the sequence has come to its end.
  pub yields_each_once :
      (n num_workers : ℕ) {s : System T R} (c : ℕ)
      → 0 < n
      → Runs zero_value fn num_workers (start_unordered n items) s
      → s.consumer ≡ returned true
      → c < length items
      → (occurs c s.yielded ≡ 1) × All (IsResult (run_fn zero_value fn items) items) s.yielded
  yields_each_once n m {s} c p r k q =
      let (v, x) = Runs-IsExact n m p r in
      (
        x.complete (subst IsComplete (sym k) tt) c q,
        All-prefix (IsResult (run_fn zero_value fn items) items) s.yielded s.results v.right,
      )
