-- ===== src/Seq/Ordered/Served.antt =====
-- Every return channel that the consumer meets gets its result (seq/map.go).
use go_stopper.Prelude.{
  ℕ, ◌+◌, ◌≤◌, ◌<◌, ◌≡◌, refl, sym, subst, Bool, true, false, List, [], ◌∷◌, ◌++◌, Option, arith,
  append_assoc, if◌then◌else◌, ◌==◌,
}
use go_stopper.Errors.{Error}
use go_stopper.Safe.{Outcome}
use go_stopper.Prelude.Moves.{Swap, All, sum_of, sum_of-Swap}
use go_stopper.Seq.Worker.{Worker, looping, calling, sending}
use go_stopper.Seq.Ordered.{
  Res, System, Consumer, receiving, waiting, awaiting, refused, leaving, returned, Work, check,
  exit, pull, pull_end, enqueue, crash, skip_broken, skip_canceled, call_fn, send, receive,
  yield_more, yield_last, break_early, drained, waited, leave, idle_close, idle_cancel,
}
use go_stopper.Seq.Ordered.Invariant.{pending}
use go_stopper.Seq.Ordered.Exact.{IsComplete}

-- A worker that is to send on the return channel of an index.
abbrev pub in_flight : {T S : Type 0} → ℕ → Worker T S → ℕ
in_flight c (calling k x) = if k == c then 1 else 0
in_flight c (sending k r) = if k == c then 1 else 0
in_flight c _ = 0

abbrev pub filled_at : {S : Type 0} → ℕ → List (ℕ × S) → ℕ
filled_at c [] = 0
filled_at c ((k, r) ∷ cs) = if k == c then 1 else filled_at c cs

abbrev pub weight : {T S : Type 0} → List (Worker T S) → List (ℕ × S) → ℕ → ℕ
weight ws cells c = sum_of (in_flight c) ws + filled_at c cells

abbrev pub AllServed : {T S : Type 0} → List (Worker T S) → List (ℕ × S) → List ℕ → Type 0
AllServed ws cells = All (λ c. 0 < weight ws cells c)

abbrev pub IsBroken : Consumer → Type 0
IsBroken (leaving false) = Unit
IsBroken _ = ⊥

module _ {T R : Type 0} where
  keep_served :
      (ws ws' : List (Worker T (Res R))) (cs cs' : List (ℕ × Res R))
      → ((c : ℕ) → 0 < weight ws cs c → 0 < weight ws' cs' c)
      → (l : List ℕ) → AllServed ws cs l
      → AllServed ws' cs' l
  keep_served ws ws' cs cs' h [] a = tt
  keep_served ws ws' cs cs' h (c ∷ l) (p, a) = (h c p, keep_served ws ws' cs cs' h l a)

  AllServed-append :
      (ws : List (Worker T (Res R))) (cs : List (ℕ × Res R)) (l m : List ℕ)
      → AllServed ws cs l
      → AllServed ws cs m
      → AllServed ws cs (l ++ m)
  AllServed-append ws cs [] m a b = b
  AllServed-append ws cs (c ∷ l) m (p, a) b = (p, AllServed-append ws cs l m a b)

  pub record IsServed (s : System T R) : Type 0 where
    pub served : AllServed s.workers s.cells (pending s.consumer ++ s.results)
    pub broke : IsBroken s.consumer → s.early_break ≡ true
    pub complete : IsComplete s.consumer → s.closed ≡ true

  -- A worker that moves and takes no result away.
  swapped :
      (s : System T R) {w w' : Worker T (Res R)} {ws : List (Worker T (Res R))}
      → IsServed s
      → Swap w w' s.workers ws
      → ((c : ℕ) → in_flight c w ≤ in_flight c w')
      → IsServed (record s { workers = ws })
  swapped s {w} {w'} {ws} v sw h = record {
    served =
        keep_served s.workers ws s.cells s.cells
          (λ c p. omega (arith, p, h c, sum_of-Swap (in_flight c) sw))
          (pending s.consumer ++ s.results) v.served;
    broke = v.broke;
    complete = v.complete;
  }

  send_keeps :
      (c k : ℕ) (r : Res R) (ws ws' : List (Worker T (Res R))) (cs : List (ℕ × Res R))
      → Swap (sending k r) looping ws ws'
      → 0 < weight ws cs c
      → 0 < weight ws' ((k, r) ∷ cs) c
  send_keeps c k r ws ws' cs sw p = ground (arith, p, sum_of-Swap (in_flight c) sw)

  -- The consumer moves.
  passed :
      (s : System T R) (cs : List ℕ) (k : Consumer) (ys : List (ℕ × Res R)) (err : Option Error)
      (b : Bool)
      → AllServed s.workers s.cells (pending k ++ cs)
      → (IsBroken k → b ≡ true)
      → (IsComplete k → s.closed ≡ true)
      → IsServed
          (record s { results = cs; consumer = k; yielded = ys; extra = err; early_break = b })
  passed s cs k ys err b a h c = record { served = a; broke = h; complete = c }

  pub Work-IsServed :
      (zero_value : R) (fn : ℕ → T → Outcome (Res R)) (num_workers : ℕ) {s t : System T R}
      → IsServed s
      → Work zero_value fn num_workers s t
      → IsServed t
  Work-IsServed z fn n {s} v (check c sw) = swapped s v sw (λ c. omega arith)
  Work-IsServed z fn n {s} v (exit c sw) = swapped s v sw (λ c. omega arith)
  Work-IsServed z fn n {s} v (pull l e sw) =
      let m = swapped s v sw (λ c. omega arith) in
      record { served = m.served; broke = m.broke; complete = m.complete }
  Work-IsServed z fn n {s} v (pull_end l e sw) =
      let m = swapped s v sw (λ c. omega arith) in
      record { served = m.served; broke = m.broke; complete = m.complete }
  Work-IsServed z fn n {s} v (enqueue {c} {x} {ws} o l sw) =
      let m = swapped s v sw (λ c. omega arith) in
      record {
        served =
            subst (AllServed ws s.cells) (append_assoc (pending s.consumer) s.results (c ∷ [])) (
              AllServed-append ws s.cells (pending s.consumer ++ s.results) (c ∷ []) m.served
                (ground (arith, sum_of-Swap (in_flight c) sw), tt));
        broke = m.broke;
        complete = m.complete;
      }
  Work-IsServed z fn n {s} v (crash c sw) = swapped s v sw (λ c. omega arith)
  Work-IsServed z fn n {s} v (skip_broken c sw) =
      let m = swapped s v sw (λ c. omega arith) in
      record { served = m.served; broke = m.broke; complete = m.complete }
  Work-IsServed z fn n {s} v (skip_canceled c sw) =
      let m = swapped s v sw (λ c. omega arith) in
      record { served = m.served; broke = m.broke; complete = m.complete }
  Work-IsServed z fn n {s} v (call_fn sw) = swapped s v sw (λ c. omega arith)
  Work-IsServed z fn n {s} v (send {c} {r} {ws} sw) = record {
    served =
        keep_served s.workers ws s.cells ((c, r) ∷ s.cells)
          (λ k. send_keeps k c r s.workers ws s.cells sw) (pending s.consumer ++ s.results)
          v.served;
    broke = v.broke;
    complete = v.complete;
  }
  Work-IsServed z fn n {s} v (receive {c} {cs} k e) =
      let same : pending s.consumer ++ s.results ≡ c ∷ cs = rw (k, e) refl in
      passed s cs (waiting c) s.yielded s.extra s.early_break
        (subst (AllServed s.workers s.cells) same v.served) (λ h. absurd h) (λ h. absurd h)
  Work-IsServed z fn n {s} v (yield_more {c} {r} k e) =
      let a = subst (λ q. AllServed s.workers s.cells (pending q ++ s.results)) k v.served in
      passed s s.results receiving (s.yielded ++ (c, r) ∷ []) s.extra s.early_break a.1
        (λ h. absurd h) (λ h. absurd h)
  Work-IsServed z fn n {s} v (yield_last {c} {r} k e) =
      let a = subst (λ q. AllServed s.workers s.cells (pending q ++ s.results)) k v.served in
      passed s s.results refused (s.yielded ++ (c, r) ∷ []) s.extra s.early_break a.1
        (λ h. absurd h) (λ h. absurd h)
  Work-IsServed z fn n {s} v (break_early k) =
      passed s s.results (leaving false) s.yielded s.extra true
        (subst (λ q. AllServed s.workers s.cells (pending q ++ s.results)) k v.served) (λ h. refl)
        (λ h. absurd h)
  Work-IsServed z fn n {s} v (drained k r c) =
      passed s s.results awaiting s.yielded s.extra s.early_break
        (subst (λ q. AllServed s.workers s.cells (pending q ++ s.results)) k v.served)
        (λ h. absurd h) (λ h. c)
  Work-IsServed z fn n {s} v (waited err k c) =
      passed s s.results (leaving true) s.yielded err s.early_break
        (subst (λ q. AllServed s.workers s.cells (pending q ++ s.results)) k v.served)
        (λ h. absurd h) (λ h. v.complete (subst IsComplete (sym k) tt))
  Work-IsServed z fn n {s} v (leave {b = true} k l) =
      passed s s.results (returned true) s.yielded s.extra s.early_break
        (subst (λ q. AllServed s.workers s.cells (pending q ++ s.results)) k v.served)
        (λ h. absurd h) (λ h. v.complete (subst IsComplete (sym k) tt))
  Work-IsServed z fn n {s} v (leave {b = false} k l) =
      passed s s.results (returned false) s.yielded s.extra s.early_break
        (subst (λ q. AllServed s.workers s.cells (pending q ++ s.results)) k v.served)
        (λ h. absurd h) (λ h. absurd h)
  Work-IsServed z fn n {s} v (idle_close f c) = record {
    served = v.served;
    broke = v.broke;
    complete = λ h. refl;
  }
  Work-IsServed z fn n {s} v (idle_cancel f c d) = record {
    served = v.served;
    broke = v.broke;
    complete = v.complete;
  }
