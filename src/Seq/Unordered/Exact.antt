-- ===== src/Seq/Unordered/Exact.antt =====
-- MapUnordered yields each result once (seq/map.go).
use go_stopper.Prelude.{
  ℕ, ◌+◌, ◌≡◌, refl, sym, ◌∙◌, ap, subst, true, List, [], ◌∷◌, ◌++◌, arith, if◌then◌else◌, ◌==◌,
  append_assoc,
}
use go_stopper.Safe.{Outcome, call_re}
use go_stopper.Prelude.Moves.{All-append, All, All_moving}
use go_stopper.Seq.Ordered.{Res}
use go_stopper.Seq.Tally.{
  occurs, IsResult, IsBusy, Tally, Tally-move, Tally-end, Tally-pull, Tally-deliver,
  sender-IsResult, wanted-found, occurs_snoc,
}
use go_stopper.Seq.Unordered.{
  Consumer, awaiting, returned, System, Work, check, exit, pull, pull_end, call_fn, send, crash,
  skip_broken, skip_canceled, yield_more, yield_last, break_early, drained, waited, idle_close,
  idle_cancel,
}

abbrev pub IsComplete : Consumer → Type 0
IsComplete awaiting = Unit
IsComplete (returned true) = Unit
IsComplete _ = ⊥

abbrev pub IsPast : Consumer → Type 0
IsPast (returned b) = Unit
IsPast _ = ⊥

-- What has left the workers.
abbrev pub sent : {T R : Type 0} → System T R → List (ℕ × Res R)
sent s = s.yielded ++ s.results

pub occurs-append :
    {S : Type 0} (c : ℕ) (xs ys : List (ℕ × S)) → occurs c (xs ++ ys) ≡ occurs c xs + occurs c ys
occurs-append c [] ys = omega arith
occurs-append c (x ∷ xs) ys = omega (arith, occurs-append c xs ys)

pub All-prefix : {A : Type 0} (P : A → Type 0) (xs ys : List A) → All P (xs ++ ys) → All P xs
All-prefix P [] ys a = tt
All-prefix P (x ∷ xs) ys (p, a) = (p, All-prefix P xs ys a)

module _ {T R : Type 0} (zero_value : R) (fn : ℕ → T → Outcome (Res R)) (items : List T) where
  abbrev pub run_fn : ℕ → T → Res R
  run_fn c x = call_re zero_value (fn c x)

  abbrev pub SystemTally : System T R → Type 0
  SystemTally s = Tally run_fn items s.items s.idx s.workers (sent s)

  -- One more result at the end of what was sent.
  pub sent_snoc :
      (s : System T R) (c k : ℕ) (r : Res R)
      → occurs k (s.yielded ++ (s.results ++ (c, r) ∷ []))
        ≡ occurs k (sent s) + (if c == k then 1 else 0)
  sent_snoc s c k r =
      ap (occurs k) (sym (append_assoc s.yielded s.results ((c, r) ∷ [])))
      ∙ occurs_snoc k c r (sent s)

  pub yield_moves :
      (s : System T R) (y : ℕ × Res R) (ys : List (ℕ × Res R))
      → s.results ≡ y ∷ ys
      → sent s ≡ (s.yielded ++ y ∷ []) ++ ys
  yield_moves s y ys e = ap (λ l. s.yielded ++ l) e ∙ sym (append_assoc s.yielded (y ∷ []) ys)

  pub Work-Tally :
      (n : ℕ) {s t : System T R} → SystemTally s → Work zero_value fn n s t → SystemTally t
  Work-Tally n v (check c sw) = Tally-move run_fn items v sw (λ c. omega arith) tt
  Work-Tally n v (exit c sw) = Tally-move run_fn items v sw (λ c. omega arith) tt
  Work-Tally n v (pull e sw) = Tally-pull run_fn items v e sw
  Work-Tally n v (pull_end e sw) = Tally-end run_fn items v sw e (λ c. omega arith) tt
  Work-Tally n v (call_fn {c} {x} sw) =
      Tally-move run_fn items v sw (λ k. omega arith)
        (wanted-found run_fn items c (All_moving (IsBusy run_fn items) sw v.busy))
  Work-Tally n {s} v (send {c} {r} o l sw) =
      Tally-deliver run_fn items v (s.yielded ++ (s.results ++ (c, r) ∷ [])) sw (λ k. refl) tt
        (λ k. sent_snoc s c k r)
        (subst (All (IsResult run_fn items)) (append_assoc s.yielded s.results ((c, r) ∷ [])) (
          All-append (IsResult run_fn items) (sent s) ((c, r) ∷ []) v.right
            (sender-IsResult run_fn items v sw, tt)))
  Work-Tally n v (crash c sw) = Tally-move run_fn items v sw (λ c. omega arith) tt
  Work-Tally n v (skip_broken c sw) = Tally-move run_fn items v sw (λ c. omega arith) tt
  Work-Tally n v (skip_canceled c sw) = Tally-move run_fn items v sw (λ c. omega arith) tt
  Work-Tally n {s} v (yield_more {y} {ys} k e) =
      subst (Tally run_fn items s.items s.idx s.workers) (yield_moves s y ys e) v
  Work-Tally n {s} v (yield_last {y} {ys} k e) =
      subst (Tally run_fn items s.items s.idx s.workers) (yield_moves s y ys e) v
  Work-Tally n v (break_early k) = v
  Work-Tally n v (drained k r c) = v
  Work-Tally n v (waited err k c) = v
  Work-Tally n v (idle_close f c) = v
  Work-Tally n v (idle_cancel f c d) = v
