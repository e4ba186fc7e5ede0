-- ===== src/Seq/Each/Exact.antt =====
-- ForEach calls the function for each item (seq/each.go).
use go_stopper.Prelude.{
  ℕ, ◌+◌, ◌≤◌, ◌<◌, ◌≡◌, refl, sym, ◌∙◌, ap, false, List, [], ◌∷◌, ◌++◌, Option, none, some, arith,
  length, get_elem?, drop-cons, ◌==◌, ==_iff, Bool-cases, Option-cases, inl, inr, length-le_of_drop,
  drop-get_elem?,
}
use go_stopper.Errors.{Error}
use go_stopper.Safe.{Outcome, call_e}
use go_stopper.Prelude.Moves.{All-append, All, sum_of, sum_of-Swap, All_moving, length-Swap}
use go_stopper.Seq.Worker.{Worker, ended}
use go_stopper.Seq.Ordered.{finishing, IsFinished}
use go_stopper.Seq.Tally.{
  in_flight, occurs, wanted, IsResult, IsBusy, Tally, IsLossless, Tally-move, IsLossless-move,
  IsLossless-end, Tally-end, Tally-pull, IsLossless-pull, Tally-deliver, IsLossless-deliver,
  sender-IsResult, wanted-found, occurs_snoc, repeat_idle, finished_idle,
}
use go_stopper.Seq.Each.{
  Pool, added, start_each, Work, Reach, check, exit, pull, pull_end, call_fn, report, start, works,
  cancels,
}

-- A worker that has left its loop because there were no more items.
abbrev pub stopping_short : {T S : Type 0} → Worker T S → ℕ
stopping_short (ended (some e)) = 1
stopping_short _ = 0

module _ {T : Type 0} (fn : ℕ → T → Outcome (Option Error)) (items : List T) where
  abbrev pub run_fn : ℕ → T → Option Error
  run_fn c x = call_e (fn c x)

  abbrev pub PoolTally : Pool T → Type 0
  PoolTally s = Tally run_fn items s.items s.idx s.workers s.done

  Work-Tally : {s t : Pool T} → PoolTally s → Work fn s t → PoolTally t
  Work-Tally v (check c sw) = Tally-move run_fn items v sw (λ c. omega arith) tt
  Work-Tally v (exit c sw) = Tally-move run_fn items v sw (λ c. omega arith) tt
  Work-Tally v (pull e sw) = Tally-pull run_fn items v e sw
  Work-Tally v (pull_end e sw) = Tally-end run_fn items v sw e (λ c. omega arith) tt
  Work-Tally v (call_fn {c} {x} sw) =
      Tally-move run_fn items v sw (λ k. omega arith)
        (wanted-found run_fn items c (All_moving (IsBusy run_fn items) sw v.busy))
  Work-Tally {s} v (report {c} {err} sw) =
      Tally-deliver run_fn items v (s.done ++ (c, err) ∷ []) sw (λ k. refl) tt
        (λ k. occurs_snoc k c err s.done)
        (All-append (IsResult run_fn items) s.done ((c, err) ∷ []) v.right
          (sender-IsResult run_fn items v sw, tt))

  -- Without a cancellation nothing is lost, and a worker ends only when the items do.
  pub record IsWhole (s : Pool T) : Type 0 where
    pub lossless : s.canceled ≡ false → IsLossless run_fn items s.idx s.workers s.done
    pub finish : s.canceled ≡ false → 0 < sum_of finishing s.workers → s.items ≡ []
    pub manned : 0 < length s.workers

  Work-IsWhole : {s t : Pool T} → PoolTally s → IsWhole s → Work fn s t → IsWhole t
  Work-IsWhole v x (check c sw) = record {
    lossless = λ o. IsLossless-move run_fn items v sw (λ k. refl) (x.lossless o);
    finish = λ o p. x.finish o (omega (arith, p, sum_of-Swap finishing sw));
    manned = omega (arith, x.manned, length-Swap sw);
  }
  Work-IsWhole v x (exit c sw) = record {
    lossless = λ o. absurd (cc (o, c));
    finish = λ o. absurd (cc (o, c));
    manned = omega (arith, x.manned, length-Swap sw);
  }
  Work-IsWhole v x (pull e sw) = record {
    lossless = λ o. IsLossless-pull run_fn items v sw (x.lossless o);
    finish = λ o p. cc (e, x.finish o (omega (arith, p, sum_of-Swap finishing sw)));
    manned = omega (arith, x.manned, length-Swap sw);
  }
  Work-IsWhole v x (pull_end e sw) = record {
    lossless = λ o. IsLossless-end run_fn items v sw e (λ k. refl) (x.lossless o);
    finish = λ o p. e;
    manned = omega (arith, x.manned, length-Swap sw);
  }
  Work-IsWhole v x (call_fn sw) = record {
    lossless = λ o. IsLossless-move run_fn items v sw (λ k. refl) (x.lossless o);
    finish = λ o p. x.finish o (omega (arith, p, sum_of-Swap finishing sw));
    manned = omega (arith, x.manned, length-Swap sw);
  }
  Work-IsWhole {s} v x (report {c} {err} sw) = record {
    lossless = λ o.
        IsLossless-deliver run_fn items v (s.done ++ (c, err) ∷ []) sw (λ k. refl)
          (λ k. occurs_snoc k c err s.done) (x.lossless o);
    finish = λ o p. x.finish o (omega (arith, p, sum_of-Swap finishing sw));
    manned = omega (arith, x.manned, length-Swap sw);
  }

  Reach-Tally :
      (n : ℕ) {s : Pool T} → 0 < n → Reach fn (start_each n items) s → PoolTally s × IsWhole s
  Reach-Tally n p start =
      let (a, f, g, l) = repeat_idle run_fn items n in
      (
        record {
          rest = refl;
          busy = a;
          right = tt;
          once = λ c. omega (arith, f c);
          unseen = λ c le. omega (arith, f c);
        },
        record {
          lossless = λ o c q. absurd (omega (arith, q));
          finish = λ o q. absurd (omega (arith, q, g));
          manned = omega (arith, l, p);
        },
      )
  Reach-Tally n p (works r st) =
      let (v, x) = Reach-Tally n p r in (Work-Tally v st, Work-IsWhole v x st)
  Reach-Tally n p (cancels r) =
      let (v, x) = Reach-Tally n p r in
      (
        record { rest = v.rest; busy = v.busy; right = v.right; once = v.once; unseen = v.unseen },
        record { lossless = λ o. cc; finish = λ o. cc; manned = x.manned },
      )

  -- How many errors an item is to cause.
  abbrev pub failures : ℕ → ℕ
  failures c = elim (wanted run_fn items c) [ some (some e) ↦ 1 | _ ↦ 0 ]

  occurs-added_failed :
      (c : ℕ) (e : Error) (done : List (ℕ × Option Error))
      → wanted run_fn items c ≡ some (some e)
      → All (IsResult run_fn items) done
      → occurs c (added done) ≡ occurs c done
  unfolding added
  occurs-added_failed c e [] h a = refl
  occurs-added_failed c e ((k, none) ∷ done) h (p, a) = elim (Bool-cases (k == c)) [
    | inl eq ↦ absurd (cc (p, h, ap (wanted run_fn items) ((==_iff k c).0 eq)))
    | inr ne ↦ rw ne (omega (arith, occurs-added_failed c e done h a))
  ]
  occurs-added_failed c e ((k, some e') ∷ done) h (p, a) =
      omega (arith, occurs-added_failed c e done h a)

  occurs-added_fine :
      (c : ℕ) (done : List (ℕ × Option Error))
      → wanted run_fn items c ≡ some none
      → All (IsResult run_fn items) done
      → occurs c (added done) ≡ 0
  unfolding added
  occurs-added_fine c [] h a = refl
  occurs-added_fine c ((k, none) ∷ done) h (p, a) = occurs-added_fine c done h a
  occurs-added_fine c ((k, some e) ∷ done) h (p, a) = elim (Bool-cases (k == c)) [
    | inl eq ↦ absurd (cc (p, h, ap (wanted run_fn items) ((==_iff k c).0 eq)))
    | inr ne ↦ rw ne (omega (arith, occurs-added_fine c done h a))
  ]

  occurs-added :
      (c : ℕ) {x : T} (done : List (ℕ × Option Error))
      → get_elem? items c ≡ some x
      → All (IsResult run_fn items) done
      → occurs c done ≡ 1
      → occurs c (added done) ≡ failures c
  occurs-added c {x} done h a once = elim (Option-cases (call_e (fn c x))) [
    | inl fine ↦
        let w = wanted-found run_fn items c h ∙ ap some fine in
        occurs-added_fine c done w a ∙ ground (arith, w)
    | inr (e, failed) ↦
        let w = wanted-found run_fn items c h ∙ ap some failed in
        occurs-added_failed c e done w a ∙ once ∙ ground (arith, w)
  ]

  added-IsResult :
      (done : List (ℕ × Option Error))
      → All (IsResult run_fn items) done
      → All (λ (c, e). wanted run_fn items c ≡ some (some e)) (added done)
  unfolding added
  added-IsResult [] a = tt
  added-IsResult ((k, none) ∷ done) (p, a) = added-IsResult done a
  added-IsResult ((k, some e) ∷ done) (p, a) = (p, added-IsResult done a)

  -- If the context is not canceled, then once the tasks of ForEach are over (there is at least one)
  -- the function has been called exactly once for each item, with the item's own index, and the
  -- errors added are those that CallE gives for these calls: one for an item whose call fails, none
  -- for any other item.
  pub for_each_exact :
      (n : ℕ) {s : Pool T} (c : ℕ) (x : T)
      → 0 < n
      → Reach fn (start_each n items) s
      → s.canceled ≡ false
      → All IsFinished s.workers
      → get_elem? items c ≡ some x
      → (occurs c s.done ≡ 1)
        × (occurs c (added s.done) ≡ failures c)
        × All (λ (k, e). wanted run_fn items k ≡ some (some e)) (added s.done)
  for_each_exact n {s} c x p r o f h =
      let (v, whole) = Reach-Tally n p r in
      let (idle, over) = finished_idle c s.workers f in
      let none_left = whole.finish o (omega (arith, over, whole.manned)) in
      let last = length-le_of_drop s.idx items (sym v.rest ∙ none_left) in
      let (at, rest, len) = drop-cons c items (drop-get_elem? c items h) in
      let once : occurs c s.done ≡ 1 =
        omega (arith, whole.lossless o c (omega (arith, len, last)) (omega (arith, len)), idle) in
      (once, occurs-added c s.done h v.right once, added-IsResult s.done v.right)

  -- Cancellation or not, ForEach never calls the function twice for an item.
  pub for_each_once :
      (n : ℕ) {s : Pool T} (c : ℕ)
      → 0 < n
      → Reach fn (start_each n items) s
      → occurs c s.done + sum_of (in_flight c) s.workers ≤ 1
  for_each_once n c p r = (Reach-Tally n p r).0.once c
