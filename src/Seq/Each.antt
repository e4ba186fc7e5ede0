-- ===== src/Seq/Each.antt =====
-- ForEach and ForEach2 of seq/each.go.
pub mod Exact
use go_stopper.Prelude.{ℕ, suc, ◌≡◌, true, false, List, [], ◌∷◌, ◌++◌, Option, none, some, Bool}
use go_stopper.Errors.{Error}
use go_stopper.Safe.{Outcome, call_e}
use go_stopper.Prelude.Moves.{Swap}
use go_stopper.Seq.Worker.{Worker, looping, checked, calling, sending, ended}
use go_stopper.Seq.Ordered.{repeat, pairwise}

-- `done` has the calls of the function that are over, with what CallE gave.
pub record Pool (T : Type 0) : Type 0 where
  pub items : List T
  pub idx : ℕ
  pub workers : List (Worker T (Option Error))
  pub done : List (ℕ × Option Error)
  pub canceled : Bool

-- The errors that ctx.AddError gets, each with the index that decorates it.
unfoldable pub added : List (ℕ × Option Error) → List (ℕ × Error)
added [] = []
added ((c, none) ∷ rs) = added rs
added ((c, some e) ∷ rs) = (c, e) ∷ added rs

-- The state once `n` workers have been started.
abbrev pub start_each : {T : Type 0} → ℕ → List T → Pool T
start_each n items = record {
  items = items;
  idx = 0;
  workers = repeat n looping;
  done = [];
  canceled = false;
}

module _ {T : Type 0} (fn : ℕ → T → Outcome (Option Error)) where
  -- Nothing can block under nextMu, so that a pull is one move.
  pub data Work (s : Pool T) : Pool T → Type 0 where
    check :
        {ws : List (Worker T (Option Error))}
        → s.canceled ≡ false
        → Swap looping checked s.workers ws
        → Work s (record s { workers = ws })
    exit :
        {err : Error} {ws : List (Worker T (Option Error))}
        → s.canceled ≡ true
        → Swap looping (ended (some err)) s.workers ws
        → Work s (record s { workers = ws })
    pull :
        {x : T} {xs : List T} {ws : List (Worker T (Option Error))}
        → s.items ≡ x ∷ xs
        → Swap checked (calling s.idx x) s.workers ws
        → Work s (record s { items = xs; idx = suc s.idx; workers = ws })
    pull_end :
        {ws : List (Worker T (Option Error))}
        → s.items ≡ []
        → Swap checked (ended none) s.workers ws
        → Work s (record s { idx = suc s.idx; workers = ws })
    call_fn :
        {c : ℕ} {x : T} {ws : List (Worker T (Option Error))}
        → Swap (calling c x) (sending c (call_e (fn c x))) s.workers ws
        → Work s (record s { workers = ws })
    report :
        {c : ℕ} {err : Option Error} {ws : List (Worker T (Option Error))}
        → Swap (sending c err) looping s.workers ws
        → Work s (record s { workers = ws; done = s.done ++ (c, err) ∷ [] })

  -- The context may be canceled at any time.
  pub data Reach (s : Pool T) : Pool T → Type 0 where
    start : Reach s s
    works : {t u : Pool T} → Reach s t → Work t u → Reach s u
    cancels : {t : Pool T} → Reach s t → Reach s (record t { canceled = true })

-- ForEach2: the items are pairs.
module _ {K V : Type 0} (fn : ℕ → K → V → Outcome (Option Error)) where
  abbrev pub WorkEach2 : Pool (K × V) → Pool (K × V) → Type 0
  WorkEach2 = Work (pairwise fn)
