-- ===== src/Seq/Unordered.antt =====
-- MapUnordered and MapUnordered2 of seq/map.go: results in the order in which they are ready.
pub mod Exact
pub mod Complete
use go_stopper.Prelude.{
  ℕ, suc, ◌<◌, ◌≡◌, Bool, true, false, List, [], ◌∷◌, ◌++◌, Option, none, some, length,
}
use go_stopper.Errors.{Error}
use go_stopper.Safe.{Outcome, call_re}
use go_stopper.Prelude.Moves.{Swap, All}
use go_stopper.Seq.Worker.{Worker, looping, checked, calling, sending, ended, crashed}
use go_stopper.Seq.Ordered.{Res, repeat, IsFinished, pairwise}

-- The goroutine that ranges over the sequence: yieldUnordered and what follows it.
pub data Consumer : Type 0 where
  receiving : Consumer
  awaiting : Consumer  -- before s.Wait
  refused : Consumer  -- before close(earlyBreak)
  returned : Bool → Consumer  -- with the result of yieldUnordered

pub record System (T R : Type 0) : Type 0 where
  pub items : List T
  pub idx : ℕ
  pub workers : List (Worker T (Res R))
  pub results : List (ℕ × Res R)
  pub consumer : Consumer
  pub yielded : List (ℕ × Res R)
  pub extra : Option Error
  pub early_break : Bool
  pub closed : Bool
  pub canceled : Bool

-- The state once `n` workers have been started.
abbrev pub start_unordered : {T R : Type 0} → ℕ → List T → System T R
start_unordered n items = record {
  items = items;
  idx = 0;
  workers = repeat n looping;
  results = [];
  consumer = receiving;
  yielded = [];
  extra = none;
  early_break = false;
  closed = false;
  canceled = false;
}

module _ {T R : Type 0} (zero_value : R) (fn : ℕ → T → Outcome (Res R)) (num_workers : ℕ) where
  -- Nothing can block under nextMu, so that a pull is one move.
  pub data Work (s : System T R) : System T R → Type 0 where
    check :
        {ws : List (Worker T (Res R))}
        → s.canceled ≡ false
        → Swap looping checked s.workers ws
        → Work s (record s { workers = ws })
    exit :
        {err : Error} {ws : List (Worker T (Res R))}
        → s.canceled ≡ true
        → Swap looping (ended (some err)) s.workers ws
        → Work s (record s { workers = ws })
    pull :
        {x : T} {xs : List T} {ws : List (Worker T (Res R))}
        → s.items ≡ x ∷ xs
        → Swap checked (calling s.idx x) s.workers ws
        → Work s (record s { items = xs; idx = suc s.idx; workers = ws })
    pull_end :
        {ws : List (Worker T (Res R))}
        → s.items ≡ []
        → Swap checked (ended none) s.workers ws
        → Work s (record s { idx = suc s.idx; workers = ws })
    call_fn :
        {c : ℕ} {x : T} {ws : List (Worker T (Res R))}
        → Swap (calling c x) (sending c (call_re zero_value (fn c x))) s.workers ws
        → Work s (record s { workers = ws })
    send :
        {c : ℕ} {r : Res R} {ws : List (Worker T (Res R))}
        → s.closed ≡ false
        → length s.results < num_workers
        → Swap (sending c r) looping s.workers ws
        → Work s (record s { results = s.results ++ (c, r) ∷ []; workers = ws })
    crash :
        {c : ℕ} {r : Res R} {ws : List (Worker T (Res R))}
        → s.closed ≡ true
        → Swap (sending c r) crashed s.workers ws
        → Work s (record s { workers = ws })
    skip_broken :
        {c : ℕ} {r : Res R} {ws : List (Worker T (Res R))}
        → s.early_break ≡ true
        → Swap (sending c r) (ended none) s.workers ws
        → Work s (record s { workers = ws })
    skip_canceled :
        {c : ℕ} {r : Res R} {ws : List (Worker T (Res R))}
        → s.canceled ≡ true
        → Swap (sending c r) looping s.workers ws
        → Work s (record s { workers = ws })
    -- The receive of a result and the call of yield, which goes on or breaks.
    yield_more :
        {y : ℕ × Res R} {ys : List (ℕ × Res R)}
        → s.consumer ≡ receiving
        → s.results ≡ y ∷ ys
        → Work s (record s { results = ys; yielded = s.yielded ++ y ∷ [] })
    yield_last :
        {y : ℕ × Res R} {ys : List (ℕ × Res R)}
        → s.consumer ≡ receiving
        → s.results ≡ y ∷ ys
        → Work s (record s { results = ys; yielded = s.yielded ++ y ∷ []; consumer = refused })
    break_early :
        s.consumer ≡ refused → Work s (record s { early_break = true; consumer = returned false })
    drained :
        s.consumer ≡ receiving
        → s.results ≡ []
        → s.closed ≡ true
        → Work s (record s { consumer = awaiting })
    -- s.Wait ends once the context is done; its error is yielded as an extra element.
    waited :
        (err : Option Error)
        → s.consumer ≡ awaiting
        → s.canceled ≡ true
        → Work s (record s { consumer = returned true; extra = err })
    -- The stop on idle closes the channel, and then the context is canceled.
    idle_close : All IsFinished s.workers → s.closed ≡ false → Work s (record s { closed = true })
    idle_cancel :
        All IsFinished s.workers
        → s.closed ≡ true
        → s.canceled ≡ false
        → Work s (record s { canceled = true })

  -- Runs that nothing interrupts.
  pub data Runs (s : System T R) : System T R → Type 0 where
    begin : Runs s s
    work : {t u : System T R} → Runs s t → Work t u → Runs s u

  -- Runs in which a parent may be canceled, or a grace period expire, at any time.
  pub data Reach (s : System T R) : System T R → Type 0 where
    start : Reach s s
    works : {t u : System T R} → Reach s t → Work t u → Reach s u
    cancels : {t : System T R} → Reach s t → Reach s (record t { canceled = true })
    expires : {t : System T R} → Reach s t → t.closed ≡ false → Reach s (record t { closed = true })

-- MapUnordered2: the items are pairs.
module _ {K V R : Type 0} (zero_value : R) (fn : ℕ → K → V → Outcome (Res R))
    (num_workers : ℕ) where
  abbrev pub WorkUnordered2 : System (K × V) R → System (K × V) R → Type 0
  WorkUnordered2 = Work zero_value (pairwise fn) num_workers
