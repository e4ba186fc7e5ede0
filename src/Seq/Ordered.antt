-- ===== src/Seq/Ordered.antt =====
-- Map and Map2 of seq/map.go: results in the order of the items.
-- `n` workers, the channel of return channels and the consumer are one state. Each move is what a
-- goroutine does up to its next access of something shared.
pub mod Invariant
pub mod Exact
pub mod Complete
pub mod Lock
pub mod Served
pub mod Size
pub mod Progress
use go_stopper.Prelude.{
  ℕ, zero, suc, ◌<◌, ◌≡◌, Bool, true, false, List, [], ◌∷◌, ◌++◌, Option, none, some, length, ◌==◌,
  if◌then◌else◌,
}
use go_stopper.Errors.{Error}
use go_stopper.Safe.{Outcome, call_re}
use go_stopper.Prelude.Moves.{Swap, All}
use go_stopper.Seq.Worker.{Worker, looping, checked, enqueuing, calling, sending, ended, crashed}

abbrev pub Res : Type 0 → Type 0
Res R = R × Option Error

-- The goroutine that ranges over the sequence: yieldOrdered and what follows it in Map.
pub data Consumer : Type 0 where
  receiving : Consumer  -- the range over the results
  waiting : ℕ → Consumer  -- before the receive of a result, from its return channel
  awaiting : Consumer  -- before s.Wait
  refused : Consumer  -- before close(earlyBreak)
  leaving : Bool → Consumer  -- before the deferred nextMu.Lock, with the result of yieldOrdered
  returned : Bool → Consumer

-- A return channel goes by the index of its item. `cells` has what was sent to each; its capacity
-- of one is never exceeded. `yielded` has what was yielded, with the return channel it came from.
pub record System (T R : Type 0) : Type 0 where
  pub items : List T
  pub idx : ℕ
  pub locked : Bool
  pub workers : List (Worker T (Res R))
  pub results : List ℕ
  pub cells : List (ℕ × Res R)
  pub consumer : Consumer
  pub yielded : List (ℕ × Res R)
  pub extra : Option Error
  pub early_break : Bool
  pub closed : Bool
  pub canceled : Bool

abbrev pub repeat : {A : Type 0} → ℕ → A → List A
repeat zero x = []
repeat (suc n) x = x ∷ repeat n x

-- The state once `n` workers have been started.
abbrev pub start_map : {T R : Type 0} → ℕ → List T → System T R
start_map n items = record {
  items = items;
  idx = 0;
  locked = false;
  workers = repeat n looping;
  results = [];
  cells = [];
  consumer = receiving;
  yielded = [];
  extra = none;
  early_break = false;
  closed = false;
  canceled = false;
}

abbrev pub cell : {S : Type 0} → ℕ → List (ℕ × S) → Option S
cell c [] = none
cell c ((k, r) ∷ cs) = if k == c then some r else cell c cs

-- The task of the worker is over; a panic is one way for it to end.
abbrev pub finishing : {T S : Type 0} → Worker T S → ℕ
finishing (ended e) = 1
finishing crashed = 1
finishing _ = 0

abbrev pub IsFinished : {T S : Type 0} → Worker T S → Type 0
IsFinished w = finishing w ≡ 1

module _ {T R : Type 0} (zero_value : R) (fn : ℕ → T → Outcome (Res R)) (num_workers : ℕ) where
  -- The moves of the workers and of the consumer.
  pub data Work (s : System T R) : System T R → Type 0 where
    check :
        {ws : List (Worker T (Res R))}
        → s.canceled ≡ false
        → Swap looping checked s.workers ws
        → Work s (record s { workers = ws })
    exit :
        {err : Error} {ws : List (Worker T (Res R))}
        → s.canceled ≡ true
        → Swap looping (ended (some err)) s.workers ws
        → Work s (record s { workers = ws })
    pull :
        {x : T} {xs : List T} {ws : List (Worker T (Res R))}
        → s.locked ≡ false
        → s.items ≡ x ∷ xs
        → Swap checked (enqueuing s.idx x) s.workers ws
        → Work s (record s { items = xs; idx = suc s.idx; locked = true; workers = ws })
    pull_end :
        {ws : List (Worker T (Res R))}
        → s.locked ≡ false
        → s.items ≡ []
        → Swap checked (ended none) s.workers ws
        → Work s (record s { idx = suc s.idx; workers = ws })
    enqueue :
        {c : ℕ} {x : T} {ws : List (Worker T (Res R))}
        → s.closed ≡ false
        → length s.results < num_workers
        → Swap (enqueuing c x) (calling c x) s.workers ws
        → Work s (record s { locked = false; results = s.results ++ c ∷ []; workers = ws })
    -- A send on a closed channel panics; nextMu stays locked.
    crash :
        {c : ℕ} {x : T} {ws : List (Worker T (Res R))}
        → s.closed ≡ true
        → Swap (enqueuing c x) crashed s.workers ws
        → Work s (record s { workers = ws })
    skip_broken :
        {c : ℕ} {x : T} {ws : List (Worker T (Res R))}
        → s.early_break ≡ true
        → Swap (enqueuing c x) (ended none) s.workers ws
        → Work s (record s { locked = false; workers = ws })
    skip_canceled :
        {c : ℕ} {x : T} {ws : List (Worker T (Res R))}
        → s.canceled ≡ true
        → Swap (enqueuing c x) (ended none) s.workers ws
        → Work s (record s { locked = false; workers = ws })
    call_fn :
        {c : ℕ} {x : T} {ws : List (Worker T (Res R))}
        → Swap (calling c x) (sending c (call_re zero_value (fn c x))) s.workers ws
        → Work s (record s { workers = ws })
    send :
        {c : ℕ} {r : Res R} {ws : List (Worker T (Res R))}
        → Swap (sending c r) looping s.workers ws
        → Work s (record s { cells = (c, r) ∷ s.cells; workers = ws })
    receive :
        {c : ℕ} {cs : List ℕ}
        → s.consumer ≡ receiving
        → s.results ≡ c ∷ cs
        → Work s (record s { results = cs; consumer = waiting c })
    -- The receive from the return channel and the call of yield, which goes on or breaks.
    yield_more :
        {c : ℕ} {r : Res R}
        → s.consumer ≡ waiting c
        → cell c s.cells ≡ some r
        → Work s (record s { consumer = receiving; yielded = s.yielded ++ (c, r) ∷ [] })
    yield_last :
        {c : ℕ} {r : Res R}
        → s.consumer ≡ waiting c
        → cell c s.cells ≡ some r
        → Work s (record s { consumer = refused; yielded = s.yielded ++ (c, r) ∷ [] })
    break_early :
        s.consumer ≡ refused → Work s (record s { early_break = true; consumer = leaving false })
    drained :
        s.consumer ≡ receiving
        → s.results ≡ []
        → s.closed ≡ true
        → Work s (record s { consumer = awaiting })
    -- s.Wait ends once the context is done; its error is yielded as an extra element.
    waited :
        (err : Option Error)
        → s.consumer ≡ awaiting
        → s.canceled ≡ true
        → Work s (record s { consumer = leaving true; extra = err })
    leave :
        {b : Bool}
        → s.consumer ≡ leaving b
        → s.locked ≡ false
        → Work s (record s { consumer = returned b })
    -- The stop on idle: once no task is left the deferred function closes the channel, and then
    -- the context is canceled.
    idle_close : All IsFinished s.workers → s.closed ≡ false → Work s (record s { closed = true })
    idle_cancel :
        All IsFinished s.workers
        → s.closed ≡ true
        → s.canceled ≡ false
        → Work s (record s { canceled = true })

  -- A parent that is canceled, and a grace period that expires: the deferred function closes the
  -- channel before the context is canceled.
  pub data Halt (s : System T R) : System T R → Type 0 where
    cancel : Halt s (record s { canceled = true })
    expire : s.closed ≡ false → Halt s (record s { closed = true })

  -- Runs that nothing interrupts.
  pub data Runs (s : System T R) : System T R → Type 0 where
    begin : Runs s s
    work : {t u : System T R} → Runs s t → Work t u → Runs s u

  -- Runs in which the context may be hard-stopped at any time.
  pub data Reach (s : System T R) : System T R → Type 0 where
    start : Reach s s
    works : {t u : System T R} → Reach s t → Work t u → Reach s u
    halts : {t u : System T R} → Reach s t → Halt t u → Reach s u

-- Map2: the items are pairs.
abbrev pub pairwise : {K V S : Type 0} → (ℕ → K → V → S) → ℕ → K × V → S
pairwise fn c (k, v) = fn c k v

module _ {K V R : Type 0} (zero_value : R) (fn : ℕ → K → V → Outcome (Res R))
    (num_workers : ℕ) where
  abbrev pub Work2 : System (K × V) R → System (K × V) R → Type 0
  Work2 = Work zero_value (pairwise fn) num_workers
