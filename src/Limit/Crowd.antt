-- ===== src/Limit/Crowd.antt =====
-- Several tasks under one concurrency limit (limit/limit.go). The middleware and the invoker of
-- each of them run in their own goroutine, and any of them may move next.
pub mod Bound
pub mod Progress
use go_stopper.Prelude.{ℕ, zero, suc, ◌+◌, ◌≤◌, ◌<◌, ◌≡◌, true, false, List, [], ◌∷◌, Bool}
use go_stopper.Prelude.Moves.{Swap}
use go_stopper.Safe.{returns}
use go_stopper.Invocation.{ends}
use go_stopper.Limit.{release_slot}

-- Where a task stands.
pub data Place : Type 0 where
  arriving : Place  -- before the first select
  waiting : Place  -- at the second select
  running : Place  -- in its invoker, which has a slot
  over : Place  -- after its invoker, or dropped by a stop

-- The number of values in the channel, whether the context stops, and the tasks.
pub record Crowd : Type 0 where
  pub held : ℕ
  pub stopping : Bool
  pub tasks : List Place

abbrev pub all_arriving : ℕ → List Place
all_arriving zero = []
all_arriving (suc n) = arriving ∷ all_arriving n

abbrev pub start_crowd : ℕ → Crowd
start_crowd n = record { held = 0; stopping = false; tasks = all_arriving n }

module _ (limit : ℕ) where
  -- One task moves. A soft and a hard stop differ in the invoker that they give, not in the slots.
  pub data Move (s : Crowd) : Crowd → Type 0 where
    enters :
        {ps : List Place}
        → s.held < limit
        → Swap arriving running s.tasks ps
        → Move s (record s { held = suc s.held; tasks = ps })
    queues :
        {ps : List Place}
        → limit ≤ s.held
        → Swap arriving waiting s.tasks ps
        → Move s (record s { tasks = ps })
    takes :
        {ps : List Place}
        → s.held < limit
        → Swap waiting running s.tasks ps
        → Move s (record s { held = suc s.held; tasks = ps })
    drops :
        {ps : List Place}
        → s.stopping ≡ true
        → Swap waiting over s.tasks ps
        → Move s (record s { tasks = ps })
    leaves :
        {held' : ℕ} {ps : List Place}
        → release_slot s.held ≡ ends (returns tt) held'
        → Swap running over s.tasks ps
        → Move s (record s { held = held'; tasks = ps })

  -- The context may begin to stop at any time.
  pub data Reach (s : Crowd) : Crowd → Type 0 where
    begin : Reach s s
    moves : {t u : Crowd} → Reach s t → Move t u → Reach s u
    stops : {t : Crowd} → Reach s t → Reach s (record t { stopping = true })

  -- The number of moves of the tasks in a history.
  abbrev pub length_of : {s t : Crowd} → Reach s t → ℕ
  length_of begin = 0
  length_of (moves r m) = suc (length_of r)
  length_of (stops r) = length_of r
