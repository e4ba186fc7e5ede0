-- ===== src/Seq/Worker.antt =====
-- The goroutines that seq/ starts (seq/map.go, seq/each.go), which move one at a time.
-- `T` is the type of the items, and `S` is what CallRE or CallE gives
-- for a call.
use go_stopper.Prelude.{ℕ, Option}
use go_stopper.Errors.{Error}

-- Where a worker stands in its loop, with the local variables that are live there.
pub data Worker (T S : Type 0) : Type 0 where
  looping : Worker T S  -- before the test of ctx.Err
  checked : Worker T S  -- before nextMu.Lock
  enqueuing : ℕ → T → Worker T S  -- at the select of Map, under nextMu
  calling : ℕ → T → Worker T S  -- before the call of fn
  sending : ℕ → S → Worker T S  -- before its result leaves the worker
  ended : Option Error → Worker T S
  crashed : Worker T S  -- by a send on a closed channel
