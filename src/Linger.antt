-- ===== src/Linger.antt =====
-- linger/: the Recorder of running tasks, its middleware, and CheckClean. The world of a task is
-- the recorder and what else there is, `V`. What runtime.Callers and runtime.CallersFrames give is
-- a parameter.
pub mod Running
pub mod Clean
mod Examples
use go_stopper.Prelude.{ℕ, ◌+◌, ◌%◌, ◌^◌, List, [], ◌∷◌, ◌++◌, map, ◌==◌, if◌then◌else◌}
use go_stopper.Safe.{returns}
use go_stopper.Invocation.{Middleware, Invoker, ends, finally_run}

abbrev pub callers_offset : ℕ
callers_offset = 4

abbrev pub Stack : Type 0
Stack = List ℕ

-- The sync.Map goes by its entries. Range gives them in an unspecified order; here it is that of
-- their insertion.
pub record Recorder : Type 0 where
  pub counter : ℕ
  pub data_map : List (ℕ × Stack)
  pub depth : ℕ

-- NewRecorder.
abbrev pub new_recorder : ℕ → Recorder
new_recorder depth = record { counter = 0; data_map = []; depth = depth }

-- Store and Delete of sync.Map.
abbrev pub put : ℕ → Stack → List (ℕ × Stack) → List (ℕ × Stack)
put id pc [] = (id, pc) ∷ []
put id pc ((k, v) ∷ es) = if k == id then (id, pc) ∷ es else (k, v) ∷ put id pc es

abbrev pub delete : ℕ → List (ℕ × Stack) → List (ℕ × Stack)
delete id [] = []
delete id ((k, v) ∷ es) = if k == id then es else (k, v) ∷ delete id es

-- Callers.
unfoldable pub callers : Recorder → List Stack
callers r = map (λ (id, pc). pc) r.data_map

-- counter.Add(1).
abbrev pub next_id : Recorder → ℕ
next_id r = (r.counter + 1) % 2 ^ 64

-- What Middleware does to the recorder, and its deferred Delete.
unfoldable pub note_start : Stack → Recorder → Recorder
note_start pc r = record r { counter = next_id r; data_map = put (next_id r) pc r.data_map }

unfoldable pub note_end : ℕ → Recorder → Recorder
note_end id r = record r { data_map = delete id r.data_map }

module _ {V X : Type 0} where
  unfoldable pub recorder_invoker : ℕ → Invoker (Recorder × V) X
  unfolding note_end
  recorder_invoker id ctx fn w =
      finally_run (fn ctx w) λ (r, v). ends (returns tt) (note_end id r, v)

  -- Middleware; `sample` is runtime.Callers, from its offset and the length of the buffer to the
  -- part of the buffer that it fills.
  unfoldable pub recorder_middleware : (ℕ → ℕ → Stack) → Middleware (Recorder × V) X
  unfolding note_start recorder_invoker
  recorder_middleware sample outer (r, v) =
      ends (returns (outer, recorder_invoker (next_id r)))
        (note_start (sample callers_offset r.depth) r, v)

-- What CheckClean writes to the test log.
pub data Line (F : Type 0) : Type 0 where
  lingering_detected : Line F
  stuck_task : Line F
  frame : F → Line F

module _ {F : Type 0} (frames : Stack → F × List F) where
  -- The loop over the frames of a stack.
  unfoldable pub stack_lines : Stack → List (Line F)
  stack_lines stack = let (first, more) = frames stack in stuck_task ∷ frame first ∷ map frame more

  unfoldable pub all_lines : List Stack → List (Line F)
  unfolding stack_lines
  all_lines [] = []
  all_lines (stack ∷ stacks) = stack_lines stack ++ all_lines stacks

  -- CheckClean, for the stacks that Callers gives.
  unfoldable pub report_callers : List Stack → List (Line F)
  unfolding all_lines
  report_callers [] = []
  report_callers (stack ∷ stacks) = lingering_detected ∷ all_lines (stack ∷ stacks)

  unfoldable pub check_clean : Recorder → List (Line F)
  unfolding callers report_callers
  check_clean r = report_callers (callers r)
