-- ===== src/Invocation.antt =====
-- The invocation of a task: the middleware of options.go and taskInvoker, Call and Go of
-- stopper.go. Code runs on a world `W`, in which its effects are recorded; a context goes by the
-- type `X`.
pub mod Chain
pub mod Live
mod Examples
use go_stopper.Prelude.{Bool, true, false, List, [], ◌∷◌, Option, none, some, if◌then◌else◌}
use go_stopper.Errors.{Error, named, sentinel, stopped}
use go_stopper.Safe.{Outcome, returns, panics, call_e}
use go_stopper.Options.{Name, is_empty}

-- A run ends in a world, by a result or a panic, or blocks for ever.
pub data Ran (W A : Type 0) : Type 0 where
  ends : Outcome A → W → Ran W A
  blocks : Ran W A

abbrev pub Code : Type 0 → Type 0 → Type 0
Code W A = W → Ran W A

-- What follows a result; a panic passes by.
abbrev pub then_run : {W A B : Type 0} → Ran W A → (A → Code W B) → Ran W B
then_run (ends (returns a) w) k = k a w
then_run (ends (panics r) w) k = ends (panics r) w
then_run blocks k = blocks

-- A deferred call: it runs after a result and after a panic, and keeps either.
abbrev pub finally_run : {W A : Type 0} → Ran W A → Code W (Unit {0}) → Ran W A
finally_run blocks k = blocks
finally_run (ends o w) k = elim (k w) [
  | blocks ↦ blocks
  | ends (returns u) w' ↦ ends o w'
  | ends (panics r) w' ↦ ends (panics r) w'
]

abbrev pub Func : Type 0 → Type 0 → Type 0
Func W X = X → Code W (Option Error)

abbrev pub Invoker : Type 0 → Type 0 → Type 0
Invoker W X = X → Func W X → Code W (Option Error)

abbrev pub Middleware : Type 0 → Type 0 → Type 0
Middleware W X = X → Code W (X × Invoker W X)

module _ {W X : Type 0} where
  -- InvokerCall, InvokerDrop, InvokerErr.
  unfoldable pub invoker_call : Invoker W X
  invoker_call ctx task w = task ctx w

  unfoldable pub invoker_drop : Invoker W X
  invoker_drop ctx task w = ends (returns none) w

  unfoldable pub invoker_err : Option Error → Invoker W X
  invoker_err err ctx task w = ends (returns err) w

  -- The setup phase of taskInvoker, in declaration order: each middleware gets the context of the
  -- one before it.
  unfoldable pub set_up : List (Middleware W X) → X → Code W (X × List (Invoker W X))
  set_up [] ctx w = ends (returns (ctx, [])) w
  set_up (mw ∷ mws) ctx w = then_run (mw ctx w) λ (next, invoker) w1.
      then_run (set_up mws next w1)
        λ (last, invokers) w2. ends (returns (last, invoker ∷ invokers)) w2

  -- The chain of taskInvoker, built from the bottom up.
  unfoldable pub chain : List (Invoker W X) → Invoker W X
  unfolding invoker_call
  chain [] = invoker_call
  chain (invoker ∷ invokers) = λ ctx task. invoker ctx (λ ctx'. chain invokers ctx' task)

-- fmt.Errorf("%s: %w", taskCfg.name, err), for a task that has a name.
unfoldable pub decorate : Name → Option Error → Option Error
decorate name none = none
decorate name (some err) = if is_empty name then some err else some (named name err)

-- The panic handler around the chain.
unfoldable pub guarded : {W : Type 0} → Ran W (Option Error) → Ran W (Option Error)
unfolding call_e
guarded (ends o w) = ends (returns (call_e o)) w
guarded blocks = blocks

-- What taskInvoker, Call and Go need of the rest: `apply` is Apply(1) and its answer, `release` is
-- Apply(-1), `store` keeps the outcome in the TaskInfo, `finish` closes
-- the task's channel and removes it from its group, `handler` is the task's ErrorHandler.
pub record Hooks (W X : Type 0) : Type 0 where
  pub apply : W → W × Bool
  pub release : W → W
  pub store : Option Error → W → W
  pub finish : W → W
  pub handler : X → Error → Code W (Unit {0})

module _ {W X : Type 0} (hooks : Hooks W X) where
  -- The end of the invoker: the result for Call, the handler for Go.
  unfoldable pub report : Bool → X → Option Error → Code W (Option Error)
  report return_err ctx none w = ends (returns none) w
  report return_err ctx (some err) w =
      if return_err
      then ends (returns (some err)) w
      else then_run (hooks.handler ctx err w) λ u w'. ends (returns none) w'

  -- The function that taskInvoker returns.
  unfoldable pub run_task : Name → Bool → X → List (Invoker W X) → Func W X → Code W (Option Error)
  unfolding report guarded decorate chain
  run_task name return_err ctx invokers task w =
      finally_run
        (then_run (guarded (chain invokers ctx task w))
          λ err w'. report return_err ctx (decorate name err) (hooks.store (decorate name err) w'))
        λ w'. ends (returns tt) (hooks.finish w')

  -- Call: the count is released however the task ends.
  unfoldable pub call : Name → List (Middleware W X) → X → Func W X → Code W (Option Error)
  unfolding set_up run_task
  call name mws ctx task w =
      let (w1, accepted) = hooks.apply w in
      if accepted
      then finally_run
          (then_run (set_up mws ctx w1)
            (λ (last, invokers) w2. run_task name true last invokers task w2))
          (λ w3. ends (returns tt) (hooks.release w3))
      else ends (returns (some (sentinel stopped))) w1

  -- The goroutine of Go.
  unfoldable pub goroutine : Name → X → List (Invoker W X) → Func W X → Code W (Option Error)
  unfolding run_task
  goroutine name ctx invokers task w =
      finally_run (run_task name false ctx invokers task w)
        λ w'. ends (returns tt) (hooks.release w')

  -- Go: its error, and the goroutine that it starts. The setup runs in the caller.
  unfoldable pub go :
      Name
      → List (Middleware W X)
      → X
      → Func W X
      → Code W (Option Error × Option (Code W (Option Error)))
  unfolding set_up
  go name mws ctx task w =
      let (w1, accepted) = hooks.apply w in
      if accepted
      then then_run (set_up mws ctx w1) (λ (last, invokers) w2.
        ends (returns (none, some (goroutine name last invokers task))) w2)
      else ends (returns (some (sentinel stopped), none)) w1
