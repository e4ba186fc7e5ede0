-- ===== src/Invocation/Chain.antt =====
-- How a task ends that runs under middleware (taskInvoker, Call and Go of stopper.go).
use mathlib.Core.Path.{fun_ext}
use go_stopper.Prelude.{◌≡◌, refl, ap, true, List, [], ◌∷◌, ◌++◌, Option, none, some, arith}
use go_stopper.Errors.{Error}
use go_stopper.Safe.{Outcome, returns, panics, Panic, call_e}
use go_stopper.Options.{Name}
use go_stopper.Invocation.{
  ends, Func, Invoker, Middleware, chain, set_up, decorate, Hooks, report, call, go, goroutine,
}

-- The chain of two lists of invokers is the chain of the first around that of the second.
chain-append :
    {W X : Type 0} (xs ys : List (Invoker W X)) (ctx : X) (task : Func W X)
    → chain (xs ++ ys) ctx task ≡ chain xs ctx (λ ctx'. chain ys ctx' task)
unfolding chain
chain-append [] ys ctx task = refl
chain-append (x ∷ xs) ys ctx task =
    ap (λ inner. x ctx inner) (fun_ext λ ctx'. chain-append xs ys ctx' task)

module _ {W X : Type 0} (hooks : Hooks W X) where
  -- A call that is accepted, and whose middleware sets up, returns the error of the chain under the
  -- task's name, a panic as a recovered error; it calls no error handler, stores the outcome,
  -- finishes the task and releases the count, each once and in this order.
  pub call_result :
      (name : Name) (mws : List (Middleware W X)) (ctx last : X) (is : List (Invoker W X))
      (task : Func W X) (w w1 w2 w3 : W) (o : Outcome (Option Error))
      → hooks.apply w ≡ (w1, true)
      → set_up mws ctx w1 ≡ ends (returns (last, is)) w2
      → chain is last task w2 ≡ ends o w3
      → call hooks name mws ctx task w
        ≡ ends
            (returns (decorate name (call_e o)))
            (hooks.release (hooks.finish (hooks.store (decorate name (call_e o)) w3)))
  unfolding call report
  call_result name mws ctx last is task w w1 w2 w3 o a s c = ground arith

  -- The goroutine of an accepted task returns nil: without an error it stores the outcome, finishes
  -- the task and releases the count; with one it calls the task's error handler in between, on the
  -- context that the last middleware gave.
  pub goroutine_result :
      (name : Name) (ctx : X) (is : List (Invoker W X)) (task : Func W X) (w w' v : W)
      (o : Outcome (Option Error)) (e : Error)
      → chain is ctx task w ≡ ends o w'
      → decorate name (call_e o) ≡ some e
      → hooks.handler ctx e (hooks.store (some e) w') ≡ ends (returns tt) v
      → goroutine hooks name ctx is task w ≡ ends (returns none) (hooks.release (hooks.finish v))
  unfolding goroutine report
  goroutine_result name ctx is task w w' v o e c d h = ground arith

  -- If the setup of a middleware panics, the panic goes on to the caller of Call and of Go, but
  -- only Call releases the count that it took.
  pub setup_panic_leaks :
      (name : Name) (mws : List (Middleware W X)) (ctx : X) (task : Func W X) (w w1 w2 : W)
      (r : Panic)
      → hooks.apply w ≡ (w1, true)
      → set_up mws ctx w1 ≡ ends (panics r) w2
      → (call hooks name mws ctx task w ≡ ends (panics r) (hooks.release w2))
        × (go hooks name mws ctx task w ≡ ends (panics r) w2)
  unfolding call go
  setup_panic_leaks name mws ctx task w w1 w2 r a s = ground arith
