-- ===== src/Limit/Slots.antt =====
-- What the concurrency limit of limit/limit.go does with its slots.
use go_stopper.Prelude.{ℕ, suc, ◌+◌, ◌≤◌, ◌<◌, ◌≡◌, List, [], ◌∷◌, Option, none, some, arith}
use go_stopper.Errors.{Error}
use go_stopper.Safe.{Outcome, returns}
use go_stopper.Invocation.{Ran, ends, blocks, then_run, Func, Invoker, Middleware, chain, set_up}
use go_stopper.Retry.{Decision, Wake, again, attempt, retry_invoker}
use go_stopper.Limit.{Waited, soft_stops, hard_stops, slot_invoker, with_max_concurrency}

-- The setup and the chain of a list of middleware, without the rest of an invocation.
abbrev pub run_under :
    {W X : Type 0} → List (Middleware W X) → X → Func W X → W → Ran W (Option Error)
run_under mws ctx task w =
    then_run (set_up mws ctx w) λ (last, invokers) w'. chain invokers last task w'

-- The setup never holds more slots than the limit.
set_up_bounded :
    {X : Type 0} (limit : ℕ) (waited : Waited) (ctx : X) (held held' : ℕ) (r : X × Invoker ℕ X)
    → held ≤ limit
    → with_max_concurrency limit waited ctx held ≡ ends (returns r) held'
    → (held' ≤ limit) × (held ≤ held') × (held' ≤ held + 1)
unfolding with_max_concurrency
set_up_bounded limit waited ctx held held' r b h = ground arith

-- Under a limit with a free slot the task runs with one slot more, and whether it returns or
-- panics, the slot is given back.
slot_given_back :
    {X : Type 0} (limit : ℕ) (waited : Waited) (ctx : X) (task : Func ℕ X) (held after : ℕ)
    (o : Outcome (Option Error))
    → held < limit
    → task ctx (held + 1) ≡ ends o (suc after)
    → run_under (with_max_concurrency limit waited ∷ []) ctx task held ≡ ends o after
unfolding with_max_concurrency set_up chain
slot_given_back limit waited ctx task held after o b h = ground arith

-- At the limit, a task whose setup waits through a stop is not run and takes no slot: it comes to
-- nil after a soft stop, and to the context's error after a hard stop.
stopped_while_waiting :
    {X : Type 0} (limit : ℕ) (err : Option Error) (ctx : X) (task : Func ℕ X) (held : ℕ)
    → limit ≤ held
    → (run_under (with_max_concurrency limit soft_stops ∷ []) ctx task held
        ≡ ends (returns none) held)
      × (run_under (with_max_concurrency limit (hard_stops err) ∷ []) ctx task held
          ≡ ends (returns err) held)
unfolding with_max_concurrency set_up chain
stopped_while_waiting limit err ctx task held b = ground arith

-- An invoker that is declared before the limit and short-circuits, so that it ends without running
-- its task, leaves the slot that the setup took: nothing gives it back.
pub short_circuit_keeps_slot :
    {X : Type 0} (limit : ℕ) (waited : Waited) (outer : Invoker ℕ X) (ctx : X) (task : Func ℕ X)
    (held : ℕ) (o : Outcome (Option Error))
    → held < limit
    → ((inner : Func ℕ X) → outer ctx inner (held + 1) ≡ ends o (held + 1))
    → run_under
        ((λ x w. ends (returns (x, outer)) w) ∷ with_max_concurrency limit waited ∷ [])
        ctx
        task
        held
      ≡ ends o (held + 1)
unfolding with_max_concurrency set_up chain
short_circuit_keeps_slot limit waited outer ctx task held o b short =
    ground (arith, short (λ x. slot_invoker x task))

-- Retries that are declared before the limit give the slot back once for each attempt. A task that
-- holds the only slot in use and is retried once blocks for ever when its second attempt ends.
pub retry_over_limit_blocks :
    {S C X : Type 0} (classify : S → Error → Decision S C) (wake : C → Wake) (fuel : ℕ) (s s' : S)
    (ctx : X) (task : Func ℕ X) (e : Error) (o : Outcome (Option Error))
    → task ctx 1 ≡ ends (returns (some e)) 1
    → task ctx 0 ≡ ends o 0
    → attempt classify s wake (some e) ≡ again s'
    → chain (retry_invoker classify wake (suc (suc fuel)) s ∷ slot_invoker ∷ []) ctx task 1 ≡ blocks
unfolding slot_invoker chain retry_invoker
retry_over_limit_blocks classify wake fuel s s' ctx task e o first second go = ground arith
