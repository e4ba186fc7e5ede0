-- ===== src/Limit.antt =====
-- limit/limit.go: the concurrency limit, over the number of slots held, which is the number of
-- values in the buffered channel; and the rate limit, over a limiter that is a parameter.
pub mod Slots
pub mod Crowd
mod Examples
use go_stopper.Prelude.{ℕ, ◌+◌, ◌-◌, Bool, Option, none, some, ltb, ◌==◌, if◌then◌else◌}
use go_stopper.Errors.{Error, stopped, is_error}
use go_stopper.Safe.{returns}
use go_stopper.Invocation.{
  Code, ends, blocks, finally_run, Invoker, Middleware, invoker_call, invoker_drop, invoker_err,
}

-- The case of the second select: another task gave a slot back and this one took it, a soft stop,
-- a hard stop with the context's error, or none for ever.
pub data Waited : Type 0 where
  takes_slot soft_stops never : Waited
  hard_stops : Option Error → Waited

-- The deferred `<-ch`, which blocks on an empty channel.
unfoldable pub release_slot : Code ℕ (Unit {0})
release_slot held = if held == 0 then blocks else ends (returns tt) (held - 1)

module _ {X : Type 0} where
  unfoldable pub slot_invoker : Invoker ℕ X
  unfolding release_slot
  slot_invoker ctx task held = finally_run (task ctx held) release_slot

  -- WithMaxConcurrency, for a positive limit.
  unfoldable pub with_max_concurrency : ℕ → Waited → Middleware ℕ X
  unfolding slot_invoker invoker_drop invoker_err
  with_max_concurrency limit waited outer held =
      if ltb held limit then ends (returns (outer, slot_invoker)) (held + 1) else elim waited [
        | takes_slot ↦ ends (returns (outer, slot_invoker)) held
        | soft_stops ↦ ends (returns (outer, invoker_drop)) held
        | never ↦ blocks
        | hard_stops err ↦ ends (returns (outer, invoker_err err)) held
      ]

-- The limiter of golang.org/x/time/rate: Allow, and Wait under the stopping context.
module _ {W X : Type 0} (allow : W → W × Bool) (wait : X → W → W × Option Error) where
  -- WithMaxRate.
  unfoldable pub with_max_rate : Middleware W X
  unfolding invoker_call invoker_drop invoker_err is_error
  with_max_rate outer w =
      let (w1, allowed) = allow w in
      if allowed
      then ends (returns (outer, invoker_call)) w1
      else let (w2, err) = wait outer w1 in
        elim err [
          | none ↦ ends (returns (outer, invoker_call)) w2
          | some e ↦
              if is_error e stopped
              then ends (returns (outer, invoker_drop)) w2
              else ends (returns (outer, invoker_err (some e))) w2
        ]
