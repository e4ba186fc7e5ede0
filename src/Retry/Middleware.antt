-- ===== src/Retry/Middleware.antt =====
-- The results of tasks under Loop.Middleware (retry/loop.go) and Backoff.Middleware
-- (retry/backoff.go).
use go_stopper.Prelude.{ℕ, ◌-◌, ◌<◌, ◌≡◌, ◌∙◌, ap, Bool, true, Option, some, arith}
use go_stopper.Prelude.Int.{ℤ, pos, pos_part}
use go_stopper.Errors.{Error}
use go_stopper.Retry.{
  Wake, emits, retry_loop, Loop, or_always, loop_attempts, loop_classify, Backoff, BackoffState,
  sanitize, backoff_classify,
}
use go_stopper.Retry.Counting.{expected, retry_result, loop-IsCounting}
use go_stopper.Retry.Delays.{backoff-IsCounting}

-- A task under Loop, whose errors are all retryable and that is not stopped, is attempted until its
-- first success, or else as often as the limit says (2 by default, and once at least), and then
-- fails with the last error, wrapped.
pub loop_result :
    (l : Loop) (task : ℕ → Option Error) (wake : ℕ → Unit {0} → Wake) (fuel : ℕ)
    → ((e : Error) → or_always l.retryable e ≡ true)
    → ((k : ℕ) (c : Unit {0}) → wake k c ≡ emits)
    → pos_part (loop_attempts l) - 1 < fuel
    → retry_loop (loop_classify l) task wake fuel 0 0
      ≡ some (expected task (pos_part (loop_attempts l) - 1) 0)
loop_result l task wake fuel all value h =
    retry_result (loop-IsCounting l) task wake all value fuel 0 0 (omega arith)
    ∙ ap (λ n. some (expected task n 0)) (omega arith)

module _ {F : Type 0} (is_zero : F → Bool) (ten : F) (scale : F → ℤ → ℤ) (spread : ℕ → ℤ → ℤ)
    (b : Backoff F) where
  abbrev pub start : BackoffState
  start = record { count = 0; delay = pos 0 }

  -- The same of Backoff, with a limit of 4 by default.
  pub backoff_result :
      (task : ℕ → Option Error) (wake : ℕ → ℤ → Wake) (fuel : ℕ)
      → ((e : Error) → or_always b.retryable e ≡ true)
      → ((k : ℕ) (c : ℤ) → wake k c ≡ emits)
      → pos_part (sanitize is_zero ten scale spread b).max_attempts - 1 < fuel
      → retry_loop
          (backoff_classify is_zero ten scale spread (sanitize is_zero ten scale spread b))
          task
          wake
          fuel
          0
          start
        ≡ some (expected task (pos_part (sanitize is_zero ten scale spread b).max_attempts - 1) 0)
  unfolding sanitize
  backoff_result task wake fuel all value h =
      retry_result
        (backoff-IsCounting is_zero ten scale spread (sanitize is_zero ten scale spread b)) task
        wake all value fuel 0 start (omega arith)
      ∙ ap (λ n. some (expected task n 0)) (omega arith)
