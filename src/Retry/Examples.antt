-- ===== src/Retry/Examples.antt =====
-- Tasks under the middleware of retry/retry.go, retry/loop.go and retry/backoff.go.
use go_stopper.Prelude.{
  ℕ, ◌+◌, ◌-◌, ◌*◌, ◌≤◌, ◌<◌, ◌≡◌, refl, Option, none, some, arith, ◌==◌, if◌then◌else◌,
}
use go_stopper.Prelude.Int.{ℤ, pos, negsuc, ◌+ℤ◌, ◌≤ℤ◌}
use go_stopper.Errors.{Error, user_error}
use go_stopper.Retry.{
  emits, closes, retry_loop, Loop, loop_attempts, loop_classify, Backoff, BackoffState,
  backoff_classify,
}
use go_stopper.Retry.Counting.{expected, retry_ends, loop-IsCounting}
use go_stopper.Retry.Delays.{backoff_delay_bounds}
use go_stopper.Retry.Middleware.{loop_result}

abbrev thrice : Loop
thrice = record { max_attempts = pos 3; retryable = none }

-- Fails twice, then succeeds.
abbrev flaky : ℕ → Option Error
flaky k = if k == 2 then none else some (user_error k)

abbrev failing : ℕ → Option Error
failing k = some (user_error k)

retry_ends_example :
    (r : Option Error) × (n : ℕ) × (retry_loop (loop_classify thrice) failing (λ k c. closes) 9 0 0
      ≡ some (r, n))
    × (0 < n)
    × (n ≤ 0 + 1 + (3 - 1 - 0))
unfolding loop_attempts
retry_ends_example = retry_ends (loop-IsCounting thrice) failing (λ k c. closes) 9 0 0 (omega arith)

loop_result_example : retry_loop (loop_classify thrice) flaky (λ k c. emits) 9 0 0 ≡ some (none, 3)
unfolding loop_attempts expected
loop_result_example =
    loop_result thrice flaky (λ k c. emits) 9 (λ e. refl) (λ k c. refl) (omega arith)

-- The multiplier of the settings below is 10 over integers, and there is no jitter.
abbrev ten_times : ℕ → ℤ → ℤ
ten_times m (pos d) = pos (m * d)
ten_times m (negsuc d) = negsuc d

abbrev no_spread : ℕ → ℤ → ℤ
no_spread k j = pos 0

abbrev unset : Backoff ℕ
unset = record {
  jitter = pos 0;
  max_attempts = pos 0;
  max_delay = pos 50;
  min_delay = pos 1;
  multiplier = 0;
  retryable = none;
}

abbrev waiting : BackoffState
waiting = record { count = 1; delay = pos 7 }

abbrev settings : Backoff ℕ
settings = record unset { max_attempts = pos 5; multiplier = 10 }

backoff_delay_bounds_example :
    ((backoff_classify
        (λ m. m == 0)
        10
        ten_times
        no_spread
        settings
        waiting
        (user_error 1)).state.delay
      ≤ℤ pos 50)
    × (pos 1
        ≤ℤ (backoff_classify
            (λ m. m == 0)
            10
            ten_times
            no_spread
            settings
            waiting
            (user_error 1)).state.delay)
    × (pos 50
        ≡ (backoff_classify
            (λ m. m == 0)
            10
            ten_times
            no_spread
            settings
            waiting
            (user_error 1)).state.delay
          +ℤ pos 0)
unfolding backoff_classify ◌+ℤ◌
backoff_delay_bounds_example =
    backoff_delay_bounds (λ m. m == 0) 10 ten_times no_spread settings waiting (user_error 1)
      (pos 50) refl
