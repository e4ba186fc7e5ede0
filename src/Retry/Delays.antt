-- ===== src/Retry/Delays.antt =====
-- The limits and the delays of retry/backoff.go.
use go_stopper.Prelude.{ℕ, ◌+◌, ◌≡◌, Bool, some, arith, ◌⊎◌}
use go_stopper.Prelude.Int.{ℤ, ◌+ℤ◌, ◌≤ℤ◌}
use go_stopper.Errors.{Error}
use go_stopper.Retry.{Backoff, BackoffState, or_always, max_ℤ, min_ℤ, backoff_classify}
use go_stopper.Retry.Counting.{IsCounting}

module _ {F : Type 0} (is_zero : F → Bool) (ten : F) (scale : F → ℤ → ℤ) (spread : ℕ → ℤ → ℤ)
    (b : Backoff F) where
  pub backoff-IsCounting :
      IsCounting
        (backoff_classify is_zero ten scale spread b)
        (λ st. st.count)
        b.max_attempts
        (or_always b.retryable)
  unfolding backoff_classify
  backoff-IsCounting = record {
    rejects = λ s e h. ground arith;
    exhausts = λ s e h k. ground arith;
    waits = λ s e h k. (
      min_ℤ (max_ℤ b.min_delay (scale b.multiplier s.delay)) b.max_delay
          +ℤ spread (s.count + 1) b.jitter,
      ground arith,
      ground arith,
      ground arith,
    );
  }

  -- The delay after a failure that is retried is at most MaxDelay, and at least the smaller one of
  -- MinDelay and MaxDelay; and the channel's duration is that delay and the jitter.
  pub backoff_delay_bounds :
      (st : BackoffState) (e : Error) (c : ℤ)
      → (backoff_classify is_zero ten scale spread b st e).next ≡ some c
      → let st' = (backoff_classify is_zero ten scale spread b st e).state in
        (st'.delay ≤ℤ b.max_delay)
        × (min_ℤ b.min_delay b.max_delay ≤ℤ st'.delay)
        × (c ≡ st'.delay +ℤ spread (st.count + 1) b.jitter)
  unfolding backoff_classify
  backoff_delay_bounds st e c h = ground arith

  -- The delays do not fall: the one after a failure that is retried is no less than the one before
  -- it, if that is at most MaxDelay and the multiplier does not scale it down.
  pub backoff_delay_grows :
      (st : BackoffState) (e : Error) (c : ℤ)
      → (backoff_classify is_zero ten scale spread b st e).next ≡ some c
      → st.delay ≤ℤ scale b.multiplier st.delay
      → st.delay ≤ℤ b.max_delay
      → (st.delay ≤ℤ (backoff_classify is_zero ten scale spread b st e).state.delay)
        × (scale b.multiplier st.delay
              ≤ℤ (backoff_classify is_zero ten scale spread b st e).state.delay
            ⊎ (b.max_delay ≡ (backoff_classify is_zero ten scale spread b st e).state.delay))
  unfolding backoff_classify
  backoff_delay_grows st e c h up below = ground arith
