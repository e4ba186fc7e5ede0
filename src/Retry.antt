-- ===== src/Retry.antt =====
-- retry/retry.go, retry/loop.go and retry/backoff.go: middleware that runs a failed task again.
-- The task's attempts are a stream of results, and `wake` says which case of the select in
-- waitOnChannel is taken after each attempt.
pub mod Counting
pub mod Delays
pub mod Middleware
mod Examples
use go_stopper.Prelude.{ℕ, zero, suc, ◌+◌, Bool, true, [], ◌∷◌, Option, none, some, if◌then◌else◌}
use go_stopper.Prelude.Int.{ℤ, pos, ◌+ℤ◌, leb_ℤ, eqb_ℤ}
use go_stopper.Errors.{Error, sentinel, stopped, max_attempts, join}
use go_stopper.Safe.{returns, panics}
use go_stopper.Invocation.{ends, blocks, Invoker}

-- What a Classifier returns: the new state, a channel to wait on, an error.
pub record Decision (S C : Type 0) : Type 0 where
  pub state : S
  pub next : Option C
  pub fail : Option Error

-- The case of waitOnChannel's select: a value or the closing of the channel, a soft stop, or a
-- hard stop with the context's error.
pub data Wake : Type 0 where
  emits closes soft_stops : Wake
  hard_stops : Option Error → Wake

unfoldable pub wait_on_channel : Wake → Error → Option Error
wait_on_channel emits err = none
wait_on_channel closes err = some err
wait_on_channel soft_stops err = join (some err ∷ some (sentinel stopped) ∷ [])
wait_on_channel (hard_stops ctx_err) err = join (some err ∷ ctx_err ∷ [])

-- How one round of the loop of Middleware ends.
pub data Next (S : Type 0) : Type 0 where
  done : Option Error → Next S
  again : S → Next S

module _ {S C : Type 0} where
  unfoldable pub follow : Decision S C → (C → Wake) → Error → Next S
  unfolding wait_on_channel
  follow d wake err = elim d.fail [
    | some e ↦ done (some e)
    | none ↦ elim d.next [
      | none ↦ done none
      | some c ↦ elim (wait_on_channel (wake c) err) [
        | some e ↦ done (some e)
        | none ↦ again d.state
      ]
    ]
  ]

  unfoldable pub attempt : (S → Error → Decision S C) → S → (C → Wake) → Option Error → Next S
  unfolding follow
  attempt classify s wake none = done none
  attempt classify s wake (some err) = follow (classify s err) wake err

  -- The loop of Middleware, from attempt number `k` on: the result and the number of attempts made
  -- by then, or `none` if the fuel ran out.
  unfoldable pub retry_loop :
      (S → Error → Decision S C)
      → (ℕ → Option Error)
      → (ℕ → C → Wake)
      → ℕ
      → ℕ
      → S
      → Option (Option Error × ℕ)
  unfolding attempt
  retry_loop classify task wake zero k s = none
  retry_loop classify task wake (suc fuel) k s = elim (attempt classify s (wake k) (task k)) [
    | done r ↦ some (r, suc k)
    | again s' ↦ retry_loop classify task wake fuel (suc k) s'
  ]

pub record Loop : Type 0 where
  pub max_attempts : ℤ
  pub retryable : Option (Error → Bool)

abbrev pub always : Error → Bool
always e = true

abbrev pub or_always : Option (Error → Bool) → Error → Bool
or_always none = always
or_always (some f) = f

-- Loop.Middleware: the limit, and the classifier, whose channel holds a value from the start.
unfoldable pub loop_attempts : Loop → ℤ
loop_attempts l = if eqb_ℤ l.max_attempts (pos 0) then pos 2 else l.max_attempts

unfoldable pub loop_classify : Loop → ℕ → Error → Decision ℕ (Unit {0})
unfolding loop_attempts
loop_classify l state err =
    if or_always l.retryable err
    then if leb_ℤ (loop_attempts l) (pos (state + 1))
      then record { state = state + 1; next = none; fail = some (max_attempts err) }
      else record { state = state + 1; next = some tt; fail = none }
    else record { state = state; next = none; fail = some err }

-- Backoff, over the type of its float32 multiplier.
pub record Backoff (F : Type 0) : Type 0 where
  pub jitter : ℤ
  pub max_attempts : ℤ
  pub max_delay : ℤ
  pub min_delay : ℤ
  pub multiplier : F
  pub retryable : Option (Error → Bool)

pub record BackoffState : Type 0 where
  pub count : ℕ
  pub delay : ℤ

abbrev pub or_default : ℤ → ℤ → ℤ
or_default value default = if eqb_ℤ value (pos 0) then default else value

abbrev pub min_ℤ : ℤ → ℤ → ℤ
min_ℤ a b = if leb_ℤ a b then a else b

abbrev pub max_ℤ : ℤ → ℤ → ℤ
max_ℤ a b = if leb_ℤ a b then b else a

-- Float32 arithmetic is the machine's: `scale m d` is time.Duration(float32(d) * m), and
-- `spread k j` is the jitter that attempt number k draws.
module _ {F : Type 0} (is_zero : F → Bool) (ten : F) (scale : F → ℤ → ℤ) (spread : ℕ → ℤ → ℤ) where
  -- sanitize: 1 s and 10 ms, in nanoseconds.
  unfoldable pub sanitize : Backoff F → Backoff F
  sanitize b = record {
    jitter = b.jitter;
    max_attempts = or_default b.max_attempts (pos 4);
    max_delay = or_default b.max_delay (pos 1_000_000_000);
    min_delay = or_default b.min_delay (pos 10_000_000);
    multiplier = if is_zero b.multiplier then ten else b.multiplier;
    retryable = some (or_always b.retryable);
  }

  -- The classifier of Backoff.Middleware, for sanitized settings; the channel is time.After's,
  -- given by its duration.
  unfoldable pub backoff_classify : Backoff F → BackoffState → Error → Decision BackoffState ℤ
  backoff_classify b st err =
      let next = scale b.multiplier st.delay in
      let delay = min_ℤ (max_ℤ b.min_delay next) b.max_delay in
      if or_always b.retryable err
      then if leb_ℤ b.max_attempts (pos (st.count + 1))
        then record {
          state = record st { count = st.count + 1 };
          next = none;
          fail = some (max_attempts err);
        }
        else record {
          state = record { count = st.count + 1; delay = delay };
          next = some (delay +ℤ spread (st.count + 1) b.jitter);
          fail = none;
        }
      else record { state = st; next = none; fail = some err }

-- The invoker of Middleware, on code with effects. A loop that has not ended within the fuel
-- counts as one that does not end.
module _ {S C W X : Type 0} (classify : S → Error → Decision S C) (wake : C → Wake) where
  unfoldable pub retry_invoker : ℕ → S → Invoker W X
  unfolding attempt
  retry_invoker zero s ctx task w = blocks
  retry_invoker (suc fuel) s ctx task w = elim (task ctx w) [
    | blocks ↦ blocks
    | ends (panics r) w' ↦ ends (panics r) w'
    | ends (returns o) w' ↦ elim (attempt classify s wake o) [
      | done r ↦ ends (returns r) w'
      | again s' ↦ retry_invoker fuel s' ctx task w'
    ]
  ]
