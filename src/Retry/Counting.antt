-- ===== src/Retry/Counting.antt =====
-- Classifiers that count the attempts: the loop of retry/retry.go ends, and when.
use go_stopper.Prelude.{
  ℕ, zero, suc, ◌+◌, ◌-◌, ◌≤◌, ◌<◌, ◌≡◌, ◌⊎◌, refl, ◌∙◌, ap, sym, Bool, true, false, Option, none,
  some, arith, Bool-cases, Option-cases, inl, inr,
}
use go_stopper.Prelude.Int.{ℤ, pos, leb_ℤ, pos_part}
use go_stopper.Errors.{Error, max_attempts}
use go_stopper.Retry.{
  Decision, Wake, emits, done, again, wait_on_channel, follow, attempt, retry_loop, Loop, or_always,
  loop_attempts, loop_classify,
}

-- A classifier that counts: an error that is not retryable is returned as it is, the last allowed
-- failure is wrapped, and any other waits on a channel with the count raised by one.
pub record IsCounting {S C : Type 0} (classify : S → Error → Decision S C) (count : S → ℕ)
    (limit : ℤ) (retryable : Error → Bool) : Type 0 where
  pub rejects : (s : S) (e : Error) → retryable e ≡ false → (classify s e).fail ≡ some e
  pub exhausts :
      (s : S) (e : Error)
      → retryable e ≡ true
      → leb_ℤ limit (pos (count s + 1)) ≡ true
      → (classify s e).fail ≡ some (max_attempts e)
  pub waits :
      (s : S) (e : Error)
      → retryable e ≡ true
      → leb_ℤ limit (pos (count s + 1)) ≡ false
      → (c : C) × ((classify s e).fail ≡ none)
        × ((classify s e).next ≡ some c)
        × (count (classify s e).state ≡ count s + 1)

-- What a task with `n + 1` attempts left, from attempt `k` on, comes to if every error is retryable
-- and every wait ends by a value: the first success, or the last error, wrapped.
unfoldable pub expected : (ℕ → Option Error) → ℕ → ℕ → Option Error × ℕ
expected task zero k = elim (task k) [
  | none ↦ (none, suc k)
  | some e ↦ (some (max_attempts e), suc k)
]
expected task (suc n) k = elim (task k) [ none ↦ (none, suc k) | some e ↦ expected task n (suc k) ]

expected_success :
    (task : ℕ → Option Error) (n k : ℕ) → task k ≡ none → expected task n k ≡ (none, suc k)
unfolding expected
expected_success task zero k e = ground arith
expected_success task (suc n) k e = ground arith

expected_last :
    (task : ℕ → Option Error) (k : ℕ) (x : Error)
    → task k ≡ some x
    → expected task zero k ≡ (some (max_attempts x), suc k)
unfolding expected
expected_last task k x e = ground arith

expected_more :
    (task : ℕ → Option Error) (n k : ℕ) (x : Error)
    → task k ≡ some x
    → expected task (suc n) k ≡ expected task n (suc k)
unfolding expected
expected_more task n k x e = ground arith

module _ {S C : Type 0} {classify : S → Error → Decision S C} {count : S → ℕ} {limit : ℤ}
    {retryable : Error → Bool} (counting : IsCounting classify count limit retryable) where
  -- A round ends the loop, or goes on with the count raised, which is then below the limit.
  follow_cases :
      (s : S) (wake : C → Wake) (e : Error)
      → ((r : Option Error) × (follow (classify s e) wake e ≡ done r))
        ⊎ ((s' : S) × (follow (classify s e) wake e ≡ again s')
            × (count s' ≡ count s + 1)
            × (count s + 1 < pos_part limit))
  unfolding follow
  follow_cases s wake e = elim (Bool-cases (retryable e)) [
    | inr fatal ↦ inl (some e, ground (arith, counting.rejects s e))
    | inl ok ↦ elim (Bool-cases (leb_ℤ limit (pos (count s + 1)))) [
      | inl last ↦ inl (some (max_attempts e), ground (arith, counting.exhausts s e))
      | inr more ↦
          let (c, f, n, raised) = counting.waits s e ok more in
          elim (Option-cases (wait_on_channel (wake c) e)) [
            | inl go ↦ inr ((classify s e).state, rw (f, n, go) refl, raised, ground arith)
            | inr (x, stop) ↦ inl (some x, rw (f, n, stop) refl)
          ]
    ]
  ]

  attempt_cases :
      (s : S) (wake : C → Wake) (o : Option Error)
      → ((r : Option Error) × (attempt classify s wake o ≡ done r))
        ⊎ ((s' : S) × (attempt classify s wake o ≡ again s')
            × (count s' ≡ count s + 1)
            × (count s + 1 < pos_part limit))
  unfolding attempt
  attempt_cases s wake none = inl (none, refl)
  attempt_cases s wake (some e) = follow_cases s wake e

  attempt-none : (s : S) (wake : C → Wake) → attempt classify s wake none ≡ done none
  unfolding attempt
  attempt-none s wake = refl

  attempt_last :
      (s : S) (wake : C → Wake) (e : Error)
      → retryable e ≡ true
      → leb_ℤ limit (pos (count s + 1)) ≡ true
      → attempt classify s wake (some e) ≡ done (some (max_attempts e))
  unfolding attempt
  attempt_last s wake e ok last = ground (arith, counting.exhausts s e)

  attempt_more :
      (s : S) (wake : C → Wake) (e : Error)
      → retryable e ≡ true
      → ((c : C) → wake c ≡ emits)
      → leb_ℤ limit (pos (count s + 1)) ≡ false
      → (s' : S) × (attempt classify s wake (some e) ≡ again s') × (count s' ≡ count s + 1)
  unfolding attempt
  attempt_more s wake e ok value more =
      let (c, f, n, raised) = counting.waits s e ok more in
      ((classify s e).state, ground (arith, value c), raised)

  module _ (task : ℕ → Option Error) (wake : ℕ → C → Wake) where
    loop_done :
        (fuel k : ℕ) (s : S) (r : Option Error)
        → attempt classify s (wake k) (task k) ≡ done r
        → retry_loop classify task wake (suc fuel) k s ≡ some (r, suc k)
    unfolding retry_loop
    loop_done fuel k s r e = ground arith

    loop_again :
        (fuel k : ℕ) (s s' : S)
        → attempt classify s (wake k) (task k) ≡ again s'
        → retry_loop classify task wake (suc fuel) k s
          ≡ retry_loop classify task wake fuel (suc k) s'
    unfolding retry_loop
    loop_again fuel k s s' e = ground arith

    -- The loop ends within the attempts that the limit allows, whatever the task returns and
    -- whatever ends the waits: it makes one attempt at least, and at most as many as are left.
    pub retry_ends :
        (fuel k : ℕ) (s : S)
        → pos_part limit - 1 - count s < fuel
        → (r : Option Error) × (n : ℕ) × (retry_loop classify task wake fuel k s ≡ some (r, n))
          × (k < n)
          × (n ≤ k + 1 + (pos_part limit - 1 - count s))
    retry_ends zero k s h = absurd (omega arith)
    retry_ends (suc fuel) k s h = elim (attempt_cases s (wake k) (task k)) [
      | inl (r, f) ↦ (r, suc k, loop_done fuel k s r f, omega arith, omega arith)
      | inr (s', f, raised, below) ↦
          let (r, n, eq, lo, hi) = retry_ends fuel (suc k) s' (omega arith) in
          (r, n, loop_again fuel k s s' f ∙ eq, omega arith, omega arith)
    ]

    -- If every error is retryable and every wait ends by a value, the loop gives the first success,
    -- or after the last allowed attempt that attempt's error, wrapped.
    pub retry_result :
        ((e : Error) → retryable e ≡ true)
        → ((k : ℕ) (c : C) → wake k c ≡ emits)
        → (fuel k : ℕ) (s : S) → pos_part limit - 1 - count s < fuel
        → retry_loop classify task wake fuel k s
          ≡ some (expected task (pos_part limit - 1 - count s) k)
    retry_result all value zero k s h = absurd (omega arith)
    retry_result all value (suc fuel) k s h = elim (Option-cases (task k)) [
      | inl e ↦
          loop_done fuel k s none (ap (attempt classify s (wake k)) e ∙ attempt-none s (wake k))
          ∙ ap some (sym (expected_success task (pos_part limit - 1 - count s) k e))
      | inr (x, e) ↦ elim (Bool-cases (leb_ℤ limit (pos (count s + 1)))) [
        | inl last ↦
            let left : pos_part limit - 1 - count s ≡ 0 = ground arith in
            rw left (
              loop_done fuel k s (some (max_attempts x))
                (ap (attempt classify s (wake k)) e ∙ attempt_last s (wake k) x (all x) last)
              ∙ ap some (sym (expected_last task k x e)))
        | inr more ↦
            let (s', again_s', raised) = attempt_more s (wake k) x (all x) (value k) more in
            let left : pos_part limit - 1 - count s ≡ suc (pos_part limit - 1 - count s') =
              ground arith in
            loop_again fuel k s s' (ap (attempt classify s (wake k)) e ∙ again_s')
            ∙ retry_result all value fuel (suc k) s' (omega arith)
            ∙ ap some (sym (rw left (expected_more task (pos_part limit - 1 - count s') k x e)))
      ]
    ]

pub loop-IsCounting :
    (l : Loop) → IsCounting (loop_classify l) (λ n. n) (loop_attempts l) (or_always l.retryable)
unfolding loop_classify
loop-IsCounting l = record {
  rejects = λ s e h. ground arith;
  exhausts = λ s e h k. ground arith;
  waits = λ s e h k. (tt, ground arith, ground arith, ground arith);
}
