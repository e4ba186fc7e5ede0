-- ===== src/Compat/Chain.antt =====
-- Invokers and the background context (compat/stopper.go).
use go_stopper.Prelude.{ℕ, ◌≡◌, refl, sym, ap, ◌∙◌, List, [], ◌∷◌, ◌++◌, none}
use go_stopper.Prelude.Int.{ℤ}
use go_stopper.Errors.{Error}
use go_stopper.Safe.{returns, panics, error_value}
use go_stopper.Invocation.{Ran, Code, ends, blocks, then_run}
use go_stopper.Compat.{
  Func, AnyContext, other, V2, wrap, apply_invokers, call, defer_fn, from, stop, stop_on_idle, wait,
  with_delegate, with_invoker,
}

then_run-then_run :
    {W A B C : Type 0} (m : Ran W A) (f : A → Code W B) (g : B → Code W C)
    → then_run (then_run m f) g ≡ then_run m (λ a w. then_run (f a w) g)
then_run-then_run (ends (returns a) w) f g = refl
then_run-then_run (ends (panics r) w) f g = refl
then_run-then_run blocks f g = refl

then_run_returns : {W A : Type 0} (m : Ran W A) → then_run m (λ a w. ends (returns a) w) ≡ m
then_run_returns (ends (returns a) w) = refl
then_run_returns (ends (panics r) w) = refl
then_run_returns blocks = refl

module _ {W S X : Type 0} (v : V2 W S X) (invoke : ℕ → Func W X → Code W (Func W X)) where
  apply_invokers-snoc :
      (is : List ℕ) (inv : ℕ) (fn : Func W X) (w : W)
      → apply_invokers v invoke (is ++ inv ∷ []) fn w
        ≡ then_run (invoke inv fn w) (apply_invokers v invoke is)
  unfolding apply_invokers
  apply_invokers-snoc [] inv fn w = sym (then_run_returns (invoke inv fn w))
  apply_invokers-snoc (i ∷ is) inv fn w =
      ap (λ m. then_run m (invoke i)) (apply_invokers-snoc is inv fn w)
      ∙ then_run-then_run (invoke inv fn w) (apply_invokers v invoke is) (invoke i)

  -- A Call on the child that WithInvoker makes first runs the setup of the new invoker on the task,
  -- then the setups of the parent's invokers, the newest first, and only then asks version 2 to
  -- call what they have made. A panic in a setup ends it at once.
  pub with_invoker-call :
      (ctx : AnyContext S X) (inv : ℕ) (fn : Func W X) (inner : X) (w w' : W)
      → v.v2_with_context ctx w ≡ ends (returns inner) w'
      → then_run (with_invoker v invoke ctx inv w) (λ c. call v invoke c fn)
        ≡ then_run (invoke inv fn w') λ inside w1.
          then_run
            (apply_invokers v invoke (from v invoke ctx).invokers inside w1)
            λ task w2. v.v2_call inner (λ x. task (wrap x)) w2
  unfolding with_invoker call
  with_invoker-call ctx inv fn inner w w' h = rw h (
      ap (λ m. then_run m (λ task w2. v.v2_call inner (λ x. task (wrap x)) w2))
        (apply_invokers-snoc (from v invoke ctx).invokers inv fn w')
      ∙ then_run-then_run (invoke inv fn w') (apply_invokers v invoke (from v invoke ctx).invokers)
          (λ task w2. v.v2_call inner (λ x. task (wrap x)) w2))

  -- A context that version 2 does not know is given the background context. Stop and StopOnIdle do
  -- nothing on it, also through With, Wait returns nil at once, and Defer panics.
  pub background_inert :
      (s : S) (d : AnyContext S X) (grace_period : ℤ) (refusal : Error) (fn : Code W (Unit {0}))
      (w : W)
      → v.v2_from (other s) ≡ none
      → (stop v invoke (with_delegate v invoke (from v invoke (other s)) d) grace_period w
          ≡ ends (returns tt) w)
        × (stop_on_idle v invoke (from v invoke (other s)) w ≡ ends (returns tt) w)
        × (wait v invoke (from v invoke (other s)) w ≡ ends (returns none) w)
        × (defer_fn v invoke refusal (from v invoke (other s)) fn w
            ≡ ends (panics (error_value refusal)) w)
  unfolding stop stop_on_idle wait defer_fn with_delegate from
  background_inert s d grace_period refusal fn w h = rw (h, from) (refl, refl, refl, refl)
