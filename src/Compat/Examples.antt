-- ===== src/Compat/Examples.antt =====
-- Runs of compat/stopper.go.
use go_stopper.Prelude.{ℕ, ◌+◌, true, false, ◌≡◌, refl, List, [], ◌∷◌, ◌++◌, none}
use go_stopper.Prelude.Int.{pos}
use go_stopper.Errors.{user_error}
use go_stopper.Safe.{returns, panics, error_value}
use go_stopper.Invocation.{Code, ends, then_run}
use go_stopper.Compat.{
  Func, AnyContext, compat, other, V2, apply_invokers, call, defer_fn, from, stop, stop_on_idle,
  wait, with_delegate, with_invoker,
}
use go_stopper.Compat.Chain.{with_invoker-call, background_inert}

-- The world records what runs; version 2 knows no standard context.
abbrev v2 : V2 (List ℕ) ℕ ℕ
v2 = record {
  v2_new = 0;
  v2_from = λ s. none;
  v2_call = λ x f. f x;
  v2_go = λ x f. f x;
  v2_defer = λ x f w. ends (returns true) w;
  v2_stop = λ x g w. ends (returns tt) (9 ∷ w);
  v2_stop_on_idle = λ x w. ends (returns tt) (9 ∷ w);
  v2_wait = λ x w. ends (returns none) (9 ∷ w);
  v2_with_delegate = λ x s. x;
  v2_with_context = λ s w. ends (returns 1) w;
  v2_stopping_context = λ x. other x;
}

-- An invoker that notes its setup, and then its run.
abbrev noting : ℕ → Func (List ℕ) ℕ → Code (List ℕ) (Func (List ℕ) ℕ)
noting i fn w = ends (returns (λ ctx w1. fn ctx (w1 ++ i ∷ []))) (w ++ (10 + i) ∷ [])

abbrev parent : AnyContext ℕ ℕ
parent = compat (record { inner = 0; invokers = 3 ∷ 4 ∷ []; is_background = false })

abbrev task : Func (List ℕ) ℕ
task ctx w = ends (returns none) (w ++ 7 ∷ [])

with_invoker_runs :
    then_run (with_invoker v2 noting parent 5 []) (λ c. call v2 noting c task)
    ≡ ends (returns none) (15 ∷ 14 ∷ 13 ∷ 3 ∷ 4 ∷ 5 ∷ 7 ∷ [])
unfolding with_invoker call
with_invoker_runs = refl

with_invoker-call_example :
    then_run (with_invoker v2 noting parent 5 []) (λ c. call v2 noting c task)
    ≡ ends (returns none) (15 ∷ 14 ∷ 13 ∷ 3 ∷ 4 ∷ 5 ∷ 7 ∷ [])
unfolding apply_invokers from
with_invoker-call_example = with_invoker-call v2 noting parent 5 task 1 [] [] refl

background_inert_example :
    (stop v2 noting (with_delegate v2 noting (from v2 noting (other 6)) parent) (pos 5) []
      ≡ ends (returns tt) [])
    × (stop_on_idle v2 noting (from v2 noting (other 6)) [] ≡ ends (returns tt) [])
    × (wait v2 noting (from v2 noting (other 6)) [] ≡ ends (returns none) [])
    × (defer_fn v2 noting (user_error 1) (from v2 noting (other 6)) (λ w. ends (returns tt) w) []
        ≡ ends (panics (error_value (user_error 1))) [])
background_inert_example =
    background_inert v2 noting 6 parent (pos 5) (user_error 1) (λ w. ends (returns tt) w) [] refl
