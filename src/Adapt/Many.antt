-- ===== src/Adapt/Many.antt =====
-- Many tasks at once: GoN (adapt.go).
use go_stopper.Prelude.{ℕ, zero, suc, ◌≡◌, refl, List, [], ◌∷◌, Option, some}
use go_stopper.Errors.{Error, join}
use go_stopper.Safe.{returns}
use go_stopper.Invocation.{Func, ends}
use go_stopper.Adapt.{Adaptable, fn_of, Methods, with_offset, go_loop, go_n}

-- The worlds that a Go leads through, `count` times, and the errors that it gives.
abbrev pub after_times : {W : Type 0} → (W → Option Error × W) → ℕ → W → W
after_times step zero w = w
after_times step (suc n) w = after_times step n (step w).1

abbrev pub errors_of : {W : Type 0} → (W → Option Error × W) → ℕ → W → List (Option Error)
errors_of step zero w = []
errors_of step (suc n) w = (step w).0 ∷ errors_of step n (step w).1

module _ {W S X O : Type 0} (m : Methods W S X O) where
  go_loop_lem :
      (step : W → Option Error × W) (count : ℕ) (s : X) (f : Func W X) (opts : List O) (w : W)
      → ((w : W) → m.go_method s f (with_offset m opts) w ≡ ends (returns (step w).0) (step w).1)
      → go_loop m count s f opts w
        ≡ ends (returns (errors_of step count w)) (after_times step count w)
  unfolding go_loop
  go_loop_lem step zero s f opts w h = refl
  go_loop_lem step (suc count) s f opts w h =
      rw (h w) (rw (go_loop_lem step count s f opts (step w).1 h) refl)

  -- On the context of a stopper whose Go always returns, GoN calls Go exactly `count` times, one
  -- after the other, with the same function and options, refusals included, and joins the errors.
  pub go_n-joins :
      (step : W → Option Error × W) (ctx : S) (s : X) (count : ℕ) (fn : Adaptable W X)
      (opts : List O) (w : W)
      → m.from ctx ≡ some s
      → ((w : W)
          → m.go_method s (fn_of fn) (with_offset m opts) w ≡ ends (returns (step w).0) (step w).1)
      → go_n m ctx count fn opts w
        ≡ ends (returns (join (errors_of step count w))) (after_times step count w)
  unfolding go_n
  go_n-joins step ctx s count fn opts w found h =
      rw (found, go_n) (rw (go_loop_lem step count s (fn_of fn) opts w h) refl)
