-- ===== src/Safe/Examples.antt =====
-- Runs of internal/safe/safe.go.
use go_stopper.Prelude.{ℕ, ◌≡◌, refl, none, some}
use go_stopper.Errors.{user_error, panic_text, recovered, joined, nil, cons}
use go_stopper.Safe.{returns, panics, error_value, other_value, call, call_e, call_re}

call_runs :
    (call (panics (error_value (user_error 1))) ≡ some (recovered (user_error 1)))
    × (call_e (returns none) ≡ none)
    × (call_re {R = ℕ} 0 (panics (other_value 2))
        ≡ (0, some (recovered (joined (cons (panic_text 2) nil)))))
unfolding call call_e call_re
call_runs = (refl, refl, refl)
