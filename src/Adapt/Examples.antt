-- ===== src/Adapt/Examples.antt =====
-- Runs of adapt.go on a Context that accepts two tasks.
use go_stopper.Prelude.{ℕ, ◌+◌, ◌≡◌, refl, true, [], Option, none, some, if◌then◌else◌, ltb}
use go_stopper.Errors.{Error, sentinel, stopped, no_stopper}
use go_stopper.Safe.{returns}
use go_stopper.Invocation.{ends}
use go_stopper.Adapt.{Adaptable, plain, Methods, call_any}

-- The world counts the tasks; a standard context is a stopper's unless it is 0.
abbrev accept : ℕ → Option Error × ℕ
accept w = if ltb w 2 then (none, w + 1) else (some (sentinel stopped), w)

abbrev methods : Methods ℕ ℕ ℕ ℕ
methods = record {
  from = λ s. if ltb 0 s then some s else none;
  call_method = λ x f opts. f x;
  go_method = λ x f opts w. ends (returns (accept w).0) (accept w).1;
  defer_method = λ x f w. ends (returns true) w;
  stop_method = λ x w. ends (returns tt) w;
  with_caller_offset = λ n. n;
}

abbrev ticking : Adaptable ℕ ℕ
ticking = plain (λ w. ends (returns tt) (w + 1))

call_any_runs :
    (call_any methods 0 ticking [] 5 ≡ ends (returns (some (sentinel no_stopper))) 5)
    × (call_any methods 1 ticking [] 5 ≡ ends (returns none) 6)
unfolding call_any
call_any_runs = (refl, refl)
