-- ===== src/Adapt.antt =====
-- adapt.go and signal.go: the package-level functions over the methods of a Context, which is an
-- interface there and a record of operations here. Code runs on a world `W`; `X` is the type of
-- contexts of the package, `S` of those of the standard library, `O` of task options.
pub mod Many
mod Examples
use go_stopper.Prelude.{ℕ, zero, suc, Bool, true, false, List, [], ◌∷◌, ◌++◌, Option, none, some}
use go_stopper.Errors.{Error, sentinel, no_stopper, join}
use go_stopper.Safe.{returns}
use go_stopper.Invocation.{Code, Func, ends, then_run}

-- The six signatures. A Context of the package is a context of the standard library.
pub data Adaptable (W X : Type 0) : Type 0 where
  plain : Code W (Unit {0}) → Adaptable W X
  plain_error : Code W (Option Error) → Adaptable W X
  std : (X → Code W (Unit {0})) → Adaptable W X
  std_error : (X → Code W (Option Error)) → Adaptable W X
  own : (X → Code W (Unit {0})) → Adaptable W X
  own_error : (X → Code W (Option Error)) → Adaptable W X

abbrev pub and_nil : {W : Type 0} → Code W (Unit {0}) → Code W (Option Error)
and_nil t w = then_run (t w) λ u w'. ends (returns none) w'

-- Fn.
unfoldable pub fn_of : {W X : Type 0} → Adaptable W X → Func W X
fn_of (plain t) = λ ctx. and_nil t
fn_of (std t) = λ ctx. and_nil (t ctx)
fn_of (plain_error t) = λ ctx. t
fn_of (std_error t) = λ ctx. t ctx
fn_of (own t) = λ ctx. and_nil (t ctx)
fn_of (own_error t) = t

-- The methods of the interface Context that adapt.go and signal.go call, and From.
pub record Methods (W S X O : Type 0) : Type 0 where
  pub from : S → Option X
  pub call_method : X → Func W X → List O → Code W (Option Error)
  pub go_method : X → Func W X → List O → Code W (Option Error)
  pub defer_method : X → Func W X → Code W Bool
  pub stop_method : X → Code W (Unit {0})
  pub with_caller_offset : ℕ → O

-- The case that a select takes.
pub data Ready : Type 0 where
  received stopping_seen done_seen : Ready

module _ {W S X O : Type 0} (m : Methods W S X O) where
  abbrev pub with_offset : List O → List O
  with_offset opts = opts ++ m.with_caller_offset 1 ∷ []

  -- Call.
  unfoldable pub call_any : S → Adaptable W X → List O → Code W (Option Error)
  unfolding fn_of
  call_any ctx fn opts w = elim (m.from ctx) [
    | none ↦ ends (returns (some (sentinel no_stopper))) w
    | some s ↦ m.call_method s (fn_of fn) (with_offset opts) w
  ]

  -- Defer.
  unfoldable pub defer_any : S → Adaptable W X → Code W (Bool × Option Error)
  unfolding fn_of
  defer_any ctx fn w = elim (m.from ctx) [
    | none ↦ ends (returns (false, some (sentinel no_stopper))) w
    | some s ↦
        then_run (m.defer_method s (fn_of fn) w) λ deferred w'. ends (returns (deferred, none)) w'
  ]

  -- Go.
  unfoldable pub go_any : S → Adaptable W X → List O → Code W (Option Error)
  unfolding fn_of
  go_any ctx fn opts w = elim (m.from ctx) [
    | none ↦ ends (returns (some (sentinel no_stopper))) w
    | some s ↦ m.go_method s (fn_of fn) (with_offset opts) w
  ]

  -- The loop of GoN, which fills `errs`.
  unfoldable pub go_loop : ℕ → X → Func W X → List O → Code W (List (Option Error))
  go_loop zero s f opts w = ends (returns []) w
  go_loop (suc count) s f opts w =
      then_run (m.go_method s f (with_offset opts) w)
        λ err w1. then_run (go_loop count s f opts w1) λ errs w2. ends (returns (err ∷ errs)) w2

  -- GoN.
  unfoldable pub go_n : S → ℕ → Adaptable W X → List O → Code W (Option Error)
  unfolding fn_of go_loop
  go_n ctx count fn opts w = elim (m.from ctx) [
    | none ↦ ends (returns (some (sentinel no_stopper))) w
    | some s ↦ then_run (go_loop count s (fn_of fn) opts w) λ errs w'. ends (returns (join errs)) w'
  ]

  -- The task of StopOnReceive, given the case of its select.
  unfoldable pub stop_task : Ready → Func W X
  stop_task received ctx w = and_nil (m.stop_method ctx) w
  stop_task stopping_seen ctx w = ends (returns none) w
  stop_task done_seen ctx w = ends (returns none) w

  -- StopOnReceive, which ignores the error of Go.
  unfoldable pub stop_on_receive : Ready → X → Code W (Unit {0})
  unfolding stop_task
  stop_on_receive ready ctx w =
      then_run (m.go_method ctx (stop_task ready) [] w) λ err w'. ends (returns tt) w'
