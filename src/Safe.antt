-- ===== src/Safe.antt =====
-- internal/safe/safe.go: calling user-provided functions under a panic handler.
pub mod Recovery
mod Examples
use go_stopper.Prelude.{ℕ, [], ◌∷◌, Option, none, some}
use go_stopper.Errors.{Error, panic_text, recovered, joined, non_nil, to_errors}

-- The value that `recover` returns: an error, or any other value.
pub data Panic : Type 0 where
  error_value : Error → Panic
  other_value : ℕ → Panic

-- How a call of user-provided code ends: it returns its results, or it panics.
pub data Outcome {ℓ} (A : Type ℓ) : Type ℓ where
  returns : A → Outcome A
  panics : Panic → Outcome A

-- The error of a recovered value: the value itself, or fmt.Errorf("panic: %v", r).
abbrev pub panic_error : Panic → Error
panic_error (error_value e) = e
panic_error (other_value n) = panic_text n

-- RecoveredError.Unwrap.
unwrap : Error → Option Error
unwrap (recovered e) = some e
unwrap _ = none

-- Call: the deferred handler replaces the error.
unfoldable pub call : Outcome (Unit {0}) → Option Error
call (returns tt) = none
call (panics r) = some (recovered (panic_error r))

-- The deferred handler of CallE and CallRE, given the named result at the time of the panic:
-- errors.Join keeps the non-nil ones of the two, and the recovered one is never nil.
abbrev pub recover_joined : Option Error → Panic → Option Error
recover_joined err r =
    some (recovered (joined (to_errors (non_nil (err ∷ some (panic_error r) ∷ [])))))

-- A panic leaves the named result nil, since the assignment of the call's result has not happened.
unfoldable pub call_e : Outcome (Option Error) → Option Error
call_e (returns err) = err
call_e (panics r) = recover_joined none r

-- The result is the zero value if the function panics.
unfoldable pub call_re {ℓ} : {R : Type ℓ} → R → Outcome (R × Option Error) → R × Option Error
call_re zero_value (returns (ret, err)) = (ret, err)
call_re zero_value (panics r) = (zero_value, recover_joined none r)
