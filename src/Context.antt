-- ===== src/Context.antt =====
-- The methods of stopper.go's Context on top of the State: Stop with its options, Wait and WaitCtx,
-- the error handlers of options.go, and the stopping context of stopping_ctx.go.
pub mod Stop
pub mod Wait
mod Examples
use go_stopper.Prelude.{
  Bool, true, false, List, [], ◌∷◌, ◌++◌, Option, none, some, map, if◌then◌else◌,
}
use go_stopper.Prelude.Int.{ℤ}
use go_stopper.Errors.{
  Error, sentinel, stopped, grace_period_expired, canceled, join, joined, nil, cons, is_error?,
}
use go_stopper.State.{State, Callback, soft_stop_locked, stop_on_idle, add_errors}

pub record StopConfig : Type 0 where
  pub grace_period : ℤ
  pub on_idle : Bool

pub data StopOption : Type 0 where
  stop_grace_period : ℤ → StopOption
  stop_when_idle : StopOption

-- The option functions, in order.
unfoldable pub set_stops : List StopOption → StopConfig → StopConfig
set_stops [] c = c
set_stops (stop_grace_period g ∷ os) c = set_stops os (record c { grace_period = g })
set_stops (stop_when_idle ∷ os) c = set_stops os (record c { on_idle = true })

-- Stop, for a context whose configured grace period is given. The stop's Sanitize does nothing.
unfoldable pub stop : ℤ → List StopOption → ℤ → State → State × List Callback
unfolding set_stops
stop configured opts now s =
    let cfg = set_stops opts (record { grace_period = configured; on_idle = false }) in
    if cfg.on_idle
    then stop_on_idle now cfg.grace_period s
    else soft_stop_locked now cfg.grace_period s

-- ErrorHandlerRecord and ErrorHandlerStop.
unfoldable pub error_handler_record : Error → State → State
error_handler_record err s = add_errors (some err ∷ []) s

unfoldable pub error_handler_stop : ℤ → Error → ℤ → State → State × List Callback
error_handler_stop configured err now s = stop configured [] now (add_errors (some err ∷ []) s)

-- The case of WaitCtx's select: the context is done, with its cause, or the argument is done, with
-- its error.
pub data Waited : Type 0 where
  context_done : Option Error → Waited
  argument_done : Option Error → Waited

-- WaitCtx, given the errors of the State.
unfoldable pub wait_ctx : List Error → Waited → Option Error
wait_ctx errs (context_done cause) =
    let err = join (map some errs) in
    if is_error? cause grace_period_expired
    then join (err ∷ some (sentinel grace_period_expired) ∷ [])
    else err
wait_ctx errs (argument_done ctx_err) = join (map some errs ++ ctx_err ∷ [])

-- stoppingCtx.Err: errCanceledStopped, or the error of the context.
unfoldable pub stopping_err : Bool → Option Error → Option Error
stopping_err stopping ctx_err =
    if stopping then join (some (sentinel canceled) ∷ some (sentinel stopped) ∷ []) else ctx_err
