-- ===== src/Context/Stop.antt =====
-- What Stop and the default error handler do to a State (stopper.go, options.go).
use go_stopper.Prelude.{◌≡◌, Bool, true, false, List, [], ◌∷◌, ◌++◌, some, arith, if◌then◌else◌}
use go_stopper.Prelude.Int.{ℤ, pos, eqb_ℤ}
use go_stopper.Errors.{Error}
use go_stopper.State.{State, soft_stop_locked, stop_on_idle, settle, add_errors}
use go_stopper.State.Errs.{add_errors_appends}
use go_stopper.Context.{
  StopConfig, StopOption, stop_grace_period, stop_when_idle, set_stops, stop, error_handler_stop,
}

-- The grace period of a list of options: the last one given, or the configured one.
abbrev pub last_grace : List StopOption → ℤ → ℤ
last_grace [] g = g
last_grace (stop_grace_period k ∷ os) g = last_grace os k
last_grace (stop_when_idle ∷ os) g = last_grace os g

abbrev pub asks_idle : List StopOption → Bool
asks_idle [] = false
asks_idle (stop_grace_period k ∷ os) = asks_idle os
asks_idle (stop_when_idle ∷ os) = true

set_stops-fields :
    (os : List StopOption) (c : StopConfig)
    → ((set_stops os c).grace_period ≡ last_grace os c.grace_period)
      × ((set_stops os c).on_idle ≡ (if c.on_idle then true else asks_idle os))
unfolding set_stops
set_stops-fields [] c = ground arith
set_stops-fields (stop_grace_period k ∷ os) c = set_stops-fields os (record c { grace_period = k })
set_stops-fields (stop_when_idle ∷ os) c =
    ground (arith, set_stops-fields os (record c { on_idle = true }))

soft_stop_facts :
    (now g : ℤ) (s : State)
    → ((soft_stop_locked now g s).0.stopping ≡ true)
      × ((soft_stop_locked now g s).0.stop_on_idle ≡ s.stop_on_idle)
      × ((soft_stop_locked now g s).0.errs ≡ s.errs)
unfolding soft_stop_locked settle
soft_stop_facts now g s = ground arith

stop_on_idle_waits :
    (now g : ℤ) (s : State)
    → ((stop_on_idle now g s).0.stopping ≡ (if eqb_ℤ s.count (pos 0) then true else s.stopping))
      × ((stop_on_idle now g s).0.count ≡ s.count)
      × ((stop_on_idle now g s).0.stop_on_idle ≡ some g)
unfolding stop_on_idle soft_stop_locked settle
stop_on_idle_waits now g s = ground arith

-- Stop makes a context stop, unless it is told to stop on idle and there are tasks: then it stays
-- as it is, and keeps the grace period for the time when the last task ends. The grace period is
-- the last one of the options, or else the configured one.
stop_takes_effect :
    (configured : ℤ) (os : List StopOption) (now : ℤ) (s : State)
    → ((stop configured os now s).0.stopping
        ≡ (if asks_idle os then (if eqb_ℤ s.count (pos 0) then true else s.stopping) else true))
      × ((stop configured os now s).0.stop_on_idle
          ≡ (if asks_idle os then some (last_grace os configured) else s.stop_on_idle))
unfolding stop
stop_takes_effect configured os now s =
    let init : StopConfig = record { grace_period = configured; on_idle = false } in
    let grace = (set_stops os init).grace_period in
    ground
      (arith, set_stops-fields os init, soft_stop_facts now grace s, stop_on_idle_waits now grace s)

-- ErrorHandlerStop records the error and stops the context with the configured grace period.
error_handler_stop_lem :
    (configured : ℤ) (err : Error) (now : ℤ) (s : State)
    → ((error_handler_stop configured err now s).0.stopping ≡ true)
      × ((error_handler_stop configured err now s).0.errs ≡ s.errs ++ err ∷ [])
unfolding error_handler_stop stop
error_handler_stop_lem configured err now s = ground (
  arith,
  add_errors_appends (some err ∷ []) s,
  soft_stop_facts now configured (add_errors (some err ∷ []) s),
)
