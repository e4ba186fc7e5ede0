-- ===== src/State.antt =====
-- internal/state/state.go: the state that a stopper Context shares with its delegates.
-- Every method body that runs under the mutex is one function here, from the state at the lock to
-- the state at the unlock, with the callbacks that the method runs once the mutex is released.
pub mod Trace
pub mod Invariant
pub mod Conservation
pub mod Order
pub mod Drain
pub mod Errs
pub mod Lifecycle
pub mod Refinement
mod Examples
use go_stopper.Prelude.{
  ℕ, ◌+◌, Bool, true, false, not, ◌&&◌, List, [], ◌∷◌, ◌++◌, Option, none, some, ◌==◌,
  if◌then◌else◌, is_some,
}
use go_stopper.Prelude.Int.{ℤ, pos, ◌+ℤ◌, negate, ltb_ℤ, leb_ℤ, eqb_ℤ}
use go_stopper.Errors.{Error, non_nil, Sentinel, stopped, grace_period_expired}
use go_stopper.Safe.{Outcome, call_e}

-- A hook of stopHooks, with the child that is its key. States and functions go by numbers.
pub record Hook : Type 0 where
  pub child : ℕ
  pub fn : ℕ

-- A func() error that is run outside the mutex: a user's deferred function, the cancel function
-- with its cause, the stop hooks of the children, the release of a parent's count.
pub data Callback : Type 0 where
  user : ℕ → Callback
  cancel_with : ℕ → Sentinel → Callback
  run_hooks : List Hook → Callback
  release_parent : ℤ → Callback

-- `closes` counts the calls of close(s.stopping): a second one would panic. Times and durations
-- are nanoseconds. A timer is the time at which it fires.
pub record State : Type 0 where
  pub has_parent : Bool
  pub closes : ℕ
  pub cancel : Option ℕ
  pub count : ℤ
  pub deferred : List Callback
  pub errs : List Error
  pub grace_timer : Option ℤ
  pub stop_at : Option ℤ
  pub stop_hooks : List Hook
  pub stop_on_idle : Option ℤ
  pub stopping : Bool

-- New.
unfoldable pub new : ℕ → Bool → State
new cancel has_parent = record {
  has_parent = has_parent;
  closes = 0;
  cancel = some cancel;
  count = pos 0;
  deferred = [];
  errs = [];
  grace_timer = none;
  stop_at = none;
  stop_hooks = [];
  stop_on_idle = none;
  stopping = false;
}

-- The timer part of hardStopLocked.
unfoldable pub clear_timer : State → State
clear_timer s = if is_some s.grace_timer then record s { grace_timer = none; stop_at = none } else s

-- hardStopLocked: the cancel function comes first, then the deferred callbacks in their order.
unfoldable pub hard_stop_locked : Sentinel → State → State × List Callback
unfolding clear_timer
hard_stop_locked err s = elim s.cancel [
  | none ↦ (s, [])
  | some cancel_fn ↦ (
    record (clear_timer (record s { cancel = none })) { deferred = [] },
    cancel_with cancel_fn err ∷ s.deferred,
  )
]

-- updateGraceTimerLocked. The previous timer is stopped and replaced.
unfoldable pub update_grace_timer_locked : ℤ → ℤ → State → State
update_grace_timer_locked now grace_period s =
    let new_stop_at = now +ℤ grace_period in
    let armed = record s { stop_at = some new_stop_at; grace_timer = some new_stop_at } in
    elim s.stop_at [ none ↦ armed | some stop_at ↦ if leb_ℤ stop_at new_stop_at then s else armed ]

-- The first step of softStopLocked.
unfoldable pub close_stopping : State → State
close_stopping s = if not s.stopping then record s { stopping = true; closes = s.closes + 1 } else s

-- The hooks that softStopLocked takes, as one callback.
unfoldable pub take_hooks : State → State × List Callback
take_hooks s = elim s.stop_hooks [
  | [] ↦ (s, [])
  | h ∷ hs ↦ (record s { stop_hooks = [] }, run_hooks (h ∷ hs) ∷ [])
]

-- The last step of softStopLocked.
unfoldable pub settle : ℤ → ℤ → State → State × List Callback
unfolding hard_stop_locked update_grace_timer_locked
settle now grace_period s =
    if eqb_ℤ s.count (pos 0)
    then hard_stop_locked stopped s
    else if leb_ℤ grace_period (pos 0)
    then hard_stop_locked grace_period_expired s
    else (update_grace_timer_locked now grace_period s, [])

-- softStopLocked.
unfoldable pub soft_stop_locked : ℤ → ℤ → State → State × List Callback
unfolding close_stopping take_hooks
soft_stop_locked now grace_period s =
    let (hooked, hooks) = take_hooks (close_stopping s) in
    let (settled, stops) = settle now grace_period hooked in (settled, hooks ++ stops)

-- How a method ends: by its Boolean result, or by the panic "over-released".
pub data Verdict : Type 0 where
  result : Bool → Verdict
  over_released : Verdict

pub record Section : Type 0 where
  pub after : State
  pub deferred : List Callback
  pub verdict : Verdict

abbrev pub section_of : State × List Callback → Verdict → Section
section_of (s, cbs) v = record { after = s; deferred = cbs; verdict = v }

-- Apply up to the call of the parent: whether the delta is refused at once.
unfoldable pub apply_refused : ℤ → State → Bool
apply_refused delta s = if eqb_ℤ delta (pos 0) then true else s.stopping && ltb_ℤ (pos 0) delta

-- What Apply does when the new count is known to be no less than zero.
unfoldable pub after_count : ℤ → State → State × List Callback
unfolding soft_stop_locked hard_stop_locked
after_count now s =
    if eqb_ℤ s.count (pos 0)
    then elim s.stop_on_idle [
      | some grace_period ↦ soft_stop_locked now grace_period s
      | none ↦ if s.stopping then hard_stop_locked stopped s else (s, [])
    ]
    else (s, [])

-- The critical section of Apply, which runs once the parent has accepted the delta.
unfoldable pub apply_locked : ℤ → ℤ → State → Section
unfolding negate
apply_locked now delta s =
    let counted = record s { count = s.count +ℤ delta } in
    if s.stopping && ltb_ℤ (pos 0) delta
    then record {
      after = s;
      deferred = if s.has_parent then release_parent (negate delta) ∷ [] else [];
      verdict = result false;
    }
    else if ltb_ℤ counted.count (pos 0)
    then record { after = counted; deferred = []; verdict = over_released }
    else section_of (after_count now counted) (result true)

-- addDeferred.
unfoldable pub add_deferred : ℕ → State → State × Bool
add_deferred fn s =
    if s.stopping && eqb_ℤ s.count (pos 0)
    then (s, false)
    else (record s { deferred = s.deferred ++ user fn ∷ [] }, true)

-- The slices.ContainsFunc test of AddErrors.
abbrev pub contains_error : List (Option Error) → Bool
contains_error [] = false
contains_error (e ∷ es) = if is_some e then true else contains_error es

-- AddErrors, with its early returns.
unfoldable pub add_errors : List (Option Error) → State → State
add_errors errs s = if contains_error errs then record s { errs = s.errs ++ non_nil errs } else s

-- stopHooks[child] = fn.
abbrev pub put_hook : Hook → List Hook → List Hook
put_hook h [] = h ∷ []
put_hook h (k ∷ ks) = if k.child == h.child then h ∷ ks else k ∷ put_hook h ks

-- delete(stopHooks, child).
abbrev pub delete_hook : ℕ → List Hook → List Hook
delete_hook c [] = []
delete_hook c (k ∷ ks) = if k.child == c then ks else k ∷ delete_hook c ks

-- AddStopHook: a hook on a stopping state is run at once.
unfoldable pub add_stop_hook : Hook → State → State × List Callback
add_stop_hook h s =
    if s.stopping
    then (s, run_hooks (h ∷ []) ∷ [])
    else (record s { stop_hooks = put_hook h s.stop_hooks }, [])

-- The function that AddStopHook returns: disarmed once the channel is closed.
unfoldable pub cancel_stop_hook : ℕ → State → State
cancel_stop_hook c s =
    if not (s.closes == 0) then s else record s { stop_hooks = delete_hook c s.stop_hooks }

-- StopOnIdle.
unfoldable pub stop_on_idle : ℤ → ℤ → State → State × List Callback
unfolding soft_stop_locked
stop_on_idle now grace_period s =
    let idle = record s { stop_on_idle = some grace_period } in
    if eqb_ℤ s.count (pos 0) then soft_stop_locked now grace_period idle else (idle, [])

-- The function of the grace timer.
unfoldable pub grace_timer_fires : State → State × List Callback
unfolding hard_stop_locked
grace_timer_fires s = hard_stop_locked grace_period_expired s

-- CallE and AddErrors for one function.
unfoldable pub record_outcome : Outcome (Option Error) → State → State
record_outcome o s = elim (call_e o) [ none ↦ s | some err ↦ add_errors (some err ∷ []) s ]

-- callDeferred: the functions run in reverse order, and `runs` says how each of them ends.
unfoldable pub call_deferred : (Callback → Outcome (Option Error)) → List Callback → State → State
unfolding record_outcome
call_deferred runs [] s = s
call_deferred runs (fn ∷ fns) s = record_outcome (runs fn) (call_deferred runs fns s)

-- AddDeferred: the function runs at once if addDeferred did not keep it.
unfoldable pub add_deferred_or_run : ℕ → Outcome (Option Error) → State → State × Bool
unfolding add_deferred record_outcome
add_deferred_or_run fn o s =
    let (s', kept) = add_deferred fn s in if kept then (s', true) else (record_outcome o s', false)
