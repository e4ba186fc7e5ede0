-- ===== src/Forest/Endings.antt =====
-- The cancel functions that the critical sections of internal/state/state.go hand out.
use go_stopper.Prelude.{
  ◌≡◌, ◌<◌, refl, Bool, true, false, List, [], ◌∷◌, arith, count_if, count_if-append,
}
use go_stopper.Prelude.Int.{ℤ, pos}
use go_stopper.Errors.{stopped}
use go_stopper.State.{State, Callback, user, cancel_with}
use go_stopper.State.Trace.{
  Op, applies, defers, stops, stops_on_idle, adds_errors, adds_hook, cancels_hook, expires, exec,
}
use go_stopper.State.Invariant.{Permitted}
use go_stopper.State.Conservation.{is_cancel}

-- The cancel function with ErrStopped.
abbrev pub is_clean : Callback → Bool
is_clean (cancel_with k stopped) = true
is_clean _ = false

-- The list of deferred functions has those of users.
pub exec_defers_users :
    (now : ℤ) (op : Op) (s : State)
    → count_if is_cancel s.deferred ≡ 0
    → count_if is_cancel (exec now op s).after.deferred ≡ 0
unfolding exec
exec_defers_users now (applies delta) s h = ground arith
exec_defers_users now (defers fn) s h =
    ground (arith, count_if-append is_cancel s.deferred (user fn ∷ []))
exec_defers_users now (stops g) s h = ground arith
exec_defers_users now (stops_on_idle g) s h = ground arith
exec_defers_users now (adds_errors es) s h = ground arith
exec_defers_users now (adds_hook k) s h = ground arith
exec_defers_users now (cancels_hook c) s h = ground arith
exec_defers_users now expires s h = ground arith

-- A section that hands out the cancel function leaves the state stopping.
pub exec_cancel_stops :
    (now : ℤ) (op : Op) (s : State)
    → Permitted op s
    → count_if is_cancel s.deferred ≡ 0
    → 0 < count_if is_cancel (exec now op s).deferred
    → (exec now op s).after.stopping ≡ true
unfolding exec
exec_cancel_stops now (applies delta) s p h l = ground arith
exec_cancel_stops now (defers fn) s p h l = ground arith
exec_cancel_stops now (stops g) s p h l = ground arith
exec_cancel_stops now (stops_on_idle g) s p h l = ground arith
exec_cancel_stops now (adds_errors es) s p h l = ground arith
exec_cancel_stops now (adds_hook k) s p h l = ground arith
exec_cancel_stops now (cancels_hook c) s p h l = ground arith
exec_cancel_stops now expires s p h l = ground arith

-- A section that hands it out with ErrStopped leaves no task.
pub exec_clean_drains :
    (now : ℤ) (op : Op) (s : State)
    → count_if is_clean s.deferred ≡ 0
    → 0 < count_if is_clean (exec now op s).deferred
    → (exec now op s).after.count ≡ pos 0
unfolding exec
exec_clean_drains now (applies delta) s h l = ground arith
exec_clean_drains now (defers fn) s h l = ground arith
exec_clean_drains now (stops g) s h l = ground arith
exec_clean_drains now (stops_on_idle g) s h l = ground arith
exec_clean_drains now (adds_errors es) s h l = ground arith
exec_clean_drains now (adds_hook k) s h l = ground arith
exec_clean_drains now (cancels_hook c) s h l = ground arith
exec_clean_drains now expires s h l = ground arith

pub clean-le-cancel : (cbs : List Callback) → count_if is_cancel cbs ≡ 0 → count_if is_clean cbs ≡ 0
clean-le-cancel [] h = refl
clean-le-cancel (cb ∷ cbs) h = ground (arith, clean-le-cancel cbs)
