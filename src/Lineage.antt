-- ===== src/Lineage.antt =====
-- How contexts nest (stopper.go, stopping_ctx.go, task_info.go): the values that they carry, and
-- what newContext leaves with a parent until the clean-up of the child.
pub mod Values
pub mod Cleanup
mod Examples
use go_stopper.Prelude.{
  ℕ, Bool, true, false, List, [], ◌∷◌, ◌++◌, Option, none, some, if◌then◌else◌, ◌==◌, not,
}
use go_stopper.Prelude.Int.{ℤ}
use go_stopper.Errors.{Sentinel}
use go_stopper.State.{State, Hook, Callback, add_stop_hook, cancel_stop_hook}

-- Keys of values: Key, implKey, taskGroupKey, taskInfoKey, and those of users.
pub data Key : Type 0 where
  stopper_key impl_key group_key info_key : Key
  user_key : ℕ → Key

abbrev pub same_key : Key → Key → Bool
same_key stopper_key stopper_key = true
same_key impl_key impl_key = true
same_key group_key group_key = true
same_key info_key info_key = true
same_key (user_key m) (user_key n) = m == n
same_key _ _ = false

-- A context.Context: the root, a value or another layer of the standard library over a context, an
-- impl with its state, its task group and its delegate, or such an impl as a stopping context.
-- States, groups and other values go by numbers.
pub data AnyContext : Type 0 where
  background : AnyContext
  with_value : Key → ℕ → AnyContext → AnyContext
  derived : AnyContext → AnyContext
  impl : ℕ → Option ℕ → AnyContext → AnyContext
  stopping : ℕ → Option ℕ → AnyContext → AnyContext

-- A group may be nil, under WithNoTaskInfo.
pub data Value : Type 0 where
  context_value : AnyContext → Value
  group_value : Option ℕ → Value
  number_value : ℕ → Value

-- impl.Value, but for the delegate.
abbrev pub own_value : Key → ℕ → Option ℕ → AnyContext → Option Value → Option Value
own_value stopper_key st g d rest = some (context_value (impl st g d))
own_value impl_key st g d rest = some (context_value (impl st g d))
own_value group_key st g d rest = some (group_value g)
own_value _ st g d rest = rest

-- The method Value, on every kind of context.
unfoldable pub value : Key → AnyContext → Option Value
value k background = none
value k (with_value j n ctx) = if same_key j k then some (number_value n) else value k ctx
value k (derived ctx) = value k ctx
value k (impl st g d) = own_value k st g d (value k d)
value k (stopping st g d) = own_value k st g d (value k d)

-- The type assertions of From, TaskGroupFrom and TaskInfoFrom.
abbrev pub as_context : Option Value → Option AnyContext
as_context (some (context_value ctx)) = some ctx
as_context _ = none

abbrev pub as_group : Option Value → Option (Option ℕ)
as_group (some (group_value g)) = some g
as_group _ = none

abbrev pub as_number : Option Value → Option ℕ
as_number (some (number_value n)) = some n
as_number _ = none

unfoldable pub from : AnyContext → Option AnyContext
unfolding value
from ctx = as_context (value stopper_key ctx)

unfoldable pub task_group_from : AnyContext → Option (Option ℕ)
unfolding value
task_group_from ctx = as_group (value group_key ctx)

unfoldable pub task_info_from : AnyContext → Option ℕ
unfolding value
task_info_from ctx = as_number (value info_key ctx)

-- IsStopping; `is_stopping` tells whether a state is stopping.
unfoldable pub is_stopping_any : (ℕ → Bool) → AnyContext → Bool
unfolding from
is_stopping_any is_stopping ctx = elim (from ctx) [
  | some (impl st g d) ↦ is_stopping st
  | _ ↦ false
]

-- WithDelegate, of an impl.
unfoldable pub with_delegate : ℕ → Option ℕ → AnyContext → AnyContext
with_delegate st g ctx = impl st g ctx

-- The delegate of the Context that taskInvoker hands to the middleware: the trace context, and the
-- task's info if there is a group.
unfoldable pub task_context : ℕ → Option ℕ → ℕ → AnyContext → AnyContext
unfolding with_delegate
task_context st g info d =
    let traced = with_delegate st g (derived (impl st g d)) in
    elim g [
      | none ↦ traced
      | some id ↦ with_delegate st (some id) (with_value info_key info traced)
    ]

-- What a new child shares with its parent: the parent's state, the children of its group, whether
-- the function of context.AfterFunc may still run, the cause of the cancellation and the trace.
pub record Family : Type 0 where
  pub parent : State
  pub children : List ℕ
  pub after_armed : Bool
  pub cause : Option Sentinel
  pub trace_open : Bool

abbrev pub put_child : ℕ → List ℕ → List ℕ
put_child g [] = g ∷ []
put_child g (k ∷ ks) = if k == g then k ∷ ks else k ∷ put_child g ks

abbrev pub delete_child : ℕ → List ℕ → List ℕ
delete_child g [] = []
delete_child g (k ∷ ks) = if k == g then ks else k ∷ delete_child g ks

-- newContext with a parent that has a group: the group is stored, the trace and the cancelable
-- context start, and the hooks that stop the child are set. The callbacks are those of AddStopHook.
unfoldable pub join_family : Hook → ℕ → Family → Family × List Callback
unfolding add_stop_hook
join_family h g f =
    let (parent, callbacks) = add_stop_hook h f.parent in
    (
      record {
        parent = parent;
        children = put_child g f.children;
        after_armed = true;
        cause = none;
        trace_open = true;
      },
      callbacks,
    )

-- cleanup, the cancel function of the child's state.
unfoldable pub cleanup : ℕ → ℕ → Sentinel → Family → Family
unfolding cancel_stop_hook
cleanup child g err f = record {
  parent = cancel_stop_hook child f.parent;
  children = delete_child g f.children;
  after_armed = false;
  cause = some err;
  trace_open = false;
}
