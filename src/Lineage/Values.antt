-- ===== src/Lineage/Values.antt =====
-- Which stopper a context belongs to (stopper.go, stopping_ctx.go).
use go_stopper.Prelude.{ℕ, ◌≡◌, refl, Bool, false, List, [], ◌∷◌, Option, some}
use go_stopper.Lineage.{
  Key, stopper_key, group_key, info_key, user_key, same_key, AnyContext, with_value, derived, impl,
  stopping, value, from, task_group_from, is_stopping_any, task_context, task_info_from,
  with_delegate,
}

-- What code outside the package can put around a context: values under its own keys, and layers
-- that pass values on.
pub data Layer : Type 0 where
  user_layer : ℕ → ℕ → Layer
  std_layer : Layer

abbrev pub around : List Layer → AnyContext → AnyContext
around [] ctx = ctx
around (user_layer k n ∷ ls) ctx = with_value (user_key k) n (around ls ctx)
around (std_layer ∷ ls) ctx = derived (around ls ctx)

value-around :
    (k : Key) (ls : List Layer) (ctx : AnyContext)
    → ((n : ℕ) → same_key (user_key n) k ≡ false)
    → value k (around ls ctx) ≡ value k ctx
unfolding value
value-around k [] ctx h = refl
value-around k (user_layer n m ∷ ls) ctx h = rw (h n) (value-around k ls ctx h)
value-around k (std_layer ∷ ls) ctx h = value-around k ls ctx h

-- Under any layers from outside the package, From finds the innermost Context, and so it does for
-- its stopping context; its state is the one that IsStopping asks, and its group the one that
-- TaskGroupFrom gives, whatever stopper the Context's delegate belongs to.
from_innermost :
    (ls : List Layer) (st : ℕ) (g : Option ℕ) (d : AnyContext) (is_stopping : ℕ → Bool)
    → (from (around ls (impl st g d)) ≡ some (impl st g d))
      × (from (around ls (stopping st g d)) ≡ some (impl st g d))
      × (is_stopping_any is_stopping (around ls (with_delegate st g d)) ≡ is_stopping st)
      × (task_group_from (around ls (impl st g d)) ≡ some g)
unfolding from is_stopping_any task_group_from with_delegate
from_innermost ls st g d is_stopping = (
  rw (value-around stopper_key ls (impl st g d) (λ n. refl)) refl,
  rw (value-around stopper_key ls (stopping st g d) (λ n. refl)) refl,
  rw (is_stopping_any, value-around stopper_key ls (impl st g d) (λ n. refl)) refl,
  rw (value-around group_key ls (impl st g d) (λ n. refl)) refl,
)

-- A task's context belongs to the stopper that runs it, and carries the task's info if there is a
-- group.
task_context_lem :
    (ls : List Layer) (st id info : ℕ) (d : AnyContext)
    → (task_info_from (around ls (task_context st (some id) info d)) ≡ some info)
      × (task_group_from (around ls (task_context st (some id) info d)) ≡ some (some id))
unfolding task_context task_info_from task_group_from
task_context_lem ls st id info d = (
  rw (value-around info_key ls (task_context st (some id) info d) (λ n. refl)) refl,
  rw (value-around group_key ls (task_context st (some id) info d) (λ n. refl)) refl,
)
