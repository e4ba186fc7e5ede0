-- ===== src/Options/Examples.antt =====
-- Configurations of options.go at concrete settings. Handlers and middleware are numbers.
use go_stopper.Prelude.{ℕ, ◌≡◌, refl, false, List, [], ◌∷◌, Option, some}
use go_stopper.Prelude.Int.{ℤ, pos}
use go_stopper.Options.{
  Name, Task, TaskOption, task_middleware, task_name, Config, zero_task, zero_config,
  apply_task_opts, join_names, derive_config, set_group,
}
use go_stopper.Options.Resolution.{apply_task_opts_resolves}
use go_stopper.Options.Inherit.{
  IsSanitized, handler_of, task_name_of, offset_of, mw_of, derive_config_inherits,
}

abbrev here : ℤ → Option Name
here offset = some (b'm' ∷ b':' ∷ b'1' ∷ [])

abbrev base : Task ℕ ℕ
base = record zero_task { name = b't' ∷ []; err_handler = some 5; mw = 1 ∷ 2 ∷ [] }

abbrev opts : List (TaskOption ℕ ℕ)
opts = task_middleware (3 ∷ []) ∷ task_name (b'a' ∷ []) ∷ task_middleware (4 ∷ []) ∷ []

abbrev parent : Config ℕ ℕ
parent = record zero_config {
  name = b'p' ∷ [];
  grace_period = some (pos 7);
  group = some 3;
  task_opts = some base;
}

apply_task_opts_runs :
    apply_task_opts 0 here (some base) opts
    ≡ record base { name = b'a' ∷ []; mw = 1 ∷ 2 ∷ 3 ∷ 4 ∷ [] }
unfolding apply_task_opts
apply_task_opts_runs = refl

apply_task_opts_resolves_example :
    ((apply_task_opts 0 here (some base) opts).err_handler ≡ some 5)
    × ((apply_task_opts 0 here (some base) opts).name ≡ b'a' ∷ [])
    × ((apply_task_opts 0 here (some base) opts).mw ≡ 1 ∷ 2 ∷ 3 ∷ 4 ∷ [])
apply_task_opts_resolves_example = apply_task_opts_resolves 0 here (some base) opts

derive_config_inherits_example :
    (c : Config ℕ ℕ) × (derive_config 0 here (some parent) (record zero_config { name = b'c' ∷ [] })
      ≡ some c)
    × IsSanitized c
    × (c.grace_period ≡ some (pos 7))
    × (c.name ≡ b'p' ∷ b'.' ∷ b'c' ∷ [])
    × (c.no_inherit ≡ false)
    × (c.no_task_info ≡ false)
    × ((set_group 4 c).0.group ≡ some 4)
    × ((set_group 4 c).1 ≡ some 3)
    × (handler_of c ≡ some 5)
    × (task_name_of c ≡ b't' ∷ [])
    × (offset_of c ≡ pos 0)
    × (mw_of c ≡ 1 ∷ 2 ∷ [])
unfolding join_names
derive_config_inherits_example =
    derive_config_inherits 0 here parent (record zero_config { name = b'c' ∷ [] }) 4
      (refl, refl, refl) refl
