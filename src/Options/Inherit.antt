-- ===== src/Options/Inherit.antt =====
-- How a child context inherits the configuration of its parent (options.go, and newContext of
-- stopper.go).
use mathlib.Core.Option
use go_stopper.Prelude.{
  ℕ, ◌≡◌, true, ◌||◌, List, [], ◌∷◌, ◌++◌, Option, none, some, arith, if◌then◌else◌, is_some,
  append-nil,
}
use go_stopper.Prelude.Int.{ℤ, pos, eqb_ℤ}
use go_stopper.Options.{
  Name, TaskOption, Config, with_task_options, or_else, zero_config, set_configs, sanitize_config,
  merge_config, derive_config, join_names, default_grace_period, set_group,
}
use go_stopper.Options.Resolution.{last_handler, first_name, apply_task_opts_resolves}

module _ {H M : Type 0} where
  abbrev pub handler_of : Config H M → Option H
  handler_of c = elim c.task_opts [ none ↦ none | some t ↦ t.err_handler ]

  abbrev pub mw_of : Config H M → List M
  mw_of c = elim c.task_opts [ none ↦ [] | some t ↦ t.mw ]

  abbrev pub task_name_of : Config H M → Name
  task_name_of c = elim c.task_opts [ none ↦ [] | some t ↦ t.name ]

  abbrev pub offset_of : Config H M → ℤ
  offset_of c = elim c.task_opts [ none ↦ pos 0 | some t ↦ t.caller_offset ]

  -- What Sanitize ensures, and what Clone needs of a parent.
  abbrev pub IsSanitized : Config H M → Type 0
  IsSanitized c =
      (is_some c.grace_period ≡ true)
      × (is_some c.task_opts ≡ true)
      × (is_some (handler_of c) ≡ true)

module _ {H M : Type 0} (handler_stop : H) (caller : ℤ → Option Name) where
  -- A context made from a sanitized parent, by options that leave the group unset, has a
  -- configuration, so that no nil task options are dereferenced, and it is sanitized again. Its
  -- grace period, its error handler, and the name and the caller offset of its tasks are its own if
  -- it sets them, or else the parent's, or the defaults; its name is joined to the parent's, its
  -- middleware comes after the parent's, and its flag against inheritance is the parent's. It has
  -- task info unless it or the parent goes without: then it has a new group `g`, which is a child of
  -- the parent's group, and no group otherwise. If it declines to inherit, all this is as for a
  -- parent that sets nothing.
  pub derive_config_inherits :
      (parent partial : Config H M) (g : ℕ)
      → IsSanitized parent
      → partial.group ≡ none
      → let base = if partial.no_inherit then zero_config else parent in
        (c : Config H M) × (derive_config handler_stop caller (some parent) partial ≡ some c)
        × IsSanitized c
        × (c.grace_period
            ≡ or_else partial.grace_period (or_else base.grace_period (some default_grace_period)))
        × (c.name ≡ join_names base.name partial.name)
        × (c.no_inherit ≡ base.no_inherit)
        × (c.no_task_info ≡ (base.no_task_info || partial.no_task_info))
        × ((set_group g c).0.group
            ≡ (if base.no_task_info || partial.no_task_info then none else some g))
        × ((set_group g c).1
            ≡ (if base.no_task_info || partial.no_task_info then none else base.group))
        × (handler_of c
            ≡ or_else (handler_of partial) (or_else (handler_of base) (some handler_stop)))
        × (task_name_of c ≡ first_name (task_name_of partial) (task_name_of base))
        × (offset_of c
            ≡ (if eqb_ℤ (offset_of partial) (pos 0) then offset_of base else offset_of partial))
        × (mw_of c ≡ mw_of base ++ mw_of partial)
  unfolding derive_config set_group
  derive_config_inherits parent partial g v fresh = (
    sanitize_config handler_stop caller (merge_config parent partial),
    ground arith,
    ground arith,
    ground arith,
    ground arith,
    ground arith,
    ground arith,
    ground arith,
    ground arith,
    ground arith,
    ground arith,
    ground arith,
    ground (arith, append-nil (mw_of parent)),
  )

  -- A child made with task options that name no error handler has ErrorHandlerStop as its handler,
  -- whatever handler its parent has.
  pub task_options_reset_handler :
      (parent : Config H M) (os : List (TaskOption H M))
      → IsSanitized parent
      → last_handler os none ≡ none
      → Option.map handler_of (
          derive_config handler_stop caller
            (some parent)
            (set_configs handler_stop caller (with_task_options os ∷ []) zero_config))
        ≡ some (some handler_stop)
  unfolding derive_config set_configs
  task_options_reset_handler parent os v n =
      ground (arith, apply_task_opts_resolves handler_stop caller none os)
