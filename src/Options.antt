-- ===== src/Options.antt =====
-- options.go: the configuration of tasks, of contexts and of stops.
-- A handler, a middleware and a task group go by the types of the section; a name is its bytes.
pub mod Resolution
pub mod Inherit
mod Examples
use go_stopper.Prelude.{
  ℕ, Bool, true, false, List, [], ◌∷◌, ◌++◌, Option, none, some, if◌then◌else◌,
}
use go_stopper.Prelude.Int.{ℤ, pos, ◌+ℤ◌, eqb_ℤ}

abbrev pub Name : Type 0
Name = List ℕ

abbrev pub is_empty {ℓ} : {A : Type ℓ} → List A → Bool
is_empty [] = true
is_empty (x ∷ xs) = false

-- The first of two optional settings that is set.
abbrev pub or_else {ℓ} : {A : Type ℓ} → Option A → Option A → Option A
or_else (some a) o = some a
or_else none o = o

pub record Task (H M : Type 0) : Type 0 where
  pub caller_offset : ℤ
  pub err_handler : Option H
  pub name : Name
  pub no_inherit : Bool
  pub mw : List M

pub data TaskOption (H M : Type 0) : Type 0 where
  task_err_handler : Option H → TaskOption H M
  task_middleware : List M → TaskOption H M
  task_name : Name → TaskOption H M
  task_no_inherit : TaskOption H M
  with_caller_offset : ℤ → TaskOption H M

pub record Config (H M : Type 0) : Type 0 where
  pub name : Name
  pub no_inherit : Bool
  pub no_task_info : Bool
  pub grace_period : Option ℤ
  pub group : Option ℕ
  pub task_opts : Option (Task H M)

pub data ConfigOption (H M : Type 0) : Type 0 where
  with_grace_period : ℤ → ConfigOption H M
  with_name : Name → ConfigOption H M
  with_no_inherit : ConfigOption H M
  with_no_task_info : ConfigOption H M
  with_task_options : List (TaskOption H M) → ConfigOption H M

-- 10 s, in nanoseconds.
abbrev pub default_grace_period : ℤ
default_grace_period = pos 10_000_000_000

-- The name that config.Merge gives: the two names, joined by a dot if neither is empty.
unfoldable pub join_names : Name → Name → Name
join_names c o = if is_empty o then c else if is_empty c then o else c ++ b'.' ∷ o

module _ {H M : Type 0} where
  abbrev pub zero_task : Task H M
  zero_task = record {
    caller_offset = pos 0;
    err_handler = none;
    name = [];
    no_inherit = false;
    mw = [];
  }

  -- The option functions of a task.
  unfoldable pub set_task : TaskOption H M → Task H M → Task H M
  set_task (task_err_handler h) t = record t { err_handler = h }
  set_task (task_middleware ms) t = record t { mw = t.mw ++ ms }
  set_task (task_name n) t = record t { name = n }
  set_task task_no_inherit t = record t { no_inherit = true }
  set_task (with_caller_offset k) t = record t { caller_offset = k }

  unfoldable pub set_tasks : List (TaskOption H M) → Task H M → Task H M
  unfolding set_task
  set_tasks [] t = t
  set_tasks (o ∷ os) t = set_tasks os (set_task o t)

  -- task.Clone.
  unfoldable pub clone_task : Task H M → Task H M
  clone_task t = record {
    caller_offset = t.caller_offset;
    err_handler = t.err_handler;
    name = t.name;
    no_inherit = t.no_inherit;
    mw = t.mw;
  }

  -- task.Merge: the settings of `o` go over those of `t`.
  unfoldable pub merge_task : Task H M → Task H M → Task H M
  merge_task t o = record t {
    caller_offset = if eqb_ℤ o.caller_offset (pos 0) then t.caller_offset else o.caller_offset;
    err_handler = or_else o.err_handler t.err_handler;
    name = if is_empty o.name then t.name else o.name;
    mw = if is_empty o.mw then t.mw else t.mw ++ o.mw;
  }

  abbrev pub zero_config : Config H M
  zero_config = record {
    name = [];
    no_inherit = false;
    no_task_info = false;
    grace_period = none;
    group = none;
    task_opts = none;
  }

  -- config.Clone: a nil taskOpts would be dereferenced, which is `none`.
  unfoldable pub clone_config : Config H M → Option (Config H M)
  unfolding clone_task
  clone_config c = elim c.task_opts [
    | none ↦ none
    | some t ↦ some (record {
      name = c.name;
      no_inherit = c.no_inherit;
      no_task_info = c.no_task_info;
      grace_period = c.grace_period;
      group = c.group;
      task_opts = some (clone_task t);
    })
  ]

  unfoldable pub merge_task_opts : Option (Task H M) → Option (Task H M) → Option (Task H M)
  unfolding merge_task
  merge_task_opts c none = c
  merge_task_opts none (some o) = some o
  merge_task_opts (some t) (some o) = some (merge_task t o)

  -- config.Merge.
  unfoldable pub merge_config : Config H M → Config H M → Config H M
  unfolding join_names merge_task_opts
  merge_config c0 o =
      let c = if o.no_inherit then zero_config else c0 in
      record c {
        group = or_else o.group c.group;
        name = join_names c.name o.name;
        no_task_info = if o.no_task_info then true else c.no_task_info;
        grace_period = or_else o.grace_period c.grace_period;
        task_opts = merge_task_opts c.task_opts o.task_opts;
      }

-- `handler_stop` is ErrorHandlerStop, and `caller` is runtime.Caller, formatted as "file:line".
module _ {H M : Type 0} (handler_stop : H) (caller : ℤ → Option Name) where
  -- task.Sanitize.
  unfoldable pub sanitize_task : Task H M → Task H M
  sanitize_task t = record t { err_handler = or_else t.err_handler (some handler_stop) }

  -- The default name of applyTaskOpts.
  unfoldable pub name_task : ℤ → Task H M → Task H M
  name_task offset t =
      if is_empty t.name
      then elim (caller offset) [ none ↦ t | some place ↦ record t { name = place } ]
      else t

  -- applyTaskOpts.
  unfoldable pub apply_task_opts : Option (Task H M) → List (TaskOption H M) → Task H M
  unfolding set_tasks clone_task merge_task sanitize_task name_task
  apply_task_opts base opts =
      let partial = set_tasks opts zero_task in
      let offset = pos 3 +ℤ partial.caller_offset in
      elim base [
        | none ↦ sanitize_task (name_task offset partial)
        | some b ↦
            if partial.no_inherit
            then sanitize_task (name_task offset partial)
            else sanitize_task (name_task offset (merge_task (clone_task b) partial))
      ]

  -- The option functions of a context.
  unfoldable pub set_config : ConfigOption H M → Config H M → Config H M
  unfolding apply_task_opts
  set_config (with_grace_period g) c = record c { grace_period = some g }
  set_config (with_name n) c = record c { name = n }
  set_config with_no_inherit c = record c { no_inherit = true }
  set_config with_no_task_info c = record c { no_task_info = true }
  set_config (with_task_options os) c = record c {
    task_opts = some (apply_task_opts c.task_opts os);
  }

  unfoldable pub set_configs : List (ConfigOption H M) → Config H M → Config H M
  unfolding set_config
  set_configs [] c = c
  set_configs (o ∷ os) c = set_configs os (set_config o c)

  -- config.Sanitize.
  unfoldable pub sanitize_config : Config H M → Config H M
  unfolding sanitize_task
  sanitize_config c = record c {
    grace_period = or_else c.grace_period (some default_grace_period);
    task_opts = some (sanitize_task (elim c.task_opts [ none ↦ zero_task | some t ↦ t ]));
  }

  -- The configuration of a new context, from its parent's and from its options (newContext).
  unfoldable pub derive_config : Option (Config H M) → Config H M → Option (Config H M)
  unfolding clone_config merge_config sanitize_config
  derive_config none partial = some (sanitize_config partial)
  derive_config (some parent) partial = elim (clone_config parent) [
    | none ↦ none
    | some cfg ↦ some (sanitize_config (merge_config cfg partial))
  ]

-- The task group of a new context, at the address `g`, with the group that lists it as a child
-- (newContext).
unfoldable pub set_group : {H M : Type 0} → ℕ → Config H M → Config H M × Option ℕ
set_group g cfg =
    if cfg.no_task_info
    then (record cfg { group = none }, none)
    else (record cfg { group = some g }, cfg.group)
