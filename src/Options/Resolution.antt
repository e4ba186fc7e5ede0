-- ===== src/Options/Resolution.antt =====
-- Which settings a task and a child context end up with (options.go).
use go_stopper.Prelude.{
  ◌≡◌, Bool, true, false, ◌||◌, List, [], ◌∷◌, ◌++◌, Option, none, some, arith, if◌then◌else◌,
  append-nil, append_assoc,
}
use go_stopper.Prelude.Int.{ℤ, pos, ◌+ℤ◌}
use go_stopper.Options.{
  Name, Task, TaskOption, task_err_handler, task_middleware, task_name, task_no_inherit,
  with_caller_offset, is_empty, or_else, zero_task, set_tasks, apply_task_opts,
}

abbrev pub first_name : Name → Name → Name
first_name a b = if is_empty a then b else a

module _ {H M : Type 0} where
  -- The last handler that a list of options names; a nil handler takes an earlier one back.
  abbrev pub last_handler : List (TaskOption H M) → Option H → Option H
  last_handler [] h = h
  last_handler (task_err_handler k ∷ os) h = last_handler os k
  last_handler (_ ∷ os) h = last_handler os h

  abbrev pub last_name : List (TaskOption H M) → Name → Name
  last_name [] n = n
  last_name (task_name k ∷ os) n = last_name os k
  last_name (_ ∷ os) n = last_name os n

  abbrev pub last_offset : List (TaskOption H M) → ℤ → ℤ
  last_offset [] n = n
  last_offset (with_caller_offset k ∷ os) n = last_offset os k
  last_offset (_ ∷ os) n = last_offset os n

  abbrev pub declines : List (TaskOption H M) → Bool
  declines [] = false
  declines (task_no_inherit ∷ os) = true
  declines (_ ∷ os) = declines os

  -- All the middleware of a list of options, in order.
  abbrev pub middlewares : List (TaskOption H M) → List M
  middlewares [] = []
  middlewares (task_middleware ms ∷ os) = ms ++ middlewares os
  middlewares (_ ∷ os) = middlewares os

  -- The fields of `set_tasks`, each by its own fold.
  abbrev Sets : List (TaskOption H M) → Task H M → Task H M → Type 0
  Sets os t r =
      (r.err_handler ≡ last_handler os t.err_handler)
      × (r.name ≡ last_name os t.name)
      × (r.caller_offset ≡ last_offset os t.caller_offset)
      × (r.no_inherit ≡ (t.no_inherit || declines os))
      × (r.mw ≡ t.mw ++ middlewares os)

  set_tasks-Sets : (os : List (TaskOption H M)) (t : Task H M) → Sets os t (set_tasks os t)
  unfolding set_tasks
  set_tasks-Sets [] t = ground (arith, append-nil t.mw)
  set_tasks-Sets (task_err_handler k ∷ os) t = set_tasks-Sets os (record t { err_handler = k })
  set_tasks-Sets (task_middleware ms ∷ os) t = ground (
    arith,
    set_tasks-Sets os (record t { mw = t.mw ++ ms }),
    append_assoc t.mw ms (middlewares os),
  )
  set_tasks-Sets (task_name n ∷ os) t = set_tasks-Sets os (record t { name = n })
  set_tasks-Sets (task_no_inherit ∷ os) t =
      ground (arith, set_tasks-Sets os (record t { no_inherit = true }))
  set_tasks-Sets (with_caller_offset n ∷ os) t = set_tasks-Sets os (record t { caller_offset = n })

  -- What a task inherits: nothing if its options decline it.
  abbrev pub inherited : Option (Task H M) → List (TaskOption H M) → Task H M
  inherited none os = zero_task
  inherited (some b) os = if declines os then zero_task else b

module _ {H M : Type 0} (handler_stop : H) (caller : ℤ → Option Name) where
  -- The place that applyTaskOpts gives as a name to a task that has none.
  abbrev pub place_of : List (TaskOption H M) → Name
  place_of os = elim (caller (pos 3 +ℤ last_offset os (pos 0))) [ none ↦ [] | some n ↦ n ]

  -- The settings of a task: its error handler is the last one of its options, or the inherited
  -- one, or ErrorHandlerStop; its name is the last one of its options, or the inherited one, or
  -- the caller's place; its middleware is the inherited one and then its own, in order.
  pub apply_task_opts_resolves :
      (base : Option (Task H M)) (os : List (TaskOption H M))
      → ((apply_task_opts handler_stop caller base os).err_handler
          ≡ or_else
              (last_handler os none)
              (or_else (inherited base os).err_handler (some handler_stop)))
        × ((apply_task_opts handler_stop caller base os).name
            ≡ first_name (last_name os []) (first_name (inherited base os).name (place_of os)))
        × ((apply_task_opts handler_stop caller base os).mw
            ≡ (inherited base os).mw ++ middlewares os)
  unfolding apply_task_opts
  apply_task_opts_resolves none os = ground (arith, set_tasks-Sets os zero_task)
  apply_task_opts_resolves (some b) os =
      ground (arith, set_tasks-Sets os zero_task, append-nil b.mw)
