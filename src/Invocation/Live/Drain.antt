-- ===== src/Invocation/Live/Drain.antt =====
-- The last task of a stopping context ends the context: Call of stopper.go with the Apply of
-- internal/state/state.go.
use mathlib.Core.List.{reverse-cons}
use go_stopper.Prelude.{
  append-nil, ℕ, Bool, suc, ◌+◌, ◌≡◌, refl, sym, ◌∙◌, ap, subst, true, false, List, [], ◌∷◌, ◌++◌,
  reverse, Option, none, some, arith,
}
use go_stopper.Prelude.Int.{ℤ, pos, negsuc, ◌+ℤ◌}
use go_stopper.Errors.{Error, stopped, sentinel}
use go_stopper.Safe.{Outcome, returns, call_e}
use go_stopper.Options.{Name}
use go_stopper.State.{State, Callback, Section, result, cancel_with, apply_refused}
use go_stopper.State.Invariant.{IsWellFormed}
use go_stopper.State.Trace.{exec, applies}
use go_stopper.State.Drain.{release}
use go_stopper.State.Errs.{failures, call_deferred_lem}
use go_stopper.Invocation.{ends, Code, Invoker, Middleware, Func, set_up, chain, decorate, call}
use go_stopper.Invocation.Chain.{call_result}
use go_stopper.Invocation.Live.{Live, leave_section, apply_live, live_hooks}

-- The callbacks of a hard stop in the order of their calls.
abbrev pub ending : ℕ → State → List Callback
ending k s = reverse s.deferred ++ cancel_with k stopped ∷ []

-- What the last release does to a stopping state that is not canceled.
pub record IsDrained (k : ℕ) (s t : State) (cbs : List Callback) : Type 0 where
  pub count : t.count ≡ pos 0
  pub cancel : t.cancel ≡ none
  pub deferred : t.deferred ≡ []
  pub errs : t.errs ≡ s.errs
  pub handed : cbs ≡ cancel_with k stopped ∷ s.deferred

-- What it does to the context: from the state, and the callbacks that were called before.
pub record IsReleased (runs : Callback → Outcome (Option Error)) (k : ℕ) (s : State)
    (called : List Callback) (w : Live) : Type 0 where
  pub count : w.state.count ≡ pos 0
  pub cancel : w.state.cancel ≡ none
  pub deferred : w.state.deferred ≡ []
  pub errs : w.state.errs ≡ s.errs ++ failures runs (ending k s)
  pub in_order : w.called ≡ called ++ ending k s

last_release :
    (now : ℤ) (s : State) (k : ℕ)
    → IsWellFormed s
    → s.count ≡ pos 1
    → s.stopping ≡ true
    → s.cancel ≡ some k
    → IsDrained k s (exec now release s).after (exec now release s).deferred
unfolding exec ◌+ℤ◌
last_release now s k v c t l = record {
  count = ground arith;
  cancel = ground arith;
  deferred = ground arith;
  errs = ground arith;
  handed = ground arith;
}

accepted_section :
    (now : ℤ) (s : State) (c : ℕ)
    → s.stopping ≡ false
    → s.count ≡ pos c
    → exec now (applies (pos 1)) s
      ≡ record { after = record s { count = pos (suc c) }; deferred = []; verdict = result true }
unfolding exec ◌+ℤ◌
accepted_section now s c t h = ground arith

module _ (now : ℤ) (runs : Callback → Outcome (Option Error)) (w : Live) where
  apply_live-exec :
      (delta : ℤ)
      → apply_refused delta w.state ≡ false
      → apply_live now runs delta w ≡ leave_section now runs (exec now (applies delta) w.state) w
  unfolding apply_live
  apply_live-exec delta h = rw h refl

  accepts :
      (c : ℕ)
      → w.state.stopping ≡ false
      → w.state.count ≡ pos c
      → apply_live now runs (pos 1) w
        ≡ (record w { state = record w.state { count = pos (suc c) } }, true)
  unfolding apply_refused leave_section
  accepts c t h =
      apply_live-exec (pos 1) (rw t refl)
      ∙ ap (λ sec. leave_section now runs sec w) (accepted_section now w.state c t h)
      ∙ ap (λ l. (record w { state = record w.state { count = pos (suc c) }; called = l }, true))
          (append-nil w.called)

  leave_section-IsReleased :
      (k : ℕ) (sec : Section)
      → IsDrained k w.state sec.after sec.deferred
      → IsReleased runs k w.state w.called (leave_section now runs sec w).0
  unfolding leave_section
  leave_section-IsReleased k sec d =
      let lem = call_deferred_lem runs sec.deferred sec.after in
      let ordered = ap reverse d.handed ∙ reverse-cons (cancel_with k stopped) w.state.deferred in
      record {
        count = ap (λ (t : State). t.count) lem ∙ d.count;
        cancel = ap (λ (t : State). t.cancel) lem ∙ d.cancel;
        deferred = ap (λ (t : State). t.deferred) lem ∙ d.deferred;
        errs =
            ap (λ (t : State). t.errs) lem
            ∙ ap (λ es. es ++ failures runs (reverse sec.deferred)) d.errs
            ∙ ap (λ fns. w.state.errs ++ failures runs fns) ordered;
        in_order = ap (λ l. w.called ++ l) ordered;
      }

  -- Apply(-1) of the last task, with the callbacks that it runs.
  released :
      (k : ℕ)
      → IsWellFormed w.state
      → w.state.count ≡ pos 1
      → w.state.stopping ≡ true
      → w.state.cancel ≡ some k
      → IsReleased runs k w.state w.called (apply_live now runs (negsuc 0) w).0
  unfolding apply_refused
  released k v c t l =
      subst (λ (r : Live × Bool). IsReleased runs k w.state w.called r.0)
        (sym (apply_live-exec (negsuc 0) (rw t refl)))
        (leave_section-IsReleased k (exec now release w.state) (last_release now w.state k v c t l))

  released_rest :
      w.state.stopping ≡ true
      → ((apply_live now runs (negsuc 0) w).0.outcomes ≡ w.outcomes)
        × ((apply_live now runs (negsuc 0) w).0.finished ≡ w.finished)
  unfolding apply_refused leave_section
  released_rest t =
      let e = apply_live-exec (negsuc 0) (rw t refl) in
      (ap (λ (r : Live × Bool). r.0.outcomes) e, ap (λ (r : Live × Bool). r.0.finished) e)

module _ {X : Type 0} (now : ℤ) (runs : Callback → Outcome (Option Error))
    (handler : X → Error → Code Live (Unit {0})) where
  -- A Call on a stopping context is refused with ErrStopped: neither its middleware nor its task
  -- is run, and nothing changes.
  pub call_refused :
      (name : Name) (mws : List (Middleware Live X)) (ctx : X) (task : Func Live X) (w : Live)
      → w.state.stopping ≡ true
      → call (live_hooks now runs handler) name mws ctx task w
        ≡ ends (returns (some (sentinel stopped))) w
  unfolding call live_hooks
  call_refused name mws ctx task w t = rw t refl

  -- A Call is made on a root context that runs, its middleware sets up, and when its chain ends the
  -- state is well-formed, has begun to stop, is not canceled and has this task only. Then the Call
  -- returns the task's decorated error, with the outcome stored and the task finished once; its
  -- release leaves no task, no cancel function and no deferred function, since it has run the
  -- deferred functions, last in first out, and then the cancel function with ErrStopped; the errors
  -- of these are added to those of the context.
  pub call_drains :
      (name : Name) (mws : List (Middleware Live X)) (ctx last : X) (is : List (Invoker Live X))
      (task : Func Live X) (w w2 w3 : Live) (c k : ℕ) (o : Outcome (Option Error))
      → w.state.stopping ≡ false
      → w.state.count ≡ pos c
      → set_up mws ctx (record w { state = record w.state { count = pos (suc c) } })
        ≡ ends (returns (last, is)) w2
      → chain is last task w2 ≡ ends o w3
      → IsWellFormed w3.state
      → w3.state.count ≡ pos 1
      → w3.state.stopping ≡ true
      → w3.state.cancel ≡ some k
      → (w4 : Live) × (call (live_hooks now runs handler) name mws ctx task w
          ≡ ends (returns (decorate name (call_e o))) w4)
        × IsReleased runs k w3.state w3.called w4
        × (w4.outcomes ≡ w3.outcomes ++ decorate name (call_e o) ∷ [])
        × (w4.finished ≡ w3.finished + 1)
  unfolding live_hooks
  call_drains name mws ctx last is task w w2 w3 c k o open_ counted set runs_ v one t l =
      let hooks = live_hooks now runs handler in
      let done = hooks.finish (hooks.store (decorate name (call_e o)) w3) in
      (
        _,
        call_result hooks name mws ctx last is task w
            (record w { state = record w.state { count = pos (suc c) } }) w2 w3 o
            (accepts now runs w c open_ counted) set runs_,
        released now runs done k v one t l,
        (released_rest now runs done t).0,
        (released_rest now runs done t).1,
      )
