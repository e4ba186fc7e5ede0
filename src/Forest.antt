-- ===== src/Forest.antt =====
-- All contexts of a program at once (stopper.go, internal/state/state.go): a forest of states, and
-- the goroutines that call Apply, Stop and newContext on them. Any goroutine may move next.
pub mod Sections
pub mod Holders
pub mod Balance
pub mod Later
pub mod Lines
pub mod Endings
pub mod Sound
pub mod Cancels
pub mod Hooks
pub mod Ties
pub mod Spread
pub mod Quiet
mod Examples
use go_stopper.Prelude.{
  ℕ, ◌≡◌, Bool, true, false, List, [], ◌∷◌, ◌++◌, map, reverse, Option, none, some, is_some,
  if◌then◌else◌, ◌==◌,
}
use go_stopper.Prelude.Int.{ℤ, pos, negsuc}
use go_stopper.Prelude.Moves.{Swap}
use go_stopper.Errors.{Error}
use go_stopper.State.{
  State, Callback, user, cancel_with, run_hooks, release_parent, Hook, Section, Verdict, result,
  over_released, apply_refused, new,
}
use go_stopper.State.Trace.{
  Op, applies, defers, stops, stops_on_idle, adds_errors, adds_hook, cancels_hook, expires, exec,
}

-- An impl: its state, its parent, its grace period, and of its context whether it is canceled and
-- whether the function of context.AfterFunc is still to run. `hooked` tells that the function which
-- AddStopHook returned is stored.
pub record Node : Type 0 where
  pub state : State
  pub parent : Option ℕ
  pub grace : ℤ
  pub hooked : Bool
  pub armed : Bool
  pub canceled : Bool

-- The contexts by the numbers that stand for their pointers.
abbrev pub Nodes : Type 0
Nodes = ℕ → Option Node

abbrev pub put : ℕ → Node → Nodes → Nodes
put i n ns j = if i == j then some n else ns j

-- What users and the runtime ask of a State. `expire` is the function of the grace timer.
pub data Request : Type 0 where
  defer : ℕ → Request
  stop_within : ℤ → Request
  stop_idle : ℤ → Request
  add_error : List (Option Error) → Request
  expire : Request

abbrev pub op_of : Request → Op
op_of (defer fn) = defers fn
op_of (stop_within g) = stops g
op_of (stop_idle g) = stops_on_idle g
op_of (add_error es) = adds_errors es
op_of expire = expires

-- What a goroutine is about to do. A path that Apply has taken or has still to take is a list of
-- contexts: `rises` has those below that wait for the answer, `enters` those that are counted, the
-- nearest first, and those that are not, the farthest first.
pub data Action : Type 0 where
  asks : ℕ → Request → Action
  stop : ℕ → Action  -- s.Stop() of a hook, with the grace period of the context
  rises : ℕ → List ℕ → Action  -- the fast check of Apply(1)
  enters : List ℕ → List ℕ → Action  -- the critical sections of Apply(1)
  works : List ℕ → Action  -- the task that was accepted
  leaves : List ℕ → Action  -- the critical sections of Apply(-1)
  callback : ℕ → Callback → Action
  hook : ℕ → ℕ → Action  -- AddStopHook on a parent, for a child
  store_hook : ℕ → Action  -- parentCleanup.Store
  arm : ℕ → Action  -- context.AfterFunc, and afterCleanup.Store
  disarm : ℕ → Action  -- the call of afterCleanup
  unhook : ℕ → Action  -- the call of parentCleanup
  cancel : ℕ → Action  -- cancel(err)

-- The rest of a critical section, as callDeferred runs it.
abbrev pub callbacks : ℕ → Section → List Action
callbacks i sec = map (callback i) (reverse sec.deferred)

-- One critical section.
abbrev pub lock : ℤ → Op → ℕ → Node → Nodes → Nodes × List Action
lock now op i n ns =
    let sec = exec now op n.state in (put i (record n { state = sec.after }) ns, callbacks i sec)

-- The end of a section of Apply: what the goroutine does if the delta was applied, and if not.
abbrev pub answer : Verdict → List Action → List Action → List Action
answer (result true) yes_ no_ = yes_
answer (result false) yes_ no_ = no_
answer over_released yes_ no_ = []

-- Apply(1) up to the call of the parent.
unfoldable pub rise : Node → ℕ → List ℕ → List Action
unfolding apply_refused
rise n i downs =
    if apply_refused (pos 1) n.state
    then []
    else elim n.parent [ none ↦ enters [] (i ∷ downs) ∷ [] | some p ↦ rises p (i ∷ downs) ∷ [] ]

-- A critical section of Apply(1). One that refuses gives the counts of the parents back, of which
-- the farthest comes first.
unfoldable pub enter : ℤ → Node → ℕ → List ℕ → List ℕ → Nodes → Nodes × List Action
enter now n i ups downs ns =
    let sec = exec now (applies (pos 1)) n.state in
    (
      put i (record n { state = sec.after }) ns,
      answer sec.verdict (callbacks i sec ++ enters (i ∷ ups) downs ∷ [])
          (leaves (reverse ups) ∷ []),
    )

-- A critical section of Apply(-1), which no fast check refuses. The panic "over-released" ends the
-- goroutine.
unfoldable pub leave : ℤ → Node → ℕ → List ℕ → Nodes → Nodes × List Action
leave now n i downs ns =
    let sec = exec now (applies (negsuc 0)) n.state in
    (
      put i (record n { state = sec.after }) ns,
      answer sec.verdict (callbacks i sec ++ leaves downs ∷ []) [],
    )

-- A function that callDeferred calls. What a user's function does to the contexts is a goroutine's
-- own, and a refused Apply(1) has its own actions. The cancel function is the cleanup of newContext.
abbrev pub call_back : ℕ → Callback → List Action
call_back i (user fn) = []
call_back i (cancel_with k err) = disarm i ∷ unhook i ∷ cancel i ∷ []
call_back i (run_hooks hs) = map (λ (h : Hook). stop h.child) hs
call_back i (release_parent delta) = []

abbrev pub hook_for : ℕ → Hook
hook_for c = record { child = c; fn = c }

-- One move of a goroutine at a time `now`, with what it has to do next.
pub data Act (now : ℤ) (ns : Nodes) : Action → Nodes → List Action → Type 0 where
  ask :
      {i : ℕ} {r : Request} {n : Node}
      → ns i ≡ some n
      → Act now ns (asks i r) (lock now (op_of r) i n ns).0 (lock now (op_of r) i n ns).1
  stop_child :
      {i : ℕ} {n : Node}
      → ns i ≡ some n
      → Act now ns (stop i) (lock now (stops n.grace) i n ns).0 (lock now (stops n.grace) i n ns).1
  check :
      {i : ℕ} {downs : List ℕ} {n : Node}
      → ns i ≡ some n
      → Act now ns (rises i downs) ns (rise n i downs)
  begin_work : {ups : List ℕ} → Act now ns (enters ups []) ns (works ups ∷ [])
  count_up :
      {i : ℕ} {ups downs : List ℕ} {n : Node}
      → ns i ≡ some n
      → Act now ns
          (enters ups (i ∷ downs))
          (enter now n i ups downs ns).0
          (enter now n i ups downs ns).1
  end_work : {ups : List ℕ} → Act now ns (works ups) ns (leaves (reverse ups) ∷ [])
  return_work : Act now ns (leaves []) ns []
  count_down :
      {i : ℕ} {downs : List ℕ} {n : Node}
      → ns i ≡ some n
      → Act now ns (leaves (i ∷ downs)) (leave now n i downs ns).0 (leave now n i downs ns).1
  run_callback : {i : ℕ} {cb : Callback} → Act now ns (callback i cb) ns (call_back i cb)
  add_hook :
      {p c : ℕ} {n : Node}
      → ns p ≡ some n
      → Act now ns
          (hook p c)
          (lock now (adds_hook (hook_for c)) p n ns).0
          (lock now (adds_hook (hook_for c)) p n ns).1
  keep_hook :
      {i : ℕ} {n : Node}
      → ns i ≡ some n
      → Act now ns (store_hook i) (put i (record n { hooked = true }) ns) []
  arm_after :
      {i : ℕ} {n : Node}
      → ns i ≡ some n
      → Act now ns (arm i) (put i (record n { armed = true }) ns) []
  disarm_after :
      {i : ℕ} {n : Node}
      → ns i ≡ some n
      → Act now ns (disarm i) (put i (record n { armed = false }) ns) []
  drop_hook :
      {i p : ℕ} {n m : Node}
      → ns i ≡ some n
      → n.hooked ≡ true
      → n.parent ≡ some p
      → ns p ≡ some m
      → Act now ns (unhook i) (lock now (cancels_hook i) p m ns).0 []
  skip_hook : {i : ℕ} {n : Node} → ns i ≡ some n → n.hooked ≡ false → Act now ns (unhook i) ns []
  cancel_context :
      {i : ℕ} {n : Node}
      → ns i ≡ some n
      → Act now ns (cancel i) (put i (record n { canceled = true }) ns) []

-- The contexts and the goroutines, each with the actions that it has left.
pub record Forest : Type 0 where
  pub nodes : Nodes
  pub threads : List (List Action)

abbrev pub no_contexts : Forest
no_contexts = record { nodes = λ i. none; threads = [] }

-- The contexts before anything has been asked of the new one.
abbrev pub fresh_node : ℕ → ℤ → Option ℕ → Node
fresh_node i g parent = record {
  state = new i (is_some parent);
  parent = parent;
  grace = g;
  hooked = false;
  armed = false;
  canceled = false;
}

-- The rest of newContext.
abbrev pub set_up_node : ℕ → Option ℕ → List Action
set_up_node i none = arm i ∷ []
set_up_node i (some p) = hook p i ∷ store_hook i ∷ arm i ∷ []

-- Whether users may ask this now: a grace timer runs only after a stop.
abbrev pub IsDue : Request → Node → Type 0
IsDue expire n = n.state.stopping ≡ true
IsDue _ n = Unit

pub data Step (f : Forest) : Forest → Type 0 where
  -- A goroutine moves.
  acts :
      {now : ℤ} {a : Action} {rest more : List Action} {ns : Nodes} {ts : List (List Action)}
      → Act now f.nodes a ns more
      → Swap (a ∷ rest) (more ++ rest) f.threads ts
      → Step f (record { nodes = ns; threads = ts })
  -- Call or Go of a context.
  calls :
      {i : ℕ} {n : Node}
      → f.nodes i ≡ some n
      → Step f (record f { threads = (rises i [] ∷ []) ∷ f.threads })
  requests :
      {i : ℕ} {r : Request} {n : Node}
      → f.nodes i ≡ some n
      → IsDue r n
      → Step f (record f { threads = (asks i r ∷ []) ∷ f.threads })
  -- newContext, up to AddStopHook.
  creates :
      {i : ℕ} (g : ℤ)
      → f.nodes i ≡ none
      → Step f (record {
        nodes = put i (fresh_node i g none) f.nodes;
        threads = set_up_node i none ∷ f.threads;
      })
  derives :
      {i p : ℕ} {n : Node} (g : ℤ)
      → f.nodes i ≡ none
      → f.nodes p ≡ some n
      → Step f (record {
        nodes = put i (fresh_node i g (some p)) f.nodes;
        threads = set_up_node i (some p) ∷ f.threads;
      })
  -- The standard library: a context is canceled with its parent or from outside, and runs its
  -- function once.
  loses_context :
      {i : ℕ} {n : Node}
      → f.nodes i ≡ some n
      → Step f (record f { nodes = put i (record n { canceled = true }) f.nodes })
  after :
      {i : ℕ} {n : Node}
      → f.nodes i ≡ some n
      → n.canceled ≡ true
      → n.armed ≡ true
      → Step f (record {
        nodes = put i (record n { armed = false }) f.nodes;
        threads = (stop i ∷ []) ∷ f.threads;
      })

pub data Reach : Forest → Type 0 where
  start : Reach no_contexts
  next : {f g : Forest} → Reach f → Step f g → Reach g
