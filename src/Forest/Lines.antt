-- ===== src/Forest/Lines.antt =====
-- The paths that Apply of internal/state/state.go takes in a forest: every accepted task holds its
-- context and all contexts above.
use mathlib.Core.List.{Memᴰ}
use go_stopper.Prelude.{
  ℕ, suc, ◌-◌, ◌<◌, ◌≡◌, refl, ap, ◌∙◌, true, false, List, [], ◌∷◌, map, Option, none, some, arith,
  inl, inr, Bool-cases, Option-cases, ==_iff,
}
use go_stopper.Prelude.Int.{ℤ, pos, negsuc}
use go_stopper.Prelude.Moves.{
  mover_of_mem, All, All-append, All-Swap, All-weaken, All_moving, sum_of, le-sum_of,
}
use go_stopper.State.{
  Callback, Hook, Verdict, result, over_released, apply_refused, cancel_with, user, run_hooks,
  release_parent,
}
use go_stopper.State.Trace.{applies, exec}
use go_stopper.Forest.{
  Node, Nodes, put, Action, asks, stop, rises, enters, works, leaves, callback, hook, store_hook,
  arm, disarm, unhook, cancel, callbacks, rise, enter, leave, answer, call_back, Act, ask,
  stop_child, check, begin_work, count_up, end_work, return_work, count_down, run_callback,
  add_hook, keep_hook, arm_after, disarm_after, drop_hook, skip_hook, cancel_context, Forest,
  fresh_node, set_up_node, Step, acts, calls, requests, creates, derives, loses_context, after,
  Reach, start, next,
}
use go_stopper.Forest.Holders.{occurs, held, holds}
use go_stopper.Forest.Balance.{count_is_held}
use go_stopper.Forest.Later.{parent_of, Later, Step-Later}

abbrev pub top_of : List ℕ → Option ℕ
top_of [] = none
top_of (i ∷ path) = some i

-- Each context of the list is followed by its parent, and the last one has none.
abbrev pub Line : Nodes → List ℕ → Type 0
Line ns [] = Unit
Line ns (i ∷ path) = (parent_of (ns i) ≡ some (top_of path)) × Line ns path

-- The contexts of the list come each below the one before.
abbrev pub Below : Nodes → Option ℕ → List ℕ → Type 0
Below ns top [] = Unit
Below ns top (i ∷ path) = (parent_of (ns i) ≡ some top) × Below ns (some i) path

abbrev pub IsLined : Nodes → Action → Type 0
IsLined ns (rises i downs) = Below ns (some i) downs
IsLined ns (enters ups downs) = Line ns ups × Below ns (top_of ups) downs
IsLined ns (works ups) = Line ns ups
IsLined ns (hook p c) = parent_of (ns c) ≡ some (some p)
IsLined ns _ = Unit

Line-Later : {ns ns' : Nodes} (path : List ℕ) → Later ns ns' → Line ns path → Line ns' path
Line-Later [] l h = tt
Line-Later (i ∷ path) l (e, h) = (l.parents i (top_of path) e, Line-Later path l h)

Below-Later :
    {ns ns' : Nodes} (top : Option ℕ) (path : List ℕ)
    → Later ns ns'
    → Below ns top path
    → Below ns' top path
Below-Later top [] l h = tt
Below-Later top (i ∷ path) l (e, h) = (l.parents i top e, Below-Later (some i) path l h)

IsLined-Later : {ns ns' : Nodes} → Later ns ns' → (a : Action) → IsLined ns a → IsLined ns' a
IsLined-Later l (rises i downs) h = Below-Later (some i) downs l h
IsLined-Later l (enters ups downs) (h, k) = (Line-Later ups l h, Below-Later (top_of ups) downs l k)
IsLined-Later l (works ups) h = Line-Later ups l h
IsLined-Later l (asks i r) h = tt
IsLined-Later l (stop i) h = tt
IsLined-Later l (leaves downs) h = tt
IsLined-Later l (callback i cb) h = tt
IsLined-Later l (hook p c) h = l.parents c (some p) h
IsLined-Later l (store_hook i) h = tt
IsLined-Later l (arm i) h = tt
IsLined-Later l (disarm i) h = tt
IsLined-Later l (unhook i) h = tt
IsLined-Later l (cancel i) h = tt

callbacks-IsLined :
    (ns : Nodes) (i : ℕ) (cbs : List Callback) → All (IsLined ns) (map (callback i) cbs)
callbacks-IsLined ns i [] = tt
callbacks-IsLined ns i (cb ∷ cbs) = (tt, callbacks-IsLined ns i cbs)

stops-IsLined :
    (ns : Nodes) (hs : List Hook) → All (IsLined ns) (map (λ (h : Hook). stop h.child) hs)
stops-IsLined ns [] = tt
stops-IsLined ns (h ∷ hs) = (tt, stops-IsLined ns hs)

call_back-IsLined : (ns : Nodes) (i : ℕ) (cb : Callback) → All (IsLined ns) (call_back i cb)
call_back-IsLined ns i (user fn) = tt
call_back-IsLined ns i (cancel_with k err) = (tt, (tt, (tt, tt)))
call_back-IsLined ns i (run_hooks hs) = stops-IsLined ns hs
call_back-IsLined ns i (release_parent d) = tt

answer-IsLined :
    (ns : Nodes) (v : Verdict) (ys xs : List Action)
    → All (IsLined ns) ys
    → All (IsLined ns) xs
    → All (IsLined ns) (answer v ys xs)
answer-IsLined ns (result true) ys xs a b = a
answer-IsLined ns (result false) ys xs a b = b
answer-IsLined ns over_released ys xs a b = tt

rise-IsLined :
    (ns : Nodes) (n : Node) (i : ℕ) (downs : List ℕ)
    → ns i ≡ some n
    → Below ns (some i) downs
    → All (IsLined ns) (rise n i downs)
unfolding rise
rise-IsLined ns n i downs h b = elim (Bool-cases (apply_refused (pos 1) n.state)) [
  | inl e ↦ rw e tt
  | inr e ↦ rw e (elim (Option-cases n.parent) [
    | inl r ↦ rw r ((tt, (ap parent_of h ∙ ap some r, b)), tt)
    | inr (p, r) ↦ rw r ((ap parent_of h ∙ ap some r, b), tt)
  ])
]

-- The actions that a move leads to are lined where the move leads to.
Act-IsLined :
    {now : ℤ} {ns ns' : Nodes} {a : Action} {more : List Action}
    → Act now ns a ns' more
    → Later ns ns'
    → IsLined ns a
    → All (IsLined ns') more
unfolding enter leave
Act-IsLined {ns' = ns'} (ask {i} h) l v = callbacks-IsLined ns' i _
Act-IsLined {ns' = ns'} (stop_child {i} h) l v = callbacks-IsLined ns' i _
Act-IsLined {ns = ns} (check {i} {downs} {n} h) l v = rise-IsLined ns n i downs h v
Act-IsLined begin_work l (v, b) = (v, tt)
Act-IsLined {now} {ns' = ns'} (count_up {i} {ups} {downs} {n} h) l (v, (e, b)) =
    answer-IsLined ns' (exec now (applies (pos 1)) n.state).verdict _ _
      (All-append (IsLined ns') (callbacks i (exec now (applies (pos 1)) n.state)) _
        (callbacks-IsLined ns' i _) (IsLined-Later l (enters (i ∷ ups) downs) ((e, v), b), tt))
      (tt, tt)
Act-IsLined end_work l v = (tt, tt)
Act-IsLined return_work l v = tt
Act-IsLined {now} {ns' = ns'} (count_down {i} {downs} {n} h) l v =
    answer-IsLined ns' (exec now (applies (negsuc 0)) n.state).verdict _ []
      (All-append (IsLined ns') (callbacks i (exec now (applies (negsuc 0)) n.state)) _
        (callbacks-IsLined ns' i _) (tt, tt))
      tt
Act-IsLined {ns = ns} (run_callback {i} {cb}) l v = call_back-IsLined ns i cb
Act-IsLined {ns' = ns'} (add_hook {p} h) l v = callbacks-IsLined ns' p _
Act-IsLined (keep_hook h) l v = tt
Act-IsLined (arm_after h) l v = tt
Act-IsLined (disarm_after h) l v = tt
Act-IsLined (drop_hook h k e g) l v = tt
Act-IsLined (skip_hook h k) l v = tt
Act-IsLined (cancel_context h) l v = tt

set_up-IsLined :
    (ns : Nodes) (i : ℕ) (g : ℤ) (p : Option ℕ)
    → All (IsLined (put i (fresh_node i g p) ns)) (set_up_node i p)
set_up-IsLined ns i g none = (tt, tt)
set_up-IsLined ns i g (some p) = (ground (arith, ==_iff i i), (tt, (tt, tt)))

abbrev AllLined : Nodes → List (List Action) → Type 0
AllLined ns threads = All (All (IsLined ns)) threads

AllLined-Later :
    {ns ns' : Nodes} (threads : List (List Action))
    → Later ns ns'
    → AllLined ns threads
    → AllLined ns' threads
AllLined-Later threads l v = All-weaken threads (λ t. All-weaken t (IsLined-Later l)) v

Step-IsLined :
    {f g : Forest}
    → Later f.nodes g.nodes
    → Step f g
    → AllLined f.nodes f.threads
    → AllLined g.nodes g.threads
Step-IsLined {f} {g} l (acts {now} {a} {rest} {more} act sw) v =
    let (here, others) = All_moving (All (IsLined f.nodes)) sw v in
    All-Swap (All (IsLined g.nodes)) sw
      (All-append (IsLined g.nodes) more rest (Act-IsLined act l here)
        (All-weaken rest (IsLined-Later l) others))
      (AllLined-Later f.threads l v)
Step-IsLined l (calls h) v = ((tt, tt), v)
Step-IsLined l (requests h d) v = ((tt, tt), v)
Step-IsLined {f} {g} l (creates {i} t h) v =
    (set_up-IsLined f.nodes i t none, AllLined-Later f.threads l v)
Step-IsLined {f} {g} l (derives {i} {p} t h k) v =
    (set_up-IsLined f.nodes i t (some p), AllLined-Later f.threads l v)
Step-IsLined {f} l (loses_context h) v = AllLined-Later f.threads l v
Step-IsLined {f} l (after h c a) v = ((tt, tt), AllLined-Later f.threads l v)

pub Reach-IsLined : {f : Forest} → Reach f → All (All (IsLined f.nodes)) f.threads
Reach-IsLined start = tt
Reach-IsLined (next r st) = Step-IsLined (Step-Later r st) st (Reach-IsLined r)

-- A context is within itself and within all contexts above it.
pub data Within (ns : Nodes) (i : ℕ) : ℕ → Type 0 where
  itself : Within ns i i
  above : {t p : ℕ} → parent_of (ns t) ≡ some (some p) → Within ns i p → Within ns i t

Line-top :
    {ns : Nodes} {i t : ℕ} (path : List ℕ)
    → Within ns i t
    → top_of path ≡ some t
    → Line ns path
    → 0 < occurs i path
Line-top [] w e v = cc
Line-top {i = i} (t ∷ path) itself e v = ground (arith, ==_iff t i)
Line-top {i = i} (t ∷ path) (above {t = t'} {p} h w) e (k, v) =
    let up : top_of path ≡ some p = cc in omega (arith, Line-top path w up v)

-- A task that was accepted holds the count of its context and of every context above.
pub task_holds_above :
    {f : Forest} {i t : ℕ} {ups : List ℕ} {rest : List Action}
    → Reach f
    → Memᴰ (works (t ∷ ups) ∷ rest) f.threads
    → Within f.nodes i t
    → 0 < held i f.threads
task_holds_above {f} {i} {t} {ups} r m within =
    let (ts, sw) = mover_of_mem f.threads m in
    let lined = (All_moving (All (IsLined f.nodes)) sw (Reach-IsLined r)).0 in
    omega (arith, Line-top (t ∷ ups) within refl lined, le-sum_of (sum_of (holds i)) sw)

-- As long as a task of a context is run, the counts of the context and of all contexts above are
-- positive.
pub task_keeps_above_busy :
    {f : Forest} {i t : ℕ} {n : Node} {ups : List ℕ} {rest : List Action}
    → Reach f
    → Memᴰ (works (t ∷ ups) ∷ rest) f.threads
    → Within f.nodes i t
    → f.nodes i ≡ some n
    → (c : ℕ) × (n.state.count ≡ pos (suc c))
task_keeps_above_busy {f} {i} r m within h =
    (held i f.threads - 1, count_is_held r h ∙ ap pos (omega (arith, task_holds_above r m within)))
