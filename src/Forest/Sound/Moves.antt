-- ===== src/Forest/Sound/Moves.antt =====
-- What a goroutine that moves makes of the states of a forest, and of the cancel functions that are
-- about to be called (stopper.go, internal/state/state.go).
use go_stopper.Prelude.{
  ℕ, ◌≤◌, ◌<◌, ◌≡◌, refl, sym, ap, subst, ◌∙◌, true, false, List, [], ◌∷◌, ◌++◌, some, arith, inl,
  inr, ◌⊎◌, ==_iff, Bool-cases, Option-cases,
}
use go_stopper.Prelude.Int.{ℤ, pos, negsuc}
use go_stopper.Prelude.Moves.{sum_of, sum_of-append}
use go_stopper.State.{
  Callback, Hook, Verdict, result, over_released, user, cancel_with, run_hooks, release_parent,
  apply_refused,
}
use go_stopper.State.Trace.{Op, applies, stops, adds_hook, cancels_hook, exec}
use go_stopper.State.Invariant.{Permitted}
use go_stopper.Forest.{
  Node, Nodes, put, Request, defer, stop_within, stop_idle, add_error, expire, op_of, Action, asks,
  stop, rises, enters, callback, callbacks, lock, rise, enter, leave, answer, call_back, hook_for,
  Act, ask, stop_child, check, begin_work, count_up, end_work, return_work, count_down,
  run_callback, add_hook, keep_hook, arm_after, disarm_after, drop_hook, skip_hook, cancel_context,
}
use go_stopper.Forest.Holders.{count_at}
use go_stopper.Forest.Later.{stopping_of}
use go_stopper.Forest.Sound.{
  ending, clean, IsSoundState, AreSound, put-AreSound, exec-IsSoundState, section_endings,
  section_cleans,
}

-- What a move makes of sound states, and of the endings to come.
pub record IsSoundMove (a : Action) (ns' : Nodes) (more : List Action) : Type 0 where
  pub states : AreSound ns'
  pub endings :
      (j : ℕ) → 0 < sum_of (ending j) more → (0 < ending j a) ⊎ (stopping_of (ns' j) ≡ true)
  pub cleans : (j : ℕ) → 0 < sum_of (clean j) more → (0 < clean j a) ⊎ (count_at ns' j ≡ pos 0)

section-IsSoundMove :
    (now : ℤ) (op : Op) (i : ℕ) (n : Node) (ns : Nodes) (a : Action) (more : List Action)
    → Permitted op n.state
    → ns i ≡ some n
    → AreSound ns
    → ((j : ℕ) → sum_of (ending j) more ≤ sum_of (ending j) (lock now op i n ns).1)
    → ((j : ℕ) → sum_of (clean j) more ≤ sum_of (clean j) (lock now op i n ns).1)
    → IsSoundMove a (lock now op i n ns).0 more
section-IsSoundMove now op i n ns a more p h v e c = record {
  states = put-AreSound i _ ns v (exec-IsSoundState now op n.state p (v i n h));
  endings = λ j l. inr (section_endings now op i n ns p (v i n h) j (omega (arith, e j, l)));
  cleans = λ j l. inr (section_cleans now op i n ns p (v i n h) j (omega (arith, c j, l)));
}

-- A move that only changes what the state is not concerned with.
light-IsSoundMove :
    (a : Action) (ns' : Nodes) (more : List Action)
    → AreSound ns'
    → ((j : ℕ) → sum_of (ending j) more ≤ ending j a)
    → ((j : ℕ) → sum_of (clean j) more ≤ clean j a)
    → IsSoundMove a ns' more
light-IsSoundMove a ns' more v e c = record {
  states = v;
  endings = λ j l. inl (omega (arith, e j, l));
  cleans = λ j l. inl (omega (arith, c j, l));
}

-- What follows the callbacks of a section of Apply has no weight.
answer_weight :
    (w : Action → ℕ) (v : Verdict) (cbs xs : List Action) (x : Action)
    → w x ≡ 0
    → sum_of w xs ≡ 0
    → sum_of w (answer v (cbs ++ x ∷ []) xs) ≤ sum_of w cbs
answer_weight w (result true) cbs xs x e h = omega (arith, sum_of-append w cbs (x ∷ []), e)
answer_weight w (result false) cbs xs x e h = omega (arith, h)
answer_weight w over_released cbs xs x e h = omega arith

rise_weight :
    (w : Action → ℕ) (n : Node) (i : ℕ) (downs : List ℕ)
    → ((ups downs : List ℕ) → w (enters ups downs) ≡ 0)
    → ((p : ℕ) (downs : List ℕ) → w (rises p downs) ≡ 0)
    → sum_of w (rise n i downs) ≡ 0
unfolding rise
rise_weight w n i downs h k = elim (Bool-cases (apply_refused (pos 1) n.state)) [
  | inl e ↦ rw e refl
  | inr e ↦ rw e (elim (Option-cases n.parent) [
    | inl r ↦ rw r (omega (arith, h [] (i ∷ downs)))
    | inr (p, r) ↦ rw r (omega (arith, k p (i ∷ downs)))
  ])
]

stops_weight :
    (w : Action → ℕ) (hs : List Hook)
    → ((c : ℕ) → w (stop c) ≡ 0)
    → sum_of w (call_back 0 (run_hooks hs)) ≡ 0
stops_weight w [] h = refl
stops_weight w (k ∷ hs) h = omega (arith, h k.child, stops_weight w hs h)

call_back-endings :
    (j i : ℕ) (cb : Callback)
    → (sum_of (ending j) (call_back i cb) ≤ ending j (callback i cb))
      × (sum_of (clean j) (call_back i cb) ≤ clean j (callback i cb))
call_back-endings j i (user fn) = (omega arith, omega arith)
call_back-endings j i (cancel_with k err) = (omega arith, omega arith)
call_back-endings j i (run_hooks hs) = (
  omega (arith, stops_weight (ending j) hs (λ c. refl)),
  omega (arith, stops_weight (clean j) hs (λ c. refl)),
)
call_back-endings j i (release_parent d) = (omega arith, omega arith)

pub node-AreSound :
    (i : ℕ) (n n' : Node) (ns : Nodes)
    → ns i ≡ some n
    → n'.state ≡ n.state
    → AreSound ns
    → AreSound (put i n' ns)
node-AreSound i n n' ns h e v = put-AreSound i n' ns v (subst IsSoundState (sym e) (v i n h))

ask-Permitted :
    (r : Request) (i : ℕ) (n : Node) (ns : Nodes)
    → ns i ≡ some n
    → ((j : ℕ) → 0 < ending j (asks i r) → stopping_of (ns j) ≡ true)
    → Permitted (op_of r) n.state
ask-Permitted (defer fn) i n ns h b = tt
ask-Permitted (stop_within g) i n ns h b = tt
ask-Permitted (stop_idle g) i n ns h b = tt
ask-Permitted (add_error es) i n ns h b = tt
ask-Permitted expire i n ns h b = ap stopping_of (sym h) ∙ b i (ground (arith, ==_iff i i))

pub Act-IsSoundMove :
    {now : ℤ} {ns ns' : Nodes} {a : Action} {more : List Action}
    → Act now ns a ns' more
    → ((j : ℕ) → 0 < ending j a → stopping_of (ns j) ≡ true)
    → AreSound ns
    → IsSoundMove a ns' more
unfolding enter leave
Act-IsSoundMove {now} {ns} {a = a} (ask {i} {r} {n} h) b v =
    section-IsSoundMove now (op_of r) i n ns a _ (ask-Permitted r i n ns h b) h v (λ j. omega arith)
      (λ j. omega arith)
Act-IsSoundMove {now} {ns} {a = a} (stop_child {i} {n} h) b v =
    section-IsSoundMove now (stops n.grace) i n ns a _ tt h v (λ j. omega arith) (λ j. omega arith)
Act-IsSoundMove {ns = ns} {a = a} (check {i} {downs} {n} h) b v =
    light-IsSoundMove a ns _ v
      (λ j. omega (arith, rise_weight (ending j) n i downs (λ us ds. refl) (λ p ds. refl)))
      (λ j. omega (arith, rise_weight (clean j) n i downs (λ us ds. refl) (λ p ds. refl)))
Act-IsSoundMove {ns = ns} {a = a} begin_work b v =
    light-IsSoundMove a ns _ v (λ j. omega arith) (λ j. omega arith)
Act-IsSoundMove {now} {ns} {a = a} (count_up {i} {ups} {downs} {n} h) b v =
    let sec = exec now (applies (pos 1)) n.state in
    section-IsSoundMove now (applies (pos 1)) i n ns a _ tt h v
      (λ j. answer_weight (ending j) sec.verdict (callbacks i sec) _ _ refl (omega arith))
      (λ j. answer_weight (clean j) sec.verdict (callbacks i sec) _ _ refl (omega arith))
Act-IsSoundMove {ns = ns} {a = a} end_work b v =
    light-IsSoundMove a ns _ v (λ j. omega arith) (λ j. omega arith)
Act-IsSoundMove {ns = ns} {a = a} return_work b v =
    light-IsSoundMove a ns _ v (λ j. omega arith) (λ j. omega arith)
Act-IsSoundMove {now} {ns} {a = a} (count_down {i} {downs} {n} h) b v =
    let sec = exec now (applies (negsuc 0)) n.state in
    section-IsSoundMove now (applies (negsuc 0)) i n ns a _ tt h v
      (λ j. answer_weight (ending j) sec.verdict (callbacks i sec) _ _ refl refl)
      (λ j. answer_weight (clean j) sec.verdict (callbacks i sec) _ _ refl refl)
Act-IsSoundMove {ns = ns} {a = a} (run_callback {i} {cb}) b v =
    light-IsSoundMove a ns _ v (λ j. (call_back-endings j i cb).0)
      (λ j. (call_back-endings j i cb).1)
Act-IsSoundMove {now} {ns} {a = a} (add_hook {p} {c} {n} h) b v =
    section-IsSoundMove now (adds_hook (hook_for c)) p n ns a _ tt h v (λ j. omega arith)
      (λ j. omega arith)
Act-IsSoundMove {ns = ns} {a = a} (keep_hook {i} {n} h) b v =
    light-IsSoundMove a _ _ (node-AreSound i n _ ns h refl v) (λ j. omega arith) (λ j. omega arith)
Act-IsSoundMove {ns = ns} {a = a} (arm_after {i} {n} h) b v =
    light-IsSoundMove a _ _ (node-AreSound i n _ ns h refl v) (λ j. omega arith) (λ j. omega arith)
Act-IsSoundMove {ns = ns} {a = a} (disarm_after {i} {n} h) b v =
    light-IsSoundMove a _ _ (node-AreSound i n _ ns h refl v) (λ j. omega arith) (λ j. omega arith)
Act-IsSoundMove {now} {ns} {a = a} (drop_hook {i} {p} {n} {m} h k e g) b v =
    section-IsSoundMove now (cancels_hook i) p m ns a _ tt g v (λ j. omega arith) (λ j. omega arith)
Act-IsSoundMove {ns = ns} {a = a} (skip_hook h k) b v =
    light-IsSoundMove a ns _ v (λ j. omega arith) (λ j. omega arith)
Act-IsSoundMove {ns = ns} {a = a} (cancel_context {i} {n} h) b v =
    light-IsSoundMove a _ _ (node-AreSound i n _ ns h refl v) (λ j. omega arith) (λ j. omega arith)
