-- ===== src/Forest/Spread.antt =====
-- A stop reaches the contexts below (stopper.go, internal/state/state.go).
use go_stopper.Prelude.{
  ℕ, ◌+◌, ◌≤◌, ◌<◌, ◌≡◌, ◌≢◌, refl, sym, ap, subst, ◌∙◌, true, false, List, [], Option, none, some,
  arith, inl, inr, ◌⊎◌, ◌==◌, ==_iff, Bool-cases, Option-cases,
}
use native.Mathlib.Decide.{dec_lt}
use go_stopper.Prelude.Int.{ℤ, pos, negsuc}
use go_stopper.Prelude.Moves.{All, All_moving, sum_of, sum_of-append, sum_of-Swap, le-sum_of}
use go_stopper.State.{new}
use go_stopper.State.Trace.{stops, adds_hook, cancels_hook}
use go_stopper.Forest.{
  Node, Nodes, put, op_of, Action, lock, enter, leave, hook_for, Act, ask, stop_child, check,
  begin_work, count_up, end_work, return_work, count_down, run_callback, add_hook, keep_hook,
  arm_after, disarm_after, drop_hook, skip_hook, cancel_context, Forest, fresh_node, Step, acts,
  calls, requests, creates, derives, loses_context, after, Reach, start, next,
}
use go_stopper.Forest.Later.{stopping_of, parent_of}
use go_stopper.Forest.Lines.{Within, itself, above, IsLined, Reach-IsLined}
use go_stopper.Forest.Sound.{ending, total}
use go_stopper.Forest.Cancels.{Reach-IsSound}
use go_stopper.Forest.Ties.{
  stopper_of, stop_hooks_of, ties, section_ties, stopping_ties, apply_ties, stop_child_ties,
  add_hook_ties, drop_hook_ties, ties-put, call_back_stops,
}
use go_stopper.Forest.Hooks.{hooks_of, request-KeepsHooks, stops-KeepsHooks, adds_hook-KeepsHooks}

Act-ties :
    {now : ℤ} {ns ns' : Nodes} {a : Action} {more : List Action} (p c : ℕ)
    → Act now ns a ns' more
    → parent_of (ns c) ≡ some (some p)
    → IsLined ns a
    → (0 < ending c a → stopping_of (ns c) ≡ true)
    → 0 < ties ns p c + stopper_of c a
    → 0 < ties ns' p c + sum_of (stopper_of c) more
unfolding enter leave
Act-ties {now} {ns} p c (ask {i} {r} {n} h) k v e t =
    section_ties now (op_of r) i n ns p c (request-KeepsHooks r) h (omega (arith, t))
Act-ties {now} {ns} p c (stop_child {i} {n} h) k v e t = elim (Bool-cases (i == c)) [
  | inl same ↦
      subst
        (λ d.
          0
          < ties (lock now (stops n.grace) i n ns).0 p d
            + sum_of (stopper_of d) (lock now (stops n.grace) i n ns).1)
        ((==_iff i c).0 same) (omega (arith, stop_child_ties now n.grace i n ns p h))
  | inr other ↦
      section_ties now (stops n.grace) i n ns p c (stops-KeepsHooks n.grace) h
        (ground (arith, t, other))
]
Act-ties {ns = ns} p c (check {i} {downs} {n} h) k v e t = omega (arith, t)
Act-ties p c begin_work k v e t = omega (arith, t)
Act-ties {now} {ns} p c (count_up {i} {ups} {downs} {n} h) k v e t =
    apply_ties now (pos 1) i n ns p c _ _ h (omega (arith, t))
Act-ties p c end_work k v e t = omega (arith, t)
Act-ties p c return_work k v e t = omega (arith, t)
Act-ties {now} {ns} p c (count_down {i} {downs} {n} h) k v e t =
    apply_ties now (negsuc 0) i n ns p c _ _ h (omega (arith, t))
Act-ties {ns = ns} p c (run_callback {i} {cb}) k v e t = omega (arith, t, call_back_stops c i cb)
Act-ties {now} {ns} p c (add_hook {p = q} {c = d} {n} h) k v e t = elim (Bool-cases (d == c)) [
  | inl same ↦
      let same_child : d ≡ c = (==_iff d c).0 same in
      let same_parent : q ≡ p = cc in
      let added = lock now (adds_hook (hook_for d)) q n ns in
      subst (λ r. 0 < ties added.0 r c + sum_of (stopper_of c) added.1) same_parent
        (subst (λ e. 0 < ties added.0 q e + sum_of (stopper_of e) added.1) same_child
          (add_hook_ties now q d n ns h))
  | inr other ↦
      section_ties now (adds_hook (hook_for d)) q n ns p c (adds_hook-KeepsHooks (hook_for d)) h
        (ground (arith, t, other))
]
Act-ties {ns = ns} p c (keep_hook {i} {n} h) k v e t =
    omega (arith, t, ties-put i n (record n { hooked = true }) ns p c h refl)
Act-ties {ns = ns} p c (arm_after {i} {n} h) k v e t =
    omega (arith, t, ties-put i n (record n { armed = true }) ns p c h refl)
Act-ties {ns = ns} p c (disarm_after {i} {n} h) k v e t =
    omega (arith, t, ties-put i n (record n { armed = false }) ns p c h refl)
Act-ties {now} {ns} p c (drop_hook {i} {p = q} {n} {m} h hk r g) k v e t =
    elim (Bool-cases (i == c)) [
      | inl same ↦
          omega (arith, stopping_ties now (cancels_hook i) q m ns p c g (e (ground (arith, same))))
      | inr other ↦ omega (
        arith,
        drop_hook_ties now i q m ns p c (ground (arith, other, ==_iff i c)) g (omega (arith, t)),
      )
    ]
Act-ties p c (skip_hook h k') k v e t = omega (arith, t)
Act-ties {ns = ns} p c (cancel_context {i} {n} h) k v e t =
    omega (arith, t, ties-put i n (record n { canceled = true }) ns p c h refl)

put_parent :
    (i : ℕ) (n n' : Node) (ns : Nodes) (j : ℕ)
    → ns i ≡ some n
    → n'.parent ≡ n.parent
    → parent_of (put i n' ns j) ≡ parent_of (ns j)
put_parent i n n' ns j h e = ground (arith, ==_iff i j)

-- A goroutine that moves changes no parent.
Act-parents :
    {now : ℤ} {ns ns' : Nodes} {a : Action} {more : List Action} (j : ℕ)
    → Act now ns a ns' more
    → parent_of (ns' j) ≡ parent_of (ns j)
unfolding enter leave
Act-parents {ns = ns} j (ask {i} {r} {n} h) = put_parent i n _ ns j h refl
Act-parents {ns = ns} j (stop_child {i} {n} h) = put_parent i n _ ns j h refl
Act-parents j (check h) = refl
Act-parents j begin_work = refl
Act-parents {ns = ns} j (count_up {i} {n = n} h) = put_parent i n _ ns j h refl
Act-parents j end_work = refl
Act-parents j return_work = refl
Act-parents {ns = ns} j (count_down {i} {n = n} h) = put_parent i n _ ns j h refl
Act-parents j run_callback = refl
Act-parents {ns = ns} j (add_hook {p = q} {n = n} h) = put_parent q n _ ns j h refl
Act-parents {ns = ns} j (keep_hook {i} {n} h) = put_parent i n _ ns j h refl
Act-parents {ns = ns} j (arm_after {i} {n} h) = put_parent i n _ ns j h refl
Act-parents {ns = ns} j (disarm_after {i} {n} h) = put_parent i n _ ns j h refl
Act-parents {ns = ns} j (drop_hook {i} {p = q} {n} {m} h hk r g) = put_parent q m _ ns j g refl
Act-parents j (skip_hook h hk) = refl
Act-parents {ns = ns} j (cancel_context {i} {n} h) = put_parent i n _ ns j h refl

-- Every child stops, or has a hook with its parent, or is about to be stopped or hooked.
abbrev pub IsTied : Forest → Type 0
IsTied f =
    (p c : ℕ)
    → parent_of (f.nodes c) ≡ some (some p)
    → 0 < ties f.nodes p c + total (stopper_of c) f.threads

fresh_ties :
    (i : ℕ) (n : Node) (ns : Nodes) (p c : ℕ)
    → ns i ≡ none
    → n.state.stop_hooks ≡ []
    → c ≢ i
    → ties ns p c ≤ ties (put i n ns) p c
fresh_ties i n ns p c h e d = ground (arith, ==_iff i p, ==_iff i c)

fresh_hooks : (i : ℕ) (g : ℤ) (p : Option ℕ) → (fresh_node i g p).state.stop_hooks ≡ []
unfolding new
fresh_hooks i g p = refl

put_other_parent :
    (i : ℕ) (n : Node) (ns : Nodes) (c : ℕ) → c ≢ i → parent_of (put i n ns c) ≡ parent_of (ns c)
put_other_parent i n ns c d = ground (arith, ==_iff i c)

Step-IsTied : {f g : Forest} → Reach f → Step f g → IsTied f → IsTied g
Step-IsTied {f} {g} r (acts {now} {a} {rest} {more} {ns} {ts} act sw) v p c k =
    let s = Reach-IsSound r in
    let k' : parent_of (f.nodes c) ≡ some (some p) = sym (Act-parents c act) ∙ k in
    let lined = (All_moving (All (IsLined f.nodes)) sw (Reach-IsLined r)).0 in
    let ends =
      λ (h : 0 < ending c a). s.endings c (omega (arith, h, le-sum_of (sum_of (ending c)) sw)) in
    let before = le-sum_of (sum_of (stopper_of c)) sw in
    let swapped = sum_of-Swap (sum_of (stopper_of c)) sw in
    let appended = sum_of-append (stopper_of c) more rest in
    elim (dec_lt 0 (ties f.nodes p c + stopper_of c a)) [
      | yes t ↦ omega (arith, Act-ties p c act k' lined ends t, before, swapped, appended)
      | no t ↦ omega (arith, v p c k', t, before, swapped, appended)
    ]
Step-IsTied r (calls h) v p c k = omega (arith, v p c k)
Step-IsTied r (requests h d) v p c k = omega (arith, v p c k)
Step-IsTied {f} r (creates {i} g h) v p c k = elim (Bool-cases (c == i)) [
  | inl e ↦ ground (arith, ==_iff c i, ==_iff i c)
  | inr e ↦
      let d : c ≢ i = ground (arith, ==_iff c i) in
      omega (
        arith,
        v p c (sym (put_other_parent i (fresh_node i g none) f.nodes c d) ∙ k),
        fresh_ties i (fresh_node i g none) f.nodes p c h (fresh_hooks i g none) d,
      )
]
Step-IsTied {f} r (derives {i} {p = q} g h hq) v p c k = elim (Bool-cases (c == i)) [
  | inl e ↦ ground (arith, ==_iff c i, ==_iff i c)
  | inr e ↦
      let d : c ≢ i = ground (arith, ==_iff c i) in
      omega (
        arith,
        v p c (sym (put_other_parent i (fresh_node i g (some q)) f.nodes c d) ∙ k),
        fresh_ties i (fresh_node i g (some q)) f.nodes p c h (fresh_hooks i g (some q)) d,
      )
]
Step-IsTied {f} r (loses_context {i} {n} h) v p c k = omega (
  arith,
  v p c (sym (put_parent i n (record n { canceled = true }) f.nodes c h refl) ∙ k),
  ties-put i n (record n { canceled = true }) f.nodes p c h refl,
)
Step-IsTied {f} r (after {i} {n} h ca ar) v p c k = omega (
  arith,
  v p c (sym (put_parent i n (record n { armed = false }) f.nodes c h refl) ∙ k),
  ties-put i n (record n { armed = false }) f.nodes p c h refl,
)

Reach-IsTied : {f : Forest} → Reach f → IsTied f
Reach-IsTied start p c k = cc
Reach-IsTied (next r st) p c k = Step-IsTied r st (Reach-IsTied r) p c k

stopping_unhooked :
    {f : Forest} (p : ℕ) → Reach f → stopping_of (f.nodes p) ≡ true → stop_hooks_of (f.nodes p) ≡ []
stopping_unhooked {f} p r h = elim (Option-cases (f.nodes p)) [
  | inl e ↦ cc
  | inr (n, e) ↦
      ap stop_hooks_of e
      ∙ ((Reach-IsSound r).states p n e).well_formed.hooks_taken (ap stopping_of (sym e) ∙ h)
]

-- In any interleaving, a child of a context that has begun to stop has begun to stop as well, or a
-- goroutine is about to stop it or to set its hook.
stop_reaches_child :
    {f : Forest} (p c : ℕ)
    → Reach f
    → parent_of (f.nodes c) ≡ some (some p)
    → stopping_of (f.nodes p) ≡ true
    → (stopping_of (f.nodes c) ≡ true) ⊎ (0 < total (stopper_of c) f.threads)
stop_reaches_child {f} p c r k h = elim (Bool-cases (stopping_of (f.nodes c))) [
  | inl e ↦ inl e
  | inr e ↦ inr (ground (arith, Reach-IsTied r p c k, ap (hooks_of c) (stopping_unhooked p r h)))
]

-- When no goroutine is about to stop a context or to set a hook, all contexts below one that has
-- begun to stop have begun to stop.
pub stop_reaches_below :
    {f : Forest} {i t : ℕ}
    → Reach f
    → ((c : ℕ) → total (stopper_of c) f.threads ≡ 0)
    → Within f.nodes i t
    → stopping_of (f.nodes i) ≡ true
    → stopping_of (f.nodes t) ≡ true
stop_reaches_below r calm itself h = h
stop_reaches_below r calm (above {t} {p} k within) h =
    elim (stop_reaches_child p t r k (stop_reaches_below r calm within h)) [
      | inl done ↦ done
      | inr pending ↦ absurd (omega (arith, pending, calm t))
    ]
