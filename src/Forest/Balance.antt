-- ===== src/Forest/Balance.antt =====
-- The counts of all contexts, in any interleaving of the goroutines of stopper.go: each is the
-- number of those who hold it.
use mathlib.Core.List.{Memᴰ}
use go_stopper.Prelude.{
  ℕ, ◌+◌, ◌-◌, ◌≡◌, ◌<◌, refl, sym, ap, ◌∙◌, true, false, List, ◌∷◌, Option, none, some, arith,
  ◌==◌, ==_iff, count_if-reverse,
}
use go_stopper.Prelude.Int.{ℤ, pos, negsuc}
use go_stopper.Prelude.Moves.{mover_of_mem, sum_of, sum_of-append, sum_of-Swap, le-sum_of}
use go_stopper.State.{result, new}
use go_stopper.State.Trace.{applies, stops, adds_hook, exec}
use go_stopper.Forest.Sections.{
  request-KeepsCount, stops-KeepsCount, adds_hook-KeepsCount, cancels_hook-KeepsCount, section_down,
}
use go_stopper.Forest.{
  Node, Nodes, put, op_of, Action, leaves, hook_for, Act, ask, stop_child, check, begin_work,
  count_up, end_work, return_work, count_down, run_callback, add_hook, keep_hook, arm_after,
  disarm_after, drop_hook, skip_hook, cancel_context, Forest, fresh_node, set_up_node, Step, acts,
  calls, requests, creates, derives, loses_context, after, Reach, start, next,
}
use go_stopper.Forest.Holders.{
  count_of, count_at, holds, held, Counted, call_back-holds_none, rise-holds_none,
  count_at-put_same, lock-Counted, put-Counted, enter-Counted, leave-Counted,
}

free_of : (ns : Nodes) (rest : ℕ → ℕ) → Counted ns (λ j. 0 + rest j) → Counted ns rest
free_of ns rest v j = v j ∙ ap pos (omega arith)

-- A move keeps the counts in balance, whatever else holds some.
Act-Counted :
    {now : ℤ} {ns ns' : Nodes} {a : Action} {more : List Action} (rest : ℕ → ℕ)
    → Act now ns a ns' more
    → Counted ns (λ j. holds j a + rest j)
    → Counted ns' (λ j. sum_of (holds j) more + rest j)
Act-Counted {now} {ns} rest (ask {i} {r} {n} h) v =
    lock-Counted now i n ns h rest (op_of r) (request-KeepsCount r) (free_of ns rest v)
Act-Counted {now} {ns} rest (stop_child {i} {n} h) v =
    lock-Counted now i n ns h rest (stops n.grace) (stops-KeepsCount n.grace) (free_of ns rest v)
Act-Counted {now} {ns} rest (check {i} {downs} {n} h) v =
    λ j. v j ∙ ap pos (omega (arith, rise-holds_none j n i downs))
Act-Counted rest begin_work v = λ j. v j ∙ ap pos (omega arith)
Act-Counted {now} {ns} rest (count_up {i} {ups} {downs} {n} h) v =
    enter-Counted now i n ns h rest ups downs v
Act-Counted rest (end_work {ups}) v =
    λ j. v j ∙ ap pos (omega (arith, count_if-reverse (λ k. k == j) ups))
Act-Counted rest return_work v = v
Act-Counted {now} {ns} rest (count_down {i} {downs} {n} h) v =
    leave-Counted now i n ns h rest downs v
Act-Counted rest (run_callback {i} {cb}) v =
    λ j. v j ∙ ap pos (omega (arith, call_back-holds_none j i cb))
Act-Counted {now} {ns} rest (add_hook {p} {c} {n} h) v =
    lock-Counted now p n ns h rest (adds_hook (hook_for c)) (adds_hook-KeepsCount (hook_for c))
      (free_of ns rest v)
Act-Counted {now} {ns} rest (keep_hook {i} {n} h) v =
    put-Counted now i n ns h (λ j. 0 + rest j) (record n { hooked = true }) refl v
Act-Counted {now} {ns} rest (arm_after {i} {n} h) v =
    put-Counted now i n ns h (λ j. 0 + rest j) (record n { armed = true }) refl v
Act-Counted {now} {ns} rest (disarm_after {i} {n} h) v =
    put-Counted now i n ns h (λ j. 0 + rest j) (record n { armed = false }) refl v
Act-Counted {now} {ns} rest (drop_hook {i} {p} {n} {m} h k e g) v =
    λ j. count_at-put_same p m _ ns j g (cancels_hook-KeepsCount i now m.state) ∙ v j
Act-Counted rest (skip_hook h k) v = v
Act-Counted {now} {ns} rest (cancel_context {i} {n} h) v =
    put-Counted now i n ns h (λ j. 0 + rest j) (record n { canceled = true }) refl v

set_up_holds_none : (j i : ℕ) (p : Option ℕ) → sum_of (holds j) (set_up_node i p) ≡ 0
set_up_holds_none j i none = omega arith
set_up_holds_none j i (some p) = omega arith

fresh-Counted :
    (i : ℕ) (n : Node) (ns : Nodes)
    → ns i ≡ none
    → n.state.count ≡ pos 0
    → (j : ℕ) → count_at (put i n ns) j ≡ count_at ns j
fresh-Counted i n ns h e j = ground arith

fresh_count : (i : ℕ) (g : ℤ) (p : Option ℕ) → (fresh_node i g p).state.count ≡ pos 0
unfolding new
fresh_count i g p = refl

Step-Counted :
    {f g : Forest}
    → Step f g
    → Counted f.nodes (λ j. held j f.threads)
    → Counted g.nodes (λ j. held j g.threads)
Step-Counted {f} (acts {now} {a} {rest} {more} {ns} {ts} act sw) v j =
    let rest' = λ (l : ℕ). held l f.threads - holds l a in
    let v' : Counted f.nodes (λ l. holds l a + rest' l) =
      λ l. v l ∙ ap pos (omega (arith, le-sum_of (sum_of (holds l)) sw)) in
    Act-Counted rest' act v' j
    ∙ ap pos (
        omega (
          arith,
          le-sum_of (sum_of (holds j)) sw,
          sum_of-Swap (sum_of (holds j)) sw,
          sum_of-append (holds j) more rest,
        ))
Step-Counted (calls h) v j = v j ∙ ap pos (omega arith)
Step-Counted (requests h d) v j = v j ∙ ap pos (omega arith)
Step-Counted {f} (creates {i} g h) v j =
    fresh-Counted i (fresh_node i g none) f.nodes h (fresh_count i g none) j
    ∙ v j
    ∙ ap pos (omega (arith, set_up_holds_none j i none))
Step-Counted {f} (derives {i} {p} g h k) v j =
    fresh-Counted i (fresh_node i g (some p)) f.nodes h (fresh_count i g (some p)) j
    ∙ v j
    ∙ ap pos (omega (arith, set_up_holds_none j i (some p)))
Step-Counted {f} (loses_context {i} {n} h) v j =
    count_at-put_same i n (record n { canceled = true }) f.nodes j h refl ∙ v j
Step-Counted {f} (after {i} {n} h c a) v j =
    count_at-put_same i n (record n { armed = false }) f.nodes j h refl ∙ v j ∙ ap pos (omega arith)

pub Reach-Counted : {f : Forest} → Reach f → Counted f.nodes (λ j. held j f.threads)
Reach-Counted start j = refl
Reach-Counted (next r st) j = Step-Counted st (Reach-Counted r) j

-- In any interleaving, the count of a context is the number of goroutines that hold it: those with
-- an accepted task of the context or of one below, those in the middle of an Apply that has counted
-- up there, and those whose release has not come to it yet.
pub count_is_held :
    {f : Forest} {i : ℕ} {n : Node}
    → Reach f
    → f.nodes i ≡ some n
    → n.state.count ≡ pos (held i f.threads)
count_is_held {f} {i} r h = ap count_of (sym h) ∙ Reach-Counted r i

-- No release panics: when a goroutine comes to a critical section of Apply(-1), the count is
-- positive, so that the section ends by the result true.
pub release_never_panics :
    {f : Forest} {i : ℕ} {n : Node} {downs : List ℕ} {rest : List Action} (now : ℤ)
    → Reach f
    → f.nodes i ≡ some n
    → Memᴰ (leaves (i ∷ downs) ∷ rest) f.threads
    → (exec now (applies (negsuc 0)) n.state).verdict ≡ result true
release_never_panics {f} {i} {n} now r h m =
    let (ts, sw) = mover_of_mem f.threads m in
    let some_hold : 0 < held i f.threads =
      ground (arith, le-sum_of (sum_of (holds i)) sw, ==_iff i i) in
    (section_down now n.state (held i f.threads - 1) (count_is_held r h ∙ ap pos (omega arith))).0
