-- ===== src/Forest/Later.antt =====
-- What stays as it is while the goroutines of stopper.go move: parents, stops, and the count of a
-- context that has drained.
use go_stopper.Prelude.{
  ℕ, ◌<◌, ◌≡◌, ◌≢◌, refl, sym, ap, ◌∙◌, true, false, Bool, List, Option, none, some, arith, ==_iff,
}
use go_stopper.Prelude.Int.{ℤ, pos, negsuc}
use go_stopper.Prelude.Moves.{sum_of, le-sum_of}
use go_stopper.State.{State}
use go_stopper.State.Trace.{Op, applies, stops, adds_hook, cancels_hook, exec}
use go_stopper.State.Invariant.{exec_stays_stopping}
use go_stopper.Forest.{
  Node, Nodes, put, op_of, Action, enter, leave, hook_for, Act, ask, stop_child, check, begin_work,
  count_up, end_work, return_work, count_down, run_callback, add_hook, keep_hook, arm_after,
  disarm_after, drop_hook, skip_hook, cancel_context, Forest, fresh_node, Step, Reach, acts, calls,
  requests, creates, derives, loses_context, after,
}
use go_stopper.Forest.Sections.{
  KeepsCount, request-KeepsCount, stops-KeepsCount, adds_hook-KeepsCount, cancels_hook-KeepsCount,
}
use go_stopper.Forest.Holders.{count_at, count_of, holds}
use go_stopper.Forest.Balance.{Reach-Counted}

abbrev pub stopping_of : Option Node → Bool
stopping_of none = false
stopping_of (some n) = n.state.stopping

abbrev pub parent_of : Option Node → Option (Option ℕ)
parent_of none = none
parent_of (some n) = some n.parent

pub record Later (ns ns' : Nodes) : Type 0 where
  pub parents : (j : ℕ) (p : Option ℕ) → parent_of (ns j) ≡ some p → parent_of (ns' j) ≡ some p
  pub stops_stay : (j : ℕ) → stopping_of (ns j) ≡ true → stopping_of (ns' j) ≡ true
  pub drained : (j : ℕ) → stopping_of (ns j) ≡ true → count_at ns j ≡ pos 0 → count_at ns' j ≡ pos 0

same-Later : (ns : Nodes) → Later ns ns
same-Later ns = record { parents = λ j p h. h; stops_stay = λ j h. h; drained = λ j h c. c }

-- What a section may do to the state of a node.
pub record Keeps (s s' : State) : Type 0 where
  pub stays : s.stopping ≡ true → s'.stopping ≡ true
  pub idle : s.stopping ≡ true → s.count ≡ pos 0 → s'.count ≡ pos 0

same-Keeps : (s : State) → Keeps s s
same-Keeps s = record { stays = λ h. h; idle = λ h c. c }

pub pos_zero : {n : ℕ} → pos n ≡ pos 0 → n ≡ 0
pos_zero h = cc

put-Later :
    (i : ℕ) (n n' : Node) (ns : Nodes)
    → ns i ≡ some n
    → n'.parent ≡ n.parent
    → Keeps n.state n'.state
    → Later ns (put i n' ns)
put-Later i n n' ns h e k = record {
  parents = λ j p g. ground arith;
  stops_stay = λ j g. ground arith;
  drained = λ j g c. ground arith;
}

lock-Keeps : (now : ℤ) (op : Op) (s : State) → KeepsCount op → Keeps s (exec now op s).after
lock-Keeps now op s k = record { stays = exec_stays_stopping now op s; idle = λ h c. k now s ∙ c }

enter-Keeps : (now : ℤ) (s : State) → Keeps s (exec now (applies (pos 1)) s).after
unfolding exec
enter-Keeps now s = record {
  stays = exec_stays_stopping now (applies (pos 1)) s;
  idle = λ h c. ground arith;
}

leave-Keeps :
    (now : ℤ) (s : State) → s.count ≢ pos 0 → Keeps s (exec now (applies (negsuc 0)) s).after
leave-Keeps now s h = record {
  stays = exec_stays_stopping now (applies (negsuc 0)) s;
  idle = λ e c. absurd (h c);
}

fresh-Later : (i : ℕ) (n : Node) (ns : Nodes) → ns i ≡ none → Later ns (put i n ns)
fresh-Later i n ns h = record {
  parents = λ j p g. ground arith;
  stops_stay = λ j g. ground arith;
  drained = λ j g c. ground arith;
}

-- A move, of a goroutine whose counts are in the balance.
Act-Later :
    {now : ℤ} {ns ns' : Nodes} {a : Action} {more : List Action}
    → Act now ns a ns' more
    → ((j : ℕ) → 0 < holds j a → count_at ns j ≢ pos 0)
    → Later ns ns'
unfolding enter leave
Act-Later {now} {ns} (ask {i} {r} {n} h) b =
    put-Later i n _ ns h refl (lock-Keeps now (op_of r) n.state (request-KeepsCount r))
Act-Later {now} {ns} (stop_child {i} {n} h) b =
    put-Later i n _ ns h refl (lock-Keeps now (stops n.grace) n.state (stops-KeepsCount n.grace))
Act-Later {ns = ns} (check h) b = same-Later ns
Act-Later {ns = ns} begin_work b = same-Later ns
Act-Later {now} {ns} (count_up {i} {ups} {downs} {n} h) b =
    put-Later i n _ ns h refl (enter-Keeps now n.state)
Act-Later {ns = ns} end_work b = same-Later ns
Act-Later {ns = ns} return_work b = same-Later ns
Act-Later {now} {ns} (count_down {i} {downs} {n} h) b =
    put-Later i n _ ns h refl
      (leave-Keeps now n.state (λ c. b i (ground (arith, ==_iff i i)) (ap count_of h ∙ c)))
Act-Later {ns = ns} run_callback b = same-Later ns
Act-Later {now} {ns} (add_hook {p} {c} {n} h) b =
    put-Later p n _ ns h refl
      (lock-Keeps now (adds_hook (hook_for c)) n.state (adds_hook-KeepsCount (hook_for c)))
Act-Later {now} {ns} (keep_hook {i} {n} h) b = put-Later i n _ ns h refl (same-Keeps n.state)
Act-Later {now} {ns} (arm_after {i} {n} h) b = put-Later i n _ ns h refl (same-Keeps n.state)
Act-Later {now} {ns} (disarm_after {i} {n} h) b = put-Later i n _ ns h refl (same-Keeps n.state)
Act-Later {now} {ns} (drop_hook {i} {p} {n} {m} h k e g) b =
    put-Later p m _ ns g refl (lock-Keeps now (cancels_hook i) m.state (cancels_hook-KeepsCount i))
Act-Later {ns = ns} (skip_hook h k) b = same-Later ns
Act-Later {now} {ns} (cancel_context {i} {n} h) b = put-Later i n _ ns h refl (same-Keeps n.state)

pub Step-Later : {f g : Forest} → Reach f → Step f g → Later f.nodes g.nodes
Step-Later {f} r (acts {now} {a} {rest} act sw) = Act-Later act λ j h c.
    absurd
      (omega (arith, pos_zero (sym (Reach-Counted r j) ∙ c), h, le-sum_of (sum_of (holds j)) sw))
Step-Later {f} r (calls h) = same-Later f.nodes
Step-Later {f} r (requests h d) = same-Later f.nodes
Step-Later {f} r (creates {i} g h) = fresh-Later i (fresh_node i g none) f.nodes h
Step-Later {f} r (derives {i} {p} g h k) = fresh-Later i (fresh_node i g (some p)) f.nodes h
Step-Later {f} r (loses_context {i} {n} h) = put-Later i n _ f.nodes h refl (same-Keeps n.state)
Step-Later {f} r (after {i} {n} h c a) = put-Later i n _ f.nodes h refl (same-Keeps n.state)
