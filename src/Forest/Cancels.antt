-- ===== src/Forest/Cancels.antt =====
-- A context is canceled with ErrStopped only when all tasks of it and below are over (stopper.go,
-- internal/state/state.go).
use mathlib.Core.List.{Memᴰ}
use go_stopper.Prelude.{
  ℕ, ◌≤◌, ◌<◌, ◌≡◌, refl, sym, ap, subst, ◌∙◌, true, List, [], ◌∷◌, ◌++◌, Option, none, some, arith,
  inl, inr, ◌⊎◌, ==_iff, is_some,
}
use native.Mathlib.Decide.{dec_lt}
use go_stopper.Prelude.Int.{ℤ, pos}
use go_stopper.Prelude.Moves.{
  Swap, mover_of_mem, sum_of, sum_of-append, sum_of-Swap, le-sum_of, sum_of_mono,
}
use go_stopper.Errors.{stopped}
use go_stopper.State.{user, cancel_with, run_hooks, release_parent, new}
use go_stopper.State.Invariant.{new-IsWellFormed}
use go_stopper.Forest.{
  Node, Nodes, Request, defer, stop_within, stop_idle, add_error, expire, Action, asks, stop, rises,
  enters, works, leaves, callback, hook, store_hook, arm, disarm, unhook, cancel, Forest,
  fresh_node, set_up_node, IsDue, Step, acts, calls, requests, creates, derives, loses_context,
  after, Reach, start, next,
}
use go_stopper.Forest.Holders.{count_at, held}
use go_stopper.Forest.Balance.{Reach-Counted}
use go_stopper.Forest.Later.{stopping_of, pos_zero, Later, Step-Later}
use go_stopper.Forest.Lines.{Within, task_holds_above}
use go_stopper.Forest.Sound.{ending, clean, total, IsSoundState, AreSound, put-AreSound}
use go_stopper.Forest.Sound.Moves.{Act-IsSoundMove, node-AreSound}

pub record IsSound (f : Forest) : Type 0 where
  pub states : AreSound f.nodes
  pub endings : (j : ℕ) → 0 < total (ending j) f.threads → stopping_of (f.nodes j) ≡ true
  pub cleans : (j : ℕ) → 0 < total (clean j) f.threads → count_at f.nodes j ≡ pos 0

clean-le-ending : (j : ℕ) (a : Action) → clean j a ≤ ending j a
clean-le-ending j (callback i (user fn)) = ground arith
clean-le-ending j (callback i (cancel_with k e)) = ground arith
clean-le-ending j (callback i (run_hooks hs)) = ground arith
clean-le-ending j (callback i (release_parent d)) = ground arith
clean-le-ending j (asks i r) = omega arith
clean-le-ending j (stop i) = omega arith
clean-le-ending j (rises i ds) = omega arith
clean-le-ending j (enters us ds) = omega arith
clean-le-ending j (works us) = omega arith
clean-le-ending j (leaves ds) = omega arith
clean-le-ending j (hook p c) = omega arith
clean-le-ending j (store_hook i) = omega arith
clean-le-ending j (arm i) = omega arith
clean-le-ending j (disarm i) = omega arith
clean-le-ending j (unhook i) = omega arith
clean-le-ending j (cancel i) = omega arith

total-clean-le : (j : ℕ) (ts : List (List Action)) → total (clean j) ts ≤ total (ending j) ts
total-clean-le j ts =
    sum_of_mono (sum_of (clean j)) (sum_of (ending j)) ts
      λ t. sum_of_mono (clean j) (ending j) t (clean-le-ending j)

-- A weight that is left after a move was there before, or comes with the move.
weight_moves :
    (w : Action → ℕ) {a : Action} (rest more : List Action) {ts ts' : List (List Action)}
    → Swap (a ∷ rest) (more ++ rest) ts ts'
    → 0 < total w ts'
    → (0 < sum_of w more) ⊎ (0 < total w ts)
weight_moves w {a} rest more sw l = elim (dec_lt 0 (sum_of w more)) [
  | yes p ↦ inl p
  | no p ↦ inr (omega (arith, l, p, sum_of-Swap (sum_of w) sw, sum_of-append w more rest))
]

-- The context stops, or is drained, as before.
module _ {f : Forest} {ns : Nodes} (later : Later f.nodes ns) (s : IsSound f) where
  endings_stay : (j : ℕ) → 0 < total (ending j) f.threads → stopping_of (ns j) ≡ true
  endings_stay j l = later.stops_stay j (s.endings j l)

  cleans_stay : (j : ℕ) → 0 < total (clean j) f.threads → count_at ns j ≡ pos 0
  cleans_stay j l =
      later.drained j (s.endings j (omega (arith, l, total-clean-le j f.threads))) (s.cleans j l)

  -- A new goroutine, which ends only what is stopping.
  spawn-IsSound :
      (t : List Action)
      → ((j : ℕ) → 0 < sum_of (ending j) t → stopping_of (ns j) ≡ true)
      → ((j : ℕ) → sum_of (clean j) t ≡ 0)
      → AreSound ns
      → IsSound (record { nodes = ns; threads = t ∷ f.threads })
  spawn-IsSound t h e v = record {
    states = v;
    endings = λ j l. elim (dec_lt 0 (sum_of (ending j) t)) [
      | yes p ↦ h j p
      | no p ↦ endings_stay j (omega (arith, l, p))
    ];
    cleans = λ j l. cleans_stay j (omega (arith, l, e j));
  }

due_stops :
    (r : Request) (i : ℕ) (n : Node) (ns : Nodes) (j : ℕ)
    → ns i ≡ some n
    → IsDue r n
    → 0 < sum_of (ending j) (asks i r ∷ [])
    → stopping_of (ns j) ≡ true
due_stops (defer fn) i n ns j h d l = absurd (omega (arith, l))
due_stops (stop_within g) i n ns j h d l = absurd (omega (arith, l))
due_stops (stop_idle g) i n ns j h d l = absurd (omega (arith, l))
due_stops (add_error es) i n ns j h d l = absurd (omega (arith, l))
due_stops expire i n ns j h d l =
    let e : i ≡ j = ground (arith, ==_iff i j) in
    subst (λ k. stopping_of (ns k) ≡ true) e (ap stopping_of h ∙ d)

fresh-IsSoundState : (i : ℕ) (g : ℤ) (p : Option ℕ) → IsSoundState (fresh_node i g p).state
unfolding new
fresh-IsSoundState i g p = record { well_formed = new-IsWellFormed i (is_some p); users = refl }

Step-IsSound : {f g : Forest} → Later f.nodes g.nodes → Step f g → IsSound f → IsSound g
Step-IsSound {f} {g} l (acts {now} {a} {rest} {more} act sw) s =
    let m =
      Act-IsSoundMove act (λ j h. s.endings j (omega (arith, h, le-sum_of (sum_of (ending j)) sw)))
        s.states in
    record {
      states = m.states;
      endings = λ j h. elim (weight_moves (ending j) rest more sw h) [
        | inr old ↦ endings_stay l s j old
        | inl fresh ↦ elim (m.endings j fresh) [
          | inr done ↦ done
          | inl from ↦ endings_stay l s j (omega (arith, from, le-sum_of (sum_of (ending j)) sw))
        ]
      ];
      cleans = λ j h. elim (weight_moves (clean j) rest more sw h) [
        | inr old ↦ cleans_stay l s j old
        | inl fresh ↦ elim (m.cleans j fresh) [
          | inr done ↦ done
          | inl from ↦ cleans_stay l s j (omega (arith, from, le-sum_of (sum_of (clean j)) sw))
        ]
      ];
    }
Step-IsSound l (calls {i} h) s =
    spawn-IsSound l s (rises i [] ∷ []) (λ j p. absurd (omega (arith, p))) (λ j. omega arith)
      s.states
Step-IsSound {f} l (requests {i} {r} {n} h d) s =
    spawn-IsSound l s (asks i r ∷ []) (λ j p. due_stops r i n f.nodes j h d p) (λ j. omega arith)
      s.states
Step-IsSound {f} l (creates {i} g h) s =
    spawn-IsSound l s (set_up_node i none) (λ j p. absurd (omega (arith, p))) (λ j. omega arith)
      (put-AreSound i _ f.nodes s.states (fresh-IsSoundState i g none))
Step-IsSound {f} l (derives {i} {p} g h k) s =
    spawn-IsSound l s (set_up_node i (some p)) (λ j p. absurd (omega (arith, p))) (λ j. omega arith)
      (put-AreSound i _ f.nodes s.states (fresh-IsSoundState i g (some p)))
Step-IsSound {f} l (loses_context {i} {n} h) s = record {
  states = node-AreSound i n _ f.nodes h refl s.states;
  endings = endings_stay l s;
  cleans = cleans_stay l s;
}
Step-IsSound {f} l (after {i} {n} h c a) s =
    spawn-IsSound l s (stop i ∷ []) (λ j p. absurd (omega (arith, p))) (λ j. omega arith)
      (node-AreSound i n _ f.nodes h refl s.states)

pub Reach-IsSound : {f : Forest} → Reach f → IsSound f
Reach-IsSound start = record {
  states = λ j n h. cc;
  endings = λ j l. absurd (omega (arith, l));
  cleans = λ j l. absurd (omega (arith, l));
}
Reach-IsSound (next r st) = Step-IsSound (Step-Later r st) st (Reach-IsSound r)

-- A context is not canceled with ErrStopped too early: while a goroutine is about to call its
-- cancel function with ErrStopped, no goroutine runs a task of it or of a context below.
pub clean_cancel_is_last :
    {f : Forest} {i t k : ℕ} {ups : List ℕ} {rest rest' : List Action}
    → Reach f
    → Memᴰ (callback i (cancel_with k stopped) ∷ rest) f.threads
    → Memᴰ (works (t ∷ ups) ∷ rest') f.threads
    → ¬ Within f.nodes i t
clean_cancel_is_last {f} {i} r m m' within =
    let (ts, sw) = mover_of_mem f.threads m in
    let pending : 0 < total (clean i) f.threads =
      ground (arith, le-sum_of (sum_of (clean i)) sw, ==_iff i i) in
    let drained : held i f.threads ≡ 0 =
      pos_zero (sym (Reach-Counted r i) ∙ (Reach-IsSound r).cleans i pending) in
    omega (arith, drained, task_holds_above r m' within)
