-- ===== src/Forest/Quiet.antt =====
-- A stopped family whose tasks are over (stopper.go, internal/state/state.go).
use go_stopper.Prelude.{ℕ, ◌≡◌, sym, ap, ◌∙◌, true, none, some, arith, inl, inr, Option-cases}
use go_stopper.Prelude.Int.{pos}
use go_stopper.Forest.{Node, Forest, Reach}
use go_stopper.Forest.Holders.{held}
use go_stopper.Forest.Balance.{count_is_held}
use go_stopper.Forest.Later.{stopping_of}
use go_stopper.Forest.Lines.{Within}
use go_stopper.Forest.Sound.{total}
use go_stopper.Forest.Cancels.{Reach-IsSound}
use go_stopper.Forest.Ties.{stopper_of}
use go_stopper.Forest.Spread.{stop_reaches_below}

-- When no goroutine is about to stop a context or to set a hook, each context below one that has
-- begun to stop, itself included, has given its cancel function away if no goroutine holds its count
-- any more.
pub drained_is_closed :
    {f : Forest} {i t : ℕ} {n : Node}
    → Reach f
    → ((c : ℕ) → total (stopper_of c) f.threads ≡ 0)
    → Within f.nodes i t
    → stopping_of (f.nodes i) ≡ true
    → f.nodes t ≡ some n
    → held t f.threads ≡ 0
    → n.state.cancel ≡ none
drained_is_closed {f} {i} {t} {n} r calm within h e idle =
    let drained : n.state.count ≡ pos 0 = count_is_held r e ∙ ap pos idle in
    let stops : n.state.stopping ≡ true =
      ap stopping_of (sym e) ∙ stop_reaches_below r calm within h in
    elim (Option-cases n.state.cancel) [
      | inl gone ↦ gone
      | inr (k, live) ↦
          let busy = ((Reach-IsSound r).states t n e).well_formed.draining_busy stops in
          ground (arith, busy, drained, live)
    ]
