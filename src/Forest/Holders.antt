-- ===== src/Forest/Holders.antt =====
-- Who holds the count of a context (stopper.go, internal/state/state.go), and how a critical section
-- changes that.
use go_stopper.Prelude.{
  ℕ, suc, ◌+◌, ◌≡◌, refl, sym, ap, ◌∙◌, List, [], ◌∷◌, map, reverse, Option, none, some, arith, inl,
  inr, if◌then◌else◌, ◌==◌, ==_iff, count_if, count_if-reverse,
}
use go_stopper.Prelude.Int.{ℤ, pos, negsuc}
use go_stopper.Prelude.Moves.{sum_of, sum_of-append}
use go_stopper.State.{State, Callback, Hook, cancel_with, user, run_hooks, release_parent}
use go_stopper.State.Trace.{Op, applies, exec}
use go_stopper.Forest.Sections.{KeepsCount, section_up, section_down}
use go_stopper.Forest.{
  Node, Nodes, put, Action, stop, enters, works, leaves, callback, callbacks, lock, rise, enter,
  leave, call_back,
}

abbrev pub count_of : Option Node → ℤ
count_of none = pos 0
count_of (some n) = n.state.count

abbrev pub count_at : Nodes → ℕ → ℤ
count_at ns j = count_of (ns j)

abbrev pub occurs : ℕ → List ℕ → ℕ
occurs j path = count_if (λ k. k == j) path

-- Whether an action has the count of a context, which a later action gives back.
abbrev pub holds : ℕ → Action → ℕ
holds j (enters ups downs) = occurs j ups
holds j (works ups) = occurs j ups
holds j (leaves downs) = occurs j downs
holds j _ = 0

abbrev pub held : ℕ → List (List Action) → ℕ
held j threads = sum_of (sum_of (holds j)) threads

count_at-put :
    (i : ℕ) (n : Node) (ns : Nodes) (j : ℕ)
    → count_at (put i n ns) j ≡ (if i == j then n.state.count else count_at ns j)
count_at-put i n ns j = ground arith

-- A node that is put back with the same count.
pub count_at-put_same :
    (i : ℕ) (n n' : Node) (ns : Nodes) (j : ℕ)
    → ns i ≡ some n
    → n'.state.count ≡ n.state.count
    → count_at (put i n' ns) j ≡ count_at ns j
count_at-put_same i n n' ns j h e = ground arith

callbacks_hold_none : (j i : ℕ) (cbs : List Callback) → sum_of (holds j) (map (callback i) cbs) ≡ 0
callbacks_hold_none j i [] = refl
callbacks_hold_none j i (cb ∷ cbs) = omega (arith, callbacks_hold_none j i cbs)

stops_hold_none :
    (j : ℕ) (hs : List Hook) → sum_of (holds j) (map (λ (h : Hook). stop h.child) hs) ≡ 0
stops_hold_none j [] = refl
stops_hold_none j (h ∷ hs) = omega (arith, stops_hold_none j hs)

pub call_back-holds_none : (j i : ℕ) (cb : Callback) → sum_of (holds j) (call_back i cb) ≡ 0
call_back-holds_none j i (user fn) = refl
call_back-holds_none j i (cancel_with k err) = omega arith
call_back-holds_none j i (run_hooks hs) = stops_hold_none j hs
call_back-holds_none j i (release_parent d) = refl

pub rise-holds_none :
    (j : ℕ) (n : Node) (i : ℕ) (downs : List ℕ) → sum_of (holds j) (rise n i downs) ≡ 0
unfolding rise
rise-holds_none j n i downs = ground arith

-- The count of every context is held by an action, or by the rest.
abbrev pub Counted : Nodes → (ℕ → ℕ) → Type 0
Counted ns h = (j : ℕ) → count_at ns j ≡ pos (h j)

module _ (now : ℤ) (i : ℕ) (n : Node) (ns : Nodes) (found : ns i ≡ some n) (rest : ℕ → ℕ) where
  pub lock-Counted :
      (op : Op)
      → KeepsCount op
      → Counted ns rest
      → Counted (lock now op i n ns).0 (λ j. sum_of (holds j) (lock now op i n ns).1 + rest j)
  lock-Counted op keeps v j =
      let sec = exec now op n.state in
      count_at-put_same i n (record n { state = sec.after }) ns j found (keeps now n.state)
      ∙ v j
      ∙ ap pos (omega (arith, callbacks_hold_none j i (reverse sec.deferred)))

  pub put-Counted : (n' : Node) → n'.state ≡ n.state → Counted ns rest → Counted (put i n' ns) rest
  put-Counted n' e v j = count_at-put_same i n n' ns j found (ap (λ (s : State). s.count) e) ∙ v j

  -- A section that leaves `c` counts to this context, where all others stay as they are.
  section-Counted :
      (n' : Node) (c : ℕ) (h : ℕ → ℕ)
      → n'.state.count ≡ pos c
      → Counted ns h
      → (j : ℕ) → count_at (put i n' ns) j ≡ pos (if i == j then c else h j)
  section-Counted n' c h e v j = ground (arith, count_at-put i n' ns j, v j)

  pub enter-Counted :
      (ups downs : List ℕ)
      → Counted ns (λ j. occurs j ups + rest j)
      → Counted
          (enter now n i ups downs ns).0
          (λ j. sum_of (holds j) (enter now n i ups downs ns).1 + rest j)
  unfolding enter
  enter-Counted ups downs v j =
      let sec = exec now (applies (pos 1)) n.state in
      let c : n.state.count ≡ pos (occurs i ups + rest i) = ap count_of (sym found) ∙ v i in
      elim (section_up now n.state (occurs i ups + rest i) c) [
        | inl (e, k) ↦ rw e (
            section-Counted (record n { state = sec.after }) (suc (occurs i ups + rest i))
              (λ l. occurs l ups + rest l) k v j
            ∙ ap pos (
                ground (
                  arith,
                  sum_of-append (holds j) (callbacks i sec) (enters (i ∷ ups) downs ∷ []),
                  callbacks_hold_none j i (reverse sec.deferred),
                  ==_iff i j,
                )))
        | inr (e, k) ↦ rw e (
            section-Counted (record n { state = sec.after }) (occurs i ups + rest i)
              (λ l. occurs l ups + rest l) k v j
            ∙ ap pos (ground (arith, count_if-reverse (λ l. l == j) ups)))
      ]

  pub leave-Counted :
      (downs : List ℕ)
      → Counted ns (λ j. occurs j (i ∷ downs) + rest j)
      → Counted
          (leave now n i downs ns).0
          (λ j. sum_of (holds j) (leave now n i downs ns).1 + rest j)
  unfolding leave
  leave-Counted downs v j =
      let sec = exec now (applies (negsuc 0)) n.state in
      let c : n.state.count ≡ pos (suc (occurs i downs + rest i)) =
        ap count_of (sym found) ∙ v i ∙ ap pos (ground arith) in
      let (e, k) = section_down now n.state (occurs i downs + rest i) c in
      rw e (
        section-Counted (record n { state = sec.after }) (occurs i downs + rest i)
          (λ l. occurs l (i ∷ downs) + rest l) k v j
        ∙ ap pos (
            ground (
              arith,
              sum_of-append (holds j) (callbacks i sec) (leaves downs ∷ []),
              callbacks_hold_none j i (reverse sec.deferred),
              ==_iff i j,
            )))
