-- ===== src/Tree/Apply.antt =====
-- Apply along a path of states is all or nothing (internal/state/state.go).
use go_stopper.Prelude.{
  ℕ, zero, suc, ◌<◌, ◌≡◌, refl, sym, subst, ◌∙◌, ap, Bool, true, false, not, ◌&&◌, List, [], ◌∷◌,
  map, arith, if◌then◌else◌, Bool-cases, inl, inr, length,
}
use go_stopper.Prelude.Int.{ℤ, pos, ◌+ℤ◌, negate, ltb_ℤ}
use go_stopper.State.{State, result, apply_refused, apply_locked}
use go_stopper.State.Trace.{run}
use go_stopper.State.Drain.{stopping_is_final}
use go_stopper.Tree.{Level, met, quiet, apply_after, apply_path}
use go_stopper.Tree.Counts.{
  locked_closed, locked_open, add_nonneg, add_negate, negate_nonpos, not_negative, and_closed,
  and_true, not-true, open_not_closed, first_closed, counts, AllNonneg, Raised,
}

-- A level that the fast check lets pass, by the answers of its parent and of its own section.
apply_path-accepted :
    (n : ℕ) (now delta : ℤ) (l : Level) (up : List Level)
    → apply_refused delta l.state ≡ false
    → (apply_path n now delta up).verdict ≡ result true
    → (apply_locked now delta (met l)).verdict ≡ result true
    → ((apply_path (suc n) now delta (l ∷ up)).verdict ≡ result true)
      × ((apply_path (suc n) now delta (l ∷ up)).states
          ≡ (apply_locked now delta (met l)).after ∷ (apply_path n now delta up).states)
unfolding apply_path apply_after
apply_path-accepted n now delta l up r p q = rw (r, p, q) (refl, refl)

apply_path-undone :
    (n : ℕ) (now delta : ℤ) (l : Level) (up : List Level)
    → apply_refused delta l.state ≡ false
    → (apply_path n now delta up).verdict ≡ result true
    → (apply_locked now delta (met l)).verdict ≡ result false
    → ((apply_path (suc n) now delta (l ∷ up)).verdict ≡ result false)
      × ((apply_path (suc n) now delta (l ∷ up)).states
          ≡ (apply_locked now delta (met l)).after
            ∷ (apply_path n now
                (negate delta)
                (map quiet (apply_path n now delta up).states)).states)
unfolding apply_path apply_after
apply_path-undone n now delta l up r p q = rw (r, p, q) (refl, refl)

apply_path-declined :
    (n : ℕ) (now delta : ℤ) (l : Level) (up : List Level)
    → apply_refused delta l.state ≡ false
    → (apply_path n now delta up).verdict ≡ result false
    → ((apply_path (suc n) now delta (l ∷ up)).verdict ≡ result false)
      × ((apply_path (suc n) now delta (l ∷ up)).states
          ≡ met l ∷ (apply_path n now delta up).states)
unfolding apply_path apply_after
apply_path-declined n now delta l up r p = rw (r, p) (refl, refl)

apply_path-refused :
    (n : ℕ) (now delta : ℤ) (l : Level) (up : List Level)
    → apply_refused delta l.state ≡ true
    → apply_path (suc n) now delta (l ∷ up)
      ≡ record { states = map met (l ∷ up); verdict = result false; called = [] }
unfolding apply_path
apply_path-refused n now delta l up r = rw r refl

apply_refused-release :
    (delta : ℤ) (s : State) → ltb_ℤ (pos 0) delta ≡ true → apply_refused (negate delta) s ≡ false
unfolding apply_refused negate
apply_refused-release delta s d = ground arith

fast_pass :
    (delta : ℤ) (l : Level)
    → ltb_ℤ (pos 0) delta ≡ true
    → l.state.stopping ≡ false
    → apply_refused delta l.state ≡ false
unfolding apply_refused
fast_pass delta l d f = ground arith

fast_refusal :
    (delta : ℤ) (l : Level)
    → ltb_ℤ (pos 0) delta ≡ true
    → l.state.stopping ≡ true
    → apply_refused delta l.state ≡ true
unfolding apply_refused
fast_refusal delta l d t = ground arith

-- A state that is open at its lock was open at the fast check.
fast_check :
    (delta : ℤ) (l : Level)
    → ltb_ℤ (pos 0) delta ≡ true
    → (met l).stopping ≡ false
    → apply_refused delta l.state ≡ false
fast_check delta l d f = elim (Bool-cases l.state.stopping) [
  | inr open_before ↦ fast_pass delta l d open_before
  | inl t ↦ ground (arith, f, (stopping_is_final l.state l.gap t).0)
]

-- An unwinding gives back to every ancestor what it was given.
release_path :
    (n : ℕ) (now delta : ℤ) (cs : List ℤ) (ss : List State)
    → length ss < n
    → ltb_ℤ (pos 0) delta ≡ true
    → AllNonneg cs
    → Raised delta cs ss
    → ((apply_path n now (negate delta) (map quiet ss)).verdict ≡ result true)
      × (counts (apply_path n now (negate delta) (map quiet ss)).states ≡ cs)
unfolding apply_path run
release_path zero now delta cs ss h d a r = ground arith
release_path (suc n) now delta [] [] h d a r = (refl, refl)
release_path (suc n) now delta [] (s ∷ ss) h d a r = elim r [ ]
release_path (suc n) now delta (c ∷ cs) [] h d a r = elim r [ ]
release_path (suc n) now delta (c ∷ cs) (s ∷ ss) h d (a, nonneg) (r, rs) =
    let (given, restored) = release_path n now delta cs ss (omega (arith, h)) d nonneg rs in
    let back = ap (λ x. x +ℤ negate delta) r ∙ add_negate c delta in
    let (refuses, nonzero) = negate_nonpos delta d in
    let (done, counted) =
      locked_open now (negate delta) s (and_closed s.stopping refuses)
        (ap (λ x. ltb_ℤ x (pos 0)) back ∙ not_negative c a) in
    let (v, states) =
      apply_path-accepted n now (negate delta) (quiet s) (map quiet ss)
        (apply_refused-release delta s d) given done in
    (v, ap counts states ∙ rw (counted ∙ back, restored) refl)

Raised-length :
    (delta : ℤ) (ls : List Level) (ss : List State)
    → Raised delta (counts (map met ls)) ss
    → length ss ≡ length ls
Raised-length delta [] [] r = refl
Raised-length delta [] (s ∷ ss) r = elim r [ ]
Raised-length delta (l ∷ ls) [] r = elim r [ ]
Raised-length delta (l ∷ ls) (s ∷ ss) (r, rs) = ap suc (Raised-length delta ls ss rs)

counts-Raised :
    (delta : ℤ) (cs : List ℤ) (ss : List State)
    → Raised delta cs ss
    → counts ss ≡ map (λ c. c +ℤ delta) cs
counts-Raised delta [] [] r = refl
counts-Raised delta [] (s ∷ ss) r = elim r [ ]
counts-Raised delta (c ∷ cs) [] r = elim r [ ]
counts-Raised delta (c ∷ cs) (s ∷ ss) (r, rs) = rw (r, counts-Raised delta cs ss rs) refl

-- No level of the path has begun to stop when its lock is taken.
unfoldable pub all_open : List Level → Bool
all_open [] = true
all_open (l ∷ up) = not (met l).stopping && all_open up

-- A path whose levels are all open takes the delta at each of them.
raise_path :
    (n : ℕ) (now delta : ℤ) (ls : List Level)
    → length ls < n
    → ltb_ℤ (pos 0) delta ≡ true
    → AllNonneg (counts (map met ls))
    → all_open ls ≡ true
    → ((apply_path n now delta ls).verdict ≡ result true)
      × Raised delta (counts (map met ls)) (apply_path n now delta ls).states
unfolding apply_path all_open
raise_path zero now delta ls h d a o = ground arith
raise_path (suc n) now delta [] h d a o = (refl, tt)
raise_path (suc n) now delta (l ∷ up) h d (a, nonneg) o =
    let (first, rest) = and_true (not (met l).stopping) (all_open up) o in
    let (given, raised) = raise_path n now delta up (omega (arith, h)) d nonneg rest in
    let (done, counted) =
      locked_open now delta (met l) (open_not_closed (met l).stopping _ first)
        (add_nonneg (met l).count delta a d) in
    let (v, states) =
      apply_path-accepted n now delta l up (fast_check delta l d (not-true (met l).stopping first))
        given done in
    (v, subst (Raised delta (counts (map met (l ∷ up)))) (sym states) (counted, raised))

-- A path with a level that has begun to stop keeps every count.
unwind_path :
    (n : ℕ) (now delta : ℤ) (ls : List Level)
    → length ls < n
    → ltb_ℤ (pos 0) delta ≡ true
    → AllNonneg (counts (map met ls))
    → all_open ls ≡ false
    → ((apply_path n now delta ls).verdict ≡ result false)
      × (counts (apply_path n now delta ls).states ≡ counts (map met ls))
unfolding apply_path all_open
unwind_path zero now delta ls h d a o = ground arith
unwind_path (suc n) now delta [] h d a o = ground arith
unwind_path (suc n) now delta (l ∷ up) h d (a, nonneg) o = elim (Bool-cases l.state.stopping) [
  | inl t ↦ rw (apply_path-refused n now delta l up (fast_refusal delta l d t)) (refl, refl)
  | inr f ↦ elim (Bool-cases (all_open up)) [
    | inl opens ↦
        let (given, raised) = raise_path n now delta up (omega (arith, h)) d nonneg opens in
        let t = first_closed (met l).stopping (all_open up) o opens in
        let (declines, same) = locked_closed now delta (met l) t d in
        let (v, states) =
          apply_path-undone n now delta l up (fast_pass delta l d f) given declines in
        let (gone, restored) =
          release_path n now delta (counts (map met up)) (apply_path n now delta up).states
            (omega (arith, h, Raised-length delta up (apply_path n now delta up).states raised)) d
            nonneg raised in
        (v, ap counts states ∙ rw (same, restored) refl)
    | inr closes ↦
        let (declines, kept) = unwind_path n now delta up (omega (arith, h)) d nonneg closes in
        let (v, states) = apply_path-declined n now delta l up (fast_pass delta l d f) declines in
        (v, ap counts states ∙ rw kept refl)
  ]
]

-- A positive Apply, with fuel beyond the length of a path of states with no negative count, ends
-- with true exactly if no state of the path is stopping at its lock, whatever other goroutines do
-- to each state between its fast check and its lock. Then every count of the path is the one at the
-- lock plus the delta; otherwise every count is the one at the lock, those raised being unwound.
pub apply_all_or_nothing :
    (n : ℕ) (now delta : ℤ) (ls : List Level)
    → length ls < n
    → ltb_ℤ (pos 0) delta ≡ true
    → AllNonneg (counts (map met ls))
    → ((apply_path n now delta ls).verdict ≡ result (all_open ls))
      × (counts (apply_path n now delta ls).states ≡ (
          if all_open ls then map (λ c. c +ℤ delta) (counts (map met ls)) else counts (map met ls)))
apply_all_or_nothing n now delta ls h d a = elim (Bool-cases (all_open ls)) [
  | inl o ↦
      let (v, raised) = raise_path n now delta ls h d a o in
      rw o (v, counts-Raised delta (counts (map met ls)) (apply_path n now delta ls).states raised)
  | inr o ↦ rw o (unwind_path n now delta ls h d a o)
]
