-- ===== src/Tree/Counts.antt =====
-- One critical section of Apply under a delta, and the counts of the states of a path
-- (internal/state/state.go).
use go_stopper.Prelude.{◌≡◌, Bool, true, false, not, ◌&&◌, List, [], ◌∷◌, map, arith}
use go_stopper.Prelude.Int.{ℤ, pos, ◌+ℤ◌, negate, ltb_ℤ, eqb_ℤ, neg_part}
use go_stopper.State.{State, result, apply_locked, after_count, settle}

after_count-count : (now : ℤ) (s : State) → (after_count now s).0.count ≡ s.count
unfolding after_count settle
after_count-count now s = ground arith

pub locked_closed :
    (now delta : ℤ) (s : State)
    → s.stopping ≡ true
    → ltb_ℤ (pos 0) delta ≡ true
    → ((apply_locked now delta s).verdict ≡ result false) × ((apply_locked now delta s).after ≡ s)
unfolding apply_locked
locked_closed now delta s t d = ground arith

pub locked_open :
    (now delta : ℤ) (s : State)
    → (s.stopping && ltb_ℤ (pos 0) delta) ≡ false
    → ltb_ℤ (s.count +ℤ delta) (pos 0) ≡ false
    → ((apply_locked now delta s).verdict ≡ result true)
      × ((apply_locked now delta s).after.count ≡ s.count +ℤ delta)
unfolding apply_locked
locked_open now delta s t d =
    ground (arith, after_count-count now (record s { count = s.count +ℤ delta }))

pub add_nonneg :
    (c delta : ℤ) → neg_part c ≡ 0 → ltb_ℤ (pos 0) delta ≡ true → ltb_ℤ (c +ℤ delta) (pos 0) ≡ false
unfolding ◌+ℤ◌
add_nonneg c delta h d = ground arith

pub add_negate : (c delta : ℤ) → c +ℤ delta +ℤ negate delta ≡ c
unfolding ◌+ℤ◌ negate
add_negate c delta = ground arith

pub negate_nonpos :
    (delta : ℤ)
    → ltb_ℤ (pos 0) delta ≡ true
    → (ltb_ℤ (pos 0) (negate delta) ≡ false) × (eqb_ℤ (negate delta) (pos 0) ≡ false)
unfolding negate
negate_nonpos delta d = ground arith

pub not_negative : (c : ℤ) → neg_part c ≡ 0 → ltb_ℤ c (pos 0) ≡ false
not_negative c h = ground arith

pub and_closed : (b : Bool) {c : Bool} → c ≡ false → (b && c) ≡ false
and_closed b h = ground arith

pub and_true : (b c : Bool) → (b && c) ≡ true → (b ≡ true) × (c ≡ true)
and_true b c h = ground arith

abbrev pub counts : List State → List ℤ
counts = map (λ (s : State). s.count)

abbrev pub AllNonneg : List ℤ → Type 0
AllNonneg [] = Unit
AllNonneg (c ∷ cs) = (neg_part c ≡ 0) × AllNonneg cs

-- The counts of the states, each raised by the delta.
abbrev pub Raised : ℤ → List ℤ → List State → Type 0
Raised delta [] [] = Unit
Raised delta [] (s ∷ ss) = ⊥
Raised delta (c ∷ cs) [] = ⊥
Raised delta (c ∷ cs) (s ∷ ss) = (s.count ≡ c +ℤ delta) × Raised delta cs ss

pub not-true : (b : Bool) → not b ≡ true → b ≡ false
not-true b h = ground arith

pub open_not_closed : (b c : Bool) → not b ≡ true → (b && c) ≡ false
open_not_closed b c h = ground arith

pub first_closed : (b c : Bool) → (not b && c) ≡ false → c ≡ true → b ≡ true
first_closed b c h t = ground arith
