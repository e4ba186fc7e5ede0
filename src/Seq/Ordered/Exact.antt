-- ===== src/Seq/Ordered/Exact.antt =====
-- Map without a hard stop (seq/map.go).
use go_stopper.Prelude.{
  ℕ, suc, ◌+◌, ◌≤◌, ◌<◌, ◌≡◌, refl, ap, subst, true, false, List, [], ◌∷◌, ◌++◌, map, some, arith,
  length, get_elem?, drop, take, drop-get_elem?, Option-cases, inl, inr,
}
use go_stopper.Safe.{Outcome, call_re}
use go_stopper.Prelude.Moves.{Swap, All, sum_of, sum_of-Swap, All_moving, length-Swap}
use go_stopper.Seq.Worker.{Worker, looping, checked, enqueuing, calling, sending, ended, crashed}
use go_stopper.Seq.Ordered.{
  Res, System, Consumer, awaiting, leaving, returned, finishing, IsFinished,
}
use go_stopper.Seq.Ordered.Invariant.{Ascending, held, index_of, enqueued, IsRight, expected}

-- The consumer has left the range over the results.
abbrev pub IsPast : Consumer → Type 0
IsPast (leaving b) = Unit
IsPast (returned b) = Unit
IsPast _ = ⊥

-- It left because the channel was closed and empty.
abbrev pub IsComplete : Consumer → Type 0
IsComplete awaiting = Unit
IsComplete (leaving true) = Unit
IsComplete (returned true) = Unit
IsComplete _ = ⊥

abbrev pub crashing : {T S : Type 0} → Worker T S → ℕ
crashing crashed = 1
crashing _ = 0

crashing-le-finishing : {T S : Type 0} (w : Worker T S) → crashing w ≤ finishing w
crashing-le-finishing looping = omega arith
crashing-le-finishing checked = omega arith
crashing-le-finishing (enqueuing c x) = omega arith
crashing-le-finishing (calling c x) = omega arith
crashing-le-finishing (sending c r) = omega arith
crashing-le-finishing (ended e) = omega arith
crashing-le-finishing crashed = omega arith

-- The results of the function at all items, as a loop without goroutines gives them.
abbrev pub outcomes : {T R : Type 0} → R → (ℕ → T → Outcome (Res R)) → ℕ → List T → List (ℕ × Res R)
outcomes z fn n [] = []
outcomes z fn n (x ∷ xs) = (n, call_re z (fn n x)) ∷ outcomes z fn (suc n) xs

length-Ascending : (lo : ℕ) (xs : List ℕ) (hi : ℕ) → Ascending lo xs hi → lo + length xs ≤ hi
length-Ascending lo [] hi a = omega (arith, a)
length-Ascending lo (x ∷ xs) hi (le, a) = omega (arith, le, length-Ascending (suc x) xs hi a)

-- Ascending numbers that leave no room are consecutive, and so are their first ones.
pub dense_prefix :
    (lo : ℕ) (xs ys : List ℕ)
    → Ascending lo (xs ++ ys) (lo + length (xs ++ ys))
    → Ascending lo xs (lo + length xs)
dense_prefix lo [] ys a = omega arith
dense_prefix lo (x ∷ xs) ys (le, a) =
    let tight : x ≡ lo = omega (arith, le, length-Ascending (suc x) (xs ++ ys) _ a) in
    (
      le,
      subst (λ h. Ascending (suc x) xs h) (omega (arith, tight))
          (dense_prefix (suc x) xs ys
            (subst (λ h. Ascending (suc x) (xs ++ ys) h) (omega (arith, tight)) a)),
    )

pub length-map : {S : Type 0} (ys : List (ℕ × S)) → length (map index_of ys) ≡ length ys
length-map [] = refl
length-map (y ∷ ys) = ap suc (length-map ys)

pub length-outcomes :
    {T R : Type 0} (z : R) (fn : ℕ → T → Outcome (Res R)) (n : ℕ) (xs : List T)
    → length (outcomes z fn n xs) ≡ length xs
length-outcomes z fn n [] = refl
length-outcomes z fn n (x ∷ xs) = ap suc (length-outcomes z fn (suc n) xs)

module _ {T R : Type 0} (zero_value : R) (fn : ℕ → T → Outcome (Res R)) (items : List T) where
  pub expected-inv :
      (c : ℕ) (q : Res R)
      → expected zero_value fn items c ≡ some q
      → (x : T) × (get_elem? items c ≡ some x) × (q ≡ call_re zero_value (fn c x))
  expected-inv c q e = elim (Option-cases (get_elem? items c)) [
    | inl missing ↦ absurd (ground (arith, missing, e))
    | inr (x, found) ↦ (x, found, ground (arith, found, e))
  ]

  -- Consecutive results that are right are the first ones of all.
  pub right_prefix :
      (lo : ℕ) (ys : List (ℕ × Res R))
      → Ascending lo (map index_of ys) (lo + length ys)
      → All (IsRight zero_value fn items) ys
      → ys ≡ take (length ys) (outcomes zero_value fn lo (drop lo items))
  right_prefix lo [] a r = refl
  right_prefix lo ((c, q) ∷ ys) (le, a) (right, rights) =
      let tight : c ≡ lo =
        omega (arith, le, length-Ascending (suc c) (map index_of ys) _ a, length-map ys) in
      let (x, found, value) = expected-inv c q right in
      let tail =
        right_prefix (suc lo) ys
          (subst (λ h. Ascending h (map index_of ys) (suc lo + length ys)) (ap suc tight)
            (subst (λ h. Ascending (suc c) (map index_of ys) h) (omega arith) a))
          rights in
      rw (drop-get_elem? lo items (subst (λ k. get_elem? items k ≡ some x) tight found))
        (cc (tail, value, tight))

  pub record IsExact (s : System T R) : Type 0 where
    pub dense :
        s.early_break ≡ false → length (enqueued s) + held s.locked + length s.items ≡ length items
    pub closed_idle : s.closed ≡ true → All IsFinished s.workers
    pub cancel_closed : s.canceled ≡ true → s.closed ≡ true
    pub finish : s.early_break ≡ false → 0 < sum_of finishing s.workers → s.items ≡ []
    pub intact : sum_of crashing s.workers ≡ 0
    pub manned : 0 < length s.workers
    pub broken : s.early_break ≡ true → IsPast s.consumer
    pub consecutive : Ascending 0 (map index_of s.yielded) (length s.yielded)
    pub complete : IsComplete s.consumer → length s.yielded ≡ length items

  -- A worker that moves, and neither ends nor changes what is shared.
  pub moved :
      (s : System T R) (cs : List (ℕ × Res R)) {w w' : Worker T (Res R)}
      {ws : List (Worker T (Res R))}
      → IsExact s
      → Swap w w' s.workers ws
      → finishing w ≡ 0
      → finishing w' ≡ 0
      → IsExact (record s { cells = cs; workers = ws })
  moved s cs {w} {w'} x sw h h' = record {
    dense = x.dense;
    closed_idle = λ c. absurd (omega (arith, h, All_moving IsFinished sw (x.closed_idle c)));
    cancel_closed = x.cancel_closed;
    finish = λ e p. x.finish e (omega (arith, p, h, h', sum_of-Swap finishing sw));
    intact = omega (arith, x.intact, sum_of-Swap crashing sw, crashing-le-finishing w');
    manned = omega (arith, x.manned, length-Swap sw);
    broken = x.broken;
    consecutive = x.consecutive;
    complete = x.complete;
  }
