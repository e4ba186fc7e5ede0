-- ===== src/Seq/Ordered/Invariant.antt =====
-- What holds in every state of Map (seq/map.go), hard stops included.
use go_stopper.Prelude.{
  ℕ, zero, suc, ◌+◌, ◌-◌, ◌≤◌, ◌≡◌, refl, sym, ◌∙◌, ap, subst, Bool, true, false, List, [], ◌∷◌,
  ◌++◌, map, Option, none, some, arith, length, get_elem?, drop, drop-nil, drop-cons, append_assoc,
  if◌then◌else◌, ◌==◌, Bool-cases, inl, inr,
}
use mathlib.Core.List.{map-append}
use go_stopper.Errors.{Error}
use go_stopper.Safe.{Outcome, call_re}
use go_stopper.Prelude.Moves.{Swap, All, sum_of, sum_of-Swap, All_moving, All-Swap}
use go_stopper.Seq.Worker.{Worker, looping, checked, enqueuing, calling, sending, ended, crashed}
use go_stopper.Seq.Ordered.{
  Res, System, Consumer, receiving, waiting, awaiting, refused, leaving, returned, cell, start_map,
  repeat, Work, Reach, check, exit, pull, pull_end, enqueue, crash, skip_broken, skip_canceled,
  call_fn, send, receive, yield_more, yield_last, break_early, drained, waited, leave, idle_close,
  idle_cancel, cancel, expire, start, works, halts,
}

-- Strictly ascending numbers from `lo` on, below `hi`.
abbrev pub Ascending : ℕ → List ℕ → ℕ → Type 0
Ascending lo [] hi = lo ≤ hi
Ascending lo (x ∷ xs) hi = (lo ≤ x) × Ascending (suc x) xs hi

Ascending-weaken :
    (lo : ℕ) (xs : List ℕ) (hi hi' : ℕ) → hi ≤ hi' → Ascending lo xs hi → Ascending lo xs hi'
Ascending-weaken lo [] hi hi' h a = omega (arith, h, a)
Ascending-weaken lo (x ∷ xs) hi hi' h (le, a) = (le, Ascending-weaken (suc x) xs hi hi' h a)

Ascending-snoc :
    (lo : ℕ) (xs : List ℕ) (hi : ℕ) → Ascending lo xs hi → Ascending lo (xs ++ hi ∷ []) (suc hi)
Ascending-snoc lo [] hi a = (a, omega arith)
Ascending-snoc lo (x ∷ xs) hi (le, a) = (le, Ascending-snoc (suc x) xs hi a)

abbrev pub held : Bool → ℕ
held b = if b then 1 else 0

-- A worker that has locked nextMu and not unlocked it.
abbrev pub holding : {T S : Type 0} → Worker T S → ℕ
holding (enqueuing c x) = 1
holding crashed = 1
holding _ = 0

-- The return channel that the consumer has taken and not read.
abbrev pub pending : Consumer → List ℕ
pending (waiting c) = c ∷ []
pending _ = []

abbrev pub index_of : {S : Type 0} → ℕ × S → ℕ
index_of (c, r) = c

-- The return channels that were ever enqueued, in order.
abbrev pub enqueued : {T R : Type 0} → System T R → List ℕ
enqueued s = map index_of s.yielded ++ (pending s.consumer ++ s.results)

Ascending-le : (lo : ℕ) (xs : List ℕ) (hi : ℕ) → Ascending lo xs hi → lo ≤ hi
Ascending-le lo [] hi a = a
Ascending-le lo (x ∷ xs) hi (le, a) = omega (arith, le, Ascending-le (suc x) xs hi a)

pub enqueued_snoc :
    {T R : Type 0} (s : System T R) (c : ℕ)
    → enqueued s ++ c ∷ [] ≡ map index_of s.yielded ++ (pending s.consumer ++ (s.results ++ c ∷ []))
enqueued_snoc s c =
    append_assoc (map index_of s.yielded) (pending s.consumer ++ s.results) (c ∷ [])
    ∙ ap (λ l. map index_of s.yielded ++ l) (append_assoc (pending s.consumer) s.results (c ∷ []))

-- What is yielded moves from the pending channel to the end of the yielded ones.
pub enqueued_yield :
    {T R : Type 0} (s : System T R) (c : ℕ) (r : Res R)
    → s.consumer ≡ waiting c
    → map index_of (s.yielded ++ (c, r) ∷ []) ++ s.results ≡ enqueued s
enqueued_yield s c r e =
    rw (e, map-append index_of s.yielded ((c, r) ∷ []))
      (append_assoc (map index_of s.yielded) (c ∷ []) s.results)

module _ {T R : Type 0} (zero_value : R) (fn : ℕ → T → Outcome (Res R)) (items : List T) where
  -- The result that belongs to an index.
  abbrev pub expected : ℕ → Option (Res R)
  expected c = elim (get_elem? items c) [
    | none ↦ none
    | some x ↦ some (call_re zero_value (fn c x))
  ]

  abbrev pub IsRight : ℕ × Res R → Type 0
  IsRight (c, r) = expected c ≡ some r

  pub expected-found :
      (c : ℕ) {x : T} → get_elem? items c ≡ some x → expected c ≡ some (call_re zero_value (fn c x))
  expected-found c e = ground (arith, e)

  -- What a worker holds, where `left` items are not pulled.
  abbrev pub IsGood : ℕ → Worker T (Res R) → Type 0
  IsGood left (enqueuing c x) = (suc c + left ≡ length items) × (get_elem? items c ≡ some x)
  IsGood left (calling c x) = get_elem? items c ≡ some x
  IsGood left (sending c r) = expected c ≡ some r
  IsGood left _ = Unit

  pub record Inv (s : System T R) : Type 0 where
    pub counted : sum_of holding s.workers ≡ held s.locked
    pub good : All (IsGood (length s.items)) s.workers
    pub rest : s.items ≡ drop s.idx items
    pub within : length s.items + held s.locked ≤ length items
    pub order : Ascending 0 (enqueued s) (length items - (length s.items + held s.locked))
    pub filled : All IsRight s.cells
    pub right : All IsRight s.yielded

  -- With nobody under nextMu, an item may be pulled.
  unlocked-IsGood :
      (left left' : ℕ) (ws : List (Worker T (Res R)))
      → sum_of holding ws ≡ 0
      → All (IsGood left) ws
      → All (IsGood left') ws
  unlocked-IsGood left left' [] h g = tt
  unlocked-IsGood left left' (looping ∷ ws) h (p, g) =
      (tt, unlocked-IsGood left left' ws (omega (arith, h)) g)
  unlocked-IsGood left left' (checked ∷ ws) h (p, g) =
      (tt, unlocked-IsGood left left' ws (omega (arith, h)) g)
  unlocked-IsGood left left' (enqueuing c x ∷ ws) h (p, g) = absurd (omega (arith, h))
  unlocked-IsGood left left' (calling c x ∷ ws) h (p, g) =
      (p, unlocked-IsGood left left' ws (omega (arith, h)) g)
  unlocked-IsGood left left' (sending c x ∷ ws) h (p, g) =
      (p, unlocked-IsGood left left' ws (omega (arith, h)) g)
  unlocked-IsGood left left' (ended e ∷ ws) h (p, g) =
      (tt, unlocked-IsGood left left' ws (omega (arith, h)) g)
  unlocked-IsGood left left' (crashed ∷ ws) h (p, g) = absurd (omega (arith, h))

  pub cell-IsRight :
      (c : ℕ) (r : Res R) (cs : List (ℕ × Res R))
      → All IsRight cs
      → cell c cs ≡ some r
      → IsRight (c, r)
  cell-IsRight c r [] a h = cc
  cell-IsRight c r ((k, q) ∷ cs) (p, a) h = elim (Bool-cases (k == c)) [
    | inl e ↦ ground (arith, p, h, e)
    | inr e ↦ cell-IsRight c r cs a (rw e at h)
  ]

  All_snoc :
      (y : ℕ × Res R) (ys : List (ℕ × Res R))
      → All IsRight ys
      → IsRight y
      → All IsRight (ys ++ y ∷ [])
  All_snoc y [] a p = (p, tt)
  All_snoc y (x ∷ xs) (q, a) p = (q, All_snoc y xs a p)

  -- A worker that moves and neither locks nor unlocks.
  moved :
      (s : System T R) {w w' : Worker T (Res R)} {ws : List (Worker T (Res R))}
      → Inv s
      → Swap w w' s.workers ws
      → holding w' ≡ holding w
      → IsGood (length s.items) w'
      → Inv (record s { workers = ws })
  moved s v sw h g = record {
    counted = omega (arith, v.counted, sum_of-Swap holding sw, h);
    good = All-Swap (IsGood (length s.items)) sw g v.good;
    rest = v.rest;
    within = v.within;
    order = v.order;
    filled = v.filled;
    right = v.right;
  }

  -- A worker that unlocks and leaves its item.
  skipped :
      (s : System T R) {c : ℕ} {x : T} {w' : Worker T (Res R)} {ws : List (Worker T (Res R))}
      → Inv s
      → Swap (enqueuing c x) w' s.workers ws
      → holding w' ≡ 0
      → IsGood (length s.items) w'
      → Inv (record s { locked = false; workers = ws })
  skipped s v sw h g = record {
    counted = ground (arith, v.counted, sum_of-Swap holding sw, h);
    good = All-Swap (IsGood (length s.items)) sw g v.good;
    rest = v.rest;
    within = omega (arith, v.within);
    order = Ascending-weaken 0 (enqueued s) _ _ (omega arith) v.order;
    filled = v.filled;
    right = v.right;
  }

  pulled :
      (s : System T R) {x : T} {xs : List T} {ws : List (Worker T (Res R))}
      → Inv s
      → s.locked ≡ false
      → s.items ≡ x ∷ xs
      → Swap checked (enqueuing s.idx x) s.workers ws
      → Inv (record s { items = xs; idx = suc s.idx; locked = true; workers = ws })
  pulled s {x} {xs} v l e sw =
      let (found, rest, len) = drop-cons s.idx items (sym v.rest ∙ e) in
      let free = v.counted ∙ ap held l in
      record {
        counted = omega (arith, free, sum_of-Swap holding sw);
        good =
            All-Swap (IsGood (length xs)) sw (omega (arith, len), found)
              (unlocked-IsGood (length s.items) (length xs) s.workers free v.good);
        rest = sym rest;
        within = omega (arith, len);
        order = Ascending-weaken 0 (enqueued s) _ _ (omega (arith, ap length e, ap held l)) v.order;
        filled = v.filled;
        right = v.right;
      }

  enqueued_next :
      (s : System T R) {c : ℕ} {x : T} {ws : List (Worker T (Res R))}
      → Inv s
      → Swap (enqueuing c x) (calling c x) s.workers ws
      → Inv (record s { locked = false; results = s.results ++ c ∷ []; workers = ws })
  enqueued_next s {c} {x} v sw =
      let (at, found) = All_moving (IsGood (length s.items)) sw v.good in
      let taken : held s.locked ≡ 1 = ground (arith, v.counted, sum_of-Swap holding sw) in
      record {
        counted = omega (arith, v.counted, sum_of-Swap holding sw, taken);
        good = All-Swap (IsGood (length s.items)) sw found v.good;
        rest = v.rest;
        within = omega (arith, v.within);
        order =
            subst (λ l. Ascending 0 l (length items - (length s.items + 0))) (enqueued_snoc s c)
              (Ascending-weaken 0 (enqueued s ++ c ∷ []) (suc c) _ (omega (arith, at)) (
                Ascending-snoc 0 (enqueued s) c
                  (Ascending-weaken 0 (enqueued s) _ _ (omega (arith, at, taken)) v.order)));
        filled = v.filled;
        right = v.right;
      }

  -- The consumer moves on, and the sequence of return channels stays the same.
  consumed :
      (s : System T R) (cs : List ℕ) (k : Consumer) (ys : List (ℕ × Res R)) (err : Option Error)
      (b : Bool)
      → Inv s
      → map index_of ys ++ (pending k ++ cs) ≡ enqueued s
      → All IsRight ys
      → Inv (record s { results = cs; consumer = k; yielded = ys; extra = err; early_break = b })
  consumed s cs k ys err b v e r = record {
    counted = v.counted;
    good = v.good;
    rest = v.rest;
    within = v.within;
    order =
        subst (λ l. Ascending 0 l (length items - (length s.items + held s.locked))) (sym e)
          v.order;
    filled = v.filled;
    right = r;
  }

  flagged : (s : System T R) (c d : Bool) → Inv s → Inv (record s { closed = c; canceled = d })
  flagged s c d v = record {
    counted = v.counted;
    good = v.good;
    rest = v.rest;
    within = v.within;
    order = v.order;
    filled = v.filled;
    right = v.right;
  }

  pub Work-Inv :
      (num_workers : ℕ) {s t : System T R} → Inv s → Work zero_value fn num_workers s t → Inv t
  Work-Inv n {s} v (check c sw) = moved s v sw refl tt
  Work-Inv n {s} v (exit c sw) = moved s v sw refl tt
  Work-Inv n {s} v (pull l e sw) = pulled s v l e sw
  Work-Inv n {s} v (pull_end l e sw) =
      let m = moved s v sw refl tt in
      record {
        counted = m.counted;
        good = m.good;
        rest = e ∙ sym (drop-nil s.idx items (sym v.rest ∙ e));
        within = v.within;
        order = v.order;
        filled = v.filled;
        right = v.right;
      }
  Work-Inv n {s} v (enqueue c l sw) = enqueued_next s v sw
  Work-Inv n {s} v (crash c sw) = moved s v sw refl tt
  Work-Inv n {s} v (skip_broken b sw) = skipped s v sw refl tt
  Work-Inv n {s} v (skip_canceled b sw) = skipped s v sw refl tt
  Work-Inv n {s} v (call_fn {c} {x} sw) =
      moved s v sw refl (expected-found c (All_moving (IsGood (length s.items)) sw v.good))
  Work-Inv n {s} v (send sw) =
      let m = moved s v sw refl tt in
      record {
        counted = m.counted;
        good = m.good;
        rest = v.rest;
        within = v.within;
        order = v.order;
        filled = (All_moving (IsGood (length s.items)) sw v.good, v.filled);
        right = v.right;
      }
  Work-Inv n {s} v (receive {c} {cs} k e) =
      consumed s cs (waiting c) s.yielded s.extra s.early_break v (rw (k, e) refl) v.right
  Work-Inv n {s} v (yield_more {c} {r} k e) =
      consumed s s.results receiving (s.yielded ++ (c, r) ∷ []) s.extra s.early_break v
        (enqueued_yield s c r k)
        (All_snoc (c, r) s.yielded v.right (cell-IsRight c r s.cells v.filled e))
  Work-Inv n {s} v (yield_last {c} {r} k e) =
      consumed s s.results refused (s.yielded ++ (c, r) ∷ []) s.extra s.early_break v
        (enqueued_yield s c r k)
        (All_snoc (c, r) s.yielded v.right (cell-IsRight c r s.cells v.filled e))
  Work-Inv n {s} v (break_early k) =
      consumed s s.results (leaving false) s.yielded s.extra true v (rw k refl) v.right
  Work-Inv n {s} v (drained k r c) =
      consumed s s.results awaiting s.yielded s.extra s.early_break v (rw k refl) v.right
  Work-Inv n {s} v (waited err k c) =
      consumed s s.results (leaving true) s.yielded err s.early_break v (rw k refl) v.right
  Work-Inv n {s} v (leave {b} k l) =
      consumed s s.results (returned b) s.yielded s.extra s.early_break v (rw k refl) v.right
  Work-Inv n {s} v (idle_close f c) = flagged s true s.canceled v
  Work-Inv n {s} v (idle_cancel f c d) = flagged s s.closed true v

  repeat-looping :
      (n : ℕ)
      → (sum_of (holding {T = T} {S = Res R}) (repeat n looping) ≡ 0)
        × All (IsGood (length items)) (repeat n looping)
  repeat-looping zero = (refl, tt)
  repeat-looping (suc n) = let (z, a) = repeat-looping n in (omega (arith, z), (tt, a))

  pub start-Inv : (n : ℕ) → Inv (start_map n items)
  start-Inv n = record {
    counted = (repeat-looping n).0;
    good = (repeat-looping n).1;
    rest = refl;
    within = omega arith;
    order = omega arith;
    filled = tt;
    right = tt;
  }

  pub Reach-Inv :
      (num_workers : ℕ) {s t : System T R} → Inv s → Reach zero_value fn num_workers s t → Inv t
  Reach-Inv n v start = v
  Reach-Inv n v (works r st) = Work-Inv n (Reach-Inv n v r) st
  Reach-Inv n v (halts {t} r cancel) = flagged t t.closed true (Reach-Inv n v r)
  Reach-Inv n v (halts {t} r (expire c)) = flagged t true t.canceled (Reach-Inv n v r)

  pub Ascending-prefix :
      (lo : ℕ) (xs ys : List ℕ) (hi : ℕ) → Ascending lo (xs ++ ys) hi → Ascending lo xs hi
  Ascending-prefix lo [] ys hi a = Ascending-le lo ys hi a
  Ascending-prefix lo (x ∷ xs) ys hi (le, a) = (le, Ascending-prefix (suc x) xs ys hi a)

  -- Hard stops included, Map yields its results in the strict order of their items, and each is
  -- what CallRE gives for the function at that item.
  pub yields_in_order :
      (n num_workers : ℕ) {s : System T R}
      → Reach zero_value fn num_workers (start_map n items) s
      → Ascending 0 (map index_of s.yielded) (length items) × All IsRight s.yielded
  yields_in_order n num_workers {s} r =
      let v = Reach-Inv num_workers (start-Inv n) r in
      (
        Ascending-prefix 0 (map index_of s.yielded) (pending s.consumer ++ s.results) (length items)
            (Ascending-weaken 0 (enqueued s) _ _ (omega arith) v.order),
        v.right,
      )
