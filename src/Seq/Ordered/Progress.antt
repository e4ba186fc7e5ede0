-- ===== src/Seq/Ordered/Progress.antt =====
-- Map ends without a hard stop (seq/map.go).
use go_stopper.Prelude.{
  ℕ, ◌+◌, ◌*◌, ◌⊎◌, ◌≤◌, ◌<◌, ◌≡◌, refl, sym, ap, subst, true, false, List, [], ◌∷◌, ◌++◌, none,
  some, arith, length, ◌==◌, Bool-cases, inl, inr,
}
use native.Mathlib.Decide.{dec_lt}
use go_stopper.Safe.{Outcome, call_re}
use go_stopper.Prelude.Moves.{Swap, here, there, All, find_mover, sum_of-Swap}
use go_stopper.Seq.Worker.{Worker, looping, checked, enqueuing, calling, sending, ended, crashed}
use go_stopper.Seq.Ordered.{
  Res, System, Consumer, receiving, waiting, awaiting, refused, leaving, returned, cell, start_map,
  finishing, IsFinished, Work, Runs, begin, work, check, pull, pull_end, enqueue, skip_broken,
  call_fn, send, receive, yield_more, break_early, drained, waited, leave, idle_close, idle_cancel,
}
use go_stopper.Seq.Ordered.Invariant.{held, holding, pending, Inv, start-Inv}
use go_stopper.Seq.Ordered.Exact.{crashing}
use go_stopper.Seq.Ordered.Exact.{IsComplete, IsExact, crashing}
use go_stopper.Seq.Ordered.Complete.{alive, Runs-Inv, start-IsExact, all_finished}
use go_stopper.Seq.Ordered.Lock.{IsReturned}
use go_stopper.Seq.Ordered.Size.{moves, Runs-size, start_size}
use go_stopper.Seq.Ordered.Served.{
  in_flight, filled_at, AllServed, IsBroken, IsServed, Work-IsServed,
}

List-cases : {A : Type 0} (l : List A) → (l ≡ []) ⊎ ((y : A) × (ys : List A) × (l ≡ y ∷ ys))
List-cases [] = inl refl
List-cases (y ∷ ys) = inr (y, ys, refl)

filled_cell :
    {S : Type 0} (c : ℕ) (cs : List (ℕ × S)) → 0 < filled_at c cs → (r : S) × (cell c cs ≡ some r)
filled_cell c [] h = absurd (omega (arith, h))
filled_cell c ((k, r) ∷ cs) h = elim (Bool-cases (k == c)) [
  | inl e ↦ (r, rw e refl)
  | inr e ↦ rw e (filled_cell c cs (rw e at h))
]

finishing-le-one : {T S : Type 0} (w : Worker T S) → finishing w ≤ 1
finishing-le-one looping = omega arith
finishing-le-one checked = omega arith
finishing-le-one (enqueuing c x) = omega arith
finishing-le-one (calling c x) = omega arith
finishing-le-one (sending c r) = omega arith
finishing-le-one (ended e) = omega arith
finishing-le-one crashed = omega arith

find_living :
    {T S : Type 0} (ws : List (Worker T S))
    → All IsFinished ws
      ⊎ ((w : Worker T S) × (finishing w ≡ 0)
          × ((w' : Worker T S) → (ws' : List (Worker T S)) × Swap w w' ws ws'))
find_living [] = inl tt
find_living (w ∷ ws) = elim (dec_lt 0 (finishing w)) [
  | no p ↦ inr (w, omega (arith, p), λ w'. (w' ∷ ws, here))
  | yes p ↦ elim (find_living ws) [
    | inl a ↦ inl (omega (arith, p, finishing-le-one w), a)
    | inr (v, h, swap) ↦ inr (v, h, λ w'. let (ws', sw) = swap w' in (w ∷ ws', there sw))
  ]
]

module _ {T R : Type 0} (zero_value : R) (fn : ℕ → T → Outcome (Res R)) (num_workers : ℕ) where
  -- Something can move.
  abbrev pub CanMove : System T R → Type 0
  CanMove s = (t : System T R) × Work zero_value fn num_workers s t

  module _ (items : List T) (s : System T R) (v : Inv zero_value fn items s)
      (x : IsExact zero_value fn items s) where
    open_channel :
        {w w' : Worker T (Res R)} {ws : List (Worker T (Res R))}
        → Swap w w' s.workers ws
        → finishing w ≡ 0
        → s.closed ≡ false
    open_channel sw h = elim (Bool-cases s.closed) [
      | inl e ↦ absurd (alive zero_value fn items s x sw h e)
      | inr e ↦ e
    ]

    not_canceled : s.closed ≡ false → s.canceled ≡ false
    not_canceled o = elim (Bool-cases s.canceled) [ inl e ↦ cc (o, x.cancel_closed e) | inr e ↦ e ]

    -- A worker can be moved to anywhere.
    abbrev Movable : Worker T (Res R) → Type 0
    Movable w = (w' : Worker T (Res R)) → (ws : List (Worker T (Res R))) × Swap w w' s.workers ws

    no_crash : Movable crashed → ⊥
    no_crash swap = let (ws, sw) = swap looping in omega (arith, x.intact, sum_of-Swap crashing sw)

    -- With room in the channel, a worker under nextMu can enqueue.
    holder_enqueues :
        length s.results < num_workers
        → (w : Worker T (Res R)) → 0 < holding w
        → Movable w
        → CanMove s
    holder_enqueues room looping h swap = absurd (omega (arith, h))
    holder_enqueues room checked h swap = absurd (omega (arith, h))
    holder_enqueues room (enqueuing c y) h swap =
        let (ws, sw) = swap (calling c y) in (_, enqueue (open_channel sw refl) room sw)
    holder_enqueues room (calling c y) h swap = absurd (omega (arith, h))
    holder_enqueues room (sending c r) h swap = absurd (omega (arith, h))
    holder_enqueues room (ended e) h swap = absurd (omega (arith, h))
    holder_enqueues room crashed h swap = absurd (no_crash swap)

    holder_skips :
        s.early_break ≡ true → (w : Worker T (Res R)) → 0 < holding w → Movable w → CanMove s
    holder_skips b looping h swap = absurd (omega (arith, h))
    holder_skips b checked h swap = absurd (omega (arith, h))
    holder_skips b (enqueuing c y) h swap =
        let (ws, sw) = swap (ended none) in (_, skip_broken b sw)
    holder_skips b (calling c y) h swap = absurd (omega (arith, h))
    holder_skips b (sending c r) h swap = absurd (omega (arith, h))
    holder_skips b (ended e) h swap = absurd (omega (arith, h))
    holder_skips b crashed h swap = absurd (no_crash swap)

    puller_moves : length s.results < num_workers → Movable checked → CanMove s
    puller_moves room swap = elim (Bool-cases s.locked) [
      | inl l ↦
          let (w, h, swap') = find_mover holding s.workers (omega (arith, v.counted, ap held l)) in
          holder_enqueues room w h swap'
      | inr l ↦ elim (List-cases s.items) [
        | inl e ↦ let (ws, sw) = swap (ended none) in (_, pull_end l e sw)
        | inr (y, ys, e) ↦ let (ws, sw) = swap (enqueuing s.idx y) in (_, pull l e sw)
      ]
    ]

    -- A worker that has not ended can move, if the channel has room.
    living_moves :
        length s.results < num_workers
        → (w : Worker T (Res R)) → finishing w ≡ 0
        → Movable w
        → CanMove s
    living_moves room looping h swap =
        let (ws, sw) = swap checked in (_, check (not_canceled (open_channel sw refl)) sw)
    living_moves room checked h swap = puller_moves room swap
    living_moves room (enqueuing c y) h swap =
        let (ws, sw) = swap (calling c y) in (_, enqueue (open_channel sw refl) room sw)
    living_moves room (calling c y) h swap =
        let (ws, sw) = swap (sending c (call_re zero_value (fn c y))) in (_, call_fn sw)
    living_moves room (sending c r) h swap = let (ws, sw) = swap looping in (_, send sw)
    living_moves room (ended e) h swap = absurd (omega (arith, h))
    living_moves room crashed h swap = absurd (omega (arith, h))

    sender_moves : (c : ℕ) (w : Worker T (Res R)) → 0 < in_flight c w → Movable w → CanMove s
    sender_moves c looping h swap = absurd (omega (arith, h))
    sender_moves c checked h swap = absurd (omega (arith, h))
    sender_moves c (enqueuing k y) h swap = absurd (omega (arith, h))
    sender_moves c (calling k y) h swap =
        let (ws, sw) = swap (sending k (call_re zero_value (fn k y))) in (_, call_fn sw)
    sender_moves c (sending k r) h swap = let (ws, sw) = swap looping in (_, send sw)
    sender_moves c (ended e) h swap = absurd (omega (arith, h))
    sender_moves c crashed h swap = absurd (omega (arith, h))

    consumer_moves :
        IsServed s → 0 < num_workers → (k : Consumer) → s.consumer ≡ k → IsReturned k ⊎ CanMove s
    consumer_moves d p receiving k = inr (elim (List-cases s.results) [
      | inr (c, cs, e) ↦ (_, receive k e)
      | inl e ↦ elim (Bool-cases s.closed) [
        | inl c ↦ (_, drained k e c)
        | inr c ↦ elim (find_living s.workers) [
          | inl f ↦ (_, idle_close f c)
          | inr (w, h, swap) ↦ living_moves (omega (arith, ap length e, p)) w h swap
        ]
      ]
    ])
    consumer_moves d p (waiting c) k =
        let a = subst (λ q. AllServed s.workers s.cells (pending q ++ s.results)) k d.served in
        inr (elim (dec_lt 0 (filled_at c s.cells)) [
          | yes f ↦ let (r, e) = filled_cell c s.cells f in (_, yield_more k e)
          | no f ↦
              let (w, h, swap) = find_mover (in_flight c) s.workers (omega (arith, a.0, f)) in
              sender_moves c w h swap
        ])
    consumer_moves d p awaiting k =
        let closed = d.complete (subst IsComplete (sym k) tt) in
        inr (elim (Bool-cases s.canceled) [
          | inl c ↦ (_, waited none k c)
          | inr c ↦ (_, idle_cancel (x.closed_idle closed) closed c)
        ])
    consumer_moves d p refused k = inr (_, break_early k)
    consumer_moves d p (leaving true) k =
        let closed = d.complete (subst IsComplete (sym k) tt) in
        inr (elim (Bool-cases s.locked) [
          | inr l ↦ (_, leave k l)
          | inl l ↦ absurd (
              omega (
                arith,
                all_finished zero_value fn items s.workers (x.closed_idle closed),
                v.counted,
                ap held l,
                x.intact,
              ))
        ])
    consumer_moves d p (leaving false) k = inr (elim (Bool-cases s.locked) [
      | inr l ↦ (_, leave k l)
      | inl l ↦
          let (w, h, swap) = find_mover holding s.workers (omega (arith, v.counted, ap held l)) in
          holder_skips (d.broke (subst IsBroken (sym k) tt)) w h swap
    ])
    consumer_moves d p (returned b) k = inl tt

  start-IsServed : (n : ℕ) (items : List T) → IsServed (start_map {R = R} n items)
  start-IsServed n items = record { served = tt; broke = λ h. absurd h; complete = λ h. absurd h }

  Runs-IsServed : {s t : System T R} → IsServed s → Runs zero_value fn num_workers s t → IsServed t
  Runs-IsServed d begin = d
  Runs-IsServed d (work r st) = Work-IsServed zero_value fn num_workers (Runs-IsServed d r) st

  -- Without a hard stop, and with at least one worker and room in the channel, a run of Map has at
  -- most 8 moves for each item, 2 for each worker and 6 more, and it never gets stuck: until the
  -- range over the sequence has returned, something can move.
  pub map_terminates :
      (n : ℕ) (items : List T) {s : System T R}
      → 0 < n
      → 0 < num_workers
      → (r : Runs zero_value fn num_workers (start_map n items) s)
      → (moves zero_value fn num_workers r ≤ 8 * length items + 2 * n + 6)
        × (IsReturned s.consumer ⊎ CanMove s)
  map_terminates n items {s} p q r =
      let (v, x) =
        Runs-Inv zero_value fn items num_workers (start-Inv zero_value fn items n)
          (start-IsExact zero_value fn items n p) r in
      (
        omega
            (arith, Runs-size zero_value fn num_workers r, start_size zero_value fn num_workers n),
        consumer_moves items s v x (Runs-IsServed (start-IsServed n items) r) q s.consumer refl,
      )
