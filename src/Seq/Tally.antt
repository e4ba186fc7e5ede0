-- ===== src/Seq/Tally.antt =====
-- Which items the workers of seq/ have pulled and what became of their results, whatever the order
-- in which the results leave the workers (MapUnordered of seq/map.go, seq/each.go).
use go_stopper.Prelude.{
  ℕ, zero, suc, ◌+◌, ◌≤◌, ◌<◌, ◌≡◌, refl, sym, ◌∙◌, List, [], ◌∷◌, ◌++◌, Option, none, some, arith,
  length, get_elem?, drop, drop-nil, drop-cons, length-le_of_drop, if◌then◌else◌, ◌==◌,
}
use go_stopper.Seq.Ordered.{repeat, finishing, IsFinished}
use go_stopper.Prelude.Moves.{Swap, All, sum_of, sum_of-Swap, All_moving, All-Swap}
use go_stopper.Seq.Worker.{Worker, looping, checked, enqueuing, calling, sending, ended, crashed}

-- A worker that has the item of an index, or its result.
abbrev pub in_flight : {T S : Type 0} → ℕ → Worker T S → ℕ
in_flight c (calling k x) = if k == c then 1 else 0
in_flight c (sending k r) = if k == c then 1 else 0
in_flight c _ = 0

-- How often a result of an index has left the workers.
abbrev pub occurs : {S : Type 0} → ℕ → List (ℕ × S) → ℕ
occurs c [] = 0
occurs c ((k, r) ∷ rs) = (if k == c then 1 else 0) + occurs c rs

module _ {T S : Type 0} (run_fn : ℕ → T → S) (items : List T) where
  abbrev pub wanted : ℕ → Option S
  wanted c = elim (get_elem? items c) [ none ↦ none | some x ↦ some (run_fn c x) ]

  abbrev pub IsResult : ℕ × S → Type 0
  IsResult (c, r) = wanted c ≡ some r

  abbrev pub IsBusy : Worker T S → Type 0
  IsBusy (enqueuing c x) = ⊥
  IsBusy (calling c x) = get_elem? items c ≡ some x
  IsBusy (sending c r) = wanted c ≡ some r
  IsBusy _ = Unit

  pub record Tally (left : List T) (idx : ℕ) (ws : List (Worker T S)) (out : List (ℕ × S))
      : Type 0 where
    pub rest : left ≡ drop idx items
    pub busy : All IsBusy ws
    pub right : All IsResult out
    pub once : (c : ℕ) → occurs c out + sum_of (in_flight c) ws ≤ 1
    pub unseen : (c : ℕ) → idx ≤ c → occurs c out + sum_of (in_flight c) ws ≡ 0

  -- No item that was pulled is lost.
  abbrev pub IsLossless : ℕ → List (Worker T S) → List (ℕ × S) → Type 0
  IsLossless idx ws out =
      (c : ℕ) → c < idx → c < length items → occurs c out + sum_of (in_flight c) ws ≡ 1

  module _ {left : List T} {idx : ℕ} {ws ws' : List (Worker T S)} {out : List (ℕ × S)}
      {w w' : Worker T S} (v : Tally left idx ws out) (sw : Swap w w' ws ws') where
    -- A worker that takes up no other item; it may drop the one that it has.
    pub Tally-move : ((c : ℕ) → in_flight c w' ≤ in_flight c w) → IsBusy w' → Tally left idx ws' out
    Tally-move h b = record {
      rest = v.rest;
      busy = All-Swap IsBusy sw b v.busy;
      right = v.right;
      once = λ c. omega (arith, h c, v.once c, sum_of-Swap (in_flight c) sw);
      unseen = λ c le. omega (arith, h c, v.unseen c le, sum_of-Swap (in_flight c) sw);
    }

    pub IsLossless-move :
        ((c : ℕ) → in_flight c w' ≡ in_flight c w) → IsLossless idx ws out → IsLossless idx ws' out
    IsLossless-move h l = λ c p q. omega (arith, h c, l c p q, sum_of-Swap (in_flight c) sw)

    -- The end of the items.
    pub Tally-end :
        left ≡ []
        → ((c : ℕ) → in_flight c w' ≤ in_flight c w)
        → IsBusy w'
        → Tally left (suc idx) ws' out
    Tally-end e h b = record {
      rest = e ∙ sym (drop-nil idx items (sym v.rest ∙ e));
      busy = All-Swap IsBusy sw b v.busy;
      right = v.right;
      once = λ c. omega (arith, h c, v.once c, sum_of-Swap (in_flight c) sw);
      unseen =
          λ c le. omega (arith, h c, v.unseen c (omega (arith, le)), sum_of-Swap (in_flight c) sw);
    }

    pub IsLossless-end :
        left ≡ []
        → ((c : ℕ) → in_flight c w' ≡ in_flight c w)
        → IsLossless idx ws out
        → IsLossless (suc idx) ws' out
    IsLossless-end e h l = λ c p q. omega (
      arith,
      h c,
      l c (omega (arith, p, q, length-le_of_drop idx items (sym v.rest ∙ e))) q,
      sum_of-Swap (in_flight c) sw,
    )

  module _ {left : List T} {idx : ℕ} {ws ws' : List (Worker T S)} {out : List (ℕ × S)}
      (v : Tally left idx ws out) where
    pub Tally-pull :
        {x : T} {xs : List T}
        → left ≡ x ∷ xs
        → Swap checked (calling idx x) ws ws'
        → Tally xs (suc idx) ws' out
    Tally-pull {x} {xs} e sw =
        let (found, rest, len) = drop-cons idx items (sym v.rest ∙ e) in
        record {
          rest = sym rest;
          busy = All-Swap IsBusy sw found v.busy;
          right = v.right;
          once = λ c. ground (
            arith,
            v.once c,
            v.unseen idx (omega arith),
            sum_of-Swap (in_flight c) sw,
            v.unseen c,
          );
          unseen = λ c le.
              ground (arith, v.unseen c (omega (arith, le)), sum_of-Swap (in_flight c) sw, le);
        }

    pub IsLossless-pull :
        {x : T}
        → Swap checked (calling idx x) ws ws'
        → IsLossless idx ws out
        → IsLossless (suc idx) ws' out
    IsLossless-pull sw l =
        λ c p q. ground (arith, l c, v.unseen c, sum_of-Swap (in_flight c) sw, p, q)

    -- A result leaves its worker.
    pub Tally-deliver :
        (out' : List (ℕ × S)) {c : ℕ} {r : S} {w' : Worker T S}
        → Swap (sending c r) w' ws ws'
        → ((k : ℕ) → in_flight k w' ≡ 0)
        → IsBusy w'
        → ((k : ℕ) → occurs k out' ≡ occurs k out + (if c == k then 1 else 0))
        → All IsResult out'
        → Tally left idx ws' out'
    Tally-deliver out' sw h b o right = record {
      rest = v.rest;
      busy = All-Swap IsBusy sw b v.busy;
      right = right;
      once = λ k. omega (arith, h k, o k, v.once k, sum_of-Swap (in_flight k) sw);
      unseen = λ k le. omega (arith, h k, o k, v.unseen k le, sum_of-Swap (in_flight k) sw);
    }

    pub IsLossless-deliver :
        (out' : List (ℕ × S)) {c : ℕ} {r : S} {w' : Worker T S}
        → Swap (sending c r) w' ws ws'
        → ((k : ℕ) → in_flight k w' ≡ 0)
        → ((k : ℕ) → occurs k out' ≡ occurs k out + (if c == k then 1 else 0))
        → IsLossless idx ws out
        → IsLossless idx ws' out'
    IsLossless-deliver out' sw h o l =
        λ k p q. omega (arith, h k, o k, l k p q, sum_of-Swap (in_flight k) sw)

    pub sender-IsResult :
        {c : ℕ} {r : S} {w' : Worker T S} → Swap (sending c r) w' ws ws' → IsResult (c, r)
    sender-IsResult sw = All_moving IsBusy sw v.busy

  pub wanted-found : (c : ℕ) {x : T} → get_elem? items c ≡ some x → wanted c ≡ some (run_fn c x)
  wanted-found c e = ground (arith, e)

  pub repeat_idle :
      (n : ℕ)
      → All IsBusy (repeat n looping)
        × ((c : ℕ) → sum_of (in_flight {T = T} {S = S} c) (repeat n looping) ≡ 0)
        × (sum_of (finishing {T = T} {S = S}) (repeat n looping) ≡ 0)
        × (length (repeat {A = Worker T S} n looping) ≡ n)
  repeat_idle zero = (tt, λ c. refl, refl, refl)
  repeat_idle (suc n) =
      let (a, f, g, l) = repeat_idle n in
      ((tt, a), λ c. omega (arith, f c), omega (arith, g), omega (arith, l))

pub finished_idle :
    {T S : Type 0} (c : ℕ) (ws : List (Worker T S))
    → All IsFinished ws
    → (sum_of (in_flight c) ws ≡ 0) × (sum_of finishing ws ≡ length ws)
finished_idle c [] a = (refl, refl)
finished_idle c (looping ∷ ws) (p, a) = absurd (omega (arith, p))
finished_idle c (checked ∷ ws) (p, a) = absurd (omega (arith, p))
finished_idle c (enqueuing k x ∷ ws) (p, a) = absurd (omega (arith, p))
finished_idle c (calling k x ∷ ws) (p, a) = absurd (omega (arith, p))
finished_idle c (sending k r ∷ ws) (p, a) = absurd (omega (arith, p))
finished_idle c (ended e ∷ ws) (p, a) = omega (arith, finished_idle c ws a)
finished_idle c (crashed ∷ ws) (p, a) = omega (arith, finished_idle c ws a)

pub occurs_snoc :
    {S : Type 0} (k c : ℕ) (r : S) (out : List (ℕ × S))
    → occurs k (out ++ (c, r) ∷ []) ≡ occurs k out + (if c == k then 1 else 0)
occurs_snoc k c r [] = omega arith
occurs_snoc k c r (y ∷ out) = omega (arith, occurs_snoc k c r out)
