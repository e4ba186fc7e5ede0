-- ===== src/Prelude/Moves.antt =====
-- A list of which one member moves at a time: the goroutines of seq/ and the tasks under a limit.
use Prim.Native.Nat.{ℕ, ◌+◌, ◌≤◌, ◌<◌}
use mathlib.Core.Path.{◌≡◌, refl, ap, subst}
use mathlib.Core.List.Memᴰ
use mathlib.Core.List.{List, [], ◌∷◌, ◌++◌, reverse, reverse-cons, Memᴰ}
use native.Mathlib.Omega.{arith}
use native.Mathlib.Decide.{dec_lt}
use go_stopper.Prelude.Lists.{length}

-- One of the list moves.
pub data Swap {A : Type 0} (w w' : A) : List A → List A → Type 0 where
  here : {ws : List A} → Swap w w' (w ∷ ws) (w' ∷ ws)
  there : {x : A} {ws ws' : List A} → Swap w w' ws ws' → Swap w w' (x ∷ ws) (x ∷ ws')

abbrev pub sum_of : {A : Type 0} → (A → ℕ) → List A → ℕ
sum_of f [] = 0
sum_of f (x ∷ xs) = f x + sum_of f xs

abbrev pub All : {A : Type 0} → (A → Type 0) → List A → Type 0
All P [] = Unit
All P (x ∷ xs) = P x × All P xs

module _ {A : Type 0} where
  pub sum_of-append : (f : A → ℕ) (xs ys : List A) → sum_of f (xs ++ ys) ≡ sum_of f xs + sum_of f ys
  sum_of-append f [] ys = omega arith
  sum_of-append f (x ∷ xs) ys = omega (arith, sum_of-append f xs ys)

  pub sum_of-Swap :
      (f : A → ℕ) {w w' : A} {ws ws' : List A}
      → Swap w w' ws ws'
      → sum_of f ws' + f w ≡ sum_of f ws + f w'
  sum_of-Swap f here = omega arith
  sum_of-Swap f (there sw) = omega (arith, sum_of-Swap f sw)

  pub sum_of-reverse : (f : A → ℕ) (xs : List A) → sum_of f (reverse xs) ≡ sum_of f xs
  sum_of-reverse f [] = refl
  sum_of-reverse f (x ∷ xs) = omega (
    arith,
    ap (sum_of f) (reverse-cons x xs),
    sum_of-append f (reverse xs) (x ∷ []),
    sum_of-reverse f xs,
  )

  pub sum_of_mono : (f g : A → ℕ) (xs : List A) → ((x : A) → f x ≤ g x) → sum_of f xs ≤ sum_of g xs
  sum_of_mono f g [] h = omega arith
  sum_of_mono f g (x ∷ xs) h = omega (arith, h x, sum_of_mono f g xs h)

  pub le-sum_of : (f : A → ℕ) {w w' : A} {ws ws' : List A} → Swap w w' ws ws' → f w ≤ sum_of f ws
  le-sum_of f here = omega arith
  le-sum_of f (there sw) = omega (arith, le-sum_of f sw)

  pub length-Swap : {w w' : A} {ws ws' : List A} → Swap w w' ws ws' → length ws' ≡ length ws
  length-Swap here = refl
  length-Swap (there sw) = omega (arith, length-Swap sw)

  -- What holds of all holds of the one that moves.
  pub All_moving : (P : A → Type 0) {w w' : A} {ws ws' : List A} → Swap w w' ws ws' → All P ws → P w
  All_moving P here (p, ps) = p
  All_moving P (there sw) (p, ps) = All_moving P sw ps

  pub All-Swap :
      (P : A → Type 0) {w w' : A} {ws ws' : List A} → Swap w w' ws ws' → P w' → All P ws → All P ws'
  All-Swap P here h (p, ps) = (h, ps)
  All-Swap P (there sw) h (p, ps) = (p, All-Swap P sw h ps)

  -- One that counts can be found, and moved to anywhere.
  pub find_mover :
      (f : A → ℕ) (ws : List A)
      → 0 < sum_of f ws
      → (w : A) × (0 < f w) × ((w' : A) → (ws' : List A) × Swap w w' ws ws')
  find_mover f [] h = absurd (omega (arith, h))
  find_mover f (x ∷ xs) h = elim (dec_lt 0 (f x)) [
    | yes p ↦ (x, p, λ w'. (w' ∷ xs, here))
    | no p ↦
        let (w, q, swap) = find_mover f xs (omega (arith, h, p)) in
        (w, q, λ w'. let (ws', sw) = swap w' in (x ∷ ws', there sw))
  ]

-- A member can move.
pub mover_of_mem : {A : Type 0} {x : A} (xs : List A) → Memᴰ x xs → (ys : List A) × Swap x x xs ys
mover_of_mem [] m = absurd (Memᴰ.not-nil m)
mover_of_mem {x = x} (y ∷ xs) (Memᴰ.head e) =
    subst (λ z. (ys : List _) × Swap x x (z ∷ xs) ys) e (x ∷ xs, here)
mover_of_mem (y ∷ xs) (Memᴰ.tail m) = let (ys, sw) = mover_of_mem xs m in (y ∷ ys, there sw)

pub All-append :
    {A : Type 0} (P : A → Type 0) (xs ys : List A) → All P xs → All P ys → All P (xs ++ ys)
All-append P [] ys a b = b
All-append P (x ∷ xs) ys (p, a) b = (p, All-append P xs ys a b)

pub All-weaken :
    {A : Type 0} {P Q : A → Type 0} (xs : List A) → ((x : A) → P x → Q x) → All P xs → All Q xs
All-weaken [] h a = tt
All-weaken (x ∷ xs) h (p, a) = (h x p, All-weaken xs h a)
