-- ===== src/Prelude/Lists.antt =====
-- Lists measured by native numbers, under the library's names.
use Prim.Native.Nat.{ℕ, zero, suc, ◌+◌, ◌≤◌}
use mathlib.Core.Path.{◌≡◌, refl, ap}
use mathlib.Core.Bool.{Bool}
use mathlib.Core.Option.{Option, none, some}
use mathlib.Core.List.{List, [], ◌∷◌, ◌++◌, reverse, reverse-cons}
use native.Mathlib.Omega.{arith}
use go_stopper.Prelude.Tests.{if◌then◌else◌}

module _ {ℓ} {A : Type ℓ} where
  abbrev pub length : List A → ℕ
  length [] = 0
  length (x ∷ xs) = suc (length xs)

  pub length-append : (xs ys : List A) → length (xs ++ ys) ≡ length xs + length ys
  length-append [] ys = omega arith
  length-append (x ∷ xs) ys = omega (arith, length-append xs ys)

  -- How many elements pass a test.
  abbrev pub count_if : (A → Bool) → List A → ℕ
  count_if p [] = 0
  count_if p (x ∷ xs) = (if p x then 1 else 0) + count_if p xs

  pub count_if-append :
      (p : A → Bool) (xs ys : List A) → count_if p (xs ++ ys) ≡ count_if p xs + count_if p ys
  count_if-append p [] ys = omega arith
  count_if-append p (x ∷ xs) ys = omega (arith, count_if-append p xs ys)

  abbrev pub get_elem? : List A → ℕ → Option A
  get_elem? [] i = none
  get_elem? (x ∷ xs) zero = some x
  get_elem? (x ∷ xs) (suc i) = get_elem? xs i

  abbrev pub take : ℕ → List A → List A
  take zero xs = []
  take (suc n) [] = []
  take (suc n) (x ∷ xs) = x ∷ take n xs

  abbrev pub drop : ℕ → List A → List A
  drop zero xs = xs
  drop (suc n) [] = []
  drop (suc n) (x ∷ xs) = drop n xs

  pub drop-nil : (n : ℕ) (xs : List A) → drop n xs ≡ [] → drop (suc n) xs ≡ []
  drop-nil zero [] h = refl
  drop-nil zero (x ∷ xs) h = cc
  drop-nil (suc n) [] h = refl
  drop-nil (suc n) (x ∷ xs) h = drop-nil n xs h

  pub length-le_of_drop : (n : ℕ) (xs : List A) → drop n xs ≡ [] → length xs ≤ n
  length-le_of_drop zero [] h = omega arith
  length-le_of_drop zero (x ∷ xs) h = cc
  length-le_of_drop (suc n) [] h = omega arith
  length-le_of_drop (suc n) (x ∷ xs) h = omega (arith, length-le_of_drop n xs h)

  -- The elements from `n` on begin with the element at `n`.
  pub drop-cons :
      (n : ℕ) (xs : List A) {y : A} {ys : List A}
      → drop n xs ≡ y ∷ ys
      → (get_elem? xs n ≡ some y) × (drop (suc n) xs ≡ ys) × (n + suc (length ys) ≡ length xs)
  drop-cons zero [] h = cc
  drop-cons zero (x ∷ xs) h = (cc, cc, omega (arith, ap length h))
  drop-cons (suc n) [] h = cc
  drop-cons (suc n) (x ∷ xs) h = let (e, d, l) = drop-cons n xs h in (e, d, omega (arith, l))

  pub drop-get_elem? :
      (n : ℕ) (xs : List A) {y : A} → get_elem? xs n ≡ some y → drop n xs ≡ y ∷ drop (suc n) xs
  drop-get_elem? n [] h = cc
  drop-get_elem? zero (x ∷ xs) h = cc
  drop-get_elem? (suc n) (x ∷ xs) h = drop-get_elem? n xs h

  pub take-all : (xs : List A) → take (length xs) xs ≡ xs
  take-all [] = refl
  take-all (x ∷ xs) = ap (λ ys. x ∷ ys) (take-all xs)

module _ {ℓ} {A : Type ℓ} where
  pub count_if-reverse : (p : A → Bool) (xs : List A) → count_if p (reverse xs) ≡ count_if p xs
  count_if-reverse p [] = refl
  count_if-reverse p (x ∷ xs) = omega (
    arith,
    ap (count_if p) (reverse-cons x xs),
    count_if-append p (reverse xs) (x ∷ []),
    count_if-reverse p xs,
  )
