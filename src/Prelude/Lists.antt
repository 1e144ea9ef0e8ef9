-- ===== src/Prelude/Lists.antt =====
-- Lists measured and cut by native numbers, under the library's names.
use Prim.Native.Nat.{ℕ, zero, suc, ◌+◌, ◌-◌, ◌≤◌, min}
use mathlib.Core.Path.{◌≡◌, refl, ap}
use mathlib.Core.Option.{Option, none, some}
use mathlib.Core.List.{List, [], ◌∷◌, ◌++◌}
use native.Mathlib.Omega.{arith}

module _ {ℓ} {A : Type ℓ} where
  abbrev pub drop : ℕ → List A → List A
  drop zero xs = xs
  drop (suc n) [] = []
  drop (suc n) (y ∷ l) = drop n l

  abbrev pub length : List A → ℕ
  length [] = 0
  length (y ∷ l) = suc (length l)

  abbrev pub take : ℕ → List A → List A
  take zero xs = []
  take (suc n) [] = []
  take (suc n) (y ∷ l) = y ∷ take n l

  abbrev pub get_elem? : List A → ℕ → Option A
  get_elem? [] i = none
  get_elem? (y ∷ l) zero = some y
  get_elem? (y ∷ l) (suc i) = get_elem? l i

  abbrev pub All {κ} : (A → Type κ) → List A → Type κ
  All P [] = Unit {κ}
  All P (y ∷ l) = P y × All P l

  pub length-append : (xs ys : List A) → length (xs ++ ys) ≡ length xs + length ys
  length-append [] ys = omega arith
  length-append (y ∷ l) ys = omega (arith, length-append l ys)

  pub length-take : (n : ℕ) (xs : List A) → length (take n xs) ≡ min n (length xs)
  length-take zero xs = omega arith
  length-take (suc n) [] = omega arith
  length-take (suc n) (y ∷ l) = omega (arith, length-take n l)

  pub length-drop : (n : ℕ) (xs : List A) → length (drop n xs) ≡ length xs - n
  length-drop zero xs = omega arith
  length-drop (suc n) [] = omega arith
  length-drop (suc n) (y ∷ l) = omega (arith, length-drop n l)

  pub take-append-drop : (n : ℕ) (xs : List A) → take n xs ++ drop n xs ≡ xs
  take-append-drop zero xs = refl
  take-append-drop (suc n) [] = refl
  take-append-drop (suc n) (y ∷ l) = ap (◌∷◌ y) (take-append-drop n l)

  pub take_of_length-le : (n : ℕ) (xs : List A) → length xs ≤ n → take n xs ≡ xs
  take_of_length-le (suc n) (y ∷ l) h = ap (◌∷◌ y) (take_of_length-le n l (omega arith))
  take_of_length-le zero (y ∷ l) h = absurd (omega arith)
  take_of_length-le (suc n) [] h = refl
  take_of_length-le zero [] h = refl

  pub take-append : (xs ys : List A) → take (length xs) (xs ++ ys) ≡ xs
  take-append [] ys = refl
  take-append (y ∷ l) ys = ap (◌∷◌ y) (take-append l ys)

  pub drop-append : (xs ys : List A) → drop (length xs) (xs ++ ys) ≡ ys
  drop-append [] ys = refl
  drop-append (y ∷ l) ys = drop-append l ys

  -- `x in l`
  pub data Among : A → List A → Type ℓ where
    here : {x : A} {l : List A} → Among x (x ∷ l)
    there : {x y : A} {l : List A} → Among x l → Among x (y ∷ l)
