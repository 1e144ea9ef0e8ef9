-- ===== src/Registry/Order.antt =====
-- The order of strings by code points: `compare` is a strict total order.
use Prim.Native.Nat.{ℕ, Ordering, compare as compare_ℕ}
use Prim.Native.Char.{Char, code}
use Prim.Native.String.compare
use Prim.Native.String.{String, [], ◌∷◌, compare, then}
use rpc_freethread.Prelude.{◌≡◌, refl, sym, ◌∙◌, ap, arith}

abbrev pub flip : Ordering → Ordering
flip Ordering.lt = Ordering.gt
flip Ordering.eq = Ordering.eq
flip Ordering.gt = Ordering.lt

flip-then : (o r : Ordering) → flip (then o r) ≡ then (flip o) (flip r)
flip-then Ordering.lt r = refl
flip-then Ordering.eq r = refl
flip-then Ordering.gt r = refl

numbers_flip : (m n : ℕ) → compare_ℕ n m ≡ flip (compare_ℕ m n)
numbers_flip m n = ground arith

numbers_trans :
    (l m n : ℕ)
    → compare_ℕ l m ≡ Ordering.lt
    → compare_ℕ m n ≡ Ordering.lt
    → compare_ℕ l n ≡ Ordering.lt
numbers_trans l m n h k = ground arith

pub compare-flip : (s t : String) → compare t s ≡ flip (compare s t)
compare-flip [] [] = refl
compare-flip [] (d ∷ t) = compare.cons-nil d t ∙ ap flip (sym (compare.nil-cons d t))
compare-flip (c ∷ s) [] = compare.nil-cons c s ∙ ap flip (sym (compare.cons-nil c s))
compare-flip (c ∷ s) (d ∷ t) =
    compare.cons-cons d c t s
    ∙ ap (λ o. then o (compare t s)) (numbers_flip (code c) (code d))
    ∙ ap (then (flip (compare_ℕ (code c) (code d)))) (compare-flip s t)
    ∙ sym (flip-then (compare_ℕ (code c) (code d)) (compare s t))
    ∙ ap flip (sym (compare.cons-cons c d s t))

-- No string is less than the empty one.
below_nothing : (s : String) → compare s [] ≡ Ordering.lt → ⊥
below_nothing [] h = absurd cc
below_nothing (c ∷ s) h = absurd (let g = compare.cons-nil c s in cc)

-- How `then` is "less".
data IsLess (o r : Ordering) : Type 0 where
  first : o ≡ Ordering.lt → IsLess o r
  second : o ≡ Ordering.eq → r ≡ Ordering.lt → IsLess o r

then-IsLess : (o r : Ordering) → then o r ≡ Ordering.lt → IsLess o r
then-IsLess Ordering.lt r h = first refl
then-IsLess Ordering.eq r h = second refl h
then-IsLess Ordering.gt r h = cc

IsLess-cons :
    (c d : Char) (s t : String)
    → IsLess (compare_ℕ (code c) (code d)) (compare s t)
    → compare (c ∷ s) (d ∷ t) ≡ Ordering.lt
IsLess-cons c d s t (first h) = compare.cons-cons c d s t ∙ ap (λ o. then o (compare s t)) h
IsLess-cons c d s t (second h k) = compare.cons-cons c d s t ∙ ap (λ o. then o (compare s t)) h ∙ k

cons-IsLess :
    (c d : Char) (s t : String)
    → compare (c ∷ s) (d ∷ t) ≡ Ordering.lt
    → IsLess (compare_ℕ (code c) (code d)) (compare s t)
cons-IsLess c d s t h = then-IsLess _ _ (sym (compare.cons-cons c d s t) ∙ h)

IsLess-trans :
    (l m n : ℕ) (o r q : Ordering)
    → IsLess (compare_ℕ l m) o
    → IsLess (compare_ℕ m n) r
    → (o ≡ Ordering.lt → r ≡ Ordering.lt → q ≡ Ordering.lt)
    → IsLess (compare_ℕ l n) q
IsLess-trans l m n o r q (first h) (first k) g = first (ground arith)
IsLess-trans l m n o r q (first h) (second k _) g = first (ground arith)
IsLess-trans l m n o r q (second h _) (first k) g = first (ground arith)
IsLess-trans l m n o r q (second h x) (second k y) g = second (ground arith) (g x y)

pub compare_trans :
    (s t u : String)
    → compare s t ≡ Ordering.lt
    → compare t u ≡ Ordering.lt
    → compare s u ≡ Ordering.lt
compare_trans [] t [] h k = absurd (below_nothing t k)
compare_trans [] t (e ∷ u) h k = compare.nil-cons e u
compare_trans (c ∷ s) [] u h k = absurd (below_nothing (c ∷ s) h)
compare_trans (c ∷ s) (d ∷ t) [] h k = absurd (below_nothing (d ∷ t) k)
compare_trans (c ∷ s) (d ∷ t) (e ∷ u) h k = IsLess-cons c e s u (
    IsLess-trans (code c) (code d) (code e) _ _ _ (cons-IsLess c d s t h) (cons-IsLess d e t u k)
      (compare_trans s t u))
