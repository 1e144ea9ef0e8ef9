-- ===== src/Registry/Ascending.antt =====
-- A list of strings in ascending order is given by its members.
use Prim.Native.Nat.{Ordering}
use Prim.Native.String.{compare}
use text.Mathlib.TextEquality.{path_by_compare}
use rpc_freethread.Prelude.{
  String, Bool, true, false, ◌≡◌, refl, sym, ap, ◌∙◌, subst, List, [], ◌∷◌, arith, All, str_eq,
  eq_iff, inl, inr, Bool-cases, if◌then◌else◌,
}
use rpc_freethread.Registry.Sorting.{text_le, insert, mem}
use rpc_freethread.Registry.Order.{flip, compare-flip, compare_trans}

data Comparison (s t : String) : Type 0 where
  less : compare s t ≡ Ordering.lt → Comparison s t
  same : s ≡ t → Comparison s t
  more : compare t s ≡ Ordering.lt → Comparison s t

comparison-at : (s t : String) (o : Ordering) → compare s t ≡ o → Comparison s t
comparison-at s t Ordering.lt h = less h
comparison-at s t Ordering.eq h = same (path_by_compare s t h)
comparison-at s t Ordering.gt h = more (compare-flip s t ∙ ap flip h)

comparison : (s t : String) → Comparison s t
comparison s t = comparison-at s t (compare s t) refl

abbrev Above : String → String → Type 0
Above s t = compare s t ≡ Ordering.lt

-- Each string is less than all that follow it.
abbrev pub IsAscending : List String → Type 0
IsAscending [] = Unit
IsAscending (s ∷ l) = All (Above s) l × IsAscending l

Above-trans : (s t : String) (l : List String) → Above s t → All (Above t) l → All (Above s) l
Above-trans s t [] h k = tt
Above-trans s t (u ∷ l) h (k, ks) = (compare_trans s t u h k, Above-trans s t l h ks)

Above-irrefl : (s : String) → Above s s → ⊥
Above-irrefl s h = absurd (let g = compare-flip s s in cc)

Above-mem : (s : String) (l : List String) → All (Above s) l → mem s l ≡ false
unfolding mem
Above-mem s [] h = refl
Above-mem s (t ∷ l) (h, hs) = elim (Bool-cases (str_eq t s)) [
  | inr d ↦ ground (arith, Above-mem s l hs)
  | inl e ↦
      let p : t ≡ s = ground (arith, eq_iff t s) in absurd (Above-irrefl s (subst (Above s) p h))
]

Above-choice :
    (x : String) (b : Bool) (a c : List String)
    → All (Above x) a
    → All (Above x) c
    → All (Above x) (if b then a else c)
Above-choice x true a c p q = p
Above-choice x false a c p q = q

Above-insert :
    (x s : String) (l : List String) → Above x s → All (Above x) l → All (Above x) (insert s l)
unfolding insert
Above-insert x s [] h k = (h, tt)
Above-insert x s (t ∷ l) h (k, ks) =
    Above-choice x (text_le s t) (s ∷ t ∷ l) (t ∷ insert s l) (h, (k, ks))
      (k, Above-insert x s l h ks)

insert_first : (s t : String) (l : List String) → Above s t → insert s (t ∷ l) ≡ s ∷ t ∷ l
unfolding insert
insert_first s t l h = ground arith

insert_later : (s t : String) (l : List String) → Above t s → insert s (t ∷ l) ≡ t ∷ insert s l
unfolding insert
insert_later s t l h = ground (arith, compare-flip t s)

pub insert-IsAscending :
    (s : String) (l : List String) → IsAscending l → mem s l ≡ false → IsAscending (insert s l)
unfolding insert mem
insert-IsAscending s [] h k = (tt, tt)
insert-IsAscending s (t ∷ l) (h, hs) k = elim (comparison s t) [
  | less c ↦ subst IsAscending (sym (insert_first s t l c)) ((c, Above-trans s t l c h), (h, hs))
  | same p ↦ absurd (ground (arith, eq_iff t s))
  | more c ↦
      let out : mem s l ≡ false = ground arith in
      subst IsAscending (sym (insert_later s t l c))
        (Above-insert t s l c h, insert-IsAscending s l hs out)
]

pub only_one :
    (xs ys : List String)
    → IsAscending xs
    → IsAscending ys
    → ((k : String) → mem k xs ≡ mem k ys)
    → xs ≡ ys
unfolding mem
only_one [] [] h g k = refl
only_one [] (y ∷ ys) h g k = absurd (let e = k y in ground (arith, eq_iff y y))
only_one (x ∷ xs) [] h g k = absurd (let e = k x in ground (arith, eq_iff x x))
only_one (x ∷ xs) (y ∷ ys) (h, hs) (g, gs) k = elim (comparison x y) [
  | less c ↦
      let out = Above-mem x (y ∷ ys) (c, Above-trans x y ys c g) in
      absurd (let e = k x in ground (arith, eq_iff x x))
  | more c ↦
      let out = Above-mem y (x ∷ xs) (c, Above-trans y x xs c h) in
      absurd (let e = k y in ground (arith, eq_iff y y))
  | same p ↦
      let rest : (j : String) → mem j xs ≡ mem j ys = λ j. elim (Bool-cases (str_eq x j)) [
        | inr d ↦ let e = k j in ground (arith, p)
        | inl d ↦
            let q : x ≡ j = ground (arith, eq_iff x j) in
            let a = subst (λ u. mem u xs ≡ false) q (Above-mem x xs h) in
            let b = subst (λ u. mem u ys ≡ false) (sym p ∙ q) (Above-mem y ys g) in ground arith
      ] in
      let tails = only_one xs ys hs gs rest in cc
]
