-- ===== src/Frontier/Order.antt =====
-- Which domains the frontier gives out first.
use rpc_freethread.Prelude.{
  ℕ, zero, suc, ◌≤◌, Bool, true, false, ◌≡◌, List, [], ◌∷◌, All, arith, Bool-cases, inl, inr,
  if◌then◌else◌, length, min,
}
use rpc_freethread.Errors.{ok}
use rpc_freethread.Frontier.{
  Domain, Entry, before, heappush, FrontierCore, push_domains, pop, claim_batch, submit_children,
}

-- No entry is before an earlier one.
abbrev pub IsOrdered : List Entry → Type 0
IsOrdered [] = Unit
IsOrdered (x ∷ l) = All (λ y. before y x ≡ false) l × IsOrdered l

All-map : {P Q : Entry → Type 0} (l : List Entry) → ((x : Entry) → P x → Q x) → All P l → All Q l
All-map [] f h = tt
All-map (x ∷ l) f (p, h) = (f x p, All-map l f h)

All-choice :
    (P : Entry → Type 0) (b : Bool) (x y : Entry) (l m : List Entry)
    → P x
    → P y
    → All P l
    → All P m
    → All P (if b then x ∷ y ∷ l else y ∷ m)
All-choice P true x y l m p q h k = (p, (q, h))
All-choice P false x y l m p q h k = (q, k)

heappush-All :
    (P : Entry → Type 0) (x : Entry) (l : List Entry) → P x → All P l → All P (heappush x l)
unfolding heappush
heappush-All P x [] p h = (p, tt)
heappush-All P x (y ∷ l) p (q, h) =
    All-choice P (before x y) x y l (heappush x l) p q h (heappush-All P x l p h)

before_first : (x y w : Entry) → before x y ≡ true → before w y ≡ false → before w x ≡ false
before_first x y w h k = ground arith

before_asymm : (x y : Entry) → before x y ≡ true → before y x ≡ false
before_asymm x y h = ground arith

heappush-IsOrdered : (x : Entry) (l : List Entry) → IsOrdered l → IsOrdered (heappush x l)
unfolding heappush
heappush-IsOrdered x [] h = (tt, tt)
heappush-IsOrdered x (y ∷ l) (a, o) = elim (Bool-cases (before x y)) [
  | inl h ↦ rw h ((before_asymm x y h, All-map l (λ w. before_first x y w h) a), (a, o))
  | inr h ↦ rw h (heappush-All (λ w. before w y ≡ false) x l h a, heappush-IsOrdered x l o)
]

-- Submitting children keeps the heap in order.
pub push_domains-IsOrdered :
    (ds : List Domain) (f : FrontierCore) → IsOrdered f.heap → IsOrdered (push_domains ds f).heap
unfolding push_domains
push_domains-IsOrdered [] f h = h
push_domains-IsOrdered (d ∷ ds) f h = push_domains-IsOrdered ds _ (heappush-IsOrdered _ f.heap h)

pop-All : (P : Entry → Type 0) (n : ℕ) (l : List Entry) → All P l → All P (pop n l).1
unfolding pop
pop-All P zero l h = h
pop-All P (suc n) [] h = tt
pop-All P (suc n) (x ∷ l) (p, h) = pop-All P n l h

abbrev pub Least : List Domain → List Entry → Type 0
Least ds left = All (λ d. All (λ e. d.priority ≤ e.domain.priority) left) ds

pop-Least :
    (n : ℕ) (l : List Entry) → IsOrdered l → Least (pop n l).0 (pop n l).1 × IsOrdered (pop n l).1
unfolding pop
pop-Least zero l h = (tt, h)
pop-Least (suc n) [] h = (tt, tt)
pop-Least (suc n) (x ∷ l) (a, o) =
    let (least, rest) = pop-Least n l o in
    (
      (All-map (pop n l).1 (λ e k. ground arith) (pop-All (λ y. before y x ≡ false) n l a), least),
      rest,
    )

-- A batch that is claimed from a frontier in order holds domains of least priority: none that is
-- left has a smaller one. What is left is in order, also after children are submitted.
pub lowest_claimed_first :
    (batch : ℕ) (f f' : FrontierCore) (ds children : List Domain)
    → IsOrdered f.heap
    → claim_batch batch f ≡ (ok ds, f')
    → Least ds f'.heap × IsOrdered f'.heap × IsOrdered (submit_children children f').1.heap
unfolding claim_batch submit_children
lowest_claimed_first zero f f' ds children o e = absurd cc
lowest_claimed_first (suc b) f f' ds children o e =
    let k = min (suc b) (length f.heap) in
    let (least, rest) = pop-Least k f.heap o in
    let taken : ds ≡ (pop k f.heap).0 = ground arith in
    let left : f'.heap ≡ (pop k f.heap).1 = ground arith in
    let ordered : IsOrdered f'.heap = rw left rest in
    (rw (taken, left) least, ordered, push_domains-IsOrdered children _ ordered)
