-- ===== src/Frontier/Counting.antt =====
-- How many domains the operations of the frontier add and take.
use rpc_freethread.Prelude.{
  ℕ, zero, suc, ◌+◌, ◌*◌, ◌≤◌, ◌≡◌, refl, ap, List, [], ◌∷◌, length, length-append, arith,
}
use rpc_freethread.Frontier.{
  Entry, Domain, heappush, FrontierCore, push_domains, pop, initial, children_of, all_children,
}

length-heappush : (x : Entry) (l : List Entry) → length (heappush x l) ≡ suc (length l)
unfolding heappush
length-heappush x [] = refl
length-heappush x (y ∷ l) = ground (arith, length-heappush x l)

pub length-push_domains :
    (ds : List Domain) (f : FrontierCore)
    → length (push_domains ds f).heap ≡ length f.heap + length ds
unfolding push_domains
length-push_domains [] f = omega arith
length-push_domains (d ∷ ds) f = omega (
  arith,
  length-push_domains ds (record f {
    heap = heappush (record { domain = d; sequence = f.next_sequence }) f.heap;
    next_sequence = f.next_sequence + 1;
  }),
  length-heappush (record { domain = d; sequence = f.next_sequence }) f.heap,
)

-- Pushing touches no counter.
pub push_domains_counters :
    (ds : List Domain) (f : FrontierCore)
    → ((push_domains ds f).claimed ≡ f.claimed)
      × ((push_domains ds f).added ≡ f.added)
      × ((push_domains ds f).claim_calls ≡ f.claim_calls)
      × ((push_domains ds f).submit_calls ≡ f.submit_calls)
      × ((push_domains ds f).size_calls ≡ f.size_calls)
unfolding push_domains
push_domains_counters [] f = (refl, refl, refl, refl, refl)
push_domains_counters (d ∷ ds) f = push_domains_counters ds (record f {
  heap = heappush (record { domain = d; sequence = f.next_sequence }) f.heap;
  next_sequence = f.next_sequence + 1;
})

pub length-initial : (i n : ℕ) → length (initial i n) ≡ n
unfolding initial
length-initial i zero = refl
length-initial i (suc n) = ap suc (length-initial (i + 1) n)

pub length-pop :
    (n : ℕ) (l : List Entry)
    → n ≤ length l
    → (length (pop n l).0 ≡ n) × (length (pop n l).1 + n ≡ length l)
unfolding pop
length-pop zero l h = (refl, omega arith)
length-pop (suc n) [] h = absurd (omega arith)
length-pop (suc n) (x ∷ l) h =
    let (a, b) = length-pop n l (omega arith) in (omega (arith, a), omega (arith, b))

length-children_of : (c r : ℕ) (d : Domain) (i n : ℕ) → length (children_of c r d i n) ≡ n
unfolding children_of
length-children_of c r d i zero = refl
length-children_of c r d i (suc n) = ap suc (length-children_of c r d (i + 1) n)

pub length-all_children :
    (c r factor : ℕ) (ds : List Domain) → length (all_children c r factor ds) ≡ length ds * factor
unfolding all_children
length-all_children c r factor [] = omega arith
length-all_children c r factor (d ∷ ds) = omega (
  arith,
  length-append (children_of c r d 0 factor) (all_children c r factor ds),
  length-children_of c r d 0 factor,
  length-all_children c r factor ds,
)
