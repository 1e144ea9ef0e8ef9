-- ===== src/Frontier/Tests.antt =====
-- The frontier on a small run.
use rpc_freethread.Prelude.{ℕ, ◌+◌, ◌*◌, ◌≡◌, refl, [], ◌∷◌}
use rpc_freethread.Errors.{ok}
use rpc_freethread.Frontier.{
  Domain, FrontierCore, new_frontier, claim_batch, submit_children, snapshot, expected, heappush,
  pop, initial, push_domains, branch_domains, all_children, children_of,
}
use rpc_freethread.Frontier.Order.{IsOrdered, Least, lowest_claimed_first}
use rpc_freethread.Frontier.Laws.{Reach, bench, counts_balanced, done, step, claim, submit}

abbrev domain : ℕ → ℕ → Domain
domain priority token = record { priority = priority; depth = 0; token = token }

abbrev two : FrontierCore
two = record {
  heap =
      record { domain = domain 0 0; sequence = 0 }
      ∷ record { domain = domain 104729 1; sequence = 1 }
      ∷ [];
  next_sequence = 2;
  claimed = 0;
  added = 0;
  claim_calls = 0;
  submit_calls = 0;
  size_calls = 0;
}

two_domains : new_frontier 2 ≡ ok two
unfolding new_frontier push_domains initial heappush
two_domains = refl

abbrev one_left : FrontierCore
one_left = record two {
  heap = record { domain = domain 104729 1; sequence = 1 } ∷ [];
  claimed = 1;
  claim_calls = 1;
}

-- The domain of the least priority is claimed.
least_first : claim_batch 1 two ≡ (ok (domain 0 0 ∷ []), one_left)
unfolding claim_batch pop
least_first = refl

abbrev refilled : FrontierCore
refilled = (submit_children (branch_domains 0 0 1 (domain 0 0 ∷ [])).0 one_left).1

run : Reach 1 1 (bench two) (record { frontier = refilled; waiting = 0 })
run =
    step (step done (claim (bench two) (domain 0 0 ∷ []) one_left least_first refl))
      (submit (record { frontier = one_left; waiting = 1 }) 0 0 0 (domain 0 0 ∷ []) refl refl)

counts_balanced_example :
    let p = snapshot refilled in
    let e = expected 2 1 p.claim_calls 1 1 0 in
    (p.frontier_size + p.claimed ≡ 2 + p.added)
    × (p.claimed ≡ e.claimed)
    × (p.added + 0 * (1 * 1) ≡ e.added)
    × (p.submit_calls + 0 ≡ e.submit_calls)
    × (p.frontier_size + 0 * (1 * 1) ≡ e.frontier_size)
counts_balanced_example =
    counts_balanced 2 1 1 two (record { frontier = refilled; waiting = 0 }) two_domains run

-- The run is complete, and its snapshot is the expected one.
complete : snapshot refilled ≡ expected 2 1 1 1 1 0
unfolding submit_children push_domains branch_domains all_children children_of expected heappush
complete = refl

lowest_claimed_first_example :
    Least (domain 0 0 ∷ []) one_left.heap
    × IsOrdered one_left.heap
    × IsOrdered (submit_children (domain 5 7 ∷ []) one_left).1.heap
lowest_claimed_first_example =
    lowest_claimed_first 1 two one_left (domain 0 0 ∷ []) (domain 5 7 ∷ []) ((refl, tt), (tt, tt))
      least_first
