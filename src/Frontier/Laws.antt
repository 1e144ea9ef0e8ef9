-- ===== src/Frontier/Laws.antt =====
-- What the frontier counts, in every interleaving of coordinators.
use native.Mathlib.Nat.{add-mul, mul_assoc}
use rpc_freethread.Prelude.{ℕ, zero, suc, ◌+◌, ◌*◌, ◌≡◌, ap, ◌∙◌, sym, List, [], length, min, arith}
use rpc_freethread.Errors.{ok}
use rpc_freethread.Frontier.{
  Domain, FrontierCore, pop, claim_batch, submit_children, size, initial, new_frontier,
  all_children, branch_domains, snapshot, expected,
}
use rpc_freethread.Frontier.Counting.{
  length-push_domains, push_domains_counters, length-initial, length-pop, length-all_children,
}

-- The frontier, and how many coordinators have a batch in hand.
pub record Bench : Type 0 where
  pub frontier : FrontierCore
  pub waiting : ℕ

-- A call of one coordinator on the actor, in any order: the rounds of `coordinate` are one order of
-- each coordinator's calls, and a size query may come at any time. A batch that is short ends the run
-- with an error.
pub data Step (batch factor : ℕ) : Bench → Bench → Type 0 where
  claim :
      (s : Bench) (ds : List Domain) (f : FrontierCore)
      → claim_batch batch s.frontier ≡ (ok ds, f)
      → length ds ≡ batch
      → Step batch factor s (record { frontier = f; waiting = s.waiting + 1 })
  submit :
      (s : Bench) (coordinator round left : ℕ) (ds : List Domain)
      → s.waiting ≡ left + 1
      → length ds ≡ batch
      → Step batch factor s (record {
        frontier = (submit_children (branch_domains coordinator round factor ds).0 s.frontier).1;
        waiting = left;
      })
  ask : (s : Bench) → Step batch factor s (record s { frontier = (size s.frontier).1 })

pub data Reach (batch factor : ℕ) : Bench → Bench → Type 0 where
  done : {s : Bench} → Reach batch factor s s
  step : {s t u : Bench} → Reach batch factor s t → Step batch factor t u → Reach batch factor s u

-- The counters agree with each other, `n` domains having been there at first.
record IsBalanced (n batch factor : ℕ) (s : Bench) : Type 0 where
  kept : length s.frontier.heap + s.frontier.claimed ≡ n + s.frontier.added
  claimed : s.frontier.claimed ≡ s.frontier.claim_calls * batch
  added : s.frontier.added ≡ s.frontier.submit_calls * (batch * factor)
  calls : s.frontier.submit_calls + s.waiting ≡ s.frontier.claim_calls

claim-IsBalanced :
    (n batch factor : ℕ) (s : Bench) (ds : List Domain) (f : FrontierCore)
    → claim_batch batch s.frontier ≡ (ok ds, f)
    → length ds ≡ batch
    → IsBalanced n batch factor s
    → IsBalanced n batch factor (record { frontier = f; waiting = s.waiting + 1 })
unfolding claim_batch
claim-IsBalanced n zero factor s ds f e h v = absurd cc
claim-IsBalanced n (suc b) factor s ds f e h v =
    let k = min (suc b) (length s.frontier.heap) in
    let (a, c) = length-pop k s.frontier.heap (omega arith) in
    let whole : length (pop k s.frontier.heap).0 ≡ suc b = ground (arith, h) in
    record {
      kept = ground (arith, v.kept, a, c);
      claimed = ground (arith, v.claimed, whole, add-mul s.frontier.claim_calls 1 (suc b));
      added = ground (arith, v.added);
      calls = ground (arith, v.calls);
    }

submit-IsBalanced :
    (n batch factor : ℕ) (s : Bench) (c r left : ℕ) (ds : List Domain)
    → s.waiting ≡ left + 1
    → length ds ≡ batch
    → IsBalanced n batch factor s
    → IsBalanced n batch factor (record {
      frontier = (submit_children (branch_domains c r factor ds).0 s.frontier).1;
      waiting = left;
    })
unfolding submit_children branch_domains
submit-IsBalanced n batch factor s c r left ds w h v =
    let new = all_children c r factor ds in
    let f : FrontierCore = record (s.frontier) {
      submit_calls = s.frontier.submit_calls + 1;
      added = s.frontier.added + length new;
    } in
    let (a, b, x, y, z) = push_domains_counters new f in
    let more : length new ≡ batch * factor =
      length-all_children c r factor ds ∙ ap (λ k. k * factor) h in
    record {
      kept = ground (arith, a, b, length-push_domains new f, v.kept);
      claimed = ground (arith, a, x, v.claimed);
      added =
          ground (arith, b, y, more, v.added, add-mul s.frontier.submit_calls 1 (batch * factor));
      calls = ground (arith, x, y, v.calls, w);
    }

Step-IsBalanced :
    (n batch factor : ℕ) (s t : Bench)
    → Step batch factor s t
    → IsBalanced n batch factor s
    → IsBalanced n batch factor t
Step-IsBalanced n batch factor _ _ (claim s ds f e h) v =
    claim-IsBalanced n batch factor s ds f e h v
Step-IsBalanced n batch factor _ _ (submit s c r left ds w h) v =
    submit-IsBalanced n batch factor s c r left ds w h v
Step-IsBalanced n batch factor _ _ (ask s) v =
    unfold size in record { kept = v.kept; claimed = v.claimed; added = v.added; calls = v.calls }

Reach-IsBalanced :
    (n batch factor : ℕ) (s t : Bench)
    → Reach batch factor s t
    → IsBalanced n batch factor s
    → IsBalanced n batch factor t
Reach-IsBalanced n batch factor s t done v = v
Reach-IsBalanced n batch factor s t (step p q) v =
    Step-IsBalanced n batch factor _ t q (Reach-IsBalanced n batch factor s _ p v)

abbrev pub bench : FrontierCore → Bench
bench f = record { frontier = f; waiting = 0 }

new_frontier-IsBalanced :
    (n batch factor : ℕ) (f : FrontierCore)
    → new_frontier n ≡ ok f
    → IsBalanced n batch factor (bench f)
unfolding new_frontier
new_frontier-IsBalanced zero batch factor f e = absurd cc
new_frontier-IsBalanced (suc n) batch factor f e =
    let empty : FrontierCore = record {
      heap = [];
      next_sequence = 0;
      claimed = 0;
      added = 0;
      claim_calls = 0;
      submit_calls = 0;
      size_calls = 0;
    } in
    let (a, b, x, y, z) = push_domains_counters (initial 0 (suc n)) empty in
    let many = length-push_domains (initial 0 (suc n)) empty in
    let all = length-initial 0 (suc n) in
    record {
      kept = ground (arith, a, b, many, all);
      claimed = ground (arith, a, x);
      added = ground (arith, b, y);
      calls = ground (arith, x, y);
    }

-- In every order of calls on a new frontier, of however many coordinators that claim batches and
-- submit the children of each batch that they hold: the domains that wait and those claimed add up to
-- the first ones and those added; `claimed` is a batch for each claim, and `added` a batch of children
-- for each submission; and the claims are the submissions and the batches in hand. So where no batch
-- is in hand, the sizes and counts are those that `validate_snapshot` computes from the number of
-- claims, and elsewhere they lack the children of the batches in hand. A claim that came short has
-- ended the run.
pub counts_balanced :
    (n batch factor : ℕ) (f : FrontierCore) (s : Bench)
    → new_frontier n ≡ ok f
    → Reach batch factor (bench f) s
    → let p = snapshot s.frontier in
      let e = expected n 1 p.claim_calls batch factor 0 in
      (p.frontier_size + p.claimed ≡ n + p.added)
      × (p.claimed ≡ e.claimed)
      × (p.added + s.waiting * (batch * factor) ≡ e.added)
      × (p.submit_calls + s.waiting ≡ e.submit_calls)
      × (p.frontier_size + s.waiting * (batch * factor) ≡ e.frontier_size)
unfolding expected
counts_balanced n batch factor f s e p =
    let v = Reach-IsBalanced n batch factor _ s p (new_frontier-IsBalanced n batch factor f e) in
    let whole : (s.frontier.submit_calls + s.waiting) * (batch * factor)
        ≡ s.frontier.claim_calls * batch * factor =
      ap (λ k. k * (batch * factor)) v.calls
      ∙ sym (mul_assoc s.frontier.claim_calls batch factor) in
    let all : s.frontier.added + s.waiting * (batch * factor)
        ≡ s.frontier.claim_calls * batch * factor =
      ground (arith, whole, v.added, add-mul s.frontier.submit_calls s.waiting (batch * factor)) in
    (
      v.kept,
      ground (arith, v.claimed),
      ground (arith, all),
      ground (arith, v.calls),
      ground (arith, v.kept, v.claimed, all),
    )
