-- ===== src/Frontier.antt =====
-- benchmarks/control_plane_compare.py: the shared frontier, an actor of the runtime, and the work of
-- a coordinator on it. `heapq` is used only to push, to pop the least entry and to count, so a list
-- in order stands for the heap.
pub mod Counting
pub mod Laws
pub mod Order
mod Tests
use rpc_freethread.Prelude.{
  ℕ, zero, suc, ◌+◌, ◌*◌, ◌/◌, ◌%◌, ◌^◌, ◌-◌, String, ◌<>◌, Bool, true, false, ◌&&◌, ◌||◌, List, [],
  ◌∷◌, ◌++◌, length, take, drop, min, map, ltb, leb, ◌==◌, if◌then◌else◌,
}
use rpc_freethread.Errors.{Error, Result, ok, err, value_error, runtime_error}
use rpc_freethread.Exec.{Exec, pure, raise, raise_if, gets, modify, ◌>>=◌, ◌>>◌}
use rpc_freethread.Protocol.Header.{decimal}

-- `x & MASK_63`
abbrev pub mask_63 : ℕ → ℕ
mask_63 x = x % 2 ^ 63

-- `Domain`: priority, depth, token
pub record Domain : Type 0 where
  pub priority : ℕ
  pub depth : ℕ
  pub token : ℕ

-- An entry of the heap. Entries have different sequence numbers, so the order of the tuples never
-- looks further than these.
pub record Entry : Type 0 where
  pub domain : Domain
  pub sequence : ℕ

abbrev pub before : Entry → Entry → Bool
before x y =
    ltb x.domain.priority y.domain.priority
    || (x.domain.priority == y.domain.priority && ltb x.sequence y.sequence)

-- `heapq.heappush`
unfoldable pub heappush : Entry → List Entry → List Entry
heappush x [] = x ∷ []
heappush x (y ∷ l) = let rest = heappush x l in if before x y then x ∷ y ∷ l else y ∷ rest

pub record FrontierCore : Type 0 where
  pub heap : List Entry
  pub next_sequence : ℕ
  pub claimed : ℕ
  pub added : ℕ
  pub claim_calls : ℕ
  pub submit_calls : ℕ
  pub size_calls : ℕ

-- `_push_domains`
unfoldable pub push_domains : List Domain → FrontierCore → FrontierCore
unfolding heappush
push_domains [] f = f
push_domains (d ∷ ds) f = push_domains ds (record f {
  heap = heappush (record { domain = d; sequence = f.next_sequence }) f.heap;
  next_sequence = f.next_sequence + 1;
})

-- `[... for token in range(n)]`, from `first` on
unfoldable pub initial : ℕ → ℕ → List Domain
initial first zero = []
initial first (suc n) =
    record { priority = mask_63 (first * 104729); depth = 0; token = first } ∷ initial (first + 1) n

-- `FrontierCore(initial_domains)`
unfoldable pub new_frontier : ℕ → Result FrontierCore
unfolding initial push_domains
new_frontier zero = err (value_error "initial_domains must be at least 1")
new_frontier (suc n) = ok (
    push_domains (initial 0 (suc n)) (record {
      heap = [];
      next_sequence = 0;
      claimed = 0;
      added = 0;
      claim_calls = 0;
      submit_calls = 0;
      size_calls = 0;
    }))

-- `heapq.heappop`, as many times as there are entries to take
unfoldable pub pop : ℕ → List Entry → List Domain × List Entry
pop zero l = ([], l)
pop (suc n) [] = ([], [])
pop (suc n) (x ∷ l) = let (ds, rest) = pop n l in (x.domain ∷ ds, rest)

-- `claim_batch`
unfoldable pub claim_batch : ℕ → Exec FrontierCore (List Domain)
unfolding pop
claim_batch zero f = (err (value_error "batch_size must be at least 1"), f)
claim_batch (suc b) f =
    let (ds, rest) = pop (min (suc b) (length f.heap)) f.heap in
    (
      ok ds,
      record f { heap = rest; claim_calls = f.claim_calls + 1; claimed = f.claimed + length ds },
    )

-- `submit_children`
unfoldable pub submit_children : List Domain → Exec FrontierCore ℕ
unfolding push_domains
submit_children domains f =
    let f' =
      push_domains domains
        (record f { submit_calls = f.submit_calls + 1; added = f.added + length domains }) in
    (ok (length f'.heap), f')

-- `size`
unfoldable pub size : Exec FrontierCore ℕ
size f = (ok (length f.heap), record f { size_calls = f.size_calls + 1 })

-- `x ^ y` on numbers below 2 ^ n
xor : ℕ → ℕ → ℕ → ℕ
xor zero x y = 0
xor (suc n) x y = (x % 2 + y % 2) % 2 + 2 * xor n (x / 2) (y / 2)

-- The children of one domain, for the branches from `index` on.
unfoldable pub children_of : ℕ → ℕ → Domain → ℕ → ℕ → List Domain
children_of coordinator round d index zero = []
children_of coordinator round d index (suc n) =
    let token = mask_63 (
      d.token * 6364136223846793005
      + coordinator * 1442695040888963407
      + round * 104729
      + index
      + 1) in
    record {
      priority = mask_63 (d.priority + token % 2 ^ 16 + (d.depth + 1) * 257 + index);
      depth = d.depth + 1;
      token = token;
    }
    ∷ children_of coordinator round d (index + 1) n

unfoldable pub all_children : ℕ → ℕ → ℕ → List Domain → List Domain
unfolding children_of
all_children coordinator round factor [] = []
all_children coordinator round factor (d ∷ ds) =
    children_of coordinator round d 0 factor ++ all_children coordinator round factor ds

unfoldable pub checksum_of : List Domain → ℕ
unfolding xor
checksum_of [] = 0
checksum_of (d ∷ ds) = xor 64 d.token (checksum_of ds)

-- `branch_domains`. The checksum does not depend on the order in which it is taken.
unfoldable pub branch_domains : ℕ → ℕ → ℕ → List Domain → List Domain × ℕ
unfolding all_children checksum_of
branch_domains coordinator round factor domains =
    let children = all_children coordinator round factor domains in (children, checksum_of children)

-- `snapshot`
pub record Snapshot : Type 0 where
  pub frontier_size : ℕ
  pub claimed : ℕ
  pub added : ℕ
  pub claim_calls : ℕ
  pub submit_calls : ℕ
  pub size_calls : ℕ

abbrev pub snapshot : FrontierCore → Snapshot
snapshot f = record {
  frontier_size = length f.heap;
  claimed = f.claimed;
  added = f.added;
  claim_calls = f.claim_calls;
  submit_calls = f.submit_calls;
  size_calls = f.size_calls;
}

-- `expected` of `validate_snapshot`, whose first field may be below zero in the source
abbrev size_calls_of : ℕ → ℕ → ℕ → ℕ
size_calls_of coordinators rounds zero = 0
size_calls_of coordinators rounds (suc q) = coordinators * (rounds / suc q)

unfoldable pub expected : ℕ → ℕ → ℕ → ℕ → ℕ → ℕ → Snapshot
expected initial_domains coordinators rounds batch_size branch_factor query_every =
    let claim_calls = coordinators * rounds in
    let claimed = claim_calls * batch_size in
    let added = claimed * branch_factor in
    record {
      frontier_size = initial_domains + added - claimed;
      claimed = claimed;
      added = added;
      claim_calls = claim_calls;
      submit_calls = claim_calls;
      size_calls = size_calls_of coordinators rounds query_every;
    }
