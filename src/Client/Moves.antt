-- ===== src/Client/Moves.antt =====
-- What the sections of a client's threads do to the places of its references.
use rpc_freethread.Prelude.{
  ℕ, ◌+◌, ◌<◌, String, true, false, ◌≡◌, refl, subst, some, List, [], ◌∷◌, ◌⊎◌, inl, inr, arith,
  ◌==◌, Bool-cases, eq_iff, str_eq,
}
use rpc_freethread.Prelude.Dict.{get, put, remove, values, get-put, get-remove}
use rpc_freethread.Python.{Python}
use rpc_freethread.ObjectRef.{ObjectRef, Completion, complete, new_ref, ready}
use rpc_freethread.ObjectRef.Once.{complete_first, complete_again}
use rpc_freethread.Client.State.{Client, update}
use rpc_freethread.Client.Failing.{elem}
use rpc_freethread.Client.Pending.{elem-values}
use rpc_freethread.Client.Callers.{Hand, IsFresh, carries, withdraws, is_closing}
use rpc_freethread.Client.Kept.{
  Kept, completed, listed, carried, let_go, soon, empty, advance, kept_or, here, pick,
}

module _ (c : Client) (live dropped : List ℕ) (hands : ℕ → Hand)
    (v : Kept c live hands dropped) where
  -- A new reference, which nobody has yet.
  pub allocated-Kept :
      (id : String)
      → IsFresh id c
      → Kept
          (record c { refs = update c.refs c.next_ref (new_ref id); next_ref = c.next_ref + 1 })
          live
          hands
          dropped
  allocated-Kept id fresh = record {
    names = λ a b p q e. ground (arith, v.names a b, fresh a, fresh b, e);
    mapped = λ j a e. ground (arith, v.mapped j a e);
    allocated = λ a e. ground (arith, v.allocated a e);
    private = λ j a e. let (p, q) = v.private j a e in (omega arith, q);
    placed = λ a e.
        let old = v.allocated a e in
        elim (v.placed a e) [
          | completed k ↦ completed (ground (arith, k))
          | listed k ↦ listed (ground (arith, k))
          | carried j k ↦ carried j k
          | let_go k ↦ let_go k
        ];
    shut = v.shut;
  }

  -- A call is registered.
  pub registered-Kept :
      (id : String)
      → IsFresh id c
      → c.closed ≡ false
      → Kept
          (record c {
            refs = update c.refs c.next_ref (new_ref id);
            next_ref = c.next_ref + 1;
            pending = put id c.next_ref c.pending;
          })
          (c.next_ref ∷ live)
          hands
          dropped
  registered-Kept id fresh open_now = record {
    names = λ a b p q e. ground (arith, v.names a b, fresh a, fresh b, e);
    mapped =
        λ j a e. ground (arith, v.mapped j a, get-put id j c.next_ref c.pending, eq_iff id j, e);
    allocated = λ a e. ground (arith, v.allocated a, e);
    private = λ j a e. let (p, q) = v.private j a e in (omega arith, ground arith);
    placed = λ a e. elim (Bool-cases (c.next_ref == a)) [
      | inl k ↦ listed (ground (arith, get-put id id c.next_ref c.pending, eq_iff id id))
      | inr k ↦
          let was : elem a live ≡ true = ground arith in
          let old = v.allocated a was in
          elim (v.placed a was) [
            | completed g ↦ completed (ground (arith, g))
            | listed g ↦
                let other = fresh a old in
                listed (
                  ground (
                    arith,
                    get-put id (c.refs a).call_id c.next_ref c.pending,
                    eq_iff id (c.refs a).call_id,
                  ))
            | carried j g ↦ carried j g
            | let_go g ↦ let_go g
          ]
    ];
    shut = λ e. absurd cc;
  }

  -- A call leaves the map, if it is in the hands of a thread or was not sent.
  pub removed-Kept :
      (id : String)
      → ((b : ℕ)
          → elem b live ≡ true
          → get id c.pending ≡ some b
          → (j : ℕ) × (carries b (hands j) ≡ true))
      → Kept (record c { pending = remove id c.pending }) live hands dropped
  removed-Kept id safe = record {
    names = v.names;
    mapped = λ j a e. ground (arith, v.mapped j a, get-remove id j c.pending, e);
    allocated = v.allocated;
    private = v.private;
    placed = λ a e. elim (v.placed a e) [
      | completed k ↦ completed k
      | listed k ↦ elim (Bool-cases (str_eq id (c.refs a).call_id)) [
        | inl g ↦
            let (j, q) = safe a e (ground (arith, k, eq_iff id (c.refs a).call_id)) in carried j q
        | inr g ↦ listed (ground (arith, k, get-remove id (c.refs a).call_id c.pending))
      ]
      | carried j k ↦ carried j k
      | let_go k ↦ let_go k
    ];
    shut = λ e. elim (v.shut e) [
      | soon j k ↦ soon j k
      | empty k ↦ empty (λ j. ground (arith, k j, get-remove id j c.pending))
    ];
  }

  -- The thread that closes the connection marks it, and takes the map.
  pub marked-Kept :
      (i : ℕ)
      → is_closing (hands i) ≡ true
      → Kept (record c { closed = true; sock_open = false }) live hands dropped
  marked-Kept i h = record {
    names = v.names;
    mapped = v.mapped;
    allocated = v.allocated;
    private = v.private;
    placed = v.placed;
    shut = λ _. soon i h;
  }

  pub taken-Kept :
      (i : ℕ) (t m : String)
      → hands i ≡ Hand.closing t m
      → Kept
          (record c { pending = [] })
          live
          (update hands i (Hand.failing t m (values c.pending)))
          dropped
  unfolding get
  taken-Kept i t m h = record {
    names = v.names;
    mapped = λ j a e. absurd cc;
    allocated = v.allocated;
    private = λ j a e.
        elim (pick (withdraws a) (i == j) (Hand.failing t m (values c.pending)) (hands j) e) [
          | inl k ↦ absurd cc
          | inr k ↦ v.private j a k
        ];
    placed = λ a e. elim (v.placed a e) [
      | completed k ↦ completed k
      | listed k ↦ carried i (
          here (carries a) hands i (Hand.failing t m (values c.pending))
            (elem-values (c.refs a).call_id a c.pending k))
      | carried j k ↦ elim (kept_or (carries a) hands i j (Hand.failing t m (values c.pending)) k) [
        | inl g ↦ absurd (let no = subst (λ x. carries a x ≡ true) h g in cc)
        | inr g ↦ carried j g
      ]
      | let_go k ↦ let_go k
    ];
    shut = λ _. empty (λ id. refl);
  }

  -- One thread goes on, and no reference changes.
  pub moved-Kept :
      (i : ℕ) (h : Hand) (dropped' : List ℕ)
      → ((b : ℕ) → carries b (hands i) ≡ true → (carries b h ≡ true) ⊎ (elem b dropped' ≡ true))
      → ((b : ℕ) → elem b dropped ≡ true → elem b dropped' ≡ true)
      → is_closing (hands i) ≡ false
      → ((b : ℕ) → withdraws b h ≡ true → (b < c.next_ref) × (elem b live ≡ false))
      → Kept c live (update hands i h) dropped'
  moved-Kept i h dropped' carry keep open_now own =
      advance c c.refs live dropped dropped' hands i h v (λ b. refl) (λ b k. k)
        (λ b k. inr (carry b k)) keep open_now own

module _ ⦃py : Python⦄ where
  completion :
      (k : Completion) (r : ObjectRef)
      → (ready (complete k r).1 ≡ true) × ((complete k r).1.call_id ≡ r.call_id)
  completion k r = elim (Bool-cases (ready r)) [
    | inl done ↦ rw (complete_again k r done) (done, refl)
    | inr waits ↦ let (_, p, q, _) = complete_first k r waits in (p, q)
  ]

  -- One thread goes on, and completes a reference, or finds it complete.
  pub completed-Kept :
      (c : Client) (live dropped dropped' : List ℕ) (hands : ℕ → Hand) (i a : ℕ) (k : Completion)
      (h : Hand)
      → Kept c live hands dropped
      → ((b : ℕ)
          → carries b (hands i) ≡ true
          → (a == b) ≡ false
          → (carries b h ≡ true) ⊎ (elem b dropped' ≡ true))
      → ((b : ℕ) → elem b dropped ≡ true → elem b dropped' ≡ true)
      → is_closing (hands i) ≡ false
      → ((b : ℕ) → withdraws b h ≡ false)
      → Kept
          (record c { refs = update c.refs a (complete k (c.refs a)).1 })
          live
          (update hands i h)
          dropped'
  completed-Kept c live dropped dropped' hands i a k h v carry keep open_now own =
      let (over, name) = completion k (c.refs a) in
      advance c (update c.refs a (complete k (c.refs a)).1) live dropped dropped' hands i h v
        (λ b. ground (arith, name)) (λ b e. ground (arith, over, e))
        (λ b e. elim (Bool-cases (a == b)) [
          | inl same ↦ inl (ground (arith, over))
          | inr other ↦ inr (carry b e other)
        ])
        keep open_now (λ b e. absurd (let no = own b in cc))
