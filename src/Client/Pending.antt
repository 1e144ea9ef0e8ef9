-- ===== src/Client/Pending.antt =====
-- The pending map and the references that callers hold.
use rpc_freethread.Prelude.{
  ℕ, ◌<◌, String, true, false, ◌≡◌, refl, ap, ◌∙◌, none, some, List, [], ◌∷◌, arith, if◌then◌else◌,
  eq_iff, Bool-cases, inl, inr, All,
}
use rpc_freethread.Prelude.Dict.{Dict, get, values, NodupKeys}
use rpc_freethread.Errors.{ok, err, remote_error}
use rpc_freethread.Python.{Python}
use rpc_freethread.ObjectRef.{ready, outcome}
use rpc_freethread.Client.State.{Client}
use rpc_freethread.Client.Connection.{close_with_error}
use rpc_freethread.Client.Failing.{
  elem, Distinct, fail_refs, fail_refs_other, fail_refs_each, fail_all_lem, AllWaiting,
  AllWaiting-at,
}

-- The map holds references that wait, each under its own call id, and every reference that a caller
-- holds and that waits is in the map. A closed connection has no reference waiting.
pub record IsValid (held : List ℕ) (c : Client) : Type 0 where
  pub nodup : NodupKeys c.pending
  pub waiting :
      (id : String) (a : ℕ)
      → get id c.pending ≡ some a
      → (a < c.next_ref) × (ready (c.refs a) ≡ false) × ((c.refs a).call_id ≡ id)
  pub no_leak :
      (a : ℕ)
      → elem a held ≡ true
      → ready (c.refs a) ≡ false
      → get (c.refs a).call_id c.pending ≡ some a
  pub allocated : (a : ℕ) → elem a held ≡ true → a < c.next_ref
  pub emptied : c.closed ≡ true → (id : String) → get id c.pending ≡ none

-- The entries of a map, read from its list.
values-All :
    (P : ℕ → Type 0) (d : Dict ℕ)
    → NodupKeys d
    → ((id : String) (a : ℕ) → get id d ≡ some a → P a)
    → All P (values d)
unfolding values get
values-All P [] n h = tt
values-All P ((j, b) ∷ d) (fresh, n) h = (
  h j b (ground (arith, eq_iff j j)),
  values-All P d n (λ id a e. h id a (ground (arith, eq_iff j id))),
)

pub not-elem-values :
    (name : ℕ → String) (b : ℕ) (d : Dict ℕ)
    → NodupKeys d
    → get (name b) d ≡ none
    → ((id : String) (a : ℕ) → get id d ≡ some a → name a ≡ id)
    → elem b (values d) ≡ false
unfolding values get
not-elem-values name b [] n f h = refl
not-elem-values name b ((j, a) ∷ d) (fresh, n) f h =
    let own : name a ≡ j = h j a (ground (arith, eq_iff j j)) in
    let rest =
      not-elem-values name b d n (ground (arith, eq_iff j (name b)))
        (λ id x e. h id x (ground (arith, eq_iff j id))) in
    ground (arith, eq_iff j (name b))

values-Distinct :
    (name : ℕ → String) (d : Dict ℕ)
    → NodupKeys d
    → ((id : String) (a : ℕ) → get id d ≡ some a → name a ≡ id)
    → Distinct (values d)
unfolding values get
values-Distinct name [] n h = tt
values-Distinct name ((j, a) ∷ d) (fresh, n) h =
    let own : name a ≡ j = h j a (ground (arith, eq_iff j j)) in
    let inner : (id : String) (x : ℕ) → get id d ≡ some x → name x ≡ id =
      λ id x e. h id x (ground (arith, eq_iff j id)) in
    (not-elem-values name a d n (rw own fresh) inner, values-Distinct name d n inner)

pub elem-values : (id : String) (a : ℕ) (d : Dict ℕ) → get id d ≡ some a → elem a (values d) ≡ true
unfolding values get
elem-values id a [] h = cc
elem-values id a ((j, b) ∷ d) h = ground (arith, elem-values id a d)

module _ ⦃py : Python⦄ (t m : String) where
  -- The state that closing leaves.
  abbrev pub shut : Client → Client
  shut c = record c {
    closed = true;
    sock_open = false;
    pending = [];
    refs = fail_refs t m (values c.pending) c.refs;
  }

  module _ {held : List ℕ} (c : Client) (v : IsValid held c) where
    pub all_waiting : AllWaiting c.refs (values c.pending)
    all_waiting =
        values-All (λ a. ready (c.refs a) ≡ false) c.pending v.nodup
          (λ id a e. (v.waiting id a e).1)

    pub distinct : Distinct (values c.pending)
    distinct =
        values-Distinct (λ a. (c.refs a).call_id) c.pending v.nodup (λ id a e. (v.waiting id a e).2)

    pub close_open : c.closed ≡ false → close_with_error t m c ≡ (ok tt, shut c)
    unfolding close_with_error
    close_open open_now =
        let waiting = values c.pending in
        let c' = record c { closed = true; sock_open = false; pending = [] } in
        let run = fail_all_lem t m waiting c' distinct all_waiting in ground (arith, run)

    -- After closing, every reference that waited has failed with the given error, and every other
    -- one is as it was.
    shut_refs :
        (a : ℕ)
        → elem a held ≡ true
        → (ready (c.refs a) ≡ false)
        → (ready ((shut c).refs a) ≡ true) × (outcome ((shut c).refs a) ≡ err (remote_error t m))
    shut_refs a h w =
        let (done, _, error) =
          fail_refs_each t m (values c.pending) c.refs a distinct all_waiting
            (elem-values (c.refs a).call_id a c.pending (v.no_leak a h w)) in
        (done, error)

    shut-ready : (a : ℕ) → elem a held ≡ true → ready ((shut c).refs a) ≡ true
    shut-ready a h = elim (Bool-cases (ready (c.refs a))) [
      | inr waits ↦ (shut_refs a h waits).0
      | inl done ↦ elim (Bool-cases (elem a (values c.pending))) [
        | inl listed ↦
            (fail_refs_each t m (values c.pending) c.refs a distinct all_waiting listed).0
        | inr absent ↦ ap ready (fail_refs_other t m (values c.pending) c.refs a absent) ∙ done
      ]
    ]

    shut_kept : (a : ℕ) → ready (c.refs a) ≡ true → (shut c).refs a ≡ c.refs a
    shut_kept a done = elim (Bool-cases (elem a (values c.pending))) [
      | inl listed ↦ ground (arith, AllWaiting-at (values c.pending) c.refs a all_waiting listed)
      | inr absent ↦ fail_refs_other t m (values c.pending) c.refs a absent
    ]

    shut-IsValid : IsValid held (shut c)
    unfolding get
    shut-IsValid = record {
      nodup = tt;
      waiting = λ id a e. cc;
      no_leak = λ a h w. ground (arith, shut-ready a h);
      allocated = v.allocated;
      emptied = λ _ id. refl;
    }

  close_closed : (c : Client) → c.closed ≡ true → close_with_error t m c ≡ (ok tt, c)
  unfolding close_with_error
  close_closed c h = ground arith

  close-IsValid :
      {held : List ℕ} (c : Client) → IsValid held c → IsValid held (close_with_error t m c).1
  close-IsValid c v = elim (Bool-cases c.closed) [
    | inl shut_already ↦ rw (close_closed c shut_already) v
    | inr open_now ↦ rw (close_open c v open_now) (shut-IsValid c v)
  ]

  -- Closing a connection that is open and whose bookkeeping is in order completes every reference
  -- that its callers hold: one that was waiting has failed with the error that closing was given,
  -- and the outcome of any other is what it was. The bookkeeping is in order if every waiting
  -- reference that a caller holds is in the map, so this leaves out a call whose response had an `ok`
  -- field that is no boolean. Closing runs without another thread in between. To close again, for
  -- whatever reason, changes nothing.
  pub close_completes_all :
      (held : List ℕ) (c : Client) (a : ℕ) (again why : String)
      → IsValid held c
      → c.closed ≡ false
      → elem a held ≡ true
      → let (r, c') = close_with_error t m c in
        (r ≡ ok tt)
        × (c'.closed ≡ true)
        × IsValid held c'
        × (ready (c'.refs a) ≡ true)
        × (outcome (c'.refs a)
            ≡ (if ready (c.refs a) then outcome (c.refs a) else err (remote_error t m)))
        × (close_with_error again why c' ≡ (ok tt, c'))
  close_completes_all held c a again why v open_now h = rw (close_open c v open_now) (
    refl,
    refl,
    shut-IsValid c v,
    shut-ready c v a h,
    elim (Bool-cases (ready (c.refs a))) [
      | inl done ↦ rw done (ap outcome (shut_kept c v a done))
      | inr waits ↦ rw waits ((shut_refs c v a h waits).1)
    ],
    unfold close_with_error in refl,
  )
