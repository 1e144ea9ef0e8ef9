-- ===== src/Client/Kept.antt =====
-- Where the references of calls are, while the threads of a client interleave at its locks.
use rpc_freethread.Prelude.{
  ℕ, ◌<◌, String, Bool, true, false, ◌≡◌, sym, subst, none, some, List, ◌⊎◌, inl, inr, arith, ◌==◌,
  if◌then◌else◌, Bool-cases,
}
use rpc_freethread.Prelude.Dict.{Dict, get}
use rpc_freethread.ObjectRef.{ObjectRef, ready}
use rpc_freethread.Client.State.{Client, update}
use rpc_freethread.Client.Failing.{elem}
use rpc_freethread.Client.Callers.{Hand, carries, withdraws, is_closing}

-- A reference is completed, or in the map under its call id, or in the hands of a thread that will
-- complete it, or was dropped.
pub data Where (refs : ℕ → ObjectRef) (pending : Dict ℕ) (hands : ℕ → Hand) (dropped : List ℕ)
    (a : ℕ) : Type 0 where
  completed : ready (refs a) ≡ true → Where refs pending hands dropped a
  listed : get (refs a).call_id pending ≡ some a → Where refs pending hands dropped a
  carried : (i : ℕ) → carries a (hands i) ≡ true → Where refs pending hands dropped a
  let_go : elem a dropped ≡ true → Where refs pending hands dropped a

-- The thread that closed the connection is about to take the map, or the map is empty.
pub data Emptied (pending : Dict ℕ) (hands : ℕ → Hand) : Type 0 where
  soon : (i : ℕ) → is_closing (hands i) ≡ true → Emptied pending hands
  empty : ((id : String) → get id pending ≡ none) → Emptied pending hands

-- `live` are the references that calls have returned, and that of the call that is being sent.
pub record Kept (c : Client) (live : List ℕ) (hands : ℕ → Hand) (dropped : List ℕ) : Type 0 where
  pub names :
      (a b : ℕ) → a < c.next_ref → b < c.next_ref → (c.refs a).call_id ≡ (c.refs b).call_id → a ≡ b
  pub mapped :
      (id : String) (a : ℕ)
      → get id c.pending ≡ some a
      → (a < c.next_ref) × ((c.refs a).call_id ≡ id)
  pub allocated : (a : ℕ) → elem a live ≡ true → a < c.next_ref
  pub private : (i a : ℕ) → withdraws a (hands i) ≡ true → (a < c.next_ref) × (elem a live ≡ false)
  pub placed : (a : ℕ) → elem a live ≡ true → Where c.refs c.pending hands dropped a
  pub shut : c.closed ≡ true → Emptied c.pending hands

-- Either hand of an update.
pub pick :
    (p : Hand → Bool) (b : Bool) (x y : Hand)
    → p (if b then x else y) ≡ true
    → (p x ≡ true) ⊎ (p y ≡ true)
pick p true x y h = inl h
pick p false x y h = inr h

stay :
    (p : Hand → Bool) (b : Bool) (x y : Hand)
    → b ≡ false
    → p y ≡ true
    → p (if b then x else y) ≡ true
stay p true x y e h = cc
stay p false x y e h = h

put_in :
    (p : Hand → Bool) (b : Bool) (x y : Hand)
    → b ≡ true
    → p x ≡ true
    → p (if b then x else y) ≡ true
put_in p true x y e h = h
put_in p false x y e h = cc

same_index : (i j : ℕ) → (i == j) ≡ true → i ≡ j
same_index i j h = ground arith

-- A hand that is as before, or the one that changed.
pub kept_or :
    (p : Hand → Bool) (hands : ℕ → Hand) (i j : ℕ) (h : Hand)
    → p (hands j) ≡ true
    → (p (hands i) ≡ true) ⊎ (p (update hands i h j) ≡ true)
kept_or p hands i j h k = elim (Bool-cases (i == j)) [
  | inl e ↦ inl (subst (λ x. p (hands x) ≡ true) (sym (same_index i j e)) k)
  | inr e ↦ inr (stay p (i == j) h (hands j) e k)
]

pub here :
    (p : Hand → Bool) (hands : ℕ → Hand) (i : ℕ) (h : Hand)
    → p h ≡ true
    → p (update hands i h i) ≡ true
here p hands i h k = put_in p (i == i) h (hands i) (ground arith) k

-- One thread goes on, and references may be completed.
pub advance :
    (c : Client) (refs : ℕ → ObjectRef) (live dropped dropped' : List ℕ) (hands : ℕ → Hand) (i : ℕ)
    (h : Hand)
    → Kept c live hands dropped
    → ((b : ℕ) → (refs b).call_id ≡ (c.refs b).call_id)
    → ((b : ℕ) → ready (c.refs b) ≡ true → ready (refs b) ≡ true)
    → ((b : ℕ)
        → carries b (hands i) ≡ true
        → (ready (refs b) ≡ true) ⊎ ((carries b h ≡ true) ⊎ (elem b dropped' ≡ true)))
    → ((b : ℕ) → elem b dropped ≡ true → elem b dropped' ≡ true)
    → is_closing (hands i) ≡ false
    → ((b : ℕ) → withdraws b h ≡ true → (b < c.next_ref) × (elem b live ≡ false))
    → Kept (record c { refs = refs }) live (update hands i h) dropped'
advance c refs live dropped dropped' hands i h v names done carry keep open_now own = record {
  names = λ a b p q e. ground (arith, v.names a b p q, names a, names b, e);
  mapped = λ id a e. ground (arith, v.mapped id a e, names a);
  allocated = v.allocated;
  private = λ j a e. elim (pick (withdraws a) (i == j) h (hands j) e) [
    | inl k ↦ own a k
    | inr k ↦ v.private j a k
  ];
  placed = λ a e. elim (v.placed a e) [
    | completed k ↦ completed (done a k)
    | listed k ↦ listed (ground (arith, k, names a))
    | carried j k ↦ elim (kept_or (carries a) hands i j h k) [
      | inr g ↦ carried j g
      | inl g ↦ elim (carry a g) [
        | inl r ↦ completed r
        | inr (inl r) ↦ carried i (here (carries a) hands i h r)
        | inr (inr r) ↦ let_go r
      ]
    ]
    | let_go k ↦ let_go (keep a k)
  ];
  shut = λ e. elim (v.shut e) [
    | soon j k ↦ elim (kept_or is_closing hands i j h k) [
      | inl g ↦ absurd (let o = open_now in cc)
      | inr g ↦ soon j g
    ]
    | empty k ↦ empty k
  ];
}
