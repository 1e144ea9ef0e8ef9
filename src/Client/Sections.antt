-- ===== src/Client/Sections.antt =====
-- What each section of a client's threads does to the places of its references.
use rpc_freethread.Prelude.{
  ℕ, String, ◌<◌, Bool, true, false, ◌≡◌, refl, sym, ap, ◌∙◌, subst, none, some, List, ◌∷◌, ◌++◌,
  ◌⊎◌, inl, inr, arith, ◌==◌,
}
use rpc_freethread.Prelude.Dict.{get, remove}
use rpc_freethread.Value.{nothing, Fields, field_or}
use rpc_freethread.Python.{Python}
use rpc_freethread.Protocol.Socket.{Sock}
use rpc_freethread.ObjectRef.{Completion, error_is, complete, set_error}
use rpc_freethread.Client.State.{Client, update, on_ref}
use rpc_freethread.Client.Connection.{take_pending, deliver, fail_unless}
use rpc_freethread.Client.Failing.{elem}
use rpc_freethread.Client.Responses.{
  reported, is_boolean, boolean_of, deliver-reported, deliver_unreadable_at,
}
use rpc_freethread.Client.Parts.{elem-append}
use rpc_freethread.Client.Callers.{Hand, carries, withdraws, is_closing}
use rpc_freethread.Client.Kept.{Kept, here}
use rpc_freethread.Client.Moves.{removed-Kept, moved-Kept, completed-Kept}

pub sock-Kept :
    (c : Client) (sock : Sock) (live dropped : List ℕ) (hands : ℕ → Hand)
    → Kept c live hands dropped
    → Kept (record c { sock = sock }) live hands dropped
sock-Kept c sock live dropped hands v = record {
  names = v.names;
  mapped = v.mapped;
  allocated = v.allocated;
  private = v.private;
  placed = v.placed;
  shut = v.shut;
}

-- The reference of a call that was not sent is no longer tracked.
pub untracked-Kept :
    (c : Client) (a : ℕ) (live dropped : List ℕ) (hands : ℕ → Hand)
    → Kept c (a ∷ live) hands dropped
    → Kept c live hands dropped
untracked-Kept c a live dropped hands v = record {
  names = v.names;
  mapped = v.mapped;
  allocated = λ b e. v.allocated b (ground arith);
  private = λ i b e. let (p, q) = v.private i b e in (p, ground arith);
  placed = λ b e. v.placed b (ground arith);
  shut = v.shut;
}

-- A thread that carries nothing goes on.
pub goes_on :
    (c : Client) (live dropped : List ℕ) (hands : ℕ → Hand) (i : ℕ) (x h : Hand)
    → Kept c live hands dropped
    → hands i ≡ x
    → ((b : ℕ) → carries b x ≡ false)
    → is_closing x ≡ false
    → ((b : ℕ) → withdraws b h ≡ true → (b < c.next_ref) × (elem b live ≡ false))
    → Kept c live (update hands i h) dropped
goes_on c live dropped hands i x h v e free shut own =
    moved-Kept c live dropped hands v i h dropped
      (λ b k. absurd (let was = ap (carries b) e in let n = free b in cc)) (λ b k. k)
      (ap is_closing e ∙ shut) own

module _ ⦃py : Python⦄ where
  -- A thread completes the reference that it has in hand, and goes on.
  completes :
      (c : Client) (live dropped dropped' : List ℕ) (hands : ℕ → Hand) (i a : ℕ) (k : Completion)
      (x h : Hand)
      → Kept c live hands dropped
      → hands i ≡ x
      → ((b : ℕ)
          → carries b x ≡ true
          → (a == b) ≡ false
          → (carries b h ≡ true) ⊎ (elem b dropped' ≡ true))
      → ((b : ℕ) → elem b dropped ≡ true → elem b dropped' ≡ true)
      → is_closing x ≡ false
      → ((b : ℕ) → withdraws b h ≡ false)
      → Kept
          (record c { refs = update c.refs a (complete k (c.refs a)).1 })
          live
          (update hands i h)
          dropped'
  completes c live dropped dropped' hands i a k x h v e carry keep shut own =
      completed-Kept c live dropped dropped' hands i a k h v
        (λ b g. carry b (sym (ap (carries b) e) ∙ g)) keep (ap is_closing e ∙ shut) own

  pub report-Kept :
      (b : Bool) (c : Client) (live dropped : List ℕ) (hands : ℕ → Hand) (i a : ℕ)
      → Kept c live hands dropped
      → hands i ≡ Hand.looked a b
      → Kept (fail_unless b a c).1 live (update hands i Hand.idle) dropped
  unfolding on_ref
  report-Kept true c live dropped hands i a v e =
      goes_on c live dropped hands i (Hand.looked a true) Hand.idle v e (λ b. refl) refl
        (λ b k. absurd cc)
  report-Kept false c live dropped hands i a v e =
      completes c live dropped dropped hands i a
        (error_is "ConnectionError" "failed to send remote call") (Hand.looked a false) Hand.idle v
        e (λ b k d. absurd cc) (λ b k. k) refl (λ b. refl)

  pub complete-Kept :
      (c : Client) (live dropped : List ℕ) (hands : ℕ → Hand) (i a : ℕ) (fs : Fields)
      → Kept c live hands dropped
      → hands i ≡ Hand.delivering a fs
      → is_boolean (field_or nothing "ok" fs) ≡ true
      → Kept (deliver a fs c).1 live (update hands i Hand.idle) dropped
  unfolding on_ref
  complete-Kept c live dropped hands i a fs v e h =
      let (b, flag) = boolean_of (field_or nothing "ok" fs) h in
      subst (λ q. Kept q.1 live (update hands i Hand.idle) dropped)
        (sym (deliver-reported c fs a b flag))
        (completes c live dropped dropped hands i a (reported b fs) (Hand.delivering a fs) Hand.idle
          v e (λ x k d. absurd cc) (λ x k. k) refl (λ x. refl))

  pub drop-Kept :
      (c : Client) (live dropped : List ℕ) (hands : ℕ → Hand) (i a : ℕ) (fs : Fields)
      → Kept c live hands dropped
      → hands i ≡ Hand.delivering a fs
      → is_boolean (field_or nothing "ok" fs) ≡ false
      → Kept (deliver a fs c).1 live (update hands i Hand.idle) (a ∷ dropped)
  drop-Kept c live dropped hands i a fs v e h =
      subst (λ q. Kept q.1 live (update hands i Hand.idle) (a ∷ dropped))
        (sym (deliver_unreadable_at c fs a _ refl h))
        (moved-Kept c live dropped hands v i Hand.idle (a ∷ dropped)
          (λ b k. inr (let was = sym (ap (carries b) e) ∙ k in ground arith)) (λ b k. ground arith)
          (ap is_closing e) (λ b k. absurd cc))

  pub fail_one-Kept :
      (c : Client) (live dropped : List ℕ) (hands : ℕ → Hand) (i a : ℕ) (t m : String) (l : List ℕ)
      → Kept c live hands dropped
      → hands i ≡ Hand.failing t m (a ∷ l)
      → Kept (on_ref a (set_error t m) c).1 live (update hands i (Hand.failing t m l)) dropped
  unfolding on_ref
  fail_one-Kept c live dropped hands i a t m l v e =
      completes c live dropped dropped hands i a (error_is t m) (Hand.failing t m (a ∷ l))
        (Hand.failing t m l) v e (λ b k d. inl (ground arith)) (λ b k. k) refl (λ b. refl)

  pub fail_stop-Kept :
      (c : Client) (live dropped : List ℕ) (hands : ℕ → Hand) (i a : ℕ) (t m : String) (l : List ℕ)
      → Kept c live hands dropped
      → hands i ≡ Hand.failing t m (a ∷ l)
      → Kept (on_ref a (set_error t m) c).1 live (update hands i Hand.idle) (l ++ dropped)
  unfolding on_ref
  fail_stop-Kept c live dropped hands i a t m l v e =
      completes c live dropped (l ++ dropped) hands i a (error_is t m) (Hand.failing t m (a ∷ l))
        Hand.idle v e (λ b k d. inr (ground (arith, elem-append b l dropped)))
        (λ b k. ground (arith, elem-append b l dropped)) refl (λ b. refl)

  -- The pop of a call that was not sent takes nobody else's call from the map.
  pub pop-Kept :
      (c : Client) (live dropped : List ℕ) (hands : ℕ → Hand) (i a : ℕ)
      → Kept c live hands dropped
      → hands i ≡ Hand.withdrawing a
      → Kept
          (record c { pending = remove (c.refs a).call_id c.pending })
          live
          (update hands i (Hand.withdrawn a))
          dropped
  pop-Kept c live dropped hands i a v e =
      let (old, alone) = v.private i a (ap (withdraws a) e ∙ ground arith) in
      let w = removed-Kept c live dropped hands v (c.refs a).call_id λ b k found. absurd (
        let (p, q) = v.mapped (c.refs a).call_id b found in
        let same = v.names b a p old q in
        let there = subst (λ x. elem x live ≡ true) same k in cc) in
      goes_on _ live dropped hands i (Hand.withdrawing a) (Hand.withdrawn a) w e (λ b. refl) refl
        (λ b k. absurd cc)

  pub take-Kept :
      (c : Client) (live dropped : List ℕ) (hands : ℕ → Hand) (i a : ℕ) (id : String) (fs : Fields)
      → Kept c live hands dropped
      → hands i ≡ Hand.idle
      → get id c.pending ≡ some a
      → Kept (take_pending id c).1 live (update hands i (Hand.delivering a fs)) dropped
  unfolding take_pending
  take-Kept c live dropped hands i a id fs v e found =
      let w =
        goes_on c live dropped hands i Hand.idle (Hand.delivering a fs) v e (λ b. refl) refl
          (λ b k. absurd cc) in
      let next =
        removed-Kept c live dropped (update hands i (Hand.delivering a fs)) w id λ b k g.
          (i, here (carries b) hands i (Hand.delivering a fs) (ground (arith, found, g))) in
      rw (found, take_pending) next

  pub unknown-Kept :
      (c : Client) (live dropped : List ℕ) (hands : ℕ → Hand) (id : String)
      → Kept c live hands dropped
      → get id c.pending ≡ none
      → Kept (take_pending id c).1 live hands dropped
  unfolding take_pending
  unknown-Kept c live dropped hands id v missing =
      let next = removed-Kept c live dropped hands v id (λ b k g. absurd cc) in
      rw (missing, take_pending) next
