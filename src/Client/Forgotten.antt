-- ===== src/Client/Forgotten.antt =====
-- No call of a client is forgotten, however its threads interleave at their locks.
use rpc_freethread.Prelude.{
  ℕ, true, false, ◌≡◌, refl, sym, ap, subst, Option, none, some, List, [], ◌∷◌, ◌⊎◌, inl, inr,
  arith, Bool-cases,
}
use rpc_freethread.Prelude.Dict.{get}
use rpc_freethread.Errors.{ok}
use rpc_freethread.Value.{Value}
use rpc_freethread.Python.{Python}
use rpc_freethread.Protocol.Socket.{Sock}
use rpc_freethread.Protocol.{write_frame}
use rpc_freethread.Client.State.{Client, new_client, update, allocate, on_sock}
use rpc_freethread.Client.Failing.{elem}
use rpc_freethread.Client.Requests.{on_sock_lem}
use rpc_freethread.Client.Callers.{Callers, Hand, Step, Reach, is_closing}
use rpc_freethread.Client.Kept.{Kept, Where, Emptied, here}
use rpc_freethread.Client.Moves.{allocated-Kept, registered-Kept, marked-Kept, taken-Kept}
use rpc_freethread.Client.Sections.{
  sock-Kept, untracked-Kept, goes_on, report-Kept, complete-Kept, drop-Kept, fail_one-Kept,
  fail_stop-Kept, pop-Kept, take-Kept, unknown-Kept,
}

-- The references that calls have returned, and that of the call that is being sent.
abbrev tracked : Option (ℕ × List ℕ) → List ℕ → List ℕ
tracked none held = held
tracked (some (a, payload)) held = a ∷ held

tracked_held :
    (o : Option (ℕ × List ℕ)) (a : ℕ) (held : List ℕ)
    → elem a held ≡ true
    → elem a (tracked o held) ≡ true
tracked_held none a held h = h
tracked_held (some (b, payload)) a held h = ground arith

record IsSafe (s : Callers) : Type 0 where
  kept : Kept s.client (tracked s.sending s.held) s.hands s.dropped
  apart : (a : ℕ) (p : List ℕ) → s.sending ≡ some (a, p) → elem a s.held ≡ false

-- The invariant, where it is known whether a call is being sent.
kept_at :
    (s : Callers) (o : Option (ℕ × List ℕ))
    → s.sending ≡ o
    → IsSafe s
    → Kept s.client (tracked o s.held) s.hands s.dropped
kept_at s o e v = subst (λ q. Kept s.client (tracked q s.held) s.hands s.dropped) e v.kept

not_listed :
    (c : Client) (live dropped : List ℕ) (hands : ℕ → Hand)
    → Kept c live hands dropped
    → elem c.next_ref live ≡ false
not_listed c live dropped hands v = elim (Bool-cases (elem c.next_ref live)) [
  | inr h ↦ h
  | inl h ↦ absurd (let k = v.allocated c.next_ref h in omega arith)
]

module _ ⦃py : Python⦄ where
  frame_sent :
      (c : Client) (payload live dropped : List ℕ) (hands : ℕ → Hand)
      → Kept c live hands dropped
      → Kept (on_sock (write_frame c.max_frame_size payload) c).1 live hands dropped
  frame_sent c payload live dropped hands v =
      let (r, sock, e) = on_sock_lem (write_frame c.max_frame_size payload) c in
      subst (λ q. Kept q.1 live hands dropped) (sym e) (sock-Kept c sock live dropped hands v)

  next_same :
      (c : Client) (payload : List ℕ)
      → (on_sock (write_frame c.max_frame_size payload) c).1.next_ref ≡ c.next_ref
  next_same c payload =
      let (r, sock, e) = on_sock_lem (write_frame c.max_frame_size payload) c in
      ap (λ q. q.1.next_ref) e

  Step-IsSafe : (s t : Callers) → Step s t → IsSafe s → IsSafe t
  unfolding allocate
  Step-IsSafe _ _ (Step.unencoded s id fresh) v = record {
    kept = allocated-Kept s.client (tracked s.sending s.held) s.dropped s.hands v.kept id fresh;
    apart = v.apart;
  }
  Step-IsSafe _ _ (Step.refuse s i id fresh e h) v =
      let live = tracked s.sending s.held in
      let new = not_listed s.client live s.dropped s.hands v.kept in
      record {
        kept =
            goes_on _ live s.dropped s.hands i Hand.idle (Hand.withdrawing s.client.next_ref)
              (allocated-Kept s.client live s.dropped s.hands v.kept id fresh) e (λ b. refl) refl
              (λ b k. ground (arith, new));
        apart = v.apart;
      }
  Step-IsSafe _ _ (Step.register s id payload fresh h e) v =
      let w = kept_at s none e v in
      let new = not_listed s.client s.held s.dropped s.hands w in
      record {
        kept = registered-Kept s.client s.held s.dropped s.hands w id fresh h;
        apart = λ a p k. ground (arith, new, k);
      }
  Step-IsSafe _ _ (Step.written s a payload e h) v = record {
    kept = frame_sent s.client payload _ s.dropped s.hands (kept_at s _ e v);
    apart = λ b p k. absurd cc;
  }
  Step-IsSafe _ _ (Step.unwritten s i a payload x e g h) v =
      let w = kept_at s (some (a, payload)) e v in
      let live = untracked-Kept s.client a s.held s.dropped s.hands w in
      let old = w.allocated a (ground arith) in
      let out = v.apart a payload e in
      record {
        kept =
            goes_on _ s.held s.dropped s.hands i Hand.idle (Hand.withdrawing a)
              (frame_sent s.client payload s.held s.dropped s.hands live) g (λ b. refl) refl
              (λ b k. ground (arith, old, out, next_same s.client payload));
        apart = λ b p k. absurd cc;
      }
  Step-IsSafe _ _ (Step.pop s i a e) v = record {
    kept = pop-Kept s.client _ s.dropped s.hands i a v.kept e;
    apart = v.apart;
  }
  Step-IsSafe _ _ (Step.look s i a e) v = record {
    kept =
        goes_on s.client _ s.dropped s.hands i (Hand.withdrawn a) _ v.kept e (λ b. refl) refl
          (λ b k. absurd cc);
    apart = v.apart;
  }
  Step-IsSafe _ _ (Step.report s i a is_done e) v = record {
    kept = report-Kept is_done s.client _ s.dropped s.hands i a v.kept e;
    apart = v.apart;
  }
  Step-IsSafe _ _ (Step.read s sock) v = record {
    kept = sock-Kept s.client sock _ s.dropped s.hands v.kept;
    apart = v.apart;
  }
  Step-IsSafe _ _ (Step.unknown s id h) v = record {
    kept = unknown-Kept s.client _ s.dropped s.hands id v.kept h;
    apart = v.apart;
  }
  Step-IsSafe _ _ (Step.take s i a id fs e found) v = record {
    kept = take-Kept s.client _ s.dropped s.hands i a id fs v.kept e found;
    apart = v.apart;
  }
  Step-IsSafe _ _ (Step.complete s i a fs e h) v = record {
    kept = complete-Kept s.client _ s.dropped s.hands i a fs v.kept e h;
    apart = v.apart;
  }
  Step-IsSafe _ _ (Step.drop s i a fs e h) v = record {
    kept = drop-Kept s.client _ s.dropped s.hands i a fs v.kept e h;
    apart = v.apart;
  }
  Step-IsSafe _ _ (Step.mark s i t m e h n) v =
      let live = tracked s.sending s.held in
      let w =
        goes_on s.client live s.dropped s.hands i Hand.idle (Hand.closing t m) v.kept e (λ b. refl)
          refl (λ b k. absurd cc) in
      record {
        kept =
            marked-Kept s.client live s.dropped (update s.hands i (Hand.closing t m)) w i
              (here is_closing s.hands i (Hand.closing t m) refl);
        apart = v.apart;
      }
  Step-IsSafe _ _ (Step.snapshot s i t m e) v = record {
    kept = taken-Kept s.client _ s.dropped s.hands v.kept i t m e;
    apart = v.apart;
  }
  Step-IsSafe _ _ (Step.fail_one s i a t m l e h) v = record {
    kept = fail_one-Kept s.client _ s.dropped s.hands i a t m l v.kept e;
    apart = v.apart;
  }
  Step-IsSafe _ _ (Step.fail_stop s i a t m l x e h) v = record {
    kept = fail_stop-Kept s.client _ s.dropped s.hands i a t m l v.kept e;
    apart = v.apart;
  }
  Step-IsSafe _ _ (Step.finish s i t m e) v = record {
    kept =
        goes_on s.client _ s.dropped s.hands i (Hand.failing t m []) Hand.idle v.kept e (λ b. refl)
          refl (λ b k. absurd cc);
    apart = v.apart;
  }

  Reach-IsSafe : (s t : Callers) → Reach s t → IsSafe s → IsSafe t
  Reach-IsSafe s t Reach.done v = v
  Reach-IsSafe s t (Reach.step p q) v = Step-IsSafe _ t q (Reach-IsSafe s _ p v)

  -- A new connection, before any thread uses it.
  abbrev pub opened : Client → Callers
  opened c = record { client = c; sending = none; held = []; hands = λ _. Hand.idle; dropped = [] }

  opened-IsSafe :
      (sock : Sock) (max : Value) (c : Client) → new_client sock max ≡ ok c → IsSafe (opened c)
  unfolding new_client get
  opened-IsSafe sock max c h =
      let fresh : (c.pending ≡ []) × (c.next_ref ≡ 0) = ground arith in
      record {
        kept = record {
          names = λ a b p q e. ground (arith, fresh);
          mapped = λ id a e. absurd (let k = subst (λ p. get id p ≡ some a) fresh.0 e in cc);
          allocated = λ a e. absurd cc;
          private = λ i a e. absurd cc;
          placed = λ a e. absurd cc;
          shut = λ e. Emptied.empty (λ id. subst (λ p. get id p ≡ none) (sym fresh.0) refl);
        };
        apart = λ a p k. absurd cc;
      }

  -- In every interleaving of a new connection's threads at the lifecycle lock, the pending lock and
  -- the locks of the references, requests having fresh identifiers: a reference that a call has
  -- returned is completed, or is in the pending map under its call id, or is in the hands of a thread
  -- that is about to complete it, or was dropped. A reference is dropped in two ways only: the `ok`
  -- field of its response is no boolean, or the loop of a closing thread has ended before it, since
  -- `set_error` raised. And once the connection is closed, the map is empty or about to be taken by
  -- the thread that closed it.
  pub no_call_forgotten :
      (sock : Sock) (max : Value) (c : Client) (s : Callers) (a : ℕ)
      → new_client sock max ≡ ok c
      → Reach (opened c) s
      → elem a s.held ≡ true
      → Where s.client.refs s.client.pending s.hands s.dropped a
        × ((s.client.closed ≡ false) ⊎ Emptied s.client.pending s.hands)
  no_call_forgotten sock max c s a h p k =
      let v = Reach-IsSafe (opened c) s p (opened-IsSafe sock max c h) in
      (
        v.kept.placed a (tracked_held s.sending a s.held k),
        elim (Bool-cases s.client.closed) [ inr o ↦ inl o | inl x ↦ inr (v.kept.shut x) ],
      )
