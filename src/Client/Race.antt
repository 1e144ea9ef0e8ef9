-- ===== src/Client/Race.antt =====
-- Two threads on one connection: a sender in the `except` block of `_send_request`, and a thread in
-- `_close_with_error`. The sender has left the lifecycle lock when its exception reaches the
-- `except` clause, so the closer may take that lock at once; each step below is one section under
-- the pending lock, the lifecycle lock or the lock of one reference.
use rpc_freethread.Prelude.{
  ℕ, String, Bool, true, false, ◌≡◌, refl, ap, subst, List, [], ◌∷◌, ◌++◌, arith,
}
use rpc_freethread.Prelude.Dict.{remove, values}
use rpc_freethread.Errors.{Error, ok, err}
use rpc_freethread.Python.{Python}
use rpc_freethread.ObjectRef.{ObjectRef, set_error, ready, error_is, already_complete}
use rpc_freethread.ObjectRef.Once.{complete_first, complete_again}
use rpc_freethread.Client.State.{Client, update, on_ref}
use rpc_freethread.Client.Connection.{fail_unless}
use rpc_freethread.Client.Pending.{IsValid, distinct, all_waiting}
use rpc_freethread.Client.Failing.{
  elem, Distinct, AllWaiting, AllWaiting-update, AllWaiting-at, fail_refs, fail_refs_other,
}
use rpc_freethread.Client.Parts.{elem-at, Distinct-append, not-elem-prefix, AllWaiting-append}

-- Where the sender stands: before the pop, before `ready()`, before `set_error`, or done.
pub data Sender : Type 0 where
  sending_failed : (id : String) (a : ℕ) (e : Error) → Sender
  withdrawn : (a : ℕ) (e : Error) → Sender
  looked : (a : ℕ) (e : Error) (done : Bool) → Sender
  finished : Sender

-- Where the closer stands: before the lifecycle lock, before the pending lock, in the loop over the
-- references that it took, or done, with or without an exception.
pub data Closer : Type 0 where
  closing : (t m : String) → Closer
  marked : (t m : String) → Closer
  failing : (t m : String) → List ℕ → Closer
  returned : Closer
  raised : Error → Closer

pub record System : Type 0 where
  pub client : Client
  pub sender : Sender
  pub closer : Closer

module _ ⦃py : Python⦄ where
  pub data Step (s : System) : System → Type 0 where
    pop :
        {id : String} {a : ℕ} {e : Error}
        → s.sender ≡ Sender.sending_failed id a e
        → Step s (record s {
          client = record (s.client) { pending = remove id s.client.pending };
          sender = Sender.withdrawn a e;
        })
    look :
        {a : ℕ} {e : Error}
        → s.sender ≡ Sender.withdrawn a e
        → Step s (record s { sender = Sender.looked a e (ready (s.client.refs a)) })
    report :
        {a : ℕ} {e : Error} {done : Bool}
        → s.sender ≡ Sender.looked a e done
        → Step s (record s { client = (fail_unless done a s.client).1; sender = Sender.finished })
    skip :
        {t m : String}
        → s.closer ≡ Closer.closing t m
        → s.client.closed ≡ true
        → Step s (record s { closer = Closer.returned })
    mark :
        {t m : String}
        → s.closer ≡ Closer.closing t m
        → s.client.closed ≡ false
        → Step s (record s {
          client = record (s.client) { closed = true; sock_open = false };
          closer = Closer.marked t m;
        })
    snapshot :
        {t m : String}
        → s.closer ≡ Closer.marked t m
        → Step s (record s {
          client = record (s.client) { pending = [] };
          closer = Closer.failing t m (values s.client.pending);
        })
    fail_one :
        {t m : String} {a : ℕ} {l : List ℕ}
        → s.closer ≡ Closer.failing t m (a ∷ l)
        → (on_ref a (set_error t m) s.client).0 ≡ ok tt
        → Step s (record s {
          client = (on_ref a (set_error t m) s.client).1;
          closer = Closer.failing t m l;
        })
    fail_stop :
        {t m : String} {a : ℕ} {l : List ℕ} {x : Error}
        → s.closer ≡ Closer.failing t m (a ∷ l)
        → (on_ref a (set_error t m) s.client).0 ≡ err x
        → Step s
            (record s { client = (on_ref a (set_error t m) s.client).1; closer = Closer.raised x })
    finish :
        {t m : String}
        → s.closer ≡ Closer.failing t m []
        → Step s (record s { closer = Closer.returned })

  pub data Reach (s : System) : System → Type 0 where
    here : Reach s s
    next : {t u : System} → Reach s t → Step t u → Reach s u

  Reach-trans : {s t u : System} → Reach s t → Reach t u → Reach s u
  Reach-trans r here = r
  Reach-trans r (next q st) = Reach.next (Reach-trans r q) st

  -- The loop fails the references before `rest`, one step for each.
  fail_prefix :
      (t m : String) (l rest : List ℕ) (s : System)
      → s.closer ≡ Closer.failing t m (l ++ rest)
      → Distinct l
      → AllWaiting s.client.refs l
      → Reach s (record s {
        client = record (s.client) { refs = fail_refs t m l s.client.refs };
        closer = Closer.failing t m rest;
      })
  unfolding fail_refs on_ref
  fail_prefix t m [] rest s at d w = subst (λ k. Reach s (record s { closer = k })) at Reach.here
  fail_prefix t m (a ∷ l) rest s at (fresh, d) (p, w) =
      let refs' = update s.client.refs a (set_error t m (s.client.refs a)).1 in
      let s' = record s {
        client = record (s.client) { refs = refs' };
        closer = Closer.failing t m (l ++ rest);
      } in
      let (done, _, _, _) = complete_first (error_is t m) (s.client.refs a) p in
      Reach-trans (Reach.next Reach.here (Step.fail_one at done))
        (fail_prefix t m l rest s' refl d (AllWaiting-update l s.client.refs a _ fresh w))

module _ ⦃py : Python⦄ where
  -- The loop, once the sender has completed a reference that the closer has taken.
  strand_loop :
      (t m : String) (c : Client) (a b : ℕ) (pre post : List ℕ) (s : System)
      → Distinct (pre ++ a ∷ post)
      → AllWaiting c.refs (pre ++ a ∷ post)
      → elem b post ≡ true
      → ready (c.refs b) ≡ false
      → (o : ObjectRef) → ready o ≡ true
      → s.client.refs ≡ update c.refs a o
      → s.closer ≡ Closer.failing t m (pre ++ a ∷ post)
      → (s' : System) × Reach s s'
        × (s'.sender ≡ s.sender)
        × (s'.closer ≡ Closer.raised (already_complete o))
        × (s'.client.closed ≡ s.client.closed)
        × (s'.client.pending ≡ s.client.pending)
        × (ready (s'.client.refs b) ≡ false)
  unfolding on_ref
  strand_loop t m c a b pre post s d w listed waits o done same at =
      let (dp, ap_, later) = Distinct-append pre a post d in
      let (wp, _, _) = AllWaiting-append c.refs pre a post w in
      let wp' : AllWaiting s.client.refs pre = rw same (AllWaiting-update pre c.refs a o ap_ wp) in
      let u = record s {
        client = record (s.client) { refs = fail_refs t m pre s.client.refs };
        closer = Closer.failing t m (a ∷ post);
      } in
      let own : u.client.refs a ≡ o = ground (arith, fail_refs_other t m pre s.client.refs a ap_) in
      let again = complete_again (error_is t m) (u.client.refs a) (rw own done) in
      let other = fail_refs_other t m pre s.client.refs b (not-elem-prefix pre a b post d listed) in
      let stop : (on_ref a (set_error t m) u.client).0 ≡ err (already_complete o) =
        ground (arith, again, own) in
      (
        _,
        Reach.next (fail_prefix t m pre (a ∷ post) s at dp wp') (Step.fail_stop refl stop),
        refl,
        refl,
        refl,
        refl,
        ground (arith, elem-at b a post listed later, other, ap (λ (f : ℕ → ObjectRef). f b) same),
      )

  -- A schedule in which closing strands calls. A sender's write has failed and its call is still in
  -- the map. The closer marks the connection and takes every reference from the map; the sender
  -- then fails its own reference; the closer's loop meets that reference, `set_error` raises
  -- `RuntimeError`, and the loop ends. Every reference behind it in the map is left waiting on a
  -- closed connection with an empty map.
  pub close_race_strands :
      (held : List ℕ) (c : Client) (a b : ℕ) (pre post : List ℕ) (id t m : String) (e : Error)
      → IsValid held c
      → c.closed ≡ false
      → values c.pending ≡ pre ++ a ∷ post
      → elem b post ≡ true
      → (s : System) × (x : Error) × Reach
          (record {
            client = c;
            sender = Sender.sending_failed id a e;
            closer = Closer.closing t m;
          })
          s
        × (s.sender ≡ Sender.finished)
        × (s.closer ≡ Closer.raised x)
        × (s.client.closed ≡ true)
        × (s.client.pending ≡ [])
        × (ready (s.client.refs b) ≡ false)
  unfolding on_ref remove
  close_race_strands held c a b pre post id t m e v open_now entries listed =
      let d : Distinct (pre ++ a ∷ post) = subst Distinct entries (distinct t m c v) in
      let w : AllWaiting c.refs (pre ++ a ∷ post) =
        subst (AllWaiting c.refs) entries (all_waiting t m c v) in
      let (_, own, later) = AllWaiting-append c.refs pre a post w in
      let (done, is_ready, _, _) =
        complete_first (error_is "ConnectionError" "failed to send remote call") (c.refs a) own in
      let o = (set_error "ConnectionError" "failed to send remote call" (c.refs a)).1 in
      let c' = record c { closed = true; sock_open = false; pending = [] } in
      let s0 : System = record {
        client = c;
        sender = Sender.sending_failed id a e;
        closer = Closer.closing t m;
      } in
      let s5 : System = record {
        client = (fail_unless false a c').1;
        sender = Sender.finished;
        closer = Closer.failing t m (values c.pending);
      } in
      let start : Reach s0 s5 =
        Reach.next
          (Reach.next
            (Reach.next
              (Reach.next (Reach.next Reach.here (Step.mark refl open_now)) (Step.snapshot refl))
              (Step.pop refl))
            (Step.look refl))
          (Step.report {done = false} (ap (Sender.looked a e) own)) in
      let (s', run, sent, ended, shut, empty, stranded) =
        strand_loop t m c a b pre post s5 d w listed (AllWaiting-at post c.refs b later listed) o
          is_ready refl (ap (Closer.failing t m) entries) in
      (s', already_complete o, Reach-trans start run, sent, ended, shut, empty, stranded)
