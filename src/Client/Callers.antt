-- ===== src/Client/Callers.antt =====
-- The threads of a client, interleaved at its locks: the callers in `_send_request`, the reader in
-- `_handle_response`, and whoever is in `_close_with_error`. A step is a section under the lifecycle
-- lock, the pending lock or the lock of one reference.
use rpc_freethread.Prelude.{
  ℕ, String, Bool, true, false, ◌≡◌, ◌≢◌, ◌<◌, Option, none, some, List, [], ◌∷◌, ◌++◌, ◌==◌,
}
use rpc_freethread.Prelude.Dict.{get, put, remove, values}
use rpc_freethread.Errors.{Error, ok, err}
use rpc_freethread.Value.{nothing, Fields, field_or}
use rpc_freethread.Python.{Python}
use rpc_freethread.Protocol.Socket.{Sock}
use rpc_freethread.Protocol.{write_frame}
use rpc_freethread.ObjectRef.{set_error, ready}
use rpc_freethread.Client.State.{Client, update, allocate, on_sock, on_ref}
use rpc_freethread.Client.Connection.{take_pending, deliver, fail_unless}
use rpc_freethread.Client.Failing.{elem}
use rpc_freethread.Client.Responses.{is_boolean}

-- What a thread has in hand: nothing; the reference of a call that was not sent, before the pop, after
-- it, and after `ready()`; the reference that a response was popped for; a connection that it has
-- marked as closed; the references that it has still to fail.
pub data Hand : Type 0 where
  idle : Hand
  withdrawing : (a : ℕ) → Hand
  withdrawn : (a : ℕ) → Hand
  looked : (a : ℕ) (done : Bool) → Hand
  delivering : (a : ℕ) (fs : Fields) → Hand
  closing : (error_type message : String) → Hand
  failing : (error_type message : String) (rest : List ℕ) → Hand

-- `sending` is the reference and the payload of the caller that has the lifecycle lock, `held` the
-- references that calls have returned, and `dropped` those that a thread let go of uncompleted.
pub record Callers : Type 0 where
  pub client : Client
  pub sending : Option (ℕ × List ℕ)
  pub held : List ℕ
  pub hands : ℕ → Hand
  pub dropped : List ℕ

-- An identifier that no reference has, as `uuid4` gives.
abbrev pub IsFresh : String → Client → Type 0
IsFresh id c = (a : ℕ) → a < c.next_ref → (c.refs a).call_id ≢ id

module _ ⦃py : Python⦄ where
  pub data Step : Callers → Callers → Type 0 where
    -- `_send_request` of a message that cannot be encoded
    unencoded :
        (s : Callers) (id : String)
        → IsFresh id s.client
        → Step s (record s { client = (allocate id s.client).1 })
    -- `_send_request` under the lifecycle lock: the connection is closed; or the call is registered
    -- under the pending lock, and then the frame is written, which may fail.
    refuse :
        (s : Callers) (i : ℕ) (id : String)
        → IsFresh id s.client
        → s.hands i ≡ Hand.idle
        → s.client.closed ≡ true
        → Step s (record s {
          client = (allocate id s.client).1;
          hands = update s.hands i (Hand.withdrawing s.client.next_ref);
        })
    register :
        (s : Callers) (id : String) (payload : List ℕ)
        → IsFresh id s.client
        → s.client.closed ≡ false
        → s.sending ≡ none
        → Step s (
            let c = (allocate id s.client).1 in
            record s {
              client = record c { pending = put id s.client.next_ref c.pending };
              sending = some (s.client.next_ref, payload);
            })
    written :
        (s : Callers) (a : ℕ) (payload : List ℕ)
        → s.sending ≡ some (a, payload)
        → (on_sock (write_frame s.client.max_frame_size payload) s.client).0 ≡ ok tt
        → Step s (record s {
          client = (on_sock (write_frame s.client.max_frame_size payload) s.client).1;
          sending = none;
          held = a ∷ s.held;
        })
    unwritten :
        (s : Callers) (i a : ℕ) (payload : List ℕ) (e : Error)
        → s.sending ≡ some (a, payload)
        → s.hands i ≡ Hand.idle
        → (on_sock (write_frame s.client.max_frame_size payload) s.client).0 ≡ err e
        → Step s (record s {
          client = (on_sock (write_frame s.client.max_frame_size payload) s.client).1;
          sending = none;
          hands = update s.hands i (Hand.withdrawing a);
        })
    -- The `except` block
    pop :
        (s : Callers) (i a : ℕ)
        → s.hands i ≡ Hand.withdrawing a
        → Step s (record s {
          client = record (s.client) {
            pending = remove (s.client.refs a).call_id s.client.pending;
          };
          hands = update s.hands i (Hand.withdrawn a);
        })
    look :
        (s : Callers) (i a : ℕ)
        → s.hands i ≡ Hand.withdrawn a
        → Step s (record s { hands = update s.hands i (Hand.looked a (ready (s.client.refs a))) })
    report :
        (s : Callers) (i a : ℕ) (is_done : Bool)
        → s.hands i ≡ Hand.looked a is_done
        → Step s (record s {
          client = (fail_unless is_done a s.client).1;
          hands = update s.hands i Hand.idle;
        })
    -- The reader reads from the socket, takes the call that a response names, if one waits, and
    -- completes its reference, or raises if the `ok` field is no boolean.
    read :
        (s : Callers) (sock : Sock)
        → Step s (record s { client = record (s.client) { sock = sock } })
    unknown :
        (s : Callers) (id : String)
        → get id s.client.pending ≡ none
        → Step s (record s { client = (take_pending id s.client).1 })
    take :
        (s : Callers) (i a : ℕ) (id : String) (fs : Fields)
        → s.hands i ≡ Hand.idle
        → get id s.client.pending ≡ some a
        → Step s (record s {
          client = (take_pending id s.client).1;
          hands = update s.hands i (Hand.delivering a fs);
        })
    complete :
        (s : Callers) (i a : ℕ) (fs : Fields)
        → s.hands i ≡ Hand.delivering a fs
        → is_boolean (field_or nothing "ok" fs) ≡ true
        → Step s
            (record s { client = (deliver a fs s.client).1; hands = update s.hands i Hand.idle })
    drop :
        (s : Callers) (i a : ℕ) (fs : Fields)
        → s.hands i ≡ Hand.delivering a fs
        → is_boolean (field_or nothing "ok" fs) ≡ false
        → Step s (record s {
          client = (deliver a fs s.client).1;
          hands = update s.hands i Hand.idle;
          dropped = a ∷ s.dropped;
        })
    -- `_close_with_error`: under the lifecycle lock, under the pending lock, and the loop, which an
    -- exception of `set_error` ends.
    mark :
        (s : Callers) (i : ℕ) (t m : String)
        → s.hands i ≡ Hand.idle
        → s.client.closed ≡ false
        → s.sending ≡ none
        → Step s (record s {
          client = record (s.client) { closed = true; sock_open = false };
          hands = update s.hands i (Hand.closing t m);
        })
    snapshot :
        (s : Callers) (i : ℕ) (t m : String)
        → s.hands i ≡ Hand.closing t m
        → Step s (record s {
          client = record (s.client) { pending = [] };
          hands = update s.hands i (Hand.failing t m (values s.client.pending));
        })
    fail_one :
        (s : Callers) (i a : ℕ) (t m : String) (l : List ℕ)
        → s.hands i ≡ Hand.failing t m (a ∷ l)
        → (on_ref a (set_error t m) s.client).0 ≡ ok tt
        → Step s (record s {
          client = (on_ref a (set_error t m) s.client).1;
          hands = update s.hands i (Hand.failing t m l);
        })
    fail_stop :
        (s : Callers) (i a : ℕ) (t m : String) (l : List ℕ) (e : Error)
        → s.hands i ≡ Hand.failing t m (a ∷ l)
        → (on_ref a (set_error t m) s.client).0 ≡ err e
        → Step s (record s {
          client = (on_ref a (set_error t m) s.client).1;
          hands = update s.hands i Hand.idle;
          dropped = l ++ s.dropped;
        })
    finish :
        (s : Callers) (i : ℕ) (t m : String)
        → s.hands i ≡ Hand.failing t m []
        → Step s (record s { hands = update s.hands i Hand.idle })

  pub data Reach : Callers → Callers → Type 0 where
    done : {s : Callers} → Reach s s
    step : {s t u : Callers} → Reach s t → Step t u → Reach s u

-- A thread has the reference in hand, and will complete it.
abbrev pub carries : ℕ → Hand → Bool
carries a (Hand.failing t m l) = elem a l
carries a (Hand.delivering b fs) = b == a
carries a _ = false

-- The reference is that of a call that was not sent, and will be popped.
abbrev pub withdraws : ℕ → Hand → Bool
withdraws a (Hand.withdrawing b) = b == a
withdraws a _ = false

abbrev pub is_closing : Hand → Bool
is_closing (Hand.closing t m) = true
is_closing _ = false
