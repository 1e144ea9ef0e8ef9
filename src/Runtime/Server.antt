-- ===== src/Runtime/Server.antt =====
-- The server's threads, interleaved: the accept loop, one reader for each connection, the workers
-- of the pool and of the actors, and the caller of `stop`. A step is what a thread does between two
-- points at which it can be overtaken.
use rpc_freethread.Prelude.{ℕ, ◌<◌, String, Bool, true, false, ◌≡◌, List, [], ◌∷◌, All}
use rpc_freethread.Prelude.Dict.{values}
use rpc_freethread.Errors.{Result}
use rpc_freethread.Value.{Value, Items, Fields}
use rpc_freethread.Python.{Python}
use rpc_freethread.Serializer.{Serializer}
use rpc_freethread.Protocol.Socket.{Sock}
use rpc_freethread.Runtime.State.{Runtime, ActorEntry, Task, update}
use rpc_freethread.Runtime.Invoke.{UserCode}
use rpc_freethread.Runtime.Messages.{handle_message}
use rpc_freethread.Runtime.Actors.{
  run_method, settle_actor, finish_destroy, cancel_executor, owned_actors, take_owned,
}
use rpc_freethread.Runtime.Tasks.{Rest, call_function, send_outcome, run_task}
use rpc_freethread.Runtime.Lifecycle.{accept_connection, leave, shut_connections, send_catalog}
use rpc_freethread.Runtime.Stopping.{
  Stopper, mark_stopping, take_connections, cancel_pool, take_actors,
}

-- `active` is what threads have in hand; `gone` are the connections whose handler has taken their
-- actors from the table, which is before it returns; `stopper` is how far the caller of `stop` is.
pub record Server (U : Type 0) : Type 0 where
  pub runtime : Runtime U
  pub active : List Rest
  pub gone : ℕ → Bool
  pub stopper : Stopper

-- `Taken x l m`: `l` with one `x` taken out is `m`.
pub data Taken : Rest → List Rest → List Rest → Type 0 where
  first : {x : Rest} {l : List Rest} → Taken x (x ∷ l) l
  later : {x y : Rest} {l m : List Rest} → Taken x l m → Taken x (y ∷ l) (y ∷ m)

module _ (P : Rest → Type 0) where
  pub Taken-All : {x : Rest} {l m : List Rest} → Taken x l m → All P l → P x × All P m
  Taken-All first (h, k) = (h, k)
  Taken-All (later t) (h, k) = let (a, b) = Taken-All t k in (a, (h, b))

-- No worker of the pool has it in hand: it is over, or is a call of a method, on an actor's own
-- executor, or the removal of a connection's actors, in the thread of its handler.
abbrev pub IsUnpooled : Rest → Type 0
IsUnpooled Rest.finished = Unit
IsUnpooled (Rest.invoking _ _ _ _ _ _) = Unit
IsUnpooled (Rest.returning false _ _ _) = Unit
IsUnpooled (Rest.leaving _) = Unit
IsUnpooled (Rest.removing _) = Unit
IsUnpooled _ = ⊥

abbrev pub boot : {U : Type 0} → Runtime U → Server U
boot r = record { runtime = r; active = []; gone = λ _. false; stopper = Stopper.idle }

module _ ⦃py : Python⦄ {U : Type 0} (ser : Serializer) (user : UserCode U) where
  pub data Step : Server U → Server U → Type 0 where
    -- `_accept_loop`
    accept :
        (s : Server U) (sock : Sock)
        → Step s (record s { runtime = accept_connection sock s.runtime })
    -- `_send_catalog`, in `_handle_connection`
    greet :
        (s : Server U) (conn : ℕ)
        → Step s (record s { runtime = (send_catalog ser conn s.runtime).1 })
    -- `_handle_message`, with a message that the reader of `conn` has received
    receive :
        (s : Server U) (conn : ℕ) (message : Value)
        → Step s (record s { runtime = (handle_message conn message s.runtime).1 })
    -- A worker of the pool takes the oldest task.
    work :
        (s : Server U) (t : Task) (rest : List Task)
        → s.runtime.pool.queue ≡ t ∷ rest
        → Step s (
            let r = s.runtime in
            let (left, r') =
              run_task ser user t (record r { pool = record r.pool { queue = rest } }) in
            record s { runtime = r'; active = left ∷ s.active })
    -- The worker of an actor takes the oldest task of its executor.
    work_actor :
        (s : Server U) (k : ℕ) (t : Task) (rest : List Task)
        → (s.runtime.executors k).queue ≡ t ∷ rest
        → Step s (
            let r = s.runtime in
            let (left, r') = run_task ser user t (record r {
              executors = update r.executors k (record (r.executors k) { queue = rest });
            }) in
            record s { runtime = r'; active = left ∷ s.active })
    -- User code of a function or of a method is over. What it changes is changed then.
    call_done :
        (s : Server U) (conn : ℕ) (call_id name : String) (args : Items) (kwargs : Fields)
        (left : List Rest)
        → Taken (Rest.calling conn call_id name args kwargs) s.active left
        → Step s (
            let (outcome, r) = call_function ser user name args kwargs s.runtime in
            record s { runtime = r; active = Rest.returning true conn call_id outcome ∷ left })
    method_done :
        (s : Server U) (conn : ℕ) (call_id : String) (i : ℕ) (name : String) (args : Items)
        (kwargs : Fields) (left : List Rest)
        → Taken (Rest.invoking conn call_id i name args kwargs) s.active left
        → Step s (
            let (outcome, r) = run_method ser user i name args kwargs s.runtime in
            record s { runtime = r; active = Rest.returning false conn call_id outcome ∷ left })
    reply :
        (s : Server U) (pooled : Bool) (conn : ℕ) (call_id : String) (outcome : Result Value)
        (left : List Rest)
        → Taken (Rest.returning pooled conn call_id outcome) s.active left
        → Step s (record s {
          runtime = (send_outcome ser user conn call_id outcome s.runtime).1;
          active = left;
        })
    -- The rest of `_create_actor`, once the constructor has returned.
    settle :
        (s : Server U) (conn : ℕ) (call_id actor_id : String) (actor : ActorEntry)
        (left : List Rest)
        → Taken (Rest.settling conn call_id actor_id actor) s.active left
        → Step s (record s {
          runtime = (settle_actor ser user conn call_id actor_id actor s.runtime).1;
          active = left;
        })
    -- The rest of `_destroy_actor`, once the actor's queue is empty.
    drained :
        (s : Server U) (conn : ℕ) (call_id : String) (actor : ActorEntry) (left : List Rest)
        → Taken (Rest.draining conn call_id actor) s.active left
        → (s.runtime.executors actor.executor).queue ≡ []
        → Step s (record s {
          runtime = (finish_destroy ser user conn call_id s.runtime).1;
          active = left;
        })
    -- The `finally` block of `_handle_connection`, and the removal that ends it: it takes the actors,
    -- and shuts their executors down one by one.
    depart :
        (s : Server U) (conn : ℕ)
        → conn < s.runtime.next_conn
        → Step s
            (record s { runtime = leave conn s.runtime; active = Rest.leaving conn ∷ s.active })
    clean :
        (s : Server U) (conn : ℕ) (left : List Rest)
        → Taken (Rest.leaving conn) s.active left
        → Step s (record s {
          runtime = take_owned conn s.runtime;
          active = Rest.removing (owned_actors conn s.runtime.actors) ∷ left;
          gone = update s.gone conn true;
        })
    clean_cancel :
        (s : Server U) (actor : ActorEntry) (l : List ActorEntry) (left : List Rest)
        → Taken (Rest.removing (actor ∷ l)) s.active left
        → Step s (record s {
          runtime = cancel_executor actor s.runtime;
          active = Rest.removing l ∷ left;
        })
    -- `stop`, if it is the first: it marks the runtime, takes the connections, closes them one by
    -- one, shuts the pool down and waits until no task of the pool is under way, takes the actors,
    -- and shuts their executors down.
    halt :
        (s : Server U)
        → s.runtime.closed ≡ false
        → Step s (record s { runtime = mark_stopping s.runtime; stopper = Stopper.marked })
    halt_take :
        (s : Server U)
        → s.stopper ≡ Stopper.marked
        → Step s (record s {
          runtime = take_connections s.runtime;
          stopper = Stopper.closing s.runtime.connections;
        })
    halt_close :
        (s : Server U) (conn : ℕ) (l : List ℕ)
        → s.stopper ≡ Stopper.closing (conn ∷ l)
        → Step s (record s {
          runtime = shut_connections (conn ∷ []) s.runtime;
          stopper = Stopper.closing l;
        })
    halt_pool :
        (s : Server U)
        → s.stopper ≡ Stopper.closing []
        → Step s (record s { runtime = cancel_pool s.runtime; stopper = Stopper.joining })
    halt_clear :
        (s : Server U)
        → s.stopper ≡ Stopper.joining
        → All IsUnpooled s.active
        → Step s (record s {
          runtime = take_actors s.runtime;
          stopper = Stopper.clearing (values s.runtime.actors);
        })
    halt_cancel :
        (s : Server U) (actor : ActorEntry) (l : List ActorEntry)
        → s.stopper ≡ Stopper.clearing (actor ∷ l)
        → Step s
            (record s { runtime = cancel_executor actor s.runtime; stopper = Stopper.clearing l })
    halt_return :
        (s : Server U)
        → s.stopper ≡ Stopper.clearing []
        → Step s (record s { stopper = Stopper.stopped })

  pub data Reach : Server U → Server U → Type 0 where
    done : {s : Server U} → Reach s s
    step : {s t u : Server U} → Reach s t → Step t u → Reach s u
