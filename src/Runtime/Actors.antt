-- ===== src/Runtime/Actors.antt =====
-- The calls on actors that executors run: `_create_actor`, `_execute_actor_method`,
-- `_attach_actor`, `_destroy_actor`, and `_remove_connection_actors`.
use rpc_freethread.Prelude.{
  ℕ, ◌+◌, String, ◌<>◌, Bool, true, false, Option, none, some, List, [], ◌∷◌, ◌==◌, if◌then◌else◌,
  starts_with,
}
use rpc_freethread.Prelude.Dict.{Dict, get, put, remove, contains}
use rpc_freethread.Errors.{
  Error, Result, ok, err, value_error, attribute_error, type_error, connection_closed_error,
  actor_ownership_error,
}
use rpc_freethread.Exec.{Exec, pure, raise_if, lift, gets, modify, ◌>>=◌, ◌>>◌}
use rpc_freethread.Value.{Value, nothing, Items, Fields}
use rpc_freethread.Python.{Python, quoted}
use rpc_freethread.Serializer.{Serializer}
use rpc_freethread.Registry.{get_class}
use rpc_freethread.Runtime.State.{Runtime, ActorEntry, empty_executor, cancel, update}
use rpc_freethread.Runtime.Invoke.{UserCode, Attribute, method, not_callable, Callable, invoke_sync}
use rpc_freethread.Runtime.Respond.{send_result, send_error}
use rpc_freethread.Runtime.Messages.{no_such_actor}

-- A call of user code, on the part of the state that user code can change.
unfoldable pub on_world : {U A : Type 0} → Exec U A → Exec (Runtime U) A
on_world m r = let (a, w) = m r.world in (a, record r { world = w })

-- What `try: m … except: … else: …` does with a value and with an error.
abbrev pub respond :
    {S A : Type 0}
    → Exec S A
    → (Error → Exec S (Unit {0}))
    → (A → Exec S (Unit {0}))
    → Exec S (Unit {0})
respond m failed done s = let (a, s') = m s in elim a [ ok v ↦ done v s' | err e ↦ failed e s' ]

-- `executor.shutdown(wait=True, cancel_futures=True)` of one actor
unfoldable pub cancel_executor : {U : Type 0} → ActorEntry → Runtime U → Runtime U
cancel_executor actor r = record r {
  executors = update r.executors actor.executor (cancel (r.executors actor.executor));
}

module _ ⦃py : Python⦄ where
  abbrev pub as_method : String → Attribute → Result Callable
  as_method name (method m) = ok m
  as_method name not_callable =
      err (type_error ("actor attribute " <> (quoted name <> " is not callable")))

module _ ⦃py : Python⦄ {U : Type 0} (ser : Serializer) (user : UserCode U) where
  -- `_ActorEntry(instance, connection)` makes an executor of its own.
  unfoldable pub new_entry : ℕ → ℕ → Exec (Runtime U) ActorEntry
  new_entry instance_id conn r = (
    ok (record { instance_id = instance_id; owner = conn; executor = r.next_executor }),
    record r {
      executors = update r.executors r.next_executor empty_executor;
      next_executor = r.next_executor + 1;
    },
  )

  -- The part of `_create_actor` before the actors lock: user code runs here.
  unfoldable pub construct_actor : ℕ → String → Items → Fields → Exec (Runtime U) ActorEntry
  unfolding on_world new_entry
  construct_actor conn class_name args kwargs = do
    registry ← gets (λ r. r.registry)
    actor_class ← lift (get_class class_name registry)
    instance_id ← on_world (user.construct actor_class args kwargs)
    new_entry instance_id conn

  -- The part under the actors lock.
  unfoldable pub insert_actor : ℕ → String → ActorEntry → Exec (Runtime U) (Unit {0})
  insert_actor conn actor_id actor = do
    closed ← gets (λ r. (r.conns conn).closed)
    raise_if closed (connection_closed_error "client disconnected during actor creation")
    known ← gets (λ r. contains actor_id r.actors)
    raise_if known (value_error ("actor " <> (quoted actor_id <> " already exists")))
    modify (λ r. record r { actors = put actor_id actor r.actors })

  -- `if not connection.closed.is_set(): self._send_error(...)`
  unfoldable pub report_failure : ℕ → String → Error → Exec (Runtime U) (Unit {0})
  report_failure conn call_id exc r = elim (r.conns conn).closed [
    | true ↦ (ok tt, r)
    | false ↦ send_error ser conn call_id exc r
  ]

  -- The part of `_create_actor` after the constructor has run.
  unfoldable pub settle_actor : ℕ → String → String → ActorEntry → Exec (Runtime U) (Unit {0})
  unfolding insert_actor cancel_executor report_failure
  settle_actor conn call_id actor_id actor =
      respond (insert_actor conn actor_id actor)
        (λ exc. modify (cancel_executor actor) >> report_failure conn call_id exc)
        (λ _. send_result ser conn call_id nothing)

  -- `_create_actor`
  unfoldable pub create_actor :
      ℕ → String → String → String → Items → Fields → Exec (Runtime U) (Unit {0})
  unfolding construct_actor settle_actor report_failure
  create_actor conn call_id actor_id class_name args kwargs =
      respond (construct_actor conn class_name args kwargs) (report_failure conn call_id)
        (settle_actor conn call_id actor_id)

  -- The `try` block of `_execute_actor_method`.
  unfoldable pub run_method : ℕ → String → Items → Fields → Exec (Runtime U) Value
  unfolding on_world
  run_method instance_id method_name args kwargs = do
    raise_if (starts_with method_name "_")
        (attribute_error "private actor methods are not remotely callable")
    found ← on_world (user.attribute instance_id method_name)
    target ← lift (as_method method_name found)
    on_world (invoke_sync user target args kwargs)

  -- `_execute_actor_method`
  unfoldable pub execute_actor_method :
      ℕ → String → ℕ → String → Items → Fields → Exec (Runtime U) (Unit {0})
  unfolding run_method
  execute_actor_method conn call_id instance_id method_name args kwargs =
      respond (run_method instance_id method_name args kwargs) (send_error ser conn call_id)
        (send_result ser conn call_id)

  -- `_attach_actor`
  unfoldable pub attach_actor : ℕ → String → String → Exec (Runtime U) (Unit {0})
  attach_actor conn call_id actor_id r =
      (if contains actor_id r.actors
          then send_result ser conn call_id nothing
          else send_error ser conn call_id (no_such_actor actor_id))
        r

  -- The part of `_destroy_actor` under the actors lock: the entry that was found, and whether it
  -- belongs to the connection and was therefore taken from the table.
  unfoldable pub claim_actor : ℕ → String → Exec (Runtime U) (Option (ActorEntry × Bool))
  claim_actor conn actor_id r = elim (get actor_id r.actors) [
    | none ↦ (ok none, r)
    | some actor ↦
        if actor.owner == conn
        then (ok (some (actor, true)), record r { actors = remove actor_id r.actors })
        else (ok (some (actor, false)), r)
  ]

  -- `actor.executor.shutdown(wait=True, cancel_futures=False)` up to its wait: what was submitted
  -- stays, and nothing more is taken.
  unfoldable pub close_executor : ActorEntry → Exec (Runtime U) (Unit {0})
  close_executor actor = modify λ r. record r {
    executors =
        update r.executors actor.executor (record (r.executors actor.executor) { is_shut = true });
  }

  abbrev pub settle_claim :
      ℕ → String → String → Option (ActorEntry × Bool) → Exec (Runtime U) (Option ActorEntry)
  settle_claim conn call_id actor_id none =
      send_error ser conn call_id (no_such_actor actor_id) >> pure none
  settle_claim conn call_id actor_id (some (actor, false)) =
      send_error ser conn call_id
        (actor_ownership_error ("connection does not own actor " <> quoted actor_id))
      >> pure none
  settle_claim conn call_id actor_id (some (actor, true)) =
      close_executor actor >> pure (some actor)

  -- `_destroy_actor` up to the wait for the actor's queued methods. It goes on with
  -- `finish_destroy` if it returns an actor, and has responded otherwise.
  unfoldable pub begin_destroy : ℕ → String → String → Exec (Runtime U) (Option ActorEntry)
  unfolding claim_actor close_executor
  begin_destroy conn call_id actor_id = do
    claim ← claim_actor conn actor_id
    settle_claim conn call_id actor_id claim

  -- The end of `_destroy_actor`, once the wait is over.
  unfoldable pub finish_destroy : ℕ → String → Exec (Runtime U) (Unit {0})
  finish_destroy conn call_id = send_result ser conn call_id nothing

-- The keys and the entries of a connection's actors.
unfoldable pub owned_ids : ℕ → Dict ActorEntry → List String
owned_ids conn [] = []
owned_ids conn ((id, actor) ∷ d) =
    let rest = owned_ids conn d in if actor.owner == conn then id ∷ rest else rest

unfoldable pub owned_actors : ℕ → Dict ActorEntry → List ActorEntry
owned_actors conn [] = []
owned_actors conn ((id, actor) ∷ d) =
    let rest = owned_actors conn d in if actor.owner == conn then actor ∷ rest else rest

unfoldable pub remove_all : List String → Dict ActorEntry → Dict ActorEntry
remove_all [] d = d
remove_all (id ∷ ids) d = remove_all ids (remove id d)

unfoldable pub cancel_all : {U : Type 0} → List ActorEntry → Runtime U → Runtime U
unfolding cancel_executor
cancel_all [] r = r
cancel_all (actor ∷ rest) r = cancel_all rest (cancel_executor actor r)

-- The part of `_remove_connection_actors` under the actors lock.
abbrev pub take_owned : {U : Type 0} → ℕ → Runtime U → Runtime U
take_owned conn r = record r { actors = remove_all (owned_ids conn r.actors) r.actors }

-- `_remove_connection_actors`, when no other thread runs in between
unfoldable pub remove_connection_actors : {U : Type 0} → ℕ → Runtime U → Runtime U
unfolding owned_ids owned_actors remove_all cancel_all
remove_connection_actors conn r = cancel_all (owned_actors conn r.actors) (take_owned conn r)
