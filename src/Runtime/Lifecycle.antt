-- ===== src/Runtime/Lifecycle.antt =====
-- `start`, `stop`, `_accept_loop` and `_handle_connection`.
use rpc_freethread.Prelude.{
  ℕ, zero, suc, ◌+◌, String, true, false, Option, none, some, List, [], ◌∷◌, ◌==◌, if◌then◌else◌,
}
use rpc_freethread.Prelude.Dict.{values}
use rpc_freethread.Errors.{Result, ok, err, runtime_error, value_error}
use rpc_freethread.Exec.{Exec, raise_if, gets, lift, modify, try_finally, ◌>>=◌, ◌>>◌}
use rpc_freethread.Value.{Value, number, text, mapping, tuple, field, end, from_strings}
use rpc_freethread.Python.{Python}
use rpc_freethread.Serializer.{Serializer}
use rpc_freethread.Protocol.Socket.{Sock}
use rpc_freethread.Protocol.{write_frame, receive_frame}
use rpc_freethread.Registry.{RemoteRegistry, catalog}
use rpc_freethread.Runtime.State.{Runtime, Connection, empty_executor, cancel, update, on_sock}
use rpc_freethread.Runtime.Messages.{handle_message}
use rpc_freethread.Runtime.Actors.{cancel_all, remove_connection_actors}

-- `type(max_frame_size) is not int or max_frame_size <= 0`
abbrev checked_size : Value → Result ℕ
checked_size (number (suc n)) = ok (suc n)
checked_size _ = err (value_error "max_frame_size must be a positive integer")

abbrev pub no_connection : Connection
no_connection = record {
  sock = record { incoming = []; outgoing = []; faults = [] };
  sock_open = false;
  closed = true;
}

abbrev with_size : {U : Type 0} → RemoteRegistry → U → Result ℕ → Result (Runtime U)
with_size registry world (err e) = err e
with_size registry world (ok max) = ok (record {
  registry = registry;
  max_frame_size = max;
  started = false;
  closed = false;
  stopping = false;
  connections = [];
  conns = λ _. no_connection;
  next_conn = 0;
  actors = [];
  pool = empty_executor;
  executors = λ _. empty_executor;
  next_executor = 0;
  world = world;
})

-- `RpcRuntime(max_frame_size=max)` in a process with this registry
unfoldable pub new_runtime : {U : Type 0} → RemoteRegistry → U → Value → Result (Runtime U)
new_runtime registry world max = with_size registry world (checked_size max)

-- `set.discard`
unfoldable pub discard : ℕ → List ℕ → List ℕ
discard i [] = []
discard i (j ∷ l) = let rest = discard i l in if i == j then rest else j ∷ rest

abbrev pub shut_connection : Connection → Connection
shut_connection c = record c { closed = true; sock_open = false }

module _ {U : Type 0} where
  -- `start`; `bound` is how creating, binding and listening on the server socket ends.
  unfoldable pub start : Result (Unit {0}) → Exec (Runtime U) (Unit {0})
  start bound = do
    closed ← gets (λ r. r.closed)
    raise_if closed (runtime_error "runtime cannot be restarted after stop")
    started ← gets (λ r. r.started)
    raise_if started (runtime_error "runtime is already started")
    lift bound
    modify (λ r. record r { started = true; stopping = false })

  -- A round of `_accept_loop` with a connection that was accepted.
  unfoldable pub accept_connection : Sock → Runtime U → Runtime U
  accept_connection sock r = record r {
    conns = update r.conns r.next_conn (record { sock = sock; sock_open = true; closed = false });
    connections = r.next_conn ∷ r.connections;
    next_conn = r.next_conn + 1;
  }

  -- Each connection of a list is closed.
  unfoldable pub shut_connections : List ℕ → Runtime U → Runtime U
  shut_connections [] r = r
  shut_connections (i ∷ l) r =
      shut_connections l (record r { conns = update r.conns i (shut_connection (r.conns i)) })

  -- What `stop` does when the runtime is not closed yet. Tasks of the pool that had begun are over
  -- when its shutdown returns.
  unfoldable pub stop_open : Runtime U → Runtime U
  unfolding shut_connections cancel_all
  stop_open r =
      let marked = record r { closed = true; stopping = true; started = false; connections = [] } in
      let dropped = shut_connections r.connections marked in
      cancel_all (values r.actors) (record dropped { pool = cancel dropped.pool; actors = [] })

  -- `stop`
  unfoldable pub stop : Runtime U → Runtime U
  unfolding stop_open
  stop r = elim r.closed [ true ↦ r | false ↦ stop_open r ]

  -- `wait`, when no other thread runs in between; `none` is a wait without end.
  unfoldable pub wait : Option ℕ → Runtime U → Option (Unit {0})
  wait timeout r = elim r.stopping [
    | true ↦ some tt
    | false ↦ elim timeout [ none ↦ none | some _ ↦ some tt ]
  ]

  -- `with runtime: body`: `__enter__` starts the runtime, and `__exit__` stops it.
  unfoldable pub with_runtime :
      {A : Type 0} → Result (Unit {0}) → Exec (Runtime U) A → Exec (Runtime U) A
  unfolding start stop
  with_runtime bound body = do start bound; try_finally body (modify stop)

  -- The `finally` block of `_handle_connection`, up to the removal of the actors.
  unfoldable pub leave : ℕ → Runtime U → Runtime U
  leave conn r = record r {
    conns = update r.conns conn (shut_connection (r.conns conn));
    connections = discard conn r.connections;
  }

abbrev pub catalog_message : List String → List String → Value
catalog_message functions actors = mapping (
    field "type" (text "catalog") (
      field "functions" (tuple (from_strings functions))
        (field "actors" (tuple (from_strings actors)) end)))

module _ ⦃py : Python⦄ {U : Type 0} (ser : Serializer) where
  -- `_send_catalog`
  unfoldable pub send_catalog : ℕ → Exec (Runtime U) (Unit {0})
  send_catalog conn = do
    (functions, actors) ← gets (λ r. catalog r.registry)
    payload ← lift (ser.dumps (catalog_message functions actors))
    max ← gets (λ r. r.max_frame_size)
    on_sock conn (write_frame max payload)

  -- A round of the loop in `_handle_connection`.
  unfoldable pub serve_one : ℕ → Exec (Runtime U) (Unit {0})
  serve_one conn = do
    max ← gets (λ r. r.max_frame_size)
    payload ← on_sock conn (receive_frame max)
    message ← lift (ser.loads payload)
    handle_message conn message

  -- The loop, with fuel; `none` means that the fuel ran out.
  unfoldable pub serve : ℕ → ℕ → Runtime U → Option (Runtime U)
  serve zero conn r = none
  serve (suc fuel) conn r = elim r.stopping [
    | true ↦ some r
    | false ↦
        let (v, r') = serve_one conn r in elim v [ ok _ ↦ serve fuel conn r' | err e ↦ some r' ]
  ]

  abbrev after_catalog : ℕ → ℕ → Result (Unit {0}) × Runtime U → Option (Runtime U)
  after_catalog fuel conn (ok _, r) = serve fuel conn r
  after_catalog fuel conn (err e, r) = some r

  abbrev clean_up : ℕ → Option (Runtime U) → Option (Runtime U)
  clean_up conn none = none
  clean_up conn (some r) = some (remove_connection_actors conn (leave conn r))

  -- `_handle_connection`, when no other thread runs in between
  unfoldable pub handle_connection : ℕ → ℕ → Runtime U → Option (Runtime U)
  unfolding send_catalog serve leave remove_connection_actors
  handle_connection fuel conn r = clean_up conn (after_catalog fuel conn (send_catalog conn r))
