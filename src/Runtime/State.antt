-- ===== src/Runtime/State.antt =====
-- The state of `RpcRuntime`, its connections, its actors and its executors. Objects that threads
-- share are named by addresses: a connection, an executor and an actor's instance by a number.
use rpc_freethread.Prelude.{ℕ, String, Bool, true, false, List, [], ◌∷◌, ◌++◌, ◌==◌, if◌then◌else◌}
use rpc_freethread.Prelude.Dict.{Dict}
use rpc_freethread.Errors.{Error, Result, ok, err, os_error, runtime_error}
use rpc_freethread.Exec.{Exec}
use rpc_freethread.Value.{Items, Fields}
use rpc_freethread.Protocol.Socket.{Sock}
use rpc_freethread.Registry.{RemoteRegistry}

-- `_RuntimeConnection`; the write lock is held within one step.
pub record Connection : Type 0 where
  pub sock : Sock
  pub sock_open : Bool
  pub closed : Bool

-- `_ActorEntry`
pub record ActorEntry : Type 0 where
  pub instance_id : ℕ
  pub owner : ℕ
  pub executor : ℕ

-- A call that was submitted to an executor, with its arguments.
pub data Task : Type 0 where
  execute_call : (conn : ℕ) (call_id function_name : String) (args : Items) (kwargs : Fields) → Task
  create_actor :
      (conn : ℕ) (call_id actor_id class_name : String) (args : Items) (kwargs : Fields) → Task
  execute_method :
      (conn : ℕ) (call_id : String) (instance_id : ℕ) (method_name : String) (args : Items)
      (kwargs : Fields)
      → Task
  attach_actor : (conn : ℕ) (call_id actor_id : String) → Task
  destroy_actor : (conn : ℕ) (call_id actor_id : String) → Task
  send_error : (conn : ℕ) (call_id : String) (exc : Error) → Task

-- A `ThreadPoolExecutor`: the tasks that wait, oldest first, and whether it was shut down.
pub record Executor : Type 0 where
  pub queue : List Task
  pub is_shut : Bool

-- `world` is the state of everything that remote functions and actors can change.
pub record Runtime (U : Type 0) : Type 0 where
  pub registry : RemoteRegistry
  pub max_frame_size : ℕ
  pub started : Bool
  pub closed : Bool
  pub stopping : Bool
  pub connections : List ℕ
  pub conns : ℕ → Connection
  pub next_conn : ℕ
  pub actors : Dict ActorEntry
  pub pool : Executor
  pub executors : ℕ → Executor
  pub next_executor : ℕ
  pub world : U

abbrev pub update {ℓ} : {A : Type ℓ} → (ℕ → A) → ℕ → A → ℕ → A
update f i a j = if i == j then a else f j

abbrev pub empty_executor : Executor
empty_executor = record { queue = []; is_shut = false }

abbrev pub shut_down : Executor
shut_down = record { queue = []; is_shut = true }

abbrev pub cannot_schedule : Error
cannot_schedule = runtime_error "cannot schedule new futures after shutdown"

-- `executor.submit(...)`
abbrev pub enqueue : Task → Executor → Result (Unit {0}) × Executor
enqueue t x = elim x.is_shut [
  | true ↦ (err cannot_schedule, x)
  | false ↦ (ok tt, record x { queue = x.queue ++ (t ∷ []) })
]

-- `executor.shutdown(wait=True, cancel_futures=True)`: what waits is dropped.
abbrev pub cancel : Executor → Executor
cancel x = shut_down

module _ {U : Type 0} where
  -- `self._executor.submit(...)`
  unfoldable pub submit : Task → Exec (Runtime U) (Unit {0})
  submit t r = let (done, x) = enqueue t r.pool in (done, record r { pool = x })

  -- `actor.executor.submit(...)`
  unfoldable pub submit_to : ℕ → Task → Exec (Runtime U) (Unit {0})
  submit_to k t r =
      let (done, x) = enqueue t (r.executors k) in
      (done, record r { executors = update r.executors k x })

  -- A call on a connection's socket; once closed, every call on it raises.
  unfoldable pub on_sock : {A : Type 0} → ℕ → Exec Sock A → Exec (Runtime U) A
  on_sock i m r = elim (r.conns i).sock_open [
    | true ↦
        let (a, s) = m (r.conns i).sock in
        (a, record r { conns = update r.conns i (record (r.conns i) { sock = s }) })
    | false ↦ (err (os_error "Bad file descriptor"), r)
  ]

  -- `_abort_connection`. The errors of the calls that close the socket are ignored.
  unfoldable pub abort_connection : ℕ → Runtime U → Runtime U
  abort_connection i r = record r {
    conns = update r.conns i (record (r.conns i) { closed = true; sock_open = false });
  }
