-- ===== src/Client/Process.antt =====
-- `connect`, `RemoteProcess` and its proxies.
use rpc_freethread.Prelude.{ℕ, String, List, ◌⊎◌, inl, inr}
use rpc_freethread.Errors.{Result, ok, ◌>>=◌}
use rpc_freethread.Exec.{Exec}
use rpc_freethread.Exec as Exec
use rpc_freethread.Value.{Value, Items, Fields}
use rpc_freethread.Python.{Python}
use rpc_freethread.Serializer.{Serializer}
use rpc_freethread.Protocol.Socket.{Sock}
use rpc_freethread.Protocol.{receive_frame}
use rpc_freethread.Client.Address.{ℤ, parse_address}
use rpc_freethread.Client.Catalog.{parse_catalog}
use rpc_freethread.Client.State.{Client, check_max_frame_size, new_client}
use rpc_freethread.Client.Connection.{close}
use rpc_freethread.Client.Handle.{
  ActorHandle, Proxy, function_proxy, actor_class_proxy, call, create_actor, attach_actor,
  call_method,
}

-- `RemoteProcess`
pub record RemoteProcess : Type 0 where
  pub connection : Client
  pub actor_names : List String

module _ ⦃py : Python⦄ (ser : Serializer) where
  -- The `try` block of `connect`, with what reading the first frame gave. If it raises, the socket
  -- is closed and nobody has it.
  abbrev opened : Value → Result (List ℕ) × Sock → Result RemoteProcess
  opened max (received, sock) = do
    payload ← received
    message ← ser.loads payload
    names ← parse_catalog message
    client ← new_client sock max
    ok (record { connection = client; actor_names = names })

  -- `connect`; `dial` is `socket.create_connection`.
  unfoldable pub connect : String → Value → (String → ℤ → Result Sock) → Result RemoteProcess
  connect address max dial = do
    limit ← check_max_frame_size max
    (host, port) ← parse_address address
    sock ← dial host port
    opened max (receive_frame limit sock)

  -- A method of the connection, called by the process.
  abbrev pub on_connection : {A : Type 0} → Exec Client A → Exec RemoteProcess A
  on_connection m p = let (r, c) = m p.connection in (r, record p { connection = c })

  -- `RemoteProcess.close`
  unfoldable pub close_process : Exec RemoteProcess (Unit {0})
  close_process = on_connection close

  -- `with process: body`: `__enter__` returns the process, and `__exit__` closes it.
  unfoldable pub with_process : {A : Type 0} → Exec RemoteProcess A → Exec RemoteProcess A
  unfolding close_process
  with_process body = Exec.try_finally body close_process

  module _ (wait : ℕ → Exec Client Value) where
    -- `RemoteProcess.attach_actor`
    unfoldable pub process_attach : String → Value → Exec RemoteProcess ActorHandle
    process_attach id actor_id = on_connection (attach_actor ser wait id actor_id)

    -- `RemoteFunctionProxy.remote` and `RemoteActorClassProxy.remote`
    unfoldable pub proxy_remote :
        Proxy → String → String → Items → Fields → Exec Client (ℕ ⊎ ActorHandle)
    proxy_remote (function_proxy name) id actor_id args kwargs =
        Exec.◌>>=◌ (call ser wait id name args kwargs) (λ ref. Exec.pure (inl ref))
    proxy_remote (actor_class_proxy name) id actor_id args kwargs =
        Exec.◌>>=◌ (create_actor ser wait id actor_id name args kwargs)
          (λ handle. Exec.pure (inr handle))

    -- `ActorMethodProxy.remote`
    unfoldable pub method_remote : String → String → Items → Fields → Exec (ActorHandle × Client) ℕ
    method_remote name id args kwargs = call_method ser wait id name args kwargs
