-- ===== src/Examples/Closing.antt =====
-- The client of examples/client.py closes its connection.
use rpc_freethread.Prelude.{ℕ, String, true, ◌≡◌}
use rpc_freethread.Exec.{Exec}
use rpc_freethread.Value.{Value}
use rpc_freethread.Python.{Python}
use rpc_freethread.Serializer.{Serializer}
use rpc_freethread.Client.State.{Client}
use rpc_freethread.Client.Connection.{close}
use rpc_freethread.Client.Process.{RemoteProcess, close_process}
use rpc_freethread.Client.Reader.{close_closes}
use rpc_freethread.Examples.{Session, session, calls}

module _ ⦃py : Python⦄ (ser : Serializer) where
  close_process-closed : (p : RemoteProcess) → (close_process ser p).1.connection.closed ≡ true
  unfolding close_process close
  close_process-closed p =
      close_closes "ConnectionClosedError" "client connection closed" p.connection

  -- However the calls of the script and its waits end, the connection is closed after it.
  pub session-closed :
      (wait : ℕ → Exec Client Value) (ids : ℕ → String × String) (s : Session)
      → (session ser wait ids s).1.0.connection.closed ≡ true
  unfolding session
  session-closed wait ids s = close_process-closed (calls ser wait ids s).1.0
