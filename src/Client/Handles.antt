-- ===== src/Client/Handles.antt =====
-- `ActorHandle.close` and what a closed handle still does.
use rpc_freethread.Prelude.{ℕ, String, true, ◌≡◌, arith}
use rpc_freethread.Errors.{ok, err, connection_closed_error}
use rpc_freethread.Exec.{Exec}
use rpc_freethread.Value.{Value, Items, Fields}
use rpc_freethread.Python.{Python}
use rpc_freethread.Serializer.{Serializer}
use rpc_freethread.Client.State.{Client}
use rpc_freethread.Client.Handle.{ActorHandle, release, close_handle, call_method}

module _ ⦃py : Python⦄ (ser : Serializer) (wait : ℕ → Exec Client Value) where
  close_handle-closed :
      (id : String) (h : ActorHandle) (c : Client)
      → (close_handle ser wait id (h, c)).1.0.closed ≡ true
  unfolding close_handle release
  close_handle-closed id h c = ground arith

  closed_again :
      (id : String) (h : ActorHandle) (c : Client)
      → h.closed ≡ true
      → close_handle ser wait id (h, c) ≡ (ok tt, (h, c))
  unfolding close_handle
  closed_again id h c k = ground arith

  closed_call :
      (id name : String) (args : Items) (kwargs : Fields) (h : ActorHandle) (c : Client)
      → h.closed ≡ true
      → call_method ser wait id name args kwargs (h, c)
        ≡ (err (connection_closed_error "actor handle is closed"), (h, c))
  unfolding call_method
  closed_call id name args kwargs h c k = ground arith

  -- Whatever `close` on a handle returns or raises, the handle is closed after it: a second `close`
  -- changes nothing and returns, and a method call raises and sends nothing.
  pub closed_for_good :
      (id again name : String) (args : Items) (kwargs : Fields) (h : ActorHandle) (c : Client)
      → let s = (close_handle ser wait id (h, c)).1 in
        (close_handle ser wait again s ≡ (ok tt, s))
        × (call_method ser wait again name args kwargs s
            ≡ (err (connection_closed_error "actor handle is closed"), s))
  closed_for_good id again name args kwargs h c =
      let closed = close_handle-closed id h c in
      (closed_again again _ _ closed, closed_call again name args kwargs _ _ closed)
