-- ===== src/Agreement/Requests.antt =====
-- The requests that `RpcClientConnection` sends, as `_handle_message` reads them.
use rpc_freethread.Prelude.{ℕ, String, ◌≡◌, refl}
use rpc_freethread.Prelude.Dict.{get}
use rpc_freethread.Value.{Value, text, mapping, Items, Fields, put_field, lookup}
use rpc_freethread.Python.{Python}
use rpc_freethread.Runtime.State.{Runtime, Task, submit}
use rpc_freethread.Runtime.Messages.{
  handle_message, dispatch, handle_function_call, handle_actor_create, handle_actor_call,
  handle_actor_attach, handle_actor_destroy, route_method, require_string, require_arguments,
}
use rpc_freethread.Client.Handle.{
  call_request, create_request, attach_request, method_request, destroy_request,
}

-- The message of a request: `{**request, "call_id": call_id}`.
abbrev pub message : String → Fields → Value
message id request = mapping (put_field "call_id" (text id) request)

module _ ⦃py : Python⦄ {U : Type 0} where
  -- Every request that a client sends is one that the server takes, and the task that the server
  -- submits has the request's call id, names and arguments: a call of a function, the creation,
  -- attachment and destruction of an actor, and a method call, which is routed by the actor's id.
  pub requests_understood :
      (conn : ℕ) (id name actor_id : String) (args : Items) (kwargs : Fields) (r : Runtime U)
      → (handle_message conn (message id (call_request name args kwargs)) r
          ≡ submit (Task.execute_call conn id name args kwargs) r)
        × (handle_message conn (message id (create_request actor_id name args kwargs)) r
            ≡ submit (Task.create_actor conn id actor_id name args kwargs) r)
        × (handle_message conn (message id (attach_request actor_id)) r
            ≡ submit (Task.attach_actor conn id actor_id) r)
        × (handle_message conn (message id (method_request actor_id name args kwargs)) r
            ≡ route_method conn id actor_id name args kwargs (get actor_id r.actors) r)
        × (handle_message conn (message id (destroy_request actor_id)) r
            ≡ submit (Task.destroy_actor conn id actor_id) r)
  unfolding handle_message dispatch handle_function_call handle_actor_create handle_actor_call
      handle_actor_attach handle_actor_destroy require_string require_arguments put_field lookup
  requests_understood conn id name actor_id args kwargs r = (refl, refl, refl, refl, refl)
