-- ===== src/Client/Handle.antt =====
-- The requests of `RpcClientConnection`, `RemoteProcess` with its proxies, and `ActorHandle`.
use rpc_freethread.Prelude.{
  ℕ, String, Bool, true, false, ◌||◌, List, [], ◌∷◌, starts_with, str_eq, if◌then◌else◌,
}
use rpc_freethread.Errors.{
  Error, Result, ok, err, value_error, attribute_error, connection_closed_error, remote_error,
}
use rpc_freethread.Exec.{Exec, pure, raise, raise_if, try_except, try_finally, ◌>>=◌, ◌>>◌}
use rpc_freethread.Value.{Value, text, sequence, mapping, Items, Fields, field, end}
use rpc_freethread.Python.{Python}
use rpc_freethread.Serializer.{Serializer}
use rpc_freethread.Client.State.{Client}
use rpc_freethread.Client.Connection.{send_request}

abbrev pub call_request : String → Items → Fields → Fields
call_request function_name args kwargs = field "type" (text "call") (
    field "function" (text function_name)
      (field "args" (sequence args) (field "kwargs" (mapping kwargs) end)))

abbrev pub create_request : String → String → Items → Fields → Fields
create_request actor_id class_name args kwargs = field "type" (text "create_actor") (
    field "actor_id" (text actor_id) (
      field "class" (text class_name)
        (field "args" (sequence args) (field "kwargs" (mapping kwargs) end))))

abbrev pub attach_request : String → Fields
attach_request actor_id = field "type" (text "attach_actor") (field "actor_id" (text actor_id) end)

abbrev pub method_request : String → String → Items → Fields → Fields
method_request actor_id method_name args kwargs = field "type" (text "call_actor") (
    field "actor_id" (text actor_id) (
      field "method" (text method_name)
        (field "args" (sequence args) (field "kwargs" (mapping kwargs) end))))

abbrev pub destroy_request : String → Fields
destroy_request actor_id =
    field "type" (text "destroy_actor") (field "actor_id" (text actor_id) end)

-- `ActorHandle`
pub record ActorHandle : Type 0 where
  pub actor_id : String
  pub owns_actor : Bool
  pub closed : Bool

-- `ActorHandle(connection, actor_id, owns_actor=owns)`
abbrev pub new_handle : String → Bool → ActorHandle
new_handle actor_id owns = record { actor_id = actor_id; owns_actor = owns; closed = false }

-- What `RemoteProcess.__getattr__` returns.
pub data Proxy : Type 0 where
  function_proxy actor_class_proxy : String → Proxy

abbrev listed : String → List String → Bool
listed name [] = false
listed name (x ∷ xs) = let rest = listed name xs in str_eq x name || rest

-- `RemoteProcess.__getattr__`
unfoldable pub remote_attribute : List String → String → Result Proxy
remote_attribute actor_names name =
    if starts_with name "_"
    then err (attribute_error name)
    else if listed name actor_names
    then ok (actor_class_proxy name)
    else ok (function_proxy name)

-- `ActorHandle.__getattr__`: the name of the method that the proxy calls.
unfoldable pub actor_attribute : String → Result String
actor_attribute name = if starts_with name "_" then err (attribute_error name) else ok name

-- `wait` is `ref.get(timeout=self._default_timeout)`, during which the other threads of the client
-- run; the identifiers are those that `uuid4` gives.
module _ ⦃py : Python⦄ (ser : Serializer) (wait : ℕ → Exec Client Value) where
  -- `RpcClientConnection.call`
  unfoldable pub call : String → String → Items → Fields → Exec Client ℕ
  call id function_name args kwargs = send_request ser id (call_request function_name args kwargs)

  -- `RpcClientConnection.create_actor`
  unfoldable pub create_actor : String → String → String → Items → Fields → Exec Client ActorHandle
  create_actor id actor_id class_name args kwargs = do
    ref ← send_request ser id (create_request actor_id class_name args kwargs)
    wait ref
    pure (new_handle actor_id true)

  -- `RpcClientConnection.attach_actor`
  unfoldable pub attach_actor : String → Value → Exec Client ActorHandle
  attach_actor id (text actor_id) = do
    raise_if (str_eq actor_id "") (value_error "actor_id must be a non-empty string")
    ref ← send_request ser id (attach_request actor_id)
    wait ref
    pure (new_handle actor_id false)
  attach_actor id _ = raise (value_error "actor_id must be a non-empty string")

  -- `RpcClientConnection.call_actor`
  unfoldable pub call_actor : String → String → String → Items → Fields → Exec Client ℕ
  call_actor id actor_id method_name args kwargs =
      send_request ser id (method_request actor_id method_name args kwargs)

  -- `RpcClientConnection.destroy_actor`
  unfoldable pub destroy_actor : String → String → Exec Client (Unit {0})
  destroy_actor id actor_id = do
    ref ← send_request ser id (destroy_request actor_id)
    wait ref
    pure tt

  -- The errors that `ActorHandle.close` passes over.
  abbrev passed_over : Error → Bool
  passed_over (connection_closed_error _) = true
  passed_over (remote_error t m) = str_eq t "ActorNotFoundError"
  passed_over _ = false

  -- A method of the connection, called by a handle.
  abbrev on_client : {A : Type 0} → Exec Client A → Exec (ActorHandle × Client) A
  on_client m (h, c) = let (r, c') = m c in (r, (h, c'))

  -- The part of `ActorHandle.close` after the lifecycle lock.
  unfoldable pub release : String → ActorHandle → Exec (ActorHandle × Client) (Unit {0})
  unfolding destroy_actor
  release id h =
      if h.owns_actor
      then try_except (on_client (destroy_actor id h.actor_id))
          (λ e. if passed_over e then pure tt else raise e)
      else pure tt

  -- `ActorHandle.close`
  unfoldable pub close_handle : String → Exec (ActorHandle × Client) (Unit {0})
  unfolding release
  close_handle id (h, c) = elim h.closed [
    | true ↦ (ok tt, (h, c))
    | false ↦ release id h (record h { closed = true }, c)
  ]

  -- `ActorHandle._call`, which `ActorMethodProxy.remote` calls
  unfoldable pub call_method : String → String → Items → Fields → Exec (ActorHandle × Client) ℕ
  unfolding call_actor
  call_method id method_name args kwargs (h, c) = elim h.closed [
    | true ↦ (err (connection_closed_error "actor handle is closed"), (h, c))
    | false ↦ on_client (call_actor id h.actor_id method_name args kwargs) (h, c)
  ]

  -- `with handle: body`: `__enter__` returns the handle, and `__exit__` closes it.
  unfoldable pub with_handle :
      {A : Type 0} → String → Exec (ActorHandle × Client) A → Exec (ActorHandle × Client) A
  unfolding close_handle
  with_handle id body = try_finally body (close_handle id)
