-- ===== src/Runtime/Messages.antt =====
-- `_handle_message` and the handlers that it calls: each checks its message and submits one task.
use rpc_freethread.Prelude.{ℕ, String, ◌<>◌, Option, none, some, if◌then◌else◌}
use rpc_freethread.Prelude.Dict.{get}
use rpc_freethread.Errors.{Error, Result, ok, err, protocol_error, actor_not_found_error}
use rpc_freethread.Exec.{Exec, raise, lift, gets, ◌>>=◌}
use rpc_freethread.Value.{
  Value, nothing, text, sequence, mapping, Items, nil, Fields, end, field_or, is_text,
}
use rpc_freethread.Python.{Python, quoted}
use rpc_freethread.Runtime.State.{
  Runtime, execute_call, create_actor, execute_method, attach_actor, destroy_actor, send_error,
  ActorEntry, submit, submit_to,
}

abbrev as_string : String → Value → Result String
as_string name (text s) = ok s
as_string name _ = err (protocol_error (name <> " must be a string"))

-- `_require_string`
unfoldable pub require_string : Fields → String → Result String
require_string message name = as_string name (field_or nothing name message)

abbrev as_list : Value → Result Items
as_list (sequence xs) = ok xs
as_list _ = err (protocol_error "args must be a list")

abbrev as_dict : Value → Result Fields
as_dict (mapping fs) = ok fs
as_dict _ = err (protocol_error "kwargs must be a dictionary")

abbrev pair_of : Result Items → Result Fields → Result (Items × Fields)
pair_of (ok args) (ok kwargs) = ok (args, kwargs)
pair_of (ok args) (err e) = err e
pair_of (err e) _ = err e

-- `_require_arguments`
unfoldable pub require_arguments : Fields → Result (Items × Fields)
require_arguments message =
    pair_of (as_list (field_or (sequence nil) "args" message))
      (as_dict (field_or (mapping end) "kwargs" message))

module _ ⦃py : Python⦄ where
  abbrev pub no_such_actor : String → Error
  no_such_actor actor_id =
      actor_not_found_error ("actor " <> (quoted actor_id <> " does not exist"))

module _ ⦃py : Python⦄ {U : Type 0} where
  -- `_handle_function_call`
  unfoldable pub handle_function_call : ℕ → Fields → Exec (Runtime U) (Unit {0})
  handle_function_call conn message = do
    call_id ← lift (require_string message "call_id")
    function_name ← lift (require_string message "function")
    (args, kwargs) ← lift (require_arguments message)
    submit (execute_call conn call_id function_name args kwargs)

  -- `_handle_actor_create`
  unfoldable pub handle_actor_create : ℕ → Fields → Exec (Runtime U) (Unit {0})
  handle_actor_create conn message = do
    call_id ← lift (require_string message "call_id")
    actor_id ← lift (require_string message "actor_id")
    class_name ← lift (require_string message "class")
    (args, kwargs) ← lift (require_arguments message)
    submit (create_actor conn call_id actor_id class_name args kwargs)

  abbrev pub route_method :
      ℕ
      → String
      → String
      → String
      → Items
      → Fields
      → Option ActorEntry
      → Exec (Runtime U) (Unit {0})
  route_method conn call_id actor_id method_name args kwargs (some actor) =
      submit_to actor.executor
        (execute_method conn call_id actor.instance_id method_name args kwargs)
  route_method conn call_id actor_id method_name args kwargs none =
      submit (send_error conn call_id (no_such_actor actor_id))

  -- `_handle_actor_call`. The lookup and the submission are one step under the actors lock.
  unfoldable pub handle_actor_call : ℕ → Fields → Exec (Runtime U) (Unit {0})
  handle_actor_call conn message = do
    call_id ← lift (require_string message "call_id")
    actor_id ← lift (require_string message "actor_id")
    method_name ← lift (require_string message "method")
    (args, kwargs) ← lift (require_arguments message)
    actor ← gets (λ r. get actor_id r.actors)
    route_method conn call_id actor_id method_name args kwargs actor

  -- `_handle_actor_attach`
  unfoldable pub handle_actor_attach : ℕ → Fields → Exec (Runtime U) (Unit {0})
  handle_actor_attach conn message = do
    call_id ← lift (require_string message "call_id")
    actor_id ← lift (require_string message "actor_id")
    submit (attach_actor conn call_id actor_id)

  -- `_handle_actor_destroy`
  unfoldable pub handle_actor_destroy : ℕ → Fields → Exec (Runtime U) (Unit {0})
  handle_actor_destroy conn message = do
    call_id ← lift (require_string message "call_id")
    actor_id ← lift (require_string message "actor_id")
    submit (destroy_actor conn call_id actor_id)

  -- The tests on the message's type, in the order of the code.
  unfoldable pub dispatch : ℕ → Fields → Value → Exec (Runtime U) (Unit {0})
  dispatch conn message kind =
      if is_text "call" kind
      then handle_function_call conn message
      else if is_text "create_actor" kind
      then handle_actor_create conn message
      else if is_text "attach_actor" kind
      then handle_actor_attach conn message
      else if is_text "call_actor" kind
      then handle_actor_call conn message
      else if is_text "destroy_actor" kind
      then handle_actor_destroy conn message
      else raise (protocol_error ("unexpected message type " <> py.repr kind))

  -- `_handle_message`
  unfoldable pub handle_message : ℕ → Value → Exec (Runtime U) (Unit {0})
  unfolding dispatch
  handle_message conn (mapping message) = dispatch conn message (field_or nothing "type" message)
  handle_message conn _ = raise (protocol_error "request message must be a dictionary")
