-- ===== src/Runtime/Tasks.antt =====
-- `_execute_call`, and what a worker does with the task that it takes from an executor.
use rpc_freethread.Prelude.{ℕ, String, Bool, Option, some, List}
use rpc_freethread.Errors.{Result, ok, err}
use rpc_freethread.Exec.{Exec, lift, gets, ◌>>=◌}
use rpc_freethread.Value.{Value, Items, Fields}
use rpc_freethread.Python.{Python}
use rpc_freethread.Serializer.{Serializer}
use rpc_freethread.Registry.{get_function}
use rpc_freethread.Runtime.State.{Runtime, Task, ActorEntry}
use rpc_freethread.Runtime.Invoke.{UserCode, invoke_sync}
use rpc_freethread.Runtime.Respond.{send_result, send_error}
use rpc_freethread.Runtime.Actors.{
  on_world, respond, construct_actor, report_failure, attach_actor, begin_destroy,
}

-- What a thread has in hand after its first step: a call of a function or of a method in user code,
-- or before its response is sent (`pooled` for a function, which a worker of the pool runs);
-- `_create_actor` before the actors lock; `_destroy_actor` in its wait; and, of a connection's
-- handler, the removal of its actors, and then those whose executors it has still to shut down.
pub data Rest : Type 0 where
  finished : Rest
  calling : (conn : ℕ) (call_id name : String) (args : Items) (kwargs : Fields) → Rest
  invoking :
      (conn : ℕ) (call_id : String) (instance_id : ℕ) (name : String) (args : Items)
      (kwargs : Fields)
      → Rest
  returning : (pooled : Bool) (conn : ℕ) (call_id : String) (outcome : Result Value) → Rest
  settling : (conn : ℕ) (call_id actor_id : String) (actor : ActorEntry) → Rest
  draining : (conn : ℕ) (call_id : String) (actor : ActorEntry) → Rest
  leaving : (conn : ℕ) → Rest
  removing : (actors : List ActorEntry) → Rest

module _ ⦃py : Python⦄ {U : Type 0} (ser : Serializer) (user : UserCode U) where
  -- The `try` block of `_execute_call`.
  unfoldable pub call_function : String → Items → Fields → Exec (Runtime U) Value
  unfolding on_world
  call_function function_name args kwargs = do
    registry ← gets (λ r. r.registry)
    fn ← lift (get_function function_name registry)
    on_world (invoke_sync user (user.function_of fn) args kwargs)

  -- `_execute_call`
  unfoldable pub execute_call : ℕ → String → String → Items → Fields → Exec (Runtime U) (Unit {0})
  unfolding call_function
  execute_call conn call_id function_name args kwargs =
      respond (call_function function_name args kwargs) (send_error ser conn call_id)
        (send_result ser conn call_id)

  -- The response to a call of a function or a method: the `except` or the `else` block.
  unfoldable pub send_outcome : ℕ → String → Result Value → Exec (Runtime U) (Unit {0})
  send_outcome conn call_id (ok result) = send_result ser conn call_id result
  send_outcome conn call_id (err exc) = send_error ser conn call_id exc

  abbrev pub after_destroy : ℕ → String → Result (Option ActorEntry) → Rest
  after_destroy conn call_id (ok (some actor)) = Rest.draining conn call_id actor
  after_destroy conn call_id _ = Rest.finished

  -- The first step of `_create_actor`: the constructor runs, or its failure is reported.
  unfoldable pub begin_create :
      ℕ → String → String → String → Items → Fields → Runtime U → Rest × Runtime U
  begin_create conn call_id actor_id class_name args kwargs r =
      let (made, r') = construct_actor ser user conn class_name args kwargs r in
      elim made [
        | ok actor ↦ (Rest.settling conn call_id actor_id actor, r')
        | err exc ↦ (Rest.finished, (report_failure ser user conn call_id exc r').1)
      ]

  -- A worker's first step with a task. Its future keeps an exception that escapes from the task,
  -- which nobody reads.
  unfoldable pub run_task : Task → Runtime U → Rest × Runtime U
  unfolding begin_create
  run_task (Task.execute_call conn call_id name args kwargs) r =
      (Rest.calling conn call_id name args kwargs, r)
  run_task (Task.create_actor conn call_id actor_id name args kwargs) r =
      begin_create conn call_id actor_id name args kwargs r
  run_task (Task.execute_method conn call_id i name args kwargs) r =
      (Rest.invoking conn call_id i name args kwargs, r)
  run_task (Task.attach_actor conn call_id actor_id) r =
      (Rest.finished, (attach_actor ser user conn call_id actor_id r).1)
  run_task (Task.destroy_actor conn call_id actor_id) r =
      let (found, r') = begin_destroy ser user conn call_id actor_id r in
      (after_destroy conn call_id found, r')
  run_task (Task.send_error conn call_id exc) r =
      (Rest.finished, (send_error ser conn call_id exc r).1)
