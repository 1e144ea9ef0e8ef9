-- ===== src/Runtime/Operations.antt =====
-- Which operations of the server are calm.
use rpc_freethread.Prelude.{
  ℕ, String, Bool, true, false, ◌≡◌, refl, sym, subst, Option, none, some, arith, Bool-cases, inl,
  inr,
}
use rpc_freethread.Prelude.Dict.{contains, get-remove}
use rpc_freethread.Errors.{Error, Result, ok, err}
use rpc_freethread.Value.{Value, nothing, Items, Fields}
use rpc_freethread.Python.{Python}
use rpc_freethread.Serializer.{Serializer}
use rpc_freethread.Runtime.State.{Runtime, Task, ActorEntry, empty_executor}
use rpc_freethread.Runtime.Invoke.{UserCode}
use rpc_freethread.Runtime.Messages.{no_such_actor}
use rpc_freethread.Runtime.Actors.{
  new_entry, construct_actor, report_failure, run_method, attach_actor, claim_actor, close_executor,
  settle_claim, begin_destroy, finish_destroy,
}
use rpc_freethread.Runtime.Tasks.{call_function, send_outcome, begin_create, run_task, Rest}
use rpc_freethread.Runtime.Queues.{OnlyMethods, update-OnlyMethods}
use rpc_freethread.Runtime.Calm.{Calm, Calm-refl, Calm-trans, IsCalm, IsCalm-if, calm_rules}
use rpc_freethread.Runtime.Steps.{send_result-IsCalm, send_error-IsCalm}

module _ ⦃py : Python⦄ {U : Type 0} (ser : Serializer) (user : UserCode U) where
  new_entry-IsCalm : (i conn : ℕ) → IsCalm {U = U} (new_entry ser user i conn)
  unfolding new_entry
  new_entry-IsCalm i conn = record {
    at = λ r. record {
      stays_closed = λ j h. h;
      none_added = λ id e h. h;
      keeps_next = refl;
      stays_down = λ h. h;
      keeps_methods = λ h. update-OnlyMethods r.executors r.next_executor empty_executor h tt;
    };
  }

  construct_actor-IsCalm :
      (conn : ℕ) (name : String) (args : Items) (kwargs : Fields)
      → IsCalm (construct_actor ser user conn name args kwargs)
  unfolding construct_actor
  construct_actor-IsCalm conn name args kwargs = search (calm_rules, new_entry-IsCalm)

  pub report_failure-IsCalm :
      (conn : ℕ) (call_id : String) (e : Error) → IsCalm (report_failure ser user conn call_id e)
  unfolding report_failure
  report_failure-IsCalm conn call_id e = record {
    at = λ r. elim (Bool-cases (r.conns conn).closed) [
      | inl h ↦ rw (h, report_failure) (Calm-refl r)
      | inr h ↦ rw (h, report_failure) ((send_error-IsCalm ser conn call_id e).at r)
    ];
  }

  pub run_method-IsCalm :
      (i : ℕ) (name : String) (args : Items) (kwargs : Fields)
      → IsCalm (run_method ser user i name args kwargs)
  unfolding run_method
  run_method-IsCalm i name args kwargs = search calm_rules depth 8

  pub call_function-IsCalm :
      (name : String) (args : Items) (kwargs : Fields)
      → IsCalm (call_function ser user name args kwargs)
  unfolding call_function
  call_function-IsCalm name args kwargs = search calm_rules depth 8

  pub send_outcome-IsCalm :
      (conn : ℕ) (call_id : String) (v : Result Value)
      → IsCalm (send_outcome ser user conn call_id v)
  unfolding send_outcome
  send_outcome-IsCalm conn call_id (ok v) = send_result-IsCalm ser conn call_id v
  send_outcome-IsCalm conn call_id (err e) = send_error-IsCalm ser conn call_id e

  attach_actor-IsCalm :
      (conn : ℕ) (call_id actor_id : String) → IsCalm (attach_actor ser user conn call_id actor_id)
  unfolding attach_actor
  attach_actor-IsCalm conn call_id actor_id = record {
    at = λ r.
        (IsCalm-if (contains actor_id r.actors) _ _ (send_result-IsCalm ser conn call_id nothing)
            (send_error-IsCalm ser conn call_id (no_such_actor actor_id))).at
          r;
  }

  claim_actor-executors :
      (conn : ℕ) (actor_id : String) (r : Runtime U)
      → (claim_actor ser user conn actor_id r).1.executors ≡ r.executors
  unfolding claim_actor
  claim_actor-executors conn actor_id r = ground arith

  claim_actor-IsCalm : (conn : ℕ) (actor_id : String) → IsCalm (claim_actor ser user conn actor_id)
  unfolding claim_actor
  claim_actor-IsCalm conn actor_id = record {
    at = λ r. record {
      stays_closed = λ i h. ground arith;
      none_added = λ id e h. ground (arith, get-remove actor_id id r.actors);
      keeps_next = ground arith;
      stays_down = λ h. ground arith;
      keeps_methods = λ h. subst OnlyMethods (sym (claim_actor-executors conn actor_id r)) h;
    };
  }

  close_executor-IsCalm : (actor : ActorEntry) → IsCalm {U = U} (close_executor ser user actor)
  unfolding close_executor
  close_executor-IsCalm actor = record {
    at = λ r. record {
      stays_closed = λ j h. h;
      none_added = λ id e h. h;
      keeps_next = refl;
      stays_down = λ h. h;
      keeps_methods = λ h.
          update-OnlyMethods r.executors actor.executor
            (record (r.executors actor.executor) { is_shut = true }) h (h actor.executor);
    };
  }

  settle_claim-IsCalm :
      (conn : ℕ) (call_id actor_id : String) (o : Option (ActorEntry × Bool))
      → IsCalm (settle_claim ser user conn call_id actor_id o)
  settle_claim-IsCalm conn call_id actor_id none = search (calm_rules, send_error-IsCalm)
  settle_claim-IsCalm conn call_id actor_id (some (a, true)) =
      search (calm_rules, close_executor-IsCalm)
  settle_claim-IsCalm conn call_id actor_id (some (a, false)) =
      search (calm_rules, send_error-IsCalm)

  begin_destroy-IsCalm :
      (conn : ℕ) (call_id actor_id : String) → IsCalm (begin_destroy ser user conn call_id actor_id)
  unfolding begin_destroy
  begin_destroy-IsCalm conn call_id actor_id =
      search (calm_rules, claim_actor-IsCalm, settle_claim-IsCalm)

  pub finish_destroy-IsCalm :
      (conn : ℕ) (call_id : String) → IsCalm (finish_destroy ser user conn call_id)
  unfolding finish_destroy
  finish_destroy-IsCalm conn call_id = send_result-IsCalm ser conn call_id nothing

  begin_create_made :
      (made : Result ActorEntry) (conn : ℕ) (call_id actor_id : String) (r r' : Runtime U)
      → Calm r r'
      → Calm r
          (elim made as (λ _. Rest × Runtime U) [
            | ok actor ↦ (Rest.settling conn call_id actor_id actor, r')
            | err exc ↦ (Rest.finished, (report_failure ser user conn call_id exc r').1)
          ]).1
  begin_create_made (ok actor) conn call_id actor_id r r' h = h
  begin_create_made (err e) conn call_id actor_id r r' h =
      Calm-trans h ((report_failure-IsCalm conn call_id e).at r')

  -- The first step of every task is calm.
  pub run_task-Calm : (t : Task) (r : Runtime U) → Calm r (run_task ser user t r).1
  unfolding run_task begin_create
  run_task-Calm (Task.execute_call conn call_id name args kwargs) r = Calm-refl r
  run_task-Calm (Task.create_actor conn call_id actor_id name args kwargs) r =
      begin_create_made _ conn call_id actor_id r _
        ((construct_actor-IsCalm conn name args kwargs).at r)
  run_task-Calm (Task.execute_method conn call_id i name args kwargs) r = Calm-refl r
  run_task-Calm (Task.attach_actor conn call_id actor_id) r =
      (attach_actor-IsCalm conn call_id actor_id).at r
  run_task-Calm (Task.destroy_actor conn call_id actor_id) r =
      (begin_destroy-IsCalm conn call_id actor_id).at r
  run_task-Calm (Task.send_error conn call_id e) r = (send_error-IsCalm ser conn call_id e).at r
