-- ===== src/Runtime/Replying.antt =====
-- The operations of runtime.py that answer a call, each on every branch.
use rpc_freethread.Prelude.{ℕ, String, Bool, true, false, ◌≡◌, refl, inr, if◌then◌else◌}
use rpc_freethread.Prelude.Dict.{contains}
use rpc_freethread.Errors.{Error, Result, ok, err}
use rpc_freethread.Exec.{Exec, lift, modify, ◌>>◌}
use rpc_freethread.Value.{Value, Items, Fields, nothing}
use rpc_freethread.Python.{Python}
use rpc_freethread.Serializer.{Serializer}
use rpc_freethread.Runtime.State.{Runtime, ActorEntry}
use rpc_freethread.Runtime.Invoke.{UserCode}
use rpc_freethread.Runtime.Respond.{send_result, send_error}
use rpc_freethread.Runtime.Replies.{
  Replied, Replies, Silent, IsSilent, Silent-Replied, send_response-Replies, value, failure,
}
use rpc_freethread.Runtime.Actors.{
  respond, construct_actor, new_entry, insert_actor, report_failure, settle_actor, cancel_executor,
  run_method, execute_actor_method, attach_actor, finish_destroy,
}
use rpc_freethread.Runtime.Tasks.{call_function, execute_call, send_outcome}
use rpc_freethread.Runtime.Messages.{no_such_actor}
use rpc_freethread.Runtime.Silent.{IsSilent-put, silent_rules}

module _ {U A : Type 0} (ser : Serializer) (conn : ℕ) (id : String) where
  Replied-after :
      (f : Error → Exec (Runtime U) (Unit {0})) (g : A → Exec (Runtime U) (Unit {0})) (v : Result A)
      (r s : Runtime U)
      → ((e : Error) → Replies ser conn id (f e))
      → ((a : A) → Replies ser conn id (g a))
      → Silent r s
      → Replied ser conn id r.max_frame_size r.conns ((respond (lift v) f g s).1).conns
  Replied-after f g (ok a) r s kf kg h = Silent-Replied ser conn id r s ((g a s).1) h ((kg a).at s)
  Replied-after f g (err e) r s kf kg h = Silent-Replied ser conn id r s ((f e s).1) h ((kf e).at s)

  respond-Replies :
      (m : Exec (Runtime U) A) (f : Error → Exec (Runtime U) (Unit {0}))
      (g : A → Exec (Runtime U) (Unit {0}))
      → IsSilent m
      → ((e : Error) → Replies ser conn id (f e))
      → ((a : A) → Replies ser conn id (g a))
      → Replies ser conn id (respond m f g)
  respond-Replies m f g h kf kg = record {
    at = λ r. Replied-after f g (m r).0 r (m r).1 kf kg (h.at r);
  }

module _ {U : Type 0} (ser : Serializer) (conn : ℕ) (id : String) where
  send_result-Replies : (v : Value) → Replies {U = U} ser conn id (send_result ser conn id v)
  unfolding send_result
  send_result-Replies v = send_response-Replies ser conn id _ (value v)

  pub send_error-Replies : (e : Error) → Replies {U = U} ser conn id (send_error ser conn id e)
  unfolding send_error
  send_error-Replies e = send_response-Replies ser conn id _ (failure e)

module _ ⦃py : Python⦄ {U : Type 0} (ser : Serializer) (user : UserCode U) (conn : ℕ)
    (id : String) where
  told :
      (b : Bool) (e : Error) (r : Runtime U)
      → (r.conns conn).closed ≡ b
      → Replied ser conn id r.max_frame_size r.conns
          (elim b as (λ _. Result (Unit {0}) × Runtime U) [
            | true ↦ (ok tt, r)
            | false ↦ send_error ser conn id e r
          ]).1.conns
  told true e r h = record { here = inr (inr (h, refl)); others = λ j d. refl }
  told false e r h = (send_error-Replies ser conn id e).at r

  pub report_failure-Replies : (e : Error) → Replies ser conn id (report_failure ser user conn id e)
  unfolding report_failure
  report_failure-Replies e = record { at = λ r. told (r.conns conn).closed e r refl }

  new_entry-IsSilent : (i : ℕ) → IsSilent (new_entry ser user i conn)
  unfolding new_entry
  new_entry-IsSilent i = record { at = λ r. record { conns = refl; max = refl } }

  pub construct_actor-IsSilent :
      (name : String) (args : Items) (kwargs : Fields)
      → IsSilent (construct_actor ser user conn name args kwargs)
  unfolding construct_actor
  construct_actor-IsSilent name args kwargs = search (silent_rules, new_entry-IsSilent)

  insert_actor-IsSilent :
      (actor_id : String) (actor : ActorEntry)
      → IsSilent (insert_actor ser user conn actor_id actor)
  unfolding insert_actor
  insert_actor-IsSilent actor_id actor = search (silent_rules, IsSilent-put)

  failed-Replies :
      (actor : ActorEntry) (e : Error)
      → Replies ser conn id (modify (cancel_executor actor) >> report_failure ser user conn id e)
  unfolding cancel_executor
  failed-Replies actor e = record {
    at = λ r. (report_failure-Replies e).at (cancel_executor actor r);
  }

  pub settle_actor-Replies :
      (actor_id : String) (actor : ActorEntry)
      → Replies ser conn id (settle_actor ser user conn id actor_id actor)
  unfolding settle_actor
  settle_actor-Replies actor_id actor =
      respond-Replies ser conn id _ _ _ (insert_actor-IsSilent actor_id actor)
        (failed-Replies actor) (λ _. send_result-Replies ser conn id nothing)

  pub call_function-IsSilent :
      (name : String) (args : Items) (kwargs : Fields)
      → IsSilent (call_function ser user name args kwargs)
  unfolding call_function
  call_function-IsSilent name args kwargs = search silent_rules

  pub run_method-IsSilent :
      (i : ℕ) (name : String) (args : Items) (kwargs : Fields)
      → IsSilent (run_method ser user i name args kwargs)
  unfolding run_method
  run_method-IsSilent i name args kwargs = search silent_rules

  pub send_outcome-Replies :
      (v : Result Value) → Replies ser conn id (send_outcome ser user conn id v)
  unfolding send_outcome
  send_outcome-Replies (ok v) = send_result-Replies ser conn id v
  send_outcome-Replies (err e) = send_error-Replies ser conn id e

  sends :
      (v : Result Value) (r : Runtime U)
      → respond (lift v) (send_error ser conn id) (send_result ser conn id) r
        ≡ send_outcome ser user conn id v r
  unfolding send_outcome
  sends (ok v) r = refl
  sends (err e) r = refl

  -- `_execute_call` is user code's step and then the reply, with no other thread in between.
  execute_call-steps :
      (name : String) (args : Items) (kwargs : Fields) (r : Runtime U)
      → execute_call ser user conn id name args kwargs r ≡ (
          let (v, r') = call_function ser user name args kwargs r in
          send_outcome ser user conn id v r')
  unfolding execute_call
  execute_call-steps name args kwargs r =
      let p = call_function ser user name args kwargs r in sends p.0 p.1

  -- The same of `_execute_actor_method`.
  execute_actor_method-steps :
      (i : ℕ) (name : String) (args : Items) (kwargs : Fields) (r : Runtime U)
      → execute_actor_method ser user conn id i name args kwargs r ≡ (
          let (v, r') = run_method ser user i name args kwargs r in
          send_outcome ser user conn id v r')
  unfolding execute_actor_method
  execute_actor_method-steps i name args kwargs r =
      let p = run_method ser user i name args kwargs r in sends p.0 p.1

  if-Replies :
      (b : Bool) (m n : Exec (Runtime U) (Unit {0}))
      → Replies ser conn id m
      → Replies ser conn id n
      → Replies ser conn id (if b then m else n)
  if-Replies true m n h k = h
  if-Replies false m n h k = k

  pub attach_actor-Replies :
      (actor_id : String) → Replies ser conn id (attach_actor ser user conn id actor_id)
  unfolding attach_actor
  attach_actor-Replies actor_id = record {
    at = λ r.
        (if-Replies (contains actor_id r.actors) _ _ (send_result-Replies ser conn id nothing)
            (send_error-Replies ser conn id (no_such_actor actor_id))).at
          r;
  }

  pub finish_destroy-Replies : Replies ser conn id (finish_destroy ser user conn id)
  unfolding finish_destroy
  finish_destroy-Replies = send_result-Replies ser conn id nothing
