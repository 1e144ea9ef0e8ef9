-- ===== src/Runtime/Halted.antt =====
-- What the caller of `stop` finds when it returns: the invariant of its phases, while the other
-- threads of the server go on.
use rpc_freethread.Prelude.{
  ℕ, String, true, ◌≡◌, refl, sym, subst, none, List, [], ◌∷◌, All, inl, inr,
}
use rpc_freethread.Prelude.Dict.{get}
use rpc_freethread.Errors.{ok}
use rpc_freethread.Value.{Value}
use rpc_freethread.Python.{Python}
use rpc_freethread.Serializer.{Serializer}
use rpc_freethread.Registry.{RemoteRegistry}
use rpc_freethread.Runtime.State.{Runtime, ActorEntry, Task, update, shut_down}
use rpc_freethread.Runtime.Invoke.{UserCode}
use rpc_freethread.Runtime.Actors.{settle_actor}
use rpc_freethread.Runtime.Tasks.{Rest, run_task}
use rpc_freethread.Runtime.Lifecycle.{new_runtime}
use rpc_freethread.Runtime.Calm.{Calm-refl, Calm-trans, pool_taken, executor_taken}
use rpc_freethread.Runtime.Queues.{IsMethod}
use rpc_freethread.Runtime.Steps.{handle_message-IsCalm, take_owned-Calm}
use rpc_freethread.Runtime.Operations.{
  run_task-Calm, finish_destroy-IsCalm, call_function-IsCalm, run_method-IsCalm,
  send_outcome-IsCalm,
}
use rpc_freethread.Runtime.Settle.{
  settle_actor-cases, leave-Calm, shut_connections-Calm, send_catalog-IsCalm,
}
use rpc_freethread.Runtime.Stopping.{Stopper}
use rpc_freethread.Runtime.Halting.{
  mark_stopping-Calm, take_connections-Calm, cancel_pool-Calm, take_actors-Calm,
  cancel_executor-Calm,
}
use rpc_freethread.Runtime.Server.{
  Server, Taken, Taken-All, IsUnpooled, boot, Step, Reach, accept, greet, receive, work, work_actor,
  call_done, method_done, reply, clean_cancel, settle, drained, depart, clean, halt, halt_take,
  halt_close, halt_pool, halt_clear, halt_cancel, halt_return, done, step,
}
use rpc_freethread.Runtime.Phases.{
  pool_is_down, is_cleared, is_cleared-pool, IsHalting, run_task-IsUnpooled, still_none, other_step,
  next_phase, accept-IsHalting, new_runtime-queue, cancel_pool-down, take_actors-none,
}

module _ ⦃py : Python⦄ {U : Type 0} (ser : Serializer) (user : UserCode U) where
  method-IsHalting :
      (s : Server U) (k : ℕ) (t : Task) (rest : List Task)
      → (s.runtime.executors k).queue ≡ t ∷ rest
      → IsHalting s
      → IsHalting (
          let r = s.runtime in
          let (left, r') = run_task ser user t (record r {
            executors = update r.executors k (record (r.executors k) { queue = rest });
          }) in
          record s { runtime = r'; active = left ∷ s.active })
  method-IsHalting s k t rest q v =
      let method = (subst (λ l. All IsMethod l) q (v.methods k)).0 in
      other_step s _ _ s.gone v
        (Calm-trans (executor_taken s.runtime k t rest q) (run_task-Calm ser user t _))
        (λ p. (run_task-IsUnpooled ser user t _ method, v.over p))

  settle-IsHalting :
      (s : Server U) (conn : ℕ) (call_id id : String) (actor : ActorEntry) (left : List Rest)
      → Taken (Rest.settling conn call_id id actor) s.active left
      → IsHalting s
      → IsHalting (record s {
        runtime = (settle_actor ser user conn call_id id actor s.runtime).1;
        active = left;
      })
  settle-IsHalting s conn call_id id actor left t v =
      let waits = λ (p : is_cleared s.stopper ≡ true). (Taken-All IsUnpooled t (v.over p)).0 in
      elim (settle_actor-cases ser user conn call_id id actor s.runtime) [
        | inl h ↦ other_step s _ left s.gone v h (λ p. absurd (waits p))
        | inr (_, h) ↦ record {
          methods = h.keeps_methods v.methods;
          down = λ p. h.stays_down (v.down p);
          over = λ p. absurd (waits p);
          empty = λ p. absurd (waits p);
        }
      ]

  Step-IsHalting : (s t : Server U) → Step ser user s t → IsHalting s → IsHalting t
  Step-IsHalting _ _ (accept s sock) v = accept-IsHalting s sock v
  Step-IsHalting _ _ (greet s conn) v =
      other_step s _ _ _ v ((send_catalog-IsCalm ser conn).at s.runtime) v.over
  Step-IsHalting _ _ (receive s conn m) v =
      other_step s _ _ _ v ((handle_message-IsCalm conn m).at s.runtime) v.over
  Step-IsHalting _ _ (work s t rest q) v =
      other_step s _ _ s.gone v
        (Calm-trans (pool_taken s.runtime t rest q) (run_task-Calm ser user t _))
        (λ p. absurd (let d = v.down (is_cleared-pool s.stopper p) in let e = q in cc))
  Step-IsHalting _ _ (work_actor s k t rest q) v = method-IsHalting s k t rest q v
  Step-IsHalting _ _ (call_done s conn call_id name args kwargs left t) v =
      other_step s _ _ s.gone v ((call_function-IsCalm ser user name args kwargs).at s.runtime)
        (λ p. absurd ((Taken-All IsUnpooled t (v.over p)).0))
  Step-IsHalting _ _ (method_done s conn call_id i name args kwargs left t) v =
      other_step s _ _ s.gone v ((run_method-IsCalm ser user i name args kwargs).at s.runtime)
        (λ p. (tt, (Taken-All IsUnpooled t (v.over p)).1))
  Step-IsHalting _ _ (reply s pooled conn call_id outcome left t) v =
      other_step s _ left s.gone v
        ((send_outcome-IsCalm ser user conn call_id outcome).at s.runtime)
        (λ p. (Taken-All IsUnpooled t (v.over p)).1)
  Step-IsHalting _ _ (settle s conn call_id id actor left t) v =
      settle-IsHalting s conn call_id id actor left t v
  Step-IsHalting _ _ (drained s conn call_id actor left t q) v =
      other_step s _ left s.gone v ((finish_destroy-IsCalm ser user conn call_id).at s.runtime)
        (λ p. (Taken-All IsUnpooled t (v.over p)).1)
  Step-IsHalting _ _ (depart s conn o) v =
      other_step s _ _ _ v (leave-Calm conn s.runtime) (λ p. (tt, v.over p))
  Step-IsHalting _ _ (clean s conn left t) v =
      other_step s _ _ _ v (take_owned-Calm conn s.runtime)
        (λ p. (tt, (Taken-All IsUnpooled t (v.over p)).1))
  Step-IsHalting _ _ (clean_cancel s actor l left t) v =
      other_step s _ _ s.gone v (cancel_executor-Calm actor s.runtime)
        (λ p. (tt, (Taken-All IsUnpooled t (v.over p)).1))
  Step-IsHalting _ _ (halt s h) v =
      next_phase s _ Stopper.marked v (mark_stopping-Calm s.runtime) (λ p. absurd cc)
        (λ p. absurd cc) (λ p. absurd cc)
  Step-IsHalting _ _ (halt_take s h) v =
      next_phase s _ _ v (take_connections-Calm s.runtime) (λ p. absurd cc) (λ p. absurd cc)
        (λ p. absurd cc)
  Step-IsHalting _ _ (halt_close s conn l h) v =
      next_phase s _ _ v (shut_connections-Calm (conn ∷ []) s.runtime) (λ p. absurd cc)
        (λ p. absurd cc) (λ p. absurd cc)
  Step-IsHalting _ _ (halt_pool s h) v =
      next_phase s _ Stopper.joining v (cancel_pool-Calm s.runtime)
        (λ p. cancel_pool-down s.runtime) (λ p. absurd cc) (λ p. absurd cc)
  Step-IsHalting _ _ (halt_clear s h f) v =
      next_phase s _ _ v (take_actors-Calm s.runtime)
        (λ p.
          (take_actors-Calm s.runtime).stays_down
            (v.down (subst (λ x. pool_is_down x ≡ true) (sym h) refl)))
        (λ p. f) (λ p id. take_actors-none s.runtime id)
  Step-IsHalting _ _ (halt_cancel s actor l h) v =
      let here = subst (λ x. is_cleared x ≡ true) (sym h) refl in
      let calm = cancel_executor-Calm actor s.runtime in
      next_phase s _ _ v calm (λ p. calm.stays_down (v.down (is_cleared-pool s.stopper here)))
        (λ p. v.over here) (λ p id. still_none s.runtime _ id calm (v.empty here id))
  Step-IsHalting _ _ (halt_return s h) v =
      let here = subst (λ x. is_cleared x ≡ true) (sym h) refl in
      next_phase s s.runtime Stopper.stopped v (Calm-refl s.runtime)
        (λ p. v.down (is_cleared-pool s.stopper here)) (λ p. v.over here) (λ p id. v.empty here id)

  Reach-IsHalting : (s t : Server U) → Reach ser user s t → IsHalting s → IsHalting t
  Reach-IsHalting s t done v = v
  Reach-IsHalting s t (step p q) v = Step-IsHalting _ t q (Reach-IsHalting s _ p v)

  boot-IsHalting :
      (registry : RemoteRegistry) (world : U) (max : Value) (r : Runtime U)
      → new_runtime registry world max ≡ ok r
      → IsHalting (boot r)
  boot-IsHalting registry world max r h = record {
    methods =
        λ k. subst (λ l. All IsMethod l) (sym (new_runtime-queue registry world max r h k)) tt;
    down = λ p. absurd cc;
    over = λ p. absurd cc;
    empty = λ p. absurd cc;
  }

  -- In every interleaving of a new server's threads: when `stop` has returned to the caller that
  -- marked the runtime, no actor is in the table, the pool is empty and shut down, and no worker of
  -- the pool has a task in hand. A call of a method may still be under way, on an actor that its
  -- connection's handler or a destroy request had taken from the table before, and so may that
  -- handler. The steps of the readers, of the accept loop and of the actors' executors may come at any
  -- point, also between the phases of `stop` and after its return.
  pub stopped_for_good :
      (registry : RemoteRegistry) (world : U) (max : Value) (r : Runtime U) (s : Server U)
      → new_runtime registry world max ≡ ok r
      → Reach ser user (boot r) s
      → s.stopper ≡ Stopper.stopped
      → ((id : String) → get id s.runtime.actors ≡ none)
        × (s.runtime.pool ≡ shut_down)
        × All IsUnpooled s.active
  stopped_for_good registry world max r s h p k =
      let v = Reach-IsHalting (boot r) s p (boot-IsHalting registry world max r h) in
      let here = subst (λ x. is_cleared x ≡ true) (sym k) refl in
      (v.empty here, v.down (is_cleared-pool s.stopper here), v.over here)
