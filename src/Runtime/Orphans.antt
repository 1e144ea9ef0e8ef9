-- ===== src/Runtime/Orphans.antt =====
-- No actor outlives the connection that owns it: the invariant of the server's threads.
use rpc_freethread.Prelude.{
  ℕ, ◌<◌, String, true, false, ◌≡◌, ◌≢◌, refl, sym, ap, subst, Option, none, some, List, [], ◌∷◌,
  arith, inl, inr,
}
use rpc_freethread.Prelude.Dict.{get, put}
use rpc_freethread.Errors.{Result, ok, err}
use rpc_freethread.Value.{Value}
use rpc_freethread.Python.{Python}
use rpc_freethread.Serializer.{Serializer}
use rpc_freethread.Protocol.Socket.{Sock}
use rpc_freethread.Registry.{RemoteRegistry}
use rpc_freethread.Runtime.State.{Runtime, ActorEntry, Task, update}
use rpc_freethread.Runtime.Invoke.{UserCode}
use rpc_freethread.Runtime.Actors.{
  settle_actor, take_owned, owned_actors, construct_actor, report_failure, begin_destroy,
}
use rpc_freethread.Runtime.Tasks.{Rest, run_task, begin_create, after_destroy}
use rpc_freethread.Runtime.Lifecycle.{accept_connection, leave, new_runtime}
use rpc_freethread.Runtime.Calm.{Calm, Calm-refl, Calm-trans, pool_taken, executor_taken}
use rpc_freethread.Runtime.Steps.{handle_message-IsCalm, take_owned-Calm}
use rpc_freethread.Runtime.Operations.{
  run_task-Calm, finish_destroy-IsCalm, call_function-IsCalm, run_method-IsCalm,
  send_outcome-IsCalm,
}
use rpc_freethread.Runtime.Settle.{
  settle_actor-cases, construct_actor-owner, leave-Calm, shut_connections-Calm, send_catalog-IsCalm,
  take_owned-owner,
}
use rpc_freethread.Runtime.Halting.{
  mark_stopping-Calm, take_connections-Calm, cancel_pool-Calm, take_actors-Calm,
  cancel_executor-Calm,
}
use rpc_freethread.Runtime.Server.{
  Server, Taken, boot, Step, Reach, accept, greet, receive, work, work_actor, call_done,
  method_done, reply, clean_cancel, settle, drained, depart, clean, halt, halt_take, halt_close,
  halt_pool, halt_clear, halt_cancel, halt_return, done, step, Taken-All,
}
use rpc_freethread.Runtime.Clean.{
  IsOwn, IsClean, Calm-All, keeps-All, Calm-step, Calm-halt, add_actor,
}

module _ ⦃py : Python⦄ {U : Type 0} (ser : Serializer) (user : UserCode U) where
  made-IsOwn :
      (q : Runtime U) (made : Result ActorEntry) (conn : ℕ) (call_id actor_id : String)
      (r : Runtime U)
      → ((a : ActorEntry) → made ≡ ok a → a.owner ≡ conn)
      → IsOwn q
          (elim made as (λ _. Rest × Runtime U) [
            | ok actor ↦ (Rest.settling conn call_id actor_id actor, r)
            | err exc ↦ (Rest.finished, (report_failure ser user conn call_id exc r).1)
          ]).0
  made-IsOwn q (ok a) conn call_id actor_id r h = h a refl
  made-IsOwn q (err e) conn call_id actor_id r h = tt

  after_destroy-IsOwn :
      (q : Runtime U) (v : Result (Option ActorEntry)) (conn : ℕ) (call_id : String)
      → IsOwn q (after_destroy ser user conn call_id v)
  after_destroy-IsOwn q (ok (some a)) conn call_id = tt
  after_destroy-IsOwn q (ok none) conn call_id = tt
  after_destroy-IsOwn q (err e) conn call_id = tt

  run_task-IsOwn : (q : Runtime U) (t : Task) (r : Runtime U) → IsOwn q (run_task ser user t r).0
  unfolding run_task begin_create
  run_task-IsOwn q (Task.execute_call conn call_id name args kwargs) r = tt
  run_task-IsOwn q (Task.create_actor conn call_id id name args kwargs) r =
      let p = construct_actor ser user conn name args kwargs r in
      made-IsOwn q p.0 conn call_id id p.1
        (λ a h. construct_actor-owner ser user conn name args kwargs r p.1 a (ap (λ v. (v, p.1)) h))
  run_task-IsOwn q (Task.execute_method conn call_id i name args kwargs) r = tt
  run_task-IsOwn q (Task.attach_actor conn call_id id) r = tt
  run_task-IsOwn q (Task.destroy_actor conn call_id id) r =
      after_destroy-IsOwn q (begin_destroy ser user conn call_id id r).0 conn call_id
  run_task-IsOwn q (Task.send_error conn call_id e) r = tt

  work-IsClean :
      (s : Server U) (t : Task) (r : Runtime U)
      → IsClean s
      → Calm s.runtime r
      → IsClean (
          let (left, r') = run_task ser user t r in
          record s { runtime = r'; active = left ∷ s.active })
  work-IsClean s t r v h =
      Calm-step s _ _ v (Calm-trans h (run_task-Calm ser user t r))
        (run_task-IsOwn s.runtime t r, v.own)

  settle-IsClean :
      (s : Server U) (conn : ℕ) (call_id id : String) (actor : ActorEntry) (left : List Rest)
      → Taken (Rest.settling conn call_id id actor) s.active left
      → IsClean s
      → IsClean (record s {
        runtime = (settle_actor ser user conn call_id id actor s.runtime).1;
        active = left;
      })
  settle-IsClean s conn call_id id actor left t v =
      let (mine, rest) = Taken-All (IsOwn s.runtime) t v.own in
      elim (settle_actor-cases ser user conn call_id id actor s.runtime) [
        | inl h ↦ Calm-step s _ left v h rest
        | inr (o, h) ↦
            Calm-step
              (record s { runtime = record s.runtime { actors = put id actor s.runtime.actors } }) _
              left
              (add_actor s id actor v
                (subst (λ c. (s.runtime.conns c).closed ≡ false) (sym mine) o))
              h
              (keeps-All s.runtime (record s.runtime { actors = put id actor s.runtime.actors })
                (λ c k. k) left rest)
      ]

  leave-down : (conn : ℕ) (r : Runtime U) → ((leave conn r).conns conn).closed ≡ true
  unfolding leave
  leave-down conn r = ground arith

  depart-IsClean :
      (s : Server U) (conn : ℕ)
      → conn < s.runtime.next_conn
      → IsClean s
      → IsClean (record s { runtime = leave conn s.runtime; active = Rest.leaving conn ∷ s.active })
  depart-IsClean s conn o v =
      let calm = leave-Calm conn s.runtime in
      let w = Calm-step s (leave conn s.runtime) s.active v calm v.own in
      record {
        owners = w.owners;
        gone_closed = w.gone_closed;
        gone_old = w.gone_old;
        own = ((rw calm.keeps_next o, leave-down conn s.runtime), w.own);
      }

  accept-IsClean :
      (s : Server U) (sock : Sock)
      → IsClean s
      → IsClean (record s { runtime = accept_connection sock s.runtime })
  unfolding accept_connection
  accept-IsClean s sock v = record {
    owners = v.owners;
    gone_closed = λ c g. let old = v.gone_closed c g in let new = v.gone_old c g in ground arith;
    gone_old = λ c g. let old = v.gone_old c g in omega arith;
    own =
        keeps-All s.runtime (accept_connection sock s.runtime)
          (λ conn (p, q). (omega arith, ground arith)) s.active v.own;
  }

  removal-IsClean :
      (s : Server U) (conn : ℕ) (left : List Rest)
      → Taken (Rest.leaving conn) s.active left
      → IsClean s
      → IsClean (record s {
        runtime = take_owned conn s.runtime;
        active = Rest.removing (owned_actors conn s.runtime.actors) ∷ left;
        gone = update s.gone conn true;
      })
  removal-IsClean s conn left t v =
      let calm = take_owned-Calm conn s.runtime in
      let ((o, h), rest) = Taken-All (IsOwn s.runtime) t v.own in
      record {
        owners = λ id e k.
            let other = take_owned-owner conn s.runtime id e k in
            let old = v.owners id e (calm.none_added id e k) in ground arith;
        gone_closed = λ c g. calm.stays_closed c (let old = v.gone_closed c in ground arith);
        gone_old = λ c g. rw calm.keeps_next (let old = v.gone_old c in ground arith);
        own = (tt, Calm-All s.runtime (take_owned conn s.runtime) calm left rest);
      }

  -- Every step keeps the table clean.
  pub Step-IsClean : (s t : Server U) → Step ser user s t → IsClean s → IsClean t
  Step-IsClean _ _ (accept s sock) v = accept-IsClean s sock v
  Step-IsClean _ _ (greet s conn) v =
      Calm-step s _ _ v ((send_catalog-IsCalm ser conn).at s.runtime) v.own
  Step-IsClean _ _ (receive s conn m) v =
      Calm-step s _ _ v ((handle_message-IsCalm conn m).at s.runtime) v.own
  Step-IsClean _ _ (work s t rest q) v = work-IsClean s t _ v (pool_taken s.runtime t rest q)
  Step-IsClean _ _ (work_actor s k t rest q) v =
      work-IsClean s t _ v (executor_taken s.runtime k t rest q)
  Step-IsClean _ _ (call_done s conn call_id name args kwargs left t) v =
      Calm-step s _ _ v ((call_function-IsCalm ser user name args kwargs).at s.runtime)
        (tt, (Taken-All (IsOwn s.runtime) t v.own).1)
  Step-IsClean _ _ (method_done s conn call_id i name args kwargs left t) v =
      Calm-step s _ _ v ((run_method-IsCalm ser user i name args kwargs).at s.runtime)
        (tt, (Taken-All (IsOwn s.runtime) t v.own).1)
  Step-IsClean _ _ (reply s pooled conn call_id outcome left t) v =
      Calm-step s _ left v ((send_outcome-IsCalm ser user conn call_id outcome).at s.runtime)
        (Taken-All (IsOwn s.runtime) t v.own).1
  Step-IsClean _ _ (settle s conn call_id id actor left t) v =
      settle-IsClean s conn call_id id actor left t v
  Step-IsClean _ _ (drained s conn call_id actor left t q) v =
      Calm-step s _ left v ((finish_destroy-IsCalm ser user conn call_id).at s.runtime)
        (Taken-All (IsOwn s.runtime) t v.own).1
  Step-IsClean _ _ (depart s conn o) v = depart-IsClean s conn o v
  Step-IsClean _ _ (clean s conn left t) v = removal-IsClean s conn left t v
  Step-IsClean _ _ (clean_cancel s actor l left t) v =
      Calm-step s _ _ v (cancel_executor-Calm actor s.runtime)
        (tt, (Taken-All (IsOwn s.runtime) t v.own).1)
  Step-IsClean _ _ (halt s _) v = Calm-halt s _ _ v (mark_stopping-Calm s.runtime)
  Step-IsClean _ _ (halt_take s _) v = Calm-halt s _ _ v (take_connections-Calm s.runtime)
  Step-IsClean _ _ (halt_close s conn l _) v =
      Calm-halt s _ _ v (shut_connections-Calm (conn ∷ []) s.runtime)
  Step-IsClean _ _ (halt_pool s _) v = Calm-halt s _ _ v (cancel_pool-Calm s.runtime)
  Step-IsClean _ _ (halt_clear s _ _) v = Calm-halt s _ _ v (take_actors-Calm s.runtime)
  Step-IsClean _ _ (halt_cancel s actor l _) v =
      Calm-halt s _ _ v (cancel_executor-Calm actor s.runtime)
  Step-IsClean _ _ (halt_return s _) v = Calm-halt s _ _ v (Calm-refl s.runtime)

  pub boot-IsClean :
      (registry : RemoteRegistry) (world : U) (max : Value) (r : Runtime U)
      → new_runtime registry world max ≡ ok r
      → IsClean (boot r)
  unfolding get
  boot-IsClean registry world max r h = record {
    owners = λ id e k. refl;
    gone_closed = λ c g. absurd cc;
    gone_old = λ c g. absurd cc;
    own = tt;
  }

  Reach-IsClean : (s t : Server U) → Reach ser user s t → IsClean s → IsClean t
  Reach-IsClean s t done v = v
  Reach-IsClean s t (step p q) v = Step-IsClean _ t q (Reach-IsClean s _ p v)

  -- In every interleaving of a server that starts with an empty table: once the handler of a
  -- connection has taken that connection's actors from the table, which it does before it returns, no actor in the table belongs to that connection, whatever tasks it
  -- had submitted, had under way or still has queued.
  pub departed_own_nothing :
      (registry : RemoteRegistry) (world : U) (max : Value) (r : Runtime U) (s : Server U)
      (conn : ℕ) (id : String) (e : ActorEntry)
      → new_runtime registry world max ≡ ok r
      → Reach ser user (boot r) s
      → s.gone conn ≡ true
      → get id s.runtime.actors ≡ some e
      → e.owner ≢ conn
  departed_own_nothing registry world max r s conn id e h p g k o =
      let clean = Reach-IsClean _ s p (boot-IsClean registry world max r h) in
      let present = clean.owners id e k in absurd (let back = rw o at present in cc)
