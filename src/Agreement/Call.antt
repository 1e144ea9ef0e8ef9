-- ===== src/Agreement/Call.antt =====
-- A remote call, from `RpcClientConnection.call` or `call_actor` to the caller's `get`, against the
-- same computation made on the server by a local call.
use rpc_freethread.Prelude.{
  ℕ, ◌≤◌, String, true, false, ◌≡◌, ap, ◌∙◌, sym, some, List, [], ◌∷◌, ◌++◌, arith,
}
use rpc_freethread.Prelude.Dict.{get}
use rpc_freethread.Errors.{Result, ok}
use rpc_freethread.Value.{Value, Items, Fields}
use rpc_freethread.Python.{Python}
use rpc_freethread.Serializer.{Serializer}
use rpc_freethread.Protocol.Socket.{received}
use rpc_freethread.Protocol.RoundTrip.{sent_since}
use rpc_freethread.ObjectRef.{outcome}
use rpc_freethread.Runtime.State.{Runtime, ActorEntry, Task, submit, submit_to, update}
use rpc_freethread.Runtime.Invoke.{UserCode}
use rpc_freethread.Runtime.Messages.{route_method}
use rpc_freethread.Runtime.Actors.{execute_actor_method}
use rpc_freethread.Runtime.Tasks.{execute_call}
use rpc_freethread.Runtime.Lifecycle.{serve_one}
use rpc_freethread.Client.State.{Client}
use rpc_freethread.Client.Connection.{read_response, send_request}
use rpc_freethread.Client.Handle.{call_request, method_request}
use rpc_freethread.Client.Pending.{IsValid}
use rpc_freethread.Agreement.Requests.{requests_understood}
use rpc_freethread.Agreement.Sending.{request_delivered}
use rpc_freethread.Agreement.Local.{
  local_call, local_method, execute_call-answer, execute_actor_method-answer, answer-world,
}
use rpc_freethread.Agreement.Answering.{remotely, answer, answer_delivered}

module _ ⦃py : Python⦄ {U : Type 0} (ser : Serializer) (user : UserCode U) where
  pool_gets :
      (t : Task) (r : Runtime U)
      → r.pool.is_shut ≡ false
      → (submit t r).1.pool.queue ≡ r.pool.queue ++ (t ∷ [])
  unfolding submit
  pool_gets t r h = ground arith

  executor_gets :
      (k : ℕ) (t : Task) (r : Runtime U)
      → (r.executors k).is_shut ≡ false
      → ((submit_to k t r).1.executors k).queue ≡ (r.executors k).queue ++ (t ∷ [])
  unfolding submit_to
  executor_gets k t r h = ground arith

  -- Loading undoes dumping.
  module _ (inverse : (m : Value) (p : List ℕ) → ser.dumps m ≡ ok p → ser.loads p ≡ ok m) where
    -- What is left of an answer, in whichever state the worker sent it.
    answered_in :
        (conn : ℕ) (id : String) (v : Result Value) (w : U) (r r' : Runtime U)
        → answer ser conn id v (record r { world = w }) ≡ (ok tt, r')
        → (held : List ℕ) (c : Client) (a : ℕ) (tail : List ℕ) → IsValid held c
        → get id c.pending ≡ some a
        → c.sock_open ≡ true
        → r.max_frame_size ≤ c.max_frame_size
        → received c.sock.incoming ≡ sent_since (r.conns conn).sock (r'.conns conn).sock ++ tail
        → outcome ((read_response ser c).1.refs a) ≡ remotely ser id v
    answered_in conn id v w r r' e held c a tail valid found o le arrives =
        (answer_delivered ser inverse conn id v (record r { world = w }) r' e held c a tail valid
          found o le arrives).1

    -- A remote call of a function refines the local call. The client's request, however the stream
    -- is cut, puts the call at the end of the pool's queue. Whenever a worker then runs it, in
    -- whatever state the runtime is, and its answer was sent, the caller's `get` sees what the local
    -- call returns or raises there, or the error of serializing that; and user code's state is the
    -- one that the local call leaves. It is assumed that loading undoes dumping, that the pool takes
    -- tasks when the request is read, that the sockets are open and neither reader's limit is below
    -- its sender's, and that the client still waits for the call when it reads the answer.
    pub call_refines_local :
        (id name : String) (args : Items) (kwargs : Fields) (c0 c1 : Client) (a : ℕ)
        → send_request ser id (call_request name args kwargs) c0 ≡ (ok a, c1)
        → (conn : ℕ) (r0 : Runtime U) (more : List ℕ) → (r0.conns conn).sock_open ≡ true
        → c0.max_frame_size ≤ r0.max_frame_size
        → received (r0.conns conn).sock.incoming ≡ sent_since c0.sock c1.sock ++ more
        → r0.pool.is_shut ≡ false
        → (r1 r2 : Runtime U) → execute_call ser user conn id name args kwargs r1 ≡ (ok tt, r2)
        → (held : List ℕ) (c2 : Client) (tail : List ℕ) → IsValid held c2
        → get id c2.pending ≡ some a
        → c2.sock_open ≡ true
        → r1.max_frame_size ≤ c2.max_frame_size
        → received c2.sock.incoming ≡ sent_since (r1.conns conn).sock (r2.conns conn).sock ++ tail
        → let (v, w) = local_call user r1.registry name args kwargs r1.world in
          ((serve_one ser conn r0).1.pool.queue
            ≡ r0.pool.queue ++ (Task.execute_call conn id name args kwargs ∷ []))
          × (outcome ((read_response ser c2).1.refs a) ≡ remotely ser id v)
          × (r2.world ≡ w)
    call_refines_local id name args kwargs c0 c1 a sent conn r0 more o le arrives free r1 r2 run
          held c2 tail valid found o2 le2 arrives2 =
        let (s, _, k) =
          request_delivered ser inverse id (call_request name args kwargs) c0 c1 a sent conn r0 more
            o le arrives in
        let r = record r0 { conns = update r0.conns conn (record (r0.conns conn) { sock = s }) } in
        let understood = (requests_understood conn id name "" args kwargs r).0 in
        let run' = sym (execute_call-answer ser user conn id name args kwargs r1) ∙ run in
        (
          ap (λ q. q.1.pool.queue) (k ∙ understood)
              ∙ pool_gets (Task.execute_call conn id name args kwargs) r free,
          answered_in conn id _ _ r1 r2 run' held c2 a tail valid found o2 le2 arrives2,
          answer-world ser user conn id _ (record r1 { world = _ }) r2 run',
        )

    -- A remote call of a method refines the call of the method on the actor's instance, by the queue
    -- of the actor's own executor. The actor is the one that has the id when the request is read.
    -- The caller's `get` sees what that call returns or raises when a worker runs it, or the error of
    -- serializing that, and user code's state is the one that it leaves. It is assumed that loading
    -- undoes dumping, that the actor's executor takes tasks when the request is read, that the answer
    -- was sent, that the sockets are open and neither reader's limit is below its sender's, and that
    -- the client still waits for the call when it reads the answer.
    pub method_refines_local :
        (id actor_id name : String) (args : Items) (kwargs : Fields) (c0 c1 : Client) (a : ℕ)
        → send_request ser id (method_request actor_id name args kwargs) c0 ≡ (ok a, c1)
        → (conn : ℕ) (r0 : Runtime U) (more : List ℕ) → (r0.conns conn).sock_open ≡ true
        → c0.max_frame_size ≤ r0.max_frame_size
        → received (r0.conns conn).sock.incoming ≡ sent_since c0.sock c1.sock ++ more
        → (actor : ActorEntry) → get actor_id r0.actors ≡ some actor
        → (r0.executors actor.executor).is_shut ≡ false
        → (r1 r2 : Runtime U)
        → execute_actor_method ser user conn id actor.instance_id name args kwargs r1 ≡ (ok tt, r2)
        → (held : List ℕ) (c2 : Client) (tail : List ℕ) → IsValid held c2
        → get id c2.pending ≡ some a
        → c2.sock_open ≡ true
        → r1.max_frame_size ≤ c2.max_frame_size
        → received c2.sock.incoming ≡ sent_since (r1.conns conn).sock (r2.conns conn).sock ++ tail
        → let (v, w) = local_method user actor.instance_id name args kwargs r1.world in
          (((serve_one ser conn r0).1.executors actor.executor).queue
            ≡ (r0.executors actor.executor).queue
              ++ (Task.execute_method conn id actor.instance_id name args kwargs ∷ []))
          × (outcome ((read_response ser c2).1.refs a) ≡ remotely ser id v)
          × (r2.world ≡ w)
    method_refines_local id actor_id name args kwargs c0 c1 a sent conn r0 more o le arrives actor
          known free r1 r2 run held c2 tail valid found o2 le2 arrives2 =
        let (s, _, k) =
          request_delivered ser inverse id (method_request actor_id name args kwargs) c0 c1 a sent
            conn r0 more o le arrives in
        let r = record r0 { conns = update r0.conns conn (record (r0.conns conn) { sock = s }) } in
        let (_, _, _, understood, _) = requests_understood conn id name actor_id args kwargs r in
        let routed = ap (λ e. route_method conn id actor_id name args kwargs e r) known in
        let run' =
          sym (execute_actor_method-answer ser user conn id actor.instance_id name args kwargs r1)
          ∙ run in
        (
          ap (λ q. (q.1.executors actor.executor).queue) (k ∙ (understood ∙ routed))
              ∙ executor_gets actor.executor _ r free,
          answered_in conn id _ _ r1 r2 run' held c2 a tail valid found o2 le2 arrives2,
          answer-world ser user conn id _ (record r1 { world = _ }) r2 run',
        )
