-- ===== src/Agreement/CallTests.antt =====
-- A remote call of a function and of a method, from the request to the answer.
use rpc_freethread.Prelude.{ℕ, refl, arith, true, false, ◌≡◌, some, [], ◌∷◌, ◌++◌}
use rpc_freethread.Prelude.Dict.{get, put}
use rpc_freethread.Errors.{ok}
use rpc_freethread.Value.{nil, end, put_field}
use rpc_freethread.Python.{plain}
use rpc_freethread.ObjectRef.{outcome}
use rpc_freethread.Registry.{register, get_function}
use rpc_freethread.Protocol.Socket.{chunk, received, sendall}
use rpc_freethread.Protocol.Header.{pack_header}
use rpc_freethread.Protocol.{write_frame}
use rpc_freethread.Protocol.RoundTrip.{sent_since}
use rpc_freethread.Runtime.State.{Runtime, ActorEntry, Task, on_sock}
use rpc_freethread.Runtime.Invoke.{invoke_sync}
use rpc_freethread.Runtime.Respond.{send_result, send_response, encode_response}
use rpc_freethread.Runtime.Actors.{on_world, run_method, execute_actor_method}
use rpc_freethread.Runtime.Tasks.{call_function, execute_call}
use rpc_freethread.Runtime.Lifecycle.{serve_one}
use rpc_freethread.Runtime.Tests.{empty_server, user}
use rpc_freethread.Client.State.{Client, allocate, on_sock as on_client_sock}
use rpc_freethread.Client.Handle.{call_request, method_request}
use rpc_freethread.Client.Connection.{send_request, transmit, read_response}
use rpc_freethread.Client.Tests.{c1_waits}
use rpc_freethread.Agreement.Wire.{wire, encode, decode-encode}
use rpc_freethread.Agreement.Tests.{
  before, listening, waiting, waiting-IsValid, waiting_open, same_limit,
}
use rpc_freethread.Agreement.Answering.{remotely}
use rpc_freethread.Agreement.Local.{local_call, local_method}
use rpc_freethread.Agreement.Call.{call_refines_local, method_refines_local}

-- A client whose call has gone out, and the server that it reaches.
abbrev called : Client
called = (send_request wire "c1" (call_request "add" nil end) before).1

called_now : send_request wire "c1" (call_request "add" nil end) before ≡ (ok 0, called)
unfolding encode send_request transmit on_client_sock allocate write_frame pack_header sendall put
    put_field
called_now = refl

abbrev counter : ActorEntry
counter = record { instance_id = 2; owner = 0; executor = 0 }

abbrev reached : ℕ → Runtime (Unit {0})
reached n = record empty_server {
  actors = ("a", counter) ∷ [];
  conns = λ _. record {
    sock = record {
      incoming = chunk 0 (0 ∷ []) ∷ chunk 0 (n ∷ n ∷ []) ∷ chunk n (n ∷ n ∷ []) ∷ chunk 5 [] ∷ [];
      outgoing = [];
      faults = [];
    };
    sock_open = true;
    closed = false;
  };
}

call_arrives :
    received ((reached 4).conns 0).sock.incoming ≡ sent_since before.sock called.sock ++ (5 ∷ [])
unfolding encode received send_request transmit on_client_sock allocate write_frame pack_header
    sendall put put_field
call_arrives = refl

-- A worker runs the call and answers it.
abbrev answered : Runtime (Unit {0})
answered = (execute_call wire user 0 "c1" "add" nil end listening).1

answered_now : execute_call wire user 0 "c1" "add" nil end listening ≡ (ok tt, answered)
unfolding encode execute_call call_function get_function register get put on_world invoke_sync
    send_result send_response encode_response on_sock write_frame pack_header sendall
answered_now = refl

answer_arrives :
    received waiting.sock.incoming
    ≡ sent_since (listening.conns 0).sock (answered.conns 0).sock ++ []
unfolding encode received execute_call call_function get_function register get put on_world
    invoke_sync send_result send_response encode_response on_sock write_frame pack_header sendall
answer_arrives = refl

call_refines_local_example :
    let (v, w) = local_call user listening.registry "add" nil end listening.world in
    ((serve_one wire 0 (reached 4)).1.pool.queue
      ≡ [] ++ (Task.execute_call 0 "c1" "add" nil end ∷ []))
    × (outcome ((read_response wire waiting).1.refs 0) ≡ remotely wire "c1" v)
    × (answered.world ≡ w)
call_refines_local_example =
    call_refines_local wire user decode-encode "c1" "add" nil end before called 0 called_now 0
      (reached 4) (5 ∷ []) refl (omega arith) call_arrives refl listening answered answered_now
      (0 ∷ []) waiting [] waiting-IsValid c1_waits waiting_open same_limit answer_arrives

-- The same for a method of the actor.
abbrev invoked : Client
invoked = (send_request wire "c1" (method_request "a" "add" nil end) before).1

invoked_now : send_request wire "c1" (method_request "a" "add" nil end) before ≡ (ok 0, invoked)
unfolding encode send_request transmit on_client_sock allocate write_frame pack_header sendall put
    put_field
invoked_now = refl

abbrev reached_twice : Runtime (Unit {0})
reached_twice = record (reached 5) {
  conns = λ _. record {
    sock = record {
      incoming = chunk 0 (0 ∷ 0 ∷ 5 ∷ []) ∷ chunk 5 (5 ∷ 5 ∷ 5 ∷ 5 ∷ []) ∷ chunk 7 [] ∷ [];
      outgoing = [];
      faults = [];
    };
    sock_open = true;
    closed = false;
  };
}

method_arrives :
    received (reached_twice.conns 0).sock.incoming ≡ sent_since before.sock invoked.sock ++ (7 ∷ [])
unfolding encode received send_request transmit on_client_sock allocate write_frame pack_header
    sendall put put_field
method_arrives = refl

known : get "a" reached_twice.actors ≡ some counter
unfolding get
known = refl

abbrev returned : Runtime (Unit {0})
returned = (execute_actor_method wire user 0 "c1" 2 "add" nil end listening).1

returned_now : execute_actor_method wire user 0 "c1" 2 "add" nil end listening ≡ (ok tt, returned)
unfolding encode execute_actor_method run_method on_world invoke_sync send_result send_response
    encode_response on_sock write_frame pack_header sendall
returned_now = refl

return_arrives :
    received waiting.sock.incoming
    ≡ sent_since (listening.conns 0).sock (returned.conns 0).sock ++ []
unfolding encode received execute_actor_method run_method on_world invoke_sync send_result
    send_response encode_response on_sock write_frame pack_header sendall
return_arrives = refl

method_refines_local_example :
    let (v, w) = local_method user 2 "add" nil end listening.world in
    (((serve_one wire 0 reached_twice).1.executors 0).queue
      ≡ [] ++ (Task.execute_method 0 "c1" 2 "add" nil end ∷ []))
    × (outcome ((read_response wire waiting).1.refs 0) ≡ remotely wire "c1" v)
    × (returned.world ≡ w)
method_refines_local_example =
    method_refines_local wire user decode-encode "c1" "a" "add" nil end before invoked 0 invoked_now
      0 reached_twice (7 ∷ []) refl (omega arith) method_arrives counter known refl listening
      returned returned_now (0 ∷ []) waiting [] waiting-IsValid c1_waits waiting_open same_limit
      return_arrives
