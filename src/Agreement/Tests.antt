-- ===== src/Agreement/Tests.antt =====
-- The two ends on a concrete call.
use rpc_freethread.Prelude.{String, ℕ, ◌≤◌, ◌++◌, refl, List, ◌⊎◌, arith, true, false, ◌≡◌, [], ◌∷◌}
use rpc_freethread.Prelude.Dict.{get, put, keys}
use rpc_freethread.Errors.{Result, Error, ok, err, remote_error, value_error, type_name, text_of}
use rpc_freethread.Value.{from_strings, nothing, put_field, number, mapping, nil, end}
use rpc_freethread.Python.{plain}
use rpc_freethread.ObjectRef.{outcome}
use rpc_freethread.Registry.{catalog, register}
use rpc_freethread.Registry.Sorting.{sorted}
use rpc_freethread.Registry.Tests.{with_both, with_both-IsValid}
use rpc_freethread.Runtime.State.{Runtime, update, on_sock, Task, submit}
use rpc_freethread.Runtime.Respond.{
  send_result, send_response, encode_response, result_message, error_message,
}
use rpc_freethread.Runtime.Messages.{handle_message, route_method}
use rpc_freethread.Runtime.Lifecycle.{send_catalog, serve_one, catalog_message}
use rpc_freethread.Runtime.Tests.{empty_server}
use rpc_freethread.Client.Handle.{
  call_request, create_request, attach_request, method_request, destroy_request,
}
use rpc_freethread.Protocol.Socket.{Sock, chunk, received, sendall}
use rpc_freethread.Protocol.Header.{pack_header}
use rpc_freethread.Protocol.{write_frame}
use rpc_freethread.Protocol.RoundTrip.{sent_since}
use rpc_freethread.Client.State.{Client, allocate, on_sock as on_client_sock}
use rpc_freethread.Client.Pending.{IsValid}
use rpc_freethread.Client.Address.{ℤ, pos, parse_address}
use rpc_freethread.Client.Process.{connect}
use rpc_freethread.Agreement.Connecting.{connect_succeeds}
use rpc_freethread.Agreement.Wire.{wire, encode, decode-encode}
use rpc_freethread.Agreement.Sending.{request_delivered}
use rpc_freethread.Agreement.Delivery.{result_delivered}
use rpc_freethread.Client.Connection.{send_request, transmit, read_response, handle_response}
use rpc_freethread.Client.Catalog.{parse_catalog}
use rpc_freethread.Client.Tests.{fresh_connection, one_call, one_call-IsValid, c1_waits}
use rpc_freethread.Agreement.Requests.{message, requests_understood}
use rpc_freethread.Agreement.Handshake.{catalog_accepted}
use rpc_freethread.Agreement.Responses.{responses_understood}

requests_understood_example :
    (handle_message 0 (message "c1" (call_request "add" nil end)) empty_server
      ≡ submit (Task.execute_call 0 "c1" "add" nil end) empty_server)
    × (handle_message 0 (message "c1" (create_request "a" "add" nil end)) empty_server
        ≡ submit (Task.create_actor 0 "c1" "a" "add" nil end) empty_server)
    × (handle_message 0 (message "c1" (attach_request "a")) empty_server
        ≡ submit (Task.attach_actor 0 "c1" "a") empty_server)
    × (handle_message 0 (message "c1" (method_request "a" "add" nil end)) empty_server
        ≡ route_method 0 "c1" "a" "add" nil end (get "a" empty_server.actors) empty_server)
    × (handle_message 0 (message "c1" (destroy_request "a")) empty_server
        ≡ submit (Task.destroy_actor 0 "c1" "a") empty_server)
requests_understood_example = requests_understood 0 "c1" "add" "a" nil end empty_server

catalog_accepted_example :
    parse_catalog (catalog_message (catalog with_both).0 (catalog with_both).1)
    ≡ ok (catalog with_both).1
catalog_accepted_example = catalog_accepted with_both with_both-IsValid

responses_understood_example :
    (outcome ((handle_response (mapping (result_message "c1" (number 5))) one_call).1.refs 0)
      ≡ ok (number 5))
    × (outcome
          ((handle_response (mapping (error_message "c1" (value_error "bad"))) one_call).1.refs 0)
        ≡ err (remote_error "ValueError" "bad"))
unfolding type_name text_of
responses_understood_example =
    responses_understood (0 ∷ []) one_call "c1" 0 (number 5) (value_error "bad") one_call-IsValid
      c1_waits

-- A client whose request to destroy an actor has gone out, and the server that it reaches.
abbrev pub before : Client
before = fresh_connection

abbrev asked : Client
asked = (send_request wire "c1" (destroy_request "a") before).1

asked_now : send_request wire "c1" (destroy_request "a") before ≡ (ok 0, asked)
unfolding encode send_request transmit on_client_sock allocate write_frame pack_header sendall put
    put_field
asked_now = refl

abbrev pub listening : Runtime (Unit {0})
listening = record empty_server {
  conns = λ _. record {
    sock = record {
      incoming = chunk 0 (0 ∷ []) ∷ chunk 0 (2 ∷ 1 ∷ []) ∷ chunk 1 (9 ∷ []) ∷ [];
      outgoing = [];
      faults = [];
    };
    sock_open = true;
    closed = false;
  };
}

request_arrives :
    received (listening.conns 0).sock.incoming ≡ sent_since before.sock asked.sock ++ (9 ∷ [])
unfolding encode received send_request transmit on_client_sock allocate write_frame pack_header
    sendall put put_field
request_arrives = refl

request_delivered_example :
    (s : Sock) × (received s.incoming ≡ 9 ∷ [])
    × (serve_one wire 0 listening
        ≡ handle_message 0 (message "c1" (destroy_request "a")) (record listening {
          conns = update listening.conns 0 (record (listening.conns 0) { sock = s });
        }))
request_delivered_example =
    request_delivered wire decode-encode "c1" (destroy_request "a") before asked 0 asked_now 0
      listening (9 ∷ []) refl (omega arith) request_arrives

-- The server answers, and the client waits for that call.
abbrev answered : Runtime (Unit {0})
answered = (send_result wire 0 "c1" nothing listening).1

answered_now : send_result wire 0 "c1" nothing listening ≡ (ok tt, answered)
unfolding encode send_result send_response encode_response on_sock write_frame pack_header sendall
answered_now = refl

abbrev pub waiting : Client
waiting = record one_call {
  sock = record { incoming = chunk 0 (0 ∷ 0 ∷ 1 ∷ 2 ∷ []) ∷ []; outgoing = []; faults = [] };
}

pub waiting-IsValid : IsValid (0 ∷ []) waiting
waiting-IsValid = record {
  nodup = one_call-IsValid.nodup;
  waiting = one_call-IsValid.waiting;
  no_leak = one_call-IsValid.no_leak;
  allocated = one_call-IsValid.allocated;
  emptied = one_call-IsValid.emptied;
}

pub waiting_open : waiting.sock_open ≡ true
unfolding encode send_request transmit on_client_sock allocate write_frame pack_header sendall put
    put_field
waiting_open = refl

pub same_limit : listening.max_frame_size ≤ waiting.max_frame_size
unfolding encode send_request transmit on_client_sock allocate write_frame pack_header sendall put
    put_field
same_limit = omega arith

answer_arrives :
    received waiting.sock.incoming
    ≡ sent_since (listening.conns 0).sock (answered.conns 0).sock ++ []
unfolding encode received send_result send_response encode_response on_sock write_frame pack_header
    sendall
answer_arrives = refl

result_delivered_example :
    let c' = (read_response wire waiting).1 in
    (received c'.sock.incoming ≡ [])
    × (((p : List ℕ) × (wire.dumps (mapping (result_message "c1" nothing)) ≡ ok p)
          × (outcome (c'.refs 0) ≡ ok nothing))
        ⊎ ((e : Error) × (wire.dumps (mapping (result_message "c1" nothing)) ≡ err e)
            × (outcome (c'.refs 0) ≡ err (remote_error (type_name e) (text_of e)))))
result_delivered_example =
    result_delivered wire decode-encode 0 "c1" nothing listening answered answered_now (0 ∷ [])
      waiting 0 [] waiting-IsValid c1_waits waiting_open same_limit answer_arrives

abbrev roomy : Runtime (Unit {0})
roomy = record empty_server {
  conns = λ _. record {
    sock = record { incoming = []; outgoing = []; faults = [] };
    sock_open = true;
    closed = false;
  };
}

-- The server greets a new connection, and a client connects to it.
abbrev greeted : Runtime (Unit {0})
greeted = (send_catalog wire 0 roomy).1

greeted_now : send_catalog wire 0 roomy ≡ (ok tt, greeted)
unfolding encode send_catalog catalog sorted keys register put get from_strings on_sock write_frame
    pack_header sendall
greeted_now = refl

abbrev dialled : Sock
dialled = record {
  incoming = chunk 0 (0 ∷ 0 ∷ 3 ∷ []) ∷ chunk 3 (3 ∷ 3 ∷ []) ∷ [];
  outgoing = [];
  faults = [];
}

abbrev dial : String → ℤ → Result Sock
dial host port = ok dialled

catalog_arrives :
    received dialled.incoming ≡ sent_since (roomy.conns 0).sock (greeted.conns 0).sock ++ []
unfolding encode received send_catalog catalog sorted keys register put get from_strings on_sock
    write_frame pack_header sendall
catalog_arrives = refl

somewhere : parse_address "host:80" ≡ ok ("host", pos 80)
unfolding parse_address
somewhere = refl

connect_succeeds_example :
    (c : Client) × (received c.sock.incoming ≡ [])
    × (c.pending ≡ [])
    × (c.closed ≡ false)
    × (c.max_frame_size ≡ 16)
    × (connect wire "host:80" (number 16) dial
        ≡ ok (record { connection = c; actor_names = (catalog with_both).1 }))
connect_succeeds_example =
    connect_succeeds wire decode-encode 0 roomy greeted with_both-IsValid greeted_now "host:80"
      "host" (pos 80) 15 dial dialled [] somewhere refl (omega arith) catalog_arrives
