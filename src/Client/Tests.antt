-- ===== src/Client/Tests.antt =====
-- rpc_client.py on concrete connections.
use rpc_freethread.Prelude.{
  ◌<>◌, ℕ, zero, ◌<◌, ◌≡◌, refl, true, false, none, some, [], ◌∷◌, ◌⊎◌, arith, length,
}
use rpc_freethread.Prelude.Dict.{get, put, values}
use rpc_freethread.Errors.{
  value_error, Error, Result, ok, err, remote_error, protocol_error, connection_closed_error,
  os_error,
}
use rpc_freethread.Exec.{Exec}
use rpc_freethread.Value.{
  Value, nothing, text, number, boolean, mapping, Fields, field, end, nil, lookup,
}
use rpc_freethread.Python.{plain}
use rpc_freethread.Serializer.{Serializer}
use rpc_freethread.Protocol.Socket.{received, sendall}
use rpc_freethread.Protocol.Header.{pack_header}
use rpc_freethread.Protocol.{write_frame}
use rpc_freethread.ObjectRef.{new_ref, ready, outcome}
use rpc_freethread.Client.State.{Client, allocate, on_sock}
use rpc_freethread.Client.Connection.{
  send_request, transmit, handle_response, close_with_error, read_responses,
}
use rpc_freethread.Client.Failing.{elem}
use rpc_freethread.Client.Pending.{IsValid, close_completes_all}
use rpc_freethread.Client.Requests.{send_request_lem}
use rpc_freethread.Client.Popping.{Responds}
use rpc_freethread.Client.Responses.{response_completes, unreadable_ok_strands}
use rpc_freethread.Client.Address.{pos, negsuc, parse_address, int_of, with_port}
use rpc_freethread.Client.Addresses.{address_parts}
use rpc_freethread.Client.Reader.{read_responses_closes}
use rpc_freethread.Client.Race.{System, Sender, Closer, Reach, close_race_strands}
use rpc_freethread.Client.Handle.{call_request, new_handle, close_handle, call_method}
use rpc_freethread.Client.Handles.{closed_for_good}

-- A serializer with one message and one byte string.
abbrev pub tester : Serializer
tester = record { dumps = λ v. ok (7 ∷ []); loads = λ bytes. ok nothing }

abbrev pub fresh_connection : Client
fresh_connection = record {
  sock = record { incoming = []; outgoing = []; faults = [] };
  sock_open = true;
  pending = [];
  closed = false;
  max_frame_size = 16;
  refs = λ _. new_ref "";
  next_ref = 0;
}

pub fresh-IsValid : IsValid [] fresh_connection
unfolding get
fresh-IsValid = record {
  nodup = tt;
  waiting = λ id a e. absurd cc;
  no_leak = λ a h w. absurd cc;
  allocated = λ a h. absurd cc;
  emptied = λ h id. refl;
}

abbrev request : Fields
request = call_request "add" nil end

-- After one call, and after two.
abbrev pub one_call : Client
one_call = (send_request tester "c1" request fresh_connection).1

abbrev two_calls : Client
two_calls = (send_request tester "c2" request one_call).1

pub c1_new : get "c1" fresh_connection.pending ≡ none
unfolding get
c1_new = refl

c1_sent : (send_request tester "c1" request fresh_connection).0 ≡ ok 0
unfolding send_request transmit on_sock allocate write_frame pack_header sendall put
c1_sent = refl

pub one_call-IsValid : IsValid (0 ∷ []) one_call
unfolding send_request transmit on_sock allocate write_frame pack_header sendall put
one_call-IsValid = (send_request_lem tester "c1" request fresh_connection fresh-IsValid c1_new).0

c2_new : get "c2" one_call.pending ≡ none
unfolding get send_request transmit on_sock allocate write_frame pack_header sendall put
c2_new = refl

two_calls-IsValid : IsValid (1 ∷ 0 ∷ []) two_calls
unfolding send_request transmit on_sock allocate write_frame pack_header sendall put
two_calls-IsValid = (send_request_lem tester "c2" request one_call one_call-IsValid c2_new).0

pub c1_waits : get "c1" one_call.pending ≡ some 0
unfolding get send_request transmit on_sock allocate write_frame pack_header sendall put
c1_waits = refl

one_held : elem 0 (0 ∷ []) ≡ true
one_held = refl

one_call_open : one_call.closed ≡ false
unfolding send_request transmit on_sock allocate write_frame pack_header sendall put
one_call_open = refl

close_completes_all_example :
    let (r, c') = close_with_error "E" "over" one_call in
    (r ≡ ok tt)
    × (c'.closed ≡ true)
    × IsValid (0 ∷ []) c'
    × (ready (c'.refs 0) ≡ true)
    × (outcome (c'.refs 0) ≡ err (remote_error "E" "over"))
    × (close_with_error "F" "again" c' ≡ (ok tt, c'))
unfolding ready send_request transmit on_sock allocate write_frame pack_header sendall put
close_completes_all_example =
    close_completes_all "E" "over" (0 ∷ []) one_call 0 "F" "again" one_call-IsValid one_call_open
      one_held

abbrev response : Value → Fields
response good =
    field "type" (text "result")
      (field "call_id" (text "c1") (field "ok" good (field "result" (number 5) end)))

response-Responds : (v : Value) → Responds (response v) "c1"
unfolding lookup
response-Responds v = record { is_result = refl; names_call = refl }

response_completes_example :
    let (r, c') = handle_response (mapping (response (boolean true))) one_call in
    (r ≡ ok tt)
    × IsValid (0 ∷ []) c'
    × (ready (c'.refs 0) ≡ true)
    × (outcome (c'.refs 0) ≡ ok (number 5))
    × (get "c1" c'.pending ≡ none)
    × ((zero ≡ zero) ⊎ (c'.refs 0 ≡ one_call.refs 0))
unfolding lookup
response_completes_example =
    response_completes (0 ∷ []) one_call (response (boolean true)) "c1" 0 0 true one_call-IsValid
      (response-Responds (boolean true)) c1_waits refl

unreadable_ok_strands_example :
    let (r, c') = handle_response (mapping (response nothing)) one_call in
    let (_, c'') = close_with_error "E" "over" c' in
    (r ≡ err (protocol_error "response ok field must be true or false"))
    × (c''.closed ≡ true)
    × (c''.pending ≡ [])
    × (ready (c''.refs 0) ≡ false)
unfolding lookup
unreadable_ok_strands_example =
    unreadable_ok_strands (0 ∷ []) one_call (response nothing) "c1" 0 "E" "over" one_call-IsValid
      one_call_open (response-Responds nothing) c1_waits refl

nothing_arrives : length (received fresh_connection.sock.incoming) < 1
unfolding received
nothing_arrives = omega arith

read_responses_closes_example :
    (r : Result (Unit {0})) × (c' : Client) × (read_responses tester 1 fresh_connection
      ≡ some (r, c'))
    × (c'.closed ≡ true)
read_responses_closes_example = read_responses_closes tester 1 fresh_connection nothing_arrives

two_calls_open : two_calls.closed ≡ false
unfolding send_request transmit on_sock allocate write_frame pack_header sendall put
two_calls_open = refl

two_waiting : values two_calls.pending ≡ 0 ∷ 1 ∷ []
unfolding values send_request transmit on_sock allocate write_frame pack_header sendall put
two_waiting = refl

second_listed : elem 1 (1 ∷ []) ≡ true
second_listed = refl

close_race_strands_example :
    (s : System) × (x : Error) × Reach
      (record {
        client = two_calls;
        sender = Sender.sending_failed "c1" 0 (os_error "reset");
        closer = Closer.closing "E" "over";
      })
      s
    × (s.sender ≡ Sender.finished)
    × (s.closer ≡ Closer.raised x)
    × (s.client.closed ≡ true)
    × (s.client.pending ≡ [])
    × (ready (s.client.refs 1) ≡ false)
close_race_strands_example =
    close_race_strands (1 ∷ 0 ∷ []) two_calls 0 1 [] (1 ∷ []) "c1" "E" "over" (os_error "reset")
      two_calls-IsValid two_calls_open two_waiting second_listed

-- A wait that times out.
abbrev never : ℕ → Exec Client Value
never a c = (err (Error.timeout_error ""), c)

closed_for_good_example :
    let s = (close_handle tester never "c2" (new_handle "a" true, one_call)).1 in
    (close_handle tester never "c3" s ≡ (ok tt, s))
    × (call_method tester never "c3" "get" nil end s
        ≡ (err (connection_closed_error "actor handle is closed"), s))
closed_for_good_example =
    closed_for_good tester never "c2" "c3" "get" nil end (new_handle "a" true) one_call

-- The last colon counts.
last_colon : parse_address "::1:8080" ≡ ok ("::1", pos 8080)
unfolding parse_address
last_colon = refl

spaces_and_underscores : int_of " -1_000 " ≡ some (negsuc 999)
unfolding int_of
spaces_and_underscores = refl

address_parts_example :
    (parse_address ("host" <> (":" <> "80")) ≡ with_port "host" "80")
    × (parse_address "80" ≡ err (value_error "address must be in 'host:port' form"))
address_parts_example = address_parts "host" "80" refl
