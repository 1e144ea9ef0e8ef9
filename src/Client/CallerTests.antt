-- ===== src/Client/CallerTests.antt =====
-- The threads of a concrete client: a caller sends a request, and another thread closes.
use rpc_freethread.Prelude.{ℕ, ◌≡◌, refl, true, false, none, some, List, [], ◌∷◌, ◌⊎◌, arith}
use rpc_freethread.Prelude.Dict.{put}
use rpc_freethread.Errors.{ok}
use rpc_freethread.Value.{number}
use rpc_freethread.Python.{plain}
use rpc_freethread.Protocol.Socket.{Sock, sendall}
use rpc_freethread.Protocol.Header.{pack_header}
use rpc_freethread.Protocol.{write_frame}
use rpc_freethread.Client.State.{
  Client, new_client, on_sock, allocate, update, check_max_frame_size,
}
use rpc_freethread.Client.Callers.{Callers, Hand, IsFresh, Step, Reach}
use rpc_freethread.Client.Kept.{Where, Emptied}
use rpc_freethread.Client.Forgotten.{opened, no_call_forgotten}
use rpc_freethread.Client.Tests.{fresh_connection}

abbrev at_rest : Sock
at_rest = record { incoming = []; outgoing = []; faults = [] }

connected : new_client at_rest (number 16) ≡ ok fresh_connection
unfolding new_client check_max_frame_size
connected = refl

abbrev payload : List ℕ
payload = 5 ∷ []

abbrev s0 : Callers
s0 = opened fresh_connection

abbrev calling : Client
calling = (allocate "c1" fresh_connection).1

abbrev s1 : Callers
s1 = record s0 {
  client = record calling { pending = put "c1" 0 calling.pending };
  sending = some (0, payload);
}

abbrev s2 : Callers
s2 = record s1 {
  client = (on_sock (write_frame 16 payload) s1.client).1;
  sending = none;
  held = 0 ∷ [];
}

abbrev s3 : Callers
s3 = record s2 {
  client = record (s2.client) { closed = true; sock_open = false };
  hands = update s2.hands 7 (Hand.closing "E" "over");
}

new_id : IsFresh "c1" fresh_connection
new_id = λ a lt. absurd (omega arith)

run : Reach s0 s3
unfolding allocate put on_sock write_frame pack_header sendall
run =
    Reach.step
      (Reach.step (Reach.step Reach.done (Step.register s0 "c1" payload new_id refl refl))
        (Step.written s1 0 payload refl refl))
      (Step.mark s2 7 "E" "over" refl refl refl)

no_call_forgotten_example :
    Where s3.client.refs s3.client.pending s3.hands s3.dropped 0
    × ((s3.client.closed ≡ false) ⊎ Emptied s3.client.pending s3.hands)
no_call_forgotten_example =
    no_call_forgotten at_rest (number 16) fresh_connection s3 0 connected run refl
