-- ===== src/Runtime/ServeTests.antt =====
-- The handler of a concrete connection.
use rpc_freethread.Prelude.{◌≡◌, true, false, some, ◌<◌, [], ◌∷◌, arith}
use rpc_freethread.Python.{plain}
use rpc_freethread.Protocol.Socket.{chunk, received}
use rpc_freethread.Runtime.State.{Runtime}
use rpc_freethread.Runtime.Actors.{owned_ids}
use rpc_freethread.Runtime.Lifecycle.{handle_connection}
use rpc_freethread.Runtime.Serving.{on_the_way, handle_connection_ends}
use rpc_freethread.Runtime.Tests.{ser, busy_server}

-- A frame of one byte is on the way, and the start of another.
abbrev hearing : Runtime (Unit {0})
hearing = record busy_server {
  conns = λ _. record {
    sock = record {
      incoming = chunk 0 (0 ∷ 0 ∷ []) ∷ chunk 1 (7 ∷ 0 ∷ []) ∷ [];
      outgoing = [];
      faults = [];
    };
    sock_open = true;
    closed = false;
  };
}

six_bytes : on_the_way 0 hearing < 7
unfolding received
six_bytes = omega arith

handle_connection_ends_example :
    (r' : Runtime (Unit {0})) × (handle_connection ser 7 0 hearing ≡ some r')
    × ((r'.conns 0).closed ≡ true)
    × (owned_ids 0 r'.actors ≡ [])
handle_connection_ends_example = handle_connection_ends ser 0 7 hearing six_bytes
