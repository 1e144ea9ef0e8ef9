-- ===== src/Runtime/WorkTests.antt =====
-- What the workers of a concrete server answer.
use rpc_freethread.Prelude.{true, false, []}
use rpc_freethread.Python.{plain}
use rpc_freethread.Runtime.State.{Runtime, Task}
use rpc_freethread.Runtime.Answers.{Answers}
use rpc_freethread.Runtime.Tests.{busy_server}

-- A server with an actor, whose connections are open.
abbrev talking : Runtime (Unit {0})
talking = record busy_server {
  conns = λ _. record {
    sock = record { incoming = []; outgoing = []; faults = [] };
    sock_open = true;
    closed = false;
  };
}

abbrev removal : Task
removal = Task.destroy_actor 0 "c1" "a"
