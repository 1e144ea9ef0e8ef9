-- ===== src/Runtime/Tests.antt =====
-- runtime.py on a concrete server.
use rpc_freethread.Prelude.{
  ℕ, String, ◌≡◌, ◌≢◌, refl, true, false, Option, none, some, [], ◌∷◌, ◌⊎◌, arith, if◌then◌else◌,
  str_eq,
}
use rpc_freethread.Prelude.Dict.{get, put}
use rpc_freethread.Errors.{Result, ok}
use rpc_freethread.Value.{Value, nothing, text, number, mapping, Fields, field, end, nil, lookup}
use rpc_freethread.Python.{plain}
use rpc_freethread.Serializer.{Serializer}
use rpc_freethread.Protocol.Socket.{Sock, sendall}
use rpc_freethread.Protocol.Header.{pack_header}
use rpc_freethread.Protocol.{write_frame}
use rpc_freethread.Registry.{get_class, register}
use rpc_freethread.Registry.Tests.{with_both}
use rpc_freethread.Runtime.State.{
  Runtime, ActorEntry, Task, empty_executor, shut_down, submit, update, on_sock,
}
use rpc_freethread.Runtime.Invoke.{UserCode, Returned, method}
use rpc_freethread.Runtime.Messages.{
  handle_message, handle_actor_create, require_string, require_arguments,
}
use rpc_freethread.Runtime.Respond.{send_result, send_response, encode_response}
use rpc_freethread.Runtime.Actors.{
  remove_connection_actors, take_owned, owned_actors, begin_destroy, construct_actor, new_entry,
  settle_actor, insert_actor,
}
use rpc_freethread.Runtime.Tasks.{Rest, run_task, begin_create}
use rpc_freethread.Runtime.Lifecycle.{new_runtime, no_connection, stop, leave, accept_connection}
use rpc_freethread.Runtime.Orphans.{departed_own_nothing}
use rpc_freethread.Runtime.Server.{
  Server, Reach, Taken, boot, done, step, accept, receive, work, settle, depart, clean,
}
use rpc_freethread.Runtime.Dispatch.{Outcome, one_task_or_none}
use rpc_freethread.Runtime.Departure.{Stopped, departure_drops_calls, stop_ends}
use rpc_freethread.Runtime.Destroy.{begin_destroy-get}

abbrev pub ser : Serializer
ser = record { dumps = λ v. ok (7 ∷ []); loads = λ bytes. ok nothing }

-- User code whose functions return their name's object and change nothing.
abbrev pub user : UserCode (Unit {0})
user = record {
  function_of = λ t. record {
    identity = t.identity;
    is_coroutine_function = false;
    is_asyncgen_function = false;
  };
  call = λ c args kwargs u. (ok (Returned.plain nothing), u);
  construct = λ t args kwargs u. (ok t.identity, u);
  attribute = λ i name u. (
    ok (
        method
          (record { identity = i; is_coroutine_function = false; is_asyncgen_function = false })),
    u,
  );
  close = λ k u. (ok tt, u);
}

-- A server without actors, and one with an actor of connection 0, for which connection 1 has a call
-- in the queue.
abbrev pub empty_server : Runtime (Unit {0})
empty_server = record {
  registry = with_both;
  max_frame_size = 16;
  started = false;
  closed = false;
  stopping = false;
  connections = [];
  conns = λ _. no_connection;
  next_conn = 0;
  actors = [];
  pool = empty_executor;
  executors = λ _. empty_executor;
  next_executor = 0;
  world = tt;
}

abbrev pub counter : ActorEntry
counter = record { instance_id = 2; owner = 0; executor = 0 }

abbrev pub busy_server : Runtime (Unit {0})
busy_server = record empty_server {
  connections = 0 ∷ 1 ∷ [];
  next_conn = 2;
  next_executor = 1;
  actors = ("a", counter) ∷ [];
  executors =
      λ _. record { queue = Task.execute_method 1 "c1" 2 "get" nil end ∷ []; is_shut = false };
}

has_actor : get "a" busy_server.actors ≡ some counter
unfolding get
has_actor = refl

departure_drops_calls_example :
    ((remove_connection_actors 0 busy_server).executors 0 ≡ shut_down)
    × ((remove_connection_actors 0 busy_server).conns ≡ busy_server.conns)
    × ((remove_connection_actors 0 busy_server).pool ≡ empty_executor)
departure_drops_calls_example = departure_drops_calls 0 busy_server "a" counter has_actor refl

stop_ends_example :
    Stopped busy_server (stop busy_server) × (stop (stop busy_server) ≡ stop busy_server)
stop_ends_example = stop_ends busy_server refl

abbrev destroyed : Result (Option ActorEntry) × Runtime (Unit {0})
destroyed = begin_destroy ser user 1 "c2" "a" busy_server

begin_destroy-get_example :
    ((counter.owner ≡ 1)
      × (destroyed.0 ≡ ok (some counter))
      × ((j : String)
          → get j destroyed.1.actors ≡ (if str_eq "a" j then none else get j busy_server.actors))
      × ((k : ℕ) → (destroyed.1.executors k).queue ≡ (busy_server.executors k).queue))
    ⊎ ((counter.owner ≢ 1)
        × (destroyed.1.actors ≡ busy_server.actors)
        × (destroyed.1.executors ≡ busy_server.executors))
begin_destroy-get_example = begin_destroy-get ser user 1 "c2" "a" busy_server counter has_actor

abbrev message : Fields
message =
    field "type" (text "call") (field "call_id" (text "c1") (field "function" (text "add") end))

one_task_or_none_example :
    Outcome 0 message busy_server (handle_message 0 (mapping message) busy_server)
one_task_or_none_example = one_task_or_none 0 message busy_server

pub booted : new_runtime with_both tt (number 16) ≡ ok empty_server
unfolding new_runtime
booted = refl

-- A run: two connections, the second creates an actor, and the first leaves.
abbrev idle : Sock
idle = record { incoming = []; outgoing = []; faults = [] }

abbrev pub State : Type 0
State = Server (Unit {0})

abbrev pub s0 : State
s0 = boot empty_server

abbrev s1 : State
s1 = record s0 { runtime = accept_connection idle s0.runtime }

abbrev s2 : State
s2 = record s1 { runtime = accept_connection idle s1.runtime }

abbrev creation : Value
creation = mapping (
    field "type" (text "create_actor") (
      field "call_id" (text "c1")
        (field "actor_id" (text "a") (field "class" (text "Counter") end))))

abbrev s3 : State
s3 = record s2 { runtime = (handle_message 1 creation s2.runtime).1 }

abbrev task : Task
task = Task.create_actor 1 "c1" "a" "Counter" nil end

queued : s3.runtime.pool.queue ≡ task ∷ []
unfolding handle_message handle_actor_create submit require_string require_arguments lookup
    accept_connection
queued = refl

abbrev taken : Rest × Runtime (Unit {0})
taken =
    run_task ser user task (record (s3.runtime) { pool = record (s3.runtime.pool) { queue = [] } })

abbrev s4 : State
s4 = record s3 { runtime = taken.1; active = taken.0 ∷ s3.active }

abbrev pub made : ActorEntry
made = record { instance_id = 2; owner = 1; executor = 0 }

waiting : Taken (Rest.settling 1 "c1" "a" made) s4.active []
unfolding run_task begin_create construct_actor new_entry get_class register get put handle_message
    lookup handle_actor_create require_string require_arguments submit accept_connection
waiting = Taken.first

abbrev s5 : State
s5 = record s4 { runtime = (settle_actor ser user 1 "c1" "a" made s4.runtime).1; active = [] }

abbrev s6 : State
s6 = record s5 { runtime = leave 0 s5.runtime; active = Rest.leaving 0 ∷ s5.active }

abbrev pub s7 : State
s7 = record s6 {
  runtime = take_owned 0 s6.runtime;
  active = Rest.removing (owned_actors 0 s6.runtime.actors) ∷ [];
  gone = update s6.gone 0 true;
}

pub run : Reach ser user s0 s7
unfolding handle_message handle_actor_create submit require_string require_arguments lookup run_task
    begin_create construct_actor new_entry get_class register get put settle_actor insert_actor
    send_result send_response encode_response on_sock write_frame pack_header sendall leave
    accept_connection
run =
    step
      (step
        (step
          (step (step (step (step done (accept s0 idle)) (accept s1 idle)) (receive s2 1 creation))
            (work s3 task [] queued))
          (settle s4 1 "c1" "a" made [] waiting))
        (depart s5 0 (omega arith)))
      (clean s6 0 [] Taken.first)

stays : get "a" s7.runtime.actors ≡ some made
unfolding handle_message handle_actor_create submit require_string require_arguments lookup run_task
    begin_create construct_actor new_entry get_class register get put settle_actor insert_actor
    send_result send_response encode_response on_sock write_frame pack_header sendall leave
    accept_connection remove_connection_actors
stays = refl

departed_own_nothing_example : made.owner ≢ 0
departed_own_nothing_example =
    departed_own_nothing ser user with_both tt (number 16) empty_server s7 0 "a" made booted run
      refl stays
