-- ===== src/Runtime/StopTests.antt =====
-- `stop` on a concrete server that has a connection and an actor.
use rpc_freethread.Prelude.{String, ◌≡◌, refl, none, [], ◌∷◌, All}
use rpc_freethread.Prelude.Dict.{get, put, values}
use rpc_freethread.Value.{number, lookup}
use rpc_freethread.Python.{plain}
use rpc_freethread.Protocol.Socket.{sendall}
use rpc_freethread.Protocol.Header.{pack_header}
use rpc_freethread.Protocol.{write_frame}
use rpc_freethread.Registry.{get_class, register}
use rpc_freethread.Registry.Tests.{with_both}
use rpc_freethread.Runtime.State.{shut_down, submit, on_sock}
use rpc_freethread.Runtime.Messages.{
  handle_message, handle_actor_create, require_string, require_arguments,
}
use rpc_freethread.Runtime.Respond.{send_result, send_response, encode_response}
use rpc_freethread.Runtime.Actors.{
  construct_actor, new_entry, settle_actor, insert_actor, cancel_executor, remove_connection_actors,
}
use rpc_freethread.Runtime.Tasks.{run_task, begin_create}
use rpc_freethread.Runtime.Lifecycle.{leave, accept_connection, shut_connections, discard}
use rpc_freethread.Runtime.Stopping.{
  Stopper, mark_stopping, take_connections, cancel_pool, take_actors,
}
use rpc_freethread.Runtime.Server.{
  Reach, IsUnpooled, step, halt, halt_take, halt_close, halt_pool, halt_clear, halt_cancel,
  halt_return,
}
use rpc_freethread.Runtime.Halted.{stopped_for_good}
use rpc_freethread.Runtime.Tests.{ser, user, empty_server, booted, State, s0, s7, run, made}

abbrev t1 : State
t1 = record s7 { runtime = mark_stopping s7.runtime; stopper = Stopper.marked }

abbrev t2 : State
t2 = record t1 {
  runtime = take_connections t1.runtime;
  stopper = Stopper.closing t1.runtime.connections;
}

abbrev t3 : State
t3 = record t2 { runtime = shut_connections (1 ∷ []) t2.runtime; stopper = Stopper.closing [] }

abbrev t4 : State
t4 = record t3 { runtime = cancel_pool t3.runtime; stopper = Stopper.joining }

abbrev t5 : State
t5 = record t4 {
  runtime = take_actors t4.runtime;
  stopper = Stopper.clearing (values t4.runtime.actors);
}

abbrev t6 : State
t6 = record t5 { runtime = cancel_executor made t5.runtime; stopper = Stopper.clearing [] }

abbrev t7 : State
t7 = record t6 { stopper = Stopper.stopped }

halted : Reach ser user s0 t7
unfolding handle_message handle_actor_create submit require_string require_arguments lookup run_task
    begin_create construct_actor new_entry get_class register get put settle_actor insert_actor
    send_result send_response encode_response on_sock write_frame pack_header sendall leave
    accept_connection remove_connection_actors mark_stopping take_connections cancel_pool
    take_actors cancel_executor values shut_connections discard
halted =
    step
      (step
        (step
          (step
            (step (step (step run (halt s7 refl)) (halt_take t1 refl)) (halt_close t2 1 [] refl))
            (halt_pool t3 refl))
          (halt_clear t4 refl (tt, tt)))
        (halt_cancel t5 made [] refl))
      (halt_return t6 refl)

stopped_for_good_example :
    ((id : String) → get id t7.runtime.actors ≡ none)
    × (t7.runtime.pool ≡ shut_down)
    × All IsUnpooled t7.active
stopped_for_good_example =
    stopped_for_good ser user with_both tt (number 16) empty_server t7 booted halted refl
