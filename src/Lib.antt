-- ===== src/Lib.antt =====
-- A verification library for nogil_rpc, a small RPC system: a client sends calls of functions and
-- of actors' methods over a socket, and a server with a thread pool runs them and answers.
--
-- The parts, and the files that model them:
-- - nogil_rpc/errors.py: Errors. An exception is a value, a call that may raise returns a
--   `Result`, and a method that changes its object is an `Exec`, which gives the changed state
--   also when it raises.
-- - nogil_rpc/serializer.py: Serializer, over Value, which has the Python values that messages
--   carry. `pickle` itself is a parameter. How the interpreter renders values in messages is the
--   instance argument of Python.
-- - nogil_rpc/protocol.py: Protocol (`write_frame`, `read_frame`, `_read_exact`), Protocol/Header
--   (the four bytes of the length), Protocol/Socket (`recv` and `sendall`: any cuts, any
--   failure). Protocol/Receive, RoundTrip and Bounds have its laws. Protocol/Writers interleaves
--   the sends of the threads that share a socket, and Protocol/Orderly and Atomic have the laws
--   of its write lock.
-- - nogil_rpc/object_ref.py: ObjectRef, with its laws in ObjectRef/Once.
-- - nogil_rpc/registry.py, and `remote` of nogil_rpc/runtime.py: Registry, with Registry/Sorting
--   and Registry/Names, and Registry/Order (strings by code points), Ascending and Canonical for
--   the order of the catalog.
-- - nogil_rpc/rpc_client.py: Client/State and Client/Connection (`RpcClientConnection`),
--   Client/Catalog (`_parse_catalog`), Client/Address (`_parse_address`), Client/Handle (the
--   requests, attribute lookup, `ActorHandle`), Client/Process (`connect`, `RemoteProcess`, the
--   `remote` methods). A reference is shared by the pending map and its caller, so a client's
--   state holds its references by address. Client/Pending, Failing, Effects, Requests, Popping,
--   Responses, Cases, Reader, Handles and Addresses have the laws, Client/Callers interleaves the
--   threads of a client at the lifecycle lock, the pending lock and the locks of the references;
--   Client/Kept, Moves and Sections say where its references are, with the law in
--   Client/Forgotten. Client/Race with Parts has a schedule of a sender and a closer.
-- - nogil_rpc/runtime.py: Runtime/State (`RpcRuntime`, connections, actors, executors),
--   Runtime/Lifecycle (`start`, `stop`, the accept loop and the handler of a connection),
--   Runtime/Messages (`_handle_message` and its handlers), Runtime/Actors and Runtime/Tasks (what
--   executors run), Runtime/Invoke (`_invoke_sync`, and user code as a parameter),
--   Runtime/Respond (`_send_response`). Runtime/Server interleaves the threads as a step relation
--   that lets a reader meet any message at any time, with the caller of `stop` in the phases of
--   Runtime/Stopping. A call of a function or a method is taken, is in user code and is answered
--   in three steps, and a handler that ends shuts the executors of its actors down one by one.
--   Runtime/Queues, Calm, Steps, Operations and Settle say what the steps keep, Runtime/Clean
--   with Orphans and Runtime/Halting with Phases and Halted have the invariants, Runtime/Replies,
--   Silent, Replying and Answers what workers send, Runtime/Owned and Serving the end of a
--   connection's handler, and Runtime/Dispatch, Destroy and Departure the other laws.
-- - Agreement joins the two ends: the client's requests and the server's handlers, the server's
--   responses and catalog and the client's readers, and both across the socket. Agreement/Local
--   has the specification of a remote call, a plain call of the target in terms of user code
--   alone, and shows that `_invoke_sync` is one, Agreement/Answering what the caller sees of it,
--   and Agreement/Call the whole way.
-- - benchmarks/control_plane_compare.py: Frontier (`FrontierCore`, `branch_domains`, what
--   `validate_snapshot` expects), with Frontier/Counting and Laws for calls of the coordinators
--   in any order and Frontier/Order for the order of the claims.
-- - examples/client.py and examples/server.py: Examples, with Examples/Closing.
--
-- Bounds and fuel. Numbers are natural numbers; a header holds four bytes, and a longer payload
-- is refused as `struct.pack` does. `_read_exact` has one round of fuel more than the bytes that
-- it asks for, since a round takes at least one. The reader loop of the client and the loop of a
-- connection's handler have fuel, and one round more than there are bytes on the way is enough.
--
-- Locks. What a method does under one lock is one step. The two sends of `write_frame` are one
-- step for the other writers of the socket; Protocol/Writers takes them apart. A step of
-- Runtime/Server is what a thread does between two points where another can overtake it; user
-- code, which changes only its own state, is one step at its end, and the part of a task that
-- ends in a response is one step with its response in `_create_actor`, `_attach_actor` and
-- `_destroy_actor`. The wait of an actor's executor is not a guard of the steps that follow it,
-- so the model has more interleavings there than the program. Where `stop` is a function, in
-- Runtime/Lifecycle, no other thread runs, and tasks that had begun are over, as its wait for the
-- executors has it; Runtime/Server has its phases and that wait.
--
-- Not modelled: the listening socket, the rounds of `coordinate` in the benchmark, digits and
-- white space that are not ASCII in a port, the `address` property, the number of a pool's
-- workers, the text of `str(exc)` beyond the message, dict entries whose key is no string, the
-- pause in examples/client.py, and the rest of benchmarks/, with tests/.
pub mod Prelude
pub mod Errors
pub mod Value
pub mod Exec
pub mod Python
pub mod Serializer
pub mod Protocol
pub mod ObjectRef
pub mod Registry
pub mod Client
pub mod Runtime
pub mod Agreement
pub mod Frontier
pub mod Examples
