-- ===== src/Examples.antt =====
-- examples/client.py and examples/server.py: what the two scripts do with the library. What they
-- print is a list of values.
pub mod Closing
mod Tests
use rpc_freethread.Prelude.{
  ℕ, zero, suc, String, false, Option, none, some, List, [], ◌∷◌, ◌++◌, ◌⊎◌, inl, inr, get_elem?,
}
use rpc_freethread.Errors as Errors
use rpc_freethread.Errors.{Error, Result, ok, err, type_error}
use rpc_freethread.Exec.{Exec, pure, raise, lift, gets, modify, try_finally, ◌>>=◌, ◌>>◌}
use rpc_freethread.Value.{Value, number, cons, nil, end}
use rpc_freethread.Python.{Python}
use rpc_freethread.Serializer.{Serializer}
use rpc_freethread.Protocol.{default_max_frame_size}
use rpc_freethread.Protocol.Socket.{Sock}
use rpc_freethread.Registry.{Target, remote, remote_registry}
use rpc_freethread.Runtime.State.{Runtime}
use rpc_freethread.Runtime.Lifecycle.{new_runtime, start, wait}
use rpc_freethread.Client.Address.{ℤ}
use rpc_freethread.Client.State.{Client}
use rpc_freethread.Client.Handle.{ActorHandle, remote_attribute}
use rpc_freethread.Client.Process.{
  RemoteProcess, connect, close_process, on_connection, proxy_remote,
}

-- The process, and what the client has printed.
abbrev pub Session : Type 0
Session = RemoteProcess × List Value

-- `wait` is the `get` of a reference, during which the other threads run; `ids` are the
-- identifiers that `uuid4` gives, one for a call and one for an actor.
module _ ⦃py : Python⦄ (ser : Serializer) (wait : ℕ → Exec Client Value)
    (ids : ℕ → String × String) where
  abbrev on_process : {A : Type 0} → Exec RemoteProcess A → Exec Session A
  on_process m (p, out) = let (r, q) = m p in (r, (q, out))

  -- `worker.add.remote(2, i)`
  unfoldable pub add_remote : ℕ → Exec RemoteProcess (ℕ ⊎ ActorHandle)
  unfolding remote_attribute proxy_remote
  add_remote i = do
    names ← gets (λ p. p.actor_names)
    proxy ← lift (remote_attribute names "add")
    on_connection ser (
        proxy_remote ser wait proxy (ids i).0 (ids i).1 (cons (number 2) (cons (number i) nil)) end)

  -- The loop that calls, from `i` on for `n` rounds.
  unfoldable pub add_all :
      ℕ → ℕ → List (ℕ ⊎ ActorHandle) → Exec RemoteProcess (List (ℕ ⊎ ActorHandle))
  unfolding add_remote
  add_all zero i refs = pure refs
  add_all (suc n) i refs = do ref ← add_remote i; add_all n (suc i) (refs ++ (ref ∷ []))

  -- `ref.get()`. If the server lists an actor class of that name, `ref` is a handle, and `get` a proxy
  -- of a method, which cannot be called.
  abbrev get_ref : Option (ℕ ⊎ ActorHandle) → Exec RemoteProcess Value
  get_ref none = raise (Error.other "IndexError" "list index out of range")
  get_ref (some (inl ref)) = on_connection ser (wait ref)
  get_ref (some (inr handle)) = raise (type_error "'ActorMethodProxy' object is not callable")

  -- The loop that prints, from `i - 1` down to 0.
  unfoldable pub print_all : ℕ → List (ℕ ⊎ ActorHandle) → Exec Session (Unit {0})
  print_all zero refs = pure tt
  print_all (suc i) refs = do
    v ← on_process (get_ref (get_elem? refs i))
    modify (λ (p, out). (p, out ++ (v ∷ [])))
    print_all i refs

  -- The `try` block of `main`
  unfoldable pub calls : Exec Session (Unit {0})
  unfolding add_all print_all
  calls = do refs ← on_process (add_all 10 0 []); print_all 10 refs

  -- `main` of the client, once it is connected.
  unfoldable pub session : Exec Session (Unit {0})
  unfolding calls close_process
  session = try_finally calls (on_process (close_process ser))

  -- `main` of the client
  unfoldable pub client_main : (String → ℤ → Result Sock) → Result (Result (Unit {0}) × Session)
  unfolding session connect
  client_main dial =
      Errors.◌>>=◌ (connect ser "127.0.0.1:50051" (number default_max_frame_size) dial)
        (λ worker. ok (session (worker, [])))

-- `add`, before it is decorated; `identity` is the function object.
abbrev pub add_target : ℕ → Target
add_target identity = record { name = "add"; marked = none; is_class = false; identity = identity }

module _ ⦃py : Python⦄ {U : Type 0} where
  abbrev waits : Exec (Runtime U) (Unit {0}) → Runtime U → Result (Option (Unit {0}) × Runtime U)
  waits m r = let (v, r') = m r in elim v [ ok _ ↦ ok (wait none r', r') | err e ↦ err e ]

  -- The script of the server; `bound` is how binding its socket ends, and `none` is that the wait
  -- goes on.
  unfoldable pub server_main : ℕ → U → Result (Unit {0}) → Result (Option (Unit {0}) × Runtime U)
  unfolding remote new_runtime start wait
  server_main identity world bound =
      Errors.◌>>=◌
        (new_runtime (remote (add_target identity) remote_registry).1 world
          (number default_max_frame_size))
        (waits (start bound))
