-- ===== src/Runtime/Destroy.antt =====
-- Who can take an actor from the table: `_destroy_actor` under the actors lock.
use rpc_freethread.Prelude.{
  ℕ, String, false, ◌≡◌, ◌≢◌, none, some, arith, ◌⊎◌, inl, inr, ◌==◌, if◌then◌else◌, str_eq,
  Bool-cases,
}
use rpc_freethread.Prelude.Dict.{get, get-remove}
use rpc_freethread.Errors.{ok}
use rpc_freethread.Value.{Fields}
use rpc_freethread.Python.{Python}
use rpc_freethread.Serializer.{Serializer}
use rpc_freethread.Runtime.State.{Runtime, ActorEntry, on_sock, abort_connection}
use rpc_freethread.Runtime.Invoke.{UserCode}
use rpc_freethread.Runtime.Respond.{encode_response, send_response, send_error}
use rpc_freethread.Runtime.Actors.{claim_actor, settle_claim, close_executor, begin_destroy}

module _ {U : Type 0} (ser : Serializer) where
  -- A response changes no actor and no executor.
  send_response-actors :
      (conn : ℕ) (call_id : String) (response : Fields) (r : Runtime U)
      → ((send_response ser conn call_id response r).1.actors ≡ r.actors)
        × ((send_response ser conn call_id response r).1.executors ≡ r.executors)
  unfolding send_response encode_response on_sock abort_connection
  send_response-actors conn call_id response r = (ground arith, ground arith)

module _ ⦃py : Python⦄ {U : Type 0} (ser : Serializer) (user : UserCode U) where
  refused_claim :
      (conn : ℕ) (call_id id : String) (e : ActorEntry) (r : Runtime U)
      → ((settle_claim ser user conn call_id id (some (e, false)) r).1.actors ≡ r.actors)
        × ((settle_claim ser user conn call_id id (some (e, false)) r).1.executors ≡ r.executors)
  unfolding send_error send_response encode_response on_sock abort_connection
  refused_claim conn call_id id e r = (ground arith, ground arith)

  foreign_destroy :
      (conn : ℕ) (call_id id : String) (r : Runtime U) (e : ActorEntry)
      → get id r.actors ≡ some e
      → (e.owner == conn) ≡ false
      → begin_destroy ser user conn call_id id r
        ≡ settle_claim ser user conn call_id id (some (e, false)) r
  unfolding begin_destroy claim_actor
  foreign_destroy conn call_id id r e h o = ground arith

  -- If the connection that asks owns the actor of that id, `_destroy_actor` takes exactly this one
  -- from the table, returns it, and drops no queued call. If another connection owns it, no actor
  -- and no executor changes.
  pub begin_destroy-get :
      (conn : ℕ) (call_id id : String) (r : Runtime U) (e : ActorEntry)
      → get id r.actors ≡ some e
      → ((e.owner ≡ conn)
          × ((begin_destroy ser user conn call_id id r).0 ≡ ok (some e))
          × ((j : String)
              → get j (begin_destroy ser user conn call_id id r).1.actors
                ≡ (if str_eq id j then none else get j r.actors))
          × ((k : ℕ)
              → ((begin_destroy ser user conn call_id id r).1.executors k).queue
                ≡ (r.executors k).queue))
        ⊎ ((e.owner ≢ conn)
            × ((begin_destroy ser user conn call_id id r).1.actors ≡ r.actors)
            × ((begin_destroy ser user conn call_id id r).1.executors ≡ r.executors))
  unfolding begin_destroy claim_actor close_executor
  begin_destroy-get conn call_id id r e h = elim (Bool-cases (e.owner == conn)) [
    | inl o ↦ inl (
      ground arith,
      ground arith,
      λ j. ground (arith, get-remove id j r.actors),
      λ k. ground arith,
    )
    | inr o ↦ inr (
      ground arith,
      rw (foreign_destroy conn call_id id r e h o) (refused_claim conn call_id id e r).0,
      rw (foreign_destroy conn call_id id r e h o) (refused_claim conn call_id id e r).1,
    )
  ]
