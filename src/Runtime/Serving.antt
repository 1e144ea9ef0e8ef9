-- ===== src/Runtime/Serving.antt =====
-- `_handle_connection` ends, and cleans up after its connection.
use rpc_freethread.Prelude.{
  ℕ, zero, suc, ◌<◌, true, ◌≡◌, refl, some, List, [], arith, length, Bool-cases, Option-cases, inl,
  inr, ltb,
}
use rpc_freethread.Errors.{Result, Result-cases, ok, err}
use rpc_freethread.Exec.{lift, ◌>>=◌, >>=-eq-ok}
use rpc_freethread.Value.{Value, mapping}
use rpc_freethread.Python.{Python}
use rpc_freethread.Serializer.{Serializer}
use rpc_freethread.Protocol.Socket.{Sock, received, sendall, sendall_incoming}
use rpc_freethread.Protocol.Header.{pack_header}
use rpc_freethread.Registry.{catalog}
use rpc_freethread.Protocol.{write_frame, read_frame, receive_frame}
use rpc_freethread.Protocol.Bounds.{read_frame_shrinks}
use rpc_freethread.Runtime.State.{Runtime, on_sock}
use rpc_freethread.Runtime.Messages.{handle_message}
use rpc_freethread.Runtime.Actors.{remove_connection_actors, owned_ids, owned_actors, remove_all}
use rpc_freethread.Runtime.Lifecycle.{
  catalog_message, serve_one, serve, send_catalog, leave, handle_connection,
}
use rpc_freethread.Runtime.Owned.{all_removed}
use rpc_freethread.Runtime.Steps.{remove_connection_actors-Calm, cancel_all-actors}
use rpc_freethread.Runtime.Dispatch.{one_task_or_none}

-- The bytes that are on the way to the server on a connection.
abbrev pub on_the_way : {U : Type 0} → ℕ → Runtime U → ℕ
on_the_way conn r = length (received (r.conns conn).sock.incoming)

write_frame-incoming :
    (max : ℕ) (p : List ℕ) (s : Sock) → (write_frame max p s).1.incoming ≡ s.incoming
unfolding write_frame
write_frame-incoming max p s = elim (Bool-cases (ltb max (length p))) [
  | inl long ↦ ground arith
  | inr short ↦ elim (Result-cases (pack_header (length p))) [
    | inr (x, k) ↦ ground arith
    | inl (h, k) ↦
        let a = sendall_incoming h s in let b = sendall_incoming p (sendall h s).1 in ground arith
  ]
]

module _ ⦃py : Python⦄ {U : Type 0} where
  handle_message-conns :
      (conn : ℕ) (m : Value) (r : Runtime U) → (handle_message conn m r).1.conns ≡ r.conns
  unfolding handle_message
  handle_message-conns conn (mapping fs) r = (one_task_or_none conn fs r).rest.conns
  handle_message-conns conn _ r = refl

module _ {U : Type 0} where
  received_frame :
      (conn max : ℕ) (r r' : Runtime U) (p : List ℕ)
      → on_sock conn (receive_frame max) r ≡ (ok p, r')
      → read_frame max (r.conns conn).sock ≡ some (ok p, (r'.conns conn).sock)
  unfolding on_sock receive_frame
  received_frame conn max r r' p e = elim (Bool-cases (r.conns conn).sock_open) [
    | inr h ↦ ground arith
    | inl h ↦ elim (Option-cases (read_frame max (r.conns conn).sock)) [
      | inl out ↦ ground arith
      | inr (q, run) ↦ ground arith
    ]
  ]

module _ ⦃py : Python⦄ {U : Type 0} (ser : Serializer) (conn : ℕ) where
  serve_one_shrinks :
      (r r' : Runtime U)
      → serve_one ser conn r ≡ (ok tt, r')
      → on_the_way conn r' < on_the_way conn r
  unfolding serve_one
  serve_one_shrinks r r' e =
      let (p, d, e1, e2) =
        >>=-eq-ok (on_sock conn (receive_frame r.max_frame_size))
          (λ payload. lift (ser.loads payload) >>= handle_message conn) r e in
      let (m, d', e3, e4) = >>=-eq-ok (lift (ser.loads p)) (handle_message conn) d e2 in
      let shrinks =
        read_frame_shrinks r.max_frame_size (r.conns conn).sock (d.conns conn).sock p
          (received_frame conn r.max_frame_size r d p e1) in
      let same : r'.conns ≡ d.conns = ground (arith, e3, e4, handle_message-conns conn m d') in
      rw same (omega (arith, shrinks))

  serve_ends :
      (fuel : ℕ) (r : Runtime U)
      → on_the_way conn r < fuel
      → (r' : Runtime U) × (serve ser fuel conn r ≡ some r')
  unfolding serve
  serve_ends zero r h = elim h [ ]
  serve_ends (suc fuel) r h = elim (Bool-cases r.stopping) [
    | inl s ↦ (r, ground arith)
    | inr s ↦ elim (Result-cases (serve_one ser conn r).0) [
      | inl (u, e) ↦
          let shrinks = serve_one_shrinks r (serve_one ser conn r).1 (ground arith) in
          let (r', run) = serve_ends fuel (serve_one ser conn r).1 (omega arith) in
          (r', ground (arith, run))
      | inr (x, e) ↦ ((serve_one ser conn r).1, ground arith)
    ]
  ]

  send_catalog_way :
      (r : Runtime U) → on_the_way conn (send_catalog ser conn r).1 ≡ on_the_way conn r
  unfolding send_catalog on_sock
  send_catalog_way r =
      elim (Result-cases
        (ser.dumps (catalog_message (catalog r.registry).0 (catalog r.registry).1))) [
          | inr (x, h) ↦ ground arith
          | inl (p, h) ↦ elim (Bool-cases (r.conns conn).sock_open) [
            | inr o ↦ ground arith
            | inl o ↦
                let same = write_frame-incoming r.max_frame_size p (r.conns conn).sock in
                ground arith
          ]
        ]

  leave-closed : (r : Runtime U) → ((leave conn r).conns conn).closed ≡ true
  unfolding leave
  leave-closed r = ground arith

  remove_connection_actors-closed :
      (r : Runtime U)
      → (r.conns conn).closed ≡ true
      → ((remove_connection_actors conn r).conns conn).closed ≡ true
  remove_connection_actors-closed r h = (remove_connection_actors-Calm conn r).stays_closed conn h

  remove_connection_actors-owned :
      (r : Runtime U) → owned_ids conn (remove_connection_actors conn r).actors ≡ []
  unfolding remove_connection_actors
  remove_connection_actors-owned r =
      let r' = record r { actors = remove_all (owned_ids conn r.actors) r.actors } in
      let (table, _, _) = cancel_all-actors (owned_actors conn r.actors) r' in
      rw table (all_removed conn r.actors)

  -- The `finally` block, after whatever way the loop ended.
  cleaned :
      (v : Result (Unit {0})) (fuel : ℕ) (r s : Runtime U)
      → send_catalog ser conn r ≡ (v, s)
      → on_the_way conn s < fuel
      → (t : Runtime U) × (handle_connection ser fuel conn r
          ≡ some (remove_connection_actors conn (leave conn t)))
  unfolding handle_connection
  cleaned (err x) fuel r s e h = (s, ground arith)
  cleaned (ok u) fuel r s e h = let (t, run) = serve_ends fuel s h in (t, ground arith)

  -- The handler of a connection ends, given more rounds than there are bytes on the way to it,
  -- whatever arrives and however handling it goes. It returns with the connection closed, and with no
  -- actor of the connection in the table.
  pub handle_connection_ends :
      (fuel : ℕ) (r : Runtime U)
      → on_the_way conn r < fuel
      → (r' : Runtime U) × (handle_connection ser fuel conn r ≡ some r')
        × ((r'.conns conn).closed ≡ true)
        × (owned_ids conn r'.actors ≡ [])
  handle_connection_ends fuel r h =
      let s = (send_catalog ser conn r).1 in
      let (t, run) =
        cleaned (send_catalog ser conn r).0 fuel r s refl (omega (arith, send_catalog_way r)) in
      (
        remove_connection_actors conn (leave conn t),
        run,
        remove_connection_actors-closed (leave conn t) (leave-closed t),
        remove_connection_actors-owned (leave conn t),
      )
