-- ===== src/Agreement/Connecting.antt =====
-- A new connection: `_send_catalog` of the server, the socket, and `connect` of the client.
use rpc_freethread.Prelude.{
  ℕ, suc, ◌≤◌, String, true, false, ◌≡◌, refl, List, [], ◌++◌, arith, inl, inr,
}
use rpc_freethread.Errors.{Result, Result-cases, ok}
use rpc_freethread.Value.{Value, number}
use rpc_freethread.Python.{Python}
use rpc_freethread.Serializer.{Serializer}
use rpc_freethread.Protocol.Socket.{Sock, received}
use rpc_freethread.Protocol.{write_frame, receive_frame}
use rpc_freethread.Protocol.RoundTrip.{sent_since, read_frame-write_frame}
use rpc_freethread.ObjectRef.{new_ref}
use rpc_freethread.Registry.{catalog}
use rpc_freethread.Registry.Names.{IsValid}
use rpc_freethread.Runtime.State.{Runtime, on_sock}
use rpc_freethread.Runtime.Lifecycle.{send_catalog, catalog_message}
use rpc_freethread.Client.Address.{ℤ, parse_address}
use rpc_freethread.Client.State.{Client, new_client, check_max_frame_size}
use rpc_freethread.Client.Process.{connect}
use rpc_freethread.Agreement.Handshake.{catalog_accepted}
use rpc_freethread.Agreement.Delivery.{wrote}

module _ ⦃py : Python⦄ {U : Type 0} (ser : Serializer) where
  sent_catalog :
      (conn : ℕ) (r r' : Runtime U)
      → send_catalog ser conn r ≡ (ok tt, r')
      → (p : List ℕ) × (ser.dumps (catalog_message (catalog r.registry).0 (catalog r.registry).1)
          ≡ ok p)
        × (on_sock conn (write_frame r.max_frame_size p) r ≡ (ok tt, r'))
  unfolding send_catalog
  sent_catalog conn r r' e =
      elim (Result-cases
        (ser.dumps (catalog_message (catalog r.registry).0 (catalog r.registry).1))) [
          | inl (p, h) ↦ (p, h, ground arith)
          | inr (x, h) ↦ absurd (ground arith)
        ]

  -- When the server has sent its catalog and the dialled socket brings it, `connect` succeeds: it
  -- returns a process that knows exactly the actor classes of the server's registry, over a
  -- connection with the given limit and no pending call, and what follows the catalog stays on the
  -- stream. The registry's functions and classes have different names, the address is a host and a
  -- port, the client's limit is not below the server's, and loading undoes dumping.
  pub connect_succeeds :
      ((m : Value) (p : List ℕ) → ser.dumps m ≡ ok p → ser.loads p ≡ ok m)
      → (conn : ℕ) (r r' : Runtime U) → IsValid r.registry
      → send_catalog ser conn r ≡ (ok tt, r')
      → (address host : String) (port : ℤ) (n : ℕ) (dial : String → ℤ → Result Sock) (sock : Sock)
        (tail : List ℕ)
      → parse_address address ≡ ok (host, port)
      → dial host port ≡ ok sock
      → r.max_frame_size ≤ suc n
      → received sock.incoming ≡ sent_since (r.conns conn).sock (r'.conns conn).sock ++ tail
      → (c : Client) × (received c.sock.incoming ≡ tail)
        × (c.pending ≡ [])
        × (c.closed ≡ false)
        × (c.max_frame_size ≡ suc n)
        × (connect ser address (number (suc n)) dial
            ≡ ok (record { connection = c; actor_names = (catalog r.registry).1 }))
  unfolding connect receive_frame new_client check_max_frame_size
  connect_succeeds inverse conn r r' valid e address host port n dial sock tail a d le arrives =
      let (p, h, w) = sent_catalog conn r r' e in
      let (s, f) =
        read_frame-write_frame r.max_frame_size (suc n) p tail (r.conns conn).sock
          (r'.conns conn).sock sock (wrote conn r.max_frame_size p r r' w) le arrives in
      let names = catalog_accepted r.registry valid in
      let message = catalog_message (catalog r.registry).0 (catalog r.registry).1 in
      let client : Client = record {
        sock = s;
        sock_open = true;
        pending = [];
        closed = false;
        max_frame_size = suc n;
        refs = λ _. new_ref "";
        next_ref = 0;
      } in
      (client, f.left, refl, refl, refl, ground (arith, a, d, f.run, inverse message p h, names))
