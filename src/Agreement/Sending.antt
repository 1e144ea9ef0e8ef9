-- ===== src/Agreement/Sending.antt =====
-- A request on its way: `_send_request` of the client, the socket, a round of `_handle_connection`.
use rpc_freethread.Prelude.{ℕ, ◌≤◌, String, true, ◌≡◌, ap, List, ◌++◌, arith, inl, inr}
use rpc_freethread.Prelude.Dict.{remove}
use rpc_freethread.ObjectRef.{ready}
use rpc_freethread.Errors.{Error, Result-cases, ok}
use rpc_freethread.Exec.{raise, >>=-eq-ok}
use rpc_freethread.Value.{Value, Fields}
use rpc_freethread.Python.{Python}
use rpc_freethread.Serializer.{Serializer}
use rpc_freethread.Protocol.Socket.{Sock, received}
use rpc_freethread.Protocol.{write_frame, receive_frame}
use rpc_freethread.Protocol.RoundTrip.{sent_since, read_frame-write_frame}
use rpc_freethread.Runtime.State.{Runtime, on_sock, update}
use rpc_freethread.Runtime.Messages.{handle_message}
use rpc_freethread.Runtime.Lifecycle.{serve_one}
use rpc_freethread.Client.State.{Client, on_sock as on_client_sock, allocate}
use rpc_freethread.Client.Connection.{send_request, transmit, withdraw, fail_unless}
use rpc_freethread.Agreement.Requests.{message}

module _ ⦃py : Python⦄ where
  -- The `except` block of `_send_request` never returns.
  never_returns :
      {P : Type 0} (id : String) (a : ℕ) (e : Error) (c : Client)
      → (withdraw id a e c).0 ≡ ok tt
      → P
  unfolding withdraw
  never_returns id a e c h =
      let (_, d, _, k) =
        >>=-eq-ok (fail_unless (ready (c.refs a)) a) (λ _. raise e)
          (record c { pending = remove id c.pending }) {b = tt} {s' = (withdraw id a e c).1}
          (ap (λ v. (v, (withdraw id a e c).1)) h) in
      absurd cc

  transmitted :
      (id : String) (a : ℕ) (p : List ℕ) (c c' : Client)
      → transmit id a p c ≡ (ok tt, c')
      → write_frame c.max_frame_size p c.sock ≡ (ok tt, c'.sock)
  unfolding transmit on_client_sock
  transmitted id a p c c' e = ground arith

  -- A request that was sent is one frame with its message.
  sent_request :
      (ser : Serializer) (id : String) (request : Fields) (c c' : Client) (a : ℕ)
      → send_request ser id request c ≡ (ok a, c')
      → (p : List ℕ) × (ser.dumps (message id request) ≡ ok p)
        × (write_frame c.max_frame_size p c.sock ≡ (ok tt, c'.sock))
  unfolding send_request allocate
  sent_request ser id request c c' a e = elim (Result-cases (ser.dumps (message id request))) [
    | inr (x, h) ↦ absurd (ground arith)
    | inl (p, h) ↦ (
      p,
      h,
      elim (Result-cases (transmit id c.next_ref p (allocate id c).1).0) [
        | inl (u, k) ↦
            let t =
              transmitted id c.next_ref p (allocate id c).1
                (transmit id c.next_ref p (allocate id c).1).1 (ground arith) in
            ground (arith, t)
        | inr (x, k) ↦
            never_returns id c.next_ref x (transmit id c.next_ref p (allocate id c).1).1
              (ground arith)
      ],
    )
  ]

module _ {U : Type 0} ⦃py : Python⦄ (ser : Serializer) where
  -- What `_send_request` sends for a request reaches the server over the socket, however the stream
  -- is cut: one round of the connection's handler runs `_handle_message` on the very message of the
  -- request, with its call id, and leaves what follows on the stream. It is assumed that the server's
  -- limit is not below the client's and that loading undoes dumping.
  pub request_delivered :
      ((m : Value) (p : List ℕ) → ser.dumps m ≡ ok p → ser.loads p ≡ ok m)
      → (id : String) (request : Fields) (c c' : Client) (a : ℕ)
      → send_request ser id request c ≡ (ok a, c')
      → (conn : ℕ) (r : Runtime U) (tail : List ℕ) → (r.conns conn).sock_open ≡ true
      → c.max_frame_size ≤ r.max_frame_size
      → received (r.conns conn).sock.incoming ≡ sent_since c.sock c'.sock ++ tail
      → (s : Sock) × (received s.incoming ≡ tail)
        × (serve_one ser conn r
            ≡ handle_message conn
                (message id request)
                (record r { conns = update r.conns conn (record (r.conns conn) { sock = s }) }))
  unfolding serve_one on_sock receive_frame
  request_delivered inverse id request c c' a e conn r tail o le arrives =
      let (p, h, w) = sent_request ser id request c c' a e in
      let (s, d) =
        read_frame-write_frame c.max_frame_size r.max_frame_size p tail c.sock c'.sock
          (r.conns conn).sock w le arrives in
      (s, d.left, ground (arith, d.run, inverse (message id request) p h))
