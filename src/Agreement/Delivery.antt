-- ===== src/Agreement/Delivery.antt =====
-- A response on its way: `_send_response` of the server, the socket, a round of `_read_responses`.
use rpc_freethread.Prelude.{
  ℕ, ◌≤◌, String, true, ◌≡◌, ap, ◌∙◌, some, List, ◌++◌, arith, ◌⊎◌, inl, inr,
}
use rpc_freethread.Prelude.Dict.{get}
use rpc_freethread.Errors.{Error, Result-cases, ok, err, remote_error, type_name, text_of}
use rpc_freethread.Value.{Value, Fields, mapping}
use rpc_freethread.Python.{Python}
use rpc_freethread.Serializer.{Serializer}
use rpc_freethread.Protocol.Socket.{Sock, received}
use rpc_freethread.Protocol.{write_frame, read_frame, receive_frame}
use rpc_freethread.Protocol.RoundTrip.{sent_since, read_frame-write_frame}
use rpc_freethread.ObjectRef.{outcome}
use rpc_freethread.Runtime.State.{Runtime, on_sock}
use rpc_freethread.Runtime.Respond.{
  result_message, error_message, encode_response, send_response, send_result,
}
use rpc_freethread.Client.State.{Client, on_sock as on_client_sock}
use rpc_freethread.Client.Connection.{read_response, handle_response}
use rpc_freethread.Client.Pending.{IsValid}
use rpc_freethread.Client.Reader.{handle_response_sock}
use rpc_freethread.Agreement.Responses.{responses_understood}

module _ {U : Type 0} where
  pub wrote :
      (conn : ℕ) (max : ℕ) (p : List ℕ) (r r' : Runtime U)
      → on_sock conn (write_frame max p) r ≡ (ok tt, r')
      → write_frame max p (r.conns conn).sock ≡ (ok tt, (r'.conns conn).sock)
  unfolding on_sock
  wrote conn max p r r' e = ground arith

  -- What a response that was sent consists of: the message, or the error of its encoding.
  pub sent_message :
      (ser : Serializer) (conn : ℕ) (id : String) (response : Fields) (r r' : Runtime U)
      → send_response ser conn id response r ≡ (ok tt, r')
      → (p : List ℕ) × (on_sock conn (write_frame r.max_frame_size p) r ≡ (ok tt, r'))
        × ((ser.dumps (mapping response) ≡ ok p)
            ⊎ ((e : Error) × (ser.dumps (mapping response) ≡ err e)
                × (ser.dumps (mapping (error_message id e)) ≡ ok p)))
  unfolding send_response encode_response
  sent_message ser conn id response r r' e = elim (Result-cases (ser.dumps (mapping response))) [
    | inl (p, h) ↦ (p, ground arith, inl h)
    | inr (x, h) ↦ elim (Result-cases (ser.dumps (mapping (error_message id x)))) [
      | inl (p, k) ↦ (p, ground arith, inr (x, h, k))
      | inr (y, k) ↦ absurd (ground arith)
    ]
  ]

pub moved-IsValid :
    {held : List ℕ} (c : Client) (s : Sock) → IsValid held c → IsValid held (record c { sock = s })
moved-IsValid c s v = record {
  nodup = v.nodup;
  waiting = v.waiting;
  no_leak = v.no_leak;
  allocated = v.allocated;
  emptied = v.emptied;
}

module _ ⦃py : Python⦄ (ser : Serializer) where
  read_once :
      (c : Client) (s : Sock) (p : List ℕ) (m : Value)
      → c.sock_open ≡ true
      → read_frame c.max_frame_size c.sock ≡ some (ok p, s)
      → ser.loads p ≡ ok m
      → read_response ser c ≡ handle_response m (record c { sock = s })
  unfolding read_response on_client_sock receive_frame
  read_once c s p m o e l = ground arith

  -- A message that was sent as a frame is the one that the reader of the client handles.
  pub arrives_as :
      {U : Type 0}
      → ((m : Value) (p : List ℕ) → ser.dumps m ≡ ok p → ser.loads p ≡ ok m)
      → (conn : ℕ) (m : Value) (p : List ℕ) (r r' : Runtime U)
      → on_sock conn (write_frame r.max_frame_size p) r ≡ (ok tt, r')
      → ser.dumps m ≡ ok p
      → (c : Client) (tail : List ℕ) → c.sock_open ≡ true
      → r.max_frame_size ≤ c.max_frame_size
      → received c.sock.incoming ≡ sent_since (r.conns conn).sock (r'.conns conn).sock ++ tail
      → (s : Sock) × (received s.incoming ≡ tail)
        × (read_response ser c ≡ handle_response m (record c { sock = s }))
  arrives_as inverse conn m p r r' w h c tail o le arrives =
      let (s, d) =
        read_frame-write_frame r.max_frame_size c.max_frame_size p tail (r.conns conn).sock
          (r'.conns conn).sock c.sock (wrote conn r.max_frame_size p r r' w) le arrives in
      (s, d.left, read_once c s p m o d.run (inverse m p h))

  -- What the reader leaves on the stream after a message that arrived.
  pub leaves :
      (c : Client) (s : Sock) (m : Value) (tail : List ℕ)
      → received s.incoming ≡ tail
      → received ((handle_response m (record c { sock = s })).1).sock.incoming ≡ tail
  leaves c s m tail h =
      ap (λ q. received q.incoming) (handle_response_sock m (record c { sock = s })) ∙ h

module _ ⦃py : Python⦄ {U : Type 0} (ser : Serializer) where
  -- What `_send_result` sends for a call reaches the caller over the socket, however the stream is
  -- cut: one round of the client's reader handles it, and the call's `get` then returns the very
  -- value. If the value could not be serialized, `get` raises a `RemoteError` with the class name
  -- and the text of that error. It is assumed that sending did not fail, that the client's limit is
  -- not below the server's, and that loading undoes dumping.
  pub result_delivered :
      ((m : Value) (p : List ℕ) → ser.dumps m ≡ ok p → ser.loads p ≡ ok m)
      → (conn : ℕ) (id : String) (v : Value) (r r' : Runtime U)
      → send_result ser conn id v r ≡ (ok tt, r')
      → (held : List ℕ) (c : Client) (a : ℕ) (tail : List ℕ) → IsValid held c
      → get id c.pending ≡ some a
      → c.sock_open ≡ true
      → r.max_frame_size ≤ c.max_frame_size
      → received c.sock.incoming ≡ sent_since (r.conns conn).sock (r'.conns conn).sock ++ tail
      → let c' = (read_response ser c).1 in
        (received c'.sock.incoming ≡ tail)
        × (((p : List ℕ) × (ser.dumps (mapping (result_message id v)) ≡ ok p)
              × (outcome (c'.refs a) ≡ ok v))
            ⊎ ((e : Error) × (ser.dumps (mapping (result_message id v)) ≡ err e)
                × (outcome (c'.refs a) ≡ err (remote_error (type_name e) (text_of e)))))
  unfolding send_result
  result_delivered inverse conn id v r r' e held c a tail valid found o le arrives =
      let (p, w, kind) = sent_message ser conn id (result_message id v) r r' e in
      let understood = λ (s : Sock) (u : Value) (y : Error).
        responses_understood held (record c { sock = s }) id a u y (moved-IsValid c s valid)
          found in
      elim kind [
        | inl h ↦
            let (s, d, k) = arrives_as ser inverse conn _ p r r' w h c tail o le arrives in
            rw k (leaves ser c s _ tail d, inl (p, h, (understood s v (Error.os_error "")).0))
        | inr (x, h, g) ↦
            let (s, d, k) = arrives_as ser inverse conn _ p r r' w g c tail o le arrives in
            rw k (leaves ser c s _ tail d, inr (x, h, (understood s v x).1))
      ]
