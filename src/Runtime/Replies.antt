-- ===== src/Runtime/Replies.antt =====
-- What `_send_response` does to the connections: one frame goes out, or the connection is aborted.
use rpc_freethread.Prelude.{
  ℕ, String, true, false, ◌≡◌, refl, sym, subst, List, arith, ◌⊎◌, inl, inr, ◌==◌, Bool-cases,
}
use rpc_freethread.Errors.{Error, Result, Result-cases, ok, err}
use rpc_freethread.Exec.{Exec, gets, try_except, ◌>>=◌}
use rpc_freethread.Value.{Value, Fields, mapping}
use rpc_freethread.Serializer.{Serializer}
use rpc_freethread.Protocol.Socket.{Sock}
use rpc_freethread.Protocol.{write_frame}
use rpc_freethread.Runtime.State.{Runtime, Connection, on_sock, abort_connection}
use rpc_freethread.Runtime.Respond.{result_message, error_message, encode_response, send_response}

-- The two forms of a response to a call.
pub data Response (id : String) : Fields → Type 0 where
  value : (v : Value) → Response id (result_message id v)
  failure : (e : Error) → Response id (error_message id e)

-- One whole frame went out on an open connection, with a response to the call.
pub record Framed (ser : Serializer) (id : String) (max : ℕ) (before after : Connection)
    : Type 0 where
  pub was_open : before.sock_open ≡ true
  pub message : Fields
  pub response : Response id message
  pub payload : List ℕ
  pub encoded : ser.dumps (mapping message) ≡ ok payload
  pub sock : Sock
  pub written : write_frame max payload before.sock ≡ (ok tt, sock)
  pub kept : after ≡ record before { sock = sock }

-- No response could be serialized, not even the error message in place of the first; or one was, but
-- the socket was closed before, or `write_frame` refused it or failed.
pub data Unsendable (ser : Serializer) (id : String) (max : ℕ) (before : Connection) : Type 0 where
  unserialized :
      (message : Fields) (x y : Error)
      → Response id message
      → ser.dumps (mapping message) ≡ err x
      → ser.dumps (mapping (error_message id x)) ≡ err y
      → Unsendable ser id max before
  shut :
      (message : Fields) (payload : List ℕ)
      → Response id message
      → ser.dumps (mapping message) ≡ ok payload
      → before.sock_open ≡ false
      → Unsendable ser id max before
  unwritten :
      (message : Fields) (payload : List ℕ) (e : Error) (sock : Sock)
      → Response id message
      → ser.dumps (mapping message) ≡ ok payload
      → before.sock_open ≡ true
      → write_frame max payload before.sock ≡ (err e, sock)
      → Unsendable ser id max before

-- The connection was aborted, since no response could be sent on it.
pub record Aborted (ser : Serializer) (id : String) (max : ℕ) (before after : Connection)
    : Type 0 where
  pub cause : Unsendable ser id max before
  pub closed : after.closed ≡ true
  pub sock_closed : after.sock_open ≡ false

-- The call was answered on its connection, or the connection was aborted because no response could be
-- sent, or was closed already; and no other connection was touched.
pub record Replied (ser : Serializer) (conn : ℕ) (id : String) (max : ℕ)
    (before after : ℕ → Connection) : Type 0 where
  pub here :
      Framed ser id max (before conn) (after conn)
      ⊎ (Aborted ser id max (before conn) (after conn)
          ⊎ (((before conn).closed ≡ true) × (after conn ≡ before conn)))
  pub others : (j : ℕ) → (j == conn) ≡ false → after j ≡ before j

module _ {U : Type 0} where
  -- Nothing is sent.
  pub record Silent (r r' : Runtime U) : Type 0 where
    pub conns : r'.conns ≡ r.conns
    pub max : r'.max_frame_size ≡ r.max_frame_size

  pub record IsSilent {A : Type 0} (m : Exec (Runtime U) A) : Type 0 where
    pub at : (r : Runtime U) → Silent r (m r).1

  pub record Replies (ser : Serializer) (conn : ℕ) (id : String) (m : Exec (Runtime U) (Unit {0}))
      : Type 0 where
    pub at : (r : Runtime U) → Replied ser conn id r.max_frame_size r.conns ((m r).1).conns

  pub Silent-Replied :
      (ser : Serializer) (conn : ℕ) (id : String) (r s t : Runtime U)
      → Silent r s
      → Replied ser conn id s.max_frame_size s.conns t.conns
      → Replied ser conn id r.max_frame_size r.conns t.conns
  Silent-Replied ser conn id r s t h k =
      subst (λ n. Replied ser conn id n r.conns t.conns) h.max
        (subst (λ c. Replied ser conn id s.max_frame_size c t.conns) h.conns k)

  on_sock-others :
      (conn : ℕ) (m : Exec Sock (Unit {0})) (r : Runtime U) (j : ℕ)
      → (j == conn) ≡ false
      → ((on_sock conn m r).1).conns j ≡ r.conns j
  unfolding on_sock
  on_sock-others conn m r j h = ground arith

  written_here :
      (conn : ℕ) (m : Exec Sock (Unit {0})) (r r' : Runtime U)
      → on_sock conn m r ≡ (ok tt, r')
      → (s : Sock) × ((r.conns conn).sock_open ≡ true)
        × (m (r.conns conn).sock ≡ (ok tt, s))
        × (r'.conns conn ≡ record (r.conns conn) { sock = s })
  unfolding on_sock
  written_here conn m r r' h = ((r'.conns conn).sock, ground arith, ground arith, ground arith)

  unwritten_here :
      (conn : ℕ) (m : Exec Sock (Unit {0})) (r r' : Runtime U) (e : Error)
      → on_sock conn m r ≡ (err e, r')
      → ((r.conns conn).sock_open ≡ false)
        ⊎ ((s : Sock) × ((r.conns conn).sock_open ≡ true) × (m (r.conns conn).sock ≡ (err e, s)))
  unfolding on_sock
  unwritten_here conn m r r' e h = elim (Bool-cases (r.conns conn).sock_open) [
    | inr k ↦ inl k
    | inl k ↦ inr ((m (r.conns conn).sock).1, k, ground arith)
  ]

  unsendable :
      (ser : Serializer) (conn : ℕ) (id : String) (m : Fields) (p : List ℕ) (r s : Runtime U)
      (e : Error)
      → Response id m
      → ser.dumps (mapping m) ≡ ok p
      → on_sock conn (write_frame r.max_frame_size p) r ≡ (err e, s)
      → Unsendable ser id r.max_frame_size (r.conns conn)
  unsendable ser conn id m p r s e f h w =
      elim (unwritten_here conn (write_frame r.max_frame_size p) r s e w) [
        | inl k ↦ shut m p f h k
        | inr (sock, k, g) ↦ unwritten m p e sock f h k g
      ]

module _ {U : Type 0} (ser : Serializer) (conn : ℕ) (id : String) where
  -- The frame goes out, or sending fails and the connection is aborted.
  sending :
      (v : Result (Unit {0})) (m : Fields) (p : List ℕ) (r s : Runtime U)
      → Response id m
      → ser.dumps (mapping m) ≡ ok p
      → on_sock conn (write_frame r.max_frame_size p) r ≡ (v, s)
      → Replied ser conn id r.max_frame_size r.conns
          (try_except (λ _. (v, s)) (λ e t. (err e, abort_connection conn t)) r).1.conns
  unfolding abort_connection
  sending (ok u) m p r s f h w =
      let (q, opened, sent, kept) = written_here conn (write_frame r.max_frame_size p) r s w in
      record {
        here = inl (record {
          was_open = opened;
          message = m;
          response = f;
          payload = p;
          encoded = h;
          sock = q;
          written = sent;
          kept = kept;
        });
        others = λ j d.
            let o = on_sock-others conn (write_frame r.max_frame_size p) r j d in ground arith;
      }
  sending (err e) m p r s f h w = record {
    here = inr (
        inl (record {
          cause = unsendable ser conn id m p r s e f h w;
          closed = ground arith;
          sock_closed = ground arith;
        }));
    others =
        λ j d. let o = on_sock-others conn (write_frame r.max_frame_size p) r j d in ground arith;
  }

  aborting :
      (r : Runtime U)
      → Unsendable ser id r.max_frame_size (r.conns conn)
      → Replied ser conn id r.max_frame_size r.conns (abort_connection conn r).conns
  unfolding abort_connection
  aborting r cause = record {
    here = inr (inl (record { cause = cause; closed = ground arith; sock_closed = ground arith }));
    others = λ j d. ground arith;
  }

  -- The payload is that of a response, or none could be made and the connection is aborted.
  encode_response-cases :
      (m : Fields) (r : Runtime U)
      → Response id m
      → ((n : Fields) × (p : List ℕ) × Response id n
          × (ser.dumps (mapping n) ≡ ok p)
          × (encode_response ser conn id m r ≡ (ok p, r)))
        ⊎ ((e : Error) × Unsendable ser id r.max_frame_size (r.conns conn)
            × (encode_response ser conn id m r ≡ (err e, abort_connection conn r)))
  unfolding encode_response
  encode_response-cases m r f = elim (Result-cases (ser.dumps (mapping m))) [
    | inl (p, h) ↦ inl (m, p, f, h, ground arith)
    | inr (x, h) ↦ elim (Result-cases (ser.dumps (mapping (error_message id x)))) [
      | inl (p, k) ↦ inl (error_message id x, p, failure x, k, ground arith)
      | inr (y, k) ↦ inr (y, unserialized m x y f h k, ground arith)
    ]
  ]

  send_payload : List ℕ → Exec (Runtime U) (Unit {0})
  send_payload payload = do
    max ← gets (λ r. r.max_frame_size)
    try_except (on_sock conn (write_frame max payload)) λ e r. (err e, abort_connection conn r)

  pub send_response-Replies :
      (m : Fields) → Response id m → Replies {U = U} ser conn id (send_response ser conn id m)
  unfolding send_response send_payload
  send_response-Replies m f = record {
    at = λ r.
        let After = λ (q : Result (List ℕ) × Runtime U).
          Replied ser conn id r.max_frame_size r.conns (((λ _. q) >>= send_payload) r).1.conns in
        elim (encode_response-cases m r f) [
          | inl (n, p, g, h, k) ↦ subst After (sym k) (sending _ n p r _ g h refl)
          | inr (e, u, k) ↦ subst After (sym k) (aborting r u)
        ];
  }
