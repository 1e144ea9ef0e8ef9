-- ===== src/Client/Reader.antt =====
-- The reader thread: it ends, and closes the connection.
use rpc_freethread.Prelude.{
  ℕ, zero, suc, ◌<◌, String, true, false, ◌≡◌, refl, some, List, [], ◌∷◌, arith, length, Bool-cases,
  Option-cases, inl, inr,
}
use rpc_freethread.Prelude.Dict.{values}
use rpc_freethread.Errors.{Result, Result-cases, ok, type_name, text_of}
use rpc_freethread.Exec.{◌>>=◌, lift, >>=-eq-ok}
use rpc_freethread.Value.{Value, Fields}
use rpc_freethread.Python.{Python}
use rpc_freethread.Serializer.{Serializer}
use rpc_freethread.Protocol.Socket.{received}
use rpc_freethread.Protocol.{read_frame, receive_frame}
use rpc_freethread.Protocol.Bounds.{read_frame_shrinks}
use rpc_freethread.ObjectRef.{set_error}
use rpc_freethread.Client.State.{Client, update, on_sock, on_ref}
use rpc_freethread.Client.Connection.{
  handle_response, deliver, close_with_error, fail_all, read_response, read_responses,
}
use rpc_freethread.Client.Popping.{popped}
use rpc_freethread.Client.Responses.{handle_known}
use rpc_freethread.Client.Cases.{answers_or_not}

module _ ⦃py : Python⦄ where
  fail_all_closed :
      (t m : String) (l : List ℕ) (c : Client) → (fail_all t m l c).1.closed ≡ c.closed
  unfolding fail_all on_ref
  fail_all_closed t m [] c = refl
  fail_all_closed t m (a ∷ l) c =
      let c' = record c { refs = update c.refs a (set_error t m (c.refs a)).1 } in
      ground (arith, fail_all_closed t m l c')

  pub close_closes : (t m : String) (c : Client) → (close_with_error t m c).1.closed ≡ true
  unfolding close_with_error
  close_closes t m c =
      let c' = record c { closed = true; sock_open = false; pending = [] } in
      ground (arith, fail_all_closed t m (values c.pending) c')

  deliver_sock : (a : ℕ) (fs : Fields) (c : Client) → (deliver a fs c).1.sock ≡ c.sock
  unfolding deliver on_ref
  deliver_sock a fs c = ground arith

  pub handle_response_sock : (v : Value) (c : Client) → (handle_response v c).1.sock ≡ c.sock
  handle_response_sock v c = elim (answers_or_not v c) [
    | inr r ↦ r.sock_same
    | inl a ↦
        rw (a.is_mapping, handle_known c a.fs a.id a.address a.responds a.found)
          (deliver_sock a.address a.fs (popped a.id c))
  ]

  module _ (ser : Serializer) where
    received_frame :
        (max : ℕ) (c c' : Client) (p : List ℕ)
        → on_sock (receive_frame max) c ≡ (ok p, c')
        → read_frame max c.sock ≡ some (ok p, c'.sock)
    unfolding on_sock receive_frame
    received_frame max c c' p e = elim (Bool-cases c.sock_open) [
      | inr h ↦ ground arith
      | inl h ↦ elim (Option-cases (read_frame max c.sock)) [
        | inl out ↦ ground arith
        | inr (r, run) ↦ ground arith
      ]
    ]

    read_response_shrinks :
        (c c' : Client)
        → read_response ser c ≡ (ok tt, c')
        → length (received c'.sock.incoming) < length (received c.sock.incoming)
    unfolding read_response
    read_response_shrinks c c' e =
        let (p, d, e1, e2) =
          >>=-eq-ok (on_sock (receive_frame c.max_frame_size))
            (λ payload. lift (ser.loads payload) >>= handle_response) c e in
        let (m, d', e3, e4) = >>=-eq-ok (lift (ser.loads p)) handle_response d e2 in
        let shrinks =
          read_frame_shrinks c.max_frame_size c.sock d.sock p
            (received_frame c.max_frame_size c d p e1) in
        let same : c'.sock ≡ d.sock = ground (arith, e3, e4, handle_response_sock m d') in
        rw same (omega (arith, shrinks))

    -- With more fuel than there are bytes on the way, the reader loop ends, and the connection is
    -- closed when it does, whatever arrives.
    pub read_responses_closes :
        (fuel : ℕ) (c : Client)
        → length (received c.sock.incoming) < fuel
        → (r : Result (Unit {0})) × (c' : Client) × (read_responses ser fuel c ≡ some (r, c'))
          × (c'.closed ≡ true)
    unfolding read_responses
    read_responses_closes zero c h = elim h [ ]
    read_responses_closes (suc fuel) c h = elim (Result-cases (read_response ser c).0) [
      | inl (u, e) ↦
          let shrinks = read_response_shrinks c (read_response ser c).1 (ground arith) in
          let (r, d, run, closed) =
            read_responses_closes fuel (read_response ser c).1 (omega arith) in
          (r, d, ground (arith, run), closed)
      | inr (x, e) ↦ (
        (close_with_error (type_name x) (text_of x) (read_response ser c).1).0,
        (close_with_error (type_name x) (text_of x) (read_response ser c).1).1,
        ground arith,
        close_closes (type_name x) (text_of x) (read_response ser c).1,
      )
    ]
