-- ===== src/Client/Connection.antt =====
-- The methods of `RpcClientConnection` that change its state.
use rpc_freethread.Prelude.{
  ℕ, zero, suc, String, ◌<>◌, Bool, true, false, not, Option, none, some, List, [], ◌∷◌,
}
use rpc_freethread.Prelude.Dict.{get, put, remove, values}
use rpc_freethread.Errors.{
  Error, Result, ok, err, protocol_error, connection_closed_error, type_name, text_of,
}
use rpc_freethread.Exec.{Exec, pure, raise, gets, lift, raise_if, modify, try_except, ◌>>=◌, ◌>>◌}
use rpc_freethread.Value.{
  Value, nothing, boolean, text, mapping, Fields, field_or, put_field, is_text,
}
use rpc_freethread.Python.{Python, quoted, str_of}
use rpc_freethread.Serializer.{Serializer}
use rpc_freethread.Protocol.{write_frame, receive_frame}
use rpc_freethread.ObjectRef.{set_result, set_error, ready}
use rpc_freethread.Client.State.{Client, on_sock, allocate, on_ref}

module _ ⦃py : Python⦄ where
  -- The `for` loop of `_close_with_error`; an error of `set_error` ends it.
  unfoldable pub fail_all : String → String → List ℕ → Exec Client (Unit {0})
  fail_all t m [] = pure tt
  fail_all t m (a ∷ rest) = do on_ref a (set_error t m); fail_all t m rest

  -- What `_close_with_error` does to a connection that is open.
  unfoldable pub shut_down : String → String → Exec Client (Unit {0})
  shut_down t m = do
    modify (λ c. record c { closed = true; sock_open = false })
    waiting ← gets (λ c. values c.pending)
    modify (λ c. record c { pending = [] })
    fail_all t m waiting

  -- `_close_with_error`. The calls on the socket that it ignores the errors of close it.
  unfoldable pub close_with_error : String → String → Exec Client (Unit {0})
  unfolding shut_down
  close_with_error t m c = elim c.closed [ true ↦ (ok tt, c) | false ↦ shut_down t m c ]

  -- `close`
  unfoldable pub close : Exec Client (Unit {0})
  unfolding close_with_error
  close = close_with_error "ConnectionClosedError" "client connection closed"

  -- The last part of `_handle_response`, on the reference that was popped.
  unfoldable pub deliver : ℕ → Fields → Exec Client (Unit {0})
  deliver a fs = elim (field_or nothing "ok" fs) [
    | boolean true ↦ on_ref a (set_result (field_or nothing "result" fs))
    | boolean false ↦ on_ref a (
        set_error (str_of (field_or (text "RemoteError") "error_type" fs))
          (str_of (field_or (text "remote call failed") "error" fs)))
    | _ ↦ raise (protocol_error "response ok field must be true or false")
  ]

  -- `self._pending.pop(call_id, None)`, and its error
  unfoldable pub take_pending : String → Exec Client ℕ
  take_pending id c = elim (get id c.pending) [
    | none ↦ (
      err (protocol_error ("received response for unknown call_id " <> quoted id)),
      record c { pending = remove id c.pending },
    )
    | some a ↦ (ok a, record c { pending = remove id c.pending })
  ]

  abbrev as_dict : Value → Result Fields
  as_dict (mapping fs) = ok fs
  as_dict _ = err (protocol_error "response message must be a dictionary")

  abbrev as_call_id : Value → Result String
  as_call_id (text s) = ok s
  as_call_id _ = err (protocol_error "response call_id must be a string")

  -- `_handle_response`
  unfoldable pub handle_response : Value → Exec Client (Unit {0})
  handle_response message = do
    fs ← lift (as_dict message)
    raise_if (not (is_text "result" (field_or nothing "type" fs)))
        (protocol_error ("unexpected response type " <> py.repr (field_or nothing "type" fs)))
    id ← lift (as_call_id (field_or nothing "call_id" fs))
    a ← take_pending id
    deliver a fs

  -- The `try` block of `_send_request`.
  unfoldable pub transmit : String → ℕ → List ℕ → Exec Client (Unit {0})
  transmit id a payload = do
    closed ← gets (λ c. c.closed)
    raise_if closed (connection_closed_error "client connection is closed")
    modify (λ c. record c { pending = put id a c.pending })
    max ← gets (λ c. c.max_frame_size)
    on_sock (write_frame max payload)

  abbrev pub fail_unless : Bool → ℕ → Exec Client (Unit {0})
  fail_unless true a = pure tt
  fail_unless false a = on_ref a (set_error "ConnectionError" "failed to send remote call")

  -- Its `except` block.
  unfoldable pub withdraw : String → ℕ → Error → Exec Client (Unit {0})
  withdraw id a e = do
    modify (λ c. record c { pending = remove id c.pending })
    done ← gets (λ c. ready (c.refs a))
    fail_unless done a
    raise e

  module _ (ser : Serializer) where
    -- `_send_request`, with the identifier that `uuid4` gave
    unfoldable pub send_request : String → Fields → Exec Client ℕ
    send_request id request = do
      a ← allocate id
      payload ← lift (ser.dumps (mapping (put_field "call_id" (text id) request)))
      try_except (transmit id a payload) (withdraw id a)
      pure a

    -- One round of the loop in `_read_responses`.
    unfoldable pub read_response : Exec Client (Unit {0})
    read_response = do
      max ← gets (λ c. c.max_frame_size)
      payload ← on_sock (receive_frame max)
      message ← lift (ser.loads payload)
      handle_response message

    -- `_read_responses`, with fuel; `none` means that the fuel ran out.
    unfoldable pub read_responses : ℕ → Client → Option (Result (Unit {0}) × Client)
    read_responses zero c = none
    read_responses (suc fuel) c =
        let (r, c') = read_response c in
        elim r [
          | ok _ ↦ read_responses fuel c'
          | err e ↦ some (close_with_error (type_name e) (text_of e) c')
        ]
