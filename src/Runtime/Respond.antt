-- ===== src/Runtime/Respond.antt =====
-- `_send_result`, `_send_error` and `_send_response`.
use rpc_freethread.Prelude.{ℕ, String, true, false, List}
use rpc_freethread.Errors.{Error, Result, err, type_name, text_of}
use rpc_freethread.Exec.{Exec, lift, gets, try_except, ◌>>=◌}
use rpc_freethread.Value.{Value, Fields, field, end, boolean, text, mapping}
use rpc_freethread.Serializer.{Serializer}
use rpc_freethread.Protocol.{write_frame}
use rpc_freethread.Runtime.State.{Runtime, on_sock, abort_connection}

abbrev pub result_message : String → Value → Fields
result_message call_id result =
    field "type" (text "result")
      (field "call_id" (text call_id) (field "ok" (boolean true) (field "result" result end)))

abbrev pub error_message : String → Error → Fields
error_message call_id exc = field "type" (text "result") (
    field "call_id" (text call_id) (
      field "ok" (boolean false)
        (field "error_type" (text (type_name exc)) (field "error" (text (text_of exc)) end))))

module _ {U : Type 0} (ser : Serializer) where
  -- Aborts the connection and raises again.
  abbrev abort_with {ℓ} : {A : Type ℓ} → ℕ → Error → Runtime U → Result A × Runtime U
  abort_with conn e r = (err e, abort_connection conn r)

  -- The payload of a response, or of the error message that takes its place.
  unfoldable pub encode_response : ℕ → String → Fields → Exec (Runtime U) (List ℕ)
  encode_response conn call_id response =
      try_except (lift (ser.dumps (mapping response)))
        λ exc. try_except (lift (ser.dumps (mapping (error_message call_id exc)))) (abort_with conn)

  -- `_send_response`. `response["call_id"]` is `call_id`.
  unfoldable pub send_response : ℕ → String → Fields → Exec (Runtime U) (Unit {0})
  unfolding encode_response
  send_response conn call_id response = do
    payload ← encode_response conn call_id response
    max ← gets (λ r. r.max_frame_size)
    try_except (on_sock conn (write_frame max payload)) (abort_with conn)

  -- `_send_result`
  unfoldable pub send_result : ℕ → String → Value → Exec (Runtime U) (Unit {0})
  unfolding send_response
  send_result conn call_id result = send_response conn call_id (result_message call_id result)

  -- `_send_error`
  unfoldable pub send_error : ℕ → String → Error → Exec (Runtime U) (Unit {0})
  unfolding send_response
  send_error conn call_id exc = send_response conn call_id (error_message call_id exc)
