-- ===== src/Agreement/Responses.antt =====
-- The responses that the runtime sends, as `_handle_response` of the client reads them.
use rpc_freethread.Prelude.{ℕ, String, true, false, ◌≡◌, refl, some, List}
use rpc_freethread.Prelude.Dict.{get}
use rpc_freethread.Errors.{Error, ok, err, remote_error, type_name, text_of}
use rpc_freethread.Value.{Value, mapping, lookup}
use rpc_freethread.Python.{Python}
use rpc_freethread.ObjectRef.{outcome}
use rpc_freethread.Runtime.Respond.{result_message, error_message}
use rpc_freethread.Client.State.{Client}
use rpc_freethread.Client.Connection.{handle_response}
use rpc_freethread.Client.Pending.{IsValid}
use rpc_freethread.Client.Popping.{Responds}
use rpc_freethread.Client.Responses.{response_completes}

result-Responds : (id : String) (v : Value) → Responds (result_message id v) id
unfolding lookup
result-Responds id v = record { is_result = refl; names_call = refl }

error-Responds : (id : String) (e : Error) → Responds (error_message id e) id
unfolding lookup
error-Responds id e = record { is_result = refl; names_call = refl }

module _ ⦃py : Python⦄ where
  -- The message of `_send_result`, when it reaches a client that waits for that call, makes the
  -- call's `get` return the very value; the message of `_send_error` makes it raise a `RemoteError`
  -- with the class name and the text of the error that the server caught.
  pub responses_understood :
      (held : List ℕ) (c : Client) (id : String) (a : ℕ) (v : Value) (e : Error)
      → IsValid held c
      → get id c.pending ≡ some a
      → (outcome ((handle_response (mapping (result_message id v)) c).1.refs a) ≡ ok v)
        × (outcome ((handle_response (mapping (error_message id e)) c).1.refs a)
            ≡ err (remote_error (type_name e) (text_of e)))
  unfolding lookup
  responses_understood held c id a v e valid found =
      let (_, _, _, value, _, _) =
        response_completes held c (result_message id v) id a a true valid (result-Responds id v)
          found refl in
      let (_, _, _, error, _, _) =
        response_completes held c (error_message id e) id a a false valid (error-Responds id e)
          found refl in
      (value, error)
