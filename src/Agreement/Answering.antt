-- ===== src/Agreement/Answering.antt =====
-- What a caller sees of a computation that the server answers with `_send_result` or `_send_error`.
use rpc_freethread.Prelude.{ℕ, ◌≤◌, String, true, ◌≡◌, some, List, ◌++◌, arith, inl, inr, refl}
use rpc_freethread.Prelude.Dict.{get}
use rpc_freethread.Errors.{Error, Result, ok, err, remote_error, type_name, text_of}
use rpc_freethread.Exec.{Exec, lift}
use rpc_freethread.Value.{Value, Fields, mapping}
use rpc_freethread.Python.{Python}
use rpc_freethread.Serializer.{Serializer}
use rpc_freethread.Protocol.Socket.{received}
use rpc_freethread.Protocol.RoundTrip.{sent_since}
use rpc_freethread.ObjectRef.{outcome}
use rpc_freethread.Runtime.State.{Runtime}
use rpc_freethread.Runtime.Actors.{respond}
use rpc_freethread.Runtime.Respond.{
  result_message, error_message, send_result, send_error, send_response,
}
use rpc_freethread.Client.State.{Client}
use rpc_freethread.Client.Connection.{read_response, handle_response}
use rpc_freethread.Client.Pending.{IsValid}
use rpc_freethread.Agreement.Responses.{responses_understood}
use rpc_freethread.Agreement.Delivery.{arrives_as, sent_message, moved-IsValid, leaves}

-- The caller of a remote computation sees its value, and an error as a `RemoteError`.
abbrev pub as_seen : Result Value → Result Value
as_seen (ok v) = ok v
as_seen (err e) = err (remote_error (type_name e) (text_of e))

abbrev pub response_of : String → Result Value → Fields
response_of id (ok v) = result_message id v
response_of id (err e) = error_message id e

-- The specification of a remote computation: what its caller sees, given what it returns or raises
-- on the server. A response that cannot be serialized is seen as the error of its serialization.
unfoldable pub remotely : Serializer → String → Result Value → Result Value
remotely ser id v = elim (ser.dumps (mapping (response_of id v))) [
  | ok _ ↦ as_seen v
  | err e ↦ as_seen (err e)
]

remotely-ok :
    (ser : Serializer) (id : String) (v : Result Value) (p : List ℕ)
    → ser.dumps (mapping (response_of id v)) ≡ ok p
    → remotely ser id v ≡ as_seen v
unfolding remotely
remotely-ok ser id v p h = ground arith

remotely-err :
    (ser : Serializer) (id : String) (v : Result Value) (e : Error)
    → ser.dumps (mapping (response_of id v)) ≡ err e
    → remotely ser id v ≡ as_seen (err e)
unfolding remotely
remotely-err ser id v e h = ground arith

module _ ⦃py : Python⦄ where
  seen :
      (held : List ℕ) (c : Client) (id : String) (a : ℕ) (v : Result Value)
      → IsValid held c
      → get id c.pending ≡ some a
      → outcome ((handle_response (mapping (response_of id v)) c).1.refs a) ≡ as_seen v
  seen held c id a (ok v) valid found =
      (responses_understood held c id a v (Error.os_error "") valid found).0
  seen held c id a (err e) valid found =
      (responses_understood held c id a Value.nothing e valid found).1

module _ ⦃py : Python⦄ {U : Type 0} (ser : Serializer) where
  -- `_send_result` for a value, and `_send_error` for an error.
  abbrev pub answer : ℕ → String → Result Value → Exec (Runtime U) (Unit {0})
  answer conn id v = send_response ser conn id (response_of id v)

  answered :
      (v : Result Value) (conn : ℕ) (id : String) (r : Runtime U)
      → respond (lift v) (send_error ser conn id) (send_result ser conn id) r ≡ answer conn id v r
  unfolding send_result send_error
  answered (ok v) conn id r = refl
  answered (err e) conn id r = refl

  pub respond-answer :
      (m : Exec (Runtime U) Value) (conn : ℕ) (id : String) (r : Runtime U)
      → respond m (send_error ser conn id) (send_result ser conn id) r
        ≡ answer conn id (m r).0 (m r).1
  respond-answer m conn id r = answered (m r).0 conn id (m r).1

  pub answer_delivered :
      ((m : Value) (p : List ℕ) → ser.dumps m ≡ ok p → ser.loads p ≡ ok m)
      → (conn : ℕ) (id : String) (v : Result Value) (r r' : Runtime U)
      → answer conn id v r ≡ (ok tt, r')
      → (held : List ℕ) (c : Client) (a : ℕ) (tail : List ℕ) → IsValid held c
      → get id c.pending ≡ some a
      → c.sock_open ≡ true
      → r.max_frame_size ≤ c.max_frame_size
      → received c.sock.incoming ≡ sent_since (r.conns conn).sock (r'.conns conn).sock ++ tail
      → let c' = (read_response ser c).1 in
        (received c'.sock.incoming ≡ tail) × (outcome (c'.refs a) ≡ remotely ser id v)
  answer_delivered inverse conn id v r r' e held c a tail valid found o le arrives =
      let (p, w, kind) = sent_message ser conn id (response_of id v) r r' e in
      elim kind [
        | inl h ↦
            let (s, d, k) = arrives_as ser inverse conn _ p r r' w h c tail o le arrives in
            rw (k, remotely-ok ser id v p h)
              (
                leaves ser c s _ tail d,
                seen held (record c { sock = s }) id a v (moved-IsValid c s valid) found,
              )
        | inr (x, h, g) ↦
            let (s, d, k) = arrives_as ser inverse conn _ p r r' w g c tail o le arrives in
            rw (k, remotely-err ser id v x h)
              (
                leaves ser c s _ tail d,
                seen held (record c { sock = s }) id a (err x) (moved-IsValid c s valid) found,
              )
      ]
