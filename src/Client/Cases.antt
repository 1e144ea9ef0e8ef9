-- ===== src/Client/Cases.antt =====
-- What `_handle_response` does with each message, in cases.
use rpc_freethread.Prelude.{
  ℕ, String, ◌<>◌, Bool, true, false, ◌≡◌, refl, some, arith, eq_iff, Bool-cases, Option-cases, inl,
  inr, ◌⊎◌,
}
use rpc_freethread.Prelude.Dict.{get, get-remove}
use rpc_freethread.Errors.{err, protocol_error}
use rpc_freethread.Value.{Value, nothing, boolean, text, mapping, Fields, field_or, is_text}
use rpc_freethread.Python.{Python, quoted}
use rpc_freethread.ObjectRef.{complete}
use rpc_freethread.Client.State.{Client, on_ref}
use rpc_freethread.Client.Connection.{handle_response, take_pending}
use rpc_freethread.Client.Popping.{popped, Responds}
use rpc_freethread.Client.Responses.{reported, is_boolean}

module _ ⦃py : Python⦄ where
  -- The message is a response to a call that waits.
  pub record Answers (message : Value) (c : Client) : Type 0 where
    pub fs : Fields
    pub id : String
    pub address : ℕ
    pub is_mapping : message ≡ mapping fs
    pub responds : Responds fs id
    pub found : get id c.pending ≡ some address

  -- The handler raised `ProtocolError` and left every call and every reference as it was.
  pub record Rejected (message : Value) (c : Client) : Type 0 where
    pub reason : String
    pub raised : (handle_response message c).0 ≡ err (protocol_error reason)
    pub refs_same : (handle_response message c).1.refs ≡ c.refs
    pub sock_same : (handle_response message c).1.sock ≡ c.sock
    pub calls_same : (j : String) → get j (handle_response message c).1.pending ≡ get j c.pending

  rejects_id :
      (fs : Fields) (c : Client) (x : Value)
      → is_text "result" (field_or nothing "type" fs) ≡ true
      → field_or nothing "call_id" fs ≡ x
      → Answers (mapping fs) c ⊎ Rejected (mapping fs) c
  unfolding handle_response take_pending
  rejects_id fs c (text id) k e = elim (Option-cases (get id c.pending)) [
    | inl missing ↦ inr (record {
      reason = "received response for unknown call_id " <> quoted id;
      raised = ground arith;
      refs_same = ground arith;
      sock_same = ground arith;
      calls_same = λ j. ground (arith, get-remove id j c.pending, eq_iff id j);
    })
    | inr (a, found) ↦ inl (record {
      fs = fs;
      id = id;
      address = a;
      is_mapping = refl;
      responds = record { is_result = k; names_call = e };
      found = found;
    })
  ]
  rejects_id fs c _ k e = inr (record {
    reason = "response call_id must be a string";
    raised = ground arith;
    refs_same = ground arith;
    sock_same = ground arith;
    calls_same = λ j. ground arith;
  })

  pub answers_or_not : (message : Value) (c : Client) → Answers message c ⊎ Rejected message c
  unfolding handle_response
  answers_or_not (mapping fs) c =
      elim (Bool-cases (is_text "result" (field_or nothing "type" fs))) [
        | inl k ↦ rejects_id fs c _ k refl
        | inr k ↦ inr (record {
          reason = "unexpected response type " <> py.repr (field_or nothing "type" fs);
          raised = ground arith;
          refs_same = ground arith;
          sock_same = ground arith;
          calls_same = λ j. ground arith;
        })
      ]
  answers_or_not _ c = inr (record {
    reason = "response message must be a dictionary";
    raised = ground arith;
    refs_same = ground arith;
    sock_same = ground arith;
    calls_same = λ j. ground arith;
  })

  -- The response reports a value or an error, the call leaves the map, and its reference is completed
  -- with what is reported.
  pub record Completed (message : Value) (c : Client) : Type 0 where
    pub answers : Answers message c
    pub good : Bool
    pub flag : field_or nothing "ok" answers.fs ≡ boolean good
    pub done :
        handle_response message c
        ≡ on_ref answers.address (complete (reported good answers.fs)) (popped answers.id c)

  -- The response says neither, and the call leaves the map with its reference as it was.
  pub record Stranded (message : Value) (c : Client) : Type 0 where
    pub answers : Answers message c
    pub unreadable : is_boolean (field_or nothing "ok" answers.fs) ≡ false
    pub raised :
        handle_response message c
        ≡ (err (protocol_error "response ok field must be true or false"), popped answers.id c)
