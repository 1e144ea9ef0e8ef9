-- ===== src/Client/Responses.antt =====
-- What `_handle_response` does with each message.
use rpc_freethread.Prelude.{
  ℕ, String, Bool, true, false, ◌≡◌, refl, ap, ◌∙◌, none, some, List, [], arith, ◌==◌, eq_iff,
  Bool-cases, inl, inr, ◌⊎◌,
}
use rpc_freethread.Prelude.Dict.{get, values, get-remove}
use rpc_freethread.Errors.{ok, err, protocol_error}
use rpc_freethread.Value.{Value, nothing, boolean, text, mapping, Fields, field_or}
use rpc_freethread.Python.{Python, str_of}
use rpc_freethread.ObjectRef.{ready, outcome, Completion, result_is, error_is, complete}
use rpc_freethread.ObjectRef.Once.{complete_first, delivers}
use rpc_freethread.Client.State.{Client, on_ref}
use rpc_freethread.Client.Connection.{handle_response, take_pending, deliver, close_with_error}
use rpc_freethread.Client.Failing.{elem, fail_refs_other}
use rpc_freethread.Client.Pending.{IsValid, close_open, not-elem-values}
use rpc_freethread.Client.Popping.{popped, popped-IsValid, completed-IsValid, Responds}

module _ ⦃py : Python⦄ where
  -- What the message says of the call: the value, or the error's class name and text.
  abbrev pub reported : Bool → Fields → Completion
  reported true fs = result_is (field_or nothing "result" fs)
  reported false fs =
      error_is (str_of (field_or (text "RemoteError") "error_type" fs))
        (str_of (field_or (text "remote call failed") "error" fs))

  pub handle_known :
      (c : Client) (fs : Fields) (id : String) (a : ℕ)
      → Responds fs id
      → get id c.pending ≡ some a
      → handle_response (mapping fs) c ≡ deliver a fs (popped id c)
  unfolding handle_response take_pending
  handle_known c fs id a r found = ground (arith, r.is_result, r.names_call)

  pub deliver-reported :
      (c : Client) (fs : Fields) (a : ℕ) (b : Bool)
      → field_or nothing "ok" fs ≡ boolean b
      → deliver a fs c ≡ on_ref a (complete (reported b fs)) c
  unfolding deliver
  deliver-reported c fs a true h = ground arith
  deliver-reported c fs a false h = ground arith

  -- A response for a call that waits completes exactly that call's reference, with the value or the
  -- error that it reports: the caller's `get` then delivers it. The call leaves the map, every
  -- other reference is as it was, and the bookkeeping stays in order.
  pub response_completes :
      (held : List ℕ) (c : Client) (fs : Fields) (id : String) (a b : ℕ) (good : Bool)
      → IsValid held c
      → Responds fs id
      → get id c.pending ≡ some a
      → field_or nothing "ok" fs ≡ boolean good
      → let (r, c') = handle_response (mapping fs) c in
        (r ≡ ok tt)
        × IsValid held c'
        × (ready (c'.refs a) ≡ true)
        × (outcome (c'.refs a) ≡ delivers (reported good fs))
        × (get id c'.pending ≡ none)
        × ((b ≡ a) ⊎ (c'.refs b ≡ c.refs b))
  unfolding on_ref
  response_completes held c fs id a b good v r found flag =
      let (done, finished_now, _, value) =
        complete_first (reported good fs) (c.refs a) (v.waiting id a found).1 in
      rw (handle_known c fs id a r found ∙ deliver-reported (popped id c) fs a good flag) (
        done,
        completed-IsValid c id a _ v found finished_now,
        ground (arith, finished_now),
        ground (arith, value),
        ground (arith, get-remove id id c.pending, eq_iff id id),
        elim (Bool-cases (a == b)) [
          | inl same ↦ inl (ground arith)
          | inr other ↦ inr (ground arith)
        ],
      )

  -- Whether a value is `True` or `False`.
  abbrev pub is_boolean : Value → Bool
  is_boolean (boolean _) = true
  is_boolean _ = false

  pub deliver_unreadable_at :
      (c : Client) (fs : Fields) (a : ℕ) (x : Value)
      → field_or nothing "ok" fs ≡ x
      → is_boolean x ≡ false
      → deliver a fs c ≡ (err (protocol_error "response ok field must be true or false"), c)
  unfolding deliver
  deliver_unreadable_at c fs a (boolean b) e h = cc
  deliver_unreadable_at c fs a _ e h = ground arith

  -- A response whose `ok` field is no boolean strands its call. Its reference is taken from the map
  -- before the field is looked at, so the `ProtocolError` that follows, and closing the connection
  -- with it as the reader does, leave the reference waiting with nothing left that would complete it.
  pub unreadable_ok_strands :
      (held : List ℕ) (c : Client) (fs : Fields) (id : String) (a : ℕ) (t m : String)
      → IsValid held c
      → c.closed ≡ false
      → Responds fs id
      → get id c.pending ≡ some a
      → is_boolean (field_or nothing "ok" fs) ≡ false
      → let (r, c') = handle_response (mapping fs) c in
        let (_, c'') = close_with_error t m c' in
        (r ≡ err (protocol_error "response ok field must be true or false"))
        × (c''.closed ≡ true)
        × (c''.pending ≡ [])
        × (ready (c''.refs a) ≡ false)
  unreadable_ok_strands held c fs id a t m v open_now r found h =
      let d = popped id c in
      let valid = popped-IsValid c id v in
      let own : (c.refs a).call_id ≡ id = (v.waiting id a found).2 in
      let unlisted : elem a (values d.pending) ≡ false =
        not-elem-values (λ x. (c.refs x).call_id) a d.pending valid.nodup
          (rw own (ground (arith, get-remove id id c.pending, eq_iff id id)))
          (λ j x e. (valid.waiting j x e).2) in
      rw (handle_known c fs id a r found ∙ deliver_unreadable_at d fs a _ refl h) (
        rw (close_open t m d valid open_now) (
          refl,
          refl,
          refl,
          ap ready (fail_refs_other t m (values d.pending) c.refs a unlisted)
              ∙ (v.waiting id a found).1,
        ))

  -- A value that is a boolean.
  pub boolean_of : (x : Value) → is_boolean x ≡ true → (b : Bool) × (x ≡ boolean b)
  boolean_of (boolean b) h = (b, refl)
  boolean_of _ h = cc
