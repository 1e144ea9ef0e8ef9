-- ===== src/Client/Requests.antt =====
-- What `_send_request` does to the pending map, on every path.
use rpc_freethread.Prelude.{
  ℕ, ◌+◌, ◌<◌, String, true, false, ◌≡◌, refl, none, List, ◌∷◌, arith, eq_iff, Bool-cases, inl, inr,
  str_eq,
}
use rpc_freethread.Prelude.Dict.{
  Dict, get, put, remove, NodupKeys, get-put, get-remove, put-NodupKeys, remove-NodupKeys,
}
use rpc_freethread.Errors.{
  Error, Result, Result-cases, ok, err, os_error, connection_closed_error, remote_error,
}
use rpc_freethread.Value.{text, mapping, Fields, put_field}
use rpc_freethread.Python.{Python}
use rpc_freethread.Serializer.{Serializer}
use rpc_freethread.Protocol.Socket.{Sock}
use rpc_freethread.Protocol.{write_frame}
use rpc_freethread.ObjectRef.{ObjectRef, new_ref, ready, outcome, set_error, error_is}
use rpc_freethread.ObjectRef.Once.{complete_first}
use rpc_freethread.Client.State.{Client, update, on_sock, on_ref, allocate}
use rpc_freethread.Client.Connection.{transmit, withdraw, send_request}
use rpc_freethread.Client.Pending.{IsValid}
use rpc_freethread.Client.Effects.{Issued, Effect}

-- The references that callers hold after a call that may have returned one.
abbrev pub issue : Result ℕ → List ℕ → List ℕ
issue (ok a) held = a ∷ held
issue (err e) held = held

module _ {held : List ℕ} (c : Client) (v : IsValid held c) (id : String) (s : Sock) where
  -- A request went out: its reference is new, waits, and is in the map.
  sent-IsValid :
      c.closed ≡ false
      → get id c.pending ≡ none
      → IsValid (c.next_ref ∷ held) (record c {
        sock = s;
        pending = put id c.next_ref c.pending;
        refs = update c.refs c.next_ref (new_ref id);
        next_ref = c.next_ref + 1;
      })
  unfolding ready
  sent-IsValid open_now fresh = record {
    nodup = put-NodupKeys id c.next_ref c.pending v.nodup;
    waiting =
        λ j a e. ground (arith, get-put id j c.next_ref c.pending, v.waiting j a, eq_iff id j);
    no_leak = λ a h w. ground (
      arith,
      v.allocated a,
      v.no_leak a,
      get-put id (c.refs a).call_id c.next_ref c.pending,
      get-put id id c.next_ref c.pending,
      eq_iff id (c.refs a).call_id,
      eq_iff id id,
    );
    allocated = λ a h. ground (arith, v.allocated a);
    emptied = λ h j. cc;
  }

  sent-Issued :
      Issued id c
        (record c {
          sock = s;
          pending = put id c.next_ref c.pending;
          refs = update c.refs c.next_ref (new_ref id);
          next_ref = c.next_ref + 1;
        })
        c.next_ref
  unfolding ready
  sent-Issued = record {
    is_new = refl;
    waits = ground arith;
    listed = ground (arith, get-put id id c.next_ref c.pending, eq_iff id id);
    calls_same = λ j. elim (Bool-cases (str_eq id j)) [
      | inl h ↦ inl (ground (arith, eq_iff id j))
      | inr h ↦ inr (ground (arith, get-put id j c.next_ref c.pending))
    ];
    refs_same = λ b lt. ground arith;
  }

  -- A request did not go out: the map is as before, and nobody holds the new reference.
  unsent-IsValid :
      (p : Dict ℕ) (refs : ℕ → ObjectRef)
      → NodupKeys p
      → ((j : String) → get j p ≡ get j c.pending)
      → ((a : ℕ) → a < c.next_ref → refs a ≡ c.refs a)
      → IsValid held (record c { sock = s; pending = p; refs = refs; next_ref = c.next_ref + 1 })
  unsent-IsValid p refs n same old = record {
    nodup = n;
    waiting = λ j a e. ground (arith, same j, v.waiting j a, old a);
    no_leak = λ a h w. ground (arith, v.allocated a, v.no_leak a, same (c.refs a).call_id, old a);
    allocated = λ a h. ground (arith, v.allocated a);
    emptied = λ h j. ground (arith, same j, v.emptied h j);
  }

module _ ⦃py : Python⦄ where
  transmit_closed :
      (id : String) (a : ℕ) (payload : List ℕ) (c : Client)
      → c.closed ≡ true
      → transmit id a payload c ≡ (err (connection_closed_error "client connection is closed"), c)
  unfolding transmit
  transmit_closed id a payload c h = ground arith

  pub on_sock_lem :
      {A : Type 0} (m : Sock → Result A × Sock) (c : Client)
      → (r : Result A) × (s : Sock) × (on_sock m c ≡ (r, record c { sock = s }))
  unfolding on_sock
  on_sock_lem m c = elim (Bool-cases c.sock_open) [
    | inl h ↦ ((m c.sock).0, (m c.sock).1, ground arith)
    | inr h ↦ (err (os_error "Bad file descriptor"), c.sock, ground arith)
  ]

  transmit_open :
      (id : String) (a : ℕ) (payload : List ℕ) (c : Client)
      → c.closed ≡ false
      → (r : Result (Unit {0})) × (s : Sock) × (transmit id a payload c
          ≡ (r, record c { sock = s; pending = put id a c.pending }))
  unfolding transmit
  transmit_open id a payload c h =
      let c' = record c { pending = put id a c.pending } in
      let (r, s, e) = on_sock_lem (write_frame c.max_frame_size payload) c' in
      (r, s, ground (arith, e))

  withdraw_lem :
      (id : String) (a : ℕ) (e : Error) (c : Client)
      → ready (c.refs a) ≡ false
      → (o : ObjectRef) × (ready o ≡ true)
        × (outcome o ≡ err (remote_error "ConnectionError" "failed to send remote call"))
        × (withdraw id a e c
            ≡ (err e, record c { pending = remove id c.pending; refs = update c.refs a o }))
  unfolding withdraw on_ref
  withdraw_lem id a e c h =
      let m = set_error "ConnectionError" "failed to send remote call" in
      let (done, finished_now, _, value) =
        complete_first (error_is "ConnectionError" "failed to send remote call") (c.refs a) h in
      ((m (c.refs a)).1, finished_now, value, ground (arith, done))

  module _ (ser : Serializer) (id : String) (request : Fields) (c : Client) where
    abbrev fresh_client : Client
    fresh_client = (allocate id c).1

    abbrev encoded : Result (List ℕ)
    encoded = ser.dumps (mapping (put_field "call_id" (text id) request))

    abbrev pub IsUnencoded : Type 0
    IsUnencoded = (e : Error) × (encoded ≡ err e)

    send_unencoded :
        (e : Error) → encoded ≡ err e → send_request ser id request c ≡ (err e, fresh_client)
    unfolding send_request allocate
    send_unencoded e h = ground arith

    send_transmitted :
        (payload : List ℕ) (d : Client)
        → encoded ≡ ok payload
        → transmit id c.next_ref payload fresh_client ≡ (ok tt, d)
        → send_request ser id request c ≡ (ok c.next_ref, d)
    unfolding send_request allocate
    send_transmitted payload d h t = ground arith

    send_withdrawn :
        (payload : List ℕ) (e : Error) (d d' : Client)
        → encoded ≡ ok payload
        → transmit id c.next_ref payload fresh_client ≡ (err e, d)
        → withdraw id c.next_ref e d ≡ (err e, d')
        → send_request ser id request c ≡ (err e, d')
    unfolding send_request allocate
    send_withdrawn payload e d d' h t w = ground arith

    -- The state after the `except` block: the map is as it was before the call.
    module _ {held : List ℕ} (v : IsValid held c) (fresh : get id c.pending ≡ none) where
      failed_request :
          (payload : List ℕ) (e : Error) (s : Sock) (p : Dict ℕ)
          → encoded ≡ ok payload
          → NodupKeys p
          → ((j : String) → get j (remove id p) ≡ get j c.pending)
          → transmit id c.next_ref payload fresh_client
            ≡ (err e, record fresh_client { sock = s; pending = p })
          → let (r, c') = send_request ser id request c in
            IsValid (issue r held) c' × Effect IsUnencoded id c r c'
      unfolding allocate
      failed_request payload e s p h n same t =
          let d = record fresh_client { sock = s; pending = p } in
          let waits : ready (d.refs c.next_ref) ≡ false = unfold ready in ground arith in
          let (o, over, value, w) = withdraw_lem id c.next_ref e d waits in
          rw (send_withdrawn payload e d _ h t w) (
            unsent-IsValid c v id s (remove id p) (update d.refs c.next_ref o)
                (remove-NodupKeys id p n) same (λ a lt. ground arith),
            record {
              calls_same = same;
              refs_same = λ a lt. ground arith;
              failed = inr (ground (arith, over), ground (arith, value));
            },
          )

      transmitted :
          (payload : List ℕ) (r : Result (Unit {0})) (s : Sock)
          → encoded ≡ ok payload
          → c.closed ≡ false
          → transmit id c.next_ref payload fresh_client
            ≡ (r, record fresh_client { sock = s; pending = put id c.next_ref c.pending })
          → let (r', c') = send_request ser id request c in
            IsValid (issue r' held) c' × Effect IsUnencoded id c r' c'
      unfolding allocate
      transmitted payload (ok u) s h open_now t =
          rw (send_transmitted payload _ h t)
            (sent-IsValid c v id s open_now fresh, sent-Issued c v id s)
      transmitted payload (err e) s h open_now t =
          let p = put id c.next_ref c.pending in
          failed_request payload e s p h (put-NodupKeys id c.next_ref c.pending v.nodup)
            (λ j. ground (arith, get-remove id j p, get-put id j c.next_ref c.pending, eq_iff id j))
            t

      pub send_request_lem :
          let (r, c') = send_request ser id request c in
          IsValid (issue r held) c' × Effect IsUnencoded id c r c'
      unfolding allocate
      send_request_lem = elim (Result-cases encoded) [
        | inr (e, h) ↦ rw (send_unencoded e h) (
          unsent-IsValid c v id c.sock c.pending _ v.nodup (λ j. refl) (λ a lt. ground arith),
          record { calls_same = λ j. refl; refs_same = λ a lt. ground arith; failed = inl (e, h) },
        )
        | inl (payload, h) ↦ elim (Bool-cases c.closed) [
          | inl shut ↦
              failed_request payload _ c.sock c.pending h v.nodup
                (λ j. ground (arith, get-remove id j c.pending, eq_iff id j))
                (transmit_closed id c.next_ref payload fresh_client shut)
          | inr open_now ↦
              let (r, s, t) = transmit_open id c.next_ref payload fresh_client open_now in
              transmitted payload r s h open_now t
        ]
      ]
