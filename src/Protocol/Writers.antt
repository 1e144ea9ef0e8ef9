-- ===== src/Protocol/Writers.antt =====
-- `write_frame` of several threads on one socket: a thread waits for the write lock, makes the two
-- sends one after the other, and gives the lock back, also when a send has raised.
use rpc_freethread.Prelude.{
  ℕ, Bool, true, false, ◌≡◌, List, [], ◌∷◌, length, ltb, ◌==◌, if◌then◌else◌,
}
use rpc_freethread.Errors.{Error, Result, ok, err}
use rpc_freethread.Protocol.Socket.{Sock, sendall}
use rpc_freethread.Protocol.Header.{pack_header}
use rpc_freethread.Protocol.{write_frame, frame_too_long}

-- Where a thread stands: in no call; before the lock, with its header packed; with the lock, before
-- the first send; between the two sends; before it gives the lock back.
pub data Call : Type 0 where
  outside : Call
  waiting : (header payload : List ℕ) → Call
  holding : (header payload : List ℕ) → Call
  halfway : (payload : List ℕ) → Call
  leaving : (payload : List ℕ) (result : Result (Unit {0})) → Call

-- A call that is over: its thread, its payload and how it ended.
pub record Entry : Type 0 where
  pub thread : ℕ
  pub payload : List ℕ
  pub result : Result (Unit {0})

-- `log` has the calls that are over, the last one first.
pub record Writers : Type 0 where
  pub sock : Sock
  pub locked : Bool
  pub calls : ℕ → Call
  pub log : List Entry

abbrev pub with_call : (ℕ → Call) → ℕ → Call → ℕ → Call
with_call calls t c j = if t == j then c else calls j

abbrev pub opening : Sock → Writers
opening w = record { sock = w; locked = false; calls = λ _. outside; log = [] }

-- The part of `write_frame` before the lock.
unfoldable pub header_of : ℕ → List ℕ → Result (List ℕ)
header_of max payload =
    if ltb max (length payload)
    then err (frame_too_long (length payload) max)
    else pack_header (length payload)

abbrev pub after_header : List ℕ → Result (Unit {0}) → Call
after_header payload (ok _) = halfway payload
after_header payload (err e) = leaving payload (err e)

module _ (max : ℕ) where
  pub data Step : Writers → Writers → Type 0 where
    enter :
        (s : Writers) (t : ℕ) (payload header : List ℕ)
        → s.calls t ≡ outside
        → header_of max payload ≡ ok header
        → Step s (record s { calls = with_call s.calls t (waiting header payload) })
    refuse :
        (s : Writers) (t : ℕ) (payload : List ℕ) (e : Error)
        → s.calls t ≡ outside
        → header_of max payload ≡ err e
        → Step s
            (record s { log = record { thread = t; payload = payload; result = err e } ∷ s.log })
    acquire :
        (s : Writers) (t : ℕ) (header payload : List ℕ)
        → s.calls t ≡ waiting header payload
        → s.locked ≡ false
        → Step s (record s { locked = true; calls = with_call s.calls t (holding header payload) })
    send_header :
        (s : Writers) (t : ℕ) (header payload : List ℕ)
        → s.calls t ≡ holding header payload
        → Step s (
            let (r, sock) = sendall header s.sock in
            record s { sock = sock; calls = with_call s.calls t (after_header payload r) })
    send_payload :
        (s : Writers) (t : ℕ) (payload : List ℕ)
        → s.calls t ≡ halfway payload
        → Step s (
            let (r, sock) = sendall payload s.sock in
            record s { sock = sock; calls = with_call s.calls t (leaving payload r) })
    release :
        (s : Writers) (t : ℕ) (payload : List ℕ) (r : Result (Unit {0}))
        → s.calls t ≡ leaving payload r
        → Step s (record s {
          locked = false;
          calls = with_call s.calls t outside;
          log = record { thread = t; payload = payload; result = r } ∷ s.log;
        })

  pub data Reach : Writers → Writers → Type 0 where
    done : {s : Writers} → Reach s s
    step : {s t u : Writers} → Reach s t → Step t u → Reach s u

  -- The calls of a log, made one at a time from `w`, end as they did and lead to `s`.
  pub data Replay (w : Sock) : List Entry → Sock → Type 0 where
    start : Replay w [] w
    next :
        {l : List Entry} {s s' : Sock} (e : Entry)
        → Replay w l s
        → write_frame max e.payload s ≡ (e.result, s')
        → Replay w (e ∷ l) s'
