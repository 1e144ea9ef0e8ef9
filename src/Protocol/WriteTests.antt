-- ===== src/Protocol/WriteTests.antt =====
-- Two threads that write to one socket.
use rpc_freethread.Prelude.{ℕ, ◌≡◌, refl, true, false, [], ◌∷◌, ◌⊎◌, ◌==◌}
use rpc_freethread.Errors.{ok}
use rpc_freethread.Protocol.Socket.{Sock, sendall}
use rpc_freethread.Protocol.Header.{pack_header}
use rpc_freethread.Protocol.Writers.{
  Writers, outside, waiting, holding, halfway, leaving, with_call, opening, header_of, Reach, done,
  step, enter, acquire, send_header, send_payload, release, Replay,
}
use rpc_freethread.Protocol.Orderly.{has_lock, InCall}
use rpc_freethread.Protocol.Atomic.{writes_are_atomic}

abbrev quiet : Sock
quiet = record { incoming = []; outgoing = []; faults = [] }

abbrev w0 : Writers
w0 = opening quiet

abbrev w1 : Writers
w1 = record w0 { calls = with_call w0.calls 0 (waiting (0 ∷ 0 ∷ 0 ∷ 1 ∷ []) (7 ∷ [])) }

abbrev w2 : Writers
w2 = record w1 { calls = with_call w1.calls 1 (waiting (0 ∷ 0 ∷ 0 ∷ 1 ∷ []) (8 ∷ [])) }

abbrev w3 : Writers
w3 = record w2 {
  locked = true;
  calls = with_call w2.calls 1 (holding (0 ∷ 0 ∷ 0 ∷ 1 ∷ []) (8 ∷ []));
}

abbrev w4 : Writers
w4 = record w3 {
  sock = record quiet { outgoing = 0 ∷ 0 ∷ 0 ∷ 1 ∷ [] };
  calls = with_call w3.calls 1 (halfway (8 ∷ []));
}

abbrev w5 : Writers
w5 = record w4 {
  sock = record quiet { outgoing = 0 ∷ 0 ∷ 0 ∷ 1 ∷ 8 ∷ [] };
  calls = with_call w4.calls 1 (leaving (8 ∷ []) (ok tt));
}

abbrev w6 : Writers
w6 = record w5 {
  locked = false;
  calls = with_call w5.calls 1 outside;
  log = record { thread = 1; payload = 8 ∷ []; result = ok tt } ∷ [];
}

-- Thread 0 waits while thread 1 writes its frame.
turn : Reach 16 w0 w6
unfolding header_of pack_header sendall
turn =
    step
      (step
        (step
          (step
            (step (step done (enter w0 0 (7 ∷ []) (0 ∷ 0 ∷ 0 ∷ 1 ∷ []) refl refl))
              (enter w1 1 (8 ∷ []) (0 ∷ 0 ∷ 0 ∷ 1 ∷ []) refl refl))
            (acquire w2 1 (0 ∷ 0 ∷ 0 ∷ 1 ∷ []) (8 ∷ []) refl refl))
          (send_header w3 1 (0 ∷ 0 ∷ 0 ∷ 1 ∷ []) (8 ∷ []) refl))
        (send_payload w4 1 (8 ∷ []) refl))
      (release w5 1 (8 ∷ []) (ok tt) refl)

-- Then it waits no longer, and half of its frame is out.
abbrev w7 : Writers
w7 = record w6 {
  locked = true;
  calls = with_call w6.calls 0 (holding (0 ∷ 0 ∷ 0 ∷ 1 ∷ []) (7 ∷ []));
}

abbrev w8 : Writers
w8 = record w7 {
  sock = record quiet { outgoing = 0 ∷ 0 ∷ 0 ∷ 1 ∷ 8 ∷ 0 ∷ 0 ∷ 0 ∷ 1 ∷ [] };
  calls = with_call w7.calls 0 (halfway (7 ∷ []));
}

half : Reach 16 w0 w8
unfolding sendall
half =
    step (step turn (acquire w6 0 (0 ∷ 0 ∷ 0 ∷ 1 ∷ []) (7 ∷ []) refl refl))
      (send_header w7 0 (0 ∷ 0 ∷ 0 ∷ 1 ∷ []) (7 ∷ []) refl)

writes_are_atomic_example :
    (base : Sock) × Replay 16 quiet w8.log base
    × (((w8.locked ≡ false) × (w8.sock ≡ base) × ((j : ℕ) → has_lock (w8.calls j) ≡ false))
        ⊎ ((t : ℕ) × (w8.locked ≡ true)
            × InCall 16 base w8.sock (w8.calls t)
            × ((j : ℕ) → has_lock (w8.calls j) ≡ (j == t))))
writes_are_atomic_example = writes_are_atomic 16 quiet w8 half
