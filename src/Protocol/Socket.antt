-- ===== src/Protocol/Socket.antt =====
-- The socket calls that protocol.py makes: `recv` and `sendall` of a blocking stream socket.
use rpc_freethread.Prelude.{
  ℕ, ◌≡◌, refl, Option, none, some, List, [], ◌∷◌, ◌++◌, arith, take, drop,
}
use rpc_freethread.Errors.{Error, Result, ok, err}
use rpc_freethread.Exec.{Exec}

-- What the peer and the network do: a run of bytes arrives (one at least), or a call fails.
pub data Arrival : Type 0 where
  chunk : (first : ℕ) (rest : List ℕ) → Arrival
  fails : Error → Arrival

-- `incoming` is what the calls of `recv` will meet, after which the peer has closed. `faults` is
-- how the next calls of `sendall` end: all bytes leave, or only some and then it raises.
pub record Sock : Type 0 where
  pub incoming : List Arrival
  pub outgoing : List ℕ
  pub faults : List (Option (ℕ × Error))

abbrev pub push_back : List ℕ → List Arrival → List Arrival
push_back [] rest = rest
push_back (b ∷ bs) rest = chunk b bs ∷ rest

recv_from : ℕ → List Arrival → Sock → Result (List ℕ) × Sock
recv_from n [] s = (ok [], s)
recv_from n (chunk b bs ∷ rest) s =
    (ok (take n (b ∷ bs)), record s { incoming = push_back (drop n (b ∷ bs)) rest })
recv_from n (fails e ∷ rest) s = (err e, record s { incoming = rest })

-- `sock.recv(n)`: up to `n` bytes of what has arrived, none at the end of the stream.
unfoldable pub recv : ℕ → Exec Sock (List ℕ)
unfolding recv_from
recv n s = recv_from n s.incoming s

send_with : List (Option (ℕ × Error)) → List ℕ → Sock → Result (Unit {0}) × Sock
send_with [] bytes s = (ok tt, record s { outgoing = s.outgoing ++ bytes })
send_with (none ∷ later) bytes s =
    (ok tt, record s { outgoing = s.outgoing ++ bytes; faults = later })
send_with (some (n, e) ∷ later) bytes s =
    (err e, record s { outgoing = s.outgoing ++ take n bytes; faults = later })

-- `sock.sendall(bytes)`
unfoldable pub sendall : List ℕ → Exec Sock (Unit {0})
unfolding send_with
sendall bytes s = send_with s.faults bytes s

-- The bytes that arrive before the first failure, and how the stream ends after them.
unfoldable pub received : List Arrival → List ℕ
received [] = []
received (chunk b bs ∷ rest) = b ∷ (bs ++ received rest)
received (fails e ∷ rest) = []

unfoldable pub ending : List Arrival → Option Error
ending [] = none
ending (chunk b bs ∷ rest) = ending rest
ending (fails e ∷ rest) = some e

send_with_ok :
    (l : List (Option (ℕ × Error))) (bytes : List ℕ) (s : Sock) {s' : Sock}
    → send_with l bytes s ≡ (ok tt, s')
    → (s'.outgoing ≡ s.outgoing ++ bytes) × (s'.incoming ≡ s.incoming)
unfolding send_with
send_with_ok [] bytes s h = ground arith
send_with_ok (none ∷ l) bytes s h = ground arith
send_with_ok (some (n, x) ∷ l) bytes s h = ground arith

pub sendall_ok :
    (bytes : List ℕ) (s : Sock) {s' : Sock}
    → sendall bytes s ≡ (ok tt, s')
    → (s'.outgoing ≡ s.outgoing ++ bytes) × (s'.incoming ≡ s.incoming)
unfolding sendall
sendall_ok bytes s h = send_with_ok s.faults bytes s h

send_with_incoming :
    (l : List (Option (ℕ × Error))) (bytes : List ℕ) (s : Sock)
    → (send_with l bytes s).1.incoming ≡ s.incoming
unfolding send_with
send_with_incoming [] bytes s = refl
send_with_incoming (none ∷ l) bytes s = refl
send_with_incoming (some (n, x) ∷ l) bytes s = refl

-- Sending leaves what is on the way to the sender, also when it fails.
pub sendall_incoming : (bytes : List ℕ) (s : Sock) → (sendall bytes s).1.incoming ≡ s.incoming
unfolding sendall
sendall_incoming bytes s = send_with_incoming s.faults bytes s
