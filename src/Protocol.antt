-- ===== src/Protocol.antt =====
-- protocol.py: length-prefixed frames over a socket. A byte string is a list of numbers.
pub mod Socket
pub mod Header
pub mod Receive
pub mod RoundTrip
pub mod Bounds
pub mod Writers
pub mod Orderly
pub mod Atomic
mod Tests
mod WriteTests
use Socket.{Sock, recv, sendall}
use Header.{pack_header, unpack_header, decimal}
use mathlib.Core.List.{flatten}
use rpc_freethread.Prelude.{
  ℕ, zero, suc, ◌-◌, ◌*◌, ◌<>◌, Option, none, some, List, [], ◌∷◌, ◌++◌, length, ltb, true, false,
}
use rpc_freethread.Errors.{Result, ok, err, protocol_error, connection_closed_error, Error}
use rpc_freethread.Exec.{Exec, lift, raise_if, ◌>>=◌, ◌>>◌}

abbrev pub header_size : ℕ
header_size = 4

abbrev pub default_max_frame_size : ℕ
default_max_frame_size = 64 * 1024 * 1024

abbrev pub frame_too_long : ℕ → ℕ → Error
frame_too_long n max =
    protocol_error ("frame length " <> (decimal n <> (" exceeds maximum " <> decimal max)))

abbrev pub closed_while_reading : ℕ → Error
closed_while_reading size =
    connection_closed_error ("connection closed while reading " <> (decimal size <> " bytes"))

-- `write_frame`. The write lock makes the two sends one step for other writers of the socket.
unfoldable pub write_frame : ℕ → List ℕ → Exec Sock (Unit {0})
write_frame max payload = do
  raise_if (ltb max (length payload)) (frame_too_long (length payload) max)
  header ← lift (pack_header (length payload))
  sendall header
  sendall payload

-- The loop of `_read_exact`, with fuel; `none` means that the fuel ran out.
pub read_loop : (fuel size remaining : ℕ) → List (List ℕ) → Sock → Option (Result (List ℕ) × Sock)
read_loop zero size remaining chunks s = none
read_loop (suc fuel) size zero chunks s = some (ok (flatten chunks), s)
read_loop (suc fuel) size (suc r) chunks s =
    let (got, s') = recv (suc r) s in
    elim got [
      | err e ↦ some (err e, s')
      | ok [] ↦ some (err (closed_while_reading size), s')
      | ok (b ∷ bs) ↦ read_loop fuel size (suc r - length (b ∷ bs)) (chunks ++ ((b ∷ bs) ∷ [])) s'
    ]

-- `_read_exact`. A round takes a byte at least, so `size + 1` rounds are enough.
unfoldable pub read_exact : ℕ → Sock → Option (Result (List ℕ) × Sock)
unfolding read_loop
read_exact size s = read_loop (suc size) size size [] s

-- `read_frame`, after its header has been read
read_body : ℕ → ℕ → Sock → Option (Result (List ℕ) × Sock)
read_body max n s = elim (ltb max n) [
  | true ↦ some (err (frame_too_long n max), s)
  | false ↦ read_exact n s
]

unfoldable pub read_frame : ℕ → Sock → Option (Result (List ℕ) × Sock)
unfolding read_body
read_frame max s = elim (read_exact header_size s) [
  | none ↦ none
  | some (err e, s') ↦ some (err e, s')
  | some (ok header, s') ↦ read_body max (unpack_header header) s'
]

-- `read_frame` as a call that returns or raises; running out of fuel would be an error of its own.
unfoldable pub receive_frame : ℕ → Exec Sock (List ℕ)
receive_frame max s = elim (read_frame max s) [
  | none ↦ (err (Error.other "OutOfFuel" ""), s)
  | some r ↦ r
]
