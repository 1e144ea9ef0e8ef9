-- ===== src/Protocol/Tests.antt =====
-- protocol.py on concrete frames.
use rpc_freethread.Prelude.{ℕ, ◌≡◌, refl, inl, some, List, [], ◌∷◌, ◌++◌, arith}
use rpc_freethread.Errors.{Error, ok, err}
use rpc_freethread.Protocol.Socket.{Sock, chunk, received, ending, sendall}
use rpc_freethread.Protocol.Header.{pack_header}
use rpc_freethread.Protocol.{write_frame, read_frame}
use rpc_freethread.Protocol.RoundTrip.{
  write_frames, ReadsFrames, Delivered, sent_since, frames_in_order, read_frame-write_frame,
}
use rpc_freethread.Protocol.Bounds.{frame_at, read_frame_lem, write_frame_refuses}

abbrev idle : Sock
idle = record { incoming = []; outgoing = []; faults = [] }

abbrev body : List ℕ
body = 7 ∷ 8 ∷ []

-- A socket that has sent two frames.
abbrev two_sent : Sock
two_sent = record {
  incoming = [];
  outgoing = 0 ∷ 0 ∷ 0 ∷ 2 ∷ 7 ∷ 8 ∷ 0 ∷ 0 ∷ 0 ∷ 1 ∷ 9 ∷ [];
  faults = [];
}

abbrev one_sent : Sock
one_sent = record { incoming = []; outgoing = 0 ∷ 0 ∷ 0 ∷ 2 ∷ 7 ∷ 8 ∷ []; faults = [] }

-- The same bytes on the way, cut in the middle of headers, and one byte more.
abbrev arriving : Sock
arriving = record {
  incoming = chunk 0 (0 ∷ 0 ∷ []) ∷ chunk 2 (7 ∷ []) ∷ chunk 8 (0 ∷ 0 ∷ 0 ∷ 1 ∷ 9 ∷ 5 ∷ []) ∷ [];
  outgoing = [];
  faults = [];
}

two_frames : write_frames 16 ((7 ∷ 8 ∷ []) ∷ (9 ∷ []) ∷ []) idle ≡ (ok tt, two_sent)
unfolding write_frames write_frame pack_header sendall
two_frames = refl

one_frame : write_frame 16 (7 ∷ 8 ∷ []) idle ≡ (ok tt, one_sent)
unfolding write_frame pack_header sendall
one_frame = refl

all_arrives : received arriving.incoming ≡ sent_since idle two_sent ++ (5 ∷ [])
unfolding received
all_arrives = refl

first_arrives :
    received arriving.incoming ≡ sent_since idle one_sent ++ (0 ∷ 0 ∷ 0 ∷ 1 ∷ 9 ∷ 5 ∷ [])
unfolding received
first_arrives = refl

frames_in_order_example :
    (r' : Sock) × ReadsFrames 16 ((7 ∷ 8 ∷ []) ∷ (9 ∷ []) ∷ []) arriving r'
    × (received r'.incoming ≡ 5 ∷ [])
frames_in_order_example =
    frames_in_order 16 16 ((7 ∷ 8 ∷ []) ∷ (9 ∷ []) ∷ []) idle two_sent arriving (5 ∷ []) two_frames
      (omega arith) all_arrives

read_frame-write_frame_example :
    (r' : Sock) × Delivered 16 (7 ∷ 8 ∷ []) (0 ∷ 0 ∷ 0 ∷ 1 ∷ 9 ∷ 5 ∷ []) arriving r'
read_frame-write_frame_example =
    read_frame-write_frame 16 16 (7 ∷ 8 ∷ []) (0 ∷ 0 ∷ 0 ∷ 1 ∷ 9 ∷ 5 ∷ []) idle one_sent arriving
      one_frame (omega arith) first_arrives

write_frame_refuses_example : (e : Error) × (write_frame 1 (7 ∷ 8 ∷ []) idle ≡ (err e, idle))
write_frame_refuses_example = write_frame_refuses 1 (7 ∷ 8 ∷ []) idle (inl (omega arith))

read_frame_lem_example :
    (s' : Sock) × (read_frame 1 arriving
      ≡ some (frame_at 1 (received arriving.incoming) (ending arriving.incoming), s'))
    × (s'.outgoing ≡ [])
read_frame_lem_example = read_frame_lem 1 arriving
