-- ===== src/Protocol/Bounds.antt =====
-- What `read_frame` and `write_frame` do on every input: results, errors and limits.
use native.Mathlib.Decide.{dec_lt}
use rpc_freethread.Prelude.{
  ℕ, ◌+◌, ◌^◌, ◌≤◌, ◌<◌, ◌≡◌, refl, ap, ◌∙◌, inl, inr, ◌⊎◌, Option, some, List, arith, length, take,
  drop, ltb, Bool-cases, length-take, length-drop, if◌then◌else◌,
}
use rpc_freethread.Errors.{Error, Result, ok, err, struct_error}
use rpc_freethread.Protocol.Socket.{Sock, received, ending}
use rpc_freethread.Protocol.Header.{unpack_header, pack_header_large}
use rpc_freethread.Protocol.Receive.{read_exact_enough, read_exact_short, interrupted}
use rpc_freethread.Protocol.{frame_too_long, write_frame, read_exact, read_body, read_frame}

-- What a reader with the limit `max` makes of a stream: the bytes on the way, and its end.
abbrev pub frame_at : ℕ → List ℕ → Option Error → Result (List ℕ)
frame_at max bytes end =
    let n = unpack_header (take 4 bytes) in
    if ltb (length bytes) 4
    then err (interrupted 4 end)
    else if ltb max n
    then err (frame_too_long n max)
    else if ltb (length bytes) (4 + n)
    then err (interrupted n end)
    else ok (take n (drop 4 bytes))

read_body_lem :
    (max n : ℕ) (s : Sock)
    → (s' : Sock) × (read_body max n s
        ≡ some (
          if ltb max n
              then err (frame_too_long n max)
              else if ltb (length (received s.incoming)) n
              then err (interrupted n (ending s.incoming))
              else ok (take n (received s.incoming)),
          s',
        ))
      × (s'.outgoing ≡ s.outgoing)
unfolding read_body
read_body_lem max n s = elim (Bool-cases (ltb max n)) [
  | inl long ↦ (s, ground arith, refl)
  | inr short ↦ elim (dec_lt (length (received s.incoming)) n) [
    | yes few ↦ let (t, e, out) = read_exact_short n s few in (t, ground arith, out)
    | no many ↦
        let (t, e, r) = read_exact_enough n s (omega arith) in (t, ground arith, r.same.sent_same)
  ]
]

read_frame_body :
    (max : ℕ) (h : List ℕ) (s t : Sock)
    → read_exact 4 s ≡ some (ok h, t)
    → read_frame max s ≡ read_body max (unpack_header h) t
unfolding read_frame
read_frame_body max h s t e = ground arith

-- `read_frame` always ends. It raises when the stream ends or fails within the header or within
-- the payload, raises without reading the payload when the announced length exceeds the limit, and
-- returns the announced number of bytes otherwise. It sends nothing.
pub read_frame_lem :
    (max : ℕ) (s : Sock)
    → (s' : Sock) × (read_frame max s
        ≡ some (frame_at max (received s.incoming) (ending s.incoming), s'))
      × (s'.outgoing ≡ s.outgoing)
read_frame_lem max s = elim (dec_lt (length (received s.incoming)) 4) [
  | yes few ↦
      let (t, e, out) = read_exact_short 4 s few in (t, unfold read_frame in ground arith, out)
  | no many ↦
      let (t, e, r) = read_exact_enough 4 s (omega arith) in
      let n = unpack_header (take 4 (received s.incoming)) in
      let (u, run, out) = read_body_lem max n t in
      (
        u,
        read_frame_body max (take 4 (received s.incoming)) s t e
            ∙ run
            ∙ ground (arith, r.rest_read, r.same.end_same, length-drop 4 (received s.incoming)),
        out ∙ r.same.sent_same,
      )
]

-- A payload that `read_frame` returns is no longer than its limit.
pub read_frame-length-le :
    (max : ℕ) (s s' : Sock) (payload : List ℕ)
    → read_frame max s ≡ some (ok payload, s')
    → length payload ≤ max
read_frame-length-le max s s' payload e =
    let (t, run, _) = read_frame_lem max s in
    let n = unpack_header (take 4 (received s.incoming)) in
    ground (arith, run, length-take n (drop 4 (received s.incoming)))

-- A payload above the limit of the writer, or too long for the four bytes of the header, is refused
-- before anything is sent, and the socket stays as it was.
pub write_frame_refuses :
    (max : ℕ) (payload : List ℕ) (s : Sock)
    → (max < length payload) ⊎ (2 ^ 32 ≤ length payload)
    → (e : Error) × (write_frame max payload s ≡ (err e, s))
unfolding write_frame
write_frame_refuses max payload s h = elim (Bool-cases (ltb max (length payload))) [
  | inl long ↦ (frame_too_long (length payload) max, ground arith)
  | inr short ↦ (
    struct_error "'I' format requires 0 <= number <= 4294967295",
    ground (arith, pack_header_large (length payload)),
  )
]

read_exact_shrinks :
    (n : ℕ) (s s' : Sock) (p : List ℕ)
    → read_exact n s ≡ some (ok p, s')
    → length (received s'.incoming) + n ≡ length (received s.incoming)
read_exact_shrinks n s s' p e = elim (dec_lt (length (received s.incoming)) n) [
  | yes few ↦ let (t, run, out) = read_exact_short n s few in ground (arith, run)
  | no many ↦
      let (t, run, r) = read_exact_enough n s (omega arith) in
      let same : s' ≡ t = ground (arith, run) in
      rw same (omega (arith, ap length r.rest_read, length-drop n (received s.incoming)))
]

read_body_ok :
    (max n : ℕ) (s s' : Sock) (p : List ℕ)
    → read_body max n s ≡ some (ok p, s')
    → read_exact n s ≡ some (ok p, s')
unfolding read_body
read_body_ok max n s s' p e = ground arith

read_frame_header :
    (max : ℕ) (s s' : Sock) (p : List ℕ)
    → read_frame max s ≡ some (ok p, s')
    → (h : List ℕ) × (t : Sock) × (read_exact 4 s ≡ some (ok h, t))
      × (read_body max (unpack_header h) t ≡ some (ok p, s'))
unfolding read_frame
read_frame_header max s s' p e = elim (dec_lt (length (received s.incoming)) 4) [
  | yes few ↦ let (t, run, out) = read_exact_short 4 s few in ground (arith, run)
  | no many ↦
      let (t, run, r) = read_exact_enough 4 s (omega arith) in
      (take 4 (received s.incoming), t, run, ground (arith, run))
]

-- A frame that was read takes its header at least from the stream.
pub read_frame_shrinks :
    (max : ℕ) (s s' : Sock) (p : List ℕ)
    → read_frame max s ≡ some (ok p, s')
    → length (received s'.incoming) + 4 ≤ length (received s.incoming)
read_frame_shrinks max s s' p e =
    let (h, t, e1, e2) = read_frame_header max s s' p e in
    omega (
      arith,
      read_exact_shrinks 4 s t h e1,
      read_exact_shrinks (unpack_header h) t s' p (read_body_ok max (unpack_header h) t s' p e2),
    )
