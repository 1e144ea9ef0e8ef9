-- ===== src/Protocol/RoundTrip.antt =====
-- Frames that were written are read back whole and in order.
use mathlib.Core.List.{append_assoc, append-nil}
use native.Mathlib.Decide.{dec_lt}
use rpc_freethread.Prelude.{
  ℕ, ◌^◌, ◌≤◌, ◌<◌, ◌≡◌, refl, ap, ◌∙◌, sym, inl, inr, some, List, [], ◌∷◌, ◌++◌, arith, length,
  take, drop, ltb, Bool-cases, take-append, drop-append, length-append,
}
use rpc_freethread.Errors.{ok}
use rpc_freethread.Exec.{Exec, pure, ◌>>◌, >>=-eq-ok}
use rpc_freethread.Protocol.Socket.{Sock, sendall, sendall_ok, received, ending}
use rpc_freethread.Protocol.Header.{pack_header, unpack_header, unpack_pack, pack_header_large}
use rpc_freethread.Protocol.Receive.{read_exact_enough}
use rpc_freethread.Protocol.{write_frame, read_exact, read_frame}

-- A frame that was written is its header and its payload, within both limits.
record Written (max : ℕ) (payload : List ℕ) (s s' : Sock) : Type 0 where
  header : List ℕ
  packed : pack_header (length payload) ≡ ok header
  sent : s'.outgoing ≡ s.outgoing ++ (header ++ payload)
  within : length payload ≤ max
  fits : length payload < 2 ^ 32

write_frame_ok :
    (max : ℕ) (payload : List ℕ) (s s' : Sock)
    → write_frame max payload s ≡ (ok tt, s')
    → Written max payload s s'
unfolding write_frame
write_frame_ok max payload s s' e = elim (Bool-cases (ltb max (length payload))) [
  | inl long ↦ ground arith
  | inr short ↦ elim (dec_lt (length payload) (2 ^ 32)) [
    | no large ↦ ground (arith, pack_header_large (length payload))
    | yes fits ↦
        let (h, packed, four, value) = unpack_pack (length payload) fits in
        let e' : (sendall h >> sendall payload) s ≡ (ok tt, s') = ground arith in
        let (_, t, e1, e2) = >>=-eq-ok (sendall h) (λ _. sendall payload) s e' in
        let (o1, _) = sendall_ok h s e1 in
        let (o2, _) = sendall_ok payload t e2 in
        record {
          header = h;
          packed = packed;
          sent = o2 ∙ ap (λ l. l ++ payload) o1 ∙ append_assoc s.outgoing h payload;
          within = ground arith;
          fits = fits;
        }
  ]
]

-- The payload was read from `s`, and `s'` has `tail` on the way, with the same end.
pub record Delivered (max : ℕ) (payload tail : List ℕ) (s s' : Sock) : Type 0 where
  pub run : read_frame max s ≡ some (ok payload, s')
  pub left : received s'.incoming ≡ tail
  pub same_end : ending s'.incoming ≡ ending s.incoming
  pub same_out : s'.outgoing ≡ s.outgoing

read_frame_steps :
    (max n : ℕ) (h p : List ℕ) (s t u : Sock)
    → read_exact 4 s ≡ some (ok h, t)
    → unpack_header h ≡ n
    → n ≤ max
    → read_exact n t ≡ some (ok p, u)
    → read_frame max s ≡ some (ok p, u)
unfolding read_frame
read_frame_steps max n h p s t u e1 v le e2 = ground arith

read_frame_whole :
    (max : ℕ) (h p tail : List ℕ) (s : Sock)
    → length h ≡ 4
    → unpack_header h ≡ length p
    → length p ≤ max
    → received s.incoming ≡ h ++ (p ++ tail)
    → (s' : Sock) × Delivered max p tail s s'
read_frame_whole max h p tail s four value le arrives =
    let sizes = length-append h (p ++ tail) in
    let more = length-append p tail in
    let (t, e1, r1) = read_exact_enough 4 s (omega (arith, ap length arrives)) in
    let rest : received t.incoming ≡ p ++ tail =
      r1.rest_read ∙ ap (drop 4) arrives ∙ rw (← four) (drop-append h (p ++ tail)) in
    let head : take 4 (received s.incoming) ≡ h =
      ap (take 4) arrives ∙ rw (← four) (take-append h (p ++ tail)) in
    let (u, e2, r2) = read_exact_enough (length p) t (omega (arith, ap length rest)) in
    (
      u,
      record {
        run =
            read_frame_steps max (length p) h p s t u (e1 ∙ ap (λ l. some (ok l, t)) head) value le
              (e2 ∙ ap (λ l. some (ok l, u)) (ap (take (length p)) rest ∙ take-append p tail));
        left = r2.rest_read ∙ ap (drop (length p)) rest ∙ drop-append p tail;
        same_end = r2.same.end_same ∙ r1.same.end_same;
        same_out = r2.same.sent_same ∙ r1.same.sent_same;
      },
    )

-- The bytes that left between two states of a socket.
abbrev pub sent_since : Sock → Sock → List ℕ
sent_since s s' = drop (length s.outgoing) s'.outgoing

-- A frame that one peer has written is read by the other as the same payload, whatever the cuts
-- into runs, and what follows it on the stream is left for the next read.
pub read_frame-write_frame :
    (max limit : ℕ) (payload tail : List ℕ) (s s' r : Sock)
    → write_frame max payload s ≡ (ok tt, s')
    → max ≤ limit
    → received r.incoming ≡ sent_since s s' ++ tail
    → (r' : Sock) × Delivered limit payload tail r r'
read_frame-write_frame max limit payload tail s s' r e le arrives =
    let w = write_frame_ok max payload s s' e in
    let (h, packed, four, value) = unpack_pack (length payload) w.fits in
    let same : h ≡ w.header = ground (arith, w.packed) in
    read_frame_whole limit h payload tail r four value (omega (arith, w.within)) (
      arrives
      ∙ ap (λ l. l ++ tail)
          (ap (drop (length s.outgoing)) w.sent ∙ drop-append s.outgoing (w.header ++ payload))
      ∙ append_assoc w.header payload tail
      ∙ ap (λ l. l ++ (payload ++ tail)) (sym same))

-- Writing frames one after another, as the callers of `write_frame` on one socket do.
unfoldable pub write_frames : ℕ → List (List ℕ) → Exec Sock (Unit {0})
write_frames max [] = pure tt
write_frames max (p ∷ ps) = do write_frame max p; write_frames max ps

-- Calls of `read_frame` return these payloads, in this order, and lead from `s` to `s'`.
abbrev pub ReadsFrames : ℕ → List (List ℕ) → Sock → Sock → Type 0
ReadsFrames max [] s s' = s ≡ s'
ReadsFrames max (p ∷ ps) s s' =
    (t : Sock) × (read_frame max s ≡ some (ok p, t)) × ReadsFrames max ps t s'

record Stream (max : ℕ) (ps : List (List ℕ)) (w w' : Sock) : Type 0 where
  bytes : List ℕ
  appended : w'.outgoing ≡ w.outgoing ++ bytes
  readable :
      (limit : ℕ) (r : Sock) (tail : List ℕ)
      → max ≤ limit
      → received r.incoming ≡ bytes ++ tail
      → (r' : Sock) × ReadsFrames limit ps r r' × (received r'.incoming ≡ tail)

write_frames-Stream :
    (max : ℕ) (ps : List (List ℕ)) (w w' : Sock)
    → write_frames max ps w ≡ (ok tt, w')
    → Stream max ps w w'
unfolding write_frames
write_frames-Stream max [] w w' e = record {
  bytes = [];
  appended = ground (arith, append-nil w.outgoing);
  readable = λ limit r tail le arrives. (r, refl, arrives);
}
write_frames-Stream max (p ∷ ps) w w' e =
    let (_, v, e1, e2) = >>=-eq-ok (write_frame max p) (λ _. write_frames max ps) w e in
    let frame = write_frame_ok max p w v e1 in
    let rest = write_frames-Stream max ps v w' e2 in
    let whole : v.outgoing ≡ w.outgoing ++ sent_since w v =
      frame.sent
      ∙ ap (◌++◌ w.outgoing) (
          sym (
            ap (drop (length w.outgoing)) frame.sent
            ∙ drop-append w.outgoing (frame.header ++ p))) in
    record {
      bytes = sent_since w v ++ rest.bytes;
      appended =
          rest.appended
          ∙ ap (λ l. l ++ rest.bytes) whole
          ∙ append_assoc w.outgoing (sent_since w v) rest.bytes;
      readable = λ limit r tail le arrives.
          let (t, d) =
            read_frame-write_frame max limit p (rest.bytes ++ tail) w v r e1 le
              (arrives ∙ append_assoc (sent_since w v) rest.bytes tail) in
          let (u, all, left) = rest.readable limit t tail le d.left in (u, (t, d.run, all), left);
    }

-- A run of frames that one peer has written is read by the other as the same payloads in the same
-- order, and nothing of what follows them is taken.
pub frames_in_order :
    (max limit : ℕ) (ps : List (List ℕ)) (w w' r : Sock) (tail : List ℕ)
    → write_frames max ps w ≡ (ok tt, w')
    → max ≤ limit
    → received r.incoming ≡ sent_since w w' ++ tail
    → (r' : Sock) × ReadsFrames limit ps r r' × (received r'.incoming ≡ tail)
frames_in_order max limit ps w w' r tail e le arrives =
    let stream = write_frames-Stream max ps w w' e in
    stream.readable limit r tail le (
      arrives
      ∙ ap (λ l. l ++ tail)
          (ap (drop (length w.outgoing)) stream.appended ∙ drop-append w.outgoing stream.bytes))
