-- ===== src/Protocol/Receive.antt =====
-- What `_read_exact` returns, told by the bytes that arrive and not by how they are cut into runs.
use mathlib.Core.List.{append_assoc, append-nil, flatten}
use rpc_freethread.Prelude.{
  ℕ, zero, suc, ◌-◌, ◌≤◌, ◌<◌, ◌≡◌, refl, ap, ◌∙◌, sym, Option, none, some, List, [], ◌∷◌, ◌++◌,
  arith, length, take, drop, take-append-drop, length-take, length-append,
}
use rpc_freethread.Errors.{Error, ok, err}
use rpc_freethread.Protocol.Socket.{Arrival, chunk, fails, Sock, recv, received, ending, push_back}
use rpc_freethread.Protocol.{read_loop, read_exact, closed_while_reading}

-- What a receive leaves alone.
pub record Same (s s' : Sock) : Type 0 where
  pub end_same : ending s'.incoming ≡ ending s.incoming
  pub sent_same : s'.outgoing ≡ s.outgoing
  pub faults_same : s'.faults ≡ s.faults

Same-trans : {s t u : Sock} → Same s t → Same t u → Same s u
Same-trans a b = record {
  end_same = b.end_same ∙ a.end_same;
  sent_same = b.sent_same ∙ a.sent_same;
  faults_same = b.faults_same ∙ a.faults_same;
}

data RecvCase (r : ℕ) (s : Sock) : Type 0 where
  bytes :
      (b : ℕ) (bs : List ℕ) (s' : Sock)
      → recv (suc r) s ≡ (ok (b ∷ bs), s')
      → received s.incoming ≡ b ∷ (bs ++ received s'.incoming)
      → length bs ≤ r
      → Same s s'
      → RecvCase r s
  closed :
      recv (suc r) s ≡ (ok [], s)
      → received s.incoming ≡ []
      → ending s.incoming ≡ none
      → RecvCase r s
  failed :
      (e : Error) (s' : Sock)
      → recv (suc r) s ≡ (err e, s')
      → received s.incoming ≡ []
      → ending s.incoming ≡ some e
      → s'.outgoing ≡ s.outgoing
      → RecvCase r s

received-push_back : (bs : List ℕ) (l : List Arrival) → received (push_back bs l) ≡ bs ++ received l
unfolding received
received-push_back [] l = refl
received-push_back (b ∷ bs) l = refl

ending-push_back : (bs : List ℕ) (l : List Arrival) → ending (push_back bs l) ≡ ending l
unfolding ending
ending-push_back [] l = refl
ending-push_back (b ∷ bs) l = refl

recv_cases_at :
    (r : ℕ) (l : List Arrival) (s : Sock) → s.incoming ≡ l → RecvCase r (record s { incoming = l })
unfolding recv received ending
recv_cases_at r [] s h = RecvCase.closed refl refl refl
recv_cases_at r (chunk b bs ∷ rest) s h =
    RecvCase.bytes b (take r bs) (record s { incoming = push_back (drop r bs) rest }) refl
      (ap (◌∷◌ b) (
        ap (λ t. t ++ received rest) (sym (take-append-drop r bs))
        ∙ append_assoc (take r bs) (drop r bs) (received rest)
        ∙ ap (◌++◌ (take r bs)) (sym (received-push_back (drop r bs) rest))))
      (omega (arith, length-take r bs))
      (record {
        end_same = ending-push_back (drop r bs) rest;
        sent_same = refl;
        faults_same = refl;
      })
recv_cases_at r (fails e ∷ rest) s h =
    RecvCase.failed e (record s { incoming = rest }) refl refl refl refl

recv_cases : (r : ℕ) (s : Sock) → RecvCase r s
recv_cases r s = recv_cases_at r s.incoming s refl

-- The error of a read of `size` bytes that the stream cannot serve.
abbrev pub interrupted : ℕ → Option Error → Error
interrupted size none = closed_while_reading size
interrupted size (some e) = e

module _ {ℓ} {A : Type ℓ} where
  drop-append_of_le :
      (bs ys : List A) (n : ℕ) → length bs ≤ n → drop n (bs ++ ys) ≡ drop (n - length bs) ys
  drop-append_of_le [] ys n h = let e : n - 0 ≡ n = omega arith in rw e
  drop-append_of_le (b ∷ bs) ys zero h = elim h [ ]
  drop-append_of_le (b ∷ bs) ys (suc n) h =
      let e : suc n - suc (length bs) ≡ n - length bs = omega arith in
      rw e (drop-append_of_le bs ys n (omega arith))

  take-append_of_le :
      (bs ys : List A) (n : ℕ) → length bs ≤ n → take n (bs ++ ys) ≡ bs ++ take (n - length bs) ys
  take-append_of_le [] ys n h = let e : n - 0 ≡ n = omega arith in rw e
  take-append_of_le (b ∷ bs) ys zero h = elim h [ ]
  take-append_of_le (b ∷ bs) ys (suc n) h =
      let e : suc n - suc (length bs) ≡ n - length bs = omega arith in
      rw e (ap (◌∷◌ b) (take-append_of_le bs ys n (omega arith)))

  pub flatten-snoc :
      (xss : List (List A)) (xs : List A) → flatten (xss ++ (xs ∷ [])) ≡ flatten xss ++ xs
  unfolding flatten
  flatten-snoc [] xs = append-nil xs
  flatten-snoc (ys ∷ xss) xs =
      ap (◌++◌ ys) (flatten-snoc xss xs) ∙ sym (append_assoc ys (flatten xss) xs)

-- `n` bytes were read from `s`, which leaves `s'`.
pub record Reads (n : ℕ) (s s' : Sock) : Type 0 where
  pub rest_read : received s'.incoming ≡ drop n (received s.incoming)
  pub same : Same s s'

-- A round that receives something goes on with what remains.
read_loop_step :
    (fuel size r : ℕ) (chunks : List (List ℕ)) (s t : Sock) (b : ℕ) (bs : List ℕ)
    → recv (suc r) s ≡ (ok (b ∷ bs), t)
    → read_loop (suc fuel) size (suc r) chunks s
      ≡ read_loop fuel size (suc r - length (b ∷ bs)) (chunks ++ ((b ∷ bs) ∷ [])) t
unfolding read_loop
read_loop_step fuel size r chunks s t b bs e = ground arith

-- With fuel above what remains, and as many bytes on the way, the loop collects exactly those.
read_loop_enough :
    (fuel size remaining : ℕ) (chunks : List (List ℕ)) (s : Sock)
    → remaining < fuel
    → remaining ≤ length (received s.incoming)
    → (s' : Sock) × (read_loop fuel size remaining chunks s
        ≡ some (ok (flatten chunks ++ take remaining (received s.incoming)), s'))
      × Reads remaining s s'
unfolding read_loop
read_loop_enough zero size remaining chunks s h k = elim h [ ]
read_loop_enough (suc fuel) size zero chunks s h k = (
  s,
  rw append-nil,
  record {
    rest_read = refl;
    same = record { end_same = refl; sent_same = refl; faults_same = refl };
  },
)
read_loop_enough (suc fuel) size (suc r) chunks s h k = elim (recv_cases r s) [
  | RecvCase.closed e none_left fin ↦ absurd (omega (arith, ap length none_left))
  | RecvCase.failed x s' e none_left fin out ↦ absurd (omega (arith, ap length none_left))
  | RecvCase.bytes b bs t e split fits same ↦
      let n = suc r - length (b ∷ bs) in
      let more = ap length split in
      let sizes = length-append (b ∷ bs) (received t.incoming) in
      let (u, run, reads) =
        read_loop_enough fuel size n (chunks ++ ((b ∷ bs) ∷ [])) t (omega arith) (omega arith) in
      (
        u,
        read_loop_step fuel size r chunks s t b bs e
            ∙ run
            ∙ ap (λ l. some (ok l, u))
                (ap (λ l. l ++ take n (received t.incoming)) (flatten-snoc chunks (b ∷ bs))
                  ∙ append_assoc (flatten chunks) (b ∷ bs) (take n (received t.incoming))
                  ∙ ap (◌++◌ (flatten chunks)) (
                      sym (take-append_of_le (b ∷ bs) (received t.incoming) (suc r) (omega arith))
                      ∙ ap (take (suc r)) (sym split))),
        record {
          rest_read =
              reads.rest_read
              ∙ sym (drop-append_of_le (b ∷ bs) (received t.incoming) (suc r) (omega arith))
              ∙ ap (drop (suc r)) (sym split);
          same = Same-trans same reads.same;
        },
      )
]

-- With fuel above what remains and too few bytes on the way, the loop raises.
read_loop_short :
    (fuel size remaining : ℕ) (chunks : List (List ℕ)) (s : Sock)
    → remaining < fuel
    → length (received s.incoming) < remaining
    → (s' : Sock) × (read_loop fuel size remaining chunks s
        ≡ some (err (interrupted size (ending s.incoming)), s'))
      × (s'.outgoing ≡ s.outgoing)
unfolding read_loop
read_loop_short zero size remaining chunks s h k = elim h [ ]
read_loop_short (suc fuel) size zero chunks s h k = elim k [ ]
read_loop_short (suc fuel) size (suc r) chunks s h k = elim (recv_cases r s) [
  | RecvCase.closed e none_left fin ↦ (s, ground arith, refl)
  | RecvCase.failed x t e none_left fin out ↦ (t, ground arith, out)
  | RecvCase.bytes b bs t e split fits same ↦
      let more = ap length split in
      let sizes = length-append (b ∷ bs) (received t.incoming) in
      let (u, run, out) =
        read_loop_short fuel size (suc r - length (b ∷ bs)) (chunks ++ ((b ∷ bs) ∷ [])) t
          (omega arith) (omega arith) in
      (
        u,
        read_loop_step fuel size r chunks s t b bs e
            ∙ run
            ∙ ap (λ z. some (err (interrupted size z), u)) same.end_same,
        out ∙ same.sent_same,
      )
]

-- When `size` bytes are on the way, `_read_exact` returns exactly the next `size` of them and takes
-- no more from the stream, however they are cut into runs.
pub read_exact_enough :
    (size : ℕ) (s : Sock)
    → size ≤ length (received s.incoming)
    → (s' : Sock) × (read_exact size s ≡ some (ok (take size (received s.incoming)), s'))
      × Reads size s s'
unfolding read_exact flatten
read_exact_enough size s h = read_loop_enough (suc size) size size [] s (omega arith) h

-- When the stream ends or fails before `size` bytes, `_read_exact` raises that failure, or the
-- error of a closed connection.
pub read_exact_short :
    (size : ℕ) (s : Sock)
    → length (received s.incoming) < size
    → (s' : Sock) × (read_exact size s ≡ some (err (interrupted size (ending s.incoming)), s'))
      × (s'.outgoing ≡ s.outgoing)
unfolding read_exact
read_exact_short size s h = read_loop_short (suc size) size size [] s (omega arith) h
