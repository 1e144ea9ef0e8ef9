-- ===== src/Protocol/Atomic.antt =====
-- The write lock makes each call of `write_frame` one step for the other writers of the socket.
use rpc_freethread.Prelude.{
  ℕ, true, false, ◌≡◌, refl, sym, subst, List, ◌∷◌, arith, ◌==◌, ◌⊎◌, inl, inr, Bool-cases,
}
use rpc_freethread.Errors.{Error, Result, ok, err}
use rpc_freethread.Protocol.Socket.{Sock, sendall}
use rpc_freethread.Protocol.Writers.{
  outside, waiting, holding, leaving, Writers, with_call, opening, header_of, after_header, Step,
  enter, refuse, acquire, send_header, send_payload, release, Reach, done, step, Replay, start,
  next,
}
use rpc_freethread.Protocol.Orderly.{
  has_lock, IsPacked, InCall, InCall-has_lock, Busy, IsOrderly, inside, IsPacked-with_call, goes_on,
  write_frame-refuses, write_frame-header, write_frame-payload, after_header-IsPacked,
  after_header-has_lock, here,
}

module _ (max : ℕ) (w : Sock) where
  waits-IsOrderly :
      (s : Writers) (t : ℕ) (p h : List ℕ)
      → s.calls t ≡ outside
      → header_of max p ≡ ok h
      → IsOrderly max w s
      → IsOrderly max w (record s { calls = with_call s.calls t (waiting h p) })
  waits-IsOrderly s t p h o k v =
      let unmoved : (b : Busy max w s)
          → with_call s.calls t (waiting h p) b.holder ≡ s.calls b.holder =
        λ b. elim (Bool-cases (t == b.holder)) [
          | inr d ↦ ground arith
          | inl d ↦
              let out : s.calls b.holder ≡ outside = ground arith in
              absurd (subst (InCall max b.base s.sock) out b.under_way)
        ] in
      record {
        packed = IsPacked-with_call max w s t (waiting h p) v k;
        lock = elim v.lock [
          | inl (l, busy) ↦ inl (
            l,
            record {
              holder = busy.holder;
              base = busy.base;
              past = busy.past;
              under_way = subst (InCall max busy.base s.sock) (sym (unmoved busy)) busy.under_way;
              alone = λ j g. let a = busy.alone j in ground arith;
            },
          )
          | inr (l, free) ↦
              inr (
                l,
                record { past = free.past; nobody = λ j. let n = free.nobody j in ground arith },
              )
        ];
      }

  released-IsOrderly :
      (s : Writers) (t : ℕ) (p : List ℕ) (r : Result (Unit {0}))
      → s.calls t ≡ leaving p r
      → IsOrderly max w s
      → IsOrderly max w (record s {
        locked = false;
        calls = with_call s.calls t outside;
        log = record { thread = t; payload = p; result = r } ∷ s.log;
      })
  released-IsOrderly s t p r h v =
      let i = inside max w s t v (subst (λ c. has_lock c ≡ true) (sym h) refl) in
      record {
        packed = IsPacked-with_call max w s t outside v tt;
        lock = inr (
          refl,
          record {
            past = next _ i.past (subst (InCall max i.base s.sock) h i.under_way);
            nobody = λ j. elim (Bool-cases (has_lock (s.calls j))) [
              | inl k ↦ let a = i.alone j k in ground arith
              | inr k ↦ ground arith
            ];
          },
        );
      }

  acquired-IsOrderly :
      (s : Writers) (t : ℕ) (h p : List ℕ)
      → s.calls t ≡ waiting h p
      → s.locked ≡ false
      → IsOrderly max w s
      → IsOrderly max w (record s { locked = true; calls = with_call s.calls t (holding h p) })
  acquired-IsOrderly s t h p k l v = elim v.lock [
    | inl (busy, _) ↦ absurd cc
    | inr (_, free) ↦ record {
      packed = IsPacked-with_call max w s t (holding h p) v tt;
      lock = inl (
        refl,
        record {
          holder = t;
          base = s.sock;
          past = free.past;
          under_way =
              subst (InCall max s.sock s.sock) (sym (here s.calls t (holding h p)))
                (subst (IsPacked max) k (v.packed t), refl);
          alone = λ j g. let n = free.nobody j in ground arith;
        },
      );
    }
  ]

  refused-IsOrderly :
      (s : Writers) (t : ℕ) (p : List ℕ) (e : Error)
      → header_of max p ≡ err e
      → IsOrderly max w s
      → IsOrderly max w
          (record s { log = record { thread = t; payload = p; result = err e } ∷ s.log })
  refused-IsOrderly s t p e h v = record {
    packed = v.packed;
    lock = elim v.lock [
      | inl (l, busy) ↦ inl (
        l,
        record {
          holder = busy.holder;
          base = busy.base;
          past = next _ busy.past (write_frame-refuses max p e busy.base h);
          under_way = busy.under_way;
          alone = busy.alone;
        },
      )
      | inr (l, free) ↦ inr (
        l,
        record {
          past = next _ free.past (write_frame-refuses max p e s.sock h);
          nobody = free.nobody;
        },
      )
    ];
  }

  sent_header :
      (p h : List ℕ) (v : Result (Unit {0})) (s s' : Sock)
      → header_of max p ≡ ok h
      → sendall h s ≡ (v, s')
      → InCall max s s' (after_header p v)
  sent_header p h (ok _) s s' k e = (h, k, e)
  sent_header p h (err x) s s' k e = write_frame-header max p h x s s' k e

  Step-IsOrderly : (s t : Writers) → Step max s t → IsOrderly max w s → IsOrderly max w t
  Step-IsOrderly _ _ (enter s t p h o k) v = waits-IsOrderly s t p h o k v
  Step-IsOrderly _ _ (refuse s t p e o k) v = refused-IsOrderly s t p e k v
  Step-IsOrderly _ _ (acquire s t h p k l) v = acquired-IsOrderly s t h p k l v
  Step-IsOrderly _ _ (send_header s t h p k) v =
      let i = inside max w s t v (subst (λ c. has_lock c ≡ true) (sym k) refl) in
      let (packed, unsent) = subst (InCall max i.base s.sock) k i.under_way in
      let (r, sock) = sendall h s.sock in
      goes_on max w s t sock (after_header p r) v i (after_header-IsPacked max p r)
        (after_header-has_lock p r)
        (subst (λ b. InCall max b sock (after_header p r)) unsent
          (sent_header p h r s.sock sock packed refl))
  Step-IsOrderly _ _ (send_payload s t p k) v =
      let i = inside max w s t v (subst (λ c. has_lock c ≡ true) (sym k) refl) in
      let (h, packed, sent) = subst (InCall max i.base s.sock) k i.under_way in
      let (r, sock) = sendall p s.sock in
      goes_on max w s t sock (leaving p r) v i tt refl
        (write_frame-payload max p h r i.base s.sock sock packed sent refl)
  Step-IsOrderly _ _ (release s t p r k) v = released-IsOrderly s t p r k v

  opening-IsOrderly : IsOrderly max w (opening w)
  opening-IsOrderly = record {
    packed = λ j. tt;
    lock = inr (refl, record { past = start; nobody = λ j. refl });
  }

  Reach-IsOrderly : (s t : Writers) → Reach max s t → IsOrderly max w s → IsOrderly max w t
  Reach-IsOrderly s t done v = v
  Reach-IsOrderly s t (step p q) v = Step-IsOrderly _ t q (Reach-IsOrderly s _ p v)

  held_by :
      (s : Writers) (t : ℕ) (base : Sock)
      → InCall max base s.sock (s.calls t)
      → ((j : ℕ) → has_lock (s.calls j) ≡ true → j ≡ t)
      → (j : ℕ) → has_lock (s.calls j) ≡ (j == t)
  held_by s t base u alone j = elim (Bool-cases (has_lock (s.calls j))) [
    | inl h ↦ let a = alone j h in ground arith
    | inr h ↦ elim (Bool-cases (j == t)) [
      | inr d ↦ ground arith
      | inl d ↦
          let same : j ≡ t = ground arith in
          let mine = InCall-has_lock max base s.sock (s.calls t) u in
          absurd (let out = subst (λ k. has_lock (s.calls k) ≡ false) same h in cc)
    ]
  ]

  -- Threads that write frames to one socket under its write lock, in any interleaving of their
  -- sends, each of which may fail at any byte. The calls that are over ended as the same calls of
  -- `write_frame` do when they are made one at a time, in the order in which they ended. If the lock
  -- is free, no thread has it and the socket is as those calls leave it. Otherwise exactly one thread
  -- has the lock, and the socket has beyond that no more than its own call has sent so far.
  pub writes_are_atomic :
      (s : Writers)
      → Reach max (opening w) s
      → (base : Sock) × Replay max w s.log base
        × (((s.locked ≡ false) × (s.sock ≡ base) × ((j : ℕ) → has_lock (s.calls j) ≡ false))
            ⊎ ((t : ℕ) × (s.locked ≡ true)
                × InCall max base s.sock (s.calls t)
                × ((j : ℕ) → has_lock (s.calls j) ≡ (j == t))))
  writes_are_atomic s p = elim (Reach-IsOrderly (opening w) s p opening-IsOrderly).lock [
    | inr (l, free) ↦ (s.sock, free.past, inl (l, refl, free.nobody))
    | inl (l, busy) ↦ (
      busy.base,
      busy.past,
      inr (
        busy.holder,
        l,
        busy.under_way,
        held_by s busy.holder busy.base busy.under_way busy.alone,
      ),
    )
  ]
