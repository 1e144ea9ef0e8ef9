-- ===== src/Protocol/Orderly.antt =====
-- What holds of a socket whose write lock several threads use.
use rpc_freethread.Prelude.{
  ℕ, Bool, true, false, ◌≡◌, refl, sym, subst, List, arith, ◌==◌, if◌then◌else◌, ◌⊎◌, inl, inr,
}
use rpc_freethread.Errors.{Error, Result, ok, err}
use rpc_freethread.Protocol.Socket.{Sock, sendall}
use rpc_freethread.Protocol.{write_frame}
use rpc_freethread.Protocol.Writers.{
  Call, outside, waiting, holding, halfway, leaving, Writers, with_call, header_of, after_header,
  Replay,
}

-- The thread has the lock.
abbrev pub has_lock : Call → Bool
has_lock outside = false
has_lock (waiting _ _) = false
has_lock _ = true

-- A thread that waits has a payload that passed the tests.
abbrev pub IsPacked : ℕ → Call → Type 0
IsPacked max (waiting h p) = header_of max p ≡ ok h
IsPacked max _ = Unit

-- How far the call of the thread with the lock has led from `base` to `s`.
abbrev pub InCall : ℕ → Sock → Sock → Call → Type 0
InCall max base s outside = ⊥
InCall max base s (waiting _ _) = ⊥
InCall max base s (holding h p) = (header_of max p ≡ ok h) × (s ≡ base)
InCall max base s (halfway p) =
    (h : List ℕ) × (header_of max p ≡ ok h) × (sendall h base ≡ (ok tt, s))
InCall max base s (leaving p r) = write_frame max p base ≡ (r, s)

pub InCall-has_lock : (max : ℕ) (base s : Sock) (c : Call) → InCall max base s c → has_lock c ≡ true
InCall-has_lock max base s outside h = absurd h
InCall-has_lock max base s (waiting _ _) h = absurd h
InCall-has_lock max base s (holding _ _) h = refl
InCall-has_lock max base s (halfway _) h = refl
InCall-has_lock max base s (leaving _ _) h = refl

pub record Busy (max : ℕ) (w : Sock) (s : Writers) : Type 0 where
  pub holder : ℕ
  pub base : Sock
  pub past : Replay max w s.log base
  pub under_way : InCall max base s.sock (s.calls holder)
  pub alone : (j : ℕ) → has_lock (s.calls j) ≡ true → j ≡ holder

pub record Free (max : ℕ) (w : Sock) (s : Writers) : Type 0 where
  pub past : Replay max w s.log s.sock
  pub nobody : (j : ℕ) → has_lock (s.calls j) ≡ false

pub record IsOrderly (max : ℕ) (w : Sock) (s : Writers) : Type 0 where
  pub packed : (j : ℕ) → IsPacked max (s.calls j)
  pub lock : ((s.locked ≡ true) × Busy max w s) ⊎ ((s.locked ≡ false) × Free max w s)

pub write_frame-refuses :
    (max : ℕ) (p : List ℕ) (e : Error) (s : Sock)
    → header_of max p ≡ err e
    → write_frame max p s ≡ (err e, s)
unfolding write_frame header_of
write_frame-refuses max p e s h = ground arith

pub write_frame-header :
    (max : ℕ) (p h : List ℕ) (e : Error) (s s' : Sock)
    → header_of max p ≡ ok h
    → sendall h s ≡ (err e, s')
    → write_frame max p s ≡ (err e, s')
unfolding write_frame header_of
write_frame-header max p h e s s' k g = ground arith

pub write_frame-payload :
    (max : ℕ) (p h : List ℕ) (r : Result (Unit {0})) (s t u : Sock)
    → header_of max p ≡ ok h
    → sendall h s ≡ (ok tt, t)
    → sendall p t ≡ (r, u)
    → write_frame max p s ≡ (r, u)
unfolding write_frame header_of
write_frame-payload max p h r s t u k g f = ground arith

choice-IsPacked :
    (max : ℕ) (b : Bool) (c d : Call)
    → IsPacked max c
    → IsPacked max d
    → IsPacked max (if b then c else d)
choice-IsPacked max true c d h k = h
choice-IsPacked max false c d h k = k

pub after_header-IsPacked :
    (max : ℕ) (p : List ℕ) (r : Result (Unit {0})) → IsPacked max (after_header p r)
after_header-IsPacked max p (ok _) = tt
after_header-IsPacked max p (err e) = tt

pub after_header-has_lock :
    (p : List ℕ) (r : Result (Unit {0})) → has_lock (after_header p r) ≡ true
after_header-has_lock p (ok _) = refl
after_header-has_lock p (err e) = refl

pub here : (calls : ℕ → Call) (t : ℕ) (c : Call) → with_call calls t c t ≡ c
here calls t c = ground arith

module _ (max : ℕ) (w : Sock) where
  -- What is known when the thread has the lock.
  pub record Inside (s : Writers) (t : ℕ) : Type 0 where
    pub is_locked : s.locked ≡ true
    pub base : Sock
    pub past : Replay max w s.log base
    pub under_way : InCall max base s.sock (s.calls t)
    pub alone : (j : ℕ) → has_lock (s.calls j) ≡ true → j ≡ t

  pub inside : (s : Writers) (t : ℕ) → IsOrderly max w s → has_lock (s.calls t) ≡ true → Inside s t
  inside s t v h = elim v.lock [
    | inr (_, free) ↦ absurd (let n = free.nobody t in cc)
    | inl (l, busy) ↦
        let same = busy.alone t h in
        record {
          is_locked = l;
          base = busy.base;
          past = busy.past;
          under_way =
              subst (λ j. InCall max busy.base s.sock (s.calls j)) (sym same) busy.under_way;
          alone = λ j k. ground (arith, busy.alone j k, same);
        }
  ]

  pub IsPacked-with_call :
      (s : Writers) (t : ℕ) (c : Call)
      → IsOrderly max w s
      → IsPacked max c
      → (j : ℕ) → IsPacked max (with_call s.calls t c j)
  IsPacked-with_call s t c v h j = choice-IsPacked max (t == j) c (s.calls j) h (v.packed j)

  -- The thread with the lock goes on.
  pub goes_on :
      (s : Writers) (t : ℕ) (sock : Sock) (c : Call)
      → IsOrderly max w s
      → (i : Inside s t) → IsPacked max c
      → has_lock c ≡ true
      → InCall max i.base sock c
      → IsOrderly max w (record s { sock = sock; calls = with_call s.calls t c })
  goes_on s t sock c v i p h k = record {
    packed = IsPacked-with_call s t c v p;
    lock = inl (
      i.is_locked,
      record {
        holder = t;
        base = i.base;
        past = i.past;
        under_way = subst (InCall max i.base sock) (sym (here s.calls t c)) k;
        alone = λ j g. let a = i.alone j in ground arith;
      },
    );
  }
