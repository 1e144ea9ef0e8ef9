-- ===== src/Runtime/Calm.antt =====
-- Operations that never add an actor and never reopen a connection: all but the insertion in
-- `_create_actor`. One rule for each way to build an operation.
use rpc_freethread.Prelude.{
  ℕ, String, Bool, true, false, ◌≡◌, refl, ◌∙◌, sym, subst, some, arith, if◌then◌else◌, List, ◌∷◌,
  All,
}
use rpc_freethread.Prelude.Dict.{get}
use rpc_freethread.Errors.{Error, Result, ok, err}
use rpc_freethread.Exec.{Exec, pure, raise, raise_if, lift, gets, try_except, ◌>>=◌}
use rpc_freethread.Protocol.Socket.{Sock}
use rpc_freethread.Runtime.State.{
  Runtime, Task, ActorEntry, submit, submit_to, on_sock, abort_connection, shut_down, update,
}
use rpc_freethread.Runtime.Actors.{on_world, respond}
use rpc_freethread.Runtime.Queues.{
  IsMethod, OnlyMethods, submit_to-OnlyMethods, update-OnlyMethods, on_sock-executors,
}

module _ {U : Type 0} where
  pub record Calm (r r' : Runtime U) : Type 0 where
    pub stays_closed : (i : ℕ) → (r.conns i).closed ≡ true → (r'.conns i).closed ≡ true
    pub none_added :
        (id : String) (e : ActorEntry) → get id r'.actors ≡ some e → get id r.actors ≡ some e
    pub keeps_next : r'.next_conn ≡ r.next_conn
    pub stays_down : r.pool ≡ shut_down → r'.pool ≡ shut_down
    pub keeps_methods : OnlyMethods r.executors → OnlyMethods r'.executors

  pub Calm-refl : (r : Runtime U) → Calm r r
  Calm-refl r = record {
    stays_closed = λ i h. h;
    none_added = λ id e h. h;
    keeps_next = refl;
    stays_down = λ h. h;
    keeps_methods = λ h. h;
  }

  pub Calm-trans : {r s t : Runtime U} → Calm r s → Calm s t → Calm r t
  Calm-trans a b = record {
    stays_closed = λ i h. b.stays_closed i (a.stays_closed i h);
    none_added = λ id e h. a.none_added id e (b.none_added id e h);
    keeps_next = b.keeps_next ∙ a.keeps_next;
    stays_down = λ h. b.stays_down (a.stays_down h);
    keeps_methods = λ h. b.keeps_methods (a.keeps_methods h);
  }

  -- `m` is calm from every state, whether it returns or raises.
  pub record IsCalm {A : Type 0} (m : Exec (Runtime U) A) : Type 0 where
    pub at : (r : Runtime U) → Calm r (m r).1

module _ {U A : Type 0} where
  pub IsCalm-pure : (a : A) → IsCalm {U = U} (pure a)
  IsCalm-pure a = record { at = Calm-refl }

  pub IsCalm-raise : (e : Error) → IsCalm {U = U} {A = A} (raise e)
  IsCalm-raise e = record { at = Calm-refl }

  pub IsCalm-lift : (v : Result A) → IsCalm {U = U} (lift v)
  IsCalm-lift v = record { at = Calm-refl }

  pub IsCalm-gets : (f : Runtime U → A) → IsCalm (gets f)
  IsCalm-gets f = record { at = Calm-refl }

  pub IsCalm-if :
      (b : Bool) (m n : Exec (Runtime U) A) → IsCalm m → IsCalm n → IsCalm (if b then m else n)
  IsCalm-if true m n km kn = km
  IsCalm-if false m n km kn = kn

module _ {U A B : Type 0} where
  IsCalm-after :
      (f : A → Exec (Runtime U) B) (v : Result A) (r s : Runtime U)
      → ((a : A) → IsCalm (f a))
      → Calm r s
      → Calm r ((◌>>=◌ (lift v) f) s).1
  IsCalm-after f (ok a) r s kf h = Calm-trans h ((kf a).at s)
  IsCalm-after f (err e) r s kf h = h

  pub IsCalm-bind :
      (m : Exec (Runtime U) A) (f : A → Exec (Runtime U) B)
      → IsCalm m
      → ((a : A) → IsCalm (f a))
      → IsCalm (m >>= f)
  IsCalm-bind m f km kf = record { at = λ r. IsCalm-after f (m r).0 r (m r).1 kf (km.at r) }

module _ {U A : Type 0} where
  IsCalm-caught :
      (f : Error → Exec (Runtime U) A) (v : Result A) (r s : Runtime U)
      → ((e : Error) → IsCalm (f e))
      → Calm r s
      → Calm r ((try_except (lift v) f) s).1
  IsCalm-caught f (ok a) r s kf h = h
  IsCalm-caught f (err e) r s kf h = Calm-trans h ((kf e).at s)

  pub IsCalm-try :
      (m : Exec (Runtime U) A) (f : Error → Exec (Runtime U) A)
      → IsCalm m
      → ((e : Error) → IsCalm (f e))
      → IsCalm (try_except m f)
  IsCalm-try m f km kf = record { at = λ r. IsCalm-caught f (m r).0 r (m r).1 kf (km.at r) }

  IsCalm-answered :
      (f : Error → Exec (Runtime U) (Unit {0})) (g : A → Exec (Runtime U) (Unit {0})) (v : Result A)
      (r s : Runtime U)
      → ((e : Error) → IsCalm (f e))
      → ((a : A) → IsCalm (g a))
      → Calm r s
      → Calm r ((respond (lift v) f g) s).1
  IsCalm-answered f g (ok a) r s kf kg h = Calm-trans h ((kg a).at s)
  IsCalm-answered f g (err e) r s kf kg h = Calm-trans h ((kf e).at s)

  pub IsCalm-respond :
      (m : Exec (Runtime U) A) (f : Error → Exec (Runtime U) (Unit {0}))
      (g : A → Exec (Runtime U) (Unit {0}))
      → IsCalm m
      → ((e : Error) → IsCalm (f e))
      → ((a : A) → IsCalm (g a))
      → IsCalm (respond m f g)
  IsCalm-respond m f g km kf kg = record {
    at = λ r. IsCalm-answered f g (m r).0 r (m r).1 kf kg (km.at r);
  }

  pub IsCalm-on_world : (m : Exec U A) → IsCalm (on_world m)
  unfolding on_world
  IsCalm-on_world m = record {
    at = λ r. record {
      stays_closed = λ i h. h;
      none_added = λ id e h. h;
      keeps_next = refl;
      stays_down = λ h. h;
      keeps_methods = λ h. h;
    };
  }

  pub IsCalm-on_sock : (i : ℕ) (m : Exec Sock A) → IsCalm {U = U} (on_sock i m)
  unfolding on_sock
  IsCalm-on_sock i m = record {
    at = λ r. record {
      stays_closed = λ j h. ground arith;
      none_added = λ id e h. ground arith;
      keeps_next = ground arith;
      stays_down = λ h. ground arith;
      keeps_methods = λ h. subst OnlyMethods (sym (on_sock-executors i m r)) h;
    };
  }

module _ {U : Type 0} where
  pub IsCalm-raise_if : (b : Bool) (e : Error) → IsCalm {U = U} (raise_if b e)
  IsCalm-raise_if true e = record { at = Calm-refl }
  IsCalm-raise_if false e = record { at = Calm-refl }

  pub IsCalm-submit : (t : Task) → IsCalm {U = U} (submit t)
  unfolding submit
  IsCalm-submit t = record {
    at = λ r. record {
      stays_closed = λ i h. h;
      none_added = λ id e h. h;
      keeps_next = refl;
      stays_down = λ h. ground arith;
      keeps_methods = λ h. h;
    };
  }

  pub IsCalm-submit_to : (k : ℕ) (t : Task) → IsMethod t → IsCalm {U = U} (submit_to k t)
  unfolding submit_to
  IsCalm-submit_to k t m = record {
    at = λ r. record {
      stays_closed = λ i h. h;
      none_added = λ id e h. h;
      keeps_next = refl;
      stays_down = λ h. h;
      keeps_methods = submit_to-OnlyMethods k t r m;
    };
  }

  pub Calm-abort : (i : ℕ) (r : Runtime U) → Calm r (abort_connection i r)
  unfolding abort_connection
  Calm-abort i r = record {
    stays_closed = λ j h. ground arith;
    none_added = λ id e h. h;
    keeps_next = refl;
    stays_down = λ h. h;
    keeps_methods = λ h. h;
  }

module _ {U : Type 0} where
  -- A worker takes the oldest task of the pool, or of an actor's executor.
  pub pool_taken :
      (r : Runtime U) (t : Task) (rest : List Task)
      → r.pool.queue ≡ t ∷ rest
      → Calm r (record r { pool = record r.pool { queue = rest } })
  pool_taken r t rest q = record {
    stays_closed = λ i h. h;
    none_added = λ id e h. h;
    keeps_next = refl;
    stays_down = λ h. absurd (let e = q in cc);
    keeps_methods = λ h. h;
  }

  pub executor_taken :
      (r : Runtime U) (k : ℕ) (t : Task) (rest : List Task)
      → (r.executors k).queue ≡ t ∷ rest
      → Calm r
          (record r { executors = update r.executors k (record (r.executors k) { queue = rest }) })
  executor_taken r k t rest q = record {
    stays_closed = λ i h. h;
    none_added = λ id e h. h;
    keeps_next = refl;
    stays_down = λ h. h;
    keeps_methods = λ h.
        update-OnlyMethods r.executors k (record (r.executors k) { queue = rest }) h
          (subst (λ l. All IsMethod l) q (h k)).1;
  }

pub ruleset calm_rules = (
  IsCalm-pure, IsCalm-raise, IsCalm-lift, IsCalm-gets, IsCalm-raise_if, IsCalm-if, IsCalm-bind,
  IsCalm-try, IsCalm-respond, IsCalm-on_world, IsCalm-on_sock, IsCalm-submit, IsCalm-submit_to,
)
