-- ===== src/Runtime/Silent.antt =====
-- Steps of runtime.py that send nothing. One rule for each way to build an operation.
use rpc_freethread.Prelude.{String, Bool, true, false, refl, arith}
use rpc_freethread.Prelude.Dict.{put}
use rpc_freethread.Errors.{Error, Result, ok, err}
use rpc_freethread.Exec.{Exec, pure, raise, raise_if, lift, gets, modify, ◌>>=◌}
use rpc_freethread.Runtime.State.{Runtime, ActorEntry}
use rpc_freethread.Runtime.Replies.{Silent, IsSilent}
use rpc_freethread.Runtime.Actors.{on_world}

module _ {U A : Type 0} where
  pub IsSilent-pure : (a : A) → IsSilent {U = U} (pure a)
  IsSilent-pure a = record { at = λ r. record { conns = refl; max = refl } }

  pub IsSilent-raise : (e : Error) → IsSilent {U = U} {A = A} (raise e)
  IsSilent-raise e = record { at = λ r. record { conns = refl; max = refl } }

  pub IsSilent-lift : (v : Result A) → IsSilent {U = U} (lift v)
  IsSilent-lift v = record { at = λ r. record { conns = refl; max = refl } }

  pub IsSilent-gets : (f : Runtime U → A) → IsSilent (gets f)
  IsSilent-gets f = record { at = λ r. record { conns = refl; max = refl } }

  pub IsSilent-on_world : (m : Exec U A) → IsSilent (on_world m)
  unfolding on_world
  IsSilent-on_world m = record { at = λ r. record { conns = refl; max = refl } }

module _ {U : Type 0} where
  pub IsSilent-raise_if : (b : Bool) (e : Error) → IsSilent {U = U} (raise_if b e)
  IsSilent-raise_if true e = record { at = λ r. record { conns = refl; max = refl } }
  IsSilent-raise_if false e = record { at = λ r. record { conns = refl; max = refl } }

  pub IsSilent-put :
      (id : String) (actor : ActorEntry)
      → IsSilent {U = U} (modify λ r. record r { actors = put id actor r.actors })
  IsSilent-put id actor = record { at = λ r. record { conns = refl; max = refl } }

  pub Silent-trans : {r s t : Runtime U} → Silent r s → Silent s t → Silent r t
  Silent-trans h k = record { conns = ground (arith, h, k); max = ground (arith, h, k) }

module _ {U A B : Type 0} where
  pub Silent-after :
      (f : A → Exec (Runtime U) B) (v : Result A) (r s : Runtime U)
      → ((a : A) → IsSilent (f a))
      → Silent r s
      → Silent r ((lift v >>= f) s).1
  Silent-after f (ok a) r s k h = Silent-trans h ((k a).at s)
  Silent-after f (err e) r s k h = h

  pub IsSilent-bind :
      (m : Exec (Runtime U) A) (f : A → Exec (Runtime U) B)
      → IsSilent m
      → ((a : A) → IsSilent (f a))
      → IsSilent (m >>= f)
  IsSilent-bind m f h k = record { at = λ r. Silent-after f (m r).0 r (m r).1 k (h.at r) }

pub ruleset silent_rules = (
  IsSilent-pure, IsSilent-raise, IsSilent-lift, IsSilent-gets, IsSilent-on_world, IsSilent-raise_if,
  IsSilent-bind,
)
