-- ===== src/Runtime/Clean.antt =====
-- What holds of the server's threads: no actor belongs to a connection whose handler
-- has taken its actors.
use rpc_freethread.Prelude.{ℕ, ◌<◌, String, true, false, ◌≡◌, some, List, [], ◌∷◌, arith, All}
use rpc_freethread.Prelude.Dict.{get, put, get-put}
use rpc_freethread.Runtime.State.{Runtime, ActorEntry}
use rpc_freethread.Runtime.Tasks.{Rest}
use rpc_freethread.Runtime.Calm.{Calm}
use rpc_freethread.Runtime.Stopping.{Stopper}
use rpc_freethread.Runtime.Server.{Server}

-- What a thread that waits for the actors lock knows: the actor that it has made belongs to its
-- connection, or the connection whose actors it is about to remove is there and closed.
abbrev pub IsOwn : {U : Type 0} → Runtime U → Rest → Type 0
IsOwn r (Rest.settling conn call_id actor_id actor) = actor.owner ≡ conn
IsOwn r (Rest.leaving conn) = (conn < r.next_conn) × ((r.conns conn).closed ≡ true)
IsOwn r _ = Unit

pub record IsClean {U : Type 0} (s : Server U) : Type 0 where
  pub owners :
      (id : String) (e : ActorEntry) → get id s.runtime.actors ≡ some e → s.gone e.owner ≡ false
  pub gone_closed : (c : ℕ) → s.gone c ≡ true → (s.runtime.conns c).closed ≡ true
  pub gone_old : (c : ℕ) → s.gone c ≡ true → c < s.runtime.next_conn
  pub own : All (IsOwn s.runtime) s.active

module _ {U : Type 0} where
  -- What the threads know stays true, if a closed connection stays one.
  keeps-IsOwn :
      (r r' : Runtime U)
      → ((conn : ℕ) → IsOwn r (Rest.leaving conn) → IsOwn r' (Rest.leaving conn))
      → (x : Rest) → IsOwn r x
      → IsOwn r' x
  keeps-IsOwn r r' h (Rest.settling conn call_id actor_id actor) o = o
  keeps-IsOwn r r' h (Rest.leaving conn) o = h conn o
  keeps-IsOwn r r' h Rest.finished o = tt
  keeps-IsOwn r r' h (Rest.calling _ _ _ _ _) o = tt
  keeps-IsOwn r r' h (Rest.invoking _ _ _ _ _ _) o = tt
  keeps-IsOwn r r' h (Rest.returning _ _ _ _) o = tt
  keeps-IsOwn r r' h (Rest.draining _ _ _) o = tt
  keeps-IsOwn r r' h (Rest.removing _) o = tt

  pub keeps-All :
      (r r' : Runtime U)
      → ((conn : ℕ) → IsOwn r (Rest.leaving conn) → IsOwn r' (Rest.leaving conn))
      → (l : List Rest) → All (IsOwn r) l
      → All (IsOwn r') l
  keeps-All r r' h [] o = tt
  keeps-All r r' h (x ∷ l) (p, o) = (keeps-IsOwn r r' h x p, keeps-All r r' h l o)

  pub Calm-All :
      (r r' : Runtime U) → Calm r r' → (l : List Rest) → All (IsOwn r) l → All (IsOwn r') l
  Calm-All r r' h l o =
      keeps-All r r' (λ conn (p, q). (rw h.keeps_next p, h.stays_closed conn q)) l o

  pub Calm-step :
      (s : Server U) (r : Runtime U) (l : List Rest)
      → IsClean s
      → Calm s.runtime r
      → All (IsOwn s.runtime) l
      → IsClean (record s { runtime = r; active = l })
  Calm-step s r l v h o = record {
    owners = λ id e k. v.owners id e (h.none_added id e k);
    gone_closed = λ c g. h.stays_closed c (v.gone_closed c g);
    gone_old = λ c g. rw h.keeps_next (v.gone_old c g);
    own = Calm-All s.runtime r h l o;
  }

  pub Calm-halt :
      (s : Server U) (r : Runtime U) (p : Stopper)
      → IsClean s
      → Calm s.runtime r
      → IsClean (record s { runtime = r; stopper = p })
  Calm-halt s r p v h =
      let w = Calm-step s r s.active v h v.own in
      record { owners = w.owners; gone_closed = w.gone_closed; gone_old = w.gone_old; own = w.own }

  pub add_actor :
      (s : Server U) (id : String) (actor : ActorEntry)
      → IsClean s
      → (s.runtime.conns actor.owner).closed ≡ false
      → IsClean (record s { runtime = record s.runtime { actors = put id actor s.runtime.actors } })
  add_actor s id actor v h = record {
    owners = λ j e k.
        let old = v.owners j e in
        let new = v.gone_closed actor.owner in ground (arith, get-put id j actor s.runtime.actors);
    gone_closed = v.gone_closed;
    gone_old = v.gone_old;
    own =
        keeps-All s.runtime (record s.runtime { actors = put id actor s.runtime.actors })
          (λ conn o. o) s.active v.own;
  }
