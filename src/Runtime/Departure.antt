-- ===== src/Runtime/Departure.antt =====
-- What a connection's end and the runtime's stop do to the calls that are queued.
use rpc_freethread.Prelude.{
  ℕ, String, Bool, true, false, ◌≡◌, refl, subst, ◌∙◌, some, List, [], ◌∷◌, arith, inl, inr, ◌==◌,
  if◌then◌else◌, Bool-cases, str_eq, Among, here, there,
}
use rpc_freethread.Prelude.Dict.{Dict, get, values}
use rpc_freethread.Errors.{Result, err, runtime_error}
use rpc_freethread.Runtime.State.{Runtime, ActorEntry, shut_down}
use rpc_freethread.Runtime.Actors.{
  cancel_executor, cancel_all, owned_actors, owned_ids, remove_all, remove_connection_actors,
}
use rpc_freethread.Runtime.Lifecycle.{start, stop, stop_open, shut_connections}
use rpc_freethread.Runtime.Steps.{cancel_all-actors}

-- An actor of a list runs on the executor.
data RunsOn : ℕ → List ActorEntry → Type 0 where
  first : {a : ActorEntry} {l : List ActorEntry} → RunsOn a.executor (a ∷ l)
  later : {k : ℕ} {a : ActorEntry} {l : List ActorEntry} → RunsOn k l → RunsOn k (a ∷ l)

module _ {U : Type 0} where
  cancel_all-stays :
      (l : List ActorEntry) (r : Runtime U) (k : ℕ)
      → r.executors k ≡ shut_down
      → (cancel_all l r).executors k ≡ shut_down
  unfolding cancel_all cancel_executor
  cancel_all-stays [] r k h = h
  cancel_all-stays (a ∷ l) r k h = cancel_all-stays l _ k (ground arith)

  cancel_all-RunsOn :
      (l : List ActorEntry) (r : Runtime U) (k : ℕ)
      → RunsOn k l
      → (cancel_all l r).executors k ≡ shut_down
  unfolding cancel_all cancel_executor
  cancel_all-RunsOn [] r k h = elim h [ ]
  cancel_all-RunsOn (a ∷ l) r _ first = cancel_all-stays l _ a.executor (ground arith)
  cancel_all-RunsOn (a ∷ l) r k (later h) = cancel_all-RunsOn l _ k h

  cancel_all-rest :
      (l : List ActorEntry) (r : Runtime U)
      → ((cancel_all l r).pool ≡ r.pool)
        × ((cancel_all l r).conns ≡ r.conns)
        × ((cancel_all l r).closed ≡ r.closed)
        × ((cancel_all l r).stopping ≡ r.stopping)
        × ((cancel_all l r).started ≡ r.started)
        × ((cancel_all l r).connections ≡ r.connections)
  unfolding cancel_all cancel_executor
  cancel_all-rest [] r = (refl, refl, refl, refl, refl, refl)
  cancel_all-rest (a ∷ l) r = cancel_all-rest l (cancel_executor a r)

RunsOn-skip :
    (b : Bool) (a : ActorEntry) (k : ℕ) (l : List ActorEntry)
    → RunsOn k l
    → RunsOn k (if b then a ∷ l else l)
RunsOn-skip true a k l h = later h
RunsOn-skip false a k l h = h

RunsOn-here :
    (b : Bool) (a e : ActorEntry) (l : List ActorEntry)
    → b ≡ true
    → a ≡ e
    → RunsOn e.executor (if b then a ∷ l else l)
RunsOn-here true a e l h p = subst (λ x. RunsOn x.executor (a ∷ l)) p first
RunsOn-here false a e l h p = absurd cc

owned_actors-RunsOn :
    (conn : ℕ) (d : Dict ActorEntry) (id : String) (e : ActorEntry)
    → get id d ≡ some e
    → e.owner ≡ conn
    → RunsOn e.executor (owned_actors conn d)
unfolding owned_actors get
owned_actors-RunsOn conn [] id e h k = absurd cc
owned_actors-RunsOn conn ((j, a) ∷ d) id e h k = elim (Bool-cases (str_eq j id)) [
  | inl p ↦ RunsOn-here (a.owner == conn) a e _ (ground arith) (ground arith)
  | inr p ↦
      RunsOn-skip (a.owner == conn) a e.executor _
        (owned_actors-RunsOn conn d id e (ground arith) k)
]

values-RunsOn :
    (d : Dict ActorEntry) (id : String) (e : ActorEntry)
    → get id d ≡ some e
    → RunsOn e.executor (values d)
unfolding values get
values-RunsOn [] id e h = absurd cc
values-RunsOn ((j, a) ∷ d) id e h = elim (Bool-cases (str_eq j id)) [
  | inl p ↦ RunsOn-here true a e _ refl (ground arith)
  | inr p ↦ later (values-RunsOn d id e (ground arith))
]

module _ {U : Type 0} where
  -- When a connection's handler removes its actors, every call that waits on one of them is
  -- dropped, whichever connection sent it, and none of these connections is told: no connection's
  -- state or socket changes, and the pool gets no task.
  pub departure_drops_calls :
      (conn : ℕ) (r : Runtime U) (id : String) (e : ActorEntry)
      → get id r.actors ≡ some e
      → e.owner ≡ conn
      → ((remove_connection_actors conn r).executors e.executor ≡ shut_down)
        × ((remove_connection_actors conn r).conns ≡ r.conns)
        × ((remove_connection_actors conn r).pool ≡ r.pool)
  unfolding remove_connection_actors
  departure_drops_calls conn r id e h k =
      let r' = record r { actors = remove_all (owned_ids conn r.actors) r.actors } in
      let (pool, links, _, _, _, _) = cancel_all-rest (owned_actors conn r.actors) r' in
      (
        cancel_all-RunsOn (owned_actors conn r.actors) r' e.executor
            (owned_actors-RunsOn conn r.actors id e h k),
        links,
        pool,
      )

  -- The runtime after `stop`: it is marked as closed, stopping and not started, it has no connection
  -- and no actor, the pool and the executor of each actor that it had are empty and shut down, each
  -- connection that it had is closed with its socket, and `start` raises.
  pub record Stopped (r r' : Runtime U) : Type 0 where
    pub closed : r'.closed ≡ true
    pub stopping : r'.stopping ≡ true
    pub not_started : r'.started ≡ false
    pub no_connections : r'.connections ≡ []
    pub none_left : r'.actors ≡ []
    pub pool_down : r'.pool ≡ shut_down
    pub executors_down :
        (id : String) (e : ActorEntry)
        → get id r.actors ≡ some e
        → r'.executors e.executor ≡ shut_down
    pub connections_down :
        (c : ℕ)
        → Among c r.connections
        → ((r'.conns c).closed ≡ true) × ((r'.conns c).sock_open ≡ false)
    pub no_restart :
        (bound : Result (Unit {0}))
        → start bound r' ≡ (err (runtime_error "runtime cannot be restarted after stop"), r')

  -- The connection was closed, and its socket with it.
  abbrev IsDown : Runtime U → ℕ → Type 0
  IsDown r c = ((r.conns c).closed ≡ true) × ((r.conns c).sock_open ≡ false)

  shut_connections-IsDown :
      (l : List ℕ) (r : Runtime U) (c : ℕ) → IsDown r c → IsDown (shut_connections l r) c
  unfolding shut_connections
  shut_connections-IsDown [] r c h = h
  shut_connections-IsDown (i ∷ l) r c h = shut_connections-IsDown l _ c (ground arith, ground arith)

  shut_connections-Among :
      (l : List ℕ) (r : Runtime U) (c : ℕ) → Among c l → IsDown (shut_connections l r) c
  unfolding shut_connections
  shut_connections-Among [] r c h = elim h [ ]
  shut_connections-Among (i ∷ l) r _ here =
      shut_connections-IsDown l _ i (ground arith, ground arith)
  shut_connections-Among (i ∷ l) r c (there h) = shut_connections-Among l _ c h

  shut_connections-rest :
      (l : List ℕ) (r : Runtime U)
      → ((shut_connections l r).closed ≡ r.closed)
        × ((shut_connections l r).stopping ≡ r.stopping)
        × ((shut_connections l r).started ≡ r.started)
        × ((shut_connections l r).connections ≡ r.connections)
  unfolding shut_connections
  shut_connections-rest [] r = (refl, refl, refl, refl)
  shut_connections-rest (i ∷ l) r = shut_connections-rest l _

  start-closed :
      (r : Runtime U) (bound : Result (Unit {0}))
      → r.closed ≡ true
      → start bound r ≡ (err (runtime_error "runtime cannot be restarted after stop"), r)
  unfolding start
  start-closed r bound h = ground arith

  stop-closed : (r : Runtime U) → r.closed ≡ true → stop r ≡ r
  unfolding stop
  stop-closed r h = ground arith

  stop-eq-stop_open : (r : Runtime U) → r.closed ≡ false → stop r ≡ stop_open r
  unfolding stop
  stop-eq-stop_open r h = ground arith

  stop_open-Stopped : (r : Runtime U) → Stopped r (stop_open r)
  unfolding stop_open
  stop_open-Stopped r =
      let marked = record r { closed = true; stopping = true; started = false; connections = [] } in
      let dropped = shut_connections r.connections marked in
      let emptied = record dropped { pool = shut_down; actors = [] } in
      let l = values r.actors in
      let (pool, links, closed, stops, starts, left) = cancel_all-rest l emptied in
      let (c, p, t, n) = shut_connections-rest r.connections marked in
      let down = closed ∙ c in
      record {
        closed = down;
        stopping = stops ∙ p;
        not_started = starts ∙ t;
        no_connections = left ∙ n;
        none_left = (cancel_all-actors l emptied).0;
        pool_down = pool;
        executors_down =
            λ id e h. cancel_all-RunsOn l emptied e.executor (values-RunsOn r.actors id e h);
        connections_down = λ c h. rw links (shut_connections-Among r.connections marked c h);
        no_restart = λ bound. start-closed _ bound down;
      }

  -- The first `stop` of a runtime marks it as closed and stopping and not started, empties its
  -- connections and its actors, closes each connection that it had with its socket, empties and
  -- shuts down the pool and each executor of an actor, and leaves a runtime that `start` refuses. A
  -- second `stop` changes nothing. The listening socket is not part of the model.
  pub stop_ends : (r : Runtime U) → r.closed ≡ false → Stopped r (stop r) × (stop (stop r) ≡ stop r)
  stop_ends r h =
      let ended = stop_open-Stopped r in
      rw (stop-eq-stop_open r h) (ended, stop-closed (stop_open r) ended.closed)
