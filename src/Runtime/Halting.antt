-- ===== src/Runtime/Halting.antt =====
-- The phases of `stop`: one after another they are `stop`, and each of them is calm.
use rpc_freethread.Prelude.{ℕ, true, false, ◌≡◌, refl, List, [], ◌∷◌}
use rpc_freethread.Prelude.Dict.{get, values}
use rpc_freethread.Runtime.State.{Runtime, ActorEntry, shut_down}
use rpc_freethread.Runtime.Actors.{cancel_executor, cancel_all}
use rpc_freethread.Runtime.Lifecycle.{shut_connections, stop, stop_open}
use rpc_freethread.Runtime.Queues.{update-OnlyMethods}
use rpc_freethread.Runtime.Calm.{Calm}
use rpc_freethread.Runtime.Stopping.{mark_stopping, take_connections, cancel_pool, take_actors}

module _ {U : Type 0} where
  pub mark_stopping-Calm : (r : Runtime U) → Calm r (mark_stopping r)
  unfolding mark_stopping
  mark_stopping-Calm r = record {
    stays_closed = λ i h. h;
    none_added = λ id e h. h;
    keeps_next = refl;
    stays_down = λ h. h;
    keeps_methods = λ h. h;
  }

  pub take_connections-Calm : (r : Runtime U) → Calm r (take_connections r)
  unfolding take_connections
  take_connections-Calm r = record {
    stays_closed = λ i h. h;
    none_added = λ id e h. h;
    keeps_next = refl;
    stays_down = λ h. h;
    keeps_methods = λ h. h;
  }

  pub cancel_pool-Calm : (r : Runtime U) → Calm r (cancel_pool r)
  unfolding cancel_pool
  cancel_pool-Calm r = record {
    stays_closed = λ i h. h;
    none_added = λ id e h. h;
    keeps_next = refl;
    stays_down = λ h. refl;
    keeps_methods = λ h. h;
  }

  pub take_actors-Calm : (r : Runtime U) → Calm r (take_actors r)
  unfolding take_actors get
  take_actors-Calm r = record {
    stays_closed = λ i h. h;
    none_added = λ id e h. absurd cc;
    keeps_next = refl;
    stays_down = λ h. h;
    keeps_methods = λ h. h;
  }

  pub cancel_executor-Calm : (actor : ActorEntry) (r : Runtime U) → Calm r (cancel_executor actor r)
  unfolding cancel_executor
  cancel_executor-Calm actor r = record {
    stays_closed = λ i h. h;
    none_added = λ id e h. h;
    keeps_next = refl;
    stays_down = λ h. h;
    keeps_methods = λ h. update-OnlyMethods r.executors actor.executor shut_down h tt;
  }

  shut_connections-actors : (l : List ℕ) (r : Runtime U) → (shut_connections l r).actors ≡ r.actors
  unfolding shut_connections
  shut_connections-actors [] r = refl
  shut_connections-actors (i ∷ l) r = shut_connections-actors l _

  -- The phases one after another are `stop`.
  pub stop-phases :
      (r : Runtime U)
      → r.closed ≡ false
      → let ended =
          cancel_pool (shut_connections r.connections (take_connections (mark_stopping r))) in
        stop r ≡ cancel_all (values ended.actors) (take_actors ended)
  unfolding stop stop_open mark_stopping take_connections cancel_pool take_actors
  stop-phases r h =
      let marked = record r { closed = true; stopping = true; started = false; connections = [] } in
      rw (h, shut_connections-actors r.connections marked) refl
