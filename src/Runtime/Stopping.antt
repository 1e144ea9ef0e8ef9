-- ===== src/Runtime/Stopping.antt =====
-- `stop` of runtime.py in its phases: what its caller does between two points at which other threads
-- can go on, and how far the caller is.
use rpc_freethread.Prelude.{ℕ, true, false, List, []}
use rpc_freethread.Runtime.State.{Runtime, ActorEntry, cancel}

-- Where the caller of `stop` stands: not begun; after the lifecycle lock; with the connections that
-- it has still to close; in the wait of the pool's shutdown; with the actors whose executors it has
-- still to shut down; returned.
pub data Stopper : Type 0 where
  idle : Stopper
  marked : Stopper
  closing : (connections : List ℕ) → Stopper
  joining : Stopper
  clearing : (actors : List ActorEntry) → Stopper
  stopped : Stopper

module _ {U : Type 0} where
  -- Under the lifecycle lock.
  unfoldable pub mark_stopping : Runtime U → Runtime U
  mark_stopping r = record r { closed = true; stopping = true; started = false }

  -- Under the connections lock.
  unfoldable pub take_connections : Runtime U → Runtime U
  take_connections r = record r { connections = [] }

  -- `self._executor.shutdown(wait=True, cancel_futures=True)` up to its wait
  unfoldable pub cancel_pool : Runtime U → Runtime U
  cancel_pool r = record r { pool = cancel r.pool }

  -- Under the actors lock.
  unfoldable pub take_actors : Runtime U → Runtime U
  take_actors r = record r { actors = [] }
