-- ===== src/Runtime/Phases.antt =====
-- What holds while `stop` goes through its phases and the other threads go on.
use rpc_freethread.Prelude.{
  ℕ, String, Bool, true, false, ◌≡◌, refl, none, List, [], arith, All, Option-cases, inl, inr,
}
use rpc_freethread.Prelude.Dict.{get}
use rpc_freethread.Errors.{ok}
use rpc_freethread.Value.{Value}
use rpc_freethread.Python.{Python}
use rpc_freethread.Serializer.{Serializer}
use rpc_freethread.Protocol.Socket.{Sock}
use rpc_freethread.Registry.{RemoteRegistry}
use rpc_freethread.Runtime.State.{Runtime, Task, shut_down}
use rpc_freethread.Runtime.Invoke.{UserCode}
use rpc_freethread.Runtime.Tasks.{Rest, run_task}
use rpc_freethread.Runtime.Lifecycle.{new_runtime, accept_connection}
use rpc_freethread.Runtime.Calm.{Calm}
use rpc_freethread.Runtime.Queues.{IsMethod, OnlyMethods}
use rpc_freethread.Runtime.Stopping.{Stopper, cancel_pool, take_actors}
use rpc_freethread.Runtime.Server.{Server, IsUnpooled}

-- The pool was shut down, and its wait is over.
abbrev pub pool_is_down : Stopper → Bool
pool_is_down Stopper.joining = true
pool_is_down (Stopper.clearing _) = true
pool_is_down Stopper.stopped = true
pool_is_down _ = false

abbrev pub is_cleared : Stopper → Bool
is_cleared (Stopper.clearing _) = true
is_cleared Stopper.stopped = true
is_cleared _ = false

pub is_cleared-pool : (p : Stopper) → is_cleared p ≡ true → pool_is_down p ≡ true
is_cleared-pool (Stopper.clearing _) h = refl
is_cleared-pool Stopper.stopped h = refl
is_cleared-pool _ h = cc

pub record IsHalting {U : Type 0} (s : Server U) : Type 0 where
  pub methods : OnlyMethods s.runtime.executors
  pub down : pool_is_down s.stopper ≡ true → s.runtime.pool ≡ shut_down
  pub over : is_cleared s.stopper ≡ true → All IsUnpooled s.active
  pub empty : is_cleared s.stopper ≡ true → (id : String) → get id s.runtime.actors ≡ none

-- A call of a method is never in the hands of a worker of the pool.
pub run_task-IsUnpooled :
    ⦃py : Python⦄ {U : Type 0} (ser : Serializer) (user : UserCode U) (t : Task) (r : Runtime U)
    → IsMethod t
    → IsUnpooled (run_task ser user t r).0
unfolding run_task
run_task-IsUnpooled ser user (Task.execute_method _ _ _ _ _ _) r h = tt
run_task-IsUnpooled ser user (Task.execute_call _ _ _ _ _) r h = absurd h
run_task-IsUnpooled ser user (Task.create_actor _ _ _ _ _ _) r h = absurd h
run_task-IsUnpooled ser user (Task.attach_actor _ _ _) r h = absurd h
run_task-IsUnpooled ser user (Task.destroy_actor _ _ _) r h = absurd h
run_task-IsUnpooled ser user (Task.send_error _ _ _) r h = absurd h

module _ {U : Type 0} where
  pub still_none :
      (r r' : Runtime U) (id : String)
      → Calm r r'
      → get id r.actors ≡ none
      → get id r'.actors ≡ none
  still_none r r' id h k = elim (Option-cases (get id r'.actors)) [
    | inl g ↦ g
    | inr (e, g) ↦ absurd (let before = h.none_added id e g in cc)
  ]

  -- A calm step of another thread, after which the tasks are over if they were.
  pub other_step :
      (s : Server U) (r : Runtime U) (l : List Rest) (gone : ℕ → Bool)
      → IsHalting s
      → Calm s.runtime r
      → (is_cleared s.stopper ≡ true → All IsUnpooled l)
      → IsHalting (record s { runtime = r; active = l; gone = gone })
  other_step s r l gone v h k = record {
    methods = h.keeps_methods v.methods;
    down = λ p. h.stays_down (v.down p);
    over = k;
    empty = λ p id. still_none s.runtime r id h (v.empty p id);
  }

  -- A calm step of the caller of `stop`.
  pub next_phase :
      (s : Server U) (r : Runtime U) (p : Stopper)
      → IsHalting s
      → Calm s.runtime r
      → (pool_is_down p ≡ true → r.pool ≡ shut_down)
      → (is_cleared p ≡ true → All IsUnpooled s.active)
      → (is_cleared p ≡ true → (id : String) → get id r.actors ≡ none)
      → IsHalting (record s { runtime = r; stopper = p })
  next_phase s r p v h d o e = record {
    methods = h.keeps_methods v.methods;
    down = d;
    over = o;
    empty = e;
  }

  pub accept-IsHalting :
      (s : Server U) (sock : Sock)
      → IsHalting s
      → IsHalting (record s { runtime = accept_connection sock s.runtime })
  unfolding accept_connection
  accept-IsHalting s sock v = record {
    methods = v.methods;
    down = v.down;
    over = v.over;
    empty = v.empty;
  }

  pub new_runtime-queue :
      (registry : RemoteRegistry) (world : U) (max : Value) (r : Runtime U)
      → new_runtime registry world max ≡ ok r
      → (k : ℕ) → (r.executors k).queue ≡ []
  unfolding new_runtime
  new_runtime-queue registry world max r h k = ground arith

  pub cancel_pool-down : (r : Runtime U) → (cancel_pool r).pool ≡ shut_down
  unfolding cancel_pool
  cancel_pool-down r = refl

  pub take_actors-none : (r : Runtime U) (id : String) → get id (take_actors r).actors ≡ none
  unfolding take_actors get
  take_actors-none r id = refl
