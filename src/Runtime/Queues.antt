-- ===== src/Runtime/Queues.antt =====
-- The executors of the actors: only calls of methods are ever submitted to them.
use rpc_freethread.Prelude.{
  ℕ, Bool, true, false, ◌≡◌, refl, List, [], ◌∷◌, ◌++◌, arith, All, ◌==◌, if◌then◌else◌,
}
use rpc_freethread.Exec.{Exec}
use rpc_freethread.Protocol.Socket.{Sock}
use rpc_freethread.Runtime.State.{
  Runtime, Task, Executor, ActorEntry, update, enqueue, submit_to, on_sock,
}
use rpc_freethread.Runtime.Actors.{cancel_executor, cancel_all}

abbrev pub IsMethod : Task → Type 0
IsMethod (Task.execute_method _ _ _ _ _ _) = Unit
IsMethod _ = ⊥

abbrev pub OnlyMethods : (ℕ → Executor) → Type 0
OnlyMethods x = (k : ℕ) → All IsMethod (x k).queue

All-snoc : (l : List Task) (t : Task) → All IsMethod l → IsMethod t → All IsMethod (l ++ (t ∷ []))
All-snoc [] t h k = (k, tt)
All-snoc (y ∷ l) t (h, hs) k = (h, All-snoc l t hs k)

enqueue-OnlyMethods :
    (b : Bool) (t : Task) (l : List Task)
    → All IsMethod l
    → IsMethod t
    → All IsMethod (enqueue t (record { queue = l; is_shut = b })).1.queue
enqueue-OnlyMethods true t l h k = h
enqueue-OnlyMethods false t l h k = All-snoc l t h k

choice-OnlyMethods :
    (b : Bool) (x y : Executor)
    → All IsMethod x.queue
    → All IsMethod y.queue
    → All IsMethod (if b then x else y).queue
choice-OnlyMethods true x y h k = h
choice-OnlyMethods false x y h k = k

pub update-OnlyMethods :
    (x : ℕ → Executor) (k : ℕ) (y : Executor)
    → OnlyMethods x
    → All IsMethod y.queue
    → OnlyMethods (update x k y)
update-OnlyMethods x k y h g j = choice-OnlyMethods (k == j) y (x j) g (h j)

module _ {U : Type 0} where
  pub submit_to-OnlyMethods :
      (k : ℕ) (t : Task) (r : Runtime U)
      → IsMethod t
      → OnlyMethods r.executors
      → OnlyMethods (submit_to k t r).1.executors
  unfolding submit_to
  submit_to-OnlyMethods k t r h g =
      update-OnlyMethods r.executors k (enqueue t (r.executors k)).1 g
        (enqueue-OnlyMethods (r.executors k).is_shut t (r.executors k).queue (g k) h)

  pub cancel_all-OnlyMethods :
      (l : List ActorEntry) (r : Runtime U)
      → OnlyMethods r.executors
      → OnlyMethods (cancel_all l r).executors
  unfolding cancel_all cancel_executor
  cancel_all-OnlyMethods [] r h = h
  cancel_all-OnlyMethods (a ∷ l) r h =
      cancel_all-OnlyMethods l (cancel_executor a r)
        (update-OnlyMethods r.executors a.executor (record { queue = []; is_shut = true }) h tt)

  pub cancel_all-pool : (l : List ActorEntry) (r : Runtime U) → (cancel_all l r).pool ≡ r.pool
  unfolding cancel_all cancel_executor
  cancel_all-pool [] r = refl
  cancel_all-pool (a ∷ l) r = cancel_all-pool l (cancel_executor a r)

  pub on_sock-executors :
      {A : Type 0} (i : ℕ) (m : Exec Sock A) (r : Runtime U)
      → (on_sock i m r).1.executors ≡ r.executors
  unfolding on_sock
  on_sock-executors i m r = ground arith
