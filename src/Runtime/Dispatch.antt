-- ===== src/Runtime/Dispatch.antt =====
-- What `_handle_message` does with a message, on every branch.
use rpc_freethread.Prelude.{
  ℕ, String, Bool, true, false, ◌≡◌, refl, sym, subst, Option, none, some, [], ◌∷◌, ◌++◌, arith,
  ◌⊎◌, inl, inr, ◌==◌, if◌then◌else◌,
}
use rpc_freethread.Prelude.Dict.{get}
use rpc_freethread.Errors.{Error, Result, ok, err}
use rpc_freethread.Exec.{Exec, lift, raise, ◌>>=◌}
use rpc_freethread.Value.{Value, nothing, mapping, Items, Fields, field_or, is_text}
use rpc_freethread.Python.{Python}
use rpc_freethread.Runtime.State.{
  Runtime, Task, ActorEntry, Executor, update, submit, submit_to, enqueue, cannot_schedule,
}
use rpc_freethread.Runtime.Messages.{
  require_string, require_arguments, handle_message, dispatch, handle_function_call,
  handle_actor_create, handle_actor_call, handle_actor_attach, handle_actor_destroy, route_method,
}

-- The connection and the call that a task answers.
abbrev pub origin : Task → ℕ × String
origin (Task.execute_call conn call_id _ _ _) = (conn, call_id)
origin (Task.create_actor conn call_id _ _ _ _) = (conn, call_id)
origin (Task.execute_method conn call_id _ _ _ _) = (conn, call_id)
origin (Task.attach_actor conn call_id _) = (conn, call_id)
origin (Task.destroy_actor conn call_id _) = (conn, call_id)
origin (Task.send_error conn call_id _) = (conn, call_id)

-- The executor of the pool, or that of an actor in the table, got one task more, at its end.
abbrev pub Appended : Task → Executor → Executor → Type 0
Appended t x y = (x.is_shut ≡ false) × (y ≡ record x { queue = x.queue ++ (t ∷ []) })

module _ {U : Type 0} where
  -- Every field but the pool and the actors' executors is as before.
  pub record SameRest (r r' : Runtime U) : Type 0 where
    pub actors : r'.actors ≡ r.actors
    pub conns : r'.conns ≡ r.conns
    pub connections : r'.connections ≡ r.connections
    pub world : r'.world ≡ r.world
    pub registry : r'.registry ≡ r.registry
    pub max : r'.max_frame_size ≡ r.max_frame_size
    pub started : r'.started ≡ r.started
    pub closed : r'.closed ≡ r.closed
    pub stopping : r'.stopping ≡ r.stopping
    pub next_conn : r'.next_conn ≡ r.next_conn
    pub next_executor : r'.next_executor ≡ r.next_executor

  -- One executor got the task, and the others are as before.
  pub data Submitted (t : Task) (r r' : Runtime U) : Type 0 where
    to_pool :
        Appended t r.pool r'.pool → ((k : ℕ) → r'.executors k ≡ r.executors k) → Submitted t r r'
    to_actor :
        (id : String) (actor : ActorEntry)
        → get id r.actors ≡ some actor
        → Appended t (r.executors actor.executor) (r'.executors actor.executor)
        → ((k : ℕ) → (k == actor.executor) ≡ false → r'.executors k ≡ r.executors k)
        → r'.pool ≡ r.pool
        → Submitted t r r'

  -- No executor got anything.
  pub record Unsubmitted (r r' : Runtime U) : Type 0 where
    pub pool : r'.pool ≡ r.pool
    pub executors : (k : ℕ) → r'.executors k ≡ r.executors k

  pub record Outcome (conn : ℕ) (message : Fields) (r : Runtime U)
      (p : Result (Unit {0}) × Runtime U) : Type 0 where
    pub rest : SameRest r p.1
    pub branch :
        ((e : Error) × (p.0 ≡ err e) × Unsubmitted r p.1)
        ⊎ ((call_id : String) × (t : Task) × (p.0 ≡ ok tt)
            × (require_string message "call_id" ≡ ok call_id)
            × (origin t ≡ (conn, call_id))
            × Submitted t r p.1)

  record Handles (conn : ℕ) (message : Fields) (m : Exec (Runtime U) (Unit {0})) : Type 0 where
    at : (r : Runtime U) → Outcome conn message r (m r)

enqueue-cases :
    (t : Task) (x : Executor)
    → (enqueue t x ≡ (err cannot_schedule, x))
      ⊎ ((x.is_shut ≡ false) × (enqueue t x ≡ (ok tt, record x { queue = x.queue ++ (t ∷ []) })))
enqueue-cases t x = ground arith

abbrev same :
    {U : Type 0} {p : Executor} {x : ℕ → Executor} {r : Runtime U}
    → SameRest r (record r { pool = p; executors = x })
same = record {
  actors = refl;
  conns = refl;
  connections = refl;
  world = refl;
  registry = refl;
  max = refl;
  started = refl;
  closed = refl;
  stopping = refl;
  next_conn = refl;
  next_executor = refl;
}

module _ {U : Type 0} (conn : ℕ) (message : Fields) where
  refused : (e : Error) → Handles {U = U} conn message (raise e)
  refused e = record {
    at = λ r. record {
      rest = same;
      branch = inl (e, refl, record { pool = refl; executors = λ k. refl });
    };
  }

  after :
      {A : Type 0} (v : Result A) (f : A → Exec (Runtime U) (Unit {0}))
      → ((a : A) → v ≡ ok a → Handles conn message (f a))
      → Handles conn message (lift v >>= f)
  after (ok a) f h = h a refl
  after (err e) f h = refused e

  at_pool :
      (call_id : String) (t : Task) (r : Runtime U)
      → require_string message "call_id" ≡ ok call_id
      → origin t ≡ (conn, call_id)
      → Outcome conn message r (submit t r)
  unfolding submit
  at_pool call_id t r h o =
      let Here = λ (p : Result (Unit {0}) × Executor).
        Outcome conn message r (p.0, record r { pool = p.1 }) in
      elim (enqueue-cases t r.pool) [
        | inl k ↦ subst Here (sym k) (record {
          rest = same;
          branch = inl (cannot_schedule, refl, record { pool = refl; executors = λ j. refl });
        })
        | inr (free, k) ↦ subst Here (sym k) (record {
          rest = same;
          branch = inr (call_id, t, refl, h, o, to_pool (free, refl) (λ j. refl));
        })
      ]

  at_actor :
      (call_id id : String) (actor : ActorEntry) (t : Task) (r : Runtime U)
      → require_string message "call_id" ≡ ok call_id
      → origin t ≡ (conn, call_id)
      → get id r.actors ≡ some actor
      → Outcome conn message r (submit_to actor.executor t r)
  unfolding submit_to
  at_actor call_id id actor t r h o g =
      let i = actor.executor in
      let Here = λ (p : Result (Unit {0}) × Executor).
        Outcome conn message r (p.0, record r { executors = update r.executors i p.1 }) in
      elim (enqueue-cases t (r.executors i)) [
        | inl k ↦ subst Here (sym k) (record {
          rest = same;
          branch =
              inl (cannot_schedule, refl, record { pool = refl; executors = λ j. ground arith });
        })
        | inr (free, k) ↦ subst Here (sym k) (record {
          rest = same;
          branch = inr (
            call_id,
            t,
            refl,
            h,
            o,
            to_actor id actor g (free, ground arith) (λ j d. ground arith) refl,
          );
        })
      ]

  by_pool :
      (call_id : String) (t : Task)
      → require_string message "call_id" ≡ ok call_id
      → origin t ≡ (conn, call_id)
      → Handles {U = U} conn message (submit t)
  by_pool call_id t h o = record { at = λ r. at_pool call_id t r h o }

module _ ⦃py : Python⦄ {U : Type 0} (conn : ℕ) (message : Fields) where
  route_at :
      (call_id id name : String) (args : Items) (kwargs : Fields) (r : Runtime U)
      (o : Option ActorEntry)
      → require_string message "call_id" ≡ ok call_id
      → get id r.actors ≡ o
      → Outcome conn message r (route_method conn call_id id name args kwargs o r)
  route_at call_id id name args kwargs r (some actor) h g =
      at_actor conn message call_id id actor _ r h refl g
  route_at call_id id name args kwargs r none h g = at_pool conn message call_id _ r h refl

  handle_actor_call-Handles : Handles {U = U} conn message (handle_actor_call conn message)
  unfolding handle_actor_call
  handle_actor_call-Handles = after conn message (require_string message "call_id") _ λ call_id h.
      after conn message (require_string message "actor_id") _ λ id _.
        after conn message (require_string message "method") _ λ name _.
          after conn message (require_arguments message) _
            λ a _. record { at = λ r. route_at call_id id name a.0 a.1 r (get id r.actors) h refl }

  handle_function_call-Handles : Handles {U = U} conn message (handle_function_call conn message)
  unfolding handle_function_call
  handle_function_call-Handles =
      after conn message (require_string message "call_id") _ λ call_id h.
        after conn message (require_string message "function") _ λ name _.
          after conn message (require_arguments message) _
            λ a _. by_pool conn message call_id _ h refl

  handle_actor_create-Handles : Handles {U = U} conn message (handle_actor_create conn message)
  unfolding handle_actor_create
  handle_actor_create-Handles = after conn message (require_string message "call_id") _ λ call_id h.
      after conn message (require_string message "actor_id") _ λ id _.
        after conn message (require_string message "class") _ λ name _.
          after conn message (require_arguments message) _
            λ a _. by_pool conn message call_id _ h refl

  handle_actor_attach-Handles : Handles {U = U} conn message (handle_actor_attach conn message)
  unfolding handle_actor_attach
  handle_actor_attach-Handles = after conn message (require_string message "call_id") _ λ call_id h.
      after conn message (require_string message "actor_id") _
        λ id _. by_pool conn message call_id _ h refl

  handle_actor_destroy-Handles : Handles {U = U} conn message (handle_actor_destroy conn message)
  unfolding handle_actor_destroy
  handle_actor_destroy-Handles =
      after conn message (require_string message "call_id") _ λ call_id h.
        after conn message (require_string message "actor_id") _
          λ id _. by_pool conn message call_id _ h refl

  if-Handles :
      (b : Bool) (m n : Exec (Runtime U) (Unit {0}))
      → Handles conn message m
      → Handles conn message n
      → Handles conn message (if b then m else n)
  if-Handles true m n h k = h
  if-Handles false m n h k = k

  dispatch-Handles : (kind : Value) → Handles {U = U} conn message (dispatch conn message kind)
  unfolding dispatch
  dispatch-Handles kind = if-Handles (is_text "call" kind) _ _ handle_function_call-Handles (
      if-Handles (is_text "create_actor" kind) _ _ handle_actor_create-Handles (
        if-Handles (is_text "attach_actor" kind) _ _ handle_actor_attach-Handles (
          if-Handles (is_text "call_actor" kind) _ _ handle_actor_call-Handles (
            if-Handles (is_text "destroy_actor" kind) _ _ handle_actor_destroy-Handles
              (refused conn message _)))))

  -- A message that is a dictionary is either refused, with an error and no executor changed, or
  -- gives exactly one task to one executor: a task that will answer the message's call id on the
  -- connection that the message came from. Every other field of the runtime is as before.
  pub one_task_or_none :
      (r : Runtime U) → Outcome conn message r (handle_message conn (mapping message) r)
  unfolding handle_message
  one_task_or_none r = (dispatch-Handles (field_or nothing "type" message)).at r
