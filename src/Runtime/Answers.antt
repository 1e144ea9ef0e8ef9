-- ===== src/Runtime/Answers.antt =====
-- The tasks that workers run, and the answers that they give.
use rpc_freethread.Prelude.{ℕ, String, ◌≡◌, Option, none, some, ◌⊎◌}
use rpc_freethread.Value.{Value}
use rpc_freethread.Python.{Python}
use rpc_freethread.Serializer.{Serializer}
use rpc_freethread.Runtime.State.{Runtime}
use rpc_freethread.Runtime.Replies.{Replied}
use rpc_freethread.Runtime.Tasks.{Rest}

-- The call that the rest of a task has still to answer.
abbrev pub rest_origin : Rest → Option (ℕ × String)
rest_origin Rest.finished = none
rest_origin (Rest.calling conn call_id name args kwargs) = some (conn, call_id)
rest_origin (Rest.invoking conn call_id i name args kwargs) = some (conn, call_id)
rest_origin (Rest.returning pooled conn call_id outcome) = some (conn, call_id)
rest_origin (Rest.leaving conn) = none
rest_origin (Rest.removing actors) = none
rest_origin (Rest.settling conn call_id actor_id actor) = some (conn, call_id)
rest_origin (Rest.draining conn call_id actor) = some (conn, call_id)

-- A step with a task either ends it with an answer to its call, or sends nothing and leaves a rest
-- that has to answer the same call.
abbrev pub Answers : {U : Type 0} → Serializer → ℕ × String → Runtime U → Rest × Runtime U → Type 0
Answers ser (conn, id) r (left, r') =
    ((left ≡ Rest.finished) × Replied ser conn id r.max_frame_size r.conns r'.conns)
    ⊎ ((rest_origin left ≡ some (conn, id)) × (r'.conns ≡ r.conns))
