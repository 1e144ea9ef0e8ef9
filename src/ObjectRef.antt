-- ===== src/ObjectRef.antt =====
-- object_ref.py: the future of one remote call. Each method holds the condition's lock throughout,
-- except that the wait in `get` lets other threads complete the reference.
pub mod Once
mod Tests
use rpc_freethread.Prelude.{
  ℕ, String, ◌<>◌, Bool, true, false, not, Option, none, some, List, [], ◌∷◌, if◌then◌else◌,
}
use rpc_freethread.Errors.{Error, Result, ok, err, remote_error, runtime_error, timeout_error}
use rpc_freethread.Exec.{Exec, raise_if, modify, ◌>>=◌, ◌>>◌}
use rpc_freethread.Value.{Value, nothing}
use rpc_freethread.Python.{Python, quoted}

pub data State : Type 0 where
  pending finished failed : State

abbrev pub is_pending : State → Bool
is_pending pending = true
is_pending _ = false

pub record ObjectRef : Type 0 where
  pub call_id : String
  pub state : State
  pub result : Value
  pub error : Option Error

-- `ObjectRef(call_id)`
abbrev pub new_ref : String → ObjectRef
new_ref id = record { call_id = id; state = pending; result = nothing; error = none }

unfoldable pub ready : ObjectRef → Bool
ready r = not (is_pending r.state)

-- One call of `set_result` or `set_error`.
pub data Completion : Type 0 where
  result_is : Value → Completion
  error_is : (error_type message : String) → Completion

module _ ⦃py : Python⦄ where
  abbrev pub already_complete : ObjectRef → Error
  already_complete r =
      runtime_error ("remote call " <> (quoted r.call_id <> " is already complete"))

  abbrev pub timed_out : ObjectRef → Error
  timed_out r = timeout_error ("remote call " <> (quoted r.call_id <> " timed out"))

  unfoldable pub ensure_pending : Exec ObjectRef (Unit {0})
  ensure_pending r = (if is_pending r.state then ok tt else err (already_complete r), r)

  unfoldable pub set_result : Value → Exec ObjectRef (Unit {0})
  unfolding ensure_pending
  set_result v = do ensure_pending; modify (λ r. record r { result = v; state = finished })

  unfoldable pub set_error : String → String → Exec ObjectRef (Unit {0})
  unfolding ensure_pending
  set_error t m = do
    ensure_pending
    modify (λ r. record r { error = some (remote_error t m); state = failed })

  abbrev pub complete : Completion → Exec ObjectRef (Unit {0})
  complete (result_is v) = set_result v
  complete (error_is t m) = set_error t m

  -- `wait_for`: the calls that other threads make until the wait ends, of which those after the
  -- first that completes the reference come too late to be seen.
  unfoldable pub wait_for : List Completion → ObjectRef → ObjectRef
  wait_for [] r = r
  wait_for (c ∷ cs) r = wait_for cs (complete c r).1

  -- What `get` does once it has waited, if it had to.
  unfoldable pub outcome : ObjectRef → Result Value
  outcome r = elim r.state [
    | pending ↦ err (timed_out r)
    | failed ↦ elim r.error [
      | none ↦ err (remote_error "RemoteError" "remote call failed")
      | some e ↦ err e
    ]
    | finished ↦ ok r.result
  ]

  -- `get`, with what happens while it waits. Without a timeout a wait that nobody ends lasts for
  -- ever: that is `none`.
  unfoldable pub get : Option ℕ → List Completion → ObjectRef → Option (Result Value × ObjectRef)
  unfolding wait_for outcome
  get timeout others r =
      let woken = if is_pending r.state then wait_for others r else r in
      elim timeout [
        | some t ↦ some (outcome woken, woken)
        | none ↦ if is_pending woken.state then none else some (outcome woken, woken)
      ]
