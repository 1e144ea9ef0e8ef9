-- ===== src/Agreement/Local.antt =====
-- The computations that the server makes for a remote call, as local calls.
use rpc_freethread.Prelude.{
  ℕ, String, Bool, true, false, ◌≡◌, refl, ap, ◌∙◌, sym, Option, none, some, arith, starts_with,
  ◌||◌, ◌<>◌,
}
use rpc_freethread.Errors.{Error, Result, ok, err, attribute_error, type_error}
use rpc_freethread.Exec.{Exec, lift, raise, raise_if, ◌>>=◌, ◌>>◌}
use rpc_freethread.Value.{Value, Items, Fields}
use rpc_freethread.Python.{Python, quoted}
use rpc_freethread.Serializer.{Serializer}
use rpc_freethread.Protocol.Socket.{Sock}
use rpc_freethread.Protocol.{write_frame}
use rpc_freethread.Registry.{RemoteRegistry, Target, get_function}
use rpc_freethread.Runtime.State.{Runtime, on_sock}
use rpc_freethread.Runtime.Invoke.{
  UserCode, Attribute, Callable, Returned, invoke_sync, close_result, checked,
}
use rpc_freethread.Runtime.Actors.{on_world, run_method, as_method, execute_actor_method}
use rpc_freethread.Runtime.Tasks.{call_function, execute_call}
use rpc_freethread.Agreement.Delivery.{sent_message}
use rpc_freethread.Agreement.Answering.{response_of, respond-answer, answer}

-- What a Python caller of a plain function has of a call: an error that was raised, or the value.
-- Only a plain value counts: what has still to be awaited or iterated over is refused, and closed
-- before that if it can be.
abbrev refuse : {U : Type 0} → UserCode U → Option ℕ → Error → U → Result Value × U
refuse user none e w = (err e, w)
refuse user (some k) e w =
    let (closed, w') = user.close k w in elim closed [ ok _ ↦ (err e, w') | err x ↦ (err x, w') ]

abbrev pub local_result : {U : Type 0} → UserCode U → Result Returned × U → Result Value × U
local_result user (err e, w) = (err e, w)
local_result user (ok (Returned.plain v), w) = (ok v, w)
local_result user (ok (Returned.awaitable k), w) =
    refuse user k (type_error "remote callable returned an awaitable") w
local_result user (ok (Returned.generator k), w) =
    refuse user k (type_error "remote callable returned a generator") w
local_result user (ok (Returned.async_generator k), w) =
    refuse user k (type_error "remote callable returned a generator") w

-- The specification of a call, in terms of user code alone: one call of the target with these
-- arguments and keyword arguments, unless it is declared `async`, which is refused uncalled.
unfoldable pub call_target : {U : Type 0} → UserCode U → Callable → Items → Fields → Exec U Value
call_target user target args kwargs w = elim target.is_coroutine_function [
  | true ↦ (err (type_error "async remote callables are not supported"), w)
  | false ↦ elim target.is_asyncgen_function [
    | true ↦ (err (type_error "async remote callables are not supported"), w)
    | false ↦ local_result user (user.call target args kwargs w)
  ]
]

module _ {U : Type 0} (user : UserCode U) where
  closing-refuse :
      (k : Option ℕ) (e : Error) (w : U)
      → (close_result user k >> raise {A = Value} e) w ≡ refuse user k e w
  closing-refuse none e w = refl
  closing-refuse (some k) e w = ground arith

  checked-local :
      (v : Result Returned) (w : U) → (lift v >>= checked user) w ≡ local_result user (v, w)
  checked-local (err e) w = refl
  checked-local (ok (Returned.plain v)) w = refl
  checked-local (ok (Returned.awaitable k)) w = closing-refuse k _ w
  checked-local (ok (Returned.generator k)) w = closing-refuse k _ w
  checked-local (ok (Returned.async_generator k)) w = closing-refuse k _ w

  guarded-local :
      (b c : Bool) (m : Exec U Returned) (w : U)
      → (raise_if (b || c) (type_error "async remote callables are not supported")
            >> (m >>= λ result. checked user result))
          w
        ≡ (elim b as (λ _. Result Value × U) [
          | true ↦ (err (type_error "async remote callables are not supported"), w)
          | false ↦ elim c as (λ _. Result Value × U) [
            | true ↦ (err (type_error "async remote callables are not supported"), w)
            | false ↦ local_result user (m w)
          ]
        ])
  guarded-local true c m w = refl
  guarded-local false true m w = refl
  guarded-local false false m w = checked-local (m w).0 (m w).1

  -- `_invoke_sync` is a call of the target.
  pub invoke_sync-local :
      (target : Callable) (args : Items) (kwargs : Fields) (w : U)
      → invoke_sync user target args kwargs w ≡ call_target user target args kwargs w
  unfolding invoke_sync call_target
  invoke_sync-local target args kwargs w =
      guarded-local target.is_coroutine_function target.is_asyncgen_function
        (user.call target args kwargs) w

module _ ⦃py : Python⦄ {U : Type 0} (user : UserCode U) where
  -- The specification: the call of a registered function by its name, where it stands.
  unfoldable pub local_call : RemoteRegistry → String → Items → Fields → Exec U Value
  local_call registry name args kwargs = do
    fn ← lift (get_function name registry)
    call_target user (user.function_of fn) args kwargs

  -- The specification: the call of what `getattr` found, if it is callable.
  abbrev pub call_found : String → Attribute → Items → Fields → Exec U Value
  call_found name (Attribute.method target) args kwargs = call_target user target args kwargs
  call_found name Attribute.not_callable args kwargs =
      raise (type_error ("actor attribute " <> (quoted name <> " is not callable")))

  -- The specification: the call of a public method of an object.
  unfoldable pub local_method : ℕ → String → Items → Fields → Exec U Value
  local_method instance_id name args kwargs = do
    raise_if (starts_with name "_")
        (attribute_error "private actor methods are not remotely callable")
    found ← user.attribute instance_id name
    call_found name found args kwargs

module _ ⦃py : Python⦄ {U : Type 0} (ser : Serializer) (user : UserCode U) where
  in_world :
      (target : Callable) (args : Items) (kwargs : Fields) (r : Runtime U)
      → on_world (invoke_sync user target args kwargs) r
        ≡ on_world (call_target user target args kwargs) r
  unfolding on_world
  in_world target args kwargs r =
      ap (λ q. (q.0, record r { world = q.1 })) (invoke_sync-local user target args kwargs r.world)

  found-local :
      (v : Result Target) (args : Items) (kwargs : Fields) (r : Runtime U)
      → (lift v >>= λ fn. on_world (invoke_sync user (user.function_of fn) args kwargs)) r
        ≡ on_world (lift v >>= λ fn. call_target user (user.function_of fn) args kwargs) r
  unfolding on_world
  found-local (ok fn) args kwargs r = in_world (user.function_of fn) args kwargs r
  found-local (err e) args kwargs r = refl

  call_function-local :
      (name : String) (args : Items) (kwargs : Fields) (r : Runtime U)
      → call_function ser user name args kwargs r
        ≡ on_world (local_call user r.registry name args kwargs) r
  unfolding call_function local_call
  call_function-local name args kwargs r = found-local (get_function name r.registry) args kwargs r

  attribute-local :
      (v : Result Attribute) (name : String) (args : Items) (kwargs : Fields) (r : Runtime U)
      → (lift v >>= λ found. lift (as_method name found) >>= λ target.
            on_world (invoke_sync user target args kwargs))
          r
        ≡ on_world (lift v >>= λ found. call_found user name found args kwargs) r
  unfolding on_world
  attribute-local (ok (Attribute.method target)) name args kwargs r = in_world target args kwargs r
  attribute-local (ok Attribute.not_callable) name args kwargs r = refl
  attribute-local (err e) name args kwargs r = refl

  public-local :
      (b : Bool) (e : Error) (i : ℕ) (name : String) (args : Items) (kwargs : Fields)
      (r : Runtime U)
      → (raise_if b e
            >> (on_world (user.attribute i name) >>= λ found.
                lift (as_method name found) >>= λ target.
                on_world (invoke_sync user target args kwargs)))
          r
        ≡ on_world
            (raise_if b e
              >> (user.attribute i name >>= λ found. call_found user name found args kwargs))
            r
  unfolding on_world
  public-local true e i name args kwargs r = refl
  public-local false e i name args kwargs r =
      let found = user.attribute i name r.world in
      attribute-local found.0 name args kwargs (record r { world = found.1 })

  run_method-local :
      (i : ℕ) (name : String) (args : Items) (kwargs : Fields) (r : Runtime U)
      → run_method ser user i name args kwargs r ≡ on_world (local_method user i name args kwargs) r
  unfolding run_method local_method
  run_method-local i name args kwargs r =
      public-local (starts_with name "_")
        (attribute_error "private actor methods are not remotely callable") i name args kwargs r

  pub execute_call-answer :
      (conn : ℕ) (id name : String) (args : Items) (kwargs : Fields) (r : Runtime U)
      → execute_call ser user conn id name args kwargs r ≡ (
          let (v, w) = local_call user r.registry name args kwargs r.world in
          answer ser conn id v (record r { world = w }))
  unfolding execute_call on_world
  execute_call-answer conn id name args kwargs r =
      respond-answer ser (call_function ser user name args kwargs) conn id r
      ∙ ap (λ q. answer ser conn id q.0 q.1) (call_function-local name args kwargs r)

  pub execute_actor_method-answer :
      (conn : ℕ) (id : String) (i : ℕ) (name : String) (args : Items) (kwargs : Fields)
      (r : Runtime U)
      → execute_actor_method ser user conn id i name args kwargs r ≡ (
          let (v, w) = local_method user i name args kwargs r.world in
          answer ser conn id v (record r { world = w }))
  unfolding execute_actor_method on_world
  execute_actor_method-answer conn id i name args kwargs r =
      respond-answer ser (run_method ser user i name args kwargs) conn id r
      ∙ ap (λ q. answer ser conn id q.0 q.1) (run_method-local i name args kwargs r)

  on_sock-world :
      {A : Type 0} (conn : ℕ) (m : Exec Sock A) (r : Runtime U)
      → (on_sock conn m r).1.world ≡ r.world
  unfolding on_sock
  on_sock-world conn m r = ground arith

  pub answer-world :
      (conn : ℕ) (id : String) (v : Result Value) (r r' : Runtime U)
      → answer ser conn id v r ≡ (ok tt, r')
      → r'.world ≡ r.world
  answer-world conn id v r r' h =
      let (p, w, _) = sent_message ser conn id (response_of id v) r r' h in
      sym (ap (λ q. q.1.world) w) ∙ on_sock-world conn (write_frame r.max_frame_size p) r
