-- ===== src/Runtime/Invoke.antt =====
-- The objects that the program does not implement, remote functions and actor classes, and
-- `_invoke_sync`, which calls them.
use rpc_freethread.Prelude.{ℕ, String, Bool, ◌||◌, Option, none, some}
use rpc_freethread.Errors.{type_error}
use rpc_freethread.Exec.{Exec, pure, raise, raise_if, ◌>>=◌, ◌>>◌}
use rpc_freethread.Value.{Value, Items, Fields}
use rpc_freethread.Registry.{Target}

-- A bound method or a function, as `inspect` sees it.
pub record Callable : Type 0 where
  pub identity : ℕ
  pub is_coroutine_function : Bool
  pub is_asyncgen_function : Bool

-- What a call returned, in the order of the tests; `closer` is its attribute `close`, if any.
pub data Returned : Type 0 where
  plain : Value → Returned
  awaitable : (closer : Option ℕ) → Returned
  generator : (closer : Option ℕ) → Returned
  async_generator : (closer : Option ℕ) → Returned

-- The attribute of an instance that `getattr` finds.
pub data Attribute : Type 0 where
  method : Callable → Attribute
  not_callable : Attribute

-- User code over a state `U` that it may change. Every call may raise.
pub record UserCode (U : Type 0) : Type 0 where
  pub function_of : Target → Callable
  pub call : Callable → Items → Fields → Exec U Returned
  pub construct : Target → Items → Fields → Exec U ℕ
  pub attribute : ℕ → String → Exec U Attribute
  pub close : ℕ → Exec U (Unit {0})

module _ {U : Type 0} (user : UserCode U) where
  -- `close = getattr(result, "close", None)`, called if there is one
  abbrev pub close_result : Option ℕ → Exec U (Unit {0})
  close_result none = pure tt
  close_result (some k) = user.close k

  abbrev pub checked : Returned → Exec U Value
  checked (plain v) = pure v
  checked (awaitable k) = do
    close_result k
    raise (type_error "remote callable returned an awaitable")
  checked (generator k) = do
    close_result k
    raise (type_error "remote callable returned a generator")
  checked (async_generator k) = do
    close_result k
    raise (type_error "remote callable returned a generator")

  -- `_invoke_sync`
  unfoldable pub invoke_sync : Callable → Items → Fields → Exec U Value
  invoke_sync target args kwargs = do
    raise_if (target.is_coroutine_function || target.is_asyncgen_function)
        (type_error "async remote callables are not supported")
    result ← user.call target args kwargs
    checked result
