-- ===== src/Registry.antt =====
-- registry.py: the tables of remote functions and actor classes. The lock makes each method one
-- step; the process-wide `REMOTE_REGISTRY` is a `RemoteRegistry` that the callers pass on.
pub mod Sorting
pub mod Order
pub mod Ascending
pub mod Canonical
pub mod Names
pub mod Tests
mod OrderTests
use Sorting.{sorted}
use rpc_freethread.Prelude.{
  ℕ, String, ◌<>◌, Bool, true, false, not, ◌||◌, Option, none, some, List, [],
}
use rpc_freethread.Prelude.Dict.{Dict, get, put, contains, keys}
use rpc_freethread.Errors.{
  Error, Result, ok, err, function_not_remote_error, duplicate_function_error,
  function_not_found_error, remote_class_not_found_error,
}
use rpc_freethread.Exec.{Exec, pure, gets, lift, raise_if, modify, ◌>>=◌, ◌>>◌}
use rpc_freethread.Value.{Value, boolean, text}
use rpc_freethread.Python.{Python, quoted}

-- A Python callable: its `__name__`, its attribute `__remote__` if it has one, whether it is a
-- class, and which object it is.
pub record Target : Type 0 where
  pub name : String
  pub marked : Option Value
  pub is_class : Bool
  pub identity : ℕ

-- `getattr(target, "__remote__", False) is True`
abbrev pub is_marked : Option Value → Bool
is_marked (some (boolean true)) = true
is_marked _ = false

pub record FunctionRegistry : Type 0 where
  pub functions : Dict Target

pub record RemoteRegistry : Type 0 where
  pub functions : Dict Target
  pub classes : Dict Target

abbrev pub empty_registry : RemoteRegistry
empty_registry = record { functions = []; classes = [] }

-- `REMOTE_REGISTRY`, as the module makes it
abbrev pub remote_registry : RemoteRegistry
remote_registry = empty_registry

abbrev pub or_raise {ℓ} : {A : Type ℓ} → Option A → Error → Result A
or_raise none e = err e
or_raise (some a) e = ok a

abbrev name_or : Option String → String → String
name_or none own = own
name_or (some name) own = name

-- `self._classes[name] = target`, or the same in `_functions`
abbrev store : Target → RemoteRegistry → RemoteRegistry
store t r = elim t.is_class [
  | true ↦ record r { classes = put t.name t r.classes }
  | false ↦ record r { functions = put t.name t r.functions }
]

module _ ⦃py : Python⦄ where
  abbrev pub not_registered : String → Error
  not_registered name =
      function_not_found_error ("function name " <> (quoted name <> " is not registered"))

  abbrev pub class_not_registered : String → Error
  class_not_registered name =
      remote_class_not_found_error ("remote class name " <> (quoted name <> " is not registered"))

  abbrev pub not_marked : String → Error
  not_marked name =
      function_not_remote_error ("target " <> (quoted name <> " is not marked with @remote"))

  abbrev pub duplicate_name : String → Error
  duplicate_name name =
      duplicate_function_error ("remote name " <> (quoted name <> " is already registered"))

  -- `FunctionRegistry.register`
  unfoldable pub register_function : Target → Option String → Exec FunctionRegistry Target
  register_function fn name = do
    let function_name = name_or name fn.name
    raise_if (not (is_marked fn.marked)) (
        function_not_remote_error
          ("function " <> (quoted fn.name <> " is not marked with @remote")))
    known ← gets (λ r. contains function_name r.functions)
    raise_if known (
        duplicate_function_error
          ("function name " <> (quoted function_name <> " is already registered")))
    modify (λ r. record r { functions = put function_name fn r.functions })
    pure fn

  -- `FunctionRegistry.get`
  unfoldable pub get_registered : String → FunctionRegistry → Result Target
  get_registered name r = or_raise (get name r.functions) (not_registered name)

  -- `RemoteRegistry.register`
  unfoldable pub register : Target → Exec RemoteRegistry Target
  register target = do
    raise_if (not (is_marked target.marked)) (not_marked target.name)
    known ← gets (λ r. contains target.name r.functions || contains target.name r.classes)
    raise_if known (duplicate_name target.name)
    modify (store target)
    pure target

  -- `remote`: marks the target, then registers it. The mark stays also when registering raises.
  unfoldable pub remote : Target → Exec RemoteRegistry Target
  unfolding register
  remote fn = register (record fn { marked = some (boolean true) })

  unfoldable pub get_function : String → RemoteRegistry → Result Target
  get_function name r = or_raise (get name r.functions) (not_registered name)

  unfoldable pub get_class : String → RemoteRegistry → Result Target
  get_class name r = or_raise (get name r.classes) (class_not_registered name)

-- `FunctionRegistry.list_functions`
unfoldable pub list_functions : FunctionRegistry → List String
list_functions r = sorted (keys r.functions)

-- `RemoteRegistry.catalog`
unfoldable pub catalog : RemoteRegistry → List String × List String
catalog r = (sorted (keys r.functions), sorted (keys r.classes))
