-- ===== src/Errors.antt =====
-- errors.py: the exceptions of the package, and those of Python that its code raises or catches.
use rpc_freethread.Prelude.{String, ◌<>◌, Bool, true, false, ◌≡◌, refl, ◌⊎◌, inl, inr}

-- An exception object: its class and its message. `other` is any class that the code does not
-- name, with its class name and its text.
pub data Error : Type 0 where
  rpc_error serialization_error protocol_error connection_closed_error : String → Error
  registry_error function_not_remote_error duplicate_function_error : String → Error
  function_not_found_error remote_class_not_found_error : String → Error
  actor_not_found_error actor_ownership_error : String → Error
  remote_error : (error_type message : String) → Error
  value_error type_error attribute_error runtime_error timeout_error os_error : String → Error
  struct_error : String → Error
  other : (class_name text : String) → Error

-- `type(exc).__name__`
unfoldable pub type_name : Error → String
type_name (rpc_error _) = "RpcError"
type_name (serialization_error _) = "SerializationError"
type_name (protocol_error _) = "ProtocolError"
type_name (connection_closed_error _) = "ConnectionClosedError"
type_name (registry_error _) = "RegistryError"
type_name (function_not_remote_error _) = "FunctionNotRemoteError"
type_name (duplicate_function_error _) = "DuplicateFunctionError"
type_name (function_not_found_error _) = "FunctionNotFoundError"
type_name (remote_class_not_found_error _) = "RemoteClassNotFoundError"
type_name (actor_not_found_error _) = "ActorNotFoundError"
type_name (actor_ownership_error _) = "ActorOwnershipError"
type_name (remote_error _ _) = "RemoteError"
type_name (value_error _) = "ValueError"
type_name (type_error _) = "TypeError"
type_name (attribute_error _) = "AttributeError"
type_name (runtime_error _) = "RuntimeError"
type_name (timeout_error _) = "TimeoutError"
type_name (os_error _) = "OSError"
type_name (struct_error _) = "error"
type_name (other n _) = n

-- `str(exc)`; a `RemoteError` writes its type before its message.
unfoldable pub text_of : Error → String
text_of (remote_error t m) = t <> (": " <> m)
text_of (rpc_error m) = m
text_of (serialization_error m) = m
text_of (protocol_error m) = m
text_of (connection_closed_error m) = m
text_of (registry_error m) = m
text_of (function_not_remote_error m) = m
text_of (duplicate_function_error m) = m
text_of (function_not_found_error m) = m
text_of (remote_class_not_found_error m) = m
text_of (actor_not_found_error m) = m
text_of (actor_ownership_error m) = m
text_of (value_error m) = m
text_of (type_error m) = m
text_of (attribute_error m) = m
text_of (runtime_error m) = m
text_of (timeout_error m) = m
text_of (os_error m) = m
text_of (struct_error m) = m
text_of (other _ m) = m

-- A call of Python code that may raise.
pub data Result {ℓ} (A : Type ℓ) : Type ℓ where
  ok : A → Result A
  err : Error → Result A

infixl 5 ◌>>=◌ ◌>>◌
-- The rest of a block, which is not run after a raise.
abbrev pub ◌>>=◌ {ℓ κ} : {A : Type ℓ} {B : Type κ} → Result A → (A → Result B) → Result B
◌>>=◌ call rest = elim call [ err e ↦ err e | ok value ↦ rest value ]

abbrev pub ◌>>◌ {κ} : {B : Type κ} → Result (Unit {0}) → Result B → Result B
◌>>◌ check rest = elim check [ err e ↦ err e | ok _ ↦ rest ]

-- `if not test: raise e`
abbrev pub guard : Bool → Error → Result (Unit {0})
guard true e = ok tt
guard false e = err e

pub Result-cases :
    {A : Type 0} (r : Result A) → ((a : A) × (r ≡ ok a)) ⊎ ((e : Error) × (r ≡ err e))
Result-cases (ok a) = inl (a, refl)
Result-cases (err e) = inr (e, refl)
