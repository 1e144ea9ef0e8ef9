-- ===== src/Serializer.antt =====
-- serializer.py: the interface, and the wrapper over `pickle`, whose two functions are parameters.
use rpc_freethread.Prelude.{ℕ, ◌<>◌, List}
use rpc_freethread.Errors.{Result, ok, err, serialization_error, text_of}
use rpc_freethread.Value.{Value}

pub record Serializer : Type 0 where
  pub dumps : Value → Result (List ℕ)
  pub loads : List ℕ → Result Value

module _ (pickle_dumps : ℕ → Value → Result (List ℕ)) (pickle_loads : List ℕ → Result Value) where
  -- The `except Exception` of `dumps`, and of `loads`, with the text that each puts in front.
  abbrev failed_to_serialize : Result (List ℕ) → Result (List ℕ)
  failed_to_serialize (ok payload) = ok payload
  failed_to_serialize (err e) =
      err (serialization_error ("failed to serialize value: " <> text_of e))

  abbrev failed_to_deserialize : Result Value → Result Value
  failed_to_deserialize (ok v) = ok v
  failed_to_deserialize (err e) =
      err (serialization_error ("failed to deserialize payload: " <> text_of e))

  unfoldable pub pickle_serializer : ℕ → Serializer
  pickle_serializer protocol = record {
    dumps = λ v. failed_to_serialize (pickle_dumps protocol v);
    loads = λ payload. failed_to_deserialize (pickle_loads payload);
  }
