-- ===== src/Client/Catalog.antt =====
-- `_parse_catalog`: the checks on the first message of the server.
use rpc_freethread.Prelude.{
  String, Bool, false, not, ◌||◌, Option, none, some, List, [], ◌∷◌, if◌then◌else◌,
}
use rpc_freethread.Errors.{Result, ok, err, protocol_error, guard, ◌>>=◌, ◌>>◌, Error}
use rpc_freethread.Value.{
  Value, sequence, tuple, mapping, Fields, field_or, nothing, is_text, to_strings,
}
use rpc_freethread.Registry.Sorting.{mem}

-- A list or a tuple of strings, or nothing else.
abbrev pub string_sequence : Value → Option (List String)
string_sequence (sequence xs) = to_strings xs
string_sequence (tuple xs) = to_strings xs
string_sequence _ = none

-- `set(a).intersection(b)` is not empty.
unfoldable pub intersects : List String → List String → Bool
intersects [] b = false
intersects (x ∷ xs) b = mem x b || intersects xs b

abbrev or_fail : Option (List String) → Error → Result (List String)
or_fail none e = err e
or_fail (some l) e = ok l

-- `isinstance(message, dict)`
abbrev as_catalog : Value → Result Fields
as_catalog (mapping fs) =
    if is_text "catalog" (field_or nothing "type" fs)
    then ok fs
    else err (protocol_error "server did not send a valid remote catalog")
as_catalog _ = err (protocol_error "server did not send a valid remote catalog")

-- The names of the actor classes. A `frozenset` is read only by `in`, so a list stands for it.
unfoldable pub parse_catalog : Value → Result (List String)
parse_catalog message = do
  fs ← as_catalog message
  functions ←
      or_fail (string_sequence (field_or nothing "functions" fs))
        (protocol_error "catalog functions must be a sequence of strings")
  actors ←
      or_fail (string_sequence (field_or nothing "actors" fs))
        (protocol_error "catalog actors must be a sequence of strings")
  guard (not (intersects functions actors))
      (protocol_error "catalog names cannot be both functions and actors")
  ok actors
