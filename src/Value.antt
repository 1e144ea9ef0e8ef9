-- ===== src/Value.antt =====
-- The Python values that travel in messages, and the tests that the code makes on them.
use rpc_freethread.Prelude.{
  ℕ, String, Bool, false, Option, none, some, List, [], ◌∷◌, str_eq, if◌then◌else◌, ◌≡◌, refl,
  arith, eq_iff,
}

-- `number` stands for an int, `thing` for an object of any class that is not listed here. A dict
-- entry whose key is no string is never looked up by the code, and is left out.
mutual
  pub data Value : Type 0 where
    nothing : Value
    boolean : Bool → Value
    number : ℕ → Value
    text : String → Value
    sequence : Items → Value
    tuple : Items → Value
    mapping : Fields → Value
    thing : ℕ → Value

  pub data Fields : Type 0 where
    end : Fields
    field : String → Value → Fields → Fields

  pub data Items : Type 0 where
    nil : Items
    cons : Value → Items → Items

-- `d.get(key)`, with `none` for a missing key.
unfoldable pub lookup : String → Fields → Option Value
lookup k end = none
lookup k (field j v fs) = if str_eq j k then some v else lookup k fs

-- `d.get(key)`: a missing key reads as `None`.
abbrev pub field_or : Value → String → Fields → Value
field_or d k fs = elim (lookup k fs) [ none ↦ d | some v ↦ v ]

-- `x == "literal"`: only a string equals a string.
abbrev pub is_text : String → Value → Bool
is_text s (text t) = str_eq t s
is_text s _ = false

-- `isinstance(x, str)`
abbrev pub as_string : Value → Option String
as_string (text s) = some s
as_string _ = none

unfoldable pub from_strings : List String → Items
from_strings [] = nil
from_strings (s ∷ ss) = cons (text s) (from_strings ss)

-- `all(isinstance(x, str) for x in items)`, with the strings
unfoldable pub to_strings : Items → Option (List String)
to_strings nil = some []
to_strings (cons (text s) xs) = elim (to_strings xs) [ none ↦ none | some ss ↦ some (s ∷ ss) ]
to_strings (cons _ xs) = none

-- `{**d, key: v}`
unfoldable pub put_field : String → Value → Fields → Fields
put_field k v end = field k v end
put_field k v (field j w fs) = if str_eq j k then field j v fs else field j w (put_field k v fs)

pub lookup-put_field :
    (k j : String) (v : Value) (fs : Fields)
    → lookup j (put_field k v fs) ≡ (if str_eq k j then some v else lookup j fs)
unfolding lookup put_field
lookup-put_field k j v end = refl
lookup-put_field k j v (field i w fs) =
    ground (arith, eq_iff k j, eq_iff i k, eq_iff i j, lookup-put_field k j v fs)
