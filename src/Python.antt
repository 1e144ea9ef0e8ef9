-- ===== src/Python.antt =====
-- What the interpreter supplies: how `repr` and `str` render a value, which the code puts into
-- messages and never reads back.
use rpc_freethread.Prelude.{String}
use rpc_freethread.Value.{Value, text}

pub record Python : Type 0 where
  pub repr : Value → String
  pub render : Value → String

module _ ⦃py : Python⦄ where
  -- `{name!r}` of a string
  abbrev pub quoted : String → String
  quoted s = py.repr (text s)

  -- `str(x)`: a string is itself.
  abbrev pub str_of : Value → String
  str_of (text s) = s
  str_of v = py.render v

-- An interpreter for tests: it renders every value as the empty text.
instance abbrev pub plain : Python
plain = record { repr = λ _. ""; render = λ _. "" }
