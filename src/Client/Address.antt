-- ===== src/Client/Address.antt =====
-- `_parse_address`: "host:port" into its parts.
use Prim.Native.Char.{Char, code}
use Prim.Native.String.{String, [], ◌∷◌}
use rpc_freethread.Prelude.{
  ℕ, zero, suc, ◌+◌, ◌-◌, ◌*◌, ◌<>◌, Bool, true, false, ◌&&◌, ◌||◌, Option, none, some, ◌==◌, leb,
  if◌then◌else◌,
}
use rpc_freethread.Errors.{Result, ok, err, value_error}
use rpc_freethread.Python.{Python, quoted}

abbrev pub is_colon : Char → Bool
is_colon c = code c == 58

-- `address.rpartition(":")`: what stands before and after the last colon, if there is one.
unfoldable pub rpartition : String → Option (String × String)
rpartition [] = none
rpartition (c ∷ s) =
    let rest = rpartition s in
    elim rest [
      | some (host, port) ↦ some (c ∷ host, port)
      | none ↦ if is_colon c then some ([], s) else none
    ]

abbrev pub is_empty : String → Bool
is_empty [] = true
is_empty (_ ∷ _) = false

-- An int: `pos n` is n, and `negsuc n` is -(n + 1).
pub data ℤ : Type 0 where
  pos negsuc : ℕ → ℤ

abbrev neg : ℕ → ℤ
neg zero = pos zero
neg (suc n) = negsuc n

-- The white space that `int` passes over, as far as it is ASCII.
abbrev is_space : Char → Bool
is_space c = (leb 9 (code c) && leb (code c) 13) || ((leb 28 (code c) && leb (code c) 32))

abbrev is_digit : Char → Bool
is_digit c = leb 48 (code c) && leb (code c) 57

abbrev all_space : String → Bool
all_space [] = true
all_space (c ∷ s) = let rest = all_space s in is_space c && rest

-- The digits from here on, `n` being the value of those before: single underscores may stand
-- between digits, and white space after the last.
unfoldable digits : Bool → ℕ → String → Option ℕ
digits after_digit n [] = if after_digit then some n else none
digits after_digit n (c ∷ s) =
    let more = digits true (n * 10 + (code c - 48)) s in
    let skipped = digits false n s in
    if is_digit c
    then more
    else if after_digit && code c == 95
    then skipped
    else if after_digit && all_space (c ∷ s)
    then some n
    else none

abbrev signed : Bool → Option ℕ → Option ℤ
signed negative none = none
signed negative (some n) = if negative then some (neg n) else some (pos n)

-- `int(text)` on ASCII text, with `none` for its `ValueError`.
unfoldable pub int_of : String → Option ℤ
unfolding digits
int_of [] = none
int_of (c ∷ s) =
    let skipped = int_of s in
    if is_space c
    then skipped
    else if code c == 45
    then signed true (digits false 0 s)
    else if code c == 43
    then signed false (digits false 0 s)
    else signed false (digits false 0 (c ∷ s))

module _ ⦃py : Python⦄ where
  -- `try: port = int(port_text)` and its `except`
  abbrev pub with_port : String → String → Result (String × ℤ)
  with_port host port = elim (int_of port) [
    | none ↦ err (value_error ("invalid port " <> quoted port))
    | some n ↦ ok (host, n)
  ]

  -- `_parse_address`
  unfoldable pub parse_address : String → Result (String × ℤ)
  unfolding rpartition int_of
  parse_address address = elim (rpartition address) [
    | none ↦ err (value_error "address must be in 'host:port' form")
    | some (host, port) ↦
        if is_empty host || is_empty port
        then err (value_error "address must be in 'host:port' form")
        else with_port host port
  ]
