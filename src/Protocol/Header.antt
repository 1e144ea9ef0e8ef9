-- ===== src/Protocol/Header.antt =====
-- `struct.pack(">I", n)` and `struct.unpack(">I", header)`, and numbers in messages.
use rpc_freethread.Prelude.{
  ℕ, zero, suc, ◌+◌, ◌*◌, ◌/◌, ◌%◌, ◌^◌, ◌<◌, ◌≤◌, ◌≡◌, refl, String, ◌<>◌, List, [], ◌∷◌, arith,
  ltb, ◌==◌, if◌then◌else◌, length, true, false,
}
use rpc_freethread.Errors.{Result, ok, err, struct_error}

abbrev digit : ℕ → String
digit d =
    if d == 0
    then "0"
    else if d == 1
    then "1"
    else if d == 2
    then "2"
    else if d == 3
    then "3"
    else if d == 4
    then "4"
    else if d == 5
    then "5"
    else if d == 6
    then "6"
    else if d == 7
    then "7"
    else if d == 8
    then "8"
    else "9"

decimal_loop : ℕ → ℕ → String → String
decimal_loop zero n out = out
decimal_loop (suc fuel) n out = elim (ltb n 10) [
  | true ↦ digit n <> out
  | false ↦ decimal_loop fuel (n / 10) (digit (n % 10) <> out)
]

-- A number in an f-string. A number has fewer digits than its successor has units.
unfoldable pub decimal : ℕ → String
unfolding decimal_loop
decimal n = decimal_loop (suc n) n ""

-- Four bytes, the highest first. `pack` raises on a number that does not fit.
unfoldable pub pack_header : ℕ → Result (List ℕ)
pack_header n =
    if ltb n (2 ^ 32)
    then ok (n / 2 ^ 24 ∷ n / 2 ^ 16 % 256 ∷ n / 2 ^ 8 % 256 ∷ n % 256 ∷ [])
    else err (struct_error "'I' format requires 0 <= number <= 4294967295")

-- `unpack` of a header of any other length is never reached, since four bytes were read.
unfoldable pub unpack_header : List ℕ → ℕ
unpack_header (a ∷ b ∷ c ∷ d ∷ []) = a * 2 ^ 24 + b * 2 ^ 16 + c * 2 ^ 8 + d
unpack_header _ = 0

pub unpack_pack :
    (n : ℕ)
    → n < 2 ^ 32
    → (h : List ℕ) × (pack_header n ≡ ok h) × (length h ≡ 4) × (unpack_header h ≡ n)
unfolding pack_header unpack_header
unpack_pack n h = (
  n / 2 ^ 24 ∷ n / 2 ^ 16 % 256 ∷ n / 2 ^ 8 % 256 ∷ n % 256 ∷ [],
  ground arith,
  refl,
  omega arith,
)

pub pack_header_large :
    (n : ℕ)
    → 2 ^ 32 ≤ n
    → pack_header n ≡ err (struct_error "'I' format requires 0 <= number <= 4294967295")
unfolding pack_header
pack_header_large n h = ground arith
