-- ===== src/Client/Addresses.antt =====
-- Which addresses `_parse_address` takes apart, and how.
use Prim.Native.Char.{char}
use Prim.Native.String.{String, [], ◌∷◌}
use text.Mathlib.TextLemmas.{nil-append, cons-append}
use rpc_freethread.Prelude.{
  ◌<>◌, Bool, false, ◌≡◌, refl, ap, ◌∙◌, ◌||◌, none, some, arith, if◌then◌else◌,
}
use rpc_freethread.Errors.{err, value_error}
use rpc_freethread.Python.{Python}
use rpc_freethread.Client.Address.{is_colon, is_empty, rpartition, with_port, parse_address}

-- No colon stands in the text.
abbrev pub has_colon : String → Bool
has_colon [] = false
has_colon (c ∷ s) = let rest = has_colon s in is_colon c || rest

rpartition-none : (s : String) → has_colon s ≡ false → rpartition s ≡ none
unfolding rpartition
rpartition-none [] h = refl
rpartition-none (c ∷ s) h = ground (arith, rpartition-none s)

colon-append : (port : String) → ":" <> port ≡ char 58 tt ∷ port
colon-append port = cons-append (char 58 tt) [] port ∙ ap (◌∷◌ (char 58 tt)) (nil-append port)

rpartition-append :
    (host port : String)
    → has_colon port ≡ false
    → rpartition (host <> (":" <> port)) ≡ some (host, port)
unfolding rpartition
rpartition-append [] port h =
    rw (nil-append (":" <> port), colon-append port) (ground (arith, rpartition-none port h))
rpartition-append (c ∷ host) port h =
    rw (cons-append c host (":" <> port)) (ground (arith, rpartition-append host port h))

module _ ⦃py : Python⦄ where
  -- An address is cut at its last colon, so a host may have colons of its own: any host, a colon and
  -- a port without a colon gives that host and the number of that port, or the error of a port that
  -- is no number; an empty host or port is refused, and so is a text without a colon.
  pub address_parts :
      (host port : String)
      → has_colon port ≡ false
      → (parse_address (host <> (":" <> port)) ≡ (
          if is_empty host || is_empty port
          then err (value_error "address must be in 'host:port' form")
          else with_port host port))
        × (parse_address port ≡ err (value_error "address must be in 'host:port' form"))
  unfolding parse_address
  address_parts host port h =
      (ground (arith, rpartition-append host port h), ground (arith, rpartition-none port h))
