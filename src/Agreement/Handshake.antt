-- ===== src/Agreement/Handshake.antt =====
-- The first message of a connection: `_send_catalog` of the server, `_parse_catalog` of the client.
use rpc_freethread.Prelude.{String, true, false, ◌≡◌, refl, some, List, [], ◌∷◌, arith, eq_refl}
use rpc_freethread.Prelude.Dict.{keys}
use rpc_freethread.Errors.{ok}
use rpc_freethread.Value.{from_strings, to_strings, lookup}
use rpc_freethread.Registry.{RemoteRegistry, catalog}
use rpc_freethread.Registry.Sorting.{mem, mem-sorted}
use rpc_freethread.Registry.Names.{IsValid, mem-keys}
use rpc_freethread.Runtime.Lifecycle.{catalog_message}
use rpc_freethread.Client.Catalog.{intersects, parse_catalog}

to_strings-from_strings : (l : List String) → to_strings (from_strings l) ≡ some l
unfolding to_strings from_strings
to_strings-from_strings [] = refl
to_strings-from_strings (s ∷ l) = ground (arith, to_strings-from_strings l)

disjoint-intersects :
    (a b : List String) → ((k : String) → mem k a ≡ true → mem k b ≡ false) → intersects a b ≡ false
unfolding intersects mem
disjoint-intersects [] b h = refl
disjoint-intersects (x ∷ xs) b h =
    ground (arith, h x, eq_refl x, disjoint-intersects xs b (λ k m. let f = h k in ground arith))

catalog-disjoint :
    (r : RemoteRegistry)
    → IsValid r
    → (k : String) → mem k (catalog r).0 ≡ true
    → mem k (catalog r).1 ≡ false
unfolding catalog
catalog-disjoint r v k h = ground (
  arith,
  v.disjoint k,
  mem-sorted k (keys r.functions),
  mem-sorted k (keys r.classes),
  mem-keys k r.functions,
  mem-keys k r.classes,
)

-- A client accepts the catalog that the runtime of a registry sends when the registry's functions
-- and classes have different names, and reads from it exactly the names of the actor classes.
pub catalog_accepted :
    (r : RemoteRegistry)
    → IsValid r
    → parse_catalog (catalog_message (catalog r).0 (catalog r).1) ≡ ok (catalog r).1
unfolding parse_catalog lookup
catalog_accepted r v = ground (
  arith,
  to_strings-from_strings (catalog r).0,
  to_strings-from_strings (catalog r).1,
  disjoint-intersects (catalog r).0 (catalog r).1 (catalog-disjoint r v),
)
