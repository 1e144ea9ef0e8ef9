-- ===== src/Registry/OrderTests.antt =====
-- Two functions, registered in either order.
use rpc_freethread.Prelude.{String, ◌≡◌, ◌≢◌, refl, str_eq, true, arith, eq_iff}
use rpc_freethread.Prelude.Dict.{get, put}
use rpc_freethread.Python.{plain}
use rpc_freethread.Registry.{
  Target, RemoteRegistry, empty_registry, register, get_function, get_class, catalog,
}
use rpc_freethread.Registry.Canonical.{empty, next, catalog_canonical}
use rpc_freethread.Registry.Tests.{add_function, with_function}

abbrev sub_function : Target
sub_function = record add_function { name = "sub"; identity = 4 }

abbrev forwards : RemoteRegistry
forwards = (register sub_function with_function).1

abbrev backwards : RemoteRegistry
backwards = (register add_function (register sub_function empty_registry).1).1

different : ◌≢◌ {A = String} "add" "sub"
different p = absurd (let e : str_eq "add" "sub" ≡ true = (eq_iff "add" "sub").1 p in cc)

same_functions : (k : String) → get_function k forwards ≡ get_function k backwards
unfolding get_function register get put
same_functions k = ground (arith, eq_iff "add" k, eq_iff "sub" k, different)

same_classes : (k : String) → get_class k forwards ≡ get_class k backwards
unfolding get_class register get put
same_classes k = refl

catalog_canonical_example : catalog forwards ≡ catalog backwards
catalog_canonical_example =
    catalog_canonical forwards backwards (next sub_function (next add_function empty))
      (next add_function (next sub_function empty)) same_functions same_classes
