-- ===== src/Registry/Tests.antt =====
-- registry.py on concrete registries.
use rpc_freethread.Prelude.{◌≡◌, ◌≢◌, ◌↔◌, refl, true, false, none, some, inl, inr}
use rpc_freethread.Prelude.Dict.{get, put}
use rpc_freethread.Errors.{ok, err}
use rpc_freethread.Value.{boolean}
use rpc_freethread.Python.{plain}
use rpc_freethread.Registry.{
  Target, RemoteRegistry, empty_registry, register, get_function, get_class, catalog,
  duplicate_name,
}
use rpc_freethread.Registry.Sorting.{mem}
use rpc_freethread.Registry.Names.{
  IsValid, register-IsValid, register_free, register_refused, catalog_names,
}

abbrev pub add_function : Target
add_function = record { name = "add"; marked = some (boolean true); is_class = false; identity = 1 }

abbrev pub counter_class : Target
counter_class = record {
  name = "Counter";
  marked = some (boolean true);
  is_class = true;
  identity = 2;
}

-- A class with the function's name.
abbrev add_class : Target
add_class = record { name = "add"; marked = some (boolean true); is_class = true; identity = 3 }

pub empty-IsValid : IsValid empty_registry
unfolding get
empty-IsValid = record {
  disjoint = λ k. inl refl;
  named_functions = λ k t e. absurd cc;
  named_classes = λ k t e. absurd cc;
}

abbrev pub with_function : RemoteRegistry
with_function = (register add_function empty_registry).1

abbrev pub with_both : RemoteRegistry
with_both = (register counter_class with_function).1

register-IsValid_example : IsValid with_function
register-IsValid_example = register-IsValid add_function empty_registry empty-IsValid

pub with_both-IsValid : IsValid with_both
with_both-IsValid =
    register-IsValid counter_class with_function
      (register-IsValid add_function empty_registry empty-IsValid)

register_free_example :
    let (result, r') = register add_function empty_registry in
    (result ≡ ok add_function)
    × (get_function "add" r' ≡ ok add_function)
    × (get_class "add" r' ≡ get_class "add" empty_registry)
unfolding get
register_free_example = register_free add_function empty_registry "add" refl refl refl

taken : get "add" with_function.functions ≢ none
unfolding get register put
taken h = cc

register_refused_example :
    register add_class with_function ≡ (err (duplicate_name "add"), with_function)
register_refused_example = register_refused add_class with_function (inr (inl taken))

catalog_names_example :
    ((mem "add" (catalog with_both).0 ≡ true)
      ↔ ((t : Target) × (get_function "add" with_both ≡ ok t)))
    × ((mem "add" (catalog with_both).1 ≡ true)
        ↔ ((t : Target) × (get_class "add" with_both ≡ ok t)))
catalog_names_example = catalog_names with_both "add"
