-- ===== src/Registry/Canonical.antt =====
-- The catalog does not depend on the order in which names were registered.
use rpc_freethread.Prelude.{
  String, ◌||◌, ◌≡◌, sym, subst, [], ◌∷◌, arith, ◌⊎◌, inl, inr, Bool-cases,
}
use rpc_freethread.Prelude.Dict.{Dict, put, keys, contains, NodupKeys, put-NodupKeys}
use rpc_freethread.Registry.Sorting.{sorted, mem-sorted}
use rpc_freethread.Python.{Python}
use rpc_freethread.Registry.Names.{mem-keys}
use rpc_freethread.Registry.{
  Target, RemoteRegistry, empty_registry, is_marked, register, get_function, get_class, catalog,
}
use rpc_freethread.Registry.Ascending.{IsAscending, insert-IsAscending, only_one}

sorted-IsAscending : (d : Dict Target) → NodupKeys d → IsAscending (sorted (keys d))
unfolding sorted keys
sorted-IsAscending [] n = tt
sorted-IsAscending ((k, v) ∷ d) (fresh, n) =
    insert-IsAscending k (sorted (keys d)) (sorted-IsAscending d n)
      (ground (arith, mem-sorted k (keys d), mem-keys k d))

same_keys :
    (d e : Dict Target)
    → NodupKeys d
    → NodupKeys e
    → ((k : String) → contains k d ≡ contains k e)
    → sorted (keys d) ≡ sorted (keys e)
same_keys d e n m h =
    only_one (sorted (keys d)) (sorted (keys e)) (sorted-IsAscending d n) (sorted-IsAscending e m)
      λ k.
        ground
          (arith, mem-sorted k (keys d), mem-sorted k (keys e), mem-keys k d, mem-keys k e, h k)

module _ ⦃py : Python⦄ where
  -- The registry was made by registering targets one after another, of which some may be refused.
  pub data Registered : RemoteRegistry → Type 0 where
    empty : Registered empty_registry
    next : {r : RemoteRegistry} (t : Target) → Registered r → Registered (register t r).1

  record HasUniqueKeys (r : RemoteRegistry) : Type 0 where
    functions : NodupKeys r.functions
    classes : NodupKeys r.classes

  register-cases :
      (t : Target) (r : RemoteRegistry)
      → ((register t r).1 ≡ r)
        ⊎ (((register t r).1 ≡ record r { classes = put t.name t r.classes })
            ⊎ ((register t r).1 ≡ record r { functions = put t.name t r.functions }))
  unfolding register
  register-cases t r = elim (Bool-cases (is_marked t.marked)) [
    | inr m ↦ inl (ground arith)
    | inl m ↦ elim (Bool-cases (contains t.name r.functions || contains t.name r.classes)) [
      | inl k ↦ inl (ground arith)
      | inr k ↦ elim (Bool-cases t.is_class) [
        | inl c ↦ inr (inl (ground arith))
        | inr c ↦ inr (inr (ground arith))
      ]
    ]
  ]

  register-HasUniqueKeys :
      (t : Target) (r : RemoteRegistry) → HasUniqueKeys r → HasUniqueKeys (register t r).1
  register-HasUniqueKeys t r n = elim (register-cases t r) [
    | inl e ↦ subst HasUniqueKeys (sym e) n
    | inr (inl e) ↦
        subst HasUniqueKeys (sym e)
          (record { functions = n.functions; classes = put-NodupKeys t.name t r.classes n.classes })
    | inr (inr e) ↦
        subst HasUniqueKeys (sym e) (record {
          functions = put-NodupKeys t.name t r.functions n.functions;
          classes = n.classes;
        })
  ]

  Registered-HasUniqueKeys : (r : RemoteRegistry) → Registered r → HasUniqueKeys r
  Registered-HasUniqueKeys _ empty = record { functions = tt; classes = tt }
  Registered-HasUniqueKeys _ (next {r} t h) =
      register-HasUniqueKeys t r (Registered-HasUniqueKeys r h)

  function_contains :
      (k : String) (r r' : RemoteRegistry)
      → get_function k r ≡ get_function k r'
      → contains k r.functions ≡ contains k r'.functions
  unfolding get_function
  function_contains k r r' h = ground arith

  class_contains :
      (k : String) (r r' : RemoteRegistry)
      → get_class k r ≡ get_class k r'
      → contains k r.classes ≡ contains k r'.classes
  unfolding get_class
  class_contains k r r' h = ground arith

  -- The catalog depends on what lookups find alone: two registries that were filled in whatever
  -- orders, with refused registrations in between, send the same catalog, in the same order, if every
  -- lookup of a function and of a class gives the same in both.
  pub catalog_canonical :
      (r r' : RemoteRegistry)
      → Registered r
      → Registered r'
      → ((k : String) → get_function k r ≡ get_function k r')
      → ((k : String) → get_class k r ≡ get_class k r')
      → catalog r ≡ catalog r'
  unfolding catalog
  catalog_canonical r r' g g' f c =
      let n = Registered-HasUniqueKeys r g in
      let n' = Registered-HasUniqueKeys r' g' in
      let a =
        same_keys r.functions r'.functions n.functions n'.functions
          (λ k. function_contains k r r' (f k)) in
      let b =
        same_keys r.classes r'.classes n.classes n'.classes (λ k. class_contains k r r' (c k)) in
      cc
