-- ===== src/Registry/Names.antt =====
-- Which names a registry holds, and what registering changes.
use rpc_freethread.Prelude.{
  String, true, false, not, ◌&&◌, ◌≡◌, ◌≢◌, ◌↔◌, refl, inl, inr, ◌⊎◌, none, some, [], ◌∷◌, arith,
  str_eq, eq_iff, if◌then◌else◌, Option-cases,
}
use rpc_freethread.Prelude.Dict.{Dict, get, contains, keys, get-put}
use rpc_freethread.Errors.{Error, ok, err}
use rpc_freethread.Python.{Python}
use rpc_freethread.Registry.Sorting.{sorted, mem, mem-sorted}
use rpc_freethread.Registry.{
  Target, RemoteRegistry, is_marked, register, get_function, get_class, duplicate_name, not_marked,
  not_registered, class_not_registered, or_raise, catalog,
}

-- Functions and classes have different names, and stand under their own names.
pub record IsValid (r : RemoteRegistry) : Type 0 where
  pub disjoint : (k : String) → (get k r.functions ≡ none) ⊎ (get k r.classes ≡ none)
  pub named_functions :
      (k : String) (t : Target) → get k r.functions ≡ some t → (t.name ≡ k) × (t.is_class ≡ false)
  pub named_classes :
      (k : String) (t : Target) → get k r.classes ≡ some t → (t.name ≡ k) × (t.is_class ≡ true)

pub mem-keys : (k : String) (d : Dict Target) → mem k (keys d) ≡ contains k d
unfolding mem keys get
mem-keys k [] = refl
mem-keys k ((j, v) ∷ d) = ground (arith, mem-keys k d)

module _ ⦃py : Python⦄ where
  -- Every call of `RemoteRegistry.register`, whether it raises or not, keeps functions and classes
  -- under different names, each under its own `__name__` and in the table of its kind.
  pub register-IsValid : (t : Target) (r : RemoteRegistry) → IsValid r → IsValid (register t r).1
  unfolding register
  register-IsValid t r v = record {
    disjoint = λ k. ground (
      arith,
      v.disjoint k,
      v.disjoint t.name,
      get-put t.name k t r.functions,
      get-put t.name k t r.classes,
      eq_iff t.name k,
    );
    named_functions = λ k u e.
        ground (arith, v.named_functions k u, get-put t.name k t r.functions, eq_iff t.name k);
    named_classes =
        λ k u e. ground (arith, v.named_classes k u, get-put t.name k t r.classes, eq_iff t.name k);
  }

  -- A target that is marked and whose name is free is stored: lookups of its name in the table of
  -- its kind find it, and every other lookup is as before.
  pub register_free :
      (t : Target) (r : RemoteRegistry) (k : String)
      → is_marked t.marked ≡ true
      → get t.name r.functions ≡ none
      → get t.name r.classes ≡ none
      → let (result, r') = register t r in
        (result ≡ ok t)
        × (get_function k r'
            ≡ (if str_eq t.name k && not t.is_class then ok t else get_function k r))
        × (get_class k r' ≡ (if str_eq t.name k && t.is_class then ok t else get_class k r))
  unfolding register get_function get_class
  register_free t r k m f c =
      ground (arith, get-put t.name k t r.functions, get-put t.name k t r.classes, eq_iff t.name k)

  -- An unmarked target, and one whose name is taken by a function or a class, is refused, and the
  -- registry stays as it was.
  pub register_refused :
      (t : Target) (r : RemoteRegistry)
      → (is_marked t.marked ≡ false)
        ⊎ (get t.name r.functions ≢ none)
        ⊎ (get t.name r.classes ≢ none)
      → register t r
        ≡ (err (if is_marked t.marked then duplicate_name t.name else not_marked t.name), r)
  unfolding register
  register_refused t r h = ground arith

  -- The catalog names exactly the functions that `get_function` finds and the classes that
  -- `get_class` finds.
  pub catalog_names :
      (r : RemoteRegistry) (k : String)
      → ((mem k (catalog r).0 ≡ true) ↔ ((t : Target) × (get_function k r ≡ ok t)))
        × ((mem k (catalog r).1 ≡ true) ↔ ((t : Target) × (get_class k r ≡ ok t)))
  unfolding catalog get_function get_class
  catalog_names r k =
      (names_found r.functions (not_registered k), names_found r.classes (class_not_registered k))
    where
      names_found :
          (d : Dict Target) (e : Error)
          → (mem k (sorted (keys d)) ≡ true) ↔ ((t : Target) × (or_raise (get k d) e ≡ ok t))
      names_found d e = elim (Option-cases (get k d)) [
        | inl missing ↦
            (λ h. ground (arith, mem-sorted k (keys d), mem-keys k d), λ (t, f). ground arith)
        | inr (t, found) ↦
            (λ h. (t, ground arith), λ _. ground (arith, mem-sorted k (keys d), mem-keys k d))
      ]
