-- ===== src/Prelude/Dict.antt =====
-- A Python dict with string keys, in insertion order.
use Prim.Native.String.{String}
use mathlib.Core.Path.{◌≡◌, refl}
use mathlib.Core.Bool.{Bool, true, false}
use mathlib.Core.Option.{Option, none, some}
use mathlib.Core.List.{List, [], ◌∷◌}
use native.Mathlib.Omega.{arith}
use text.Mathlib.Text.{◌==◌}
use text.Mathlib.TextEquality.{eq_iff}
use rpc_freethread.Prelude.Tests.{if◌then◌else◌}

abbrev pub Dict {ℓ} : Type ℓ → Type ℓ
Dict V = List (String × V)

module _ {ℓ} {V : Type ℓ} where
  -- `d.get(k)`
  unfoldable pub get : String → Dict V → Option V
  get k [] = none
  get k ((j, v) ∷ d) = if j == k then some v else get k d

  -- `k in d`
  abbrev pub contains : String → Dict V → Bool
  contains k d = elim (get k d) [ none ↦ false | some _ ↦ true ]

  -- `d[k] = v`
  unfoldable pub put : String → V → Dict V → Dict V
  put k v [] = (k, v) ∷ []
  put k v ((j, w) ∷ d) = if j == k then (j, v) ∷ d else (j, w) ∷ put k v d

  -- `d.pop(k, None)` without its result. Every entry of the key goes; a real dict has one at most.
  unfoldable pub remove : String → Dict V → Dict V
  remove k [] = []
  remove k ((j, w) ∷ d) = let rest = remove k d in if j == k then rest else (j, w) ∷ rest

  -- `d.values()`
  unfoldable pub values : Dict V → List V
  values [] = []
  values ((j, w) ∷ d) = w ∷ values d

  -- `list(d)`
  unfoldable pub keys : Dict V → List String
  keys [] = []
  keys ((j, w) ∷ d) = j ∷ keys d

  pub get-put :
      (k j : String) (v : V) (d : Dict V) → get j (put k v d) ≡ (if k == j then some v else get j d)
  unfolding get put
  get-put k j v [] = refl
  get-put k j v ((i, w) ∷ d) = ground (arith, eq_iff k j, eq_iff i k, eq_iff i j, get-put k j v d)

  pub get-remove :
      (k j : String) (d : Dict V) → get j (remove k d) ≡ (if k == j then none else get j d)
  unfolding get remove
  get-remove k j [] = ground arith
  get-remove k j ((i, w) ∷ d) = ground (arith, eq_iff k j, eq_iff i k, eq_iff i j, get-remove k j d)

  -- No key twice.
  abbrev pub NodupKeys : Dict V → Type ℓ
  NodupKeys [] = Unit
  NodupKeys ((k, _) ∷ d) = (get k d ≡ none) × NodupKeys d

  pub put-NodupKeys : (k : String) (v : V) (d : Dict V) → NodupKeys d → NodupKeys (put k v d)
  unfolding put get
  put-NodupKeys k v [] h = (refl, tt)
  put-NodupKeys k v ((j, w) ∷ d) (fresh, rest) =
      ground (arith, put-NodupKeys k v d rest, get-put k j v d, eq_iff j k, eq_iff k j)

  pub remove-NodupKeys : (k : String) (d : Dict V) → NodupKeys d → NodupKeys (remove k d)
  unfolding remove get
  remove-NodupKeys k [] h = tt
  remove-NodupKeys k ((j, w) ∷ d) (fresh, rest) =
      ground (arith, remove-NodupKeys k d rest, get-remove k j d, eq_iff j k, eq_iff k j)

pub ruleset dict_laws = (get-put, get-remove)
