-- ===== src/Registry/Sorting.antt =====
-- `sorted` on strings, which Python compares by code points.
use Prim.Native.Nat.{Ordering}
use Prim.Native.String.{compare}
use rpc_freethread.Prelude.{
  String, Bool, true, false, ◌||◌, ◌≡◌, refl, List, [], ◌∷◌, arith, str_eq, if◌then◌else◌,
}

-- `s <= t`
abbrev pub text_le : String → String → Bool
text_le s t = elim (compare s t) [ Ordering.gt ↦ false | _ ↦ true ]

unfoldable pub insert : String → List String → List String
insert s [] = s ∷ []
insert s (t ∷ ts) = if text_le s t then s ∷ t ∷ ts else t ∷ insert s ts

unfoldable pub sorted : List String → List String
unfolding insert
sorted [] = []
sorted (s ∷ ss) = insert s (sorted ss)

-- `name in names`
unfoldable pub mem : String → List String → Bool
mem k [] = false
mem k (t ∷ ts) = str_eq t k || mem k ts

pub mem-insert : (k s : String) (ts : List String) → mem k (insert s ts) ≡ (str_eq s k || mem k ts)
unfolding insert mem
mem-insert k s [] = refl
mem-insert k s (t ∷ ts) = ground (arith, mem-insert k s ts)

-- Sorting keeps the names.
pub mem-sorted : (k : String) (ts : List String) → mem k (sorted ts) ≡ mem k ts
unfolding sorted mem
mem-sorted k [] = refl
mem-sorted k (t ∷ ts) = ground (arith, mem-insert k t (sorted ts), mem-sorted k ts)
