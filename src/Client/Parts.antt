-- ===== src/Client/Parts.antt =====
-- The references before and after one of them, in a list that the loop of `_close_with_error` fails.
use rpc_freethread.Prelude.{ℕ, true, false, ◌≡◌, refl, List, [], ◌∷◌, ◌++◌, arith, ◌==◌, ◌||◌}
use rpc_freethread.ObjectRef.{ObjectRef, ready}
use rpc_freethread.Client.Failing.{elem, Distinct, AllWaiting}

pub elem-append : (x : ℕ) (l r : List ℕ) → elem x (l ++ r) ≡ (elem x l || elem x r)
elem-append x [] r = refl
elem-append x (y ∷ l) r = ground (arith, elem-append x l r)

pub elem-at : (b c : ℕ) (l : List ℕ) → elem b l ≡ true → elem c l ≡ false → (c == b) ≡ false
elem-at b c [] h k = cc
elem-at b c (x ∷ l) h k = ground (arith, elem-at b c l)

pub Distinct-append :
    (pre : List ℕ) (a : ℕ) (post : List ℕ)
    → Distinct (pre ++ a ∷ post)
    → Distinct pre × (elem a pre ≡ false) × (elem a post ≡ false)
Distinct-append [] a post d = (tt, refl, d.0)
Distinct-append (x ∷ pre) a post (fresh, d) =
    let (p, q, r) = Distinct-append pre a post d in
    let parts = elem-append x pre (a ∷ post) in ((ground arith, p), ground (arith, q), r)

pub not-elem-prefix :
    (pre : List ℕ) (a b : ℕ) (post : List ℕ)
    → Distinct (pre ++ a ∷ post)
    → elem b post ≡ true
    → elem b pre ≡ false
not-elem-prefix [] a b post d h = refl
not-elem-prefix (x ∷ pre) a b post (fresh, d) h =
    ground
      (arith, elem-append x pre (a ∷ post), not-elem-prefix pre a b post d h, elem-at b x post h)

pub AllWaiting-append :
    (refs : ℕ → ObjectRef) (pre : List ℕ) (a : ℕ) (post : List ℕ)
    → AllWaiting refs (pre ++ a ∷ post)
    → AllWaiting refs pre × (ready (refs a) ≡ false) × AllWaiting refs post
AllWaiting-append refs [] a post w = (tt, w.0, w.1)
AllWaiting-append refs (x ∷ pre) a post (p, w) =
    let (h, q, r) = AllWaiting-append refs pre a post w in ((p, h), q, r)
