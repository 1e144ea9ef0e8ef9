-- ===== src/Client/Failing.antt =====
-- The loop that fails every waiting reference when the connection closes.
use rpc_freethread.Prelude.{
  ℕ, String, Bool, true, false, ◌||◌, ◌≡◌, refl, List, [], ◌∷◌, arith, ◌==◌, All,
}
use rpc_freethread.Errors.{ok, err, remote_error}
use rpc_freethread.Python.{Python}
use rpc_freethread.ObjectRef.{ObjectRef, set_error, ready, outcome, error_is}
use rpc_freethread.ObjectRef.Once.{complete_first}
use rpc_freethread.Client.State.{Client, update, on_ref}
use rpc_freethread.Client.Connection.{fail_all}

abbrev pub elem : ℕ → List ℕ → Bool
elem b [] = false
elem b (a ∷ as') = a == b || elem b as'

abbrev pub Distinct : List ℕ → Type 0
Distinct [] = Unit
Distinct (a ∷ l) = (elem a l ≡ false) × Distinct l

abbrev pub AllWaiting : (ℕ → ObjectRef) → List ℕ → Type 0
AllWaiting refs l = All (λ a. ready (refs a) ≡ false) l

pub AllWaiting-at :
    (l : List ℕ) (refs : ℕ → ObjectRef) (a : ℕ)
    → AllWaiting refs l
    → elem a l ≡ true
    → ready (refs a) ≡ false
AllWaiting-at [] refs a w h = cc
AllWaiting-at (b ∷ l) refs a (p, w) h = ground (arith, AllWaiting-at l refs a w)

pub AllWaiting-update :
    (l : List ℕ) (refs : ℕ → ObjectRef) (a : ℕ) (o : ObjectRef)
    → elem a l ≡ false
    → AllWaiting refs l
    → AllWaiting (update refs a o) l
AllWaiting-update [] refs a o h w = tt
AllWaiting-update (b ∷ l) refs a o h w = ground (arith, AllWaiting-update l refs a o, w)

module _ ⦃py : Python⦄ (t m : String) where
  -- The references after the loop.
  unfoldable pub fail_refs : List ℕ → (ℕ → ObjectRef) → ℕ → ObjectRef
  fail_refs [] refs = refs
  fail_refs (a ∷ l) refs = fail_refs l (update refs a (set_error t m (refs a)).1)

  pub fail_refs_other :
      (l : List ℕ) (refs : ℕ → ObjectRef) (b : ℕ) → elem b l ≡ false → fail_refs l refs b ≡ refs b
  unfolding fail_refs
  fail_refs_other [] refs b h = refl
  fail_refs_other (a ∷ l) refs b h =
      ground (arith, fail_refs_other l (update refs a (set_error t m (refs a)).1) b)

  pub fail_refs_each :
      (l : List ℕ) (refs : ℕ → ObjectRef) (b : ℕ)
      → Distinct l
      → AllWaiting refs l
      → elem b l ≡ true
      → (ready (fail_refs l refs b) ≡ true)
        × ((fail_refs l refs b).call_id ≡ (refs b).call_id)
        × (outcome (fail_refs l refs b) ≡ err (remote_error t m))
  unfolding fail_refs
  fail_refs_each [] refs b d w h = cc
  fail_refs_each (a ∷ l) refs b (fresh, d) (p, w) h =
      let refs' = update refs a (set_error t m (refs a)).1 in
      ground (
        arith,
        complete_first (error_is t m) (refs a) p,
        fail_refs_other l refs' b,
        fail_refs_each l refs' b d (AllWaiting-update l refs a _ fresh w),
      )

  pub fail_all_lem :
      (l : List ℕ) (c : Client)
      → Distinct l
      → AllWaiting c.refs l
      → fail_all t m l c ≡ (ok tt, record c { refs = fail_refs l c.refs })
  unfolding fail_all fail_refs on_ref
  fail_all_lem [] c d w = refl
  fail_all_lem (a ∷ l) c (fresh, d) (p, w) =
      let refs' = update c.refs a (set_error t m (c.refs a)).1 in
      let (done, _, _, _) = complete_first (error_is t m) (c.refs a) p in
      ground (
        arith,
        done,
        fail_all_lem l (record c { refs = refs' }) d (AllWaiting-update l c.refs a _ fresh w),
      )
