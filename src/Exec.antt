-- ===== src/Exec.antt =====
-- Methods that change a state and may raise. What was written before a raise stays written, so the
-- state comes back beside the error too.
use rpc_freethread.Prelude.{Bool, true, false, ◌≡◌, refl}
use rpc_freethread.Errors.{Error, Result, ok, err}

abbrev pub Exec {ℓ} : Type ℓ → Type ℓ → Type ℓ
Exec S A = S → Result A × S

module _ {ℓ} {S A : Type ℓ} where
  abbrev pub pure : A → Exec S A
  pure a s = (ok a, s)

  abbrev pub raise : Error → Exec S A
  raise e s = (err e, s)

  abbrev pub lift : Result A → Exec S A
  lift r s = (r, s)

  abbrev pub gets : (S → A) → Exec S A
  gets f s = (ok (f s), s)

module _ {ℓ} {S A : Type ℓ} where
  -- `try: m; except Exception as exc: handler(exc)`
  abbrev pub try_except : Exec S A → (Error → Exec S A) → Exec S A
  try_except m handler s = let (r, s') = m s in elim r [ ok a ↦ (ok a, s') | err e ↦ handler e s' ]

module _ {ℓ} {S A B : Type ℓ} where
  infixl 5 ◌>>=◌ ◌>>◌
  abbrev pub ◌>>=◌ : Exec S A → (A → Exec S B) → Exec S B
  ◌>>=◌ m f s = let (r, s') = m s in elim r [ ok a ↦ f a s' | err e ↦ (err e, s') ]

  abbrev pub ◌>>◌ : Exec S A → Exec S B → Exec S B
  m >> n = m >>= λ _. n

module _ {ℓ} {S A B : Type ℓ} where
  bind_at :
      (f : A → Exec S B) (r : Result A × S) {b : B} {s' : S}
      → elim r.0 as (λ _. Result B × S) [ ok a ↦ f a r.1 | err e ↦ (err e, r.1) ] ≡ (ok b, s')
      → (a : A) × (t : S) × (r ≡ (ok a, t)) × (f a t ≡ (ok b, s'))
  bind_at f (ok a, t) h = (a, t, refl, h)
  bind_at f (err e, t) h = cc

  -- Inversion of a block that did not raise.
  pub >>=-eq-ok :
      (m : Exec S A) (f : A → Exec S B) (s : S) {b : B} {s' : S}
      → (m >>= f) s ≡ (ok b, s')
      → (a : A) × (t : S) × (m s ≡ (ok a, t)) × (f a t ≡ (ok b, s'))
  >>=-eq-ok m f s h = bind_at f (m s) h

abbrev pub kept : {A : Type 0} → Result A → Result (Unit {0}) → Result A
kept r (ok _) = r
kept r (err e) = err e

module _ {S A : Type 0} where
  -- `try: m; finally: cleanup`. What the cleanup raises takes the place of what `m` raised.
  abbrev pub try_finally : Exec S A → Exec S (Unit {0}) → Exec S A
  try_finally m cleanup s = let (r, s') = m s in let (q, t) = cleanup s' in (kept r q, t)

module _ {S : Type 0} where
  abbrev pub modify : (S → S) → Exec S (Unit {0})
  modify f s = (ok tt, f s)

  -- `if test: raise e`
  abbrev pub raise_if : Bool → Error → Exec S (Unit {0})
  raise_if true e s = (err e, s)
  raise_if false e s = (ok tt, s)
