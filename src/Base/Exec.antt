-- ===== src/Base/Exec.antt =====
-- Methods that change the store and may raise. What was written before a raise stays written, so
-- the state comes back beside the error too; a transaction restores the state that it began with.
use mathlib.Core.Path.{◌≡◌, refl}
use mathlib.Core.Logic.{◌⊎◌, inl, inr}
use mathlib.Core.Bool.{Bool, true, false}
use mathlib.Core.Option.{Option, none, some}
use native.Mathlib.Omega.{arith}

pub data Outcome {ℓ} (E S A : Type ℓ) : Type ℓ where
  done : A → S → Outcome E S A
  raised : E → S → Outcome E S A

abbrev pub Exec {ℓ} : Type ℓ → Type ℓ → Type ℓ → Type ℓ
Exec E S A = S → Outcome E S A

module _ {ℓ} {E S A : Type ℓ} where
  abbrev pub pure : A → Exec E S A
  pure a s = done a s

  abbrev pub raise : E → Exec E S A
  raise e s = raised e s

  abbrev pub gets : (S → A) → Exec E S A
  gets f s = done (f s) s

  abbrev pub or_raise : Option A → E → Exec E S A
  or_raise none e s = raised e s
  or_raise (some a) e s = done a s

  -- `with self.connection:`, `with self._transaction():`, BEGIN IMMEDIATE … COMMIT
  abbrev pub transaction : Exec E S A → Exec E S A
  transaction m s = elim (m s) [ done a s' ↦ done a s' | raised e s' ↦ raised e s ]

module _ {ℓ} {E S : Type ℓ} where
  abbrev pub modify : (S → S) → Exec E S (Unit {ℓ})
  modify f s = done tt (f s)

  abbrev pub raise_if : Bool → E → Exec E S (Unit {ℓ})
  raise_if true e s = raised e s
  raise_if false e s = done tt s

module _ {ℓ} {E S A B : Type ℓ} where
  infixl 5 ◌>>=◌
  abbrev pub ◌>>=◌ : Exec E S A → (A → Exec E S B) → Exec E S B
  ◌>>=◌ m f s = elim (m s) [ done a s' ↦ f a s' | raised e s' ↦ raised e s' ]

module _ {ℓ} {E S B : Type ℓ} where
  infixl 5 ◌>>◌
  abbrev pub ◌>>◌ : Exec E S (Unit {ℓ}) → Exec E S B → Exec E S B
  m >> k = m >>= λ _. k

module _ {ℓ} {E S A : Type ℓ} where
  -- the state after the call, whether it returned or raised
  abbrev pub after : Outcome E S A → S
  after (done a s) = s
  after (raised e s) = s

module _ {ℓ} {E S A : Type ℓ} where
  pub Outcome-cases :
      (r : Outcome E S A)
      → ((a : A) × (s : S) × (r ≡ done a s)) ⊎ ((e : E) × (s : S) × (r ≡ raised e s))
  Outcome-cases (done a s) = inl (a, s, refl)
  Outcome-cases (raised e s) = inr (e, s, refl)

module _ {ℓ} {E S A B : Type ℓ} where
  -- Inversion of a bind that returned.
  pub >>=-eq-done :
      (m : Exec E S A) (f : A → Exec E S B) (s : S) {b : B} {s' : S}
      → (m >>= f) s ≡ done b s'
      → (a : A) × (t : S) × (m s ≡ done a t) × (f a t ≡ done b s')
  >>=-eq-done m f s h = ground arith
