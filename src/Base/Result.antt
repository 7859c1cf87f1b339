-- ===== src/Base/Result.antt =====
-- The outcome of a pure function that may raise.
use mathlib.Core.Path.{◌≡◌, refl}
use mathlib.Core.Bool.{Bool, true, false}
use mathlib.Core.List.{List, [], ◌∷◌}
use mathlib.Core.Logic.{◌⊎◌, inl, inr}
use native.Mathlib.Omega.{arith}
use changebridge_cdc_migrati.Base.Tests.{All}

pub data Result {ℓ} (E A : Type ℓ) : Type ℓ where
  ok : A → Result E A
  err : E → Result E A

pub Result-cases {ℓ} :
    {E A : Type ℓ} (r : Result E A) → ((a : A) × (r ≡ ok a)) ⊎ ((e : E) × (r ≡ err e))
Result-cases (ok a) = inl (a, refl)
Result-cases (err e) = inr (e, refl)

infixl 5 ◌>>=◌
abbrev pub ◌>>=◌ {ℓ} : {E A B : Type ℓ} → Result E A → (A → Result E B) → Result E B
ok a >>= f = f a
err e >>= f = err e

module _ {ℓ} {E B : Type ℓ} where
  infixl 5 ◌>>◌
  abbrev pub ◌>>◌ : Result E (Unit {ℓ}) → Result E B → Result E B
  m >> k = m >>= λ _. k

module _ {ℓ} {E : Type ℓ} where
  abbrev pub require : Bool → E → Result E (Unit {ℓ})
  require true e = ok tt
  require false e = err e

module _ {ℓ} {E A B : Type ℓ} where
  -- Inversion of a bind that returned.
  pub >>=-eq-ok :
      (m : Result E A) (f : A → Result E B) {b : B}
      → (m >>= f) ≡ ok b
      → (a : A) × (m ≡ ok a) × (f a ≡ ok b)
  >>=-eq-ok m f h = ground arith

module _ {E : Type 0} where
  -- guards in their order, of which the first that fails raises its error
  abbrev pub require_all : List (Bool × E) → Result E (Unit {0})
  require_all [] = ok tt
  require_all ((b, e) ∷ guards) = require b e >> require_all guards

  pub require_all-eq-ok :
      (guards : List (Bool × E)) → require_all guards ≡ ok tt → All (λ g. g.0 ≡ true) guards
  require_all-eq-ok [] h = tt
  require_all-eq-ok ((true, e) ∷ guards) h = (refl, require_all-eq-ok guards h)
  require_all-eq-ok ((false, e) ∷ guards) h = absurd (ground (arith, h))
