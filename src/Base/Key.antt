-- ===== src/Base/Key.antt =====
-- Equality tests on the columns that key a table: texts, and pairs and triples of keys.
use Prim.Native.String.{String}
use Prim.Native.Nat.{ℕ}
use mathlib.Core.Path.{◌≡◌, refl}
use mathlib.Core.Logic.{◌↔◌}
use mathlib.Core.Bool.{Bool, true, ◌&&◌}
use native.Mathlib.Omega.{arith}
use text.Mathlib.Text.{◌==◌ as str_eq}
use text.Mathlib.TextEquality.{eq_iff}
use changebridge_cdc_migrati.Base.Tests.{nat_eq, nat_eq_iff}

-- A type of keys, whose Boolean test decides their equality.
pub record Keyed (K : Type 0) : Type 0 where
  pub equals : K → K → Bool
  pub equals_iff : (j k : K) → (equals j k ≡ true) ↔ (j ≡ k)

module _ {K : Type 0} ⦃keyed : Keyed K⦄ where
  infix 50 ◌==◌
  abbrev pub ◌==◌ : K → K → Bool
  j == k = keyed.equals j k

  pub ==_refl : (k : K) → (k == k) ≡ true
  ==_refl k = (keyed.equals_iff k k).1 refl

instance abbrev pub number_key : Keyed ℕ
number_key = record { equals = nat_eq; equals_iff = nat_eq_iff }

instance abbrev pub text_key : Keyed String
text_key = record { equals = str_eq; equals_iff = eq_iff }

module _ {A B : Type 0} ⦃e : Keyed A⦄ ⦃f : Keyed B⦄ where
  abbrev pub pair_beq : A × B → A × B → Bool
  pair_beq p q = p.0 == q.0 && p.1 == q.1

  pub pair_beq_iff : (p q : A × B) → (pair_beq p q ≡ true) ↔ (p ≡ q)
  pair_beq_iff p q = ground (arith, e.equals_iff p.0 q.0, f.equals_iff p.1 q.1)

  instance abbrev pub pair_key : Keyed (A × B)
  pair_key = record { equals = pair_beq; equals_iff = pair_beq_iff }

module _ {A B C : Type 0} ⦃e : Keyed A⦄ ⦃f : Keyed B⦄ ⦃g : Keyed C⦄ where
  abbrev pub triple_beq : A × B × C → A × B × C → Bool
  triple_beq p q = p.0 == q.0 && p.1 == q.1 && p.2 == q.2

  pub triple_beq_iff : (p q : A × B × C) → (triple_beq p q ≡ true) ↔ (p ≡ q)
  triple_beq_iff p q =
      ground (arith, e.equals_iff p.0 q.0, f.equals_iff p.1 q.1, g.equals_iff p.2 q.2)

  instance abbrev pub triple_key : Keyed (A × B × C)
  triple_key = record { equals = triple_beq; equals_iff = triple_beq_iff }
