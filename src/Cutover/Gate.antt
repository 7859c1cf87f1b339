-- ===== src/Cutover/Gate.antt =====
-- src/changebridge/cutover.py: `evaluate_cutover`. Seconds are Python's floats, as exact dyadic
-- fractions, the two infinities and nan; the failure for lag carries both numbers in place of their
-- text.
use Prim.Native.Nat.{◌*◌, ◌^◌}
use changebridge_cdc_migrati.Base.{
  ℕ, ◌+◌, ◌≤◌, String, Bool, true, false, not, ◌≡◌, ◌↔◌, List, [], ◌∷◌, ◌++◌, refl, arith,
}
use changebridge_cdc_migrati.Base.Int.{ℤ, pos_part, neg_part}
use changebridge_cdc_migrati.Base.Tests.{ltb}
use changebridge_cdc_migrati.Json.{Codec}
use changebridge_cdc_migrati.Cutover.Schema.{
  Field, is_empty, CompatibilityResult, by_name, check_compatibility,
}
use changebridge_cdc_migrati.Cutover.Preorder.{IsCompatible, check_compatibility_iff}
use changebridge_cdc_migrati.Cutover.Reconciliation.{
  State, ReconciliationReport, report_matched, reconcile,
}
use changebridge_cdc_migrati.Cutover.Agreement.{IsReconciled, reconcile_iff}

-- `finite a k` is a / 2 ^ k; every finite float is such a number.
pub data Seconds : Type 0 where
  finite : ℤ → ℕ → Seconds
  infinity minus_infinity nan : Seconds

-- `a > b` on floats: nan is not greater than anything, and nothing is greater than nan
unfoldable pub exceeds : Seconds → Seconds → Bool
exceeds (finite a j) (finite b k) =
    ltb (pos_part b * 2 ^ j + neg_part a * 2 ^ k) (pos_part a * 2 ^ k + neg_part b * 2 ^ j)
exceeds (finite a j) minus_infinity = true
exceeds infinity (finite b k) = true
exceeds infinity minus_infinity = true
exceeds _ _ = false

-- The lag is a number up to the limit, the limit is infinite, the lag is the least value, or one of
-- the two is nan.
pub data IsWithin : Seconds → Seconds → Type 0 where
  up_to :
      (a b : ℤ) (j k : ℕ)
      → pos_part a * 2 ^ k + neg_part b * 2 ^ j ≤ pos_part b * 2 ^ j + neg_part a * 2 ^ k
      → IsWithin (finite a j) (finite b k)
  no_limit : (lag : Seconds) → IsWithin lag infinity
  least : (limit : Seconds) → IsWithin minus_infinity limit
  no_lag : (limit : Seconds) → IsWithin nan limit
  no_number : (lag : Seconds) → IsWithin lag nan

exceeds-IsWithin : (a b : Seconds) → exceeds a b ≡ false → IsWithin a b
unfolding exceeds
exceeds-IsWithin (finite a j) (finite b k) e = up_to a b j k (ground (arith, e))
exceeds-IsWithin (finite a j) minus_infinity e = absurd (ground (arith, e))
exceeds-IsWithin infinity (finite b k) e = absurd (ground (arith, e))
exceeds-IsWithin infinity minus_infinity e = absurd (ground (arith, e))
exceeds-IsWithin a infinity e = no_limit a
exceeds-IsWithin a nan e = no_number a
exceeds-IsWithin minus_infinity b e = least b
exceeds-IsWithin nan b e = no_lag b

IsWithin-exceeds : (a b : Seconds) → IsWithin a b → exceeds a b ≡ false
unfolding exceeds
IsWithin-exceeds _ _ (up_to a b j k h) = ground (arith, h)
IsWithin-exceeds _ _ (no_limit (finite a j)) = refl
IsWithin-exceeds _ _ (no_limit infinity) = refl
IsWithin-exceeds _ _ (no_limit minus_infinity) = refl
IsWithin-exceeds _ _ (no_limit nan) = refl
IsWithin-exceeds _ _ (least limit) = refl
IsWithin-exceeds _ _ (no_lag limit) = refl
IsWithin-exceeds _ _ (no_number (finite a j)) = refl
IsWithin-exceeds _ _ (no_number infinity) = refl
IsWithin-exceeds _ _ (no_number minus_infinity) = refl
IsWithin-exceeds _ _ (no_number nan) = refl

pub data Failure : Type 0 where
  reconciliation_mismatch breaking_schema_change : Failure
  lag : Seconds → Seconds → Failure
  pre_migration_checks_failed rollback_generation_unavailable : Failure

pub record GateResult : Type 0 where
  pub allowed : Bool
  pub failures : List Failure

abbrev pub fail_if {ℓ} : {A : Type ℓ} → Bool → A → List A
fail_if true failure = failure ∷ []
fail_if false failure = []

unfoldable pub evaluate_cutover :
    ReconciliationReport → CompatibilityResult → Seconds → Seconds → Bool → Bool → GateResult
evaluate_cutover report schema lag_seconds max_lag_seconds checks_passed rollback_available =
    let failures =
      fail_if (not (report_matched report)) reconciliation_mismatch
      ++ fail_if (not schema.compatible) breaking_schema_change
      ++ fail_if (exceeds lag_seconds max_lag_seconds) (lag lag_seconds max_lag_seconds)
      ++ fail_if (not checks_passed) pre_migration_checks_failed
      ++ fail_if (not rollback_available) rollback_generation_unavailable in
    record { allowed = is_empty failures; failures = failures }

evaluate_cutover_iff :
    (report : ReconciliationReport) (schema : CompatibilityResult) (s m : Seconds)
    (checks rollback : Bool)
    → ((evaluate_cutover report schema s m checks rollback).allowed ≡ true) ↔ (
        (report_matched report ≡ true)
        × (schema.compatible ≡ true)
        × (exceeds s m ≡ false)
        × (checks ≡ true)
        × (rollback ≡ true))
unfolding evaluate_cutover
evaluate_cutover_iff report schema s m checks rollback = ground arith

-- A cutover is allowed exactly when some table exists and every table of either state has as many
-- rows under equal digests in both, the schemas keep every field and add nullable ones only, the lag
-- is not above its limit, as floats compare (nan on either side is not above), the checks before the
-- migration passed and a generation to roll back to is available.
pub cutover_iff :
    (c : Codec) (g : String) (f : ℤ) (expected actual : State) (previous candidate : List Field)
    (s m : Seconds) (checks rollback : Bool)
    → ((evaluate_cutover
          (reconcile c g f expected actual)
          (check_compatibility previous candidate)
          s
          m
          checks
          rollback).allowed
        ≡ true)
      ↔ (IsReconciled c expected actual
          × IsCompatible (by_name previous) (by_name candidate)
          × IsWithin s m
          × (checks ≡ true)
          × (rollback ≡ true))
cutover_iff c g f expected actual previous candidate s m checks rollback =
    let gate =
      evaluate_cutover_iff (reconcile c g f expected actual)
        (check_compatibility previous candidate) s m checks rollback in
    let states = reconcile_iff c g f expected actual in
    let schemas = check_compatibility_iff previous candidate in
    (
      λ e.
          let (a, b, x, y, z) = gate.0 e in (states.0 a, schemas.0 b, exceeds-IsWithin s m x, y, z),
      λ h. gate.1 (states.1 h.0, schemas.1 h.1, IsWithin-exceeds s m h.2, h.3, h.4),
    )
