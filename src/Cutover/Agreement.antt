-- ===== src/Cutover/Agreement.antt =====
-- What a matched report of `reconcile` says of the two states.
use mathlib.Core.Bool.{Bool-set}
use mathlib.Core.List.{Mem, mem-cons_self, not-mem-nil, forall_mem-cons}
use mathlib.Core.List.Perm
use changebridge_cdc_migrati.Base.{String, true, List, [], ◌∷◌, ◌++◌, map, ◌≡◌, ◌↔◌, refl, arith}
use changebridge_cdc_migrati.Base.Tests.{length}
use changebridge_cdc_migrati.Base.Key.{text_key, number_key}
use changebridge_cdc_migrati.Base.Int.{ℤ}
use changebridge_cdc_migrati.Base.Members.{distinct, distinct-mem_iff}
use changebridge_cdc_migrati.Base.Sort.{text_le, sort-perm}
use changebridge_cdc_migrati.Json.{Codec}
use changebridge_cdc_migrati.Json.Canonical.{table_digest}
use changebridge_cdc_migrati.Cutover.Reconciliation.{
  State, TableProof, matched, all_matched, report_matched, rows_of, names, table_names, table_proof,
  reconcile,
}

table_names-mem_iff :
    (t : String) (expected actual : State)
    → Mem t (table_names expected actual) ↔ Mem t (names expected ++ names actual)
unfolding table_names
table_names-mem_iff t expected actual =
    let all = names expected ++ names actual in
    let sorted = Perm.mem_iff (sort-perm text_le (distinct all)) in
    (λ m. (distinct-mem_iff t all).0 (sorted.0 m), λ m. sorted.1 ((distinct-mem_iff t all).1 m))

all_matched_iff :
    (proof : String → TableProof) (ns : List String)
    → (all_matched (map proof ns) ≡ true) ↔ ((t : String) → Mem t ns → matched (proof t) ≡ true)
unfolding all_matched
all_matched_iff proof [] = (λ _ t m. absurd (not-mem-nil m), λ _. refl)
all_matched_iff proof (n ∷ ns) =
    let later = all_matched_iff proof ns in
    let head = forall_mem-cons (λ t. Bool-set (matched (proof t)) true) {a = n} {l = ns} in
    (
      λ e. head.1 (ground (arith, e), later.0 (ground (arith, e))),
      λ h. let (a, b) = head.0 h in ground (arith, a, later.1 b),
    )

report_matched_iff :
    (proof : String → TableProof) (g : String) (f : ℤ) (ns : List String)
    → (report_matched (record { generation_id = g; frontier_lsn = f; tables = map proof ns })
        ≡ true)
      ↔ (((t : String) × Mem t ns) × ((t : String) → Mem t ns → matched (proof t) ≡ true))
unfolding report_matched
report_matched_iff proof g f [] = (λ e. absurd (ground (arith, e)), λ h. absurd (not-mem-nil h.0.1))
report_matched_iff proof g f (n ∷ ns) =
    let all = all_matched_iff proof (n ∷ ns) in (λ e. ((n, mem-cons_self), all.0 e), λ h. all.1 h.1)

module _ (c : Codec) where
  -- the table has as many rows in both states, under equal digests
  abbrev pub IsEqual : State → State → String → Type 0
  IsEqual expected actual t =
      (length (rows_of t expected) ≡ length (rows_of t actual))
      × (table_digest c (rows_of t expected) ≡ table_digest c (rows_of t actual))

  abbrev pub IsReconciled : State → State → Type 0
  IsReconciled expected actual =
      ((t : String) × Mem t (names expected ++ names actual))
      × ((t : String) → Mem t (names expected ++ names actual) → IsEqual expected actual t)

  matched_iff :
      (expected actual : State) (t : String)
      → (matched (table_proof c expected actual t) ≡ true) ↔ IsEqual expected actual t
  unfolding matched table_proof
  matched_iff expected actual t =
      let counts =
        number_key.equals_iff (length (rows_of t expected)) (length (rows_of t actual)) in
      let digests =
        text_key.equals_iff (table_digest c (rows_of t expected))
          (table_digest c (rows_of t actual)) in
      ground (arith, counts, digests)

  -- A report of `reconcile` is matched exactly when some table exists in one of the states and every
  -- table of either has as many rows, under equal digests, in both.
  pub reconcile_iff :
      (g : String) (f : ℤ) (expected actual : State)
      → (report_matched (reconcile c g f expected actual) ≡ true) ↔ IsReconciled expected actual
  unfolding reconcile
  reconcile_iff g f expected actual =
      let same : (t : String)
          → Mem t (table_names expected actual) ↔ Mem t (names expected ++ names actual) =
        λ t. table_names-mem_iff t expected actual in
      let report =
        report_matched_iff (table_proof c expected actual) g f (table_names expected actual) in
      (
        λ e.
            let (some_table, all) = report.0 e in
            (
              (some_table.0, (same some_table.0).0 some_table.1),
              λ t m. (matched_iff expected actual t).0 (all t ((same t).1 m)),
            ),
        λ h. report.1 (
          (h.0.0, (same h.0.0).1 h.0.1),
          λ t m. (matched_iff expected actual t).1 (h.1 t ((same t).0 m)),
        ),
      )
