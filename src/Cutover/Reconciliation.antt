-- ===== src/Cutover/Reconciliation.antt =====
-- src/changebridge/reconciliation.py: `reconcile` and the proofs of equality that it returns. A
-- state is the rows of each table under their keys.
use changebridge_cdc_migrati.Base.{
  ℕ, String, Bool, true, false, ◌&&◌, none, some, List, [], ◌∷◌, ◌++◌, map,
}
use changebridge_cdc_migrati.Base.Tests.{length}
use changebridge_cdc_migrati.Base.Key.{◌==◌, text_key, number_key}
use changebridge_cdc_migrati.Base.Int.{ℤ}
use changebridge_cdc_migrati.Base.Table.{Table, find}
use changebridge_cdc_migrati.Base.Members.{distinct}
use changebridge_cdc_migrati.Base.Sort.{sort, text_le}
use changebridge_cdc_migrati.Json.{Json, Codec}
use changebridge_cdc_migrati.Json.Canonical.{table_digest}

abbrev pub State : Type 0
State = Table String (Table String Json)

pub record TableProof : Type 0 where
  pub table : String
  pub expected_count : ℕ
  pub actual_count : ℕ
  pub expected_digest : String
  pub actual_digest : String

unfoldable pub matched : TableProof → Bool
matched proof =
    proof.expected_count == proof.actual_count && proof.expected_digest == proof.actual_digest

pub record ReconciliationReport : Type 0 where
  pub generation_id : String
  pub frontier_lsn : ℤ
  pub tables : List TableProof

unfoldable pub all_matched : List TableProof → Bool
unfolding matched
all_matched [] = true
all_matched (proof ∷ proofs) = matched proof && all_matched proofs

-- bool(self.tables) and …
unfoldable pub report_matched : ReconciliationReport → Bool
unfolding all_matched
report_matched report = elim report.tables [
  | [] ↦ false
  | proof ∷ proofs ↦ all_matched (proof ∷ proofs)
]

-- state.get(table, {})
unfoldable pub rows_of : String → State → Table String Json
unfolding find
rows_of table state = elim (find table state) [ none ↦ [] | some rows ↦ rows ]

abbrev pub names : State → List String
names state = map (λ t. t.0) state

unfoldable pub table_names : State → State → List String
unfolding distinct sort
table_names expected actual = sort text_le (distinct (names expected ++ names actual))

module _ (c : Codec) where
  unfoldable pub table_proof : State → State → String → TableProof
  unfolding rows_of table_digest
  table_proof expected actual table = record {
    table = table;
    expected_count = length (rows_of table expected);
    actual_count = length (rows_of table actual);
    expected_digest = table_digest c (rows_of table expected);
    actual_digest = table_digest c (rows_of table actual);
  }

  unfoldable pub reconcile : String → ℤ → State → State → ReconciliationReport
  unfolding table_names table_proof
  reconcile generation_id frontier_lsn expected actual = record {
    generation_id = generation_id;
    frontier_lsn = frontier_lsn;
    tables = map (table_proof expected actual) (table_names expected actual);
  }
