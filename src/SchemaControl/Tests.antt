-- ===== src/SchemaControl/Tests.antt =====
-- Runs of the schema control store, and the theorems at those runs.
use mathlib.Core.List.{Mem}
use changebridge_cdc_migrati.Base.{String, false, [], ◌∷◌, ◌≡◌, refl, inr}
use changebridge_cdc_migrati.Base.Key.{text_key}
use changebridge_cdc_migrati.Base.Int.{pos}
use changebridge_cdc_migrati.Base.Exec.{done, raised}
use changebridge_cdc_migrati.Base.Sort.{sort, insert_sorted}
use changebridge_cdc_migrati.Base.Table.{find, insert}
use changebridge_cdc_migrati.Json.Contracts.{canonical_value, canonical_bytes, semantic_digest}
use changebridge_cdc_migrati.Json.Sample.{sample, print, tally}
use changebridge_cdc_migrati.SchemaControl.Decision.{
  Verdict, compatible, incompatible, SchemaDecision, decision_record, prefix,
}
use changebridge_cdc_migrati.SchemaControl.{
  Error, Store, Receipt, empty, generation_quarantined, any_row, insert_unique, quarantine,
  decide_or_compare, record_decision, quarantine_or_compare, open_quarantine,
}
use changebridge_cdc_migrati.SchemaControl.Admission.{
  reject_or_compare, reject_generation, select, receipt_for_token, receipt_or_compare,
  record_apply_receipt, opens, open_quarantines, require_admission,
}
use changebridge_cdc_migrati.SchemaControl.Change
use changebridge_cdc_migrati.SchemaControl.Change.{Call, run, run_all}
use changebridge_cdc_migrati.SchemaControl.Barrier.{
  IsBarred, IsAdmitted, barred_forever, require_admission-IsAdmitted,
}

program : Unit {0}
unfolding find insert sort insert_sorted print tally canonical_value canonical_bytes semantic_digest
    decision_record prefix any_row insert_unique decide_or_compare record_decision
    quarantine_or_compare open_quarantine reject_or_compare reject_generation select
    receipt_for_token receipt_or_compare record_apply_receipt opens open_quarantines
    require_admission run run_all
program = tt

abbrev decision : String → Verdict → SchemaDecision
decision id verdict = record {
  decision_id = id;
  decision_digest = id;
  generation_id = "g";
  source_table = "orders";
  previous = record { contract_id = "orders"; version = "1"; digest = "old" };
  candidate = record { contract_id = "orders"; version = "2"; digest = "new" };
  previous_primary_key = [];
  candidate_primary_key = [];
  policy_id = "changebridge.schema-policy";
  policy_version = "1.0.0";
  policy_digest = "policy";
  verdict = verdict;
  reason_codes = [];
  required_action = "APPLY";
  added_fields = [];
}

abbrev accepted : SchemaDecision
accepted = decision "d1" compatible

abbrev refused : SchemaDecision
refused = decision "d2" incompatible

abbrev receipt : Receipt
receipt = record {
  apply_token = "token";
  generation_id = "g";
  source_table = "orders";
  decision_id = "d1";
  candidate_digest = "new";
  policy_digest = "policy";
  iceberg_schema_id = pos 2;
  metadata_location = "s3://warehouse/orders";
  recovered = false;
}

abbrev applied : Store
unfolding program
applied =
    run_all sample (Change.record_decision accepted ∷ Change.record_apply_receipt "r" receipt ∷ [])
      empty

abbrev quarantined : Store
unfolding program applied
quarantined =
    run_all sample (Change.open_quarantine refused "0/A" "s3://warehouse/orders" ∷ []) applied

admitted : require_admission "g" "orders" "new" "policy" applied ≡ done ("r", receipt) applied
unfolding program applied
admitted = refl

stopped :
    require_admission "g" "orders" "new" "policy" quarantined
    ≡ raised generation_quarantined quarantined
unfolding program applied quarantined
stopped = refl

barred_forever_example :
    (e : Error) × (require_admission "g" "orders" "new" "policy"
        (run_all sample (Change.record_decision accepted ∷ []) quarantined)
      ≡ raised e (run_all sample (Change.record_decision accepted ∷ []) quarantined))
unfolding program applied quarantined
barred_forever_example =
    barred_forever sample (Change.record_decision accepted ∷ []) "g" "orders" "new" "policy"
      quarantined
      (inr (
        "schema-quarantine-d2",
        quarantine sample refused "0/A" "s3://warehouse/orders",
        refl,
        refl,
      ))

require_admission-IsAdmitted_example :
    (applied ≡ applied)
    × (¬ IsBarred "g" applied)
    × Mem ("r", receipt) applied.schema_apply_receipts
    × IsAdmitted "g" "orders" "new" "policy" applied receipt
unfolding program applied
require_admission-IsAdmitted_example =
    require_admission-IsAdmitted "g" "orders" "new" "policy" applied applied ("r", receipt) refl
