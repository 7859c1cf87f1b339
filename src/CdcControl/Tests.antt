-- ===== src/CdcControl/Tests.antt =====
-- Runs of the CDC control store, and the theorems at those runs.
use changebridge_cdc_migrati.Base.{◌≤◌, String, true, false, none, List, [], ◌∷◌, ◌≡◌, refl}
use changebridge_cdc_migrati.Base.Key.{text_key, pair_key, triple_key, number_key}
use changebridge_cdc_migrati.Base.Sort.{sort, insert_sorted}
use changebridge_cdc_migrati.Base.Table.{find, insert, update}
use changebridge_cdc_migrati.Base.Exec.{done, raised, after}
use changebridge_cdc_migrati.Json.{null}
use changebridge_cdc_migrati.Json.Contracts.{canonical_value, canonical_bytes, semantic_digest}
use changebridge_cdc_migrati.Json.Sample.{sample, print, tally}
use changebridge_cdc_migrati.CdcControl
use changebridge_cdc_migrati.CdcControl.{
  Store, Plan, Transaction, Receipt, empty, initialize_checkpoint, claim_or_compare, claim,
  token_taken, receipt_or_compare, record_receipt,
}
use changebridge_cdc_migrati.CdcControl.Finalize.{
  Finalized, of_transaction, receipts, receipt_json, move_checkpoint, finish, finalize_applying,
  finalize_as, finalize,
}
use changebridge_cdc_migrati.CdcControl.Tombstones.{
  insert_all, tombstone, tombstones_of, record_tombstones,
}
use changebridge_cdc_migrati.CdcControl.Change.{Call, run, run_all}
use changebridge_cdc_migrati.CdcControl.Checkpoints.{finalize_once}

program : Unit {0}
unfolding find insert update sort insert_sorted print tally canonical_value canonical_bytes
    semantic_digest initialize_checkpoint claim_or_compare claim token_taken receipt_or_compare
    record_receipt of_transaction receipts receipt_json finish finalize_applying finalize_as
    finalize insert_all tombstone tombstones_of record_tombstones run run_all
program = tt

abbrev plan : String → String → String → Plan
plan id previous commit = record {
  generation_id = "g";
  transaction_id = id;
  transaction_digest = id;
  previous_frontier = previous;
  commit_lsn = commit;
  manifest_id = "m";
  tables = "order_items" ∷ "orders" ∷ [];
  events =
      record {
        is_delete = true;
        source_table = "orders";
        event_id = "e1";
        primary_key = "o-1";
        source_position = commit;
        before = null;
      }
      ∷ [];
}

abbrev receipt : String → Receipt
receipt token = record {
  transaction_digest = "t1";
  table_input_digest = "input";
  commit_token = token;
  physical_snapshot_id = "snap";
  logical_digest = "logical";
  recovered = false;
}

abbrev first : Plan
first = plan "t1" "0/1" "0/2"

abbrev setup : List Call
setup =
    Call.initialize_checkpoint "g" "0/1"
    ∷ Call.claim first
    ∷ Call.record_receipt "g" "t1" "orders" (receipt "c1")
    ∷ Call.record_receipt "g" "t1" "order_items" (receipt "c2")
    ∷ Call.record_tombstones first (("orders", "c1") ∷ [])
    ∷ []

abbrev ready : Store
ready = run_all sample setup empty

abbrev store_after : Store
store_after = after (finalize sample first 0 ready)

abbrev claimed : Transaction
claimed = record {
  transaction_digest = "t1";
  commit_lsn = "0/2";
  manifest_id = "m";
  tables = "order_items" ∷ "orders" ∷ [];
  state = CdcControl.applying;
  outcome = none;
}

abbrev result : Finalized
unfolding program
result = elim (finalize sample first 0 ready) [
  | done f _ ↦ f
  | raised _ _ ↦ record {
    transaction = claimed;
    checkpoint = move_checkpoint first (record {
      source_frontier = "";
      revision = 7;
      last_transaction_id = none;
      last_transaction_digest = none;
    });
    idempotent = true;
  }
]

first_returns : finalize sample first 0 ready ≡ done result store_after
unfolding program
first_returns = refl

result_revision : result.checkpoint.revision ≡ 1
unfolding program
result_revision = refl

abbrev between : List Call
between = Call.claim (plan "t2" "0/2" "0/3") ∷ []

finalize_once_example :
    (answer : Finalized) × (finalize sample first 5 (run_all sample between store_after)
      ≡ done answer (run_all sample between store_after))
    × (answer.idempotent ≡ true)
    × (answer.transaction ≡ result.transaction)
    × (result.checkpoint.revision ≤ answer.checkpoint.revision)
finalize_once_example =
    finalize_once sample first 0 result ready store_after first_returns between first 5 refl refl
