-- ===== src/Engine/Tests.antt =====
-- Runs of the engine on the migration of the failure laboratory (src/changebridge/simulator.py,
-- with smaller LSNs), and the theorems at those runs.
use mathlib.Core.Option
use changebridge_cdc_migrati.Base.{
  ℕ, String, true, false, Option, none, some, List, [], ◌∷◌, ◌++◌, ◌≡◌, ◌≢◌, refl,
}
use changebridge_cdc_migrati.Base.Tests.{All, if◌then◌else◌}
use changebridge_cdc_migrati.Base.Key.{◌==◌, text_key, pair_key, triple_key}
use changebridge_cdc_migrati.Base.Int.{pos, ◌≤ℤ◌}
use changebridge_cdc_migrati.Base.Sort.{sort, insert_sorted}
use changebridge_cdc_migrati.Base.Table.{find, insert, replace, update, delete}
use changebridge_cdc_migrati.Base.Exec.{done, raised, after}
use changebridge_cdc_migrati.Json.{Json, dict, str, nat}
use changebridge_cdc_migrati.Json.Canonical.{canonical_json, digest}
use changebridge_cdc_migrati.Json.Sample.{sample, print, tally}
use changebridge_cdc_migrati.Model
use changebridge_cdc_migrati.Model.{
  ChangeEvent, CdcTransaction, CdcBatch, event_as_dict, transaction_as_dict, batch_as_dict,
}
use changebridge_cdc_migrati.Engine.{
  Engine, Generation, Tables, empty, replay_conflict, injected_crash, is_ready, frontier_gap,
  create_generation, get_generation, has_records, snapshot_row, load_rows, load_tables,
  load_snapshot, mark_ready, swap_pointer, activate,
}
use changebridge_cdc_migrati.Engine.Batch.{
  applied, replayed, in_order, event_row, apply_events, apply_fresh, apply_or_skip,
  apply_transactions, close_batch, apply_new, apply_or_replay, apply_batch,
}
use changebridge_cdc_migrati.Engine.Change.{Call, run, run_all}
use changebridge_cdc_migrati.Engine.Frontier.{Increasing, apply_batch_frontier}
use changebridge_cdc_migrati.Engine.Atomicity.{apply_batch_atomic, apply_batch_crash}
use changebridge_cdc_migrati.Engine.Invariant.{frontier_chain, active_is_ready, Linked}
use changebridge_cdc_migrati.Engine.Replay.{apply_batch_replayed, apply_batch_conflict}
use changebridge_cdc_migrati.Engine.Activation.{activate_once}
use changebridge_cdc_migrati.Engine.Rows.{last_write, fresh_writes, apply_batch_rows}

program : Unit {0}
unfolding find insert replace update delete sort insert_sorted canonical_json digest print tally
    event_as_dict transaction_as_dict batch_as_dict create_generation get_generation has_records
    snapshot_row load_rows load_tables load_snapshot mark_ready swap_pointer activate in_order
    event_row apply_events apply_fresh apply_or_skip apply_transactions close_batch apply_new
    apply_or_replay apply_batch run run_all
program = tt

abbrev customer : String → Json
customer tier = dict (("customer_id", str "c-001") ∷ ("tier", str tier) ∷ [])

abbrev order : String → ℕ → Json
order id amount = dict (("amount", nat amount) ∷ ("order_id", str id) ∷ [])

abbrev snapshot : Tables
snapshot =
    ("orders", ("o-002", order "o-002" 8) ∷ ("o-001", order "o-001" 12) ∷ [])
    ∷ ("customers", ("c-001", customer "silver") ∷ [])
    ∷ []

abbrev event : String → String → Model.Operation → Option Json → Option Json → ChangeEvent
event table key operation before after = record {
  table = table;
  key = key;
  operation = operation;
  before = before;
  after = after;
}

abbrev upgrade : CdcTransaction
upgrade = record {
  transaction_id = "tx-11";
  commit_lsn = pos 11;
  committed_at = "t1";
  events =
      event "customers" "c-001" Model.update (some (customer "silver")) (some (customer "gold"))
      ∷ [];
}

abbrev cancel : CdcTransaction
cancel = record {
  transaction_id = "tx-12";
  commit_lsn = pos 12;
  committed_at = "t2";
  events = event "orders" "o-002" Model.delete (some (order "o-002" 8)) none ∷ [];
}

abbrev batch : CdcBatch
batch = record {
  batch_id = "batch-10-13";
  start_lsn_exclusive = pos 10;
  end_lsn_inclusive = pos 13;
  transactions = upgrade ∷ cancel ∷ [];
}

abbrev changed_batch : CdcBatch
changed_batch = record batch { transactions = upgrade ∷ [] }

abbrev setup : List Call
setup = Call.create_generation "g" (pos 10) "orders-v1" "now" ∷ Call.load_snapshot "g" snapshot ∷ []

-- the candidate, after the snapshot
abbrev candidate : Engine
candidate = run_all sample setup empty

abbrev migrated : Engine
migrated = after (apply_batch sample "g" batch false candidate)

abbrev proven : Engine
proven = after (mark_ready "g" migrated)

abbrev published : Engine
published = after (activate "g" 0 proven)

-- `contiguous_batch`
batch_is_applied : apply_batch sample "g" batch false candidate ≡ done applied migrated
unfolding program
batch_is_applied = refl

-- the rows after the batch: the customer is gold, the second order is a tombstone
rows_after :
    (Option.map (λ r. r.deleted) (find ("g", "orders", "o-002") migrated.records) ≡ some true)
    × (Option.map (λ r. r.payload_json) (find ("g", "customers", "c-001") migrated.records)
        ≡ some (some (canonical_json sample (customer "gold"))))
unfolding program
rows_after = (refl, refl)

-- `frontier_gap_blocked`
gap_is_blocked :
    apply_batch sample "g"
      (record batch { batch_id = "gap"; start_lsn_exclusive = pos 14 })
      false
      migrated
    ≡ raised frontier_gap migrated
unfolding program
gap_is_blocked = refl

activation_succeeds : activate "g" 0 proven ≡ done 1 published
unfolding program
activation_succeeds = refl

digests_differ : digest sample (batch_as_dict changed_batch) ≢ digest sample (batch_as_dict batch)
unfolding program
digests_differ = λ e. cc (
    (text_key.equals_iff (digest sample (batch_as_dict changed_batch))
        (digest sample (batch_as_dict batch))).1
      e)

published_by_calls :
    (run_all sample
      (Call.create_generation "g" (pos 10) "orders-v1" "now"
        ∷ Call.load_snapshot "g" snapshot
        ∷ Call.mark_ready "g"
        ∷ Call.activate "g" 0
        ∷ [])
      empty).active_pointer.generation_id
    ≡ some "g"
unfolding program
published_by_calls = refl

apply_batch_frontier_example :
    (generation : Generation) × (find "g" candidate.generations ≡ some generation)
    × (batch.start_lsn_exclusive ≡ generation.current_lsn)
    × Increasing (pos 10) batch.transactions
    × All (λ t. t.commit_lsn ≤ℤ pos 13) batch.transactions
    × (find "g" migrated.generations ≡ some (record generation { current_lsn = pos 13 }))
    × (migrated.applied_batches
        ≡ candidate.applied_batches
          ++ (
            ("g", batch.batch_id),
            record {
              payload_digest = digest sample (batch_as_dict batch);
              start_lsn = pos 10;
              end_lsn = pos 13;
            },
          )
            ∷ [])
    × ((other : String)
        → "g" ≢ other
        → find other migrated.generations ≡ find other candidate.generations)
    × (migrated.active_pointer ≡ candidate.active_pointer)
apply_batch_frontier_example =
    apply_batch_frontier sample "g" batch false candidate migrated batch_is_applied

crash_is_raised : apply_batch sample "g" batch true candidate ≡ raised injected_crash candidate
unfolding program
crash_is_raised = refl

apply_batch_atomic_example : candidate ≡ candidate
apply_batch_atomic_example =
    apply_batch_atomic sample "g" batch true candidate candidate injected_crash crash_is_raised

apply_batch_crash_example :
    apply_batch sample "g" batch true candidate ≡ raised injected_crash candidate
apply_batch_crash_example = apply_batch_crash sample "g" batch candidate migrated batch_is_applied

frontier_chain_example :
    Linked
      (find "g" (run_all sample setup empty).generations)
      "g"
      (run_all sample setup empty).applied_batches
frontier_chain_example = frontier_chain sample setup "g"

abbrev publication : List Call
publication =
    Call.create_generation "g" (pos 10) "orders-v1" "now"
    ∷ Call.load_snapshot "g" snapshot
    ∷ Call.mark_ready "g"
    ∷ Call.activate "g" 0
    ∷ []

active_is_ready_example :
    (row : Generation) × (find "g" (run_all sample publication empty).generations ≡ some row)
    × (is_ready row.status ≡ true)
active_is_ready_example = active_is_ready sample publication "g" published_by_calls

apply_batch_replayed_example :
    apply_batch sample "g" batch false (run_all sample (Call.mark_ready "g" ∷ []) migrated)
    ≡ done replayed (run_all sample (Call.mark_ready "g" ∷ []) migrated)
apply_batch_replayed_example =
    apply_batch_replayed sample "g" batch false candidate migrated batch_is_applied
      (Call.mark_ready "g" ∷ []) false

apply_batch_conflict_example :
    apply_batch sample "g" changed_batch false (run_all sample (Call.mark_ready "g" ∷ []) migrated)
    ≡ raised replay_conflict (run_all sample (Call.mark_ready "g" ∷ []) migrated)
apply_batch_conflict_example =
    apply_batch_conflict sample "g" batch changed_batch false candidate migrated batch_is_applied
      refl digests_differ (Call.mark_ready "g" ∷ []) false

activate_once_example : activate "g" 0 (run_all sample setup published) ≢ done 1 published
activate_once_example =
    activate_once sample "g" 0 1 proven published activation_succeeds setup "g" 1 published

apply_batch_rows_example : find ("g", "orders", "o-002") migrated.records ≡ (
    if ◌==◌ {K = String} "g" "g"
    then Option.get_or
        (Option.map
          (λ w. some (event_row sample w.0 w.1))
          (last_write "orders" "o-002"
            (fresh_writes sample "g" candidate.applied_transactions batch.transactions)))
        (find ("g", "orders", "o-002") candidate.records)
    else find ("g", "orders", "o-002") candidate.records)
apply_batch_rows_example =
    apply_batch_rows sample "g" batch false candidate migrated batch_is_applied "g" "orders" "o-002"
