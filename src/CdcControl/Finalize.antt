-- ===== src/CdcControl/Finalize.antt =====
-- src/changebridge/cdc_control.py: `receipts` and `finalize`, which moves the checkpoint.
use changebridge_cdc_migrati.Base.{
  ℕ, ◌+◌, String, Bool, true, false, not, ◌&&◌, some, List, [], ◌∷◌, map,
}
use changebridge_cdc_migrati.Base.Key.{◌==◌, text_key, pair_key, number_key}
use changebridge_cdc_migrati.Base.Sort.{sort, text_le}
use changebridge_cdc_migrati.Base.Tests.{if◌then◌else◌}
use changebridge_cdc_migrati.Base.Table.{Table, find, update}
use changebridge_cdc_migrati.Base.Exec.{pure, gets, or_raise, modify, raise_if, ◌>>=◌, ◌>>◌}
use changebridge_cdc_migrati.Json.{Json, Codec, str, nat, list, dict}
use changebridge_cdc_migrati.Json.Contracts.{semantic_digest}
use changebridge_cdc_migrati.CdcControl.{
  Store, Method, Plan, Checkpoint, Transaction, Receipt, State, applying, checkpointed,
  digest_or_raise, receipts_incomplete, checkpoint_missing, stale_checkpoint, frontier_mismatch,
  assertion,
}

unfoldable pub of_transaction :
    String → String → Table (String × String × String) Receipt → List (String × Receipt)
of_transaction g id [] = []
of_transaction g id (((h, i, table), row) ∷ t) =
    let rest = of_transaction g id t in if h == g && i == id then (table, row) ∷ rest else rest

abbrev pub by_table : String × Receipt → String × Receipt → Bool
by_table a b = text_le a.0 b.0

-- ORDER BY source_table
unfoldable pub receipts :
    String → String → Table (String × String × String) Receipt → List (String × Receipt)
unfolding of_transaction
receipts g id t = sort by_table (of_transaction g id t)

abbrev recovered_json : Bool → Json
recovered_json true = nat 1
recovered_json false = nat 0

-- a row of cdc_table_receipts as a dictionary
unfoldable pub receipt_json : String → String → String × Receipt → Json
receipt_json g id row = dict (
    ("generation_id", str g)
    ∷ ("transaction_id", str id)
    ∷ ("source_table", str row.0)
    ∷ ("transaction_digest", str row.1.transaction_digest)
    ∷ ("table_input_digest", str row.1.table_input_digest)
    ∷ ("commit_token", str row.1.commit_token)
    ∷ ("physical_snapshot_id", str row.1.physical_snapshot_id)
    ∷ ("logical_digest", str row.1.logical_digest)
    ∷ ("state", str "DURABLE")
    ∷ ("recovered", recovered_json row.1.recovered)
    ∷ [])

abbrev pub same_tables : List String → List String → Bool
same_tables [] [] = true
same_tables (x ∷ xs) (y ∷ ys) = let rest = same_tables xs ys in x == y && rest
same_tables _ _ = false

pub record Finalized : Type 0 where
  pub transaction : Transaction
  pub checkpoint : Checkpoint
  pub idempotent : Bool

-- UPDATE cdc_checkpoints … WHERE the revision and the frontier are those that were read
abbrev pub move_checkpoint : Plan → Checkpoint → Checkpoint
move_checkpoint p k = record {
  source_frontier = p.commit_lsn;
  revision = k.revision + 1;
  last_transaction_id = some p.transaction_id;
  last_transaction_digest = some p.transaction_digest;
}

-- UPDATE cdc_transactions … WHERE state='APPLYING'
abbrev pub close_transaction : Json → Transaction → Transaction
close_transaction outcome t = elim t.state [
  | applying ↦ record t { state = checkpointed; outcome = some outcome }
  | checkpointed ↦ t
]

unfoldable pub finish : Plan → Json → Method Finalized
finish p outcome = do
  modify (λ s. record s {
    cdc_checkpoints = update p.generation_id (move_checkpoint p) s.cdc_checkpoints;
    cdc_transactions =
        update (p.generation_id, p.transaction_id) (close_transaction outcome) s.cdc_transactions;
  })
  transaction ← gets (λ s. find (p.generation_id, p.transaction_id) s.cdc_transactions)
  transaction ← or_raise transaction assertion
  checkpoint ← gets (λ s. find p.generation_id s.cdc_checkpoints)
  checkpoint ← or_raise checkpoint assertion
  pure (record { transaction = transaction; checkpoint = checkpoint; idempotent = false })

module _ (c : Codec) (p : Plan) (expected_revision : ℕ) where
  abbrev rows_of : Store → List (String × Receipt)
  unfolding receipts
  rows_of s = receipts p.generation_id p.transaction_id s.cdc_table_receipts

  -- the checks of a transaction that is not checkpointed, and the writes
  unfoldable pub finalize_applying : Method Finalized
  unfolding rows_of receipt_json finish
  finalize_applying = do
    rows ← gets rows_of
    raise_if (not (same_tables (map (λ row. row.0) rows) p.tables)) receipts_incomplete
    checkpoint ← gets (λ s. find p.generation_id s.cdc_checkpoints)
    checkpoint ← or_raise checkpoint checkpoint_missing
    raise_if (not (checkpoint.revision == expected_revision)) stale_checkpoint
    raise_if (not (checkpoint.source_frontier == p.previous_frontier)) frontier_mismatch
    digest ← digest_or_raise (
        semantic_digest c (list (map (receipt_json p.generation_id p.transaction_id) rows))
          "stage24-receipts")
    finish p (dict (("receipt_digest", str digest) ∷ ("tables", list (map str p.tables)) ∷ []))

  unfoldable pub finalize_as : Transaction → State → Method Finalized
  unfolding finalize_applying
  finalize_as transaction applying = finalize_applying
  finalize_as transaction checkpointed = do
    checkpoint ← gets (λ s. find p.generation_id s.cdc_checkpoints)
    checkpoint ← or_raise checkpoint assertion
    pure (record { transaction = transaction; checkpoint = checkpoint; idempotent = true })

  unfoldable pub finalize : Method Finalized
  unfolding finalize_as
  finalize = do
    transaction ← gets (λ s. find (p.generation_id, p.transaction_id) s.cdc_transactions)
    transaction ← or_raise transaction assertion
    finalize_as transaction transaction.state
