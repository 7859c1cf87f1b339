-- ===== src/CdcControl.antt =====
-- src/changebridge/cdc_control.py: `CDCControlStore`, the checkpoints, transactions, table receipts
-- and tombstones of a candidate that applies changes. A method is an action that returns or raises a
-- diagnostic; `assert` and a missing key are diagnostics of their own.
pub mod Finalize
pub mod Tombstones
pub mod Change
pub mod Receipts
pub mod Finalized
pub mod Checkpoints
pub mod Tests
use changebridge_cdc_migrati.Base.{
  ℕ, String, Bool, true, false, not, ◌&&◌, ◌||◌, Option, none, some, List, [], ◌∷◌,
}
use changebridge_cdc_migrati.Base.Key.{◌==◌, text_key, pair_key, triple_key, number_key}
use changebridge_cdc_migrati.Base.Tests.{is_some}
use changebridge_cdc_migrati.Base.Table.{Table, find, insert}
use changebridge_cdc_migrati.Base.Exec.{
  Exec, pure, raise, gets, or_raise, modify, raise_if, ◌>>=◌, ◌>>◌,
}
use changebridge_cdc_migrati.Base.Result.{Result, ok, err}
use changebridge_cdc_migrati.Json.{Json, Codec, str, list, dict}
use changebridge_cdc_migrati.Json.Contracts.{ContractError}

pub data Error : Type 0 where
  checkpoint_conflict transaction_replay_conflict transaction_claim receipt_conflict : Error
  receipts_incomplete checkpoint_missing stale_checkpoint frontier_mismatch : Error
  assertion key_error : Error
  contract : ContractError → Error

pub data State : Type 0 where
  applying checkpointed : State

pub record Checkpoint : Type 0 where
  pub source_frontier : String
  pub revision : ℕ
  pub last_transaction_id : Option String
  pub last_transaction_digest : Option String

-- `tables` and `outcome` are the values that their JSON columns decode to.
pub record Transaction : Type 0 where
  pub transaction_digest : String
  pub commit_lsn : String
  pub manifest_id : String
  pub tables : List String
  pub state : State
  pub outcome : Option Json

pub record Receipt : Type 0 where
  pub transaction_digest : String
  pub table_input_digest : String
  pub commit_token : String
  pub physical_snapshot_id : String
  pub logical_digest : String
  pub recovered : Bool

pub record Tombstone : Type 0 where
  pub transaction_id : String
  pub source_table : String
  pub source_key : String
  pub source_frontier : String
  pub before_digest : String
  pub commit_token : String

-- Transactions are keyed by generation and transaction, receipts also by the source table,
-- tombstones by generation and event.
pub record Store : Type 0 where
  pub cdc_checkpoints : Table String Checkpoint
  pub cdc_transactions : Table (String × String) Transaction
  pub cdc_table_receipts : Table (String × String × String) Receipt
  pub cdc_tombstones : Table (String × String) Tombstone

abbrev pub empty : Store
empty = record {
  cdc_checkpoints = [];
  cdc_transactions = [];
  cdc_table_receipts = [];
  cdc_tombstones = [];
}

abbrev pub Method : Type 0 → Type 0
Method = Exec Error Store

abbrev pub digest_or_raise : Result ContractError String → Method String
digest_or_raise (ok d) s = pure d s
digest_or_raise (err e) s = raise (contract e) s

-- The plan of a transaction: what the store reads of it.
pub record Event : Type 0 where
  pub is_delete : Bool
  pub source_table : String
  pub event_id : String
  pub primary_key : String
  pub source_position : String
  pub before : Json

pub record Plan : Type 0 where
  pub generation_id : String
  pub transaction_id : String
  pub transaction_digest : String
  pub previous_frontier : String
  pub commit_lsn : String
  pub manifest_id : String
  pub tables : List String
  pub events : List Event

-- INSERT OR IGNORE
abbrev pub open_checkpoint : String → String → Table String Checkpoint → Table String Checkpoint
open_checkpoint g source_frontier t =
    elim (insert g
      (record {
        source_frontier = source_frontier;
        revision = 0;
        last_transaction_id = none;
        last_transaction_digest = none;
      })
      t) [ some t' ↦ t' | none ↦ t ]

unfoldable pub initialize_checkpoint : String → String → Method Checkpoint
initialize_checkpoint g source_frontier = do
  modify (λ s. record s { cdc_checkpoints = open_checkpoint g source_frontier s.cdc_checkpoints })
  result ← gets (λ s. find g s.cdc_checkpoints)
  result ← or_raise result assertion
  raise_if (not (result.source_frontier == source_frontier) && result.revision == 0)
      checkpoint_conflict
  pure result

-- an existing claim is compared and returned, a new one is inserted
unfoldable pub claim_or_compare : Plan → Option Transaction → Method Transaction
claim_or_compare p (some existing) = do
  raise_if (not (existing.transaction_digest == p.transaction_digest)) transaction_replay_conflict
  pure existing
claim_or_compare p none = do
  rows ← gets (λ s. s.cdc_transactions)
  inserted ←
      or_raise
        (insert (p.generation_id, p.transaction_id)
          (record {
            transaction_digest = p.transaction_digest;
            commit_lsn = p.commit_lsn;
            manifest_id = p.manifest_id;
            tables = p.tables;
            state = applying;
            outcome = none;
          })
          rows)
        transaction_claim
  modify (λ s. record s { cdc_transactions = inserted })
  result ← gets (λ s. find (p.generation_id, p.transaction_id) s.cdc_transactions)
  or_raise result assertion

unfoldable pub claim : Plan → Method Transaction
unfolding claim_or_compare
claim p = do
  existing ← gets (λ s. find (p.generation_id, p.transaction_id) s.cdc_transactions)
  claim_or_compare p existing

abbrev pub same_receipt : Receipt → Receipt → Bool
same_receipt a b =
    a.transaction_digest == b.transaction_digest
    && (a.table_input_digest == b.table_input_digest
        && (a.commit_token == b.commit_token
            && (a.physical_snapshot_id == b.physical_snapshot_id
                && a.logical_digest == b.logical_digest)))

-- UNIQUE (generation_id, commit_token)
unfoldable pub token_taken : String → String → Table (String × String × String) Receipt → Bool
token_taken g token [] = false
token_taken g token (((h, _, _), row) ∷ t) =
    let rest = token_taken g token t in h == g && row.commit_token == token || rest

-- The keys must be free, and the transaction claimed.
unfoldable pub receipt_or_compare :
    String → String → String → Receipt → Option Receipt → Method Receipt
unfolding token_taken
receipt_or_compare g id table row (some existing) = do
  raise_if (not (same_receipt existing row)) receipt_conflict
  pure existing
receipt_or_compare g id table row none = do
  transaction ← gets (λ s. find (g, id) s.cdc_transactions)
  raise_if (not (is_some transaction)) receipt_conflict
  rows ← gets (λ s. s.cdc_table_receipts)
  raise_if (token_taken g row.commit_token rows) receipt_conflict
  inserted ← or_raise (insert (g, id, table) row rows) receipt_conflict
  modify (λ s. record s { cdc_table_receipts = inserted })
  result ← gets (λ s. find (g, id, table) s.cdc_table_receipts)
  or_raise result assertion

unfoldable pub record_receipt : String → String → String → Receipt → Method Receipt
unfolding receipt_or_compare
record_receipt g id table row = do
  existing ← gets (λ s. find (g, id, table) s.cdc_table_receipts)
  receipt_or_compare g id table row existing
