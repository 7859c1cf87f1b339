-- ===== src/CdcControl/Change.antt =====
-- The abstract steps of checkpoints and transactions, and every writing method as one.
use changebridge_cdc_migrati.Base.{
  ℕ, String, true, Option, none, some, List, [], ◌∷◌, ◌++◌, map, ◌≡◌, ◌⊎◌, refl, ap, inl, inr,
  arith, ◌∙◌,
}
use changebridge_cdc_migrati.Base.Tests.{Option-cases, Bool-cases}
use changebridge_cdc_migrati.Base.Key.{◌==◌, text_key, pair_key, triple_key, number_key}
use changebridge_cdc_migrati.Base.Table.{Table, find, insert, update}
use changebridge_cdc_migrati.Base.Exec.{raised, after}
use changebridge_cdc_migrati.Base.Result.{Result-cases}
use changebridge_cdc_migrati.Json.{Json, Codec, list, dict, str}
use changebridge_cdc_migrati.Json.Contracts.{semantic_digest}
use changebridge_cdc_migrati.CdcControl
use changebridge_cdc_migrati.CdcControl.Finalize
use changebridge_cdc_migrati.CdcControl.Tombstones
use changebridge_cdc_migrati.CdcControl.{
  Store, Plan, Event, Checkpoint, Transaction, Receipt, State, applying, checkpointed,
  open_checkpoint, claim_or_compare, receipt_or_compare,
}
use changebridge_cdc_migrati.CdcControl.Finalize.{
  Finalized, receipts, receipt_json, same_tables, move_checkpoint, close_transaction, finish,
  finalize_applying, finalize_as,
}
use changebridge_cdc_migrati.CdcControl.Tombstones.{tombstone, tombstones_of, before_domain}

-- the writing methods, with their arguments
pub data Call : Type 0 where
  initialize_checkpoint : String → String → Call
  claim : Plan → Call
  record_receipt : String → String → String → Receipt → Call
  record_tombstones : Plan → Table String String → Call
  finalize : Plan → ℕ → Call

-- The store after a call, which returned or raised.
unfoldable pub run : Codec → Call → Store → Store
run c (Call.initialize_checkpoint g frontier) s =
    after (CdcControl.initialize_checkpoint g frontier s)
run c (Call.claim p) s = after (CdcControl.claim p s)
run c (Call.record_receipt g id table row) s = after (CdcControl.record_receipt g id table row s)
run c (Call.record_tombstones p tokens) s = after (Tombstones.record_tombstones c p tokens s)
run c (Call.finalize p n) s = after (Finalize.finalize c p n s)

unfoldable pub run_all : Codec → List Call → Store → Store
run_all c [] s = s
run_all c (call ∷ calls) s = run_all c calls (run c call s)

-- A transaction was checkpointed.
pub record Finalizes (p : Plan) (n : ℕ) (s s' : Store) : Type 0 where
  pub transaction : Transaction
  pub found : find (p.generation_id, p.transaction_id) s.cdc_transactions ≡ some transaction
  pub was : transaction.state ≡ applying
  pub complete :
      same_tables
        (map (λ row. row.0) (receipts p.generation_id p.transaction_id s.cdc_table_receipts))
        p.tables
      ≡ true
  pub checkpoint : Checkpoint
  pub here : find p.generation_id s.cdc_checkpoints ≡ some checkpoint
  pub at : checkpoint.revision ≡ n
  pub frontier : checkpoint.source_frontier ≡ p.previous_frontier
  pub outcome : Json
  pub wrote : s' ≡ record s {
    cdc_checkpoints = update p.generation_id (move_checkpoint p) s.cdc_checkpoints;
    cdc_transactions =
        update (p.generation_id, p.transaction_id) (close_transaction outcome) s.cdc_transactions;
  }

pub data Change (s s' : Store) : Type 0 where
  quiet :
      s'.cdc_checkpoints ≡ s.cdc_checkpoints
      → s'.cdc_transactions ≡ s.cdc_transactions
      → Change s s'
  opened :
      (g : String) (row : Checkpoint)
      → find g s.cdc_checkpoints ≡ none
      → row.revision ≡ 0
      → s' ≡ record s { cdc_checkpoints = s.cdc_checkpoints ++ (g, row) ∷ [] }
      → Change s s'
  claimed :
      (k : String × String) (row : Transaction)
      → find k s.cdc_transactions ≡ none
      → row.state ≡ applying
      → s' ≡ record s { cdc_transactions = s.cdc_transactions ++ (k, row) ∷ [] }
      → Change s s'
  finalized : (p : Plan) (n : ℕ) → Finalizes p n s s' → Change s s'

same : (s s' : Store) → s' ≡ s → Change s s'
same s s' e = quiet (ap (λ t. t.cdc_checkpoints) e) (ap (λ t. t.cdc_transactions) e)

abbrev outcome_of : Plan → String → Json
outcome_of p digest =
    dict (("receipt_digest", str digest) ∷ ("tables", list (map str p.tables)) ∷ [])

module _ (s : Store) where
  -- the receipts whose digest is the outcome
  abbrev listed : Codec → Plan → Json
  listed c p = list (
      map (receipt_json p.generation_id p.transaction_id)
        (receipts p.generation_id p.transaction_id s.cdc_table_receipts))

  initialize-Change :
      (g frontier : String) → Change s (after (CdcControl.initialize_checkpoint g frontier s))
  unfolding CdcControl.initialize_checkpoint insert
  initialize-Change g frontier = elim (Option-cases (find g s.cdc_checkpoints)) [
    | inl free ↦
        opened g
          (record {
            source_frontier = frontier;
            revision = 0;
            last_transaction_id = none;
            last_transaction_digest = none;
          })
          free refl (ground arith)
    | inr (row, found) ↦ same s _ (ground arith)
  ]

  claim_row-Change :
      (p : Plan) (existing : Option Transaction)
      → find (p.generation_id, p.transaction_id) s.cdc_transactions ≡ existing
      → Change s (after (claim_or_compare p existing s))
  unfolding claim_or_compare insert
  claim_row-Change p (some row) found = same s _ (ground arith)
  claim_row-Change p none free =
      claimed (p.generation_id, p.transaction_id)
        (record {
          transaction_digest = p.transaction_digest;
          commit_lsn = p.commit_lsn;
          manifest_id = p.manifest_id;
          tables = p.tables;
          state = applying;
          outcome = none;
        })
        free refl (ground arith)

  receipt-Change :
      (g id table : String) (row : Receipt) (existing : Option Receipt)
      → Change s (after (receipt_or_compare g id table row existing s))
  unfolding receipt_or_compare
  receipt-Change g id table row (some old) = same s _ (ground arith)
  receipt-Change g id table row none = quiet (ground arith) (ground arith)

  tombstones_same :
      (c : Codec) (p : Plan) (tokens : Table String String) (es : List Event)
      → after (tombstones_of c p tokens es s) ≡ s
  unfolding tombstones_of tombstone
  tombstones_same c p tokens [] = refl
  tombstones_same c p tokens (e ∷ es) =
      elim (Result-cases (semantic_digest c e.before (before_domain e.source_table))) [
        | inl (d, ran) ↦ ground (arith, ran, tombstones_same c p tokens es)
        | inr (x, failed) ↦ ground (arith, failed, tombstones_same c p tokens es)
      ]

  tombstones-Change :
      (c : Codec) (p : Plan) (tokens : Table String String)
      → Change s (after (Tombstones.record_tombstones c p tokens s))
  unfolding Tombstones.record_tombstones
  tombstones-Change c p tokens =
      quiet (ground (arith, tombstones_same c p tokens p.events))
        (ground (arith, tombstones_same c p tokens p.events))

  finish-after :
      (p : Plan) (outcome : Json)
      → after (finish p outcome s) ≡ record s {
        cdc_checkpoints = update p.generation_id (move_checkpoint p) s.cdc_checkpoints;
        cdc_transactions =
            update
              (p.generation_id, p.transaction_id)
              (close_transaction outcome)
              s.cdc_transactions;
      }
  unfolding finish
  finish-after p outcome = ground arith

  -- The finalization of a transaction that was applying leaves the store alone or checkpoints it.
  pub applying-cases :
      (c : Codec) (p : Plan) (n : ℕ) (t : Transaction)
      → find (p.generation_id, p.transaction_id) s.cdc_transactions ≡ some t
      → t.state ≡ applying
      → ((e : CdcControl.Error) × (finalize_applying c p n s ≡ raised e s))
        ⊎ Finalizes p n s (after (finalize_applying c p n s))
  unfolding finalize_applying
  applying-cases c p n t found was =
      elim (Bool-cases (
        same_tables
          (map (λ row. row.0) (receipts p.generation_id p.transaction_id s.cdc_table_receipts))
          p.tables)) [
            | inr partial ↦ inl (CdcControl.receipts_incomplete, ground (arith, partial))
            | inl complete ↦ elim (Option-cases (find p.generation_id s.cdc_checkpoints)) [
              | inl missing ↦ inl (CdcControl.checkpoint_missing, ground (arith, complete))
              | inr (k, here) ↦ elim (Bool-cases (k.revision == n)) [
                | inr stale ↦ inl (CdcControl.stale_checkpoint, ground (arith, complete, here))
                | inl current ↦ elim (Bool-cases (k.source_frontier == p.previous_frontier)) [
                  | inr other ↦ inl (CdcControl.frontier_mismatch, ground (arith, complete, here))
                  | inl fits ↦
                      elim (Result-cases (semantic_digest c (listed c p) "stage24-receipts")) [
                        | inr (e, failed) ↦ inl (
                          CdcControl.contract e,
                          ground (arith, complete, here, current, fits, failed),
                        )
                        | inl (d, digested) ↦
                            let e : after (finalize_applying c p n s)
                                ≡ after (finish p (outcome_of p d) s) =
                              ground (arith, complete, here, current, fits, digested) in
                            inr (record {
                              transaction = t;
                              found = found;
                              was = was;
                              complete = complete;
                              checkpoint = k;
                              here = here;
                              at = ground (arith, current, number_key.equals_iff k.revision n);
                              frontier = ground (
                                arith,
                                fits,
                                text_key.equals_iff k.source_frontier p.previous_frontier,
                              );
                              outcome = outcome_of p d;
                              wrote = e ∙ finish-after p (outcome_of p d);
                            })
                      ]
                ]
              ]
            ]
          ]

  state-Change :
      (c : Codec) (p : Plan) (n : ℕ) (t : Transaction) (state : State)
      → find (p.generation_id, p.transaction_id) s.cdc_transactions ≡ some t
      → t.state ≡ state
      → Change s (after (Finalize.finalize c p n s))
  unfolding Finalize.finalize finalize_as
  state-Change c p n t applying found was =
      let e : after (Finalize.finalize c p n s) ≡ after (finalize_applying c p n s) =
        ground (arith, found, was) in
      elim (applying-cases c p n t found was) [
        | inl (x, failed) ↦ same s _ (e ∙ ap after failed)
        | inr m ↦ finalized p n (rw e m)
      ]
  state-Change c p n t checkpointed found was = same s _ (ground (arith, found, was))

  finalize-Change : (c : Codec) (p : Plan) (n : ℕ) → Change s (after (Finalize.finalize c p n s))
  unfolding Finalize.finalize finalize_as
  finalize-Change c p n =
      elim (Option-cases (find (p.generation_id, p.transaction_id) s.cdc_transactions)) [
        | inl missing ↦ same s _ (ground arith)
        | inr (t, found) ↦ state-Change c p n t t.state found refl
      ]

  -- Every call is an abstract step, whatever its arguments and whether it returns or raises.
  pub run-Change : (c : Codec) (call : Call) → Change s (run c call s)
  unfolding run CdcControl.claim CdcControl.record_receipt
  run-Change c (Call.initialize_checkpoint g frontier) = initialize-Change g frontier
  run-Change c (Call.claim p) =
      claim_row-Change p (find (p.generation_id, p.transaction_id) s.cdc_transactions) refl
  run-Change c (Call.record_receipt g id table row) =
      receipt-Change g id table row (find (g, id, table) s.cdc_table_receipts)
  run-Change c (Call.record_tombstones p tokens) = tombstones-Change c p tokens
  run-Change c (Call.finalize p n) = finalize-Change c p n
