-- ===== src/Engine/Batch.antt =====
-- src/changebridge/engine.py: `apply_batch`, with its loops over transactions and events.
use mathlib.Core.Option
use changebridge_cdc_migrati.Base.{
  String, Bool, true, false, not, ◌&&◌, Option, none, some, List, [], ◌∷◌,
}
use changebridge_cdc_migrati.Base.Key.{◌==◌, text_key, pair_key, triple_key}
use changebridge_cdc_migrati.Base.Int.{ℤ, ltb_ℤ, leb_ℤ, eqb_ℤ}
use changebridge_cdc_migrati.Base.Table.{Table, find, insert, replace, update}
use changebridge_cdc_migrati.Base.Exec.{
  pure, gets, or_raise, transaction, modify, raise_if, ◌>>=◌, ◌>>◌,
}
use changebridge_cdc_migrati.Json.{Codec}
use changebridge_cdc_migrati.Json.Canonical.{canonical_json, digest}
use changebridge_cdc_migrati.Model.{
  ChangeEvent, CdcTransaction, CdcBatch, is_delete, transaction_as_dict, batch_as_dict,
}
use changebridge_cdc_migrati.Engine.{
  Action, Generation, Row, AppliedTransaction, AppliedBatch, candidate, ready, Status, frontier_gap,
  replay_conflict, invalid_generation_state, integrity_error, injected_crash, get_generation,
}

pub data Applied : Type 0 where
  applied replayed : Applied

abbrev pub accepts_cdc : Status → Bool
accepts_cdc candidate = true
accepts_cdc ready = true
accepts_cdc _ = false

-- previous_lsn < transaction.commit_lsn <= batch.end_lsn_inclusive, along the batch
unfoldable pub in_order : ℤ → ℤ → List CdcTransaction → Bool
in_order previous_lsn stop [] = true
in_order previous_lsn stop (t ∷ ts) =
    ltb_ℤ previous_lsn t.commit_lsn && leb_ℤ t.commit_lsn stop && in_order t.commit_lsn stop ts

abbrev pub Records : Type 0
Records = Table (String × String × String) Row

abbrev pub advance : ℤ → Generation → Generation
advance lsn g = record g { current_lsn = lsn }

module _ (c : Codec) where
  -- the row that an event writes
  unfoldable pub event_row : ℤ → ChangeEvent → Row
  event_row lsn e = record {
    payload_json = Option.map (canonical_json c) e.after;
    source_lsn = lsn;
    deleted = is_delete e.operation;
  }

  -- INSERT … ON CONFLICT(generation_id, table_name, record_key) DO UPDATE, event by event
  unfoldable pub apply_events : String → ℤ → List ChangeEvent → Records → Records
  apply_events generation_id lsn [] records = records
  apply_events generation_id lsn (e ∷ es) records =
      apply_events generation_id lsn es
        (replace (generation_id, e.table, e.key) (event_row lsn e) records)

  unfoldable pub apply_fresh : String → CdcTransaction → Action (Unit {0})
  apply_fresh generation_id t = do
    modify (λ s. record s { records = apply_events generation_id t.commit_lsn t.events s.records })
    transactions ← gets (λ s. s.applied_transactions)
    inserted ←
        or_raise
          (insert (generation_id, t.transaction_id)
            (record {
              payload_digest = digest c (transaction_as_dict t);
              commit_lsn = t.commit_lsn;
            })
            transactions)
          integrity_error
    modify (λ s. record s { applied_transactions = inserted })

  -- an applied transaction is compared and passed over, a new one is applied
  unfoldable pub apply_or_skip :
      String → CdcTransaction → Option AppliedTransaction → Action (Unit {0})
  apply_or_skip generation_id t (some prior) =
      raise_if (not (prior.payload_digest == digest c (transaction_as_dict t))) replay_conflict
  apply_or_skip generation_id t none = apply_fresh generation_id t

  unfoldable pub apply_transactions : String → List CdcTransaction → Action (Unit {0})
  apply_transactions generation_id [] = pure tt
  apply_transactions generation_id (t ∷ ts) = do
    prior ← gets (λ s. find (generation_id, t.transaction_id) s.applied_transactions)
    apply_or_skip generation_id t prior
    apply_transactions generation_id ts

  -- the statements after the loop, up to COMMIT
  unfoldable pub close_batch : String → CdcBatch → Bool → Action Applied
  close_batch generation_id batch fail_before_commit = do
    batches ← gets (λ s. s.applied_batches)
    inserted ←
        or_raise
          (insert (generation_id, batch.batch_id)
            (record {
              payload_digest = digest c (batch_as_dict batch);
              start_lsn = batch.start_lsn_exclusive;
              end_lsn = batch.end_lsn_inclusive;
            })
            batches)
          integrity_error
    modify (λ s. record s {
      applied_batches = inserted;
      generations = update generation_id (advance batch.end_lsn_inclusive) s.generations;
    })
    raise_if fail_before_commit injected_crash
    pure applied

  unfoldable pub apply_new : String → CdcBatch → Bool → Generation → Action Applied
  apply_new generation_id batch fail_before_commit generation = do
    raise_if (not (eqb_ℤ batch.start_lsn_exclusive generation.current_lsn)) frontier_gap
    raise_if (not (in_order batch.start_lsn_exclusive batch.end_lsn_inclusive batch.transactions))
        frontier_gap
    transaction (do
      apply_transactions generation_id batch.transactions
      close_batch generation_id batch fail_before_commit)

  unfoldable pub apply_or_replay :
      String → CdcBatch → Bool → Generation → Option AppliedBatch → Action Applied
  apply_or_replay generation_id batch fail_before_commit generation (some prior) = do
    raise_if (not (prior.payload_digest == digest c (batch_as_dict batch))) replay_conflict
    pure replayed
  apply_or_replay generation_id batch fail_before_commit generation none =
      apply_new generation_id batch fail_before_commit generation

  unfoldable pub apply_batch : String → CdcBatch → Bool → Action Applied
  apply_batch generation_id batch fail_before_commit = do
    generation ← get_generation generation_id
    raise_if (not (accepts_cdc generation.status)) invalid_generation_state
    prior ← gets (λ s. find (generation_id, batch.batch_id) s.applied_batches)
    apply_or_replay generation_id batch fail_before_commit generation prior
