-- ===== src/SchemaControl/Admission.antt =====
-- src/changebridge/schema_control.py: rejections, receipts of applied schemas, and the admission of a
-- schema. A receipt has typed columns, so that an absent key has no case.
use changebridge_cdc_migrati.Base.{
  ℕ, ◌+◌, String, Bool, true, false, not, ◌&&◌, ◌||◌, Option, none, some, List, [], ◌∷◌,
}
use changebridge_cdc_migrati.Base.Tests.{if◌then◌else◌, is_some}
use changebridge_cdc_migrati.Base.Key.{◌==◌, text_key}
use changebridge_cdc_migrati.Base.Int.{integer_key}
use changebridge_cdc_migrati.Base.Exec.{pure, gets, or_raise, modify, raise_if, ◌>>=◌, ◌>>◌}
use changebridge_cdc_migrati.Base.Table.{Table, find}
use changebridge_cdc_migrati.Base.Sort.{sort, text_le}
use changebridge_cdc_migrati.Json.{Json, Codec, str, dict, nat}
use changebridge_cdc_migrati.Json.Contracts.{semantic_digest}
use changebridge_cdc_migrati.SchemaControl.Decision.{SchemaDecision, is_compatible, is_incompatible}
use changebridge_cdc_migrati.SchemaControl.{
  Decided, Quarantine, Receipt, Rejection, Store, Method, generation_rejected,
  generation_quarantined, admission_required, receipt_conflict, integrity_error,
  rejection_requires_incompatible, generation_rejection_conflict, insert_unique, digest_or_raise,
}

module _ (c : Codec) (d : SchemaDecision) (quarantine_id : String) (expected_revision : ℕ) where
  abbrev pub rejection_material : Json
  rejection_material = dict (
      ("generation_id", str d.generation_id)
      ∷ ("decision_id", str d.decision_id)
      ∷ ("decision_digest", str d.decision_digest)
      ∷ ("quarantine_id", str quarantine_id)
      ∷ ("predecessor_state", str "CDC_APPLYING")
      ∷ ("state", str "REJECTED")
      ∷ ("revision", nat (expected_revision + 1))
      ∷ [])

  abbrev pub rejection : String → Rejection
  rejection digest = record {
    decision_id = d.decision_id;
    quarantine_id = quarantine_id;
    predecessor_state = "CDC_APPLYING";
    state = "REJECTED";
    revision = expected_revision + 1;
    rejection_digest = digest;
  }

  unfoldable pub reject_or_compare : String → Option Rejection → Method (String × Rejection)
  unfolding insert_unique
  reject_or_compare digest (some existing) = do
    raise_if (not (existing.rejection_digest == digest)) generation_rejection_conflict
    pure (d.generation_id, existing)
  reject_or_compare digest none = do
    rows ← gets (λ s.
        insert_unique (λ r. r.rejection_digest == digest) d.generation_id (rejection digest)
          s.schema_generation_rejections)
    rows ← or_raise rows integrity_error
    modify (λ s. record s { schema_generation_rejections = rows })
    pure (d.generation_id, rejection digest)

  unfoldable pub reject_generation : Method (String × Rejection)
  unfolding reject_or_compare
  reject_generation = do
    raise_if (not (is_incompatible d.verdict)) rejection_requires_incompatible
    digest ← digest_or_raise (semantic_digest c rejection_material "stage25-generation-rejection")
    existing ← gets (λ s. find d.generation_id s.schema_generation_rejections)
    reject_or_compare digest existing

-- the first row that satisfies a condition
unfoldable pub select : {V : Type 0} → (V → Bool) → Table String V → Option (String × V)
select test [] = none
select test ((k, v) ∷ t) = if test v then some (k, v) else select test t

unfoldable pub receipt_for_token : String → Store → Option (String × Receipt)
unfolding select
receipt_for_token token s = select (λ r. r.apply_token == token) s.schema_apply_receipts

-- the immutable keys
abbrev pub same_receipt : String → Receipt → String × Receipt → Bool
same_receipt receipt_id r existing =
    existing.0 == receipt_id
    && (existing.1.apply_token == r.apply_token
        && (existing.1.generation_id == r.generation_id
            && (existing.1.source_table == r.source_table
                && (existing.1.decision_id == r.decision_id
                    && (existing.1.candidate_digest == r.candidate_digest
                        && (existing.1.policy_digest == r.policy_digest
                            && (existing.1.iceberg_schema_id == r.iceberg_schema_id
                                && existing.1.metadata_location == r.metadata_location)))))))

-- UNIQUE(apply_token), UNIQUE(generation_id, source_table, candidate_digest, policy_digest)
abbrev pub receipt_clash : Receipt → Receipt → Bool
receipt_clash r existing =
    existing.apply_token == r.apply_token
    || (existing.generation_id == r.generation_id
        && (existing.source_table == r.source_table
            && (existing.candidate_digest == r.candidate_digest
                && existing.policy_digest == r.policy_digest)))

unfoldable pub receipt_or_compare :
    String → Receipt → Option (String × Receipt) → Method (String × Receipt)
unfolding insert_unique
receipt_or_compare receipt_id r (some existing) = do
  raise_if (not (same_receipt receipt_id r existing)) receipt_conflict
  pure existing
receipt_or_compare receipt_id r none = do
  rows ← gets (λ s. insert_unique (receipt_clash r) receipt_id r s.schema_apply_receipts)
  rows ← or_raise rows integrity_error
  modify (λ s. record s { schema_apply_receipts = rows })
  pure (receipt_id, r)

unfoldable pub record_apply_receipt : String → Receipt → Method (String × Receipt)
unfolding receipt_for_token receipt_or_compare
record_apply_receipt receipt_id r = do
  existing ← gets (receipt_for_token r.apply_token)
  receipt_or_compare receipt_id r existing

-- WHERE generation_id=? AND status='OPEN'
abbrev pub is_open : String → Quarantine → Bool
is_open generation_id q = q.generation_id == generation_id && q.status == "OPEN"

unfoldable pub opens : String → Table String Quarantine → List (String × Quarantine)
opens generation_id [] = []
opens generation_id ((k, q) ∷ t) =
    let rest = opens generation_id t in if is_open generation_id q then (k, q) ∷ rest else rest

unfoldable pub open_quarantines : String → Store → List (String × Quarantine)
unfolding opens sort
open_quarantines generation_id s =
    sort (λ p q. text_le p.0 q.0) (opens generation_id s.schema_quarantines)

-- the receipt's columns, and the verdict of its decision
abbrev pub admits : String → String → String → String → Table String Decided → Receipt → Bool
admits generation_id source_table candidate_digest policy_digest decisions r =
    r.generation_id == generation_id
    && (r.source_table == source_table
        && (r.candidate_digest == candidate_digest
            && (r.policy_digest == policy_digest && elim (find r.decision_id decisions) [
              | none ↦ false
              | some decided ↦ is_compatible decided.verdict
            ])))

abbrev pub is_nonempty : List (String × Quarantine) → Bool
is_nonempty [] = false
is_nonempty (q ∷ qs) = true

unfoldable pub require_admission : String → String → String → String → Method (String × Receipt)
unfolding open_quarantines select
require_admission generation_id source_table candidate_digest policy_digest = do
  rejection ← gets (λ s. find generation_id s.schema_generation_rejections)
  raise_if (is_some rejection) generation_rejected
  opened ← gets (open_quarantines generation_id)
  raise_if (is_nonempty opened) generation_quarantined
  row ← gets (λ s.
      select (admits generation_id source_table candidate_digest policy_digest s.schema_decisions)
        s.schema_apply_receipts)
  or_raise row admission_required
