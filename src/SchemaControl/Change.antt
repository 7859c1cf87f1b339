-- ===== src/SchemaControl/Change.antt =====
-- The calls of the schema control store: a row that it holds is never changed or removed.
use changebridge_cdc_migrati.Base.{
  ℕ, String, Bool, Option, none, some, List, [], ◌∷◌, ◌≡◌, refl, inl, inr, arith,
}
use changebridge_cdc_migrati.Base.Tests.{Option-cases, Bool-cases}
use changebridge_cdc_migrati.Base.Key.{◌==◌, text_key}
use changebridge_cdc_migrati.Base.Exec.{after}
use changebridge_cdc_migrati.Base.Result.{Result-cases}
use changebridge_cdc_migrati.Base.Table.{Table, find, insert, find-insert, insert-eq-some}
use changebridge_cdc_migrati.Json.{Codec}
use changebridge_cdc_migrati.Json.Contracts.{semantic_digest}
use changebridge_cdc_migrati.SchemaControl
use changebridge_cdc_migrati.SchemaControl.Admission
use changebridge_cdc_migrati.SchemaControl.Decision.{SchemaDecision, is_compatible, is_incompatible}
use changebridge_cdc_migrati.SchemaControl.{
  Store, Receipt, Decided, Quarantine, Rejection, any_row, insert_unique, digest_or_raise, decided,
  same_subject, quarantine, quarantine_id,
}
use changebridge_cdc_migrati.SchemaControl.Admission.{
  rejection, rejection_material, receipt_clash, receipt_for_token, same_receipt,
}

pub data Call : Type 0 where
  record_decision : SchemaDecision → Call
  open_quarantine : SchemaDecision → String → String → Call
  reject_generation : SchemaDecision → String → ℕ → Call
  record_apply_receipt : String → Receipt → Call

-- every row stays
abbrev pub Kept : {V : Type 0} → Table String V → Table String V → Type 0
Kept {V} t t' = (k : String) (v : V) → find k t ≡ some v → find k t' ≡ some v

pub record Grows (s s' : Store) : Type 0 where
  pub decisions : Kept s.schema_decisions s'.schema_decisions
  pub quarantines : Kept s.schema_quarantines s'.schema_quarantines
  pub receipts : Kept s.schema_apply_receipts s'.schema_apply_receipts
  pub rejections : Kept s.schema_generation_rejections s'.schema_generation_rejections

Grows-refl : (s s' : Store) → s' ≡ s → Grows s s'
Grows-refl s s' e = record {
  decisions = λ k v h. rw e h;
  quarantines = λ k v h. rw e h;
  receipts = λ k v h. rw e h;
  rejections = λ k v h. rw e h;
}

insert_unique-insert :
    {V : Type 0} (clash : V → Bool) (k : String) (v : V) (t t' : Table String V)
    → insert_unique clash k v t ≡ some t'
    → insert k v t ≡ some t'
unfolding insert_unique
insert_unique-insert clash k v t t' h = ground (arith, h)

insert_unique-Kept :
    {V : Type 0} (clash : V → Bool) (k : String) (v : V) (t t' : Table String V)
    → insert_unique clash k v t ≡ some t'
    → Kept t t'
insert_unique-Kept clash k v t t' h j w found =
    let inserted = insert_unique-insert clash k v t t' h in
    let (free, _) = insert-eq-some k v t t' inserted in
    ground (arith, found, free, find-insert k v t t' j inserted, text_key.equals_iff k j)

kept_same : {V : Type 0} (t : Table String V) → Kept t t
kept_same t k v h = h

module _ (c : Codec) (s : Store) where
  decide-Grows :
      (d : SchemaDecision) (existing : Option Decided)
      → Grows s (after (SchemaControl.decide_or_compare c d existing s))
  unfolding SchemaControl.decide_or_compare
  decide-Grows d (some row) = Grows-refl s _ (ground arith)
  decide-Grows d none =
      elim (Option-cases (
        insert_unique (λ r. r.decision_digest == d.decision_digest) d.decision_id (decided c d)
          s.schema_decisions)) [
            | inl clash ↦ Grows-refl s _ (ground (arith, clash))
            | inr (rows, e) ↦ rw e (record {
              decisions =
                  insert_unique-Kept _ d.decision_id (decided c d) s.schema_decisions rows e;
              quarantines = kept_same s.schema_quarantines;
              receipts = kept_same s.schema_apply_receipts;
              rejections = kept_same s.schema_generation_rejections;
            })
          ]

  quarantine-Grows :
      (d : SchemaDecision) (frontier location : String) (existing : Option Quarantine)
      → Grows s (after (SchemaControl.quarantine_or_compare c d frontier location existing s))
  unfolding SchemaControl.quarantine_or_compare
  quarantine-Grows d frontier location (some row) = Grows-refl s _ (ground arith)
  quarantine-Grows d frontier location none =
      elim (Option-cases (
        insert_unique (same_subject c d) (quarantine_id c d) (quarantine c d frontier location)
          s.schema_quarantines)) [
            | inl clash ↦ Grows-refl s _ (ground (arith, clash))
            | inr (rows, e) ↦ rw e (record {
              decisions = kept_same s.schema_decisions;
              quarantines =
                  insert_unique-Kept (same_subject c d) (quarantine_id c d)
                    (quarantine c d frontier location) s.schema_quarantines rows e;
              receipts = kept_same s.schema_apply_receipts;
              rejections = kept_same s.schema_generation_rejections;
            })
          ]

  open_quarantine-Grows :
      (d : SchemaDecision) (frontier location : String)
      → Grows s (after (SchemaControl.open_quarantine c d frontier location s))
  unfolding SchemaControl.open_quarantine
  open_quarantine-Grows d frontier location = elim (Bool-cases (is_compatible d.verdict)) [
    | inl accepted ↦ Grows-refl s _ (ground (arith, accepted))
    | inr refused ↦
        rw refused
          (quarantine-Grows d frontier location (find (quarantine_id c d) s.schema_quarantines))
  ]

  reject-Grows :
      (d : SchemaDecision) (q : String) (n : ℕ) (digest : String) (existing : Option Rejection)
      → Grows s (after (Admission.reject_or_compare c d q n digest existing s))
  unfolding Admission.reject_or_compare
  reject-Grows d q n digest (some row) = Grows-refl s _ (ground arith)
  reject-Grows d q n digest none =
      elim (Option-cases (
        insert_unique (λ r. r.rejection_digest == digest) d.generation_id (rejection c d q n digest)
          s.schema_generation_rejections)) [
            | inl clash ↦ Grows-refl s _ (ground (arith, clash))
            | inr (rows, e) ↦ rw e (record {
              decisions = kept_same s.schema_decisions;
              quarantines = kept_same s.schema_quarantines;
              receipts = kept_same s.schema_apply_receipts;
              rejections =
                  insert_unique-Kept _ d.generation_id (rejection c d q n digest)
                    s.schema_generation_rejections rows e;
            })
          ]

  reject_generation-Grows :
      (d : SchemaDecision) (q : String) (n : ℕ)
      → Grows s (after (Admission.reject_generation c d q n s))
  unfolding Admission.reject_generation
  reject_generation-Grows d q n = elim (Bool-cases (is_incompatible d.verdict)) [
    | inl refused ↦
        elim (Result-cases
          (semantic_digest c (rejection_material c d q n) "stage25-generation-rejection")) [
            | inl (digest, e) ↦
                rw (refused, e)
                  (reject-Grows d q n digest (find d.generation_id s.schema_generation_rejections))
            | inr (x, e) ↦ Grows-refl s _ (ground (arith, refused, e))
          ]
    | inr accepted ↦ Grows-refl s _ (ground (arith, accepted))
  ]

  receipt-Grows :
      (id : String) (r : Receipt) (existing : Option (String × Receipt))
      → Grows s (after (Admission.receipt_or_compare id r existing s))
  unfolding Admission.receipt_or_compare
  receipt-Grows id r (some row) = elim (Bool-cases (same_receipt id r row)) [
    | inl equal ↦ Grows-refl s _ (rw equal refl)
    | inr other ↦ Grows-refl s _ (rw other refl)
  ]
  receipt-Grows id r none =
      elim (Option-cases (insert_unique (receipt_clash r) id r s.schema_apply_receipts)) [
        | inl clash ↦ Grows-refl s _ (rw clash refl)
        | inr (rows, e) ↦ rw e (record {
          decisions = kept_same s.schema_decisions;
          quarantines = kept_same s.schema_quarantines;
          receipts = insert_unique-Kept (receipt_clash r) id r s.schema_apply_receipts rows e;
          rejections = kept_same s.schema_generation_rejections;
        })
      ]

module _ (c : Codec) where
  unfoldable pub run : Call → Store → Store
  unfolding SchemaControl.record_decision SchemaControl.open_quarantine Admission.reject_generation
      Admission.record_apply_receipt
  run (record_decision d) s = after (SchemaControl.record_decision c d s)
  run (open_quarantine d frontier location) s =
      after (SchemaControl.open_quarantine c d frontier location s)
  run (reject_generation d q n) s = after (Admission.reject_generation c d q n s)
  run (record_apply_receipt id r) s = after (Admission.record_apply_receipt id r s)

  unfoldable pub run_all : List Call → Store → Store
  unfolding run
  run_all [] s = s
  run_all (call ∷ calls) s = run_all calls (run call s)

  run-Grows : (call : Call) (s : Store) → Grows s (run call s)
  unfolding run SchemaControl.record_decision Admission.record_apply_receipt
  run-Grows (record_decision d) s = decide-Grows c s d (find d.decision_id s.schema_decisions)
  run-Grows (open_quarantine d frontier location) s = open_quarantine-Grows c s d frontier location
  run-Grows (reject_generation d q n) s = reject_generation-Grows c s d q n
  run-Grows (record_apply_receipt id r) s =
      receipt-Grows c s id r (receipt_for_token r.apply_token s)

  pub run_all-Grows : (calls : List Call) (s : Store) → Grows s (run_all calls s)
  unfolding run_all
  run_all-Grows [] s = Grows-refl s s refl
  run_all-Grows (call ∷ calls) s =
      let first = run-Grows call s in
      let rest = run_all-Grows calls (run call s) in
      record {
        decisions = λ k v h. rest.decisions k v (first.decisions k v h);
        quarantines = λ k v h. rest.quarantines k v (first.quarantines k v h);
        receipts = λ k v h. rest.receipts k v (first.receipts k v h);
        rejections = λ k v h. rest.rejections k v (first.rejections k v h);
      }
