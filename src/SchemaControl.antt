-- ===== src/SchemaControl.antt =====
-- src/changebridge/schema_control.py: `SchemaControlStore`. The connection's tables are the state;
-- the file holds them and the calls on decisions and quarantines. Foreign keys are not enforced on
-- this connection; a violated UNIQUE is an integrity error.
pub mod Decision
pub mod Admission
pub mod Policy
pub mod Verdicts
pub mod Change
pub mod Barrier
mod Tests
mod Policies
use Prim.Native.String.{◌++◌ as ◌⧺◌}
use changebridge_cdc_migrati.Base.{
  ℕ, ◌+◌, String, Bool, true, false, not, ◌&&◌, ◌||◌, Option, none, some, List, [], ◌∷◌, ◌++◌, map,
}
use changebridge_cdc_migrati.Base.Tests.{if◌then◌else◌, is_some}
use changebridge_cdc_migrati.Base.Int.{ℤ}
use changebridge_cdc_migrati.Base.Key.{◌==◌, text_key}
use changebridge_cdc_migrati.Base.Exec.{
  Exec, done, raised, pure, raise, gets, or_raise, modify, raise_if, ◌>>=◌, ◌>>◌,
}
use changebridge_cdc_migrati.Base.Result.{Result, ok, err}
use changebridge_cdc_migrati.Base.Table.{Table, find, insert}
use changebridge_cdc_migrati.Json.{Json, Codec, list, str, dict, nat}
use changebridge_cdc_migrati.Json.Contracts.{ContractError, semantic_digest}
use changebridge_cdc_migrati.SchemaControl.Decision.{
  Verdict, compatible, is_compatible, is_incompatible, SchemaDecision, decision_record, prefix,
}

-- the codes CB25C001 to CB25C009, and what SQLite and the digest raise
pub data Error : Type 0 where
  decision_conflict compatible_quarantine quarantine_conflict receipt_conflict : Error
  generation_quarantined admission_required rejection_requires_incompatible : Error
  generation_rejection_conflict generation_rejected integrity_error : Error
  contract_error : ContractError → Error

pub record Decided : Type 0 where
  pub decision_digest : String
  pub generation_id : String
  pub source_table : String
  pub previous_digest : String
  pub candidate_digest : String
  pub policy_digest : String
  pub verdict : Verdict
  pub decision_json : String

pub record Quarantine : Type 0 where
  pub generation_id : String
  pub source_table : String
  pub decision_id : String
  pub frontier : String
  pub target_metadata_location : String
  pub status : String
  pub reason_codes_json : String

pub record Receipt : Type 0 where
  pub apply_token : String
  pub generation_id : String
  pub source_table : String
  pub decision_id : String
  pub candidate_digest : String
  pub policy_digest : String
  pub iceberg_schema_id : ℤ
  pub metadata_location : String
  pub recovered : Bool

pub record Rejection : Type 0 where
  pub decision_id : String
  pub quarantine_id : String
  pub predecessor_state : String
  pub state : String
  pub revision : ℕ
  pub rejection_digest : String

pub record Store : Type 0 where
  pub schema_decisions : Table String Decided
  pub schema_quarantines : Table String Quarantine
  pub schema_apply_receipts : Table String Receipt
  pub schema_generation_rejections : Table String Rejection

abbrev pub Method : Type 0 → Type 0
Method A = Exec Error Store A

abbrev pub empty : Store
empty = record {
  schema_decisions = [];
  schema_quarantines = [];
  schema_apply_receipts = [];
  schema_generation_rejections = [];
}

-- whether a row breaks a UNIQUE constraint of the new one
unfoldable pub any_row : {V : Type 0} → (V → Bool) → Table String V → Bool
any_row clash [] = false
any_row clash ((k, v) ∷ t) = clash v || any_row clash t

-- INSERT with its primary key and its UNIQUE constraints: `none` where one is violated
unfoldable pub insert_unique :
    {V : Type 0} → (V → Bool) → String → V → Table String V → Option (Table String V)
unfolding any_row insert
insert_unique clash k v t = if any_row clash t then none else insert k v t

abbrev pub digest_or_raise : {A : Type 0} → Result ContractError A → Method A
digest_or_raise (ok a) s = done a s
digest_or_raise (err e) s = raised (contract_error e) s

module _ (c : Codec) (d : SchemaDecision) where
  abbrev pub decided : Decided
  decided = record {
    decision_digest = d.decision_digest;
    generation_id = d.generation_id;
    source_table = d.source_table;
    previous_digest = d.previous.digest;
    candidate_digest = d.candidate.digest;
    policy_digest = d.policy_digest;
    verdict = d.verdict;
    decision_json = c.dumps true (decision_record d);
  }

  unfoldable pub decide_or_compare : Option Decided → Method (String × Decided)
  unfolding insert_unique
  decide_or_compare (some existing) = do
    raise_if
        (not (existing.decision_digest == d.decision_digest)
          || not (existing.decision_json == c.dumps true (decision_record d)))
        decision_conflict
    pure (d.decision_id, existing)
  decide_or_compare none = do
    rows ← gets (λ s.
        insert_unique (λ r. r.decision_digest == d.decision_digest) d.decision_id decided
          s.schema_decisions)
    rows ← or_raise rows integrity_error
    modify (λ s. record s { schema_decisions = rows })
    pure (d.decision_id, decided)

  unfoldable pub record_decision : Method (String × Decided)
  unfolding decide_or_compare
  record_decision = do
    existing ← gets (λ s. find d.decision_id s.schema_decisions)
    decide_or_compare existing

  abbrev pub quarantine_id : String
  unfolding prefix
  quarantine_id = "schema-quarantine-" ⧺ prefix 24 d.decision_digest

  abbrev pub quarantine : String → String → Quarantine
  quarantine frontier target_metadata_location = record {
    generation_id = d.generation_id;
    source_table = d.source_table;
    decision_id = d.decision_id;
    frontier = frontier;
    target_metadata_location = target_metadata_location;
    status = "OPEN";
    reason_codes_json = c.dumps true (list (map str d.reason_codes));
  }

  abbrev pub same_subject : Quarantine → Bool
  same_subject q =
      q.generation_id == d.generation_id
      && (q.source_table == d.source_table && q.decision_id == d.decision_id)

  unfoldable pub quarantine_or_compare :
      String → String → Option Quarantine → Method (String × Quarantine)
  unfolding insert_unique quarantine_id
  quarantine_or_compare frontier location (some existing) = do
    raise_if
        (not (existing.decision_id == d.decision_id)
          || not (existing.target_metadata_location == location))
        quarantine_conflict
    pure (quarantine_id, existing)
  quarantine_or_compare frontier location none = do
    rows ← gets (λ s.
        insert_unique same_subject quarantine_id (quarantine frontier location)
          s.schema_quarantines)
    rows ← or_raise rows integrity_error
    modify (λ s. record s { schema_quarantines = rows })
    pure (quarantine_id, quarantine frontier location)

  unfoldable pub open_quarantine : String → String → Method (String × Quarantine)
  unfolding quarantine_or_compare quarantine_id
  open_quarantine frontier location = do
    raise_if (is_compatible d.verdict) compatible_quarantine
    existing ← gets (λ s. find quarantine_id s.schema_quarantines)
    quarantine_or_compare frontier location existing
