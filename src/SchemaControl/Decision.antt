-- ===== src/SchemaControl/Decision.antt =====
-- src/changebridge/schema_policy.py: the decisions that the store records.
use changebridge_cdc_migrati.Base.{ℕ, zero, suc, String, Bool, true, false, List, [], ◌∷◌, map}
use changebridge_cdc_migrati.Cutover.Schema.{Field}
use changebridge_cdc_migrati.Json.{Json, bool, str, nat, list, dict}

pub data Verdict : Type 0 where
  compatible incompatible unknown : Verdict

abbrev pub is_compatible : Verdict → Bool
is_compatible compatible = true
is_compatible _ = false

abbrev pub is_incompatible : Verdict → Bool
is_incompatible incompatible = true
is_incompatible _ = false

abbrev pub verdict_text : Verdict → String
verdict_text compatible = "COMPATIBLE"
verdict_text incompatible = "INCOMPATIBLE"
verdict_text unknown = "UNKNOWN"

abbrev pub FieldDefinition : Type 0
FieldDefinition = Field

pub record PrimaryKeyField : Type 0 where
  pub ordinal : ℕ
  pub name : String
  pub data_type : String

pub record ContractIdentity : Type 0 where
  pub contract_id : String
  pub version : String
  pub digest : String

pub record SchemaDecision : Type 0 where
  pub decision_id : String
  pub decision_digest : String
  pub generation_id : String
  pub source_table : String
  pub previous : ContractIdentity
  pub candidate : ContractIdentity
  pub previous_primary_key : List PrimaryKeyField
  pub candidate_primary_key : List PrimaryKeyField
  pub policy_id : String
  pub policy_version : String
  pub policy_digest : String
  pub verdict : Verdict
  pub reason_codes : List String
  pub required_action : String
  pub added_fields : List FieldDefinition

-- asdict
abbrev pub field_json : FieldDefinition → Json
field_json f =
    dict
      (("name", str f.name) ∷ ("data_type", str f.data_type) ∷ ("nullable", bool f.nullable) ∷ [])

abbrev pub key_json : PrimaryKeyField → Json
key_json k =
    dict (("ordinal", nat k.ordinal) ∷ ("name", str k.name) ∷ ("data_type", str k.data_type) ∷ [])

abbrev pub identity_json : ContractIdentity → Json
identity_json i = dict (
    ("contract_id", str i.contract_id) ∷ ("version", str i.version) ∷ ("digest", str i.digest) ∷ [])

unfoldable pub decision_record : SchemaDecision → Json
decision_record d = dict (
    ("decision_id", str d.decision_id)
    ∷ ("decision_digest", str d.decision_digest)
    ∷ ("generation_id", str d.generation_id)
    ∷ ("source_table", str d.source_table)
    ∷ ("previous", identity_json d.previous)
    ∷ ("candidate", identity_json d.candidate)
    ∷ ("previous_primary_key", list (map key_json d.previous_primary_key))
    ∷ ("candidate_primary_key", list (map key_json d.candidate_primary_key))
    ∷ ("policy_id", str d.policy_id)
    ∷ ("policy_version", str d.policy_version)
    ∷ ("policy_digest", str d.policy_digest)
    ∷ ("verdict", str (verdict_text d.verdict))
    ∷ ("reason_codes", list (map str d.reason_codes))
    ∷ ("required_action", str d.required_action)
    ∷ ("added_fields", list (map field_json d.added_fields))
    ∷ [])

-- text[:n]
unfoldable pub prefix : ℕ → String → String
prefix zero s = ""
prefix (suc n) String.[] = ""
prefix (suc n) (String.◌∷◌ x s) = String.◌∷◌ x (prefix n s)
