-- ===== src/SchemaControl/Policy.antt =====
-- src/changebridge/schema_policy.py: `SchemaRegistry` and `SchemaPolicy.decide`. The fields of a
-- contract are those of schema.py. `current` is the module's POLICY_DIGEST.
use Prim.Native.String.{◌++◌ as ◌⧺◌}
use changebridge_cdc_migrati.Base.{
  String, Bool, true, false, not, ◌&&◌, ◌||◌, Option, none, some, List, [], ◌∷◌, ◌++◌, map,
}
use changebridge_cdc_migrati.Base.Tests.{if◌then◌else◌, is_some}
use changebridge_cdc_migrati.Base.Key.{◌==◌, text_key, triple_key, number_key}
use changebridge_cdc_migrati.Base.Result.{Result, ok, err}
use changebridge_cdc_migrati.Base.Table.{Table, find, replace}
use changebridge_cdc_migrati.Base.Members.{distinct}
use changebridge_cdc_migrati.Base.Sort.{sort, text_le}
use changebridge_cdc_migrati.Json.{Json, Codec, str, list, dict}
use changebridge_cdc_migrati.Json.Contracts.{ContractError, semantic_digest}
use changebridge_cdc_migrati.Cutover.Schema.{by_name, is_empty}
use changebridge_cdc_migrati.Cutover.Gate.{fail_if}
use changebridge_cdc_migrati.SchemaControl.Decision.{
  Verdict, compatible, incompatible, unknown, verdict_text, FieldDefinition, PrimaryKeyField,
  ContractIdentity, SchemaDecision, field_json, key_json, identity_json, prefix,
}

pub record RegisteredSchema : Type 0 where
  pub identity : ContractIdentity
  pub source_table : String
  pub fields : List FieldDefinition
  pub primary_key : List PrimaryKeyField

-- == of two primary keys
unfoldable pub same_keys : List PrimaryKeyField → List PrimaryKeyField → Bool
same_keys [] [] = true
same_keys (j ∷ js) (k ∷ ks) =
    (j.ordinal == k.ordinal && (j.name == k.name && j.data_type == k.data_type)) && same_keys js ks
same_keys _ _ = false

abbrev pub bool_eq : Bool → Bool → Bool
bool_eq true b = b
bool_eq false b = not b

unfoldable pub same_fields : List FieldDefinition → List FieldDefinition → Bool
same_fields [] [] = true
same_fields (f ∷ fs) (g ∷ gs) =
    (f.name == g.name && (f.data_type == g.data_type && bool_eq f.nullable g.nullable))
    && same_fields fs gs
same_fields _ _ = false

abbrev pub identity_key : ContractIdentity → String × String × String
identity_key i = (i.contract_id, i.version, i.digest)

unfoldable pub same_contract : RegisteredSchema → RegisteredSchema → Bool
unfolding same_keys same_fields
same_contract a b =
    identity_key a.identity == identity_key b.identity
    && (a.source_table == b.source_table
        && (same_fields a.fields b.fields && same_keys a.primary_key b.primary_key))

abbrev pub Registry : Type 0
Registry = Table (String × String × String) RegisteredSchema

pub data PolicyError : Type 0 where
  registry_conflict : PolicyError
  contract_error : ContractError → PolicyError

unfoldable pub add : RegisteredSchema → Registry → Result PolicyError Registry
unfolding find replace same_contract
add contract registry =
    let key = identity_key contract.identity in
    elim (find key registry) [
      | none ↦ ok (replace key contract registry)
      | some existing ↦
          if same_contract existing contract
          then ok (replace key contract registry)
          else err registry_conflict
    ]

unfoldable pub resolve : ContractIdentity → Registry → Option RegisteredSchema
unfolding find
resolve identity registry = find (identity_key identity) registry

-- whether a field of the old contract is not one of the new
unfoldable pub any_removed : Table String FieldDefinition → Table String FieldDefinition → Bool
unfolding find
any_removed new [] = false
any_removed new ((name, f) ∷ old) = not (is_some (find name new)) || any_removed new old

abbrev pub change_reasons : FieldDefinition → FieldDefinition → List String
change_reasons before after =
    fail_if (not (before.data_type == after.data_type)) "CB25S022_TYPE_CHANGED"
    ++ fail_if (before.nullable && not after.nullable) "CB25S023_NULLABILITY_NARROWED"

-- the loop over the names in both; its order does not show, as the reasons are sorted
unfoldable pub changes : Table String FieldDefinition → Table String FieldDefinition → List String
unfolding find
changes new [] = []
changes new ((name, before) ∷ old) =
    let rest = changes new old in
    elim (find name new) [ none ↦ rest | some after ↦ change_reasons before after ++ rest ]

unfoldable pub only_new :
    Table String FieldDefinition → Table String FieldDefinition → Table String FieldDefinition
unfolding find
only_new old [] = []
only_new old ((name, f) ∷ new) =
    let rest = only_new old new in if is_some (find name old) then rest else (name, f) ∷ rest

unfoldable pub added_fields :
    Table String FieldDefinition → Table String FieldDefinition → Table String FieldDefinition
unfolding only_new sort
added_fields old new = sort (λ p q. text_le p.0 q.0) (only_new old new)

unfoldable pub any_required : Table String FieldDefinition → Bool
any_required [] = false
any_required ((name, f) ∷ fields) = not f.nullable || any_required fields

pub record Assessment : Type 0 where
  pub verdict : Verdict
  pub reasons : List String
  pub added : List FieldDefinition

abbrev pub unknown_for : String → Assessment
unknown_for reason = record { verdict = unknown; reasons = reason ∷ []; added = [] }

unfoldable pub compare_contracts : RegisteredSchema → RegisteredSchema → Assessment
unfolding by_name same_keys any_removed changes added_fields any_required
compare_contracts old new =
    let old_fields = by_name old.fields in
    let new_fields = by_name new.fields in
    let added = added_fields old_fields new_fields in
    let reasons =
      fail_if (not (same_keys old.primary_key new.primary_key)) "CB25S020_PRIMARY_KEY_CHANGED"
      ++ fail_if (any_removed new_fields old_fields) "CB25S021_FIELD_REMOVED"
      ++ changes new_fields old_fields
      ++ fail_if (any_required added) "CB25S024_REQUIRED_FIELD_ADDED" in
    record {
      verdict = if is_empty reasons then compatible else incompatible;
      reasons = reasons;
      added = map (λ r. r.1) added;
    }

unfoldable pub assess_known : String → RegisteredSchema → RegisteredSchema → Assessment
unfolding compare_contracts
assess_known source_table old new =
    if not (old.source_table == source_table) || not (new.source_table == source_table)
    then unknown_for "CB25S011_TABLE_IDENTITY_MISMATCH"
    else compare_contracts old new

unfoldable pub assess_resolved :
    String → Option RegisteredSchema → Option RegisteredSchema → Assessment
unfolding assess_known
assess_resolved source_table (some old) (some new) = assess_known source_table old new
assess_resolved source_table _ _ = unknown_for "CB25S001_UNKNOWN_CONTRACT"

unfoldable pub assess :
    String → String → String → Option RegisteredSchema → Option RegisteredSchema → Assessment
unfolding assess_resolved
assess current policy_digest source_table old new =
    if not (policy_digest == current)
    then unknown_for "CB25S010_POLICY_MISMATCH"
    else assess_resolved source_table old new

abbrev pub action : Verdict → String
action compatible = "APPLY"
action unknown = "QUARANTINE"
action incompatible = "REJECT"

abbrev pub key_of : Option RegisteredSchema → List PrimaryKeyField
key_of none = []
key_of (some contract) = contract.primary_key

module _ (registry : Registry) (current generation_id source_table : String)
    (previous candidate : ContractIdentity) (policy_digest : String) where
  abbrev pub found : Assessment
  unfolding resolve assess
  found =
      assess current policy_digest source_table (resolve previous registry)
        (resolve candidate registry)

  abbrev pub reason_codes : List String
  unfolding sort distinct found
  reason_codes = sort text_le (distinct found.reasons)

  unfoldable pub material : Json
  unfolding found reason_codes
  material = dict (
      ("generation_id", str generation_id)
      ∷ ("source_table", str source_table)
      ∷ ("previous", identity_json previous)
      ∷ ("candidate", identity_json candidate)
      ∷ ("previous_primary_key", list (map key_json (key_of (resolve previous registry))))
      ∷ ("candidate_primary_key", list (map key_json (key_of (resolve candidate registry))))
      ∷ ("policy_id", str "changebridge.schema-policy")
      ∷ ("policy_version", str "1.0.0")
      ∷ ("policy_digest", str policy_digest)
      ∷ ("verdict", str (verdict_text found.verdict))
      ∷ ("reason_codes", list (map str reason_codes))
      ∷ ("required_action", str (action found.verdict))
      ∷ ("added_fields", list (map field_json found.added))
      ∷ [])

  unfoldable pub decision_of : String → SchemaDecision
  unfolding found reason_codes prefix
  decision_of digest = record {
    decision_id = "schema-decision-" ⧺ prefix 24 digest;
    decision_digest = digest;
    generation_id = generation_id;
    source_table = source_table;
    previous = previous;
    candidate = candidate;
    previous_primary_key = key_of (resolve previous registry);
    candidate_primary_key = key_of (resolve candidate registry);
    policy_id = "changebridge.schema-policy";
    policy_version = "1.0.0";
    policy_digest = policy_digest;
    verdict = found.verdict;
    reason_codes = reason_codes;
    required_action = action found.verdict;
    added_fields = found.added;
  }

  unfoldable pub decide : Codec → Result PolicyError SchemaDecision
  unfolding material decision_of
  decide c = elim (semantic_digest c material "stage25-schema-decision") [
    | err e ↦ err (contract_error e)
    | ok digest ↦ ok (decision_of digest)
  ]
