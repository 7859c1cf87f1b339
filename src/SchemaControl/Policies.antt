-- ===== src/SchemaControl/Policies.antt =====
-- A registry of two contracts, and the theorem on decisions at it.
use changebridge_cdc_migrati.Base.{String, true, false, List, [], ◌∷◌, ◌≡◌, ◌↔◌, refl}
use changebridge_cdc_migrati.Base.Key.{text_key, triple_key}
use changebridge_cdc_migrati.Base.Dict.{with_entries}
use changebridge_cdc_migrati.Base.Members.{seen, distinct}
use changebridge_cdc_migrati.Base.Result.{err}
use changebridge_cdc_migrati.Base.Sort.{sort, insert_sorted}
use changebridge_cdc_migrati.Base.Table.{find, replace}
use changebridge_cdc_migrati.Json.Contracts.{canonical_value, canonical_bytes, semantic_digest}
use changebridge_cdc_migrati.Json.Sample.{sample, print, tally}
use changebridge_cdc_migrati.Cutover.Schema.{by_name}
use changebridge_cdc_migrati.SchemaControl.Decision.{
  compatible, FieldDefinition, ContractIdentity, SchemaDecision, prefix,
}
use changebridge_cdc_migrati.SchemaControl.Policy.{
  RegisteredSchema, Registry, registry_conflict, same_keys, same_fields, same_contract, add,
  resolve, any_removed, changes, only_new, added_fields, any_required, compare_contracts,
  assess_known, assess_resolved, assess, material, decision_of, decide,
}
use changebridge_cdc_migrati.SchemaControl.Verdicts.{IsActedOn, AreCompatible, decide_iff}

program : Unit {0}
unfolding find replace with_entries seen distinct sort insert_sorted print tally canonical_value
    canonical_bytes semantic_digest by_name prefix same_keys same_fields same_contract add resolve
    any_removed changes only_new added_fields any_required compare_contracts assess_known
    assess_resolved assess material decision_of decide
program = tt

abbrev identity : String → ContractIdentity
identity version = record { contract_id = "orders"; version = version; digest = version }

abbrev id_field : FieldDefinition
id_field = record { name = "id"; data_type = "string"; nullable = false }

abbrev note_field : FieldDefinition
note_field = record { name = "note"; data_type = "string"; nullable = true }

abbrev contract : String → List FieldDefinition → RegisteredSchema
contract version fields = record {
  identity = identity version;
  source_table = "orders";
  fields = fields;
  primary_key = record { ordinal = 0; name = "id"; data_type = "string" } ∷ [];
}

abbrev registry : Registry
registry =
    (("orders", "1", "1"), contract "1" (id_field ∷ []))
    ∷ (("orders", "2", "2"), contract "2" (id_field ∷ note_field ∷ []))
    ∷ []

conflict : add (contract "1" (note_field ∷ [])) registry ≡ err registry_conflict
unfolding program
conflict = refl

rejected :
    (assess "policy" "policy" "orders"
      (resolve (identity "2") registry)
      (resolve (identity "1") registry)).reasons
    ≡ "CB25S021_FIELD_REMOVED" ∷ []
unfolding program
rejected = refl

-- a field made nullable, and two nullable fields added at once, are compatible changes
widened :
    (compare_contracts
      (contract "1" (id_field ∷ []))
      (contract "2" (record id_field { nullable = true } ∷ []))).verdict
    ≡ compatible
unfolding program
widened = refl

two_added :
    (compare_contracts
      (contract "1" (id_field ∷ []))
      (contract "2" (id_field ∷ note_field ∷ record note_field { name = "tag" } ∷ []))).verdict
    ≡ compatible
unfolding program
two_added = refl

abbrev decision : SchemaDecision
unfolding program
decision =
    decision_of registry "policy" "g" "orders" (identity "1") (identity "2") "policy" "digest"

compatible_decision : decision.verdict ≡ compatible
unfolding program decision
compatible_decision = refl

decide_iff_example :
    IsActedOn decision
    × ((decision.verdict ≡ compatible) ↔ (
        (◌≡◌ {A = String} "policy" "policy")
        × AreCompatible "orders"
            (resolve (identity "1") registry)
            (resolve (identity "2") registry)))
unfolding program decision
decide_iff_example =
    decide_iff registry "policy" "g" "orders" (identity "1") (identity "2") "policy"
      (record sample { sha256 = λ bytes. "digest" }) decision refl
