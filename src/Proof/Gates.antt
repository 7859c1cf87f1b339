-- ===== src/Proof/Gates.antt =====
-- src/changebridge/proof_gates.py: the records of gates, and the manifest that is assembled of them.
-- The detail of an error is left out. Each call of `semantic_digest` may itself raise.
use changebridge_cdc_migrati.Base.{
  ℕ, String, Bool, true, false, not, ◌&&◌, ◌||◌, Option, none, some, List, [], ◌∷◌, ◌++◌, map,
}
use changebridge_cdc_migrati.Base.Tests.{if◌then◌else◌, is_some}
use changebridge_cdc_migrati.Base.Key.{◌==◌, text_key, number_key}
use changebridge_cdc_migrati.Base.Int.{ℤ, pos, negsuc}
use changebridge_cdc_migrati.Base.Result.{Result, ok, err, ◌>>=◌, ◌>>◌, require, require_all}
use changebridge_cdc_migrati.Base.Table.{Table, find}
use changebridge_cdc_migrati.Base.Members.{seen, distinct}
use changebridge_cdc_migrati.Base.Sort.{sort, text_le}
use changebridge_cdc_migrati.Json.{
  Json, null, bool, num, str, arr, obj, nil, cons, Fields, end, field, Codec, list, dict, nat,
}
use changebridge_cdc_migrati.Json.Access.{get, lookup, is_text, is_number}
use changebridge_cdc_migrati.Json.Contracts.{ContractError, semantic_digest}

-- the codes CB26G001 to CB26G015, what `semantic_digest` raises, and TypeError
pub data GateError : Type 0 where
  unknown_gate unbound_gate frontier_invalid evidence_incomplete verdict_invalid : GateError
  revision_invalid duplicate_gate generation_mismatch frontier_mismatch schema_mismatch : GateError
  stale_gate failed_gate missing_gate gate_digest_mismatch type_error : GateError
  bootstrap_policy_invalid : GateError
  contract : ContractError → GateError

abbrev pub required_gates : List String
required_gates =
    "continuity" ∷ "schema" ∷ "deletes" ∷ "reconciliation" ∷ "lag" ∷ "pre_migration"
    ∷ "rollback_readiness" ∷ "evidence_integrity" ∷ []

abbrev pub digest_of : {A : Type 0} → Result ContractError A → Result GateError A
digest_of (ok a) = ok a
digest_of (err e) = err (contract e)

-- the text of gate_id, if it is one of REQUIRED_GATES
unfoldable pub known_gate : Option Json → Option String
unfolding seen
known_gate (some (str id)) = if seen id required_gates then some id else none
known_gate _ = none

-- a member of a set is hashed first
abbrev hashable : Option Json → Bool
hashable (some (arr xs)) = false
hashable (some (obj fs)) = false
hashable _ = true

abbrev truthy : Option Json → Bool
truthy none = false
truthy (some null) = false
truthy (some (bool b)) = b
truthy (some (num (pos n))) = not (n == 0)
truthy (some (num (negsuc n))) = true
truthy (some (str s)) = not (s == "")
truthy (some (arr nil)) = false
truthy (some (arr (cons x xs))) = true
truthy (some (obj end)) = false
truthy (some (obj (field k x fs))) = true

abbrev is_frontier : Option Json → Bool
is_frontier (some (obj fs)) =
    is_text "postgres_lsn" (lookup "kind" fs) && truthy (lookup "value" fs)
is_frontier _ = false

-- isinstance(value, str) and value
abbrev is_filled : Option Json → Bool
is_filled (some (str s)) = not (s == "")
is_filled _ = false

-- isinstance(value, int) and value >= 0, where a bool is an int
abbrev is_revision : Option Json → Bool
is_revision (some (num (pos n))) = true
is_revision (some (bool b)) = true
is_revision _ = false

-- a sequence that is not a text and not empty
abbrev is_listed : Option Json → Bool
is_listed (some (arr (cons x xs))) = true
is_listed _ = false

abbrev every : (Option Json → Bool) → List String → Json → Bool
every test [] gate = true
every test (k ∷ ks) gate = test (get k gate) && every test ks gate

abbrev bound_fields : List String
bound_fields = "generation_id" ∷ "schema_set_digest" ∷ "producer" ∷ "producer_version" ∷ []

abbrev evidence_fields : List String
evidence_fields = "input_digests" ∷ "evidence_refs" ∷ "limitations" ∷ "invalidation_conditions" ∷ []

-- {key: value for key, value in gate.items() if key != k}
unfoldable pub without : String → Fields → Fields
without k end = end
without k (field j x fs) = let rest = without k fs in if j == k then rest else field j x rest

abbrev body_of : Json → Json
unfolding without
body_of (obj fs) = obj (without "gate_digest" fs)
body_of j = j

-- value is None, where an absent key is None too
abbrev pub is_none : Option Json → Bool
is_none none = true
is_none (some null) = true
is_none _ = false

-- the expected values, where Python counts True as 1 and False as 0
unfoldable pub validate_bootstrap_policy : Json → Result GateError (Unit {0})
validate_bootstrap_policy receipt = require_all (
    (
      is_text "FIRST_PUBLICATION_SOURCE_FALLBACK" (get "policy" receipt)
          && (is_none (get "active_pointer_before_publication" receipt)
              && (is_number 1 (get "source_authoritative" receipt)
                  && (is_number 7 (get "publication_stage" receipt)
                      && (is_text "ABSENT_ACTIVE_POINTER" (get "rollback_target" receipt)
                          && is_number 0 (get "represents_prior_published_generation" receipt))))),
      bootstrap_policy_invalid,
    )
    ∷ (truthy (get "evidence_refs" receipt), evidence_incomplete)
    ∷ [])

-- what the manifest binds its gates to
pub record Binding : Type 0 where
  pub generation_id : String
  pub frontier : String
  pub schema_set_digest : String
  pub input_revision : ℕ

-- gate["frontier"]["value"]
abbrev pub frontier_value : Json → Option Json
frontier_value gate = elim (get "frontier" gate) [ none ↦ none | some f ↦ get "value" f ]

-- [by_id[gate] for gate in ids], where none is missing
unfoldable pub pick : List String → Table String Json → Option (List Json)
unfolding find
pick [] by_id = some []
pick (id ∷ ids) by_id =
    let rest = pick ids by_id in
    elim (find id by_id) [
      | none ↦ none
      | some gate ↦ elim rest [ none ↦ none | some gates ↦ some (gate ∷ gates) ]
    ]

abbrev pub frontier_json : String → Json
frontier_json frontier = dict (("kind", str "postgres_lsn") ∷ ("value", str frontier) ∷ [])

abbrev pub manifest_fields : Binding → Json → List Json → List (String × Json)
manifest_fields b seal_digest gates =
    ("record_type", str "proof_manifest")
    ∷ ("contract_version", str "2.0.0")
    ∷ ("protocol", str "changebridge-frontier-proof/2.0.0")
    ∷ ("generation_id", str b.generation_id)
    ∷ ("frontier", frontier_json b.frontier)
    ∷ ("schema_set_digest", str b.schema_set_digest)
    ∷ ("input_revision", nat b.input_revision)
    ∷ ("seal_digest", seal_digest)
    ∷ ("state", str "SEALED")
    ∷ ("gates", list gates)
    ∷ []

unfoldable pub gate_guards : Json → List (Bool × GateError)
unfolding known_gate
gate_guards gate =
    (is_some (known_gate (get "gate_id" gate)), unknown_gate)
    ∷ (hashable (get "verdict" gate), type_error)
    ∷ (is_text "PASS" (get "verdict" gate) || is_text "FAIL" (get "verdict" gate), verdict_invalid)
    ∷ (is_frontier (get "frontier" gate), frontier_invalid)
    ∷ (every is_filled bound_fields gate, unbound_gate)
    ∷ (is_revision (get "input_revision" gate), revision_invalid)
    ∷ (every is_listed evidence_fields gate, evidence_incomplete)
    ∷ []

module _ (c : Codec) where
  unfoldable pub check_digest : Option Json → Json → Result GateError (Unit {0})
  unfolding without
  check_digest none gate = ok tt
  check_digest (some null) gate = ok tt
  check_digest (some recorded) gate = do
    digest ← digest_of (semantic_digest c (body_of gate) "stage26-gate-result")
    require (is_text digest (some recorded)) gate_digest_mismatch

  unfoldable pub validate_gate : Json → Result GateError (Unit {0})
  unfolding check_digest gate_guards
  validate_gate gate = require_all (gate_guards gate) >> check_digest (get "gate_digest" gate) gate

module _ (c : Codec) (b : Binding) where
  abbrev pub guards : Table String Json → Json → String → List (Bool × GateError)
  guards by_id gate id =
      (not (is_some (find id by_id)), duplicate_gate)
      ∷ (is_text b.generation_id (get "generation_id" gate), generation_mismatch)
      ∷ (is_text b.frontier (frontier_value gate), frontier_mismatch)
      ∷ (is_text b.schema_set_digest (get "schema_set_digest" gate), schema_mismatch)
      ∷ (is_number b.input_revision (get "input_revision" gate), stale_gate)
      ∷ (is_text "PASS" (get "verdict" gate), failed_gate)
      ∷ []

  unfoldable pub admit_as :
      Table String Json → Json → Option String → Result GateError (Table String Json)
  unfolding find
  admit_as by_id gate none = err unknown_gate
  admit_as by_id gate (some id) =
      require_all (guards by_id gate id) >> ok (by_id ++ (id, gate) ∷ [])

  unfoldable pub admit_gates : Table String Json → List Json → Result GateError (Table String Json)
  unfolding validate_gate admit_as known_gate
  admit_gates by_id [] = ok by_id
  admit_gates by_id (gate ∷ gates) = do
    validate_gate c gate
    by_id' ← admit_as by_id gate (known_gate (get "gate_id" gate))
    admit_gates by_id' gates

  unfoldable pub write_manifest : Json → Option (List Json) → Result GateError Json
  write_manifest seal_digest none = err missing_gate
  write_manifest seal_digest (some gates) = do
    let body = manifest_fields b seal_digest gates
    digest ← digest_of (semantic_digest c (dict body) "stage26-proof-manifest")
    ok (dict (body ++ ("proof_manifest_digest", str digest) ∷ []))

  unfoldable pub assemble_manifest : List Json → Json → Result GateError Json
  unfolding admit_gates pick write_manifest
  assemble_manifest gates seal_digest = do
    by_id ← admit_gates [] gates
    write_manifest seal_digest (pick required_gates by_id)

-- the arguments of `gate_record`
pub record GateInputs : Type 0 where
  pub gate_id : String
  pub generation_id : String
  pub frontier : String
  pub schema_set_digest : String
  pub input_revision : ℤ
  pub input_digests : List String
  pub evidence_refs : List String
  pub producer : String
  pub producer_version : String
  pub limitations : List String
  pub invalidation_conditions : List String
  pub verdict : String

-- sorted(set(texts))
unfoldable pub sorted_set : List String → List String
unfolding sort distinct
sorted_set texts = sort text_le (distinct texts)

abbrev pub texts : List String → Json
texts ts = list (map str ts)

abbrev pub gate_fields : GateInputs → List (String × Json)
gate_fields g =
    ("record_type", str "gate_result")
    ∷ ("contract_version", str "2.0.0")
    ∷ ("gate_id", str g.gate_id)
    ∷ ("generation_id", str g.generation_id)
    ∷ ("frontier", frontier_json g.frontier)
    ∷ ("schema_set_digest", str g.schema_set_digest)
    ∷ ("input_revision", num g.input_revision)
    ∷ ("input_digests", texts (sorted_set g.input_digests))
    ∷ ("evidence_refs", texts (sorted_set g.evidence_refs))
    ∷ ("producer", str g.producer)
    ∷ ("producer_version", str g.producer_version)
    ∷ ("verdict", str g.verdict)
    ∷ ("limitations", texts g.limitations)
    ∷ ("invalidation_conditions", texts g.invalidation_conditions)
    ∷ []

unfoldable pub gate_record : Codec → GateInputs → Result GateError Json
unfolding validate_gate
gate_record c g = do
  validate_gate c (dict (gate_fields g))
  digest ← digest_of (semantic_digest c (dict (gate_fields g)) "stage26-gate-result")
  ok (dict (gate_fields g ++ ("gate_digest", str digest) ∷ []))
