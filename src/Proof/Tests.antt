-- ===== src/Proof/Tests.antt =====
-- A ledger that proves one generation, and the theorems at it.
use changebridge_cdc_migrati.Base.{String, true, false, some, List, [], ◌∷◌, ◌++◌, map, ◌≡◌, refl}
use changebridge_cdc_migrati.Base.Tests.{if◌then◌else◌}
use changebridge_cdc_migrati.Base.Key.{◌==◌, text_key, pair_key}
use changebridge_cdc_migrati.Base.Int.{pos}
use changebridge_cdc_migrati.Base.Exec.{raised}
use changebridge_cdc_migrati.Base.Members.{seen, distinct, distinct_from, distinct_iff}
use changebridge_cdc_migrati.Base.Sort.{sort, insert_sorted}
use changebridge_cdc_migrati.Base.Table.{Table, find, update, insert_or_ignore}
use changebridge_cdc_migrati.Base.Result.{ok, err}
use changebridge_cdc_migrati.Json.{Json, null, bool, nat, list, str, dict, Codec}
use changebridge_cdc_migrati.Json.Access.{get, lookup}
use changebridge_cdc_migrati.Json.Contracts.{canonical_value, canonical_bytes, semantic_digest}
use changebridge_cdc_migrati.Json.Sample.{print, tally}
use changebridge_cdc_migrati.Proof.Gates.{
  GateInputs, Binding, required_gates, known_gate, gate_guards, check_digest, without,
  validate_gate, pick, manifest_fields, admit_as, admit_gates, write_manifest, assemble_manifest,
  sorted_set, gate_fields, gate_record, validate_bootstrap_policy, evidence_incomplete, stale_gate,
  missing_gate,
}
use changebridge_cdc_migrati.Proof.Assembly.{Passing, IsManifest, assemble_manifest-IsManifest}
use changebridge_cdc_migrati.Proof.Completeness.{AllPass, assemble_manifest_returns}
use changebridge_cdc_migrati.Proof.Records.{validate_gate-gate_record}
use changebridge_cdc_migrati.Proof.Ledger.{
  Generation, empty, proven, register_candidate, seal, begin_proof, record_as, record_gate,
  gates_of, recorded, seal_manifest, invalid_seal_state,
}
use changebridge_cdc_migrati.Proof.Change
use changebridge_cdc_migrati.Proof.Change.{Call, run, run_all}
use changebridge_cdc_migrati.Proof.Evidence.{IsBacked, generation-IsBacked}
use changebridge_cdc_migrati.Proof.Forward.{Later, run_all-Ahead}

program : Unit {0}
unfolding find update insert_or_ignore sort insert_sorted seen distinct get lookup print tally
    canonical_value canonical_bytes semantic_digest known_gate gate_guards check_digest without
    validate_gate pick admit_as admit_gates write_manifest assemble_manifest sorted_set gate_record
    register_candidate seal begin_proof record_as record_gate gates_of recorded seal_manifest run
    run_all
program = tt

abbrev inputs : String → GateInputs
inputs id = record {
  gate_id = id;
  generation_id = "g";
  frontier = "0/A";
  schema_set_digest = "schemas";
  input_revision = pos 1;
  input_digests = "b" ∷ "a" ∷ "b" ∷ [];
  evidence_refs = "ref" ∷ [];
  producer = "prover";
  producer_version = "1";
  limitations = "none" ∷ [];
  invalidation_conditions = "new data" ∷ [];
  verdict = "PASS";
}

abbrev gate : String → Json
unfolding program
gate id = dict (gate_fields (inputs id))

abbrev sealed_by : Json
sealed_by = dict (("seal_digest", str "seal") ∷ [])

-- the value that prints as a text
decode : List Json → String → Json
unfolding print
decode [] text = null
decode (j ∷ js) text = let rest = decode js text in if print j == text then j else rest

abbrev codec : Codec
unfolding program decode gate
codec = record {
  dumps = λ _. print;
  loads = decode (sealed_by ∷ map gate required_gates);
  sha256 = λ text. "digest";
  nfc = λ text. text;
}

abbrev binding : Binding
binding = record {
  generation_id = "g";
  frontier = "0/A";
  schema_set_digest = "schemas";
  input_revision = 1;
}

abbrev manifest : Json
unfolding gate
manifest = dict (
    manifest_fields binding (str "seal") (map gate required_gates)
    ++ ("proof_manifest_digest", str "digest") ∷ [])

abbrev record_all : List String → List Call
unfolding gate
record_all [] = []
record_all (id ∷ ids) = Change.record_gate "digest" (gate id) ∷ record_all ids

abbrev calls : List Call
unfolding record_all
calls =
    Change.register_candidate "g" "0/A" "schemas"
      ∷ Change.seal "g" sealed_by
      ∷ Change.begin_proof "g"
      ∷ record_all required_gates
    ++ Change.seal_manifest "digest" ∷ []

abbrev row : Generation
unfolding program manifest
row = record {
  frontier = "0/A";
  schema_set_digest = "schemas";
  state = proven;
  revision = 2;
  seal_json = some (print sealed_by);
  manifest_json = some (print manifest);
}

stale :
    assemble_manifest codec (record binding { input_revision = 2 }) (gate "lag" ∷ []) null
    ≡ err stale_gate
unfolding program gate codec
stale = refl

missing : assemble_manifest codec binding (gate "lag" ∷ []) null ≡ err missing_gate
unfolding program gate codec
missing = refl

abbrev receipt : Json → Json
receipt evidence = dict (
    ("policy", str "FIRST_PUBLICATION_SOURCE_FALLBACK")
    ∷ ("source_authoritative", bool true)
    ∷ ("publication_stage", nat 7)
    ∷ ("rollback_target", str "ABSENT_ACTIVE_POINTER")
    ∷ ("represents_prior_published_generation", bool false)
    ∷ ("evidence_refs", evidence)
    ∷ [])

bootstrap : validate_bootstrap_policy (receipt (list (str "ref" ∷ []))) ≡ ok tt
unfolding program validate_bootstrap_policy
bootstrap = refl

bootstrap_unproven : validate_bootstrap_policy (receipt (list [])) ≡ err evidence_incomplete
unfolding program validate_bootstrap_policy
bootstrap_unproven = refl

resealed :
    seal codec "g" sealed_by (run_all codec calls empty)
    ≡ raised invalid_seal_state (run_all codec calls empty)
unfolding program codec calls
resealed = refl

assemble_manifest-IsManifest_example : IsManifest codec binding (str "seal") manifest
unfolding program gate codec manifest
assemble_manifest-IsManifest_example =
    assemble_manifest-IsManifest codec binding (map gate required_gates) (str "seal") manifest refl

abbrev signed_lag : Json
unfolding program
signed_lag = dict (gate_fields (inputs "lag") ++ ("gate_digest", str "digest") ∷ [])

validate_gate-gate_record_example : validate_gate codec signed_lag ≡ ok tt
unfolding program codec signed_lag
validate_gate-gate_record_example = validate_gate-gate_record codec (inputs "lag") signed_lag refl

generation-IsBacked_example : IsBacked codec "g" row
unfolding program codec calls row
generation-IsBacked_example = generation-IsBacked codec calls "g" row refl

run_all-Ahead_example :
    Later codec "g" row
      (run_all codec
        (Change.seal "g" null ∷ Change.begin_proof "g" ∷ [])
        (run_all codec calls empty)).generations
unfolding program codec calls row
run_all-Ahead_example =
    run_all-Ahead codec (Change.seal "g" null ∷ Change.begin_proof "g" ∷ [])
      (run_all codec calls empty) "g" row refl

passing :
    (id : String)
    → validate_gate codec (gate id) ≡ ok tt
    → known_gate (get "gate_id" (gate id)) ≡ some id
    → Passing codec binding id (gate id)
unfolding program gate codec
passing id valid known = record {
  valid = valid;
  identifier = known;
  passed = refl;
  generation = refl;
  at_frontier = refl;
  schemas = refl;
  revision = refl;
}

abbrev rows : Table String Json
unfolding gate
rows = map (λ id. (id, gate id)) required_gates

every_pass : AllPass codec binding rows
unfolding program gate codec rows
every_pass = (
  passing "continuity" refl refl,
  (
    passing "schema" refl refl,
    (
      passing "deletes" refl refl,
      (
        passing "reconciliation" refl refl,
        (
          passing "lag" refl refl,
          (
            passing "pre_migration" refl refl,
            (passing "rollback_readiness" refl refl, (passing "evidence_integrity" refl refl, tt)),
          ),
        ),
      ),
    ),
  ),
)

assemble_manifest_returns_example :
    assemble_manifest codec binding (map gate required_gates) (str "seal") ≡ ok manifest
unfolding program gate codec manifest rows distinct_from
assemble_manifest_returns_example =
    assemble_manifest_returns codec binding rows (map gate required_gates) (str "seal") "digest"
      ((distinct_iff required_gates).0 refl) every_pass refl refl
