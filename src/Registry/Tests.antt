-- ===== src/Registry/Tests.antt =====
-- Runs of the registry, and the theorems at those runs.
use mathlib.Core.Option
use changebridge_cdc_migrati.Base.{ℕ, String, true, false, some, List, [], ◌∷◌, ◌≡◌, refl}
use changebridge_cdc_migrati.Base.Key.{text_key, pair_key, number_key}
use changebridge_cdc_migrati.Base.Int.{pos}
use changebridge_cdc_migrati.Base.Table.{find, insert, update}
use changebridge_cdc_migrati.Base.Exec.{done, raised, after}
use changebridge_cdc_migrati.Base.Result.{ok, err}
use changebridge_cdc_migrati.Json.{Json, dict, str, nat, bool}
use changebridge_cdc_migrati.Json.Contracts.{canonical_value, canonical_bytes, semantic_digest}
use changebridge_cdc_migrati.Json.Access.{lookup, get, size, has_keys}
use changebridge_cdc_migrati.Json.Sample.{sample, print, tally}
use changebridge_cdc_migrati.Registry
use changebridge_cdc_migrati.Registry.{
  Store, Host, Registration, Commit, Shard, Proof, empty, get_generation, lineage_material, owned,
  insert_or_compare, deterministic_generation_id, generation_namespace, check_namespace,
  owns_warehouse, created_row, register_generation,
}
use changebridge_cdc_migrati.Registry.Transitions.{
  allowed, admits, write_transition, move, transition,
}
use changebridge_cdc_migrati.Registry.Shards.{
  Claim, get_shard, claimed_elsewhere, claimed_row, claim_or_compare, claim_shard, allowed_shard,
  move_shard, mark_shard_state,
}
use changebridge_cdc_migrati.Registry.Commits.{target_commit, insert_commit, record_target_commit}
use changebridge_cdc_migrati.Registry.Admission.{
  shards, all_reconciled, claims_complete, counts_fail, counts_match, insert_proof,
  record_admission_proof,
}
use changebridge_cdc_migrati.Registry.Change.{Call, run, run_all}
use changebridge_cdc_migrati.Registry.States.{lawful, states_lawful}
use changebridge_cdc_migrati.Registry.Identity.{Continues, shard-Continues, commit_kept}

program : Unit {0}
unfolding find insert update print tally canonical_value canonical_bytes semantic_digest lookup get
    size has_keys get_generation lineage_material owned insert_or_compare
    deterministic_generation_id generation_namespace check_namespace owns_warehouse created_row
    register_generation allowed admits write_transition move transition get_shard claimed_elsewhere
    claimed_row claim_or_compare claim_shard allowed_shard move_shard mark_shard_state target_commit
    insert_commit record_target_commit shards all_reconciled claims_complete counts_fail
    counts_match insert_proof record_admission_proof run run_all
program = tt

-- a host that accepts every pattern and path of the generation
abbrev host : Host
host = record {
  fullmatch = λ _ _. true;
  is_absolute = λ _. true;
  name = λ path. path;
  parent_name = λ _. "generations";
  resolve = λ path. path;
  exists = λ _. false;
  is_symlink = λ _. false;
}

abbrev generation_id : String
generation_id = "generation-w"

abbrev registration : Registration
unfolding program
registration = record {
  generation_id = generation_id;
  workload_id = "w";
  run_id = "run-1";
  snapshot_frontier = "0/194FB20";
  schema_set_digest = "schemas";
  canonicalization_profile = "changebridge-canonical-json/1.0.0";
  warehouse_path = generation_id;
  namespace = elim (generation_namespace sample host generation_id empty) [
    | done n _ ↦ n
    | raised _ _ ↦ ""
  ];
  table_map = dict (("orders", str "o") ∷ ("order_items", str "i") ∷ []);
}

abbrev claim : String → Claim
claim token = record {
  source_table = "orders";
  input_digest = "input";
  row_count = pos 6;
  idempotency_key = token;
  commit_token = token;
}

abbrev commit : Commit
commit = record {
  shard_id = "shard-1";
  iceberg_table = "orders";
  physical_snapshot_id = "snap-1";
  input_digest = "input";
  row_count = pos 6;
  logical_digest = "logical";
  summary_digest = "summary";
  reconciliation_state = "MATCHED";
}

abbrev results : String → Json
results n = dict (
    ("orders", dict (("row_count", nat 6) ∷ []))
    ∷ ("order_items", dict (("row_count", nat 66) ∷ []))
    ∷ [])

abbrev admission : Json
admission = dict (
    ("verdict", str "PASS")
    ∷ ("generation_id", str generation_id)
    ∷ ("snapshot_frontier", dict (("kind", str "postgres_lsn") ∷ ("value", str "0/194FB20") ∷ []))
    ∷ ("post_s_cdc_applied", nat 0)
    ∷ ("all_commits_reconciled", bool true)
    ∷ ("active_or_foreign_mutations", nat 0)
    ∷ ("table_results", results "")
    ∷ [])

abbrev admission_digest : String
unfolding program
admission_digest = elim (semantic_digest sample admission "stage23-snapshot-admission") [
  | ok d ↦ d
  | err _ ↦ ""
]

abbrev loading : List Call
loading =
    Call.register_generation registration
    ∷ Call.transition generation_id 0 (some Registry.snapshot_loading) "loader" (dict [])
    ∷ Call.claim_shard generation_id "shard-1" (claim "t1")
    ∷ Call.claim_shard generation_id "shard-2" (claim "t2")
    ∷ []

abbrev admitting : List Call
admitting =
    Call.mark_shard_state generation_id "shard-1" (some Registry.committed)
    ∷ Call.mark_shard_state generation_id "shard-1" (some Registry.reconciled)
    ∷ Call.mark_shard_state generation_id "shard-2" (some Registry.committed)
    ∷ Call.mark_shard_state generation_id "shard-2" (some Registry.reconciled)
    ∷ Call.record_admission_proof generation_id admission
    ∷ Call.transition generation_id 1 (some Registry.cdc_applying) "loader"
        (dict (("admission_proof_digest", str admission_digest) ∷ []))
    ∷ []

abbrev loaded : Store
loaded = run_all sample host loading empty

abbrev whole : List Call
whole =
    Call.register_generation registration
    ∷ Call.transition generation_id 0 (some Registry.snapshot_loading) "loader" (dict [])
    ∷ Call.claim_shard generation_id "shard-1" (claim "t1")
    ∷ Call.claim_shard generation_id "shard-2" (claim "t2")
    ∷ admitting

-- the whole life of a candidate: it ends applying changes, at revision 2
life :
    Option.map {B = Registry.GenerationState × ℕ}
      (λ g. (g.state, g.revision))
      (find generation_id (run_all sample host whole empty).generation_registry)
    ≡ some (Registry.cdc_applying, 2)
unfolding program
life = refl

shard_1 : find (generation_id, "shard-1") loaded.snapshot_shards ≡ some (claimed_row (claim "t1"))
unfolding program
shard_1 = refl

abbrev recorded : Store
recorded = after (record_target_commit generation_id "t1" commit loaded)

commit_is_recorded : record_target_commit generation_id "t1" commit loaded ≡ done commit recorded
unfolding program
commit_is_recorded = refl

states_lawful_example :
    lawful
      (find generation_id (run_all sample host whole empty).generation_registry)
      (find generation_id (run_all sample host whole empty).snapshot_admission_proofs)
    ≡ true
states_lawful_example = states_lawful sample host whole generation_id

shard-Continues_example :
    (b : Shard) × (find
        (generation_id, "shard-1")
        (run_all sample host admitting loaded).snapshot_shards
      ≡ some b)
    × Continues (claimed_row (claim "t1")) b
shard-Continues_example =
    shard-Continues sample host admitting loaded generation_id "shard-1" (claimed_row (claim "t1"))
      shard_1

commit_kept_example :
    (commit ≡ commit)
    × (target_commit generation_id "t1" (run_all sample host admitting recorded)
        ≡ done commit (run_all sample host admitting recorded))
    × (record_target_commit generation_id "t1" commit (run_all sample host admitting recorded)
        ≡ done commit (run_all sample host admitting recorded))
commit_kept_example =
    commit_kept sample host admitting generation_id "t1" commit commit loaded recorded
      commit_is_recorded
