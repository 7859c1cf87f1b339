-- ===== src/Registry.antt =====
-- src/changebridge/generation_registry.py: `GenerationRegistry`, the control store of candidate
-- generations. Its state and the generations; shards, target commits and proofs are in the children.
pub mod Shards
pub mod Commits
pub mod Admission
pub mod Transitions
pub mod Change
pub mod States
pub mod Identity
pub mod Tests
use Prim.Native.String.{slice, ◌++◌}
use changebridge_cdc_migrati.Base.{
  ℕ, String, Bool, true, false, not, ◌&&◌, ◌||◌, Option, none, some, List, [], ◌∷◌,
}
use changebridge_cdc_migrati.Base.Int.{ℤ, integer_key}
use changebridge_cdc_migrati.Base.Tests.{if◌then◌else◌}
use changebridge_cdc_migrati.Base.Key.{◌==◌, text_key, pair_key, number_key}
use changebridge_cdc_migrati.Base.Table.{Table, find, insert}
use changebridge_cdc_migrati.Base.Exec.{
  Exec, pure, raise, gets, or_raise, modify, raise_if, ◌>>=◌, ◌>>◌,
}
use changebridge_cdc_migrati.Base.Result.{Result, ok, err}
use changebridge_cdc_migrati.Json.{Json, Codec, dict, str}
use changebridge_cdc_migrati.Json.Contracts.{ContractError, semantic_digest}
use changebridge_cdc_migrati.Json.Access.{has_keys}

pub data Error : Type 0 where
  invalid_workload_id generation_id_mismatch namespace_mismatch warehouse_ownership : Error
  table_map generation_replay_conflict physical_ownership_conflict generation_not_found : Error
  unknown_state stale_revision illegal_transition admission_proof_required : Error
  generation_not_writable shard_replay_conflict shard_not_found unknown_shard_state : Error
  illegal_shard_transition commit_replay_conflict commit_not_found : Error
  admission_failed incomplete_admission_proof admission_replay_conflict : Error
  integrity_error attribute_error : Error
  contract : ContractError → Error

-- GENERATION_STATES
pub data GenerationState : Type 0 where
  created snapshot_loading cdc_applying active published rolled_back rejected retired :
      GenerationState

-- SHARD_STATES
pub data ShardState : Type 0 where
  claimed staged committed reconciled : ShardState

pub record Generation : Type 0 where
  pub lineage_digest : String
  pub workload_id : String
  pub run_id : String
  pub snapshot_frontier : String
  pub schema_set_digest : String
  pub canonicalization_profile : String
  pub warehouse_path : String
  pub namespace : String
  pub table_map_json : String
  pub state : GenerationState
  pub revision : ℕ

pub record Shard : Type 0 where
  pub source_table : String
  pub input_digest : String
  pub row_count : ℤ
  pub idempotency_key : String
  pub commit_token : String
  pub state : ShardState
  pub attempt : ℕ

pub record Commit : Type 0 where
  pub shard_id : String
  pub iceberg_table : String
  pub physical_snapshot_id : String
  pub input_digest : String
  pub row_count : ℤ
  pub logical_digest : String
  pub summary_digest : String
  pub reconciliation_state : String

-- The result of a transition is always PASS.
pub record Transition : Type 0 where
  pub from_state : GenerationState
  pub to_state : GenerationState
  pub expected_revision : ℕ
  pub decision_digest : String
  pub actor : String

-- The verdict of a proof is always PASS.
pub record Proof : Type 0 where
  pub proof_digest : String
  pub proof_json : String

-- Shards are keyed by generation and shard, commits by generation and commit token, transitions by
-- generation and resulting revision.
pub record Store : Type 0 where
  pub generation_registry : Table String Generation
  pub snapshot_shards : Table (String × String) Shard
  pub target_commits : Table (String × String) Commit
  pub generation_transitions : Table (String × ℕ) Transition
  pub snapshot_admission_proofs : Table String Proof

abbrev pub empty : Store
empty = record {
  generation_registry = [];
  snapshot_shards = [];
  target_commits = [];
  generation_transitions = [];
  snapshot_admission_proofs = [];
}

-- What the registry takes from Python's `re` and `pathlib`: `re.fullmatch(pattern, text)`, the
-- parts of a path, and what the file system says of it.
pub record Host : Type 0 where
  pub fullmatch : String → String → Bool
  pub is_absolute : String → Bool
  pub name : String → String
  pub parent_name : String → String
  pub resolve : String → String
  pub exists : String → Bool
  pub is_symlink : String → Bool

abbrev pub Method : Type 0 → Type 0
Method = Exec Error Store

abbrev pub digest_or_raise : Result ContractError String → Method String
digest_or_raise (ok d) s = pure d s
digest_or_raise (err e) s = raise (contract e) s

unfoldable pub get_generation : String → Method Generation
get_generation generation_id s =
    or_raise (find generation_id s.generation_registry) generation_not_found s

-- The record that is registered. Its fields are read as the program's `str(…)` gives them.
pub record Registration : Type 0 where
  pub generation_id : String
  pub workload_id : String
  pub run_id : String
  pub snapshot_frontier : String
  pub schema_set_digest : String
  pub canonicalization_profile : String
  pub warehouse_path : String
  pub namespace : String
  pub table_map : Json

unfoldable pub lineage_material : Registration → Json
lineage_material r = dict (
    ("workload_id", str r.workload_id)
    ∷ ("run_id", str r.run_id)
    ∷ ("snapshot_frontier", str r.snapshot_frontier)
    ∷ ("schema_set_digest", str r.schema_set_digest)
    ∷ ("canonicalization_profile", str r.canonicalization_profile)
    ∷ [])

abbrev pub same_identity : Codec → Generation → Generation → Bool
same_identity c a b =
    a.lineage_digest == b.lineage_digest
    && (a.workload_id == b.workload_id
        && (a.run_id == b.run_id
            && (a.snapshot_frontier == b.snapshot_frontier
                && (a.schema_set_digest == b.schema_set_digest
                    && (a.canonicalization_profile == b.canonicalization_profile
                        && (a.warehouse_path == b.warehouse_path
                            && (a.namespace == b.namespace
                                && c.dumps true (c.loads a.table_map_json)
                                  == b.table_map_json)))))))

-- the UNIQUE columns: some row has this warehouse or this namespace
unfoldable pub owned : Generation → Table String Generation → Bool
owned row [] = false
owned row ((g, other) ∷ t) =
    let rest = owned row t in
    other.warehouse_path == row.warehouse_path || (other.namespace == row.namespace || rest)

-- an existing generation is compared and returned, a new one is inserted
unfoldable pub insert_or_compare :
    Codec → String → Generation → Option Generation → Method Generation
unfolding owned get_generation
insert_or_compare c g row (some existing) = do
  raise_if (not (same_identity c existing row)) generation_replay_conflict
  pure existing
insert_or_compare c g row none = do
  rows ← gets (λ s. s.generation_registry)
  raise_if (owned row rows) physical_ownership_conflict
  inserted ← or_raise (insert g row rows) physical_ownership_conflict
  modify (λ s. record s { generation_registry = inserted })
  get_generation g

module _ (c : Codec) (h : Host) where
  -- `deterministic_generation_id` of a workload, which is hexadecimal
  unfoldable pub deterministic_generation_id : String → Method String
  deterministic_generation_id workload_id = do
    raise_if (not (h.fullmatch "[0-9a-f]{64}" workload_id)) invalid_workload_id
    pure ("generation-" ++ slice workload_id 0 24)

  unfoldable pub generation_namespace : String → Method String
  generation_namespace generation_id = do
    digest ← digest_or_raise (semantic_digest c (str generation_id) "stage23-generation-namespace")
    pure ("cb_g_" ++ slice digest 0 16)

  -- the pattern is tested first, and a namespace that fails it needs no digest
  unfoldable pub check_namespace : String → String → Method (Unit {0})
  unfolding generation_namespace
  check_namespace generation_id namespace = do
    raise_if (not (h.fullmatch "^cb_g_[a-f0-9]{16}$" namespace)) namespace_mismatch
    derived ← generation_namespace generation_id
    raise_if (not (namespace == derived)) namespace_mismatch

  unfoldable pub owns_warehouse : String → String → Bool
  owns_warehouse generation_id warehouse =
      h.is_absolute warehouse
      && (h.name warehouse == generation_id
          && (h.parent_name warehouse == "generations"
              && (h.resolve warehouse == warehouse
                  && not (h.exists warehouse && h.is_symlink warehouse))))

  unfoldable pub created_row : String → Registration → Generation
  created_row lineage_digest r = record {
    lineage_digest = lineage_digest;
    workload_id = r.workload_id;
    run_id = r.run_id;
    snapshot_frontier = r.snapshot_frontier;
    schema_set_digest = r.schema_set_digest;
    canonicalization_profile = r.canonicalization_profile;
    warehouse_path = r.warehouse_path;
    namespace = r.namespace;
    table_map_json = c.dumps true r.table_map;
    state = created;
    revision = 0;
  }

  unfoldable pub register_generation : Registration → Method Generation
  unfolding lineage_material
  register_generation r = do
    derived ← deterministic_generation_id r.workload_id
    raise_if (not (r.generation_id == derived)) generation_id_mismatch
    check_namespace r.generation_id r.namespace
    raise_if (not (owns_warehouse r.generation_id r.warehouse_path)) warehouse_ownership
    raise_if (not (has_keys "order_items" "orders" r.table_map)) table_map
    lineage ← digest_or_raise (semantic_digest c (lineage_material r) "stage23-generation-lineage")
    existing ← gets (λ s. find r.generation_id s.generation_registry)
    insert_or_compare c r.generation_id (created_row lineage r) existing
