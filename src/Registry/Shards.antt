-- ===== src/Registry/Shards.antt =====
-- src/changebridge/generation_registry.py: `claim_shard`, `get_shard` and `mark_shard_state`.
use changebridge_cdc_migrati.Base.{
  String, Bool, true, false, not, ◌&&◌, ◌||◌, Option, none, some, [], ◌∷◌,
}
use changebridge_cdc_migrati.Base.Key.{◌==◌, text_key, pair_key, number_key}
use changebridge_cdc_migrati.Base.Int.{ℤ, integer_key}
use changebridge_cdc_migrati.Base.Tests.{if◌then◌else◌}
use changebridge_cdc_migrati.Base.Table.{Table, find, insert, update}
use changebridge_cdc_migrati.Base.Exec.{pure, gets, or_raise, modify, raise_if, ◌>>=◌, ◌>>◌}
use changebridge_cdc_migrati.Registry.{
  Method, Shard, ShardState, claimed, staged, committed, reconciled, snapshot_loading,
  get_generation, generation_not_writable, shard_replay_conflict, shard_not_found,
  unknown_shard_state, illegal_shard_transition, integrity_error, GenerationState,
}

-- the arguments of `claim_shard` after the generation and the shard
pub record Claim : Type 0 where
  pub source_table : String
  pub input_digest : String
  pub row_count : ℤ
  pub idempotency_key : String
  pub commit_token : String

abbrev pub same_claim : Shard → Claim → Bool
same_claim row k =
    row.source_table == k.source_table
    && (row.input_digest == k.input_digest
        && (row.row_count == k.row_count
            && (row.idempotency_key == k.idempotency_key && row.commit_token == k.commit_token)))

unfoldable pub get_shard : String → String → Method Shard
get_shard generation_id shard_id s =
    or_raise (find (generation_id, shard_id) s.snapshot_shards) shard_not_found s

-- the UNIQUE columns: a shard of the generation has this idempotency key or this commit token
unfoldable pub claimed_elsewhere : String → Claim → Table (String × String) Shard → Bool
claimed_elsewhere g k [] = false
claimed_elsewhere g k (((h, i), row) ∷ t) =
    let rest = claimed_elsewhere g k t in
    h == g && (row.idempotency_key == k.idempotency_key || row.commit_token == k.commit_token)
    || rest

unfoldable pub claimed_row : Claim → Shard
claimed_row k = record {
  source_table = k.source_table;
  input_digest = k.input_digest;
  row_count = k.row_count;
  idempotency_key = k.idempotency_key;
  commit_token = k.commit_token;
  state = claimed;
  attempt = 1;
}

abbrev pub is_loading : GenerationState → Bool
is_loading snapshot_loading = true
is_loading _ = false

unfoldable pub claim_or_compare : String → String → Claim → Option Shard → Method Shard
unfolding claimed_elsewhere claimed_row get_shard
claim_or_compare g i k (some existing) = do
  raise_if (not (same_claim existing k)) shard_replay_conflict
  pure existing
claim_or_compare g i k none = do
  rows ← gets (λ s. s.snapshot_shards)
  raise_if (claimed_elsewhere g k rows) integrity_error
  inserted ← or_raise (insert (g, i) (claimed_row k) rows) integrity_error
  modify (λ s. record s { snapshot_shards = inserted })
  get_shard g i

unfoldable pub claim_shard : String → String → Claim → Method Shard
unfolding claim_or_compare get_generation
claim_shard g i k = do
  generation ← get_generation g
  raise_if (not (is_loading generation.state)) generation_not_writable
  existing ← gets (λ s. find (g, i) s.snapshot_shards)
  claim_or_compare g i k existing

abbrev pub same_shard_state : ShardState → ShardState → Bool
same_shard_state claimed claimed = true
same_shard_state staged staged = true
same_shard_state committed committed = true
same_shard_state reconciled reconciled = true
same_shard_state _ _ = false

unfoldable pub allowed_shard : ShardState → ShardState → Bool
allowed_shard claimed staged = true
allowed_shard claimed committed = true
allowed_shard staged committed = true
allowed_shard committed reconciled = true
allowed_shard _ _ = false

abbrev pub set_state : ShardState → Shard → Shard
set_state to_state row = record row { state = to_state }

-- the row was read in its current state, so the UPDATE writes it
unfoldable pub move_shard : String → String → ShardState → Shard → Method Shard
unfolding allowed_shard get_shard
move_shard g i to_state shard = do
  raise_if (not (allowed_shard shard.state to_state)) illegal_shard_transition
  modify (λ s. record s { snapshot_shards = update (g, i) (set_state to_state) s.snapshot_shards })
  get_shard g i

unfoldable pub mark_shard_state : String → String → Option ShardState → Method Shard
unfolding move_shard get_shard
mark_shard_state g i to_state = do
  to_state ← or_raise to_state unknown_shard_state
  shard ← get_shard g i
  if same_shard_state shard.state to_state then pure shard else move_shard g i to_state shard
