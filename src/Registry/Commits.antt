-- ===== src/Registry/Commits.antt =====
-- src/changebridge/generation_registry.py: `record_target_commit` and `target_commit`.
use changebridge_cdc_migrati.Base.{String, Bool, not, ◌&&◌, Option, none, some}
use changebridge_cdc_migrati.Base.Key.{◌==◌, text_key, pair_key}
use changebridge_cdc_migrati.Base.Int.{integer_key}
use changebridge_cdc_migrati.Base.Tests.{is_some}
use changebridge_cdc_migrati.Base.Table.{find, insert}
use changebridge_cdc_migrati.Base.Exec.{pure, gets, or_raise, modify, raise_if, ◌>>=◌, ◌>>◌}
use changebridge_cdc_migrati.Registry.{
  Method, Commit, commit_replay_conflict, commit_not_found, integrity_error,
}

abbrev pub same_commit : Commit → Commit → Bool
same_commit a b =
    a.shard_id == b.shard_id
    && (a.iceberg_table == b.iceberg_table
        && (a.physical_snapshot_id == b.physical_snapshot_id
            && (a.input_digest == b.input_digest
                && (a.row_count == b.row_count
                    && (a.logical_digest == b.logical_digest
                        && (a.summary_digest == b.summary_digest
                            && a.reconciliation_state == b.reconciliation_state))))))

unfoldable pub target_commit : String → String → Method Commit
target_commit generation_id commit_token s =
    or_raise (find (generation_id, commit_token) s.target_commits) commit_not_found s

-- a known token is compared and returned; a new one refers to a shard of the generation
unfoldable pub insert_commit : String → String → Commit → Option Commit → Method Commit
unfolding target_commit
insert_commit g token row (some existing) = do
  raise_if (not (same_commit existing row)) commit_replay_conflict
  pure existing
insert_commit g token row none = do
  shard ← gets (λ s. find (g, row.shard_id) s.snapshot_shards)
  raise_if (not (is_some shard)) integrity_error
  rows ← gets (λ s. s.target_commits)
  inserted ← or_raise (insert (g, token) row rows) integrity_error
  modify (λ s. record s { target_commits = inserted })
  target_commit g token

unfoldable pub record_target_commit : String → String → Commit → Method Commit
unfolding insert_commit
record_target_commit g token row = do
  existing ← gets (λ s. find (g, token) s.target_commits)
  insert_commit g token row existing
