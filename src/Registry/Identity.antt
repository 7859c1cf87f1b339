-- ===== src/Registry/Identity.antt =====
-- What the registry never changes: the identity of a generation, of a shard, and a commit.
use changebridge_cdc_migrati.Base.{
  ℕ, ◌≤◌, String, true, some, List, [], ◌∷◌, ◌≡◌, ◌∙◌, refl, ap, inl, inr, arith,
}
use changebridge_cdc_migrati.Base.Tests.{Option-cases, Bool-cases}
use changebridge_cdc_migrati.Base.Key.{
  text_key, number_key, pair_key, pair_beq, pair_beq_iff, ==_refl,
}
use changebridge_cdc_migrati.Base.Table.{find, insert, find-append, find-update}
use changebridge_cdc_migrati.Base.Int.{integer_key}
use changebridge_cdc_migrati.Base.Exec.{done}
use changebridge_cdc_migrati.Json.{Codec}
use changebridge_cdc_migrati.Registry.{
  Store, Host, Shard, ShardState, claimed, staged, committed, reconciled, Commit,
}
use changebridge_cdc_migrati.Registry.Shards.{claimed_row, allowed_shard, set_state}
use changebridge_cdc_migrati.Registry.Commits.{
  same_commit, target_commit, record_target_commit, insert_commit,
}
use changebridge_cdc_migrati.Registry.Change
use changebridge_cdc_migrati.Registry.Change.{Call, run, run_all, Moves, run-Change}

unfoldable pub rank : ShardState → ℕ
rank claimed = 0
rank staged = 1
rank committed = 2
rank reconciled = 3

-- the same shard at the same point of its life or later
pub record Continues (a b : Shard) : Type 0 where
  pub source_table : b.source_table ≡ a.source_table
  pub input_digest : b.input_digest ≡ a.input_digest
  pub row_count : b.row_count ≡ a.row_count
  pub idempotency_key : b.idempotency_key ≡ a.idempotency_key
  pub commit_token : b.commit_token ≡ a.commit_token
  pub attempt : b.attempt ≡ a.attempt
  pub forward : rank a.state ≤ rank b.state

Continues-refl : (a : Shard) → Continues a a
Continues-refl a = record {
  source_table = refl;
  input_digest = refl;
  row_count = refl;
  idempotency_key = refl;
  commit_token = refl;
  attempt = refl;
  forward = ground arith;
}

set_state-Continues :
    (a b : Shard) (to_state : ShardState)
    → Continues a b
    → allowed_shard b.state to_state ≡ true
    → Continues a (set_state to_state b)
set_state-Continues a b to_state m may = record {
  source_table = m.source_table;
  input_digest = m.input_digest;
  row_count = m.row_count;
  idempotency_key = m.idempotency_key;
  commit_token = m.commit_token;
  attempt = m.attempt;
  forward = unfold rank allowed_shard in ground (arith, m.forward);
}

abbrev LivesAt : String × String → Shard → Store → Type 0
LivesAt k a s = (b : Shard) × (find k s.snapshot_shards ≡ some b) × Continues a b

Change-LivesAt :
    (s s' : Store) (k : String × String) (a : Shard)
    → Change.Change s s'
    → LivesAt k a s
    → LivesAt k a s'
Change-LivesAt s s' k a (Change.quiet e) (b, found, m) =
    (b, ap (λ t. find k t.snapshot_shards) e ∙ found, m)
Change-LivesAt s s' k a (Change.registered g row free is at e) (b, found, m) =
    (b, ap (λ t. find k t.snapshot_shards) e ∙ found, m)
Change-LivesAt s s' k a (Change.moved g row to_state n) (b, found, m) =
    (b, ap (find k) n.shards ∙ found, m)
Change-LivesAt s s' k a (Change.claimed g i c free e) (b, found, m) = (
  b,
  ground (
    arith,
    found,
    ap (λ t. find k t.snapshot_shards) e,
    pair_beq_iff (g, i) k,
    find-append (g, i) k (claimed_row c) s.snapshot_shards free,
  ),
  m,
)
Change-LivesAt s s' k a (Change.marked g i shard to_state here may e) (b, found, m) =
    elim (Bool-cases (pair_beq (g, i) k)) [
      | inl same ↦
          let is : b ≡ shard = ground (arith, found, here, pair_beq_iff (g, i) k) in
          (
            set_state to_state b,
            ground (
              arith,
              found,
              same,
              ap (λ t. find k t.snapshot_shards) e,
              find-update (g, i) k (set_state to_state) s.snapshot_shards,
            ),
            set_state-Continues a b to_state m (rw is may),
          )
      | inr other ↦ (
        b,
        ground (
          arith,
          found,
          other,
          ap (λ t. find k t.snapshot_shards) e,
          find-update (g, i) k (set_state to_state) s.snapshot_shards,
        ),
        m,
      )
    ]
Change-LivesAt s s' k a (Change.committed g token row free e) (b, found, m) =
    (b, ap (λ t. find k t.snapshot_shards) e ∙ found, m)
Change-LivesAt s s' k a (Change.admitted g row free e) (b, found, m) =
    (b, ap (λ t. find k t.snapshot_shards) e ∙ found, m)

run_all-LivesAt :
    (c : Codec) (h : Host) (calls : List Call) (s : Store) (k : String × String) (a : Shard)
    → LivesAt k a s
    → LivesAt k a (run_all c h calls s)
unfolding run_all
run_all-LivesAt c h [] s k a holds = holds
run_all-LivesAt c h (call ∷ calls) s k a holds =
    run_all-LivesAt c h calls (run c h call s) k a
      (Change-LivesAt s (run c h call s) k a (run-Change s c h call) holds)

-- A shard stays: after any calls it has the same table, input digest, row count, keys and attempt,
-- and its state is the same or further on the way from claimed to staged, committed and reconciled.
pub shard-Continues :
    (c : Codec) (h : Host) (calls : List Call) (s : Store) (g i : String) (a : Shard)
    → find (g, i) s.snapshot_shards ≡ some a
    → (b : Shard) × (find (g, i) (run_all c h calls s).snapshot_shards ≡ some b) × Continues a b
shard-Continues c h calls s g i a found =
    run_all-LivesAt c h calls s (g, i) a (a, found, Continues-refl a)

abbrev RecordedAt : String × String → Commit → Store → Type 0
RecordedAt k a s = find k s.target_commits ≡ some a

Change-RecordedAt :
    (s s' : Store) (k : String × String) (a : Commit)
    → Change.Change s s'
    → RecordedAt k a s
    → RecordedAt k a s'
Change-RecordedAt s s' k a (Change.quiet e) found = ap (λ t. find k t.target_commits) e ∙ found
Change-RecordedAt s s' k a (Change.registered g row free is at e) found =
    ap (λ t. find k t.target_commits) e ∙ found
Change-RecordedAt s s' k a (Change.moved g row to_state n) found = ap (find k) n.commits ∙ found
Change-RecordedAt s s' k a (Change.claimed g i c free e) found =
    ap (λ t. find k t.target_commits) e ∙ found
Change-RecordedAt s s' k a (Change.marked g i shard to_state here may e) found =
    ap (λ t. find k t.target_commits) e ∙ found
Change-RecordedAt s s' k a (Change.committed g token row free e) found = ground (
  arith,
  found,
  ap (λ t. find k t.target_commits) e,
  pair_beq_iff (g, token) k,
  find-append (g, token) k row s.target_commits free,
)
Change-RecordedAt s s' k a (Change.admitted g row free e) found =
    ap (λ t. find k t.target_commits) e ∙ found

run_all-RecordedAt :
    (c : Codec) (h : Host) (calls : List Call) (s : Store) (k : String × String) (a : Commit)
    → RecordedAt k a s
    → RecordedAt k a (run_all c h calls s)
unfolding run_all
run_all-RecordedAt c h [] s k a holds = holds
run_all-RecordedAt c h (call ∷ calls) s k a holds =
    run_all-RecordedAt c h calls (run c h call s) k a
      (Change-RecordedAt s (run c h call s) k a (run-Change s c h call) holds)

same_commit_refl : (a : Commit) → same_commit a a ≡ true
same_commit_refl a = ground (
  arith,
  ==_refl a.shard_id,
  ==_refl a.iceberg_table,
  ==_refl a.physical_snapshot_id,
  ==_refl a.input_digest,
  ==_refl a.row_count,
  ==_refl a.logical_digest,
  ==_refl a.summary_digest,
  ==_refl a.reconciliation_state,
)

same_commit-eq : (a b : Commit) → same_commit a b ≡ true → a ≡ b
same_commit-eq a b same = ground (
  arith,
  text_key.equals_iff a.shard_id b.shard_id,
  text_key.equals_iff a.iceberg_table b.iceberg_table,
  text_key.equals_iff a.physical_snapshot_id b.physical_snapshot_id,
  text_key.equals_iff a.input_digest b.input_digest,
  integer_key.equals_iff a.row_count b.row_count,
  text_key.equals_iff a.logical_digest b.logical_digest,
  text_key.equals_iff a.summary_digest b.summary_digest,
  text_key.equals_iff a.reconciliation_state b.reconciliation_state,
)

-- the commit that is returned and stored is the one handed in
record_done :
    (g token : String) (row a : Commit) (s s' : Store)
    → record_target_commit g token row s ≡ done a s'
    → (a ≡ row) × (find (g, token) s'.target_commits ≡ some row)
unfolding record_target_commit insert_commit target_commit insert
record_done g token row a s s' h = elim (Option-cases (find (g, token) s.target_commits)) [
  | inr (old, found) ↦
      let same : old ≡ row = same_commit-eq old row (ground arith) in (ground arith, ground arith)
  | inl free ↦ elim (Option-cases (find (g, row.shard_id) s.snapshot_shards)) [
    | inl missing ↦ absurd (ground arith)
    | inr (shard, there) ↦
        let added =
          find-append {K = String × String} (g, token) (g, token) row s.target_commits free in
        let here = ==_refl {K = String × String} (g, token) in
        (ground (arith, added, here), ground (arith, added, here))
  ]
]

-- A target commit that was recorded is recorded as it was handed in, all its columns: this is what
-- the call returned, what is read, and what recording it again returns, after any calls, and neither
-- reading nor recording it again changes the store.
pub commit_kept :
    (c : Codec) (h : Host) (calls : List Call) (g token : String) (row a : Commit) (s s' : Store)
    → record_target_commit g token row s ≡ done a s'
    → (a ≡ row)
      × (target_commit g token (run_all c h calls s') ≡ done row (run_all c h calls s'))
      × (record_target_commit g token row (run_all c h calls s') ≡ done row (run_all c h calls s'))
unfolding target_commit record_target_commit insert_commit
commit_kept c h calls g token row a s s' recorded =
    let (returned, stored) = record_done g token row a s s' recorded in
    let found = run_all-RecordedAt c h calls s' (g, token) row stored in
    (returned, ground (arith, found), rw (found, same_commit_refl row) refl)
