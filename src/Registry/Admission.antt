-- ===== src/Registry/Admission.antt =====
-- src/changebridge/generation_registry.py: `record_admission_proof`. A table result that is no
-- mapping has no `get`, which is the attribute error.
use changebridge_cdc_migrati.Base.{
  ℕ, String, Bool, true, false, not, ◌&&◌, ◌||◌, Option, none, some, List, [], ◌∷◌,
}
use changebridge_cdc_migrati.Base.Key.{◌==◌, text_key, number_key, pair_key}
use changebridge_cdc_migrati.Base.Tests.{if◌then◌else◌, length}
use changebridge_cdc_migrati.Base.Table.{Table, find, insert}
use changebridge_cdc_migrati.Base.Exec.{pure, gets, or_raise, modify, raise_if, ◌>>=◌, ◌>>◌}
use changebridge_cdc_migrati.Json.{Json, Codec}
use changebridge_cdc_migrati.Json.Contracts.{semantic_digest}
use changebridge_cdc_migrati.Json.Access.{get, is_text, is_number, is_true, is_mapping, has_keys}
use changebridge_cdc_migrati.Registry.{
  Method, Shard, ShardState, reconciled, Proof, digest_or_raise, admission_failed,
  incomplete_admission_proof, admission_replay_conflict, integrity_error, attribute_error,
}

-- `shards(generation_id)`, in the order of insertion: what is asked of them does not depend on it
unfoldable pub shards : String → Table (String × String) Shard → List Shard
shards g [] = []
shards g (((h, i), row) ∷ t) = let rest = shards g t in if h == g then row ∷ rest else rest

abbrev is_reconciled : ShardState → Bool
is_reconciled reconciled = true
is_reconciled _ = false

unfoldable pub all_reconciled : List Shard → Bool
all_reconciled [] = true
all_reconciled (row ∷ rows) = is_reconciled row.state && all_reconciled rows

-- value == {"kind": "postgres_lsn", "value": "0/194FB20"}
abbrev is_frontier : Option Json → Bool
unfolding has_keys get
is_frontier none = false
is_frontier (some v) =
    has_keys "kind" "value" v
    && (is_text "postgres_lsn" (get "kind" v) && is_text "0/194FB20" (get "value" v))

-- the conditions that come before the row counts
unfoldable pub claims_complete : String → Json → Bool
unfolding get is_frontier
claims_complete g proof =
    is_text g (get "generation_id" proof)
    && (is_frontier (get "snapshot_frontier" proof)
        && (is_number 0 (get "post_s_cdc_applied" proof)
            && (is_true (get "all_commits_reconciled" proof)
                && (is_number 0 (get "active_or_foreign_mutations" proof)
                    && is_mapping (get "table_results" proof)))))

-- table_results.get(table, {}).get("row_count"): none is a value without `get`
abbrev row_count : Option Json → String → Option (Option Json)
unfolding get
row_count none table = some none
row_count (some results) table = elim (get table results) [
  | none ↦ some none
  | some result ↦ if is_mapping (some result) then some (get "row_count" result) else none
]

abbrev counted : ℕ → Option (Option Json) → Bool
counted n (some v) = is_number n v
counted n none = false

abbrev is_count_error : Option (Option Json) → Bool
is_count_error none = true
is_count_error (some _) = false

unfoldable pub counts_fail : Json → Bool
unfolding row_count get
counts_fail proof =
    is_count_error (row_count (get "table_results" proof) "order_items")
    || is_count_error (row_count (get "table_results" proof) "orders")

unfoldable pub counts_match : Json → Bool
unfolding row_count get
counts_match proof =
    counted 66 (row_count (get "table_results" proof) "order_items")
    && counted 6 (row_count (get "table_results" proof) "orders")

unfoldable pub insert_proof : String → Proof → Option Proof → Method Proof
insert_proof g row (some existing) = do
  raise_if (not (existing.proof_digest == row.proof_digest)) admission_replay_conflict
  pure existing
insert_proof g row none = do
  generation ← gets (λ s. find g s.generation_registry)
  generation ← or_raise generation integrity_error
  rows ← gets (λ s. s.snapshot_admission_proofs)
  inserted ← or_raise (insert g row rows) integrity_error
  modify (λ s. record s { snapshot_admission_proofs = inserted })
  pure row

module _ (c : Codec) where
  unfoldable pub record_admission_proof : String → Json → Method Proof
  unfolding claims_complete counts_fail counts_match shards all_reconciled insert_proof get
  record_admission_proof g proof = do
    raise_if (not (is_text "PASS" (get "verdict" proof))) admission_failed
    rows ← gets (λ s. shards g s.snapshot_shards)
    raise_if (claims_complete g proof && counts_fail proof) attribute_error
    raise_if
        (not (
          claims_complete g proof
          && (counts_match proof && (length rows == 2 && all_reconciled rows))))
        incomplete_admission_proof
    proof_digest ← digest_or_raise (semantic_digest c proof "stage23-snapshot-admission")
    existing ← gets (λ s. find g s.snapshot_admission_proofs)
    insert_proof g (record { proof_digest = proof_digest; proof_json = c.dumps true proof })
        existing
