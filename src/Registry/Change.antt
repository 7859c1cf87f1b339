-- ===== src/Registry/Change.antt =====
-- The abstract steps of the registry's tables, and every writing method as one.
use changebridge_cdc_migrati.Base.{
  ℕ, ◌+◌, String, true, not, ◌&&◌, ◌||◌, Option, none, some, List, [], ◌∷◌, ◌++◌, ◌≡◌, ◌⊎◌, refl,
  inl, inr, arith,
}
use changebridge_cdc_migrati.Base.Tests.{is_some, Option-cases, Bool-cases}
use changebridge_cdc_migrati.Base.Key.{◌==◌, text_key, pair_key, number_key}
use changebridge_cdc_migrati.Base.Table.{find, insert, update}
use changebridge_cdc_migrati.Base.Exec.{done, after, Outcome-cases}
use changebridge_cdc_migrati.Base.Result.{ok, Result-cases}
use changebridge_cdc_migrati.Json.{Json, Codec}
use changebridge_cdc_migrati.Json.Contracts.{semantic_digest}
use changebridge_cdc_migrati.Registry
use changebridge_cdc_migrati.Registry.Shards
use changebridge_cdc_migrati.Registry.Commits
use changebridge_cdc_migrati.Registry.Admission
use changebridge_cdc_migrati.Registry.Transitions
use changebridge_cdc_migrati.Registry.{
  Store, Host, Registration, Generation, GenerationState, Shard, ShardState, Commit, Proof, created,
  created_row, insert_or_compare, get_generation,
}
use changebridge_cdc_migrati.Registry.Shards.{
  Claim, claimed_row, allowed_shard, set_state, claim_or_compare, move_shard, get_shard,
}
use changebridge_cdc_migrati.Registry.Commits.{insert_commit, target_commit}
use changebridge_cdc_migrati.Registry.Admission.{insert_proof}
use changebridge_cdc_migrati.Registry.Transitions.{
  allowed, advance, needs_proof, admits, move, write_transition,
}

-- the writing methods, with their arguments
pub data Call : Type 0 where
  register_generation : Registration → Call
  transition : String → ℕ → Option GenerationState → String → Json → Call
  claim_shard : String → String → Claim → Call
  mark_shard_state : String → String → Option ShardState → Call
  record_target_commit : String → String → Commit → Call
  record_admission_proof : String → Json → Call

-- The store after a call, which returned or raised.
unfoldable pub run : Codec → Host → Call → Store → Store
run c h (Call.register_generation r) s = after (Registry.register_generation c h r s)
run c h (Call.transition g n to_state actor decision) s =
    after (Transitions.transition c g n to_state actor decision s)
run c h (Call.claim_shard g i k) s = after (Shards.claim_shard g i k s)
run c h (Call.mark_shard_state g i to_state) s = after (Shards.mark_shard_state g i to_state s)
run c h (Call.record_target_commit g token row) s =
    after (Commits.record_target_commit g token row s)
run c h (Call.record_admission_proof g proof) s =
    after (Admission.record_admission_proof c g proof s)

unfoldable pub run_all : Codec → Host → List Call → Store → Store
run_all c h [] s = s
run_all c h (call ∷ calls) s = run_all c h calls (run c h call s)

-- The generations have changed as said, shards, commits and proofs not.
pub record Moves (g : String) (generation : Generation) (to_state : GenerationState) (s s' : Store)
    : Type 0 where
  pub found : find g s.generation_registry ≡ some generation
  pub may : allowed generation.state to_state ≡ true
  pub proven : (not (needs_proof to_state) || is_some (find g s.snapshot_admission_proofs)) ≡ true
  pub generations : s'.generation_registry ≡ update g (advance to_state) s.generation_registry
  pub shards : s'.snapshot_shards ≡ s.snapshot_shards
  pub commits : s'.target_commits ≡ s.target_commits
  pub proofs : s'.snapshot_admission_proofs ≡ s.snapshot_admission_proofs

pub data Change (s s' : Store) : Type 0 where
  quiet : s' ≡ s → Change s s'
  registered :
      (g : String) (row : Generation)
      → find g s.generation_registry ≡ none
      → row.state ≡ created
      → row.revision ≡ 0
      → s' ≡ record s { generation_registry = s.generation_registry ++ (g, row) ∷ [] }
      → Change s s'
  moved :
      (g : String) (generation : Generation) (to_state : GenerationState)
      → Moves g generation to_state s s'
      → Change s s'
  claimed :
      (g i : String) (k : Claim)
      → find (g, i) s.snapshot_shards ≡ none
      → s' ≡ record s { snapshot_shards = s.snapshot_shards ++ ((g, i), claimed_row k) ∷ [] }
      → Change s s'
  marked :
      (g i : String) (shard : Shard) (to_state : ShardState)
      → find (g, i) s.snapshot_shards ≡ some shard
      → allowed_shard shard.state to_state ≡ true
      → s' ≡ record s { snapshot_shards = update (g, i) (set_state to_state) s.snapshot_shards }
      → Change s s'
  committed :
      (g token : String) (row : Commit)
      → find (g, token) s.target_commits ≡ none
      → s' ≡ record s { target_commits = s.target_commits ++ ((g, token), row) ∷ [] }
      → Change s s'
  admitted :
      (g : String) (row : Proof)
      → find g s.snapshot_admission_proofs ≡ none
      → s' ≡ record s { snapshot_admission_proofs = s.snapshot_admission_proofs ++ (g, row) ∷ [] }
      → Change s s'

module _ (s : Store) where
  insert-Change :
      (c : Codec) (g : String) (row : Generation) (existing : Option Generation)
      → row.state ≡ created
      → row.revision ≡ 0
      → find g s.generation_registry ≡ existing
      → Change s (after (insert_or_compare c g row existing s))
  unfolding insert_or_compare insert get_generation
  insert-Change c g row (some e) is at found = quiet (ground arith)
  insert-Change c g row none is at free =
      elim (Bool-cases (Registry.owned row s.generation_registry)) [
        | inl taken ↦ quiet (ground arith)
        | inr new ↦ registered g row free is at (ground arith)
      ]

  namespace_same :
      (c : Codec) (h : Host) (g namespace : String)
      → after (Registry.check_namespace c h g namespace s) ≡ s
  unfolding Registry.check_namespace Registry.generation_namespace
  namespace_same c h g namespace = ground arith

  id_same :
      (c : Codec) (h : Host) (w : String) → after (Registry.deterministic_generation_id c h w s) ≡ s
  unfolding Registry.deterministic_generation_id
  id_same c h w = ground arith

  register-cases :
      (c : Codec) (h : Host) (r : Registration) (d : String)
      → semantic_digest c (Registry.lineage_material r) "stage23-generation-lineage" ≡ ok d
      → (after (Registry.register_generation c h r s) ≡ s)
        ⊎ (after (Registry.register_generation c h r s)
            ≡ after (
                insert_or_compare c r.generation_id
                  (created_row c h d r)
                  (find r.generation_id s.generation_registry)
                  s))
  unfolding Registry.register_generation
  register-cases c h r d digested =
      ground
        (arith, digested, id_same c h r.workload_id, namespace_same c h r.generation_id r.namespace)

  register-Change :
      (c : Codec) (h : Host) (r : Registration)
      → Change s (after (Registry.register_generation c h r s))
  unfolding Registry.register_generation created_row
  register-Change c h r =
      elim (Result-cases
        (semantic_digest c (Registry.lineage_material r) "stage23-generation-lineage")) [
          | inr (e, failed) ↦ quiet (
              ground (
                arith,
                failed,
                id_same c h r.workload_id,
                namespace_same c h r.generation_id r.namespace,
              ))
          | inl (d, digested) ↦ elim (register-cases c h r d digested) [
            | inl same ↦ quiet same
            | inr inserts ↦ rw inserts (
                insert-Change c r.generation_id (created_row c h d r)
                  (find r.generation_id s.generation_registry) refl refl refl)
          ]
        ]

  write-Change :
      (g : String) (n : ℕ) (generation : Generation) (to_state : GenerationState) (actor d : String)
      (t : Store)
      → find g s.generation_registry ≡ some generation
      → allowed generation.state to_state ≡ true
      → (not (needs_proof to_state) || is_some (find g s.snapshot_admission_proofs)) ≡ true
      → write_transition g n generation.state to_state actor d s ≡ done tt t
      → Moves g generation to_state s t
  unfolding write_transition
  write-Change g n generation to_state actor d t found may proven h = record {
    found = found;
    may = may;
    proven = proven;
    generations = ground arith;
    shards = ground arith;
    commits = ground arith;
    proofs = ground arith;
  }

  -- the transaction of a transition that may be made
  written :
      (g : String) (n : ℕ) (to_state : GenerationState) (actor : String) (decision : Json)
      (d : String) (generation : Generation)
      → find g s.generation_registry ≡ some generation
      → allowed generation.state to_state ≡ true
      → (not (needs_proof to_state) || is_some (find g s.snapshot_admission_proofs)) ≡ true
      → Change s (after (move g n to_state actor decision d generation s))
  unfolding move get_generation
  written g n to_state actor decision d generation found may proven =
      elim (Outcome-cases (write_transition g n generation.state to_state actor d s)) [
        | inr (e, t, failed) ↦ quiet (ground arith)
        | inl (_, t, wrote) ↦
            elim (Bool-cases (
              not (generation.revision == n)
              || (needs_proof to_state
                  && not (admits decision (find g s.snapshot_admission_proofs))))) [
                    | inl stopped ↦ quiet (ground arith)
                    | inr goes ↦
                        let e : after (move g n to_state actor decision d generation s) ≡ t =
                          ground arith in
                        moved g generation to_state (
                          rw e
                            (write-Change g n generation to_state actor d t found may proven wrote))
                  ]
      ]

  move-Change :
      (g : String) (n : ℕ) (to_state : GenerationState) (actor : String) (decision : Json)
      (d : String) (generation : Generation)
      → find g s.generation_registry ≡ some generation
      → Change s (after (move g n to_state actor decision d generation s))
  unfolding move get_generation admits
  move-Change g n to_state actor decision d generation found =
      elim (Bool-cases (allowed generation.state to_state)) [
        | inr refused ↦ quiet (ground arith)
        | inl may ↦ elim (Option-cases (find g s.snapshot_admission_proofs)) [
          | inl missing ↦ elim (Bool-cases (needs_proof to_state)) [
            | inl needs ↦ quiet (ground arith)
            | inr free ↦ written g n to_state actor decision d generation found may (ground arith)
          ]
          | inr (p, there) ↦
              written g n to_state actor decision d generation found may (ground arith)
        ]
      ]

  claim_row-Change :
      (g i : String) (k : Claim) (existing : Option Shard)
      → find (g, i) s.snapshot_shards ≡ existing
      → Change s (after (claim_or_compare g i k existing s))
  unfolding claim_or_compare get_shard insert
  claim_row-Change g i k (some row) found = quiet (ground arith)
  claim_row-Change g i k none free =
      elim (Bool-cases (Shards.claimed_elsewhere g k s.snapshot_shards)) [
        | inl taken ↦ quiet (ground arith)
        | inr new ↦ claimed g i k free (ground arith)
      ]

  claim-cases :
      (g i : String) (k : Claim)
      → (after (Shards.claim_shard g i k s) ≡ s)
        ⊎ (after (Shards.claim_shard g i k s)
            ≡ after (claim_or_compare g i k (find (g, i) s.snapshot_shards) s))
  unfolding Shards.claim_shard get_generation
  claim-cases g i k = elim (Option-cases (find g s.generation_registry)) [
    | inl missing ↦ inl (ground arith)
    | inr (generation, found) ↦ elim (Bool-cases (Shards.is_loading generation.state)) [
      | inl loading ↦ inr (ground (arith, found, loading))
      | inr other ↦ inl (ground (arith, found, other))
    ]
  ]

  claim-Change : (g i : String) (k : Claim) → Change s (after (Shards.claim_shard g i k s))
  claim-Change g i k = elim (claim-cases g i k) [
    | inl same ↦ quiet same
    | inr claims ↦ rw claims (claim_row-Change g i k (find (g, i) s.snapshot_shards) refl)
  ]

  mark-Change :
      (g i : String) (to_state : Option ShardState)
      → Change s (after (Shards.mark_shard_state g i to_state s))
  unfolding Shards.mark_shard_state move_shard get_shard
  mark-Change g i none = quiet refl
  mark-Change g i (some to_state) = elim (Option-cases (find (g, i) s.snapshot_shards)) [
    | inl missing ↦ quiet (ground arith)
    | inr (row, found) ↦ elim (Bool-cases (allowed_shard row.state to_state)) [
      | inr refused ↦ quiet (ground arith)
      | inl may ↦ elim (Bool-cases (Shards.same_shard_state row.state to_state)) [
        | inl same ↦ quiet (ground arith)
        | inr new ↦ marked g i row to_state found may (ground arith)
      ]
    ]
  ]

  commit-Change :
      (g token : String) (row : Commit)
      → Change s (after (Commits.record_target_commit g token row s))
  unfolding Commits.record_target_commit insert_commit target_commit insert
  commit-Change g token row = elim (Option-cases (find (g, token) s.target_commits)) [
    | inr (old, found) ↦ quiet (ground arith)
    | inl free ↦ elim (Option-cases (find (g, row.shard_id) s.snapshot_shards)) [
      | inl missing ↦ quiet (ground arith)
      | inr (shard, there) ↦ committed g token row free (ground arith)
    ]
  ]

  proof-Change :
      (g : String) (row : Proof) (existing : Option Proof)
      → find g s.snapshot_admission_proofs ≡ existing
      → Change s (after (insert_proof g row existing s))
  unfolding insert_proof insert
  proof-Change g row (some e) found = quiet (ground arith)
  proof-Change g row none free = elim (Option-cases (find g s.generation_registry)) [
    | inl missing ↦ quiet (ground arith)
    | inr (generation, there) ↦ admitted g row free (ground arith)
  ]

  transition-Change :
      (c : Codec) (g : String) (n : ℕ) (to_state : Option GenerationState) (actor : String)
      (decision : Json)
      → Change s (after (Transitions.transition c g n to_state actor decision s))
  unfolding Transitions.transition get_generation
  transition-Change c g n none actor decision = quiet refl
  transition-Change c g n (some to_state) actor decision =
      elim (Option-cases (find g s.generation_registry)) [
        | inl missing ↦ quiet (ground arith)
        | inr (generation, found) ↦
            elim (Result-cases (semantic_digest c decision "stage23-generation-transition")) [
              | inr (e, failed) ↦ quiet (ground arith)
              | inl (d, digested) ↦
                  elim (Bool-cases (
                    Transitions.same_state generation.state to_state
                    && generation.revision == n + 1)) [
                      | inl there ↦ quiet (ground (arith, found, digested, there))
                      | inr goes ↦
                          let e : after
                                (Transitions.transition c g n (some to_state) actor decision s)
                              ≡ after (move g n to_state actor decision d generation s) =
                            ground (arith, found, digested, goes) in
                          rw e (move-Change g n to_state actor decision d generation found)
                    ]
            ]
      ]

  admission-cases :
      (c : Codec) (g : String) (proof : Json) (d : String)
      → semantic_digest c proof "stage23-snapshot-admission" ≡ ok d
      → (after (Admission.record_admission_proof c g proof s) ≡ s)
        ⊎ (after (Admission.record_admission_proof c g proof s)
            ≡ after (
                insert_proof g
                  (record { proof_digest = d; proof_json = c.dumps true proof })
                  (find g s.snapshot_admission_proofs)
                  s))
  unfolding Admission.record_admission_proof
  admission-cases c g proof d digested = ground (arith, digested)

  admission-Change :
      (c : Codec) (g : String) (proof : Json)
      → Change s (after (Admission.record_admission_proof c g proof s))
  unfolding Admission.record_admission_proof
  admission-Change c g proof =
      elim (Result-cases (semantic_digest c proof "stage23-snapshot-admission")) [
        | inr (e, failed) ↦ quiet (ground (arith, failed))
        | inl (d, digested) ↦ elim (admission-cases c g proof d digested) [
          | inl same ↦ quiet same
          | inr inserts ↦ rw inserts (
              proof-Change g (record { proof_digest = d; proof_json = c.dumps true proof })
                (find g s.snapshot_admission_proofs) refl)
        ]
      ]

  -- Every call is an abstract step, whatever its arguments and whether it returns or raises.
  pub run-Change : (c : Codec) (h : Host) (call : Call) → Change s (run c h call s)
  unfolding run
  run-Change c h (Call.register_generation r) = register-Change c h r
  run-Change c h (Call.transition g n to_state actor decision) =
      transition-Change c g n to_state actor decision
  run-Change c h (Call.claim_shard g i k) = claim-Change g i k
  run-Change c h (Call.mark_shard_state g i to_state) = mark-Change g i to_state
  run-Change c h (Call.record_target_commit g token row) = commit-Change g token row
  run-Change c h (Call.record_admission_proof g proof) = admission-Change c g proof
