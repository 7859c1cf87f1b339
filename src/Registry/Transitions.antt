-- ===== src/Registry/Transitions.antt =====
-- src/changebridge/generation_registry.py: `transition`, the state machine of a generation. A text
-- that names no state is none.
use changebridge_cdc_migrati.Base.{ℕ, ◌+◌, String, Bool, true, false, not, ◌&&◌, Option, none, some}
use changebridge_cdc_migrati.Base.Key.{◌==◌, text_key, pair_key, number_key}
use changebridge_cdc_migrati.Base.Tests.{if◌then◌else◌}
use changebridge_cdc_migrati.Base.Table.{find, insert, update}
use changebridge_cdc_migrati.Base.Exec.{
  pure, gets, or_raise, transaction, modify, raise_if, ◌>>=◌, ◌>>◌,
}
use changebridge_cdc_migrati.Json.{Json, Codec}
use changebridge_cdc_migrati.Json.Contracts.{semantic_digest}
use changebridge_cdc_migrati.Json.Access.{get, is_text}
use changebridge_cdc_migrati.Registry.{
  Method, Generation, GenerationState, created, snapshot_loading, cdc_applying, active, published,
  rolled_back, rejected, retired, Proof, get_generation, digest_or_raise, unknown_state,
  stale_revision, illegal_transition, admission_proof_required, integrity_error,
}

abbrev pub same_state : GenerationState → GenerationState → Bool
same_state created created = true
same_state snapshot_loading snapshot_loading = true
same_state cdc_applying cdc_applying = true
same_state active active = true
same_state published published = true
same_state rolled_back rolled_back = true
same_state rejected rejected = true
same_state retired retired = true
same_state _ _ = false

unfoldable pub allowed : GenerationState → GenerationState → Bool
allowed created snapshot_loading = true
allowed snapshot_loading cdc_applying = true
allowed _ _ = false

-- the decision names the recorded proof
unfoldable pub admits : Json → Option Proof → Bool
unfolding get
admits decision none = false
admits decision (some p) = is_text p.proof_digest (get "admission_proof_digest" decision)

abbrev pub advance : GenerationState → Generation → Generation
advance to_state g = record g { state = to_state; revision = g.revision + 1 }

-- UPDATE generation_registry, INSERT INTO generation_transitions. The row was read at the expected
-- revision and state, so the UPDATE writes one row.
unfoldable pub write_transition :
    String → ℕ → GenerationState → GenerationState → String → String → Method (Unit {0})
write_transition g expected_revision from_state to_state actor decision_digest = do
  modify (λ s. record s { generation_registry = update g (advance to_state) s.generation_registry })
  rows ← gets (λ s. s.generation_transitions)
  inserted ←
      or_raise
        (insert (g, expected_revision + 1)
          (record {
            from_state = from_state;
            to_state = to_state;
            expected_revision = expected_revision;
            decision_digest = decision_digest;
            actor = actor;
          })
          rows)
        integrity_error
  modify (λ s. record s { generation_transitions = inserted })

abbrev pub needs_proof : GenerationState → Bool
needs_proof to_state = same_state to_state cdc_applying

-- the checks and writes of a generation that is not yet where the call wants it
unfoldable pub move :
    String → ℕ → GenerationState → String → Json → String → Generation → Method Generation
unfolding allowed admits write_transition get_generation
move g expected_revision to_state actor decision decision_digest generation = do
  raise_if (not (generation.revision == expected_revision)) stale_revision
  raise_if (not (allowed generation.state to_state)) illegal_transition
  proof ← gets (λ s. find g s.snapshot_admission_proofs)
  raise_if (needs_proof to_state && not (admits decision proof)) admission_proof_required
  transaction (write_transition g expected_revision generation.state to_state actor decision_digest)
  get_generation g

module _ (c : Codec) where
  unfoldable pub transition :
      String → ℕ → Option GenerationState → String → Json → Method Generation
  unfolding get_generation
  transition g expected_revision to_state actor decision = do
    to_state ← or_raise to_state unknown_state
    generation ← get_generation g
    decision_digest ← digest_or_raise (semantic_digest c decision "stage23-generation-transition")
    if same_state generation.state to_state && generation.revision == expected_revision + 1
        then pure generation
        else move g expected_revision to_state actor decision decision_digest generation
