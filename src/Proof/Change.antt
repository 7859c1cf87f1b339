-- ===== src/Proof/Change.antt =====
-- The calls of the proof ledger, and what each may do to its generations and attempts.
use changebridge_cdc_migrati.Base.{
  String, true, false, none, some, List, [], ◌∷◌, ◌≡◌, refl, ap, inl, inr, arith,
}
use changebridge_cdc_migrati.Base.Tests.{Option-cases, Bool-cases}
use changebridge_cdc_migrati.Base.Key.{text_key, pair_key}
use changebridge_cdc_migrati.Base.Exec.{after}
use changebridge_cdc_migrati.Base.Result.{Result-cases}
use changebridge_cdc_migrati.Base.Table.{find, update, insert_or_ignore}
use changebridge_cdc_migrati.Json.{Json, Codec}
use changebridge_cdc_migrati.Json.Access.{get}
use changebridge_cdc_migrati.Json.Contracts.{semantic_digest}
use changebridge_cdc_migrati.Proof.Gates.{known_gate, validate_gate, assemble_manifest}
use changebridge_cdc_migrati.Proof.Assembly.{IsManifest, assemble_manifest-IsManifest}
use changebridge_cdc_migrati.Proof.Ledger
use changebridge_cdc_migrati.Proof.Ledger.{
  Store, Generation, Attempt, AttemptState, open_attempt, cdc_applying, Method, can_seal, can_prove,
  conflicts, write_seal, attempt_body, start_proving, recorded, binding_of, prove, contract_raise,
  gate_raise,
}

pub data Call : Type 0 where
  register_candidate : String → String → String → Call
  seal : String → Json → Call
  begin_proof : String → Call
  record_gate : String → Json → Call
  seal_manifest : String → Call

abbrev pub fresh : String → String → Generation
fresh frontier schema_set_digest = record {
  frontier = frontier;
  schema_set_digest = schema_set_digest;
  state = cdc_applying;
  revision = 0;
  seal_json = none;
  manifest_json = none;
}

abbrev pub opened : String → Generation → Attempt
opened g row = record { generation_id = g; input_revision = row.revision; state = open_attempt }

-- what a call that is not raised by its checks does
pub data Change (c : Codec) (s s' : Store) : Type 0 where
  quiet : s'.generations ≡ s.generations → s'.attempts ≡ s.attempts → Change c s s'
  registered :
      (g frontier schemas : String)
      → s'.generations ≡ insert_or_ignore g (fresh frontier schemas) s.generations
      → s'.attempts ≡ s.attempts
      → Change c s s'
  sealed :
      (g payload : String) (row : Generation)
      → find g s.generations ≡ some row
      → can_seal row.state ≡ true
      → conflicts row.seal_json payload ≡ false
      → s'.generations ≡ update g (write_seal c payload) s.generations
      → s'.attempts ≡ s.attempts
      → Change c s s'
  began :
      (g a : String) (row : Generation)
      → find g s.generations ≡ some row
      → can_prove row.state ≡ true
      → s'.generations ≡ update g (start_proving c) s.generations
      → s'.attempts ≡ insert_or_ignore a (opened g row) s.attempts
      → Change c s s'
  proved :
      (a payload : String) (attempt : Attempt) (row : Generation) (seal_digest manifest : Json)
      → find a s.attempts ≡ some attempt
      → find attempt.generation_id s.generations ≡ some row
      → row.seal_json ≡ some payload
      → get "seal_digest" (c.loads payload) ≡ some seal_digest
      → IsManifest c (binding_of c attempt row) seal_digest manifest
      → s' ≡ prove c a attempt.generation_id (c.dumps true manifest) s
      → Change c s s'

module _ (c : Codec) (s : Store) where
  same : (s' : Store) → s' ≡ s → Change c s s'
  same s' e = quiet (ap (λ t. t.generations) e) (ap (λ t. t.attempts) e)

  register_candidate-Change :
      (g frontier schemas : String)
      → Change c s (after (Ledger.register_candidate g frontier schemas s))
  unfolding Ledger.register_candidate
  register_candidate-Change g frontier schemas = registered g frontier schemas refl refl

  seal-Change : (g : String) (body : Json) → Change c s (after (Ledger.seal c g body s))
  unfolding Ledger.seal
  seal-Change g body = elim (Option-cases (find g s.generations)) [
    | inl missing ↦ same _ (ground (arith, missing))
    | inr (row, found) ↦ elim (Bool-cases (can_seal row.state)) [
      | inl may ↦ elim (Bool-cases (conflicts row.seal_json (c.dumps true body))) [
        | inl other ↦ same _ (ground (arith, found, may, other))
        | inr agreed ↦
            sealed g (c.dumps true body) row found may agreed (ground (arith, found, may, agreed))
              (ground (arith, found, may, agreed))
      ]
      | inr late ↦ same _ (ground (arith, found, late))
    ]
  ]

  begin_proof-Change : (g : String) → Change c s (after (Ledger.begin_proof c g s))
  unfolding Ledger.begin_proof
  begin_proof-Change g = elim (Option-cases (find g s.generations)) [
    | inl missing ↦ same _ (ground (arith, missing))
    | inr (row, found) ↦ elim (Bool-cases (can_prove row.state)) [
      | inl may ↦
          elim (Result-cases
            (semantic_digest c (attempt_body c g row.revision) "stage26-proof-attempt")) [
              | inl (a, digest) ↦
                  began g a row found may (ground (arith, found, may, digest))
                    (ground (arith, found, may, digest))
              | inr (x, failed) ↦ same _ (ground (arith, found, may, failed))
            ]
      | inr early ↦ same _ (ground (arith, found, early))
    ]
  ]

  record_as-Change :
      (a id : String) (gate : Json) → Change c s (after (Ledger.record_as c a id gate s))
  unfolding Ledger.record_as
  record_as-Change a id gate =
      elim (Bool-cases (conflicts (find (a, id) s.gates) (c.dumps true gate))) [
        | inl other ↦ same _ (ground (arith, other))
        | inr agreed ↦ quiet (ground (arith, agreed)) (ground (arith, agreed))
      ]

  record_gate-Change :
      (a : String) (gate : Json) → Change c s (after (Ledger.record_gate c a gate s))
  unfolding Ledger.record_gate
  record_gate-Change a gate = elim (Result-cases (validate_gate c gate)) [
    | inl (_, valid) ↦ elim (Option-cases (known_gate (get "gate_id" gate))) [
      | inl unknown ↦ same _ (ground (arith, valid, unknown))
      | inr (id, known) ↦ rw (valid, known) (record_as-Change a id gate)
    ]
    | inr (x, invalid) ↦ same _ (ground (arith, invalid))
  ]

  module _ (a : String) (attempt : Attempt) (found : find a s.attempts ≡ some attempt) where
    module _ (row : Generation) (payload : String)
        (current : find attempt.generation_id s.generations ≡ some row)
        (has_seal : row.seal_json ≡ some payload) where
      assembled-Change :
          (seal_digest : Json)
          → get "seal_digest" (c.loads payload) ≡ some seal_digest
          → Change c s (after (Ledger.seal_manifest c a s))
      unfolding Ledger.seal_manifest
      assembled-Change seal_digest digest =
          let gates = recorded c a s.gates in
          let b = binding_of c attempt row in
          elim (Result-cases (assemble_manifest c b gates seal_digest)) [
            | inl (manifest, e) ↦
                proved a payload attempt row seal_digest manifest found current has_seal digest
                  (assemble_manifest-IsManifest c b gates seal_digest manifest e)
                  (ground (arith, found, current, has_seal, digest, e))
            | inr (x, e) ↦ same _ (ground (arith, found, current, has_seal, digest, e))
          ]

      sealed-Change : Change c s (after (Ledger.seal_manifest c a s))
      unfolding Ledger.seal_manifest
      sealed-Change = elim (Option-cases (get "seal_digest" (c.loads payload))) [
        | inl absent ↦ same _ (ground (arith, found, current, has_seal, absent))
        | inr (seal_digest, digest) ↦ assembled-Change seal_digest digest
      ]

    attempt-Change : Change c s (after (Ledger.seal_manifest c a s))
    unfolding Ledger.seal_manifest
    attempt-Change = elim (Option-cases (find attempt.generation_id s.generations)) [
      | inl missing ↦ same _ (ground (arith, found, missing))
      | inr (row, current) ↦ elim (Option-cases row.seal_json) [
        | inl unsealed ↦ same _ (ground (arith, found, current, unsealed))
        | inr (payload, has_seal) ↦ sealed-Change row payload current has_seal
      ]
    ]

  seal_manifest-Change : (a : String) → Change c s (after (Ledger.seal_manifest c a s))
  unfolding Ledger.seal_manifest
  seal_manifest-Change a = elim (Option-cases (find a s.attempts)) [
    | inl missing ↦ same _ (ground (arith, missing))
    | inr (attempt, found) ↦ attempt-Change a attempt found
  ]

module _ (c : Codec) where
  unfoldable pub run : Call → Store → Store
  unfolding Ledger.register_candidate Ledger.seal Ledger.begin_proof Ledger.record_gate
      Ledger.seal_manifest
  run (register_candidate g frontier schemas) s =
      after (Ledger.register_candidate g frontier schemas s)
  run (seal g body) s = after (Ledger.seal c g body s)
  run (begin_proof g) s = after (Ledger.begin_proof c g s)
  run (record_gate a gate) s = after (Ledger.record_gate c a gate s)
  run (seal_manifest a) s = after (Ledger.seal_manifest c a s)

  unfoldable pub run_all : List Call → Store → Store
  unfolding run
  run_all [] s = s
  run_all (call ∷ calls) s = run_all calls (run call s)

  pub run-Change : (call : Call) (s : Store) → Change c s (run call s)
  unfolding run
  run-Change (register_candidate g frontier schemas) s =
      register_candidate-Change c s g frontier schemas
  run-Change (seal g body) s = seal-Change c s g body
  run-Change (begin_proof g) s = begin_proof-Change c s g
  run-Change (record_gate a gate) s = record_gate-Change c s a gate
  run-Change (seal_manifest a) s = seal_manifest-Change c s a
