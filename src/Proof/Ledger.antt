-- ===== src/Proof/Ledger.antt =====
-- src/changebridge/proof_control.py: `ProofControlStore`. The connection's tables are the state. A
-- `with self.connection` block holds statements that cannot fail here, so it is their writes.
use changebridge_cdc_migrati.Base.{
  ℕ, String, Bool, true, false, not, Option, none, some, List, [], ◌∷◌, map,
}
use changebridge_cdc_migrati.Base.Tests.{if◌then◌else◌}
use changebridge_cdc_migrati.Base.Key.{◌==◌, text_key, pair_key}
use changebridge_cdc_migrati.Base.Exec.{
  Exec, done, raised, pure, gets, or_raise, modify, raise_if, ◌>>=◌, ◌>>◌,
}
use changebridge_cdc_migrati.Base.Result.{Result, ok, err}
use changebridge_cdc_migrati.Base.Table.{Table, find, update, insert_or_ignore}
use changebridge_cdc_migrati.Base.Sort.{sort, text_le}
use changebridge_cdc_migrati.Json.{Json, str, Codec, dict, nat}
use changebridge_cdc_migrati.Json.Access.{get}
use changebridge_cdc_migrati.Json.Contracts.{ContractError, semantic_digest}
use changebridge_cdc_migrati.Proof.Gates.{
  GateError, Binding, known_gate, validate_gate, assemble_manifest,
}

-- the codes CB26C001 to CB26C005, and what the calls raise
pub data Error : Type 0 where
  invalid_seal_state seal_conflict invalid_proof_state gate_conflict unknown_attempt : Error
  assertion_error key_error : Error
  gate_error : GateError → Error
  contract_error : ContractError → Error

pub data State : Type 0 where
  cdc_applying sealed proving proven : State

pub record Generation : Type 0 where
  pub frontier : String
  pub schema_set_digest : String
  pub state : State
  pub revision : ℕ
  pub seal_json : Option String
  pub manifest_json : Option String

pub data AttemptState : Type 0 where
  open_attempt sealed_attempt : AttemptState

pub record Attempt : Type 0 where
  pub generation_id : String
  pub input_revision : ℕ
  pub state : AttemptState

-- `gates` holds gate_json under the attempt and the gate
pub record Store : Type 0 where
  pub generations : Table String Generation
  pub attempts : Table String Attempt
  pub gates : Table (String × String) String

abbrev pub Method : Type 0 → Type 0
Method A = Exec Error Store A

abbrev pub empty : Store
empty = record { generations = []; attempts = []; gates = [] }

abbrev pub gate_raise : {A : Type 0} → Result GateError A → Method A
gate_raise (ok a) s = done a s
gate_raise (err e) s = raised (gate_error e) s

abbrev pub contract_raise : {A : Type 0} → Result ContractError A → Method A
contract_raise (ok a) s = done a s
contract_raise (err e) s = raised (contract_error e) s

unfoldable pub register_candidate : String → String → String → Method (Unit {0})
unfolding insert_or_ignore
register_candidate generation_id frontier schema_set_digest = modify (λ s. record s {
  generations =
      insert_or_ignore generation_id
        (record {
          frontier = frontier;
          schema_set_digest = schema_set_digest;
          state = cdc_applying;
          revision = 0;
          seal_json = none;
          manifest_json = none;
        })
        s.generations;
})

-- state in {"CDC_APPLYING", "SEALED"}
abbrev pub can_seal : State → Bool
can_seal cdc_applying = true
can_seal sealed = true
can_seal _ = false

-- state in {"SEALED", "PROVING"}
abbrev pub can_prove : State → Bool
can_prove sealed = true
can_prove proving = true
can_prove _ = false

-- whether a recorded text is there and another one
abbrev pub conflicts : Option String → String → Bool
conflicts none payload = false
conflicts (some recorded) payload = not (recorded == payload)

module _ (c : Codec) where
  abbrev pub write_seal : String → Generation → Generation
  write_seal payload row = record row { state = sealed; revision = 1; seal_json = some payload }

  unfoldable pub seal : String → Json → Method Json
  seal generation_id body = do
    row ← gets (λ s. find generation_id s.generations)
    row ← or_raise row invalid_seal_state
    raise_if (not (can_seal row.state)) invalid_seal_state
    let payload = c.dumps true body
    raise_if (conflicts row.seal_json payload) seal_conflict
    modify (λ s. record s { generations = update generation_id (write_seal payload) s.generations })
    pure body

  abbrev pub attempt_body : String → ℕ → Json
  attempt_body generation_id revision =
      dict (("generation_id", str generation_id) ∷ ("revision", nat revision) ∷ [])

  abbrev pub start_proving : Generation → Generation
  start_proving row = record row { state = proving }

  unfoldable pub begin_proof : String → Method (String × ℕ)
  unfolding insert_or_ignore
  begin_proof generation_id = do
    row ← gets (λ s. find generation_id s.generations)
    row ← or_raise row invalid_proof_state
    raise_if (not (can_prove row.state)) invalid_proof_state
    attempt_id ←
        contract_raise
          (semantic_digest c (attempt_body generation_id row.revision) "stage26-proof-attempt")
    modify (λ s. record s {
      attempts =
          insert_or_ignore attempt_id
            (record {
              generation_id = generation_id;
              input_revision = row.revision;
              state = open_attempt;
            })
            s.attempts;
      generations = update generation_id start_proving s.generations;
    })
    pure (attempt_id, row.revision)

  unfoldable pub record_as : String → String → Json → Method (Unit {0})
  unfolding insert_or_ignore
  record_as attempt_id gate_id gate = do
    let payload = c.dumps true gate
    row ← gets (λ s. find (attempt_id, gate_id) s.gates)
    raise_if (conflicts row payload) gate_conflict
    modify (λ s. record s { gates = insert_or_ignore (attempt_id, gate_id) payload s.gates })

  unfoldable pub record_gate : String → Json → Method (Unit {0})
  unfolding record_as
  record_gate attempt_id gate = do
    gate_raise (validate_gate c gate)
    gate_id ← or_raise (known_gate (get "gate_id" gate)) key_error
    record_as attempt_id gate_id gate

  -- SELECT gate_json … WHERE attempt_id=?, beside the gates
  unfoldable pub gates_of : String → Table (String × String) String → List (String × String)
  gates_of attempt_id [] = []
  gates_of attempt_id (((a, g), payload) ∷ rows) =
      let rest = gates_of attempt_id rows in if a == attempt_id then (g, payload) ∷ rest else rest

  -- the decoded gates of an attempt, ORDER BY gate_id
  unfoldable pub recorded : String → Table (String × String) String → List Json
  unfolding gates_of sort
  recorded attempt_id rows =
      map (λ r. c.loads r.1) (sort (λ p q. text_le p.0 q.0) (gates_of attempt_id rows))

  abbrev pub binding_of : Attempt → Generation → Binding
  binding_of attempt row = record {
    generation_id = attempt.generation_id;
    frontier = row.frontier;
    schema_set_digest = row.schema_set_digest;
    input_revision = attempt.input_revision;
  }

  abbrev pub close_attempt : Attempt → Attempt
  close_attempt attempt = record attempt { state = sealed_attempt }

  abbrev pub write_manifest_row : String → Generation → Generation
  write_manifest_row payload row = record row {
    state = proven;
    revision = 2;
    manifest_json = some payload;
  }

  abbrev pub prove : String → String → String → Store → Store
  prove attempt_id generation_id payload s = record s {
    attempts = update attempt_id close_attempt s.attempts;
    generations = update generation_id (write_manifest_row payload) s.generations;
  }

  unfoldable pub seal_manifest : String → Method Json
  seal_manifest attempt_id = do
    attempt ← gets (λ s. find attempt_id s.attempts)
    attempt ← or_raise attempt unknown_attempt
    row ← gets (λ s. find attempt.generation_id s.generations)
    row ← or_raise row assertion_error
    seal_json ← or_raise row.seal_json assertion_error
    gates ← gets (λ s. recorded attempt_id s.gates)
    seal_digest ← or_raise (get "seal_digest" (c.loads seal_json)) key_error
    manifest ← gate_raise (assemble_manifest c (binding_of attempt row) gates seal_digest)
    modify (prove attempt_id attempt.generation_id (c.dumps true manifest))
    pure manifest
