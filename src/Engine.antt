-- ===== src/Engine.antt =====
-- src/changebridge/engine.py: `ChangeBridgeEngine`. The connection's tables are the state, and a
-- method is an action that returns or raises. Its texts of errors are left out. `created_at` is
-- the argument `now`. Foreign keys name a generation that the method has just read.
pub mod Batch
pub mod Inversion
pub mod Frontier
pub mod Atomicity
pub mod Change
pub mod Invariant
pub mod Replay
pub mod Activation
pub mod Rows
pub mod Readers
mod Tests
use changebridge_cdc_migrati.Base.{
  ℕ, ◌+◌, String, Bool, true, false, not, ◌&&◌, ◌||◌, Option, none, some, List, [], ◌∷◌,
}
use changebridge_cdc_migrati.Base.Tests.{if◌then◌else◌, is_some, nat_eq}
use changebridge_cdc_migrati.Base.Key.{◌==◌, text_key, number_key, pair_key, triple_key}
use changebridge_cdc_migrati.Base.Int.{ℤ, ltb_ℤ, leb_ℤ, eqb_ℤ, pos}
use changebridge_cdc_migrati.Base.Table.{Table, find, insert, replace, update}
use changebridge_cdc_migrati.Base.Sort.{sort, text_le}
use changebridge_cdc_migrati.Base.Exec.{
  Exec, pure, raise, gets, or_raise, transaction, modify, raise_if, ◌>>=◌, ◌>>◌,
}
use changebridge_cdc_migrati.Json.{Json, Codec}
use changebridge_cdc_migrati.Json.Canonical.{canonical_json, digest}
use changebridge_cdc_migrati.Model.{
  ChangeEvent, CdcTransaction, CdcBatch, is_delete, transaction_as_dict, batch_as_dict,
}

pub data Error : Type 0 where
  frontier_gap replay_conflict compare_and_swap_conflict invalid_generation_state : Error
  value_error key_error type_error integrity_error injected_crash : Error

-- CHECK(status IN …)
pub data Status : Type 0 where
  loading candidate ready retired : Status

abbrev pub is_loading : Status → Bool
is_loading loading = true
is_loading _ = false

abbrev pub is_candidate : Status → Bool
is_candidate candidate = true
is_candidate _ = false

abbrev pub is_ready : Status → Bool
is_ready ready = true
is_ready _ = false

pub record Generation : Type 0 where
  pub snapshot_lsn : ℤ
  pub current_lsn : ℤ
  pub schema_version : String
  pub status : Status
  pub created_at : String

pub record Row : Type 0 where
  pub payload_json : Option String
  pub source_lsn : ℤ
  pub deleted : Bool

pub record AppliedTransaction : Type 0 where
  pub payload_digest : String
  pub commit_lsn : ℤ

pub record AppliedBatch : Type 0 where
  pub payload_digest : String
  pub start_lsn : ℤ
  pub end_lsn : ℤ

-- The row whose `singleton` is 1, which `_create_schema` writes.
pub record ActivePointer : Type 0 where
  pub generation_id : Option String
  pub pointer_version : ℕ

pub record Engine : Type 0 where
  pub generations : Table String Generation
  pub records : Table (String × String × String) Row
  pub applied_transactions : Table (String × String) AppliedTransaction
  pub applied_batches : Table (String × String) AppliedBatch
  pub active_pointer : ActivePointer

-- `_create_schema` on a new database
abbrev pub empty : Engine
empty = record {
  generations = [];
  records = [];
  applied_transactions = [];
  applied_batches = [];
  active_pointer = record { generation_id = none; pointer_version = 0 };
}

abbrev pub Action : Type 0 → Type 0
Action = Exec Error Engine

abbrev set_generations : Table String Generation → Action (Unit {0})
set_generations t = modify (λ s. record s { generations = t })

abbrev set_status : Status → Generation → Generation
set_status status g = record g { status = status }

-- the mapping of `load_snapshot`: rows by their key, by table
abbrev pub Tables : Type 0
Tables = List (String × List (String × Json))

pub get_generation : String → Action Generation
get_generation generation_id s = or_raise (find generation_id s.generations) key_error s

pub create_generation : String → ℤ → String → String → Action (Unit {0})
create_generation generation_id snapshot_lsn schema_version now = do
  raise_if (ltb_ℤ snapshot_lsn (pos 0)) value_error
  generations ← gets (λ s. s.generations)
  inserted ←
      or_raise
        (insert generation_id
          (record {
            snapshot_lsn = snapshot_lsn;
            current_lsn = snapshot_lsn;
            schema_version = schema_version;
            status = loading;
            created_at = now;
          })
          generations)
        integrity_error
  set_generations inserted

-- SELECT COUNT(*) … WHERE generation_id = ?, as a test against 0
pub has_records : String → Table (String × String × String) Row → Bool
has_records generation_id [] = false
has_records generation_id ((k, _) ∷ t) = k.0 == generation_id || has_records generation_id t

abbrev pub by_name : {A : Type 0} → String × A → String × A → Bool
by_name a b = text_le a.0 b.0

module _ (c : Codec) where
  pub snapshot_row : ℤ → Json → Row
  snapshot_row lsn payload = record {
    payload_json = some (canonical_json c payload);
    source_lsn = lsn;
    deleted = false;
  }

  pub load_rows : String → ℤ → String → List (String × Json) → Action (Unit {0})
  load_rows generation_id lsn table [] = pure tt
  load_rows generation_id lsn table ((key, payload) ∷ rows) = do
    records ← gets (λ s. s.records)
    inserted ←
        or_raise (insert (generation_id, table, key) (snapshot_row lsn payload) records)
          integrity_error
    modify (λ s. record s { records = inserted })
    load_rows generation_id lsn table rows

  pub load_tables : String → ℤ → Tables → Action (Unit {0})
  load_tables generation_id lsn [] = pure tt
  load_tables generation_id lsn ((table, rows) ∷ tables) = do
    load_rows generation_id lsn table (sort by_name rows)
    load_tables generation_id lsn tables

  pub load_snapshot : String → Tables → Action (Unit {0})
  load_snapshot generation_id tables = do
    generation ← get_generation generation_id
    raise_if (not (is_loading generation.status)) invalid_generation_state
    existing ← gets (λ s. has_records generation_id s.records)
    raise_if existing invalid_generation_state
    transaction (do
      load_tables generation_id generation.snapshot_lsn (sort by_name tables)
      modify (λ s. record s {
        generations = update generation_id (set_status candidate) s.generations;
      }))

pub mark_ready : String → Action (Unit {0})
mark_ready generation_id = do
  generation ← get_generation generation_id
  raise_if (not (is_candidate generation.status)) invalid_generation_state
  modify (λ s. record s { generations = update generation_id (set_status ready) s.generations })

pub active_pointer : Action (Option String × ℕ)
active_pointer s = pure (s.active_pointer.generation_id, s.active_pointer.pointer_version) s

-- UPDATE active_pointer … WHERE singleton = 1 AND pointer_version = ?, and its row count
pub swap_pointer : String → ℕ → Action (Unit {0})
swap_pointer generation_id expected_version s =
    if s.active_pointer.pointer_version == expected_version
    then modify
        (λ s. record s {
          active_pointer = record {
            generation_id = some generation_id;
            pointer_version = s.active_pointer.pointer_version + 1;
          };
        })
        s
    else raise compare_and_swap_conflict s

pub activate : String → ℕ → Action ℕ
activate generation_id expected_version = do
  generation ← get_generation generation_id
  raise_if (not (is_ready generation.status)) invalid_generation_state
  transaction (swap_pointer generation_id expected_version)
  pure (expected_version + 1)
