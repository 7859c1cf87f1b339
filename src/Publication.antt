-- ===== src/Publication.antt =====
-- src/changebridge/publication.py: `PublicationStore`. The tables of the connection are the state,
-- and a method is an action that returns or raises one of the diagnostics below; their details are
-- left out. A revision is a natural number: a negative expected one is stale like any other. A
-- stored receipt stands for its JSON text, which `json.loads` reads back.
pub mod Registration
pub mod Receipts
pub mod Moves
pub mod Pins
pub mod Runs
pub mod Inversion
pub mod Outcomes
pub mod Change
pub mod Agreement
pub mod Bound
pub mod Attempts
pub mod Retry
pub mod Restore
pub mod Ambiguity
pub mod Revisions
pub mod Routing
pub mod Targets
pub mod Effects
pub mod Progress
pub mod Tests
use changebridge_cdc_migrati.Base.{ℕ, String, Bool, true, false, not, Option, none, some, [], ◌≡◌}
use changebridge_cdc_migrati.Base.Key.{text_key}
use changebridge_cdc_migrati.Base.Tests.{is_some}
use changebridge_cdc_migrati.Base.Table.{Table, find, insert}
use changebridge_cdc_migrati.Base.Exec.{
  Exec, pure, raise, gets, or_raise, modify, raise_if, ◌>>=◌, ◌>>◌,
}
use changebridge_cdc_migrati.Base.Result.{Result, ok, err}
use changebridge_cdc_migrati.Json.{Json, Codec}
use changebridge_cdc_migrati.Json.Contracts.{ContractError, semantic_digest}

pub data Error : Type 0 where
  binding_digest generation_binding_conflict : Error
  product_unknown pointer_clock_inconsistent pin_conflict : Error
  generation_unknown attempt_replay_conflict generation_ineligible stale_revision : Error
  ack_ambiguous attempt_outcome_unknown attempt_clock_divergence : Error
  fallback_authorization_required pointer_outcome_unresolved : Error
  rollback_authorization_required target_already_active : Error
  stale_run_revision illegal_run_transition run_unknown : Error
  unsupported_flag integrity_error : Error
  contract : ContractError → Error

-- CHECK(route IN …)
pub data Route : Type 0 where
  source_fallback generation : Route

pub data Action : Type 0 where
  publish first_publication_fallback rollback : Action

pub data Verdict : Type 0 where
  published source_fallback_verified rollback_verified : Verdict

pub data GenerationState : Type 0 where
  proven published rolled_back : GenerationState

pub record Clock : Type 0 where
  pub revision : ℕ
  pub route : Route

pub record Pointer : Type 0 where
  pub generation_id : String
  pub revision : ℕ
  pub attempt_id : String
  pub proof_manifest_digest : String
  pub table_map_digest : String
  pub publication_binding_digest : String

pub record Generation : Type 0 where
  pub frontier_json : String
  pub schema_set_digest : String
  pub proof_manifest_digest : String
  pub publication_binding_digest : String
  pub table_map_json : String
  pub table_map_digest : String
  pub consumer_contract : String
  pub state : GenerationState
  pub retained : Bool
  pub readable : Bool
  pub retired : Bool
  pub evidence_valid : Bool
  pub ever_published : Bool

-- the three digests that a publication or a rollback reports
pub record ReceiptBinding : Type 0 where
  pub proof_manifest_digest : String
  pub table_map_digest : String
  pub publication_binding_digest : String

-- `binding` is none for a fallback, whose receipt says that it represents no prior generation.
pub record Receipt : Type 0 where
  pub attempt_id : String
  pub action : Action
  pub verdict : Verdict
  pub product_id : String
  pub generation_id : Option String
  pub prior_generation_id : Option String
  pub expected_revision : ℕ
  pub resulting_revision : ℕ
  pub binding : Option ReceiptBinding

pub record Attempt : Type 0 where
  pub action : Action
  pub payload_digest : String
  pub product_id : String
  pub expected_revision : ℕ
  pub verdict : Verdict
  pub resulting_revision : ℕ
  pub receipt : Receipt

pub record Event : Type 0 where
  pub product_id : String
  pub attempt_id : String
  pub action : Action
  pub from_revision : ℕ
  pub to_revision : ℕ
  pub from_generation_id : Option String
  pub to_generation_id : Option String
  pub decision_digest : String

pub record Pin : Type 0 where
  pub product_id : String
  pub revision : ℕ
  pub route : Route
  pub generation_id : Option String
  pub proof_manifest_digest : Option String
  pub table_map_digest : Option String
  pub pin_json : String

pub data RunState : Type 0 where
  planned eligible publishing verifying active incident recovering : RunState
  source_fallback_verified rollback_verified : RunState

pub record Run : Type 0 where
  pub product_id : String
  pub state : RunState
  pub revision : ℕ
  pub last_attempt_id : Option String
  pub detail_json : String

pub record Store : Type 0 where
  pub publication_clock : Table String Clock
  pub active_pointer : Table String Pointer
  pub generations : Table String Generation
  pub attempts : Table String Attempt
  pub events : Table String Event
  pub consumer_pins : Table String Pin
  pub orchestration_runs : Table String Run

-- `_create_schema` on a new database
abbrev pub empty : Store
empty = record {
  publication_clock = [];
  active_pointer = [];
  generations = [];
  attempts = [];
  events = [];
  consumer_pins = [];
  orchestration_runs = [];
}

abbrev pub Method : Type 0 → Type 0
Method = Exec Error Store

-- `semantic_digest` where it is called in a method
abbrev pub digest_or_raise : Result ContractError String → Method String
digest_or_raise (ok d) s = pure d s
digest_or_raise (err e) s = raise (contract e) s

abbrev pub is_source_fallback : Route → Bool
is_source_fallback source_fallback = true
is_source_fallback generation = false

-- what `current` returns: the clock row, and the pointer row if there is one
pub record Current : Type 0 where
  pub revision : ℕ
  pub route : Route
  pub pointer : Option Pointer

-- (route == 'SOURCE_FALLBACK') != (pointer is None)
abbrev pub inconsistent : Route → Option Pointer → Bool
inconsistent source_fallback pointer = is_some pointer
inconsistent generation pointer = not (is_some pointer)

unfoldable pub current : String → Method Current
current product_id = do
  clock ← λ s. or_raise (find product_id s.publication_clock) product_unknown s
  pointer ← gets (λ s. find product_id s.active_pointer)
  raise_if (inconsistent clock.route pointer) pointer_clock_inconsistent
  pure (record { revision = clock.revision; route = clock.route; pointer = pointer })

-- `generation(generation_id)`, which is required to exist
unfoldable pub get_generation : String → Method Generation
get_generation generation_id s = or_raise (find generation_id s.generations) generation_unknown s

-- INSERT OR IGNORE INTO publication_clock, then `current`
unfoldable pub initialize_product : String → Method Current
unfolding current
initialize_product product_id = do
  modify (λ s. record s {
    publication_clock =
        elim (insert product_id (record { revision = 0; route = source_fallback })
          s.publication_clock) [ some t ↦ t | none ↦ s.publication_clock ];
  })
  current product_id
