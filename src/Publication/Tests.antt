-- ===== src/Publication/Tests.antt =====
-- Runs of the publication store, and the theorems at those runs.
use mathlib.Core.Option
use changebridge_cdc_migrati.Base.{
  ℕ, ◌<◌, String, true, false, none, some, List, [], ◌∷◌, ◌≡◌, refl, arith,
}
use changebridge_cdc_migrati.Base.Key.{◌==◌, text_key}
use changebridge_cdc_migrati.Base.Table.{find, insert, replace, update, delete}
use changebridge_cdc_migrati.Base.Exec.{done, raised, after}
use changebridge_cdc_migrati.Base.Result.{ok, err}
use changebridge_cdc_migrati.Json.{dict, str}
use changebridge_cdc_migrati.Json.Contracts.{canonical_value, canonical_bytes, semantic_digest}
use changebridge_cdc_migrati.Json.Sample.{sample, print, tally}
use changebridge_cdc_migrati.Publication.{
  Run, RunState, Store, Receipt, Action, Verdict, Route, Pointer, Generation, GenerationState,
  empty, current, get_generation, initialize_product, ack_ambiguous,
}
use changebridge_cdc_migrati.Publication.Registration.{
  Binding, binding_body, binding_row, insert_or_compare, register_generation, set_flags,
  set_eligibility,
}
use changebridge_cdc_migrati.Publication.Receipts.{
  Request, payload, event_body, binding_of, pointer_to, publish_receipt, publish_tables,
  fallback_receipt, fallback_tables, rollback_receipt, rollback_tables,
}
use changebridge_cdc_migrati.Publication.Moves.{
  is_eligible, prior_attempt, eligible, insert_attempt, finish, active_at, insert_event, note,
  publish_commit, publish, fallback_commit, first_publication_fallback, rollback_commit, rollback,
  reconcile_attempt,
}
use changebridge_cdc_migrati.Publication.Change.{Call, run, run_all}
use changebridge_cdc_migrati.Publication.Runs.{allowed, get_run, start_run, transition_run}
use changebridge_cdc_migrati.Publication.Progress.{MayEnter, transition_run_effect}
use changebridge_cdc_migrati.Publication.Agreement.{agree, clock_pointer_agree, current_consistent}
use changebridge_cdc_migrati.Publication.Bound.{IsBound, pointer-IsBound}
use changebridge_cdc_migrati.Publication.Restore.{rollback_retried}
use changebridge_cdc_migrati.Publication.Retry.{publish_retried}
use changebridge_cdc_migrati.Publication.Ambiguity.{ambiguity_resolved}
use changebridge_cdc_migrati.Publication.Revisions.{stale_moves}
use changebridge_cdc_migrati.Publication.Routing.{Moved}
use changebridge_cdc_migrati.Publication.Targets.{IsUsable, Became}
use changebridge_cdc_migrati.Publication.Effects.{publish_effect, fallback_effect, rollback_effect}

program : Unit {0}
unfolding find insert replace update delete print tally canonical_value canonical_bytes
    semantic_digest current get_generation initialize_product binding_body binding_row
    insert_or_compare register_generation set_flags set_eligibility payload event_body binding_of
    pointer_to publish_receipt publish_tables fallback_receipt fallback_tables rollback_receipt
    rollback_tables prior_attempt eligible insert_attempt finish active_at insert_event note
    publish_commit publish fallback_commit first_publication_fallback rollback_commit rollback
    reconcile_attempt run run_all
program = tt

abbrev unsigned : String → Binding
unsigned g = record {
  generation_id = g;
  frontier = dict (("kind", str "postgres_lsn") ∷ ("value", str "0/194FB20") ∷ []);
  schema_set_digest = "schemas";
  execution_proof_manifest_digest = "proof";
  table_map = dict (("orders", str g) ∷ []);
  table_map_digest = "tables";
  publication_binding_digest = "";
  others = [];
}

abbrev signed : Binding → Binding
unfolding program
signed b = record b {
  publication_binding_digest =
      elim (semantic_digest sample (binding_body b) "stage27-publication-binding") [
        | ok d ↦ d
        | err _ ↦ ""
      ];
}

abbrev request : String → ℕ → String → Request
request g n attempt = record {
  product_id = "orders";
  generation_id = g;
  expected_revision = n;
  attempt_id = attempt;
  authorization = "change-board";
  lose_acknowledgement = false;
}

abbrev first : Request
first = request "g1" 0 "attempt-1"

abbrev second : Request
second = request "g2" 1 "attempt-2"

abbrev back : Request
back = request "g1" 2 "attempt-3"

abbrev leave : Request
leave = request "" 1 "attempt-4"

abbrev lost : Request
lost = record first { lose_acknowledgement = true }

abbrev setup : List Call
setup =
    Call.initialize_product "orders"
    ∷ Call.register_generation (signed (unsigned "g1")) "consumer-1"
    ∷ Call.register_generation (signed (unsigned "g2")) "consumer-1"
    ∷ []

abbrev fresh_store : Store
fresh_store = run_all sample setup empty

abbrev once : Store
once = after (publish sample first fresh_store)

abbrev twice : Store
twice = after (publish sample second once)

abbrev rolled : Store
rolled = after (rollback sample back twice)

abbrev fallen : Store
fallen = after (first_publication_fallback sample leave once)

abbrev row_of : String → Store → Generation
row_of g s = Option.get_or (find g s.generations) (binding_row sample (unsigned g) "")

abbrev pointer_of : Store → Pointer
pointer_of s = Option.get_or (find "orders" s.active_pointer) (pointer_to first (row_of "g1" s))

abbrev receipt_1 : Receipt
receipt_1 = publish_receipt first none (row_of "g1" fresh_store)

abbrev receipt_3 : Receipt
receipt_3 = rollback_receipt back (pointer_of twice) (row_of "g1" twice)

abbrev receipt_4 : Receipt
receipt_4 = fallback_receipt leave (pointer_of once)

first_returns : publish sample first fresh_store ≡ done receipt_1 once
unfolding program
first_returns = refl

rollback_returns : rollback sample back twice ≡ done receipt_3 rolled
unfolding program
rollback_returns = refl

fallback_returns : first_publication_fallback sample leave once ≡ done receipt_4 fallen
unfolding program
fallback_returns = refl

lost_is_ambiguous : publish sample lost fresh_store ≡ raised ack_ambiguous once
unfolding program
lost_is_ambiguous = refl

fresh_1 : find "attempt-1" fresh_store.attempts ≡ none
unfolding program
fresh_1 = refl

fresh_3 : find "attempt-3" twice.attempts ≡ none
unfolding program
fresh_3 = refl

fresh_4 : find "attempt-4" once.attempts ≡ none
unfolding program
fresh_4 = refl

clock_1 :
    find "orders" once.publication_clock ≡ some (record { revision = 1; route = Route.generation })
unfolding program
clock_1 = refl

abbrev path : List Call
path =
    Call.initialize_product "orders"
    ∷ Call.register_generation (signed (unsigned "g1")) "consumer-1"
    ∷ Call.publish first
    ∷ []

path_clock :
    find "orders" (run_all sample path empty).publication_clock
    ≡ some (record { revision = 1; route = Route.generation })
unfolding program
path_clock = refl

path_pointer :
    find "orders" (run_all sample path empty).active_pointer
    ≡ some (pointer_of (run_all sample path empty))
unfolding program
path_pointer = refl

clock_pointer_agree_example :
    agree
      (find "orders" (run_all sample path empty).publication_clock)
      (find "orders" (run_all sample path empty).active_pointer)
    ≡ true
clock_pointer_agree_example = clock_pointer_agree sample path "orders"

current_consistent_example :
    current "orders" (run_all sample path empty)
    ≡ done
        (record {
          revision = 1;
          route = Route.generation;
          pointer = find "orders" (run_all sample path empty).active_pointer;
        })
        (run_all sample path empty)
current_consistent_example =
    current_consistent sample path "orders" (record { revision = 1; route = Route.generation })
      path_clock

pointer-IsBound_example :
    IsBound (pointer_of (run_all sample path empty)) (run_all sample path empty).generations
pointer-IsBound_example =
    pointer-IsBound sample path "orders" (pointer_of (run_all sample path empty)) path_pointer

publish_retried_example :
    publish sample first (run_all sample (Call.publish second ∷ []) once)
    ≡ done receipt_1 (run_all sample (Call.publish second ∷ []) once)
publish_retried_example =
    publish_retried sample first fresh_store once receipt_1 first_returns (Call.publish second ∷ [])
      false

ambiguity_resolved_example :
    (r : Receipt) × (r.resulting_revision ≡ 1)
    × (reconcile_attempt "attempt-1" (run_all sample (Call.publish second ∷ []) once)
        ≡ done r (run_all sample (Call.publish second ∷ []) once))
    × (publish sample first (run_all sample (Call.publish second ∷ []) once)
        ≡ done r (run_all sample (Call.publish second ∷ []) once))
ambiguity_resolved_example =
    ambiguity_resolved sample setup lost once lost_is_ambiguous (Call.publish second ∷ []) false

zero_is_past : 0 < 1
zero_is_past = ground arith

stale_moves_example :
    (after (publish sample (request "g2" 0 "late") (run_all sample [] once))
      ≡ run_all sample [] once)
    × (after (first_publication_fallback sample (request "g2" 0 "late") (run_all sample [] once))
        ≡ run_all sample [] once)
    × (after (rollback sample (request "g2" 0 "late") (run_all sample [] once))
        ≡ run_all sample [] once)
stale_moves_example =
    stale_moves sample (request "g2" 0 "late") once
      (record { revision = 1; route = Route.generation }) [] clock_1 zero_is_past

publish_effect_example :
    (target : Generation) × (find "g1" fresh_store.generations ≡ some target)
    × (is_eligible false target ≡ true)
    × (target.state ≡ GenerationState.proven)
    × IsUsable target
    × Became "g1"
        (record target { state = GenerationState.published; ever_published = true })
        fresh_store
        once
    × Moved first Route.generation
        (some (record {
          generation_id = "g1";
          revision = 1;
          attempt_id = "attempt-1";
          proof_manifest_digest = target.proof_manifest_digest;
          table_map_digest = target.table_map_digest;
          publication_binding_digest = target.publication_binding_digest;
        }))
        fresh_store
        once
    × (receipt_1 ≡ record {
      attempt_id = "attempt-1";
      action = Action.publish;
      verdict = Verdict.published;
      product_id = "orders";
      generation_id = some "g1";
      prior_generation_id =
          Option.map (λ old. old.generation_id) (find "orders" fresh_store.active_pointer);
      expected_revision = 0;
      resulting_revision = 1;
      binding = some (record {
        proof_manifest_digest = target.proof_manifest_digest;
        table_map_digest = target.table_map_digest;
        publication_binding_digest = target.publication_binding_digest;
      });
    })
publish_effect_example =
    publish_effect sample first fresh_store once receipt_1 fresh_1 first_returns

fallback_effect_example :
    (pointer : Pointer) × (find "orders" once.active_pointer ≡ some pointer)
    × (pointer.revision ≡ 1)
    × (fallen.generations ≡ once.generations)
    × (Moved leave Route.source_fallback none once fallen)
    × (receipt_4 ≡ record {
      attempt_id = "attempt-4";
      action = Action.first_publication_fallback;
      verdict = Verdict.source_fallback_verified;
      product_id = "orders";
      generation_id = none;
      prior_generation_id = some pointer.generation_id;
      expected_revision = 1;
      resulting_revision = 2;
      binding = none;
    })
fallback_effect_example =
    fallback_effect sample leave once fallen receipt_4 fresh_4 fallback_returns

rollback_effect_example :
    (pointer : Pointer) × (find "orders" twice.active_pointer ≡ some pointer)
    × ((pointer.generation_id == "g1") ≡ false)
    × (target : Generation) × (find "g1" twice.generations ≡ some target)
    × (is_eligible true target ≡ true)
    × IsUsable target
    × (target.ever_published ≡ true)
    × ((old : Generation)
        → find pointer.generation_id twice.generations ≡ some old
        → find pointer.generation_id rolled.generations
          ≡ some (record old { state = GenerationState.rolled_back }))
    × ((other : String)
        → (pointer.generation_id == other) ≡ false
        → find other rolled.generations ≡ find other twice.generations)
    × Moved back Route.generation
        (some (record {
          generation_id = "g1";
          revision = 3;
          attempt_id = "attempt-3";
          proof_manifest_digest = target.proof_manifest_digest;
          table_map_digest = target.table_map_digest;
          publication_binding_digest = target.publication_binding_digest;
        }))
        twice
        rolled
    × (receipt_3 ≡ record {
      attempt_id = "attempt-3";
      action = Action.rollback;
      verdict = Verdict.rollback_verified;
      product_id = "orders";
      generation_id = some "g1";
      prior_generation_id = some pointer.generation_id;
      expected_revision = 2;
      resulting_revision = 3;
      binding = some (record {
        proof_manifest_digest = target.proof_manifest_digest;
        table_map_digest = target.table_map_digest;
        publication_binding_digest = target.publication_binding_digest;
      });
    })
rollback_effect_example =
    rollback_effect sample back twice rolled receipt_3 fresh_3 rollback_returns

abbrev planned_run : Run
planned_run = record {
  product_id = "orders";
  state = RunState.planned;
  revision = 0;
  last_attempt_id = none;
  detail_json = "{}";
}

abbrev planned_store : Store
planned_store = record fresh_store { orchestration_runs = ("run-1", planned_run) ∷ [] }

abbrev stepped : Store
stepped = after (transition_run sample "run-1" 0 RunState.eligible none (dict []) planned_store)

abbrev eligible_run : Run
eligible_run = record planned_run {
  state = RunState.eligible;
  revision = 1;
  detail_json = sample.dumps true (dict []);
}

run_starts : after (start_run "run-1" "orders" fresh_store) ≡ planned_store
unfolding program start_run get_run
run_starts = refl

step_returns :
    transition_run sample "run-1" 0 RunState.eligible none (dict []) planned_store
    ≡ done eligible_run stepped
unfolding program transition_run get_run allowed
step_returns = refl

transition_run_effect_example :
    (old : Run) × (find "run-1" planned_store.orchestration_runs ≡ some old)
    × (old.revision ≡ 0)
    × MayEnter old.state RunState.eligible
    × (eligible_run ≡ record {
      product_id = old.product_id;
      state = RunState.eligible;
      revision = 1;
      last_attempt_id = none;
      detail_json = sample.dumps true (dict []);
    })
    × (find "run-1" stepped.orchestration_runs ≡ some eligible_run)
    × ((other : String)
        → ("run-1" == other) ≡ false
        → find other stepped.orchestration_runs ≡ find other planned_store.orchestration_runs)
    × (stepped.publication_clock ≡ planned_store.publication_clock)
    × (stepped.active_pointer ≡ planned_store.active_pointer)
    × (stepped.attempts ≡ planned_store.attempts)
transition_run_effect_example =
    transition_run_effect sample "run-1" 0 RunState.eligible none (dict []) eligible_run
      planned_store stepped step_returns

rollback_retried_example :
    rollback sample back (run_all sample (Call.publish second ∷ []) rolled)
    ≡ done receipt_3 (run_all sample (Call.publish second ∷ []) rolled)
rollback_retried_example =
    rollback_retried sample back twice rolled receipt_3 rollback_returns (Call.publish second ∷ [])
