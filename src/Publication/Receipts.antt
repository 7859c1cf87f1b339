-- ===== src/Publication/Receipts.antt =====
-- src/changebridge/publication.py: the payloads, receipts and writes of `publish`,
-- `first_publication_fallback` and `rollback`.
use changebridge_cdc_migrati.Base.{ℕ, ◌+◌, String, Bool, true, Option, none, some, [], ◌∷◌}
use changebridge_cdc_migrati.Base.Key.{text_key, number_key}
use changebridge_cdc_migrati.Base.Table.{replace, update, delete}
use changebridge_cdc_migrati.Json.{Json, dict, str, nat, null}
use changebridge_cdc_migrati.Publication
use changebridge_cdc_migrati.Publication.{
  Store, Method, Action, Verdict, Clock, Pointer, Generation, GenerationState, Receipt,
  ReceiptBinding, Attempt, Event, Current, digest_or_raise, current, get_generation,
  attempt_replay_conflict, generation_ineligible, stale_revision, ack_ambiguous,
  fallback_authorization_required, pointer_outcome_unresolved, rollback_authorization_required,
  target_already_active, attempt_outcome_unknown, attempt_clock_divergence, integrity_error,
}

-- the keyword arguments of `publish` and `rollback`; a fallback names no generation
pub record Request : Type 0 where
  pub product_id : String
  pub generation_id : String
  pub expected_revision : ℕ
  pub attempt_id : String
  pub authorization : String
  pub lose_acknowledgement : Bool

abbrev pub action_name : Action → String
action_name Action.publish = "PUBLISH"
action_name Action.first_publication_fallback = "FIRST_PUBLICATION_FALLBACK"
action_name Action.rollback = "ROLLBACK"

abbrev pub optional_text : Option String → Json
optional_text none = null
optional_text (some t) = str t

-- the payload of an attempt, whose digest tells a retry from another request
unfoldable pub payload : Action → Request → Json
payload Action.publish q = dict (
    ("action", str "PUBLISH")
    ∷ ("product_id", str q.product_id)
    ∷ ("generation_id", str q.generation_id)
    ∷ ("expected_revision", nat q.expected_revision)
    ∷ ("authorization", str q.authorization)
    ∷ [])
payload Action.first_publication_fallback q = dict (
    ("action", str "FIRST_PUBLICATION_FALLBACK")
    ∷ ("product_id", str q.product_id)
    ∷ ("expected_revision", nat q.expected_revision)
    ∷ ("authorization", str q.authorization)
    ∷ [])
payload Action.rollback q = dict (
    ("action", str "ROLLBACK")
    ∷ ("product_id", str q.product_id)
    ∷ ("target_generation_id", str q.generation_id)
    ∷ ("expected_revision", nat q.expected_revision)
    ∷ ("authorization", str q.authorization)
    ∷ [])

unfoldable pub event_body : Receipt → Json
event_body r = dict (
    ("attempt_id", str r.attempt_id)
    ∷ ("action", str (action_name r.action))
    ∷ ("from_revision", nat r.expected_revision)
    ∷ ("to_revision", nat r.resulting_revision)
    ∷ ("from_generation_id", optional_text r.prior_generation_id)
    ∷ ("to_generation_id", optional_text r.generation_id)
    ∷ [])

abbrev pub attempt_domain : String
attempt_domain = "stage27-publication-attempt"

unfoldable pub binding_of : Generation → ReceiptBinding
binding_of g = record {
  proof_manifest_digest = g.proof_manifest_digest;
  table_map_digest = g.table_map_digest;
  publication_binding_digest = g.publication_binding_digest;
}

abbrev pub prior_id : Option Pointer → Option String
prior_id none = none
prior_id (some p) = some p.generation_id

abbrev pub set_clock : ℕ → Publication.Route → Clock → Clock
set_clock revision route k = record k { revision = revision; route = route }

abbrev pub mark_published : Generation → Generation
mark_published g = record g { state = GenerationState.published; ever_published = true }

abbrev pub mark_rolled_back : Generation → Generation
mark_rolled_back g = record g { state = GenerationState.rolled_back }

-- the row of the active pointer after a publication or a rollback
unfoldable pub pointer_to : Request → Generation → Pointer
pointer_to q g = record {
  generation_id = q.generation_id;
  revision = q.expected_revision + 1;
  attempt_id = q.attempt_id;
  proof_manifest_digest = g.proof_manifest_digest;
  table_map_digest = g.table_map_digest;
  publication_binding_digest = g.publication_binding_digest;
}

unfoldable pub publish_receipt : Request → Option Pointer → Generation → Receipt
unfolding binding_of
publish_receipt q pointer g = record {
  attempt_id = q.attempt_id;
  action = Action.publish;
  verdict = Verdict.published;
  product_id = q.product_id;
  generation_id = some q.generation_id;
  prior_generation_id = prior_id pointer;
  expected_revision = q.expected_revision;
  resulting_revision = q.expected_revision + 1;
  binding = some (binding_of g);
}

-- UPDATE publication_clock, INSERT OR REPLACE INTO active_pointer, UPDATE generations
unfoldable pub publish_tables : Request → Generation → Store → Store
unfolding pointer_to
publish_tables q g s = record s {
  publication_clock =
      update q.product_id (set_clock (q.expected_revision + 1) Publication.Route.generation)
        s.publication_clock;
  active_pointer = replace q.product_id (pointer_to q g) s.active_pointer;
  generations = update q.generation_id mark_published s.generations;
}

unfoldable pub fallback_receipt : Request → Pointer → Receipt
fallback_receipt q pointer = record {
  attempt_id = q.attempt_id;
  action = Action.first_publication_fallback;
  verdict = Verdict.source_fallback_verified;
  product_id = q.product_id;
  generation_id = none;
  prior_generation_id = some pointer.generation_id;
  expected_revision = q.expected_revision;
  resulting_revision = q.expected_revision + 1;
  binding = none;
}

-- DELETE FROM active_pointer WHERE product_id=? AND revision=?, UPDATE publication_clock
unfoldable pub fallback_tables : Request → Store → Store
fallback_tables q s = record s {
  publication_clock =
      update q.product_id (set_clock (q.expected_revision + 1) Publication.Route.source_fallback)
        s.publication_clock;
  active_pointer = delete q.product_id s.active_pointer;
}

unfoldable pub rollback_receipt : Request → Pointer → Generation → Receipt
unfolding binding_of
rollback_receipt q pointer target = record {
  attempt_id = q.attempt_id;
  action = Action.rollback;
  verdict = Verdict.rollback_verified;
  product_id = q.product_id;
  generation_id = some q.generation_id;
  prior_generation_id = some pointer.generation_id;
  expected_revision = q.expected_revision;
  resulting_revision = q.expected_revision + 1;
  binding = some (binding_of target);
}

-- UPDATE publication_clock SET revision, UPDATE active_pointer, UPDATE generations
unfoldable pub rollback_tables : Request → Pointer → Generation → Store → Store
unfolding pointer_to
rollback_tables q pointer target s = record s {
  publication_clock =
      update q.product_id (λ k. record k { revision = q.expected_revision + 1 })
        s.publication_clock;
  active_pointer = update q.product_id (λ _. pointer_to q target) s.active_pointer;
  generations = update pointer.generation_id mark_rolled_back s.generations;
}
