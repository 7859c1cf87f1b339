-- ===== src/Publication/Moves.antt =====
-- src/changebridge/publication.py: `publish`, `first_publication_fallback`, `rollback` and
-- `reconcile_attempt`, the methods that move a product's clock, with their helpers.
use changebridge_cdc_migrati.Base.{String, Bool, true, false, not, ◌&&◌, ◌||◌, Option, none, some}
use changebridge_cdc_migrati.Base.Tests.{if◌then◌else◌, ltb}
use changebridge_cdc_migrati.Base.Key.{◌==◌, text_key, number_key}
use changebridge_cdc_migrati.Base.Table.{find, insert}
use changebridge_cdc_migrati.Base.Exec.{
  pure, raise, gets, or_raise, transaction, modify, raise_if, ◌>>=◌, ◌>>◌,
}
use changebridge_cdc_migrati.Json.{Codec}
use changebridge_cdc_migrati.Json.Contracts.{semantic_digest}
use changebridge_cdc_migrati.Publication.{
  Method, Action, Pointer, Generation, GenerationState, Receipt, Attempt, Current, digest_or_raise,
  current, get_generation, attempt_replay_conflict, generation_ineligible, stale_revision,
  ack_ambiguous, fallback_authorization_required, pointer_outcome_unresolved,
  rollback_authorization_required, target_already_active, attempt_outcome_unknown,
  attempt_clock_divergence, integrity_error,
}
use changebridge_cdc_migrati.Publication.Receipts.{
  Request, payload, event_body, attempt_domain, publish_receipt, publish_tables, fallback_receipt,
  fallback_tables, rollback_receipt, rollback_tables,
}

-- the receipt of an earlier attempt with this id, if its payload was the same
abbrev same_payload : String → Option Attempt → Method (Option Receipt)
same_payload digest none = pure none
same_payload digest (some a) = do
  raise_if (not (a.payload_digest == digest)) attempt_replay_conflict
  pure (some a.receipt)

unfoldable pub prior_attempt : String → String → Method (Option Receipt)
prior_attempt attempt_id digest s = same_payload digest (find attempt_id s.attempts) s

-- state in {PROVEN, PUBLISHED} for a rollback, in {PROVEN} for a publication
abbrev pub allowed_state : Bool → GenerationState → Bool
allowed_state rollback GenerationState.proven = true
allowed_state rollback GenerationState.published = rollback
allowed_state rollback GenerationState.rolled_back = false

abbrev pub is_eligible : Bool → Generation → Bool
is_eligible rollback g =
    allowed_state rollback g.state
    && (g.retained
        && (g.readable
            && (not g.retired && (g.evidence_valid && (not rollback || g.ever_published)))))

unfoldable pub eligible : String → Bool → Method Generation
unfolding get_generation
eligible generation_id rollback = do
  generation ← get_generation generation_id
  raise_if (not (is_eligible rollback generation)) generation_ineligible
  pure generation

unfoldable pub insert_attempt : Action → Request → String → Receipt → Method (Unit {0})
insert_attempt action q digest receipt = do
  attempts ← gets (λ s. s.attempts)
  inserted ←
      or_raise
        (insert q.attempt_id
          (record {
            action = action;
            payload_digest = digest;
            product_id = q.product_id;
            expected_revision = q.expected_revision;
            verdict = receipt.verdict;
            resulting_revision = receipt.resulting_revision;
            receipt = receipt;
          })
          attempts)
        integrity_error
  modify (λ s. record s { attempts = inserted })

-- the end of a method: an earlier receipt, or the transaction and the acknowledgement
unfoldable pub finish : Bool → Option Receipt → Method Receipt → Method Receipt
finish lost (some receipt) commit = pure receipt
finish lost none commit = do receipt ← transaction commit; raise_if lost ack_ambiguous; pure receipt

-- `pointer` is the pointer row, which must be there at the expected revision
unfoldable pub active_at : Current → Request → Method Pointer
active_at now q s =
    if not (now.revision == q.expected_revision)
    then raise stale_revision s
    else or_raise now.pointer stale_revision s

module _ (c : Codec) where
  unfoldable pub insert_event : Receipt → Method (Unit {0})
  unfolding event_body
  insert_event r = do
    decision_digest ← digest_or_raise (semantic_digest c (event_body r) "stage27-publication-event")
    events ← gets (λ s. s.events)
    inserted ←
        or_raise
          (insert decision_digest
            (record {
              product_id = r.product_id;
              attempt_id = r.attempt_id;
              action = r.action;
              from_revision = r.expected_revision;
              to_revision = r.resulting_revision;
              from_generation_id = r.prior_generation_id;
              to_generation_id = r.generation_id;
              decision_digest = decision_digest;
            })
            events)
          integrity_error
    modify (λ s. record s { events = inserted })

  -- `_insert_attempt`, `_insert_event`
  unfoldable pub note : Action → Request → String → Receipt → Method Receipt
  note action q digest receipt = do
    insert_attempt action q digest receipt
    insert_event receipt
    pure receipt

  -- between BEGIN IMMEDIATE and COMMIT
  unfoldable pub publish_commit : Request → String → Method Receipt
  publish_commit q digest = do
    now ← current q.product_id
    raise_if (not (now.revision == q.expected_revision)) stale_revision
    g ← eligible q.generation_id false
    modify (publish_tables q g)
    note Action.publish q digest (publish_receipt q now.pointer g)

  unfoldable pub publish : Request → Method Receipt
  publish q = do
    digest ← digest_or_raise (semantic_digest c (payload Action.publish q) attempt_domain)
    prior ← prior_attempt q.attempt_id digest
    finish q.lose_acknowledgement prior (publish_commit q digest)

  unfoldable pub fallback_commit : Request → String → Method Receipt
  fallback_commit q digest = do
    now ← current q.product_id
    pointer ← active_at now q
    raise_if (not (pointer.revision == q.expected_revision)) pointer_outcome_unresolved
    modify (fallback_tables q)
    note Action.first_publication_fallback q digest (fallback_receipt q pointer)

  unfoldable pub first_publication_fallback : Request → Method Receipt
  first_publication_fallback q = do
    raise_if (q.authorization == "") fallback_authorization_required
    digest ←
        digest_or_raise
          (semantic_digest c (payload Action.first_publication_fallback q) attempt_domain)
    prior ← prior_attempt q.attempt_id digest
    finish q.lose_acknowledgement prior (fallback_commit q digest)

  unfoldable pub rollback_commit : Request → String → Method Receipt
  rollback_commit q digest = do
    now ← current q.product_id
    pointer ← active_at now q
    raise_if (pointer.generation_id == q.generation_id) target_already_active
    target ← eligible q.generation_id true
    modify (rollback_tables q pointer target)
    note Action.rollback q digest (rollback_receipt q pointer target)

  unfoldable pub rollback : Request → Method Receipt
  rollback q = do
    raise_if (q.authorization == "") rollback_authorization_required
    digest ← digest_or_raise (semantic_digest c (payload Action.rollback q) attempt_domain)
    prior ← prior_attempt q.attempt_id digest
    finish false prior (rollback_commit q digest)

unfoldable pub reconcile_attempt : String → Method Receipt
reconcile_attempt attempt_id = do
  attempt ← λ s. or_raise (find attempt_id s.attempts) attempt_outcome_unknown s
  now ← current attempt.receipt.product_id
  raise_if (ltb now.revision attempt.receipt.resulting_revision) attempt_clock_divergence
  pure attempt.receipt
