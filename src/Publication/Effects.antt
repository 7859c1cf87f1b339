-- ===== src/Publication/Effects.antt =====
-- What a publication, a fallback and a rollback that return a new receipt have done.
use mathlib.Core.Option
use changebridge_cdc_migrati.Base.{
  ◌+◌, String, true, false, Option, none, some, ◌≡◌, refl, ap, ◌∙◌, arith,
}
use changebridge_cdc_migrati.Base.Key.{◌==◌, text_key}
use changebridge_cdc_migrati.Base.Table.{find, find-update}
use changebridge_cdc_migrati.Base.Exec.{done}
use changebridge_cdc_migrati.Json.{Codec}
use changebridge_cdc_migrati.Publication.{
  Store, Action, Verdict, Route, Pointer, Generation, GenerationState, Receipt,
}
use changebridge_cdc_migrati.Publication.Receipts.{
  Request, publish_tables, publish_receipt, fallback_tables, fallback_receipt, rollback_tables,
  rollback_receipt, mark_published, mark_rolled_back, pointer_to, binding_of,
}
use changebridge_cdc_migrati.Publication.Moves.{
  is_eligible, publish, first_publication_fallback, rollback,
}
use changebridge_cdc_migrati.Publication.Routing.{
  publish-Publishes, fallback-FallsBack, rollback-RollsBack, Moved, published-Moved,
  fell_back-Moved, rolled_back-Moved,
}
use changebridge_cdc_migrati.Publication.Targets.{
  IsUsable, is_eligible-IsUsable, is_eligible-proven, Became, update-Became,
}

publish_receipt_lem :
    (q : Request) (pointer : Option Pointer) (target : Generation)
    → publish_receipt q pointer target ≡ record {
      attempt_id = q.attempt_id;
      action = Action.publish;
      verdict = Verdict.published;
      product_id = q.product_id;
      generation_id = some q.generation_id;
      prior_generation_id = Option.map (λ old. old.generation_id) pointer;
      expected_revision = q.expected_revision;
      resulting_revision = q.expected_revision + 1;
      binding = some (record {
        proof_manifest_digest = target.proof_manifest_digest;
        table_map_digest = target.table_map_digest;
        publication_binding_digest = target.publication_binding_digest;
      });
    }
unfolding publish_receipt binding_of
publish_receipt_lem q none target = refl
publish_receipt_lem q (some pointer) target = refl

-- A publication that returns under a new attempt found the product at the expected revision and an
-- eligible generation, proven, retained, readable, not retired and with valid evidence. The state of this
-- generation is now published, its other columns and the other generations stay. The product moves to
-- the next revision on this generation, with its three digests in the pointer, no other product moves,
-- and the receipt reports these digests and the generation pointed to before, if there was one.
pub publish_effect :
    (c : Codec) (q : Request) (s s' : Store) (r : Receipt)
    → find q.attempt_id s.attempts ≡ none
    → publish c q s ≡ done r s'
    → (target : Generation) × (find q.generation_id s.generations ≡ some target)
      × (is_eligible false target ≡ true)
      × (target.state ≡ GenerationState.proven)
      × IsUsable target
      × Became q.generation_id
          (record target { state = GenerationState.published; ever_published = true })
          s
          s'
      × Moved q Route.generation
          (some (record {
            generation_id = q.generation_id;
            revision = q.expected_revision + 1;
            attempt_id = q.attempt_id;
            proof_manifest_digest = target.proof_manifest_digest;
            table_map_digest = target.table_map_digest;
            publication_binding_digest = target.publication_binding_digest;
          }))
          s
          s'
      × (r ≡ record {
        attempt_id = q.attempt_id;
        action = Action.publish;
        verdict = Verdict.published;
        product_id = q.product_id;
        generation_id = some q.generation_id;
        prior_generation_id =
            Option.map (λ old. old.generation_id) (find q.product_id s.active_pointer);
        expected_revision = q.expected_revision;
        resulting_revision = q.expected_revision + 1;
        binding = some (record {
          proof_manifest_digest = target.proof_manifest_digest;
          table_map_digest = target.table_map_digest;
          publication_binding_digest = target.publication_binding_digest;
        });
      })
unfolding publish_tables pointer_to
publish_effect c q s s' r fresh h =
    let (d, m) = publish-Publishes c q s s' r fresh h in
    (
      m.target,
      m.found,
      m.is_fit,
      is_eligible-proven m.target.state m.target refl m.is_fit,
      is_eligible-IsUsable false m.target m.is_fit,
      update-Became q.generation_id mark_published m.target s s' m.noted.generations m.found,
      published-Moved q d r s s' m,
      m.noted.returned ∙ publish_receipt_lem q (find q.product_id s.active_pointer) m.target,
    )

-- A fallback that returns under a new attempt found a pointer at the expected revision; the product
-- moves to the next revision on its source, without a pointer, no other product moves, generations
-- stay, and the receipt reports the generation that was left.
pub fallback_effect :
    (c : Codec) (q : Request) (s s' : Store) (r : Receipt)
    → find q.attempt_id s.attempts ≡ none
    → first_publication_fallback c q s ≡ done r s'
    → (pointer : Pointer) × (find q.product_id s.active_pointer ≡ some pointer)
      × (pointer.revision ≡ q.expected_revision)
      × (s'.generations ≡ s.generations)
      × (Moved q Route.source_fallback none s s')
      × (r ≡ record {
        attempt_id = q.attempt_id;
        action = Action.first_publication_fallback;
        verdict = Verdict.source_fallback_verified;
        product_id = q.product_id;
        generation_id = none;
        prior_generation_id = some pointer.generation_id;
        expected_revision = q.expected_revision;
        resulting_revision = q.expected_revision + 1;
        binding = none;
      })
unfolding fallback_tables fallback_receipt
fallback_effect c q s s' r fresh h =
    let (d, m) = fallback-FallsBack c q s s' r fresh h in
    (
      m.pointer,
      m.pointed,
      m.pointer_at,
      m.noted.generations,
      fell_back-Moved q d r s s' m,
      m.noted.returned,
    )

-- A rollback that returns under a new attempt found another generation active, and a target that is
-- eligible for a rollback: it has been published, is retained, readable, not retired and its evidence
-- is valid. The product moves to the next revision on the target, with its three digests in the
-- pointer, no other product moves, the state of the generation that was active, if it is registered,
-- is now rolled back, its other columns and the other generations stay, and the receipt reports the
-- target and the generation that was left.
pub rollback_effect :
    (c : Codec) (q : Request) (s s' : Store) (r : Receipt)
    → find q.attempt_id s.attempts ≡ none
    → rollback c q s ≡ done r s'
    → (pointer : Pointer) × (find q.product_id s.active_pointer ≡ some pointer)
      × ((pointer.generation_id == q.generation_id) ≡ false)
      × (target : Generation) × (find q.generation_id s.generations ≡ some target)
      × (is_eligible true target ≡ true)
      × IsUsable target
      × (target.ever_published ≡ true)
      × ((old : Generation)
          → find pointer.generation_id s.generations ≡ some old
          → find pointer.generation_id s'.generations
            ≡ some (record old { state = GenerationState.rolled_back }))
      × ((other : String)
          → (pointer.generation_id == other) ≡ false
          → find other s'.generations ≡ find other s.generations)
      × Moved q Route.generation
          (some (record {
            generation_id = q.generation_id;
            revision = q.expected_revision + 1;
            attempt_id = q.attempt_id;
            proof_manifest_digest = target.proof_manifest_digest;
            table_map_digest = target.table_map_digest;
            publication_binding_digest = target.publication_binding_digest;
          }))
          s
          s'
      × (r ≡ record {
        attempt_id = q.attempt_id;
        action = Action.rollback;
        verdict = Verdict.rollback_verified;
        product_id = q.product_id;
        generation_id = some q.generation_id;
        prior_generation_id = some pointer.generation_id;
        expected_revision = q.expected_revision;
        resulting_revision = q.expected_revision + 1;
        binding = some (record {
          proof_manifest_digest = target.proof_manifest_digest;
          table_map_digest = target.table_map_digest;
          publication_binding_digest = target.publication_binding_digest;
        });
      })
unfolding rollback_tables pointer_to rollback_receipt binding_of
rollback_effect c q s s' r fresh h =
    let (d, m) = rollback-RollsBack c q s s' r fresh h in
    (
      m.pointer,
      m.pointed,
      m.differs,
      m.target,
      m.found,
      m.is_fit,
      is_eligible-IsUsable true m.target m.is_fit,
      ground (arith, m.is_fit),
      λ old here.
          (update-Became m.pointer.generation_id mark_rolled_back old s s' m.noted.generations
            here).0,
      λ other e.
          ap (find other) m.noted.generations
          ∙ rw (find-update m.pointer.generation_id other mark_rolled_back s.generations, e) refl,
      rolled_back-Moved q d r s s' m,
      m.noted.returned,
    )
