-- ===== src/Publication/Routing.antt =====
-- Where a publication, a fallback or a rollback that returned has left clocks and pointers.
use changebridge_cdc_migrati.Base.{
  ◌+◌, String, false, Option, none, some, ◌≡◌, inl, inr, refl, ap, ◌∙◌, arith,
}
use changebridge_cdc_migrati.Base.Key.{◌==◌, text_key, ==_refl}
use changebridge_cdc_migrati.Base.Table.{find, find-update, find-replace, find-delete}
use changebridge_cdc_migrati.Base.Exec.{done}
use changebridge_cdc_migrati.Base.Result.{Result-cases}
use changebridge_cdc_migrati.Json.{Codec}
use changebridge_cdc_migrati.Json.Contracts.{semantic_digest}
use changebridge_cdc_migrati.Publication.{Store, Action, Clock, Route, Pointer, Receipt}
use changebridge_cdc_migrati.Publication.Receipts.{
  Request, payload, attempt_domain, publish_tables, fallback_tables, rollback_tables, set_clock,
  pointer_to,
}
use changebridge_cdc_migrati.Publication.Moves.{
  prior_attempt, finish, publish, first_publication_fallback, rollback,
}
use changebridge_cdc_migrati.Publication.Inversion.{
  Publishes, FallsBack, RollsBack, publish_commit-Publishes, fallback_commit-FallsBack,
  rollback_commit-RollsBack,
}

module _ (c : Codec) (q : Request) (s s' : Store) (r : Receipt)
    (fresh : find q.attempt_id s.attempts ≡ none) where
  pub publish-Publishes : publish c q s ≡ done r s' → (d : String) × Publishes q d r s s'
  unfolding publish prior_attempt finish
  publish-Publishes h =
      elim (Result-cases (semantic_digest c (payload Action.publish q) attempt_domain)) [
        | inr (e, failed) ↦ absurd (ground arith)
        | inl (d, digested) ↦ (d, publish_commit-Publishes c q d r s s' (ground arith))
      ]

  pub fallback-FallsBack :
      first_publication_fallback c q s ≡ done r s' → (d : String) × FallsBack q d r s s'
  unfolding first_publication_fallback prior_attempt finish
  fallback-FallsBack h =
      elim (Result-cases
        (semantic_digest c (payload Action.first_publication_fallback q) attempt_domain)) [
          | inr (e, failed) ↦ absurd (ground arith)
          | inl (d, digested) ↦ (d, fallback_commit-FallsBack c q d r s s' (ground arith))
        ]

  pub rollback-RollsBack : rollback c q s ≡ done r s' → (d : String) × RollsBack q d r s s'
  unfolding rollback prior_attempt finish
  rollback-RollsBack h =
      elim (Result-cases (semantic_digest c (payload Action.rollback q) attempt_domain)) [
        | inr (e, failed) ↦ absurd (ground arith)
        | inl (d, digested) ↦ (d, rollback_commit-RollsBack c q d r s s' (ground arith))
      ]

-- Other products keep their clock and pointer.
abbrev pub OthersKept : String → Store → Store → Type 0
OthersKept p s s' =
    (other : String)
    → (p == other) ≡ false
    → (find other s'.publication_clock ≡ find other s.publication_clock)
      × (find other s'.active_pointer ≡ find other s.active_pointer)

-- The product moved to the next revision, with this route and this pointer, and no other product
-- moved.
pub record Moved (q : Request) (route : Route) (pointer : Option Pointer) (s s' : Store)
    : Type 0 where
  pub clock : Clock
  pub was : find q.product_id s.publication_clock ≡ some clock
  pub at : clock.revision ≡ q.expected_revision
  pub clock_now :
      find q.product_id s'.publication_clock
      ≡ some (record { revision = q.expected_revision + 1; route = route })
  pub pointer_now : find q.product_id s'.active_pointer ≡ pointer
  pub others : OthersKept q.product_id s s'

module _ (q : Request) (d : String) (r : Receipt) (s s' : Store) where
  pub published-Moved :
      (m : Publishes q d r s s') → Moved q Route.generation (some (pointer_to q m.target)) s s'
  unfolding publish_tables
  published-Moved m = record {
    clock = m.clock;
    was = m.was;
    at = m.at;
    clock_now = ground (
      arith,
      m.was,
      ==_refl q.product_id,
      ap (find q.product_id) m.noted.publication_clock,
      find-update q.product_id q.product_id (set_clock (q.expected_revision + 1) Route.generation)
          s.publication_clock,
    );
    pointer_now = ground (
      arith,
      ==_refl q.product_id,
      ap (find q.product_id) m.noted.active_pointer,
      find-replace q.product_id q.product_id (pointer_to q m.target) s.active_pointer,
    );
    others = λ p e. (
      ap (find p) m.noted.publication_clock
          ∙ rw
              (
                find-update q.product_id p (set_clock (q.expected_revision + 1) Route.generation)
                    s.publication_clock,
                e,
              )
              refl,
      ap (find p) m.noted.active_pointer
          ∙ rw (find-replace q.product_id p (pointer_to q m.target) s.active_pointer, e) refl,
    );
  }

  pub fell_back-Moved : FallsBack q d r s s' → Moved q Route.source_fallback none s s'
  unfolding fallback_tables
  fell_back-Moved m = record {
    clock = m.clock;
    was = m.was;
    at = m.at;
    clock_now = ground (
      arith,
      m.was,
      ==_refl q.product_id,
      ap (find q.product_id) m.noted.publication_clock,
      find-update q.product_id q.product_id
          (set_clock (q.expected_revision + 1) Route.source_fallback) s.publication_clock,
    );
    pointer_now = ground (
      arith,
      ==_refl q.product_id,
      ap (find q.product_id) m.noted.active_pointer,
      find-delete q.product_id q.product_id s.active_pointer,
    );
    others = λ p e. (
      ap (find p) m.noted.publication_clock
          ∙ rw
              (
                find-update q.product_id p
                    (set_clock (q.expected_revision + 1) Route.source_fallback) s.publication_clock,
                e,
              )
              refl,
      ap (find p) m.noted.active_pointer ∙ rw (find-delete q.product_id p s.active_pointer, e) refl,
    );
  }

  pub rolled_back-Moved :
      (m : RollsBack q d r s s') → Moved q Route.generation (some (pointer_to q m.target)) s s'
  unfolding rollback_tables
  rolled_back-Moved m = record {
    clock = m.clock;
    was = m.was;
    at = m.at;
    clock_now = ground (
      arith,
      m.was,
      m.agrees,
      m.pointed,
      ==_refl q.product_id,
      ap (find q.product_id) m.noted.publication_clock,
      find-update q.product_id q.product_id (λ k. record k { revision = q.expected_revision + 1 })
          s.publication_clock,
    );
    pointer_now = ground (
      arith,
      m.pointed,
      ==_refl q.product_id,
      ap (find q.product_id) m.noted.active_pointer,
      find-update q.product_id q.product_id (λ _. pointer_to q m.target) s.active_pointer,
    );
    others = λ p e. (
      ap (find p) m.noted.publication_clock
          ∙ rw
              (
                find-update q.product_id p (λ k. record k { revision = q.expected_revision + 1 })
                    s.publication_clock,
                e,
              )
              refl,
      ap (find p) m.noted.active_pointer
          ∙ rw (find-update q.product_id p (λ _. pointer_to q m.target) s.active_pointer, e) refl,
    );
  }
