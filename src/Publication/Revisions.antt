-- ===== src/Publication/Revisions.antt =====
-- The compare-and-swap on a product's revision.
use changebridge_cdc_migrati.Base.{◌+◌, ◌<◌, true, some, List, ◌≡◌, ◌≢◌, inl, inr, arith}
use changebridge_cdc_migrati.Base.Key.{text_key}
use changebridge_cdc_migrati.Base.Table.{find}
use changebridge_cdc_migrati.Base.Exec.{after}
use changebridge_cdc_migrati.Json.{Codec}
use changebridge_cdc_migrati.Publication.{Store, Clock}
use changebridge_cdc_migrati.Publication.Receipts.{Request}
use changebridge_cdc_migrati.Publication.Moves.{publish, first_publication_fallback, rollback}
use changebridge_cdc_migrati.Publication.Outcomes.{publish-cases, fallback-cases, rollback-cases}
use changebridge_cdc_migrati.Publication.Change.{Call, run_all}
use changebridge_cdc_migrati.Publication.Attempts.{reached, run_all-reached}

-- A product that is past the expected revision is not moved.
passed :
    (t : Store) (q : Request) (k : Clock)
    → reached (q.expected_revision + 1) (find q.product_id t.publication_clock) ≡ true
    → find q.product_id t.publication_clock ≡ some k
    → k.revision ≢ q.expected_revision
unfolding reached
passed t q k h was at = ground arith

module _ (c : Codec) (t : Store) (q : Request)
    (h : reached (q.expected_revision + 1) (find q.product_id t.publication_clock) ≡ true) where
  publish_passed : after (publish c q t) ≡ t
  publish_passed = elim (publish-cases c q t) [
    | inl same ↦ same
    | inr m ↦ absurd (passed t q m.committed.clock h m.committed.was m.committed.at)
  ]

  fallback_passed : after (first_publication_fallback c q t) ≡ t
  fallback_passed = elim (fallback-cases c q t) [
    | inl same ↦ same
    | inr m ↦ absurd (passed t q m.committed.clock h m.committed.was m.committed.at)
  ]

  rollback_passed : after (rollback c q t) ≡ t
  rollback_passed = elim (rollback-cases c q t) [
    | inl same ↦ same
    | inr m ↦ absurd (passed t q m.committed.clock h m.committed.was m.committed.at)
  ]

-- Once a product has passed a revision, no publication, fallback or rollback that expects this
-- revision changes the store again, whatever calls come between.
pub stale_moves :
    (c : Codec) (q : Request) (s : Store) (k : Clock) (calls : List Call)
    → find q.product_id s.publication_clock ≡ some k
    → q.expected_revision < k.revision
    → (after (publish c q (run_all c calls s)) ≡ run_all c calls s)
      × (after (first_publication_fallback c q (run_all c calls s)) ≡ run_all c calls s)
      × (after (rollback c q (run_all c calls s)) ≡ run_all c calls s)
stale_moves c q s k calls was past =
    let here : reached (q.expected_revision + 1) (find q.product_id s.publication_clock) ≡ true =
      unfold reached in ground arith in
    let there = run_all-reached c calls s q.product_id (q.expected_revision + 1) here in
    (
      publish_passed c (run_all c calls s) q there,
      fallback_passed c (run_all c calls s) q there,
      rollback_passed c (run_all c calls s) q there,
    )
