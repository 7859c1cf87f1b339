-- ===== src/Publication/Ambiguity.antt =====
-- A publication whose acknowledgement was lost.
use changebridge_cdc_migrati.Base.{
  ◌+◌, String, Bool, true, some, List, ◌≡◌, ap, inl, inr, arith, ◌∙◌,
}
use changebridge_cdc_migrati.Base.Tests.{Option-cases}
use changebridge_cdc_migrati.Base.Key.{text_key, ==_refl}
use changebridge_cdc_migrati.Base.Table.{find, find-update}
use changebridge_cdc_migrati.Base.Exec.{done, raised}
use changebridge_cdc_migrati.Json.{Codec}
use changebridge_cdc_migrati.Publication.{Store, Route, Receipt, Attempt, ack_ambiguous, empty}
use changebridge_cdc_migrati.Publication.Receipts.{
  Request, publish_tables, publish_receipt, set_clock, payload,
}
use changebridge_cdc_migrati.Publication.Moves.{publish, reconcile_attempt}
use changebridge_cdc_migrati.Publication.Inversion.{Publishes}
use changebridge_cdc_migrati.Publication.Change.{Call, run_all}
use changebridge_cdc_migrati.Publication.Attempts.{run_all-Keeps, run_all-reached, reached}
use changebridge_cdc_migrati.Publication.Agreement.{
  AgreeAt, run_all-AgreeAt, published-AgreeAt, clock_pointer_agree, current_consistent_at,
}
use changebridge_cdc_migrati.Publication.Retry.{publish-ambiguous, publish_recorded}

-- A recorded receipt is reconciled, where clock and pointer agree and the product has got there.
reconcile_recorded :
    (id : String) (a : Attempt) (s : Store)
    → find id s.attempts ≡ some a
    → AgreeAt a.receipt.product_id s
    → reached a.receipt.resulting_revision (find a.receipt.product_id s.publication_clock) ≡ true
    → reconcile_attempt id s ≡ done a.receipt s
unfolding reconcile_attempt reached
reconcile_recorded id a s found agrees there =
    elim (Option-cases (find a.receipt.product_id s.publication_clock)) [
      | inl missing ↦ absurd (ground arith)
      | inr (k, was) ↦ ground (arith, current_consistent_at a.receipt.product_id s k agrees was)
    ]

-- where a publication leaves the clock
published-reached :
    (q : Request) (d : String) (r : Receipt) (s s' : Store)
    → Publishes q d r s s'
    → (r.product_id ≡ q.product_id)
      × (r.resulting_revision ≡ q.expected_revision + 1)
      × (reached (q.expected_revision + 1) (find q.product_id s'.publication_clock) ≡ true)
unfolding reached publish_receipt publish_tables
published-reached q d r s s' m = (
  ap (λ x. x.product_id) m.noted.returned,
  ap (λ x. x.resulting_revision) m.noted.returned,
  ground (
    arith,
    m.was,
    ==_refl q.product_id,
    ap (find q.product_id) m.noted.publication_clock,
    find-update q.product_id q.product_id (set_clock (q.expected_revision + 1) Route.generation)
        s.publication_clock,
  ),
)

-- A publication, made after any calls on a new database, that ends with a lost acknowledgement has
-- committed: after any further calls reconciliation returns its receipt, of the next revision, and a
-- retry of the request returns the same receipt; neither changes the store.
pub ambiguity_resolved :
    (c : Codec) (before : List Call) (q : Request) (s' : Store)
    → publish c q (run_all c before empty) ≡ raised ack_ambiguous s'
    → (calls : List Call) (lost : Bool)
    → (r : Receipt) × (r.resulting_revision ≡ q.expected_revision + 1)
      × (reconcile_attempt q.attempt_id (run_all c calls s') ≡ done r (run_all c calls s'))
      × (publish c (record q { lose_acknowledgement = lost }) (run_all c calls s')
          ≡ done r (run_all c calls s'))
unfolding payload
ambiguity_resolved c before q s' h calls lost =
    let s = run_all c before empty in
    let t = run_all c calls s' in
    let (d, r, m, kept) = publish-ambiguous c q s s' h in
    let (product, revision, there) = published-reached q d r s s' m in
    let entry = run_all-Keeps c calls s' q.attempt_id kept.entry kept.found in
    let agrees =
      run_all-AgreeAt c calls s' q.product_id
        (published-AgreeAt q d r s s' q.product_id m (clock_pointer_agree c before q.product_id)) in
    let far = run_all-reached c calls s' q.product_id (q.expected_revision + 1) there in
    (
      r,
      revision,
      reconcile_recorded q.attempt_id kept.entry t entry (rw (kept.answers, product) agrees)
            (rw (kept.answers, product, revision) far)
          ∙ ap (λ x. done x t) kept.answers,
      publish_recorded c (record q { lose_acknowledgement = lost }) t kept.digest kept.entry
            kept.digested entry kept.same
          ∙ ap (λ x. done x t) kept.answers,
    )
