-- ===== src/Publication/Outcomes.antt =====
-- How a publication, a fallback or a rollback can end: it leaves the store alone, or its
-- transaction has committed, also where the acknowledgement is lost.
use changebridge_cdc_migrati.Base.{
  String, Bool, false, Option, none, some, ◌≡◌, ◌⊎◌, refl, inl, inr, arith,
}
use changebridge_cdc_migrati.Base.Tests.{if◌then◌else◌, Option-cases, Bool-cases}
use changebridge_cdc_migrati.Base.Key.{◌==◌, text_key}
use changebridge_cdc_migrati.Base.Table.{find}
use changebridge_cdc_migrati.Base.Exec.{Outcome, done, raised, after, ◌>>=◌, Outcome-cases}
use changebridge_cdc_migrati.Base.Result.{Result, ok, err}
use changebridge_cdc_migrati.Json.{Codec}
use changebridge_cdc_migrati.Json.Contracts.{ContractError, semantic_digest}
use changebridge_cdc_migrati.Publication.{
  Store, Error, Action, Receipt, Method, ack_ambiguous, digest_or_raise,
}
use changebridge_cdc_migrati.Publication.Receipts.{Request, payload, attempt_domain}
use changebridge_cdc_migrati.Publication.Moves.{
  prior_attempt, finish, publish_commit, fallback_commit, rollback_commit, publish,
  first_publication_fallback, rollback,
}
use changebridge_cdc_migrati.Publication.Inversion.{
  Publishes, FallsBack, RollsBack, publish_commit-Publishes, fallback_commit-FallsBack,
  rollback_commit-RollsBack,
}

-- The commit `P` happened, under the digest of the payload, and the call returned its receipt or
-- lost it.
pub record Commits (P : String → Receipt → Store → Type 0) (digests : Result ContractError String)
    (lost : Bool) (o : Outcome Error Store Receipt) : Type 0 where
  pub digest : String
  pub digested : digests ≡ ok digest
  pub receipt : Receipt
  pub store : Store
  pub committed : P digest receipt store
  pub answer : o ≡ (if lost then raised ack_ambiguous store else done receipt store)

finish-cases :
    (lost : Bool) (prior : Option Receipt) (commit : Method Receipt) (s : Store)
    → (after (finish lost prior commit s) ≡ s)
      ⊎ ((r : Receipt) × (t : Store) × (commit s ≡ done r t)
          × (finish lost prior commit s ≡ (if lost then raised ack_ambiguous t else done r t)))
unfolding finish
finish-cases lost (some receipt) commit s = inl refl
finish-cases lost none commit s = elim (Outcome-cases (commit s)) [
  | inl (r, t, e) ↦ inr (r, t, e, ground arith)
  | inr (x, t, e) ↦ inl (ground arith)
]

-- the common shape of the three methods, once the authorization was checked
abbrev attempt :
    Result ContractError String → Request → Bool → (String → Method Receipt) → Method Receipt
attempt digests q lost commit = do
  digest ← digest_or_raise digests
  prior ← prior_attempt q.attempt_id digest
  finish lost prior (commit digest)

module _ (q : Request) (lost : Bool) (commit : String → Method Receipt) (s : Store) where
  abbrev Committed : Result ContractError String → Type 0
  Committed digests =
      (d : String) × (digests ≡ ok d)
      × (r : Receipt) × (t : Store) × (commit d s ≡ done r t)
      × (attempt digests q lost commit s ≡ (if lost then raised ack_ambiguous t else done r t))

  attempt-cases :
      (digests : Result ContractError String)
      → (after (attempt digests q lost commit s) ≡ s) ⊎ Committed digests
  unfolding prior_attempt
  attempt-cases (err e) = inl refl
  attempt-cases (ok d) = elim (Option-cases (find q.attempt_id s.attempts)) [
    | inl fresh ↦ elim (finish-cases lost none (commit d) s) [
      | inl same ↦ inl (ground arith)
      | inr (r, t, ran, answer) ↦ inr (d, refl, r, t, ran, ground arith)
    ]
    | inr (a, found) ↦ elim (finish-cases lost (some a.receipt) (commit d) s) [
      | inl same ↦ inl (ground arith)
      | inr (r, t, ran, answer) ↦ inl (unfold finish in ground arith)
    ]
  ]

module _ (c : Codec) (q : Request) (s : Store) where
  pub publish-cases :
      (after (publish c q s) ≡ s)
      ⊎ Commits
          (λ d r t. Publishes q d r s t)
          (semantic_digest c (payload Action.publish q) attempt_domain)
          q.lose_acknowledgement
          (publish c q s)
  unfolding publish
  publish-cases =
      elim (attempt-cases q q.lose_acknowledgement (publish_commit c q) s
        (semantic_digest c (payload Action.publish q) attempt_domain)) [
          | inl same ↦ inl same
          | inr (d, digested, r, t, ran, answer) ↦ inr (record {
            digest = d;
            digested = digested;
            receipt = r;
            store = t;
            committed = publish_commit-Publishes c q d r s t ran;
            answer = answer;
          })
        ]

  pub fallback-cases :
      (after (first_publication_fallback c q s) ≡ s)
      ⊎ Commits
          (λ d r t. FallsBack q d r s t)
          (semantic_digest c (payload Action.first_publication_fallback q) attempt_domain)
          q.lose_acknowledgement
          (first_publication_fallback c q s)
  unfolding first_publication_fallback
  fallback-cases = elim (Bool-cases (q.authorization == "")) [
    | inl missing ↦ inl (rw missing)
    | inr given ↦
        elim (attempt-cases q q.lose_acknowledgement (fallback_commit c q) s
          (semantic_digest c (payload Action.first_publication_fallback q) attempt_domain)) [
            | inl same ↦ inl (rw given same)
            | inr (d, digested, r, t, ran, answer) ↦ inr (record {
              digest = d;
              digested = digested;
              receipt = r;
              store = t;
              committed = fallback_commit-FallsBack c q d r s t ran;
              answer = rw given answer;
            })
          ]
  ]

  pub rollback-cases :
      (after (rollback c q s) ≡ s)
      ⊎ Commits
          (λ d r t. RollsBack q d r s t)
          (semantic_digest c (payload Action.rollback q) attempt_domain)
          false
          (rollback c q s)
  unfolding rollback
  rollback-cases = elim (Bool-cases (q.authorization == "")) [
    | inl missing ↦ inl (rw missing)
    | inr given ↦
        elim (attempt-cases q false (rollback_commit c q) s
          (semantic_digest c (payload Action.rollback q) attempt_domain)) [
            | inl same ↦ inl (rw given same)
            | inr (d, digested, r, t, ran, answer) ↦ inr (record {
              digest = d;
              digested = digested;
              receipt = r;
              store = t;
              committed = rollback_commit-RollsBack c q d r s t ran;
              answer = rw given answer;
            })
          ]
  ]
