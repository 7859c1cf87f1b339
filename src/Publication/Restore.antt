-- ===== src/Publication/Restore.antt =====
-- Retries of a rollback.
use changebridge_cdc_migrati.Base.{String, false, some, List, ◌≡◌, ap, inl, inr, arith, ◌∙◌}
use changebridge_cdc_migrati.Base.Tests.{Bool-cases, Option-cases}
use changebridge_cdc_migrati.Base.Key.{◌==◌, text_key, number_key, ==_refl}
use changebridge_cdc_migrati.Base.Table.{find}
use changebridge_cdc_migrati.Base.Exec.{done, Outcome-cases}
use changebridge_cdc_migrati.Base.Result.{ok, Result-cases}
use changebridge_cdc_migrati.Json.{Codec}
use changebridge_cdc_migrati.Json.Contracts.{semantic_digest}
use changebridge_cdc_migrati.Publication.{Store, Action, Receipt, Attempt}
use changebridge_cdc_migrati.Publication.Receipts.{Request, payload, attempt_domain}
use changebridge_cdc_migrati.Publication.Moves.{prior_attempt, finish, rollback}
use changebridge_cdc_migrati.Publication.Change.{Call, run_all}
use changebridge_cdc_migrati.Publication.Attempts.{run_all-Keeps}
use changebridge_cdc_migrati.Publication.Moves.{rollback_commit}
use changebridge_cdc_migrati.Publication.Inversion.{rollback_commit-RollsBack}
use changebridge_cdc_migrati.Publication.Retry.{Recorded, Noted-Recorded, prior_answers}

rollback_recorded :
    (c : Codec) (q : Request) (s : Store) (d : String) (a : Attempt)
    → (q.authorization == "") ≡ false
    → semantic_digest c (payload Action.rollback q) attempt_domain ≡ ok d
    → find q.attempt_id s.attempts ≡ some a
    → a.payload_digest ≡ d
    → rollback c q s ≡ done a.receipt s
unfolding rollback prior_attempt finish
rollback_recorded c q s d a given digested found same =
    ground (arith, given, digested, found, same, ==_refl d, ==_refl a.payload_digest)

module _ (c : Codec) (q : Request) (s s' : Store) (r : Receipt) where
  rollback-Recorded :
      rollback c q s ≡ done r s'
      → ((q.authorization == "") ≡ false)
        × Recorded (semantic_digest c (payload Action.rollback q) attempt_domain) q.attempt_id r s'
  unfolding rollback
  rollback-Recorded h = elim (Bool-cases (q.authorization == "")) [
    | inl missing ↦ absurd (ground arith)
    | inr given ↦ (
      given,
      elim (Result-cases (semantic_digest c (payload Action.rollback q) attempt_domain)) [
        | inr (e, failed) ↦ absurd (ground arith)
        | inl (d, digested) ↦ elim (Option-cases (find q.attempt_id s.attempts)) [
          | inl fresh ↦ elim (Outcome-cases (rollback_commit c q d s)) [
            | inl (r', t, ran) ↦
                Noted-Recorded Action.rollback q d _ r _ s' digested
                  (rollback_commit-RollsBack c q d r s s'
                    (unfold prior_attempt finish in ground arith)).noted
            | inr (e, t, failed) ↦ absurd (unfold prior_attempt finish in ground arith)
          ]
          | inr (a, found) ↦
              let (same, answers, still) =
                prior_answers d q.attempt_id a r false (rollback_commit c q d) s s' found
                  (ground arith) in
              record {
                digest = d;
                digested = digested;
                entry = a;
                found = rw still found;
                same = same;
                answers = answers;
              }
        ]
      ],
    )
  ]

-- Once a rollback has returned its receipt, the same request is answered with that receipt and no
-- change, whatever calls come between.
pub rollback_retried :
    (c : Codec) (q : Request) (s s' : Store) (r : Receipt)
    → rollback c q s ≡ done r s'
    → (calls : List Call) → rollback c q (run_all c calls s') ≡ done r (run_all c calls s')
rollback_retried c q s s' r h calls =
    let (given, m) = rollback-Recorded c q s s' r h in
    rollback_recorded c q (run_all c calls s') m.digest m.entry given m.digested
      (run_all-Keeps c calls s' q.attempt_id m.entry m.found) m.same
    ∙ ap (λ x. done x (run_all c calls s')) m.answers
