-- ===== src/Publication/Retry.antt =====
-- Retries: a move that committed is answered by its receipt ever after, and is never made again.
use changebridge_cdc_migrati.Base.{
  String, Bool, some, List, ◌≡◌, ◌≢◌, refl, sym, ap, inl, inr, arith, ◌∙◌,
}
use changebridge_cdc_migrati.Base.Tests.{Option-cases}
use changebridge_cdc_migrati.Base.Key.{text_key, number_key, ==_refl}
use changebridge_cdc_migrati.Base.Table.{find, find-append}
use changebridge_cdc_migrati.Base.Exec.{◌>>=◌, done, raised, Outcome-cases}
use changebridge_cdc_migrati.Base.Result.{Result, ok, Result-cases}
use changebridge_cdc_migrati.Json.{Codec}
use changebridge_cdc_migrati.Json.Contracts.{ContractError, semantic_digest}
use changebridge_cdc_migrati.Publication.{
  Store, Method, Action, Receipt, Attempt, current, get_generation, ack_ambiguous,
}
use changebridge_cdc_migrati.Publication.Receipts.{
  Request, payload, attempt_domain, publish_tables, publish_receipt,
}
use changebridge_cdc_migrati.Publication.Moves.{
  prior_attempt, finish, publish, publish_commit, eligible, note, insert_attempt, insert_event,
}
use changebridge_cdc_migrati.Publication.Inversion.{
  Noted, Publishes, attempt_of, publish_commit-Publishes,
}
use changebridge_cdc_migrati.Publication.Change.{Call, run_all}
use changebridge_cdc_migrati.Publication.Attempts.{run_all-Keeps}

Noted-found :
    (action : Action) (q : Request) (d : String) (receipt r : Receipt) (t s' : Store)
    → Noted action q d receipt r t s'
    → find q.attempt_id s'.attempts ≡ some (attempt_of action q d receipt)
Noted-found action q d receipt r t s' m = ground (
  arith,
  ap (find q.attempt_id) m.attempts,
  ==_refl q.attempt_id,
  find-append q.attempt_id q.attempt_id (attempt_of action q d receipt) t.attempts m.fresh,
)

-- A recorded attempt with the digest of this payload answers the publication.
pub publish_recorded :
    (c : Codec) (q : Request) (s : Store) (d : String) (a : Attempt)
    → semantic_digest c (payload Action.publish q) attempt_domain ≡ ok d
    → find q.attempt_id s.attempts ≡ some a
    → a.payload_digest ≡ d
    → publish c q s ≡ done a.receipt s
unfolding publish prior_attempt finish
publish_recorded c q s d a digested found same =
    ground (arith, digested, found, same, ==_refl d, ==_refl a.payload_digest)

-- The ledger of `s` holds this payload, under a receipt.
pub record Recorded (digests : Result ContractError String) (id : String) (r : Receipt) (s : Store)
    : Type 0 where
  pub digest : String
  pub digested : digests ≡ ok digest
  pub entry : Attempt
  pub found : find id s.attempts ≡ some entry
  pub same : entry.payload_digest ≡ digest
  pub answers : entry.receipt ≡ r

pub Noted-Recorded :
    {digests : Result ContractError String} (action : Action) (q : Request) (d : String)
    (receipt r : Receipt) (t s' : Store)
    → digests ≡ ok d
    → Noted action q d receipt r t s'
    → Recorded digests q.attempt_id r s'
Noted-Recorded action q d receipt r t s' digested m = record {
  digest = d;
  digested = digested;
  entry = attempt_of action q d receipt;
  found = Noted-found action q d receipt r t s' m;
  same = refl;
  answers = sym m.returned;
}

pub prior_answers :
    (d : String) (id : String) (a : Attempt) (r : Receipt) (lost : Bool) (commit : Method Receipt)
    (s s' : Store)
    → find id s.attempts ≡ some a
    → (prior_attempt id d >>= λ prior. finish lost prior commit) s ≡ done r s'
    → (a.payload_digest ≡ d) × (a.receipt ≡ r) × (s' ≡ s)
unfolding prior_attempt finish
prior_answers d id a r lost commit s s' found h =
    ground (arith, text_key.equals_iff a.payload_digest d)

module _ (c : Codec) (q : Request) (s s' : Store) (r : Receipt) where
  publish-Recorded :
      publish c q s ≡ done r s'
      → Recorded (semantic_digest c (payload Action.publish q) attempt_domain) q.attempt_id r s'
  unfolding publish
  publish-Recorded h =
      elim (Result-cases (semantic_digest c (payload Action.publish q) attempt_domain)) [
        | inr (e, failed) ↦ absurd (ground arith)
        | inl (d, digested) ↦ elim (Option-cases (find q.attempt_id s.attempts)) [
          | inl fresh ↦ elim (Outcome-cases (publish_commit c q d s)) [
            | inl (r', t, ran) ↦
                Noted-Recorded Action.publish q d _ r _ s' digested
                  (publish_commit-Publishes c q d r s s'
                    (unfold prior_attempt finish in ground arith)).noted
            | inr (e, t, failed) ↦ absurd (unfold prior_attempt finish in ground arith)
          ]
          | inr (a, found) ↦
              let (same, answers, still) =
                prior_answers d q.attempt_id a r q.lose_acknowledgement (publish_commit c q d) s s'
                  found (ground arith) in
              record {
                digest = d;
                digested = digested;
                entry = a;
                found = rw still found;
                same = same;
                answers = answers;
              }
        ]
      ]

module _ (c : Codec) (q : Request) (s : Store) where
  insert_event_unambiguous :
      (r : Receipt) (t u : Store) → insert_event c r t ≢ raised ack_ambiguous u
  unfolding insert_event
  insert_event_unambiguous r t u h = ground arith

  note_unambiguous :
      (action : Action) (d : String) (receipt : Receipt) (t u : Store)
      → note c action q d receipt t ≢ raised ack_ambiguous u
  unfolding note insert_attempt
  note_unambiguous action d receipt t u h =
      elim (Outcome-cases (insert_attempt action q d receipt t)) [
        | inr (e, v, x) ↦ ground arith
        | inl (tt, v, x) ↦ elim (Outcome-cases (insert_event c receipt v)) [
          | inl (tt, w, y) ↦ ground arith
          | inr (e, w, y) ↦ ground (arith, insert_event_unambiguous receipt v u)
        ]
      ]

  publish_commit_unambiguous :
      (d : String) (u : Store) → publish_commit c q d s ≢ raised ack_ambiguous u
  unfolding publish_commit current eligible get_generation
  publish_commit_unambiguous d u h = elim (Option-cases (find q.generation_id s.generations)) [
    | inl gone ↦ ground arith
    | inr (g, found) ↦ ground (
      arith,
      note_unambiguous Action.publish d (publish_receipt q (find q.product_id s.active_pointer) g)
          (publish_tables q g s) u,
    )
  ]

  -- A publication whose acknowledgement was lost has committed, and is in the ledger.
  pub publish-ambiguous :
      (s' : Store)
      → publish c q s ≡ raised ack_ambiguous s'
      → (d : String) × (r : Receipt) × (Publishes q d r s s')
        × Recorded (semantic_digest c (payload Action.publish q) attempt_domain) q.attempt_id r s'
  unfolding publish prior_attempt finish
  publish-ambiguous s' h =
      elim (Result-cases (semantic_digest c (payload Action.publish q) attempt_domain)) [
        | inr (e, failed) ↦ absurd (ground arith)
        | inl (d, digested) ↦ elim (Option-cases (find q.attempt_id s.attempts)) [
          | inr (a, found) ↦ absurd (ground arith)
          | inl fresh ↦ elim (Outcome-cases (publish_commit c q d s)) [
            | inr (e, t, failed) ↦ absurd (ground (arith, publish_commit_unambiguous d t))
            | inl (r, t, ran) ↦
                let m = publish_commit-Publishes c q d r s s' (ground arith) in
                (d, r, m, Noted-Recorded Action.publish q d _ r _ s' digested m.noted)
          ]
        ]
      ]

-- Once a publication has returned its receipt, the same request is answered with that receipt and
-- no change, whatever calls come between and whether its acknowledgement would be lost.
pub publish_retried :
    (c : Codec) (q : Request) (s s' : Store) (r : Receipt)
    → publish c q s ≡ done r s'
    → (calls : List Call) (lost : Bool)
    → publish c (record q { lose_acknowledgement = lost }) (run_all c calls s')
      ≡ done r (run_all c calls s')
unfolding payload
publish_retried c q s s' r h calls lost =
    let m = publish-Recorded c q s s' r h in
    publish_recorded c (record q { lose_acknowledgement = lost }) (run_all c calls s') m.digest
      m.entry m.digested (run_all-Keeps c calls s' q.attempt_id m.entry m.found) m.same
    ∙ ap (λ x. done x (run_all c calls s')) m.answers
