-- ===== src/Publication/Inversion.antt =====
-- Calls that returned, taken apart: `current`, the commits of the three moves, and the moves.
use changebridge_cdc_migrati.Base.{
  String, Bool, true, false, none, some, [], ◌∷◌, ◌++◌, ◌≡◌, inl, inr, arith,
}
use changebridge_cdc_migrati.Base.Tests.{Option-cases, nat_eq_iff}
use changebridge_cdc_migrati.Base.Key.{◌==◌, text_key, number_key}
use changebridge_cdc_migrati.Base.Table.{find, insert}
use changebridge_cdc_migrati.Base.Exec.{done, pure, ◌>>=◌, Outcome-cases, >>=-eq-done}
use changebridge_cdc_migrati.Json.{Codec}
use changebridge_cdc_migrati.Publication.{
  Store, Action, Clock, Pointer, Generation, Receipt, Attempt, Current, inconsistent, current,
}
use changebridge_cdc_migrati.Publication.Receipts.{
  Request, publish_receipt, publish_tables, fallback_receipt, fallback_tables, rollback_receipt,
  rollback_tables,
}
use changebridge_cdc_migrati.Publication.Moves.{
  is_eligible, eligible, insert_attempt, insert_event, note, publish_commit, active_at,
  fallback_commit, rollback_commit,
}

current_done :
    (p : String) (now : Current) (s s' : Store)
    → current p s ≡ done now s'
    → (s' ≡ s)
      × (find p s.publication_clock ≡ some (record { revision = now.revision; route = now.route }))
      × (now.pointer ≡ find p s.active_pointer)
      × (inconsistent now.route now.pointer ≡ false)
unfolding current
current_done p now s s' h = ground arith

eligible_done :
    (g : String) (rollback : Bool) (row : Generation) (s s' : Store)
    → eligible g rollback s ≡ done row s'
    → (s' ≡ s) × (find g s.generations ≡ some row) × (is_eligible rollback row ≡ true)
unfolding eligible
eligible_done g rollback row s s' h = elim (Option-cases (find g s.generations)) [
  | inl gone ↦ absurd (ground arith)
  | inr (r, found) ↦ ground arith
]

active_at_done :
    (now : Current) (q : Request) (pointer : Pointer) (s s' : Store)
    → active_at now q s ≡ done pointer s'
    → (s' ≡ s) × (now.revision ≡ q.expected_revision) × (now.pointer ≡ some pointer)
unfolding active_at
active_at_done now q pointer s s' h = ground arith

-- The entry that `_insert_attempt` writes.
abbrev pub attempt_of : Action → Request → String → Receipt → Attempt
attempt_of action q digest receipt = record {
  action = action;
  payload_digest = digest;
  product_id = q.product_id;
  expected_revision = q.expected_revision;
  verdict = receipt.verdict;
  resulting_revision = receipt.resulting_revision;
  receipt = receipt;
}

-- The attempt and the event were recorded, and nothing else was written.
pub record Noted (action : Action) (q : Request) (digest : String) (receipt r : Receipt)
    (s s' : Store) : Type 0 where
  pub returned : r ≡ receipt
  pub fresh : find q.attempt_id s.attempts ≡ none
  pub attempts : s'.attempts ≡ s.attempts ++ (q.attempt_id, attempt_of action q digest receipt) ∷ []
  pub publication_clock : s'.publication_clock ≡ s.publication_clock
  pub active_pointer : s'.active_pointer ≡ s.active_pointer
  pub generations : s'.generations ≡ s.generations
  pub consumer_pins : s'.consumer_pins ≡ s.consumer_pins
  pub orchestration_runs : s'.orchestration_runs ≡ s.orchestration_runs

module _ (c : Codec) where
  insert_event_done :
      (receipt : Receipt) (s s' : Store)
      → insert_event c receipt s ≡ done tt s'
      → s' ≡ record s { events = s'.events }
  unfolding insert_event
  insert_event_done receipt s s' h = ground arith

  note-Noted :
      (action : Action) (q : Request) (digest : String) (receipt r : Receipt) (s s' : Store)
      → note c action q digest receipt s ≡ done r s'
      → Noted action q digest receipt r s s'
  unfolding note insert_attempt insert
  note-Noted action q digest receipt r s s' h =
      let (_, m, first, rest) =
        >>=-eq-done (insert_attempt action q digest receipt)
          (λ _. insert_event c receipt >>= λ _. pure receipt) s h in
      let (_, u, second, last) = >>=-eq-done (insert_event c receipt) (λ _. pure receipt) m rest in
      let frame = insert_event_done receipt m u second in
      record {
        returned = ground arith;
        fresh = ground arith;
        attempts = ground arith;
        publication_clock = ground arith;
        active_pointer = ground arith;
        generations = ground arith;
        consumer_pins = ground arith;
        orchestration_runs = ground arith;
      }

-- A publication that committed, a fallback and a rollback, taken apart.
pub record Publishes (q : Request) (digest : String) (r : Receipt) (s s' : Store) : Type 0 where
  pub clock : Clock
  pub was : find q.product_id s.publication_clock ≡ some clock
  pub at : clock.revision ≡ q.expected_revision
  pub target : Generation
  pub found : find q.generation_id s.generations ≡ some target
  pub is_fit : is_eligible false target ≡ true
  pub noted :
      Noted Action.publish q digest
        (publish_receipt q (find q.product_id s.active_pointer) target)
        r
        (publish_tables q target s)
        s'

pub record FallsBack (q : Request) (digest : String) (r : Receipt) (s s' : Store) : Type 0 where
  pub clock : Clock
  pub was : find q.product_id s.publication_clock ≡ some clock
  pub at : clock.revision ≡ q.expected_revision
  pub pointer : Pointer
  pub pointed : find q.product_id s.active_pointer ≡ some pointer
  pub pointer_at : pointer.revision ≡ q.expected_revision
  pub noted :
      Noted Action.first_publication_fallback q digest
        (fallback_receipt q pointer)
        r
        (fallback_tables q s)
        s'

pub record RollsBack (q : Request) (digest : String) (r : Receipt) (s s' : Store) : Type 0 where
  pub clock : Clock
  pub was : find q.product_id s.publication_clock ≡ some clock
  pub at : clock.revision ≡ q.expected_revision
  pub agrees : inconsistent clock.route (find q.product_id s.active_pointer) ≡ false
  pub pointer : Pointer
  pub pointed : find q.product_id s.active_pointer ≡ some pointer
  pub differs : (pointer.generation_id == q.generation_id) ≡ false
  pub target : Generation
  pub found : find q.generation_id s.generations ≡ some target
  pub is_fit : is_eligible true target ≡ true
  pub noted :
      Noted Action.rollback q digest
        (rollback_receipt q pointer target)
        r
        (rollback_tables q pointer target s)
        s'

module _ (c : Codec) (q : Request) (digest : String) (r : Receipt) (s s' : Store) where
  pub publish_commit-Publishes : publish_commit c q digest s ≡ done r s' → Publishes q digest r s s'
  unfolding publish_commit
  publish_commit-Publishes h = elim (Outcome-cases (current q.product_id s)) [
    | inr (e, u, x) ↦ absurd (ground arith)
    | inl (now, u, x) ↦
        let (same, was, pointer, agrees) = current_done q.product_id now s u x in
        elim (Outcome-cases (eligible q.generation_id false s)) [
          | inr (e, v, y) ↦ absurd (ground arith)
          | inl (target, v, y) ↦
              let (same', found, fit) = eligible_done q.generation_id false target s v y in
              record {
                clock = record { revision = now.revision; route = now.route };
                was = was;
                at = ground (arith, nat_eq_iff now.revision q.expected_revision);
                target = target;
                found = found;
                is_fit = fit;
                noted =
                    note-Noted c Action.publish q digest
                      (publish_receipt q (find q.product_id s.active_pointer) target) r
                      (publish_tables q target s) s' (ground arith);
              }
        ]
  ]

  pub fallback_commit-FallsBack :
      fallback_commit c q digest s ≡ done r s' → FallsBack q digest r s s'
  unfolding fallback_commit
  fallback_commit-FallsBack h = elim (Outcome-cases (current q.product_id s)) [
    | inr (e, u, x) ↦ absurd (ground arith)
    | inl (now, u, x) ↦
        let (same, was, pointer, agrees) = current_done q.product_id now s u x in
        elim (Outcome-cases (active_at now q s)) [
          | inr (e, v, y) ↦ absurd (ground arith)
          | inl (old, v, y) ↦
              let (same', at, here) = active_at_done now q old s v y in
              record {
                clock = record { revision = now.revision; route = now.route };
                was = was;
                at = at;
                pointer = old;
                pointed = ground arith;
                pointer_at = ground (arith, nat_eq_iff old.revision q.expected_revision);
                noted =
                    note-Noted c Action.first_publication_fallback q digest (fallback_receipt q old)
                      r (fallback_tables q s) s' (ground arith);
              }
        ]
  ]

  pub rollback_commit-RollsBack :
      rollback_commit c q digest s ≡ done r s' → RollsBack q digest r s s'
  unfolding rollback_commit
  rollback_commit-RollsBack h = elim (Outcome-cases (current q.product_id s)) [
    | inr (e, u, x) ↦ absurd (ground arith)
    | inl (now, u, x) ↦
        let (same, was, pointer, agrees) = current_done q.product_id now s u x in
        elim (Outcome-cases (active_at now q s)) [
          | inr (e, v, y) ↦ absurd (ground arith)
          | inl (old, v, y) ↦
              let (same', at, here) = active_at_done now q old s v y in
              elim (Outcome-cases (eligible q.generation_id true s)) [
                | inr (e, w, z) ↦ absurd (ground arith)
                | inl (target, w, z) ↦
                    let (same'', found, fit) = eligible_done q.generation_id true target s w z in
                    record {
                      clock = record { revision = now.revision; route = now.route };
                      was = was;
                      at = at;
                      agrees = ground arith;
                      pointer = old;
                      pointed = ground arith;
                      differs = ground arith;
                      target = target;
                      found = found;
                      is_fit = fit;
                      noted =
                          note-Noted c Action.rollback q digest (rollback_receipt q old target) r
                            (rollback_tables q old target s) s' (ground arith);
                    }
              ]
        ]
  ]
