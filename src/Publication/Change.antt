-- ===== src/Publication/Change.antt =====
-- The abstract steps of clocks, pointers, generations and attempts, and every method as one.
use changebridge_cdc_migrati.Base.{
  ℕ, String, Bool, false, not, ◌||◌, Option, none, some, List, [], ◌∷◌, ◌++◌, ◌≡◌, refl, inl, inr,
  arith,
}
use changebridge_cdc_migrati.Base.Tests.{is_some, if◌then◌else◌, Option-cases, Bool-cases}
use changebridge_cdc_migrati.Base.Key.{◌==◌, text_key}
use changebridge_cdc_migrati.Base.Table.{find, insert, update}
use changebridge_cdc_migrati.Base.Exec.{Outcome, done, raised, after}
use changebridge_cdc_migrati.Base.Result.{Result-cases}
use changebridge_cdc_migrati.Json.{Json, Codec}
use changebridge_cdc_migrati.Json.Contracts.{semantic_digest}
use changebridge_cdc_migrati.Publication
use changebridge_cdc_migrati.Publication.Registration
use changebridge_cdc_migrati.Publication.Moves
use changebridge_cdc_migrati.Publication.Pins
use changebridge_cdc_migrati.Publication.Runs
use changebridge_cdc_migrati.Publication.{
  Store, Error, Generation, Receipt, RunState, source_fallback, current, get_generation, empty,
}
use changebridge_cdc_migrati.Publication.Registration.{
  Binding, Flags, binding_body, binding_row, set_flags, insert_or_compare,
}
use changebridge_cdc_migrati.Publication.Receipts.{Request}
use changebridge_cdc_migrati.Publication.Inversion.{Publishes, FallsBack, RollsBack}
use changebridge_cdc_migrati.Publication.Outcomes.{publish-cases, fallback-cases, rollback-cases}

-- the writing methods, with their arguments
pub data Call : Type 0 where
  initialize_product : String → Call
  register_generation : Binding → String → Call
  set_eligibility : String → Flags → Call
  publish : Request → Call
  first_publication_fallback : Request → Call
  rollback : Request → Call
  pin : String → String → Call
  start_run : String → String → Call
  transition_run : String → ℕ → RunState → Option String → Json → Call

-- The store after a call, which returned or raised.
unfoldable pub run : Codec → Call → Store → Store
run c (Call.initialize_product p) s = after (Publication.initialize_product p s)
run c (Call.register_generation b contract) s =
    after (Registration.register_generation c b contract s)
run c (Call.set_eligibility g f) s = after (Registration.set_eligibility g f s)
run c (Call.publish q) s = after (Moves.publish c q s)
run c (Call.first_publication_fallback q) s = after (Moves.first_publication_fallback c q s)
run c (Call.rollback q) s = after (Moves.rollback c q s)
run c (Call.pin p id) s = after (Pins.pin c p id s)
run c (Call.start_run id p) s = after (Runs.start_run id p s)
run c (Call.transition_run id n state attempt detail) s =
    after (Runs.transition_run c id n state attempt detail s)

unfoldable pub run_all : Codec → List Call → Store → Store
run_all c [] s = s
run_all c (call ∷ calls) s = run_all c calls (run c call s)

-- Clocks, pointers and attempts are as they were.
pub record SameMoves (s s' : Store) : Type 0 where
  pub publication_clock : s'.publication_clock ≡ s.publication_clock
  pub active_pointer : s'.active_pointer ≡ s.active_pointer
  pub attempts : s'.attempts ≡ s.attempts

pub data Change (s s' : Store) : Type 0 where
  quiet : SameMoves s s' → s'.generations ≡ s.generations → Change s s'
  opened :
      (p : String)
      → find p s.publication_clock ≡ none
      → s' ≡ record s {
        publication_clock =
            s.publication_clock ++ (p, record { revision = 0; route = source_fallback }) ∷ [];
      }
      → Change s s'
  registered :
      (g : String) (row : Generation)
      → find g s.generations ≡ none
      → s' ≡ record s { generations = s.generations ++ (g, row) ∷ [] }
      → Change s s'
  flagged :
      (g : String) (f : Flags)
      → s' ≡ record s { generations = update g (set_flags f) s.generations }
      → Change s s'
  published : (q : Request) (d : String) (r : Receipt) → Publishes q d r s s' → Change s s'
  fell_back : (q : Request) (d : String) (r : Receipt) → FallsBack q d r s s' → Change s s'
  rolled_back : (q : Request) (d : String) (r : Receipt) → RollsBack q d r s s' → Change s s'

same : (s s' : Store) → s' ≡ s → Change s s'
same s s' e = quiet (ground arith) (ground arith)

after_answer :
    (lost : Bool) (o : Outcome Error Store Receipt) (r : Receipt) (t : Store)
    → o ≡ (if lost then raised Publication.ack_ambiguous t else done r t)
    → after o ≡ t
after_answer lost o r t e = ground arith

module _ (c : Codec) (s : Store) where
  publish-Change : (q : Request) → Change s (after (Moves.publish c q s))
  publish-Change q = elim (publish-cases c q s) [
    | inl e ↦ same s _ e
    | inr m ↦
        rw (after_answer q.lose_acknowledgement _ m.receipt m.store m.answer)
          (published q m.digest m.receipt m.committed)
  ]

  fallback-Change : (q : Request) → Change s (after (Moves.first_publication_fallback c q s))
  fallback-Change q = elim (fallback-cases c q s) [
    | inl e ↦ same s _ e
    | inr m ↦
        rw (after_answer q.lose_acknowledgement _ m.receipt m.store m.answer)
          (fell_back q m.digest m.receipt m.committed)
  ]

  rollback-Change : (q : Request) → Change s (after (Moves.rollback c q s))
  rollback-Change q = elim (rollback-cases c q s) [
    | inl e ↦ same s _ e
    | inr m ↦
        rw (after_answer false _ m.receipt m.store m.answer)
          (rolled_back q m.digest m.receipt m.committed)
  ]

  current_same : (p : String) (t : Store) → after (current p t) ≡ t
  unfolding current
  current_same p t = ground arith

  initialize-Change : (p : String) → Change s (after (Publication.initialize_product p s))
  unfolding Publication.initialize_product insert
  initialize-Change p = elim (Option-cases (find p s.publication_clock)) [
    | inl free ↦ opened p free (ground arith)
    | inr (k, taken) ↦ same s _ (ground arith)
  ]

  set_eligibility-Change :
      (g : String) (f : Flags) → Change s (after (Registration.set_eligibility g f s))
  unfolding Registration.set_eligibility
  set_eligibility-Change g f =
      elim (Bool-cases (
        not (
          is_some f.retained
          || (is_some f.readable || (is_some f.retired || is_some f.evidence_valid))))) [
            | inl empty ↦ same s _ (ground arith)
            | inr given ↦ flagged g f (ground arith)
          ]

  start_run-Change : (id p : String) → Change s (after (Runs.start_run id p s))
  unfolding Runs.start_run
  start_run-Change id p = quiet (ground arith) (ground arith)

  transition_run-Change :
      (id : String) (n : ℕ) (state : RunState) (attempt : Option String) (detail : Json)
      → Change s (after (Runs.transition_run c id n state attempt detail s))
  unfolding Runs.transition_run
  transition_run-Change id n state attempt detail = quiet (ground arith) (ground arith)

  pin-Change : (p id : String) → Change s (after (Pins.pin c p id s))
  unfolding Pins.pin Pins.insert_pin Pins.table_map_of get_generation
  pin-Change p id = quiet (ground (arith, current_same p s)) (ground (arith, current_same p s))

  insert-Change :
      (g : String) (row : Generation) (existing : Option Generation)
      → find g s.generations ≡ existing
      → Change s (after (insert_or_compare g row existing s))
  unfolding insert_or_compare insert get_generation
  insert-Change g row (some e) found = same s _ (ground arith)
  insert-Change g row none free = registered g row free (ground arith)

  register-Change :
      (b : Binding) (contract : String)
      → Change s (after (Registration.register_generation c b contract s))
  unfolding Registration.register_generation
  register-Change b contract =
      elim (Result-cases (semantic_digest c (binding_body b) "stage27-publication-binding")) [
        | inr (e, failed) ↦ same s _ (ground arith)
        | inl (d, digested) ↦ elim (Bool-cases (d == b.publication_binding_digest)) [
          | inl right ↦
              rw (digested, right)
                (insert-Change b.generation_id (binding_row c b contract)
                  (find b.generation_id s.generations) refl)
          | inr wrong ↦ same s _ (ground arith)
        ]
      ]

  -- Every call is an abstract step, whatever its arguments and whether it returns or raises.
  pub run-Change : (call : Call) → Change s (run c call s)
  unfolding run
  run-Change (Call.initialize_product p) = initialize-Change p
  run-Change (Call.register_generation b contract) = register-Change b contract
  run-Change (Call.set_eligibility g f) = set_eligibility-Change g f
  run-Change (Call.publish q) = publish-Change q
  run-Change (Call.first_publication_fallback q) = fallback-Change q
  run-Change (Call.rollback q) = rollback-Change q
  run-Change (Call.pin p id) = pin-Change p id
  run-Change (Call.start_run id p) = start_run-Change id p
  run-Change (Call.transition_run id n state attempt detail) =
      transition_run-Change id n state attempt detail
