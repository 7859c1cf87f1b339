-- ===== src/Publication/Agreement.antt =====
-- Clocks and pointers agree in every store that calls of the publication methods reach.
use changebridge_cdc_migrati.Base.{
  ◌+◌, String, Bool, true, not, ◌&&◌, Option, none, some, List, [], ◌∷◌, ◌≡◌, refl, ap, arith,
}
use changebridge_cdc_migrati.Base.Tests.{is_some, nat_eq}
use changebridge_cdc_migrati.Base.Key.{text_key}
use changebridge_cdc_migrati.Base.Table.{find, find-append, find-update, find-replace, find-delete}
use changebridge_cdc_migrati.Base.Exec.{done}
use changebridge_cdc_migrati.Json.{Codec}
use changebridge_cdc_migrati.Publication.{
  Store, Clock, Pointer, Receipt, Route, source_fallback, is_source_fallback, current, empty,
}
use changebridge_cdc_migrati.Publication.Receipts.{
  Request, set_clock, pointer_to, publish_tables, fallback_tables, rollback_tables,
}
use changebridge_cdc_migrati.Publication.Inversion.{Publishes, FallsBack, RollsBack}
use changebridge_cdc_migrati.Publication.Change.{
  Call, run, run_all, Change, quiet, opened, registered, flagged, published, fell_back, rolled_back,
  run-Change,
}

-- A product on the source has no pointer; one on a generation has a pointer of the clock's revision.
unfoldable pub agree : Option Clock → Option Pointer → Bool
agree none pointer = not (is_some pointer)
agree (some k) none = is_source_fallback k.route
agree (some k) (some p) = not (is_source_fallback k.route) && nat_eq p.revision k.revision

abbrev pub AgreeAt : String → Store → Type 0
AgreeAt p s = agree (find p s.publication_clock) (find p s.active_pointer) ≡ true

module _ (q : Request) (d : String) (r : Receipt) (s s' : Store) (p : String) where
  pub published-AgreeAt : Publishes q d r s s' → AgreeAt p s → AgreeAt p s'
  unfolding agree publish_tables pointer_to
  published-AgreeAt m h = ground (
    arith,
    m.was,
    text_key.equals_iff q.product_id p,
    find-update q.product_id p (set_clock (q.expected_revision + 1) Route.generation)
        s.publication_clock,
    ap (find p) m.noted.publication_clock,
    ap (find p) m.noted.active_pointer,
    find-replace q.product_id p (pointer_to q m.target) s.active_pointer,
  )

  fell_back-AgreeAt : FallsBack q d r s s' → AgreeAt p s → AgreeAt p s'
  unfolding agree fallback_tables
  fell_back-AgreeAt m h = ground (
    arith,
    m.was,
    text_key.equals_iff q.product_id p,
    find-update q.product_id p (set_clock (q.expected_revision + 1) Route.source_fallback)
        s.publication_clock,
    ap (find p) m.noted.publication_clock,
    ap (find p) m.noted.active_pointer,
    find-delete q.product_id p s.active_pointer,
  )

  rolled_back-AgreeAt : RollsBack q d r s s' → AgreeAt p s → AgreeAt p s'
  unfolding agree rollback_tables pointer_to
  rolled_back-AgreeAt m h = ground (
    arith,
    m.was,
    m.pointed,
    text_key.equals_iff q.product_id p,
    find-update q.product_id p (λ k. record k { revision = q.expected_revision + 1 })
        s.publication_clock,
    ap (find p) m.noted.publication_clock,
    ap (find p) m.noted.active_pointer,
    find-update q.product_id p (λ _. pointer_to q m.target) s.active_pointer,
  )

pub Change-AgreeAt : (s s' : Store) (p : String) → Change s s' → AgreeAt p s → AgreeAt p s'
Change-AgreeAt s s' p (quiet e g) h =
    ground (arith, ap (find p) e.publication_clock, ap (find p) e.active_pointer)
Change-AgreeAt s s' p (opened q free e) h =
    unfold agree in
    ground (
      arith,
      text_key.equals_iff q p,
      find-append q p (record { revision = 0; route = source_fallback }) s.publication_clock free,
    )
Change-AgreeAt s s' p (registered g row free e) h = ground arith
Change-AgreeAt s s' p (flagged g f e) h = ground arith
Change-AgreeAt s s' p (published q d r m) h = published-AgreeAt q d r s s' p m h
Change-AgreeAt s s' p (fell_back q d r m) h = fell_back-AgreeAt q d r s s' p m h
Change-AgreeAt s s' p (rolled_back q d r m) h = rolled_back-AgreeAt q d r s s' p m h

pub run_all-AgreeAt :
    (c : Codec) (calls : List Call) (s : Store) (p : String)
    → AgreeAt p s
    → AgreeAt p (run_all c calls s)
unfolding run_all
run_all-AgreeAt c [] s p h = h
run_all-AgreeAt c (call ∷ calls) s p h =
    run_all-AgreeAt c calls (run c call s) p
      (Change-AgreeAt s (run c call s) p (run-Change c s call) h)

-- After any calls of the store's methods on a new database, whether they return or raise: a product
-- with no clock has no pointer; one routed to its source has no pointer; one routed to a generation
-- has a pointer, and the pointer carries the revision of the clock.
pub clock_pointer_agree :
    (c : Codec) (calls : List Call) (p : String)
    → agree
        (find p (run_all c calls empty).publication_clock)
        (find p (run_all c calls empty).active_pointer)
      ≡ true
unfolding find agree
clock_pointer_agree c calls p = run_all-AgreeAt c calls empty p refl

pub current_consistent_at :
    (p : String) (s : Store) (k : Clock)
    → AgreeAt p s
    → find p s.publication_clock ≡ some k
    → current p s
      ≡ done
          (record { revision = k.revision; route = k.route; pointer = find p s.active_pointer })
          s
unfolding agree current
current_consistent_at p s k h found = ground arith

-- So `current` never raises the inconsistency diagnostic in a store that was reached by calls: of a
-- product with a clock it returns the clock's revision and route and the pointer, and changes
-- nothing.
pub current_consistent :
    (c : Codec) (calls : List Call) (p : String) (k : Clock)
    → find p (run_all c calls empty).publication_clock ≡ some k
    → current p (run_all c calls empty)
      ≡ done
          (record {
            revision = k.revision;
            route = k.route;
            pointer = find p (run_all c calls empty).active_pointer;
          })
          (run_all c calls empty)
current_consistent c calls p k =
    current_consistent_at p (run_all c calls empty) k (clock_pointer_agree c calls p)
