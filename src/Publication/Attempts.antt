-- ===== src/Publication/Attempts.antt =====
-- The ledger of attempts in every store that calls reach: it only grows, and what it records stays.
use changebridge_cdc_migrati.Base.{
  ℕ, ◌+◌, String, Bool, true, false, Option, none, some, List, [], ◌∷◌, ◌≡◌, refl, ap, arith, ◌∙◌,
}
use changebridge_cdc_migrati.Base.Tests.{leb}
use changebridge_cdc_migrati.Base.Key.{text_key, number_key}
use changebridge_cdc_migrati.Base.Table.{find, find-append, find-update}
use changebridge_cdc_migrati.Json.{Codec}
use changebridge_cdc_migrati.Publication.{Route, Store, Action, Clock, Receipt, Attempt}
use changebridge_cdc_migrati.Publication.Receipts.{
  Request, publish_tables, fallback_tables, rollback_tables, set_clock,
}
use changebridge_cdc_migrati.Publication.Inversion.{Noted, attempt_of}
use changebridge_cdc_migrati.Publication.Change.{
  Call, run, run_all, Change, quiet, opened, registered, flagged, published, fell_back, rolled_back,
  run-Change,
}

-- what a store remembers: an attempt stays, and the revision of a product never falls
abbrev Keeps : String → Attempt → Store → Type 0
Keeps id a s = find id s.attempts ≡ some a

-- The attempts after a commit: those before it and the new one.
Noted-Keeps :
    (action : Action) (q : Request) (d : String) (receipt r : Receipt) (t s s' : Store)
    (id : String) (a : Attempt)
    → Noted action q d receipt r t s'
    → t.attempts ≡ s.attempts
    → Keeps id a s
    → Keeps id a s'
Noted-Keeps action q d receipt r t s s' id a m same h = ground (
  arith,
  m.fresh,
  m.attempts,
  same,
  ap (find id) m.attempts,
  ap (find id) same,
  text_key.equals_iff q.attempt_id id,
  find-append q.attempt_id id (attempt_of action q d receipt) t.attempts m.fresh,
)

Change-Keeps :
    (s s' : Store) (id : String) (a : Attempt) → Change s s' → Keeps id a s → Keeps id a s'
unfolding publish_tables fallback_tables rollback_tables
Change-Keeps s s' id a (quiet e g) h = ap (find id) e.attempts ∙ h
Change-Keeps s s' id a (opened q free e) h = ap (λ t. find id t.attempts) e ∙ h
Change-Keeps s s' id a (registered g row free e) h = ap (λ t. find id t.attempts) e ∙ h
Change-Keeps s s' id a (flagged g f e) h = ap (λ t. find id t.attempts) e ∙ h
Change-Keeps s s' id a (published q d r m) h = Noted-Keeps _ q d _ r _ s s' id a m.noted refl h
Change-Keeps s s' id a (fell_back q d r m) h = Noted-Keeps _ q d _ r _ s s' id a m.noted refl h
Change-Keeps s s' id a (rolled_back q d r m) h = Noted-Keeps _ q d _ r _ s s' id a m.noted refl h

pub run_all-Keeps :
    (c : Codec) (calls : List Call) (s : Store) (id : String) (a : Attempt)
    → Keeps id a s
    → Keeps id a (run_all c calls s)
unfolding run_all
run_all-Keeps c [] s id a h = h
run_all-Keeps c (call ∷ calls) s id a h =
    run_all-Keeps c calls (run c call s) id a
      (Change-Keeps s (run c call s) id a (run-Change c s call) h)

-- the revision of a product is at least n
unfoldable pub reached : ℕ → Option Clock → Bool
reached n none = false
reached n (some k) = leb n k.revision

Change-reached :
    (s s' : Store) (p : String) (n : ℕ)
    → Change s s'
    → reached n (find p s.publication_clock) ≡ true
    → reached n (find p s'.publication_clock) ≡ true
unfolding reached publish_tables fallback_tables rollback_tables
Change-reached s s' p n (quiet e g) h = ground (arith, ap (find p) e.publication_clock)
Change-reached s s' p n (opened q free e) h = ground (
  arith,
  text_key.equals_iff q p,
  ap (λ t. find p t.publication_clock) e,
  find-append q p (record { revision = 0; route = Route.source_fallback }) s.publication_clock free,
)
Change-reached s s' p n (registered g row free e) h =
    ground (arith, ap (λ t. find p t.publication_clock) e)
Change-reached s s' p n (flagged g f e) h = ground (arith, ap (λ t. find p t.publication_clock) e)
Change-reached s s' p n (published q d r m) h = ground (
  arith,
  m.was,
  m.at,
  text_key.equals_iff q.product_id p,
  ap (find p) m.noted.publication_clock,
  find-update q.product_id p (set_clock (q.expected_revision + 1) Route.generation)
      s.publication_clock,
)
Change-reached s s' p n (fell_back q d r m) h = ground (
  arith,
  m.was,
  m.at,
  text_key.equals_iff q.product_id p,
  ap (find p) m.noted.publication_clock,
  find-update q.product_id p (set_clock (q.expected_revision + 1) Route.source_fallback)
      s.publication_clock,
)
Change-reached s s' p n (rolled_back q d r m) h = ground (
  arith,
  m.was,
  m.at,
  text_key.equals_iff q.product_id p,
  ap (find p) m.noted.publication_clock,
  find-update q.product_id p (λ k. record k { revision = q.expected_revision + 1 })
      s.publication_clock,
)

pub run_all-reached :
    (c : Codec) (calls : List Call) (s : Store) (p : String) (n : ℕ)
    → reached n (find p s.publication_clock) ≡ true
    → reached n (find p (run_all c calls s).publication_clock) ≡ true
unfolding run_all
run_all-reached c [] s p n h = h
run_all-reached c (call ∷ calls) s p n h =
    run_all-reached c calls (run c call s) p n
      (Change-reached s (run c call s) p n (run-Change c s call) h)

-- The recorded attempt never reports a revision that its product has not reached.
abbrev FollowsAt : String → Store → Type 0
FollowsAt id s =
    (a : Attempt)
    → find id s.attempts ≡ some a
    → reached a.receipt.resulting_revision (find a.receipt.product_id s.publication_clock) ≡ true
