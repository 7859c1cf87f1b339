-- ===== src/Publication/Bound.antt =====
-- An active pointer is bound to its generation in every store that calls reach.
use changebridge_cdc_migrati.Base.{
  String, true, none, some, List, [], ◌∷◌, ◌++◌, ◌≡◌, refl, ap, inl, inr, arith, ◌∙◌,
}
use changebridge_cdc_migrati.Base.Tests.{Bool-cases}
use changebridge_cdc_migrati.Base.Key.{◌==◌, text_key}
use changebridge_cdc_migrati.Base.Table.{
  Table, find, update, find-append, find-update, find-replace, find-delete,
}
use changebridge_cdc_migrati.Json.{Codec}
use changebridge_cdc_migrati.Publication.{Store, Pointer, Generation, Receipt, empty}
use changebridge_cdc_migrati.Publication.Registration.{Flags, set_flags}
use changebridge_cdc_migrati.Publication.Receipts.{
  Request, mark_published, mark_rolled_back, pointer_to, publish_tables, fallback_tables,
  rollback_tables,
}
use changebridge_cdc_migrati.Publication.Moves.{is_eligible}
use changebridge_cdc_migrati.Publication.Inversion.{Publishes, FallsBack, RollsBack}
use changebridge_cdc_migrati.Publication.Change.{
  Call, run, run_all, Change, quiet, opened, registered, flagged, published, fell_back, rolled_back,
  run-Change,
}

abbrev Generations : Type 0
Generations = Table String Generation

-- The pointer names a generation that was published, and repeats its digests.
pub record IsBound (ptr : Pointer) (gs : Table String Generation) : Type 0 where
  pub row : Generation
  pub found : find ptr.generation_id gs ≡ some row
  pub proof : row.proof_manifest_digest ≡ ptr.proof_manifest_digest
  pub table_map : row.table_map_digest ≡ ptr.table_map_digest
  pub binding : row.publication_binding_digest ≡ ptr.publication_binding_digest
  pub published : row.ever_published ≡ true

record Preserves (f : Generation → Generation) : Type 0 where
  proof : (g : Generation) → (f g).proof_manifest_digest ≡ g.proof_manifest_digest
  table_map : (g : Generation) → (f g).table_map_digest ≡ g.table_map_digest
  binding : (g : Generation) → (f g).publication_binding_digest ≡ g.publication_binding_digest
  published : (g : Generation) → g.ever_published ≡ true → (f g).ever_published ≡ true

mark_published-Preserves : Preserves mark_published
mark_published-Preserves = record {
  proof = λ g. refl;
  table_map = λ g. refl;
  binding = λ g. refl;
  published = λ g h. refl;
}

mark_rolled_back-Preserves : Preserves mark_rolled_back
mark_rolled_back-Preserves = record {
  proof = λ g. refl;
  table_map = λ g. refl;
  binding = λ g. refl;
  published = λ g h. h;
}

set_flags-Preserves : (f : Flags) → Preserves (set_flags f)
unfolding set_flags
set_flags-Preserves f = record {
  proof = λ g. refl;
  table_map = λ g. refl;
  binding = λ g. refl;
  published = λ g h. h;
}

IsBound-update :
    (ptr : Pointer) (k : String) (f : Generation → Generation) (gs : Generations)
    → Preserves f
    → IsBound ptr gs
    → IsBound ptr (update k f gs)
IsBound-update ptr k f gs keeps b = elim (Bool-cases (k == ptr.generation_id)) [
  | inl e ↦ record {
    row = f b.row;
    found = rw (find-update k ptr.generation_id f gs, e, b.found) refl;
    proof = keeps.proof b.row ∙ b.proof;
    table_map = keeps.table_map b.row ∙ b.table_map;
    binding = keeps.binding b.row ∙ b.binding;
    published = keeps.published b.row b.published;
  }
  | inr e ↦ record {
    row = b.row;
    found = rw (find-update k ptr.generation_id f gs, e) b.found;
    proof = b.proof;
    table_map = b.table_map;
    binding = b.binding;
    published = b.published;
  }
]

IsBound-append :
    (ptr : Pointer) (g : String) (row : Generation) (gs : Generations)
    → find g gs ≡ none
    → IsBound ptr gs
    → IsBound ptr (gs ++ (g, row) ∷ [])
IsBound-append ptr g row gs free b = record {
  row = b.row;
  found = ground (
    arith,
    b.found,
    find-append g ptr.generation_id row gs free,
    text_key.equals_iff g ptr.generation_id,
  );
  proof = b.proof;
  table_map = b.table_map;
  binding = b.binding;
  published = b.published;
}

-- the generation that a publication or a rollback points to
IsBound-target :
    (q : Request) (target : Generation) (f : Generation → Generation) (k : String)
    (gs : Generations)
    → Preserves f
    → find q.generation_id gs ≡ some target
    → target.ever_published ≡ true
    → IsBound (pointer_to q target) (update k f gs)
unfolding pointer_to
IsBound-target q target f k gs keeps found is =
    IsBound-update (pointer_to q target) k f gs keeps (record {
      row = target;
      found = found;
      proof = refl;
      table_map = refl;
      binding = refl;
      published = is;
    })

IsBound-published :
    (q : Request) (target : Generation) (gs : Generations)
    → find q.generation_id gs ≡ some target
    → IsBound (pointer_to q target) (update q.generation_id mark_published gs)
unfolding pointer_to
IsBound-published q target gs found = record {
  row = mark_published target;
  found = ground (
    arith,
    found,
    find-update q.generation_id q.generation_id mark_published gs,
    text_key.equals_iff q.generation_id q.generation_id,
  );
  proof = refl;
  table_map = refl;
  binding = refl;
  published = refl;
}

-- a rollback goes back to a generation that was published
is_fit-published :
    (target : Generation) → is_eligible true target ≡ true → target.ever_published ≡ true
is_fit-published target fit = ground arith

abbrev BoundAt : String → Store → Type 0
BoundAt p s = (ptr : Pointer) → find p s.active_pointer ≡ some ptr → IsBound ptr s.generations

module _ (q : Request) (d : String) (r : Receipt) (s s' : Store) (p : String) where
  published-BoundAt : Publishes q d r s s' → BoundAt p s → BoundAt p s'
  unfolding publish_tables
  published-BoundAt m h ptr found = rw m.noted.generations (elim (Bool-cases (q.product_id == p)) [
    | inl e ↦
        let the_target : ptr ≡ pointer_to q m.target = ground (
          arith,
          e,
          ap (find p) m.noted.active_pointer,
          find-replace q.product_id p (pointer_to q m.target) s.active_pointer,
        ) in
        rw the_target (IsBound-published q m.target s.generations m.found)
    | inr e ↦
        IsBound-update ptr q.generation_id mark_published s.generations mark_published-Preserves (
          h ptr (
            ground (
              arith,
              e,
              ap (find p) m.noted.active_pointer,
              find-replace q.product_id p (pointer_to q m.target) s.active_pointer,
            )))
  ])

  fell_back-BoundAt : FallsBack q d r s s' → BoundAt p s → BoundAt p s'
  unfolding fallback_tables
  fell_back-BoundAt m h ptr found = rw m.noted.generations (
      h ptr (
        ground
          (arith, ap (find p) m.noted.active_pointer, find-delete q.product_id p s.active_pointer)))

  rolled_back-BoundAt : RollsBack q d r s s' → BoundAt p s → BoundAt p s'
  unfolding rollback_tables
  rolled_back-BoundAt m h ptr found =
      rw m.noted.generations (elim (Bool-cases (q.product_id == p)) [
        | inl e ↦
            let the_target : ptr ≡ pointer_to q m.target = ground (
              arith,
              e,
              text_key.equals_iff q.product_id p,
              m.pointed,
              ap (find p) m.noted.active_pointer,
              find-update q.product_id p (λ _. pointer_to q m.target) s.active_pointer,
            ) in
            rw the_target (
              IsBound-target q m.target mark_rolled_back m.pointer.generation_id s.generations
                mark_rolled_back-Preserves m.found (is_fit-published m.target m.is_fit))
        | inr e ↦
            IsBound-update ptr m.pointer.generation_id mark_rolled_back s.generations
              mark_rolled_back-Preserves
              (h ptr (
                ground (
                  arith,
                  e,
                  ap (find p) m.noted.active_pointer,
                  find-update q.product_id p (λ _. pointer_to q m.target) s.active_pointer,
                )))
      ])

Change-BoundAt : (s s' : Store) (p : String) → Change s s' → BoundAt p s → BoundAt p s'
Change-BoundAt s s' p (quiet e g) h ptr found =
    rw g (h ptr (ground (arith, ap (find p) e.active_pointer)))
Change-BoundAt s s' p (opened q free e) h ptr found =
    rw e (h ptr (ground (arith, ap (λ t. find p t.active_pointer) e)))
Change-BoundAt s s' p (registered g row free e) h ptr found = rw e (
    IsBound-append ptr g row s.generations free
      (h ptr (ground (arith, ap (λ t. find p t.active_pointer) e))))
Change-BoundAt s s' p (flagged g f e) h ptr found = rw e (
    IsBound-update ptr g (set_flags f) s.generations (set_flags-Preserves f)
      (h ptr (ground (arith, ap (λ t. find p t.active_pointer) e))))
Change-BoundAt s s' p (published q d r m) h ptr found = published-BoundAt q d r s s' p m h ptr found
Change-BoundAt s s' p (fell_back q d r m) h ptr found = fell_back-BoundAt q d r s s' p m h ptr found
Change-BoundAt s s' p (rolled_back q d r m) h ptr found =
    rolled_back-BoundAt q d r s s' p m h ptr found

run_all-BoundAt :
    (c : Codec) (calls : List Call) (s : Store) (p : String)
    → BoundAt p s
    → BoundAt p (run_all c calls s)
unfolding run_all
run_all-BoundAt c [] s p h = h
run_all-BoundAt c (call ∷ calls) s p h =
    run_all-BoundAt c calls (run c call s) p
      (Change-BoundAt s (run c call s) p (run-Change c s call) h)

empty-BoundAt : (p : String) → BoundAt p empty
unfolding find
empty-BoundAt p ptr found = absurd (ground (arith, found))

-- After any calls of the store's methods on a new database, an active pointer names a generation
-- that is registered and was published, and carries its three digests.
pub pointer-IsBound :
    (c : Codec) (calls : List Call) (p : String) (ptr : Pointer)
    → find p (run_all c calls empty).active_pointer ≡ some ptr
    → IsBound ptr (run_all c calls empty).generations
pointer-IsBound c calls p = run_all-BoundAt c calls empty p (empty-BoundAt p)
