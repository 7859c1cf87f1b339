-- ===== src/Engine/Invariant.antt =====
-- What holds of every store that calls of the engine's methods reach.
use mathlib.Core.Path.{subst}
use changebridge_cdc_migrati.Base.{
  String, true, false, Option, none, some, List, [], ◌∷◌, ◌++◌, ◌≡◌, ◌≢◌, refl, ap, ◌∙◌, inl, inr,
  arith,
}
use changebridge_cdc_migrati.Base.Tests.{if◌then◌else◌, Bool-cases, Option-cases}
use changebridge_cdc_migrati.Base.Key.{◌==◌, text_key}
use changebridge_cdc_migrati.Base.Int.{ℤ, eqb_ℤ, eqb_ℤ_iff}
use changebridge_cdc_migrati.Base.Table.{Table, find, update, find-append, find-update}
use changebridge_cdc_migrati.Json.{Codec}
use changebridge_cdc_migrati.Model.{CdcBatch}
use changebridge_cdc_migrati.Engine.{
  Engine, Generation, AppliedBatch, Status, is_ready, set_status, empty,
}
use changebridge_cdc_migrati.Engine.Frontier.{
  find-generations_self, find-generations_ne, active_pointer_same, applied_batches_grow,
}
use changebridge_cdc_migrati.Engine.Inversion.{Applies}
use changebridge_cdc_migrati.Engine.Change.{
  Call, run, run_all, Change, same, created, promoted, advanced, activated, run-Change,
}

abbrev Ledger : Type 0
Ledger = Table (String × String) AppliedBatch

-- The batches of a generation in the order in which they were applied, each beginning where the
-- one before it ended: where they lead to from a given LSN, or `none` at a gap.
unfoldable pub walk : String → ℤ → Ledger → Option ℤ
walk g lsn [] = some lsn
walk g lsn ((k, b) ∷ l) =
    let joined = (if eqb_ℤ b.start_lsn lsn then walk g b.end_lsn l else none) in
    let skipped = walk g lsn l in if k.0 == g then joined else skipped

walk-append_self :
    (g id : String) (b : AppliedBatch) (lsn : ℤ) (l : Ledger)
    → walk g lsn l ≡ some b.start_lsn
    → walk g lsn (l ++ ((g, id), b) ∷ []) ≡ some b.end_lsn
unfolding walk
walk-append_self g id b lsn [] h =
    ground (arith, text_key.equals_iff g g, eqb_ℤ_iff b.start_lsn lsn)
walk-append_self g id b lsn ((k, a) ∷ l) h =
    ground (arith, walk-append_self g id b lsn l, walk-append_self g id b a.end_lsn l)

walk-append_ne :
    (g h id : String) (b : AppliedBatch) (lsn : ℤ) (l : Ledger)
    → h ≢ g
    → walk g lsn (l ++ ((h, id), b) ∷ []) ≡ walk g lsn l
unfolding walk
walk-append_ne g h id b lsn [] other = ground (arith, text_key.equals_iff h g)
walk-append_ne g h id b lsn ((k, a) ∷ l) other =
    ground (arith, walk-append_ne g h id b lsn l other, walk-append_ne g h id b a.end_lsn l other)

-- A generation's batches lead from its snapshot to its frontier; one that is not there has none.
abbrev pub Linked : Option Generation → String → Ledger → Type 0
Linked none g l = (lsn : ℤ) → walk g lsn l ≡ some lsn
Linked (some row) g l = walk g row.snapshot_lsn l ≡ some row.current_lsn

pub record IsSound (s : Engine) : Type 0 where
  pub linked : (g : String) → Linked (find g s.generations) g s.applied_batches
  pub active :
      (g : String)
      → s.active_pointer.generation_id ≡ some g
      → (row : Generation) × (find g s.generations ≡ some row) × (is_ready row.status ≡ true)

module _ (c : Codec) where
  abbrev LinkedAt : String → Engine → Type 0
  LinkedAt g s = Linked (find g s.generations) g s.applied_batches

  created-Linked :
      (g h : String) (row : Generation) (s : Engine)
      → find h s.generations ≡ none
      → row.current_lsn ≡ row.snapshot_lsn
      → LinkedAt g s
      → Linked (find g (s.generations ++ (h, row) ∷ [])) g s.applied_batches
  created-Linked g h row s free start sound = elim (Bool-cases (h == g)) [
    | inl e ↦
        let gone : find g s.generations ≡ none = ground (arith, text_key.equals_iff h g, free, e) in
        rw (find-append h g row s.generations free, e, start) ((rw gone at sound) row.snapshot_lsn)
    | inr e ↦ rw (find-append h g row s.generations free, e) sound
  ]

  promoted-Linked :
      (g h : String) (status : Status) (s : Engine)
      → LinkedAt g s
      → Linked (find g (update h (set_status status) s.generations)) g s.applied_batches
  promoted-Linked g h status s sound = elim (Bool-cases (h == g)) [
    | inl e ↦ elim (Option-cases (find g s.generations)) [
      | inl gone ↦
          rw (find-update h g (set_status status) s.generations, e, gone) (rw gone at sound)
      | inr (row, found) ↦
          rw (find-update h g (set_status status) s.generations, e, found) (rw found at sound)
    ]
    | inr e ↦ rw (find-update h g (set_status status) s.generations, e) sound
  ]

  advanced-Linked_self :
      (g : String) (b : CdcBatch) (s s' : Engine)
      → Applies c g b s s'
      → LinkedAt g s
      → LinkedAt g s'
  advanced-Linked_self g b s s' p sound =
      rw (find-generations_self c g b s s' p, applied_batches_grow c g b s s' p)
        (walk-append_self g b.batch_id _ p.generation.snapshot_lsn s.applied_batches
          (rw p.start (rw p.was at sound)))

  advanced-Linked_ne :
      (g h : String) (b : CdcBatch) (s s' : Engine)
      → h ≢ g
      → Applies c h b s s'
      → (row : Option Generation) → find g s.generations ≡ row
      → Linked row g s.applied_batches
      → Linked row g s'.applied_batches
  advanced-Linked_ne g h b s s' other p none e sound = λ lsn.
      rw (applied_batches_grow c h b s s' p)
        (walk-append_ne g h b.batch_id _ lsn s.applied_batches other ∙ sound lsn)
  advanced-Linked_ne g h b s s' other p (some row) e sound =
      rw (applied_batches_grow c h b s s' p)
        (walk-append_ne g h b.batch_id _ row.snapshot_lsn s.applied_batches other ∙ sound)

  advanced-Linked :
      (g h : String) (b : CdcBatch) (s s' : Engine)
      → Applies c h b s s'
      → LinkedAt g s
      → LinkedAt g s'
  advanced-Linked g h b s s' p sound = elim (Bool-cases (h == g)) [
    | inl e ↦
        let q : h ≡ g = (text_key.equals_iff h g).0 e in
        advanced-Linked_self g b s s' (subst (λ k. Applies c k b s s') q p) sound
    | inr e ↦
        let other : h ≢ g = ground (arith, text_key.equals_iff h g, e) in
        rw (find-generations_ne c h b s s' p g other)
          (advanced-Linked_ne g h b s s' other p (find g s.generations) refl sound)
  ]

  abbrev ActiveAt : String → Engine → Type 0
  ActiveAt g s =
      (row : Generation) × (find g s.generations ≡ some row) × (is_ready row.status ≡ true)

  created-ActiveAt :
      (g h : String) (row : Generation) (s : Engine)
      → find h s.generations ≡ none
      → ActiveAt g s
      → ActiveAt g (record s { generations = s.generations ++ (h, row) ∷ [] })
  created-ActiveAt g h row s free (r, found, is) =
      (r, ground (arith, find-append h g row s.generations free, text_key.equals_iff h g), is)

  promoted-ActiveAt :
      (g h : String) (row : Generation) (status : Status) (s s' : Engine)
      → find h s.generations ≡ some row
      → is_ready row.status ≡ false
      → s'.generations ≡ update h (set_status status) s.generations
      → ActiveAt g s
      → ActiveAt g s'
  promoted-ActiveAt g h row status s s' here unready gs (r, found, is) = (
    r,
    ground (
      arith,
      find-update h g (set_status status) s.generations,
      text_key.equals_iff h g,
      ap (find g) gs,
    ),
    is,
  )

  advanced-ActiveAt :
      (g h : String) (b : CdcBatch) (s s' : Engine)
      → Applies c h b s s'
      → ActiveAt g s
      → ActiveAt g s'
  advanced-ActiveAt g h b s s' p (r, found, is) = elim (Bool-cases (h == g)) [
    | inl e ↦ (
      record p.generation { current_lsn = b.end_lsn_inclusive },
      ground (arith, find-generations_self c h b s s' p, text_key.equals_iff h g),
      ground (arith, p.was, text_key.equals_iff h g),
    )
    | inr e ↦ (r, ground (arith, find-generations_ne c h b s s' p g, text_key.equals_iff h g), is)
  ]

  -- Each abstract step keeps the invariant.
  Change-IsSound : (s s' : Engine) → Change c s s' → IsSound s → IsSound s'
  Change-IsSound s s' (same e) sound = rw e sound
  Change-IsSound s s' (created h row free start e) sound = rw e (record {
    linked = λ g. created-Linked g h row s free start (sound.linked g);
    active = λ g on. created-ActiveAt g h row s free (sound.active g on);
  })
  Change-IsSound s s' (promoted h row status found unready accepts gs bs ptr) sound = record {
    linked = λ g. rw (gs, bs) (promoted-Linked g h status s (sound.linked g));
    active = λ g on.
        promoted-ActiveAt g h row status s s' found unready gs (sound.active g (ground arith));
  }
  Change-IsSound s s' (advanced h b p) sound = record {
    linked = λ g. advanced-Linked g h b s s' p (sound.linked g);
    active = λ g on.
        advanced-ActiveAt g h b s s' p
          (sound.active g (ground (arith, active_pointer_same c h b s s' p)));
  }
  Change-IsSound s s' (activated h row found is e) sound =
      rw e (record { linked = sound.linked; active = λ g on. (row, ground arith, is) })

  run_all-IsSound : (calls : List Call) (s : Engine) → IsSound s → IsSound (run_all c calls s)
  unfolding run_all
  run_all-IsSound [] s sound = sound
  run_all-IsSound (call ∷ calls) s sound =
      run_all-IsSound calls (run c call s)
        (Change-IsSound s (run c call s) (run-Change c call s) sound)

empty-IsSound : IsSound empty
unfolding walk find
empty-IsSound = record { linked = λ g lsn. refl; active = λ g on. absurd (cc on) }

-- After any calls of the engine's methods on a new database, whether they return or raise: the
-- batches recorded for a generation, in the order in which they were applied, each begin where the
-- one before ended and lead without a gap from its snapshot LSN to its current LSN; a generation
-- that does not exist has no batch.
pub frontier_chain :
    (c : Codec) (calls : List Call) (g : String)
    → Linked (find g (run_all c calls empty).generations) g (run_all c calls empty).applied_batches
frontier_chain c calls g = (run_all-IsSound c calls empty empty-IsSound).linked g

-- After any calls on a new database, an active generation exists and is ready.
pub active_is_ready :
    (c : Codec) (calls : List Call) (g : String)
    → (run_all c calls empty).active_pointer.generation_id ≡ some g
    → (row : Generation) × (find g (run_all c calls empty).generations ≡ some row)
      × (is_ready row.status ≡ true)
active_is_ready c calls = (run_all-IsSound c calls empty empty-IsSound).active
