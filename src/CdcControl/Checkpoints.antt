-- ===== src/CdcControl/Checkpoints.antt =====
-- Checkpointing: what a finalization does, and that it is done once.
use changebridge_cdc_migrati.Base.{
  ℕ, ◌≤◌, String, true, some, List, [], ◌∷◌, ◌≡◌, ◌∙◌, refl, ap, inl, inr, arith,
}
use changebridge_cdc_migrati.Base.Tests.{if◌then◌else◌, Option-cases}
use changebridge_cdc_migrati.Base.Key.{◌==◌, text_key, pair_key, triple_key, pair_beq_iff}
use changebridge_cdc_migrati.Base.Table.{find, find-append, find-update}
use changebridge_cdc_migrati.Base.Exec.{done}
use changebridge_cdc_migrati.Json.{Codec}
use changebridge_cdc_migrati.CdcControl.{
  Store, Plan, Checkpoint, Transaction, State, applying, checkpointed,
}
use changebridge_cdc_migrati.CdcControl.Finalize.{
  Finalized, move_checkpoint, close_transaction, finalize_applying, finalize_as, finalize,
}
use changebridge_cdc_migrati.CdcControl.Change
use changebridge_cdc_migrati.CdcControl.Change.{
  Call, run, run_all, Finalizes, run-Change, applying-cases,
}
use changebridge_cdc_migrati.CdcControl.Finalized.{
  applying_done, Finalizes-found, applying-Finalizes,
}

-- The store holds this transaction as checkpointed, and a checkpoint of its generation at least at
-- this revision.
record Settled (g id : String) (t : Transaction) (n : ℕ) (s : Store) : Type 0 where
  found : find (g, id) s.cdc_transactions ≡ some t
  closed : t.state ≡ checkpointed
  checkpoint : Checkpoint
  here : find g s.cdc_checkpoints ≡ some checkpoint
  reached : n ≤ checkpoint.revision

state-Settled :
    (c : Codec) (p : Plan) (n : ℕ) (f : Finalized) (s s' : Store) (t : Transaction) (state : State)
    → find (p.generation_id, p.transaction_id) s.cdc_transactions ≡ some t
    → t.state ≡ state
    → finalize c p n s ≡ done f s'
    → Settled p.generation_id p.transaction_id f.transaction f.checkpoint.revision s'
unfolding finalize finalize_as
state-Settled c p n f s s' t applying found was h =
    let ran : finalize_applying c p n s ≡ done f s' = ground (arith, found, was) in
    let m = applying-Finalizes c p n t f s s' found was ran in
    let (transaction, checkpoint) = applying_done c p n f s s' ran in
    record {
      found = transaction;
      closed = ground (arith, transaction, (Finalizes-found p n s s' m).0);
      checkpoint = f.checkpoint;
      here = checkpoint;
      reached = ground arith;
    }
state-Settled c p n f s s' t checkpointed found was h = record {
  found = ground (arith, found, was);
  closed = ground (arith, found, was);
  checkpoint = f.checkpoint;
  here = ground (arith, found, was);
  reached = ground arith;
}

finalize-Settled :
    (c : Codec) (p : Plan) (n : ℕ) (f : Finalized) (s s' : Store)
    → finalize c p n s ≡ done f s'
    → Settled p.generation_id p.transaction_id f.transaction f.checkpoint.revision s'
finalize-Settled c p n f s s' h =
    elim (Option-cases (find (p.generation_id, p.transaction_id) s.cdc_transactions)) [
      | inl missing ↦ absurd (unfold finalize in ground arith)
      | inr (t, found) ↦ state-Settled c p n f s s' t t.state found refl h
    ]

Change-Settled :
    (s s' : Store) (g id : String) (t : Transaction) (n : ℕ)
    → Change.Change s s'
    → Settled g id t n s
    → Settled g id t n s'
Change-Settled s s' g id t n (Change.quiet checkpoints transactions) m = record {
  found = ap (find (g, id)) transactions ∙ m.found;
  closed = m.closed;
  checkpoint = m.checkpoint;
  here = ap (find g) checkpoints ∙ m.here;
  reached = m.reached;
}
Change-Settled s s' g id t n (Change.opened h row free at e) m = record {
  found = ap (λ u. find (g, id) u.cdc_transactions) e ∙ m.found;
  closed = m.closed;
  checkpoint = m.checkpoint;
  here = ground (
    arith,
    m.here,
    ap (λ u. find g u.cdc_checkpoints) e,
    text_key.equals_iff h g,
    find-append h g row s.cdc_checkpoints free,
  );
  reached = m.reached;
}
Change-Settled s s' g id t n (Change.claimed k row free is e) m = record {
  found = ground (
    arith,
    m.found,
    ap (λ u. find (g, id) u.cdc_transactions) e,
    pair_beq_iff k (g, id),
    find-append k (g, id) row s.cdc_transactions free,
  );
  closed = m.closed;
  checkpoint = m.checkpoint;
  here = ap (λ u. find g u.cdc_checkpoints) e ∙ m.here;
  reached = m.reached;
}
Change-Settled s s' g id t n (Change.finalized p k w) m = record {
  found = ground (
    arith,
    m.found,
    m.closed,
    ap (λ u. find (g, id) u.cdc_transactions) w.wrote,
    find-update (p.generation_id, p.transaction_id) (g, id) (close_transaction w.outcome)
        s.cdc_transactions,
  );
  closed = m.closed;
  checkpoint = if p.generation_id == g then move_checkpoint p m.checkpoint else m.checkpoint;
  here = ground (
    arith,
    m.here,
    ap (λ u. find g u.cdc_checkpoints) w.wrote,
    find-update p.generation_id g (move_checkpoint p) s.cdc_checkpoints,
  );
  reached = ground (arith, m.reached);
}

run_all-Settled :
    (c : Codec) (calls : List Call) (s : Store) (g id : String) (t : Transaction) (n : ℕ)
    → Settled g id t n s
    → Settled g id t n (run_all c calls s)
unfolding run_all
run_all-Settled c [] s g id t n m = m
run_all-Settled c (call ∷ calls) s g id t n m =
    run_all-Settled c calls (run c call s) g id t n
      (Change-Settled s (run c call s) g id t n (run-Change s c call) m)

-- Once a finalization has returned, any finalization of the same transaction answers as idempotent
-- and changes nothing, whatever calls come between, the plan's other fields and the expected
-- revision; it returns the same transaction, and a checkpoint at the same revision or a later one.
pub finalize_once :
    (c : Codec) (p : Plan) (n : ℕ) (f : Finalized) (s s' : Store)
    → finalize c p n s ≡ done f s'
    → (calls : List Call) (again : Plan) (m : ℕ) → again.generation_id ≡ p.generation_id
    → again.transaction_id ≡ p.transaction_id
    → (answer : Finalized) × (finalize c again m (run_all c calls s')
        ≡ done answer (run_all c calls s'))
      × (answer.idempotent ≡ true)
      × (answer.transaction ≡ f.transaction)
      × (f.checkpoint.revision ≤ answer.checkpoint.revision)
unfolding finalize finalize_as
finalize_once c p n f s s' h calls again m same_generation same_transaction =
    let w =
      run_all-Settled c calls s' p.generation_id p.transaction_id f.transaction
        f.checkpoint.revision (finalize-Settled c p n f s s' h) in
    (
      record { transaction = f.transaction; checkpoint = w.checkpoint; idempotent = true },
      rw (same_generation, same_transaction) (ground (arith, w.found, w.closed, w.here)),
      refl,
      refl,
      w.reached,
    )
