-- ===== src/Engine/Replay.antt =====
-- A batch that was applied is never applied again.
use changebridge_cdc_migrati.Base.{
  String, Bool, true, some, List, [], ◌∷◌, ◌≡◌, ◌≢◌, refl, ap, inl, inr, arith,
}
use changebridge_cdc_migrati.Base.Tests.{Bool-cases}
use changebridge_cdc_migrati.Base.Key.{◌==◌, text_key, pair_key, ==_refl}
use changebridge_cdc_migrati.Base.Table.{find, find-append, find-update}
use changebridge_cdc_migrati.Base.Exec.{done, raised}
use changebridge_cdc_migrati.Json.{Codec}
use changebridge_cdc_migrati.Json.Canonical.{digest}
use changebridge_cdc_migrati.Model.{CdcBatch, batch_as_dict}
use changebridge_cdc_migrati.Engine.{
  Engine, Generation, AppliedBatch, set_status, replay_conflict, get_generation,
}
use changebridge_cdc_migrati.Engine.Batch.{
  applied, replayed, accepts_cdc, apply_or_replay, apply_batch,
}
use changebridge_cdc_migrati.Engine.Inversion.{Applies, apply_batch-cases}
use changebridge_cdc_migrati.Engine.Frontier.{
  find-generations_self, find-generations_ne, applied_batches_grow,
}
use changebridge_cdc_migrati.Engine.Change.{
  Call, run, run_all, Change, same, created, promoted, advanced, activated, run-Change,
}

-- The batch with this id is in the ledger with this digest, and its generation takes CDC.
pub record Recorded (g id sha : String) (s : Engine) : Type 0 where
  pub generation : Generation
  pub found : find g s.generations ≡ some generation
  pub accepts : accepts_cdc generation.status ≡ true
  pub prior : AppliedBatch
  pub in_ledger : find (g, id) s.applied_batches ≡ some prior
  pub same_digest : prior.payload_digest ≡ sha

still_in_ledger :
    (c : Codec) (g id h : String) (b : CdcBatch) (s s' : Engine)
    → Applies c h b s s'
    → (prior : AppliedBatch) → find (g, id) s.applied_batches ≡ some prior
    → find (g, id) s'.applied_batches ≡ some prior
still_in_ledger c g id h b s s' p prior found = rw (applied_batches_grow c h b s s' p) (
    rw (find-append (h, b.batch_id) (g, id) _ s.applied_batches p.fresh)
      (ground (arith, text_key.equals_iff h g, text_key.equals_iff b.batch_id id, p.fresh)))

module _ (c : Codec) (g id sha : String) where
  Change-Recorded : (s s' : Engine) → Change c s s' → Recorded g id sha s → Recorded g id sha s'
  Change-Recorded s s' (same e) r = rw e r
  Change-Recorded s s' (created h row free start e) r = rw e (record {
    generation = r.generation;
    found =
        ground (arith, r.found, find-append h g row s.generations free, text_key.equals_iff h g);
    accepts = r.accepts;
    prior = r.prior;
    in_ledger = r.in_ledger;
    same_digest = r.same_digest;
  })
  Change-Recorded s s' (promoted h row status here unready accepts gs bs ptr) r =
      elim (Bool-cases (h == g)) [
        | inl e ↦ record {
          generation = set_status status r.generation;
          found = rw (gs, find-update h g (set_status status) s.generations, e, r.found) refl;
          accepts = accepts;
          prior = r.prior;
          in_ledger = rw bs r.in_ledger;
          same_digest = r.same_digest;
        }
        | inr e ↦ record {
          generation = r.generation;
          found = rw (gs, find-update h g (set_status status) s.generations, e) r.found;
          accepts = r.accepts;
          prior = r.prior;
          in_ledger = rw bs r.in_ledger;
          same_digest = r.same_digest;
        }
      ]
  Change-Recorded s s' (advanced h b p) r = elim (Bool-cases (h == g)) [
    | inl e ↦ record {
      generation = record p.generation { current_lsn = b.end_lsn_inclusive };
      found = ground (arith, find-generations_self c h b s s' p, text_key.equals_iff h g);
      accepts = p.accepts;
      prior = r.prior;
      in_ledger = still_in_ledger c g id h b s s' p r.prior r.in_ledger;
      same_digest = r.same_digest;
    }
    | inr e ↦ record {
      generation = r.generation;
      found = ground (arith, find-generations_ne c h b s s' p g, text_key.equals_iff h g);
      accepts = r.accepts;
      prior = r.prior;
      in_ledger = still_in_ledger c g id h b s s' p r.prior r.in_ledger;
      same_digest = r.same_digest;
    }
  ]
  Change-Recorded s s' (activated h row found is e) r = rw e (record {
    generation = r.generation;
    found = r.found;
    accepts = r.accepts;
    prior = r.prior;
    in_ledger = r.in_ledger;
    same_digest = r.same_digest;
  })

  run_all-Recorded :
      (calls : List Call) (s : Engine) → Recorded g id sha s → Recorded g id sha (run_all c calls s)
  unfolding run_all
  run_all-Recorded [] s r = r
  run_all-Recorded (call ∷ calls) s r =
      run_all-Recorded calls (run c call s)
        (Change-Recorded s (run c call s) (run-Change c call s) r)

module _ (c : Codec) (g : String) (b : CdcBatch) (fail : Bool) where
  replay_of :
      (s : Engine)
      → Recorded g b.batch_id (digest c (batch_as_dict b)) s
      → apply_batch c g b fail s ≡ done replayed s
  unfolding apply_batch apply_or_replay get_generation
  replay_of s r = ground (
    arith,
    r.found,
    r.accepts,
    r.in_ledger,
    text_key.equals_iff r.prior.payload_digest (digest c (batch_as_dict b)),
  )

  Applies-Recorded :
      (s s' : Engine) → Applies c g b s s' → Recorded g b.batch_id (digest c (batch_as_dict b)) s'
  Applies-Recorded s s' p = record {
    generation = record p.generation { current_lsn = b.end_lsn_inclusive };
    found = find-generations_self c g b s s' p;
    accepts = p.accepts;
    prior = record {
      payload_digest = digest c (batch_as_dict b);
      start_lsn = b.start_lsn_exclusive;
      end_lsn = b.end_lsn_inclusive;
    };
    in_ledger = rw (applied_batches_grow c g b s s' p) (
        rw (find-append (g, b.batch_id) (g, b.batch_id) _ s.applied_batches p.fresh)
          (rw (==_refl g, ==_refl b.batch_id)));
    same_digest = refl;
  }

-- After a batch was applied to a generation, and after any calls that follow, applying the same
-- batch again returns "replayed" and changes nothing.
pub apply_batch_replayed :
    (c : Codec) (g : String) (b : CdcBatch) (fail : Bool) (s s' : Engine)
    → apply_batch c g b fail s ≡ done applied s'
    → (calls : List Call) (again : Bool)
    → apply_batch c g b again (run_all c calls s') ≡ done replayed (run_all c calls s')
apply_batch_replayed c g b fail s s' h calls again =
    elim (apply_batch-cases c g b fail s s' applied h) [
      | inl (_, _, p) ↦ replay_of c g b again (run_all c calls s') (
          run_all-Recorded c g b.batch_id (digest c (batch_as_dict b)) calls s'
            (Applies-Recorded c g b fail s s' p))
      | inr (e, _) ↦ absurd (cc e)
    ]

module _ (c : Codec) (g : String) (b b' : CdcBatch) where
  conflict_of :
      (fail : Bool) (s : Engine)
      → Recorded g b.batch_id (digest c (batch_as_dict b)) s
      → b'.batch_id ≡ b.batch_id
      → digest c (batch_as_dict b') ≢ digest c (batch_as_dict b)
      → apply_batch c g b' fail s ≡ raised replay_conflict s
  unfolding apply_batch apply_or_replay get_generation
  conflict_of fail s r same_id differs = ground (
    arith,
    r.found,
    r.accepts,
    r.in_ledger,
    r.same_digest,
    ap (λ (id : String). find (g, id) s.applied_batches) same_id,
    text_key.equals_iff r.prior.payload_digest (digest c (batch_as_dict b')),
  )

-- After a batch was applied, and after any calls that follow, a batch with its id but another
-- digest raises a replay conflict and changes nothing.
pub apply_batch_conflict :
    (c : Codec) (g : String) (b b' : CdcBatch) (fail : Bool) (s s' : Engine)
    → apply_batch c g b fail s ≡ done applied s'
    → b'.batch_id ≡ b.batch_id
    → digest c (batch_as_dict b') ≢ digest c (batch_as_dict b)
    → (calls : List Call) (again : Bool)
    → apply_batch c g b' again (run_all c calls s') ≡ raised replay_conflict (run_all c calls s')
apply_batch_conflict c g b b' fail s s' h same_id differs calls again =
    elim (apply_batch-cases c g b fail s s' applied h) [
      | inl (_, _, p) ↦
          conflict_of c g b b' again (run_all c calls s')
            (run_all-Recorded c g b.batch_id (digest c (batch_as_dict b)) calls s'
              (Applies-Recorded c g b fail s s' p))
            same_id differs
      | inr (e, _) ↦ absurd (cc e)
    ]
