-- ===== src/Engine/Frontier.antt =====
-- What `apply_batch` does to the frontier of a generation, and to all that it leaves alone.
use changebridge_cdc_migrati.Base.{
  String, Bool, true, some, List, [], ◌∷◌, ◌++◌, ◌≡◌, ◌≢◌, inl, inr, arith,
}
use changebridge_cdc_migrati.Base.Int.{ℤ, ◌<ℤ◌, ◌≤ℤ◌}
use changebridge_cdc_migrati.Base.Tests.{All}
use changebridge_cdc_migrati.Base.Key.{text_key}
use changebridge_cdc_migrati.Base.Table.{find, update, find-update}
use changebridge_cdc_migrati.Base.Exec.{done}
use changebridge_cdc_migrati.Json.{Codec}
use changebridge_cdc_migrati.Json.Canonical.{digest}
use changebridge_cdc_migrati.Model.{CdcTransaction, CdcBatch, batch_as_dict}
use changebridge_cdc_migrati.Engine.{Engine, Generation}
use changebridge_cdc_migrati.Engine.Batch.{applied, in_order, advance, apply_batch}
use changebridge_cdc_migrati.Engine.Inversion.{
  Applies, apply_batch-cases, apply_transactions-SameControl,
}

module _ (c : Codec) (g : String) (b : CdcBatch) (s s' : Engine) (p : Applies c g b s s') where
  find-generations :
      (k : String)
      → find k s'.generations ≡ find k (update g (advance b.end_lsn_inclusive) s.generations)
  find-generations k = ground arith

  pub find-generations_self :
      find g s'.generations ≡ some (record p.generation { current_lsn = b.end_lsn_inclusive })
  find-generations_self = ground (
    arith,
    find-generations g,
    find-update g g (advance b.end_lsn_inclusive) s.generations,
    text_key.equals_iff g g,
    p.was,
  )

  pub find-generations_ne : (k : String) → g ≢ k → find k s'.generations ≡ find k s.generations
  find-generations_ne k h = ground (
    arith,
    find-generations k,
    find-update g k (advance b.end_lsn_inclusive) s.generations,
    text_key.equals_iff g k,
  )

  pub active_pointer_same : s'.active_pointer ≡ s.active_pointer
  active_pointer_same =
      ground (arith, apply_transactions-SameControl c g b.transactions s p.middle p.loop, p.final)

  pub applied_batches_grow :
      s'.applied_batches
      ≡ s.applied_batches
        ++ (
          (g, b.batch_id),
          record {
            payload_digest = digest c (batch_as_dict b);
            start_lsn = b.start_lsn_exclusive;
            end_lsn = b.end_lsn_inclusive;
          },
        )
          ∷ []
  applied_batches_grow = ground (arith, p.final)

-- The transactions commit after `previous`, one after the other.
pub data Increasing : ℤ → List CdcTransaction → Type 0 where
  none_left : (previous : ℤ) → Increasing previous []
  one_more :
      (previous : ℤ) (t : CdcTransaction) (ts : List CdcTransaction)
      → previous <ℤ t.commit_lsn
      → Increasing t.commit_lsn ts
      → Increasing previous (t ∷ ts)

in_order-Increasing :
    (start stop : ℤ) (ts : List CdcTransaction)
    → in_order start stop ts ≡ true
    → Increasing start ts
unfolding in_order
in_order-Increasing start stop [] e = none_left start
in_order-Increasing start stop (t ∷ ts) e =
    one_more start t ts (ground (arith, e))
      (in_order-Increasing t.commit_lsn stop ts (ground (arith, e)))

in_order-All :
    (start stop : ℤ) (ts : List CdcTransaction)
    → in_order start stop ts ≡ true
    → All (λ t. t.commit_lsn ≤ℤ stop) ts
unfolding in_order
in_order-All start stop [] e = tt
in_order-All start stop (t ∷ ts) e =
    (ground (arith, e), in_order-All t.commit_lsn stop ts (ground (arith, e)))

-- When `apply_batch` returns "applied", the batch began at the frontier of the generation, its
-- transactions commit one after the other, the first after the batch's start and all up to its end,
-- the frontier of that generation is now the batch's end and nothing else of the generation has
-- changed, the ledger of batches has gained exactly the batch with its digest and bounds, and every
-- other generation and the active pointer are as they were.
pub apply_batch_frontier :
    (c : Codec) (g : String) (b : CdcBatch) (fail : Bool) (s s' : Engine)
    → apply_batch c g b fail s ≡ done applied s'
    → (generation : Generation) × (find g s.generations ≡ some generation)
      × (b.start_lsn_exclusive ≡ generation.current_lsn)
      × Increasing b.start_lsn_exclusive b.transactions
      × All (λ t. t.commit_lsn ≤ℤ b.end_lsn_inclusive) b.transactions
      × (find g s'.generations ≡ some (record generation { current_lsn = b.end_lsn_inclusive }))
      × (s'.applied_batches
          ≡ s.applied_batches
            ++ (
              (g, b.batch_id),
              record {
                payload_digest = digest c (batch_as_dict b);
                start_lsn = b.start_lsn_exclusive;
                end_lsn = b.end_lsn_inclusive;
              },
            )
              ∷ [])
      × ((other : String) → g ≢ other → find other s'.generations ≡ find other s.generations)
      × (s'.active_pointer ≡ s.active_pointer)
apply_batch_frontier c g b fail s s' h = elim (apply_batch-cases c g b fail s s' applied h) [
  | inl (_, _, p) ↦ (
    p.generation,
    p.was,
    p.start,
    in_order-Increasing b.start_lsn_exclusive b.end_lsn_inclusive b.transactions p.ordered,
    in_order-All b.start_lsn_exclusive b.end_lsn_inclusive b.transactions p.ordered,
    find-generations_self c g b s s' p,
    applied_batches_grow c g b s s' p,
    find-generations_ne c g b s s' p,
    active_pointer_same c g b s s' p,
  )
  | inr (e, _) ↦ absurd (cc e)
]
