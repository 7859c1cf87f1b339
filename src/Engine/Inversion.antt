-- ===== src/Engine/Inversion.antt =====
-- A call of `apply_batch` that returned, taken apart.
use changebridge_cdc_migrati.Base.{
  String, Bool, true, false, Option, none, some, List, [], ◌∷◌, ◌++◌, ◌≡◌, ◌⊎◌, inl, inr, arith,
}
use changebridge_cdc_migrati.Base.Tests.{Option-cases}
use changebridge_cdc_migrati.Base.Key.{text_key, pair_key}
use changebridge_cdc_migrati.Base.Int.{eqb_ℤ_iff}
use changebridge_cdc_migrati.Base.Table.{find, insert, update}
use changebridge_cdc_migrati.Base.Exec.{done, >>=-eq-done, Outcome-cases}
use changebridge_cdc_migrati.Json.{Codec}
use changebridge_cdc_migrati.Json.Canonical.{digest}
use changebridge_cdc_migrati.Model.{CdcTransaction, CdcBatch, batch_as_dict}
use changebridge_cdc_migrati.Engine.{
  Engine, Generation, AppliedTransaction, AppliedBatch, get_generation,
}
use changebridge_cdc_migrati.Engine.Batch.{
  Applied, applied, replayed, accepts_cdc, in_order, apply_fresh, apply_or_skip, apply_transactions,
  advance, close_batch, apply_new, apply_or_replay, apply_batch,
}

-- The loop over transactions writes rows and the ledger of transactions, and nothing else.
pub record SameControl (s s' : Engine) : Type 0 where
  pub generations : s'.generations ≡ s.generations
  pub applied_batches : s'.applied_batches ≡ s.applied_batches
  pub active_pointer : s'.active_pointer ≡ s.active_pointer

module _ (c : Codec) (g : String) where
  apply_or_skip-SameControl :
      (t : CdcTransaction) (prior : Option AppliedTransaction) (s s' : Engine)
      → apply_or_skip c g t prior s ≡ done tt s'
      → SameControl s s'
  unfolding apply_or_skip apply_fresh
  apply_or_skip-SameControl t (some prior) s s' h = ground arith
  apply_or_skip-SameControl t none s s' h = ground arith

  pub apply_transactions-SameControl :
      (ts : List CdcTransaction) (s s' : Engine)
      → apply_transactions c g ts s ≡ done tt s'
      → SameControl s s'
  unfolding apply_transactions
  apply_transactions-SameControl [] s s' h = ground arith
  apply_transactions-SameControl (t ∷ ts) s s' h =
      let (_, u, first, rest) =
        >>=-eq-done (apply_or_skip c g t (find (g, t.transaction_id) s.applied_transactions))
          (λ _. apply_transactions c g ts) s h in
      ground (
        arith,
        apply_or_skip-SameControl t _ s u first,
        apply_transactions-SameControl ts u s' rest,
      )

-- A call of `apply_batch` that applied the batch, taken apart.
pub record Applies (c : Codec) (g : String) (b : CdcBatch) (s s' : Engine) : Type 0 where
  pub generation : Generation
  pub middle : Engine
  pub was : find g s.generations ≡ some generation
  pub accepts : accepts_cdc generation.status ≡ true
  pub fresh : find (g, b.batch_id) s.applied_batches ≡ none
  pub start : b.start_lsn_exclusive ≡ generation.current_lsn
  pub ordered : in_order b.start_lsn_exclusive b.end_lsn_inclusive b.transactions ≡ true
  pub loop : apply_transactions c g b.transactions s ≡ done tt middle
  pub final : s' ≡ record middle {
    applied_batches =
        s.applied_batches
        ++ (
          (g, b.batch_id),
          record {
            payload_digest = digest c (batch_as_dict b);
            start_lsn = b.start_lsn_exclusive;
            end_lsn = b.end_lsn_inclusive;
          },
        )
          ∷ [];
    generations = update g (advance b.end_lsn_inclusive) s.generations;
  }

module _ (c : Codec) (g : String) (b : CdcBatch) (fail : Bool) where
  close_batch_done :
      (s s' : Engine) (r : Applied)
      → close_batch c g b fail s ≡ done r s'
      → (fail ≡ false)
        × (r ≡ applied)
        × (s' ≡ record s {
          applied_batches =
              s.applied_batches
              ++ (
                (g, b.batch_id),
                record {
                  payload_digest = digest c (batch_as_dict b);
                  start_lsn = b.start_lsn_exclusive;
                  end_lsn = b.end_lsn_inclusive;
                },
              )
                ∷ [];
          generations = update g (advance b.end_lsn_inclusive) s.generations;
        })
  unfolding close_batch insert
  close_batch_done s s' r h = ground arith

  apply_new_done :
      (generation : Generation) (s s' : Engine) (r : Applied)
      → apply_new c g b fail generation s ≡ done r s'
      → (b.start_lsn_exclusive ≡ generation.current_lsn)
        × (in_order b.start_lsn_exclusive b.end_lsn_inclusive b.transactions ≡ true)
        × (m : Engine) × (apply_transactions c g b.transactions s ≡ done tt m)
        × (close_batch c g b fail m ≡ done r s')
  unfolding apply_new
  apply_new_done generation s s' r h =
      elim (Outcome-cases (apply_transactions c g b.transactions s)) [
        | inl (_, m, ran) ↦ (
          ground (arith, eqb_ℤ_iff b.start_lsn_exclusive generation.current_lsn),
          ground arith,
          m,
          ran,
          ground arith,
        )
        | inr (e, m, ran) ↦ absurd (ground arith)
      ]

  apply_batch_done :
      (s s' : Engine) (r : Applied)
      → apply_batch c g b fail s ≡ done r s'
      → (generation : Generation) × (find g s.generations ≡ some generation)
        × (accepts_cdc generation.status ≡ true)
        × (apply_or_replay c g b fail generation (find (g, b.batch_id) s.applied_batches) s
            ≡ done r s')
  unfolding apply_batch get_generation
  apply_batch_done s s' r h = elim (Option-cases (find g s.generations)) [
    | inl missing ↦ ground arith
    | inr (generation, found) ↦ (generation, found, ground arith, ground arith)
  ]

  apply_new-Applies :
      (generation : Generation) (s s' : Engine) (r : Applied)
      → find g s.generations ≡ some generation
      → accepts_cdc generation.status ≡ true
      → find (g, b.batch_id) s.applied_batches ≡ none
      → apply_new c g b fail generation s ≡ done r s'
      → (r ≡ applied) × (fail ≡ false) × Applies c g b s s'
  apply_new-Applies generation s s' r was accepts fresh h =
      let (start, ordered, m, loop, closed) = apply_new_done generation s s' r h in
      let frame = apply_transactions-SameControl c g b.transactions s m loop in
      let (alive, result, final) = close_batch_done m s' r closed in
      (
        result,
        alive,
        record {
          generation = generation;
          middle = m;
          was = was;
          accepts = accepts;
          fresh = fresh;
          start = start;
          ordered = ordered;
          loop = loop;
          final = ground arith;
        },
      )

  -- A call that found the batch in the ledger and returned.
  pub record Replays (s s' : Engine) : Type 0 where
    pub prior : AppliedBatch
    pub found : find (g, b.batch_id) s.applied_batches ≡ some prior
    pub same_digest : prior.payload_digest ≡ digest c (batch_as_dict b)
    pub unchanged : s' ≡ s

  replay_done :
      (generation : Generation) (prior : AppliedBatch) (s s' : Engine) (r : Applied)
      → apply_or_replay c g b fail generation (some prior) s ≡ done r s'
      → (r ≡ replayed) × (prior.payload_digest ≡ digest c (batch_as_dict b)) × (s' ≡ s)
  unfolding apply_or_replay
  replay_done generation prior s s' r h =
      ground (arith, text_key.equals_iff prior.payload_digest (digest c (batch_as_dict b)))

  pub apply_batch-cases :
      (s s' : Engine) (r : Applied)
      → apply_batch c g b fail s ≡ done r s'
      → ((r ≡ applied) × (fail ≡ false) × Applies c g b s s') ⊎ ((r ≡ replayed) × Replays s s')
  unfolding apply_or_replay
  apply_batch-cases s s' r h =
      let (generation, was, accepts, h1) = apply_batch_done s s' r h in
      elim (Option-cases (find (g, b.batch_id) s.applied_batches)) [
        | inl fresh ↦ inl (apply_new-Applies generation s s' r was accepts fresh (rw fresh at h1))
        | inr (prior, found) ↦
            let (result, same, unchanged) = replay_done generation prior s s' r (rw found at h1) in
            inr (
              result,
              record { prior = prior; found = found; same_digest = same; unchanged = unchanged },
            )
      ]
