-- ===== src/Engine/Atomicity.antt =====
-- A method of the engine that raises has changed nothing.
use changebridge_cdc_migrati.Base.{
  ℕ, String, Bool, true, false, Option, none, some, ◌≡◌, inl, inr, arith,
}
use changebridge_cdc_migrati.Base.Tests.{Option-cases}
use changebridge_cdc_migrati.Base.Key.{text_key, pair_key}
use changebridge_cdc_migrati.Base.Int.{ℤ}
use changebridge_cdc_migrati.Base.Table.{find}
use changebridge_cdc_migrati.Base.Exec.{done, raised}
use changebridge_cdc_migrati.Json.{Codec}
use changebridge_cdc_migrati.Model.{CdcBatch}
use changebridge_cdc_migrati.Engine.{
  Engine, Error, Tables, Generation, AppliedBatch, injected_crash, get_generation,
  create_generation, load_snapshot, mark_ready, swap_pointer, activate,
}
use changebridge_cdc_migrati.Engine.Batch.{
  applied, close_batch, apply_new, apply_or_replay, apply_batch,
}

module _ (c : Codec) (g : String) where
  apply_new_atomic :
      (b : CdcBatch) (fail : Bool) (generation : Generation) (s s' : Engine) (e : Error)
      → apply_new c g b fail generation s ≡ raised e s'
      → s' ≡ s
  unfolding apply_new
  apply_new_atomic b fail generation s s' e h = ground arith

  apply_or_replay_atomic :
      (b : CdcBatch) (fail : Bool) (generation : Generation) (prior : Option AppliedBatch)
      (s s' : Engine) (e : Error)
      → apply_or_replay c g b fail generation prior s ≡ raised e s'
      → s' ≡ s
  unfolding apply_or_replay
  apply_or_replay_atomic b fail generation (some prior) s s' e h = ground arith
  apply_or_replay_atomic b fail generation none s s' e h =
      apply_new_atomic b fail generation s s' e h

-- Whatever `apply_batch` raises, an injected crash before the commit included, the store is as it
-- was: no row, no ledger entry and no frontier of the failed batch is left.
pub apply_batch_atomic :
    (c : Codec) (g : String) (b : CdcBatch) (fail : Bool) (s s' : Engine) (e : Error)
    → apply_batch c g b fail s ≡ raised e s'
    → s' ≡ s
unfolding apply_batch get_generation
apply_batch_atomic c g b fail s s' e h = elim (Option-cases (find g s.generations)) [
  | inl missing ↦ ground arith
  | inr (generation, found) ↦ ground (
    arith,
    found,
    apply_or_replay_atomic c g b fail generation (find (g, b.batch_id) s.applied_batches) s s' e,
  )
]

-- `load_snapshot` is all or nothing as well.
pub load_snapshot_atomic :
    (c : Codec) (g : String) (tables : Tables) (s s' : Engine) (e : Error)
    → load_snapshot c g tables s ≡ raised e s'
    → s' ≡ s
unfolding load_snapshot get_generation
load_snapshot_atomic c g tables s s' e h = elim (Option-cases (find g s.generations)) [
  | inl missing ↦ ground arith
  | inr (generation, found) ↦ ground arith
]

pub create_generation_atomic :
    (g : String) (lsn : ℤ) (version now : String) (s s' : Engine) (e : Error)
    → create_generation g lsn version now s ≡ raised e s'
    → s' ≡ s
unfolding create_generation
create_generation_atomic g lsn version now s s' e h = ground arith

pub mark_ready_atomic :
    (g : String) (s s' : Engine) (e : Error) → mark_ready g s ≡ raised e s' → s' ≡ s
unfolding mark_ready get_generation
mark_ready_atomic g s s' e h = ground arith

pub activate_atomic :
    (g : String) (v : ℕ) (s s' : Engine) (e : Error) → activate g v s ≡ raised e s' → s' ≡ s
unfolding activate get_generation swap_pointer
activate_atomic g v s s' e h = ground arith

-- A crash before the commit raises where the batch would have been applied, and leaves the store
-- as it was: the frontier does not move.
pub apply_batch_crash :
    (c : Codec) (g : String) (b : CdcBatch) (s s' : Engine)
    → apply_batch c g b false s ≡ done applied s'
    → apply_batch c g b true s ≡ raised injected_crash s
unfolding apply_batch apply_or_replay apply_new close_batch get_generation
apply_batch_crash c g b s s' h = elim (Option-cases (find g s.generations)) [
  | inl missing ↦ absurd (ground arith)
  | inr (generation, found) ↦ elim (Option-cases (find (g, b.batch_id) s.applied_batches)) [
    | inl fresh ↦ ground arith
    | inr (prior, old) ↦ absurd (ground arith)
  ]
]
