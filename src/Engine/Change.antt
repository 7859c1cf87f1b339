-- ===== src/Engine/Change.antt =====
-- The abstract steps of the engine's control state, and every method as one of them.
use changebridge_cdc_migrati.Base.{
  ℕ, ◌+◌, String, Bool, true, false, none, some, List, [], ◌∷◌, ◌++◌, ◌≡◌, inl, inr, arith, refl,
}
use changebridge_cdc_migrati.Base.Tests.{Option-cases}
use changebridge_cdc_migrati.Base.Key.{text_key, pair_key, triple_key}
use changebridge_cdc_migrati.Base.Int.{ℤ}
use changebridge_cdc_migrati.Base.Table.{find, insert, update}
use changebridge_cdc_migrati.Base.Exec.{Outcome, done, raised, after, Outcome-cases, >>=-eq-done}
use changebridge_cdc_migrati.Json.{Json, Codec}
use changebridge_cdc_migrati.Model.{CdcBatch}
use changebridge_cdc_migrati.Engine
use changebridge_cdc_migrati.Engine.Batch
use changebridge_cdc_migrati.Base.Sort.{sort}
use changebridge_cdc_migrati.Engine.{
  Engine, Error, Tables, Generation, Row, Status, is_ready, set_status, loading, candidate, ready,
  by_name, snapshot_row, get_generation, load_rows, load_tables, has_records, swap_pointer,
}
use changebridge_cdc_migrati.Engine.Batch.{Applied, accepts_cdc}
use changebridge_cdc_migrati.Engine.Inversion.{SameControl, Applies, apply_batch-cases}
use changebridge_cdc_migrati.Engine.Atomicity.{
  apply_batch_atomic, load_snapshot_atomic, create_generation_atomic, mark_ready_atomic,
  activate_atomic,
}

-- the writing methods, with their arguments
pub data Call : Type 0 where
  create_generation : String → ℤ → String → String → Call
  load_snapshot : String → Tables → Call
  apply_batch : String → CdcBatch → Bool → Call
  mark_ready : String → Call
  activate : String → ℕ → Call

-- The store after a call, which returned or raised.
unfoldable pub run : Codec → Call → Engine → Engine
run c (Call.create_generation g lsn version now) s =
    after (Engine.create_generation g lsn version now s)
run c (Call.load_snapshot g tables) s = after (Engine.load_snapshot c g tables s)
run c (Call.apply_batch g b fail) s = after (Batch.apply_batch c g b fail s)
run c (Call.mark_ready g) s = after (Engine.mark_ready g s)
run c (Call.activate g v) s = after (Engine.activate g v s)

unfoldable pub run_all : Codec → List Call → Engine → Engine
run_all c [] s = s
run_all c (call ∷ calls) s = run_all c calls (run c call s)

-- What a call may do to the generations, the ledger of batches and the active pointer.
pub data Change (c : Codec) (s s' : Engine) : Type 0 where
  same : s' ≡ s → Change c s s'
  created :
      (g : String) (row : Generation)
      → find g s.generations ≡ none
      → row.current_lsn ≡ row.snapshot_lsn
      → s' ≡ record s { generations = s.generations ++ (g, row) ∷ [] }
      → Change c s s'
  promoted :
      (g : String) (row : Generation) (status : Status)
      → find g s.generations ≡ some row
      → is_ready row.status ≡ false
      → accepts_cdc status ≡ true
      → s'.generations ≡ update g (set_status status) s.generations
      → s'.applied_batches ≡ s.applied_batches
      → s'.active_pointer ≡ s.active_pointer
      → Change c s s'
  advanced : (g : String) (b : CdcBatch) → Applies c g b s s' → Change c s s'
  activated :
      (g : String) (row : Generation)
      → find g s.generations ≡ some row
      → is_ready row.status ≡ true
      → s' ≡ record s {
        active_pointer = record {
          generation_id = some g;
          pointer_version = s.active_pointer.pointer_version + 1;
        };
      }
      → Change c s s'

module _ (c : Codec) where
  load_rows-SameControl :
      (g : String) (lsn : ℤ) (table : String) (rows : List (String × Json)) (s s' : Engine)
      → load_rows c g lsn table rows s ≡ done tt s'
      → SameControl s s'
  unfolding load_rows
  load_rows-SameControl g lsn table [] s s' h = ground arith
  load_rows-SameControl g lsn table ((key, payload) ∷ rows) s s' h =
      elim (Option-cases (insert (g, table, key) (snapshot_row c lsn payload) s.records)) [
        | inl taken ↦ absurd (ground arith)
        | inr (t, inserted) ↦
            ground (arith, load_rows-SameControl g lsn table rows (record s { records = t }) s')
      ]

  load_tables-SameControl :
      (g : String) (lsn : ℤ) (tables : Tables) (s s' : Engine)
      → load_tables c g lsn tables s ≡ done tt s'
      → SameControl s s'
  unfolding load_tables
  load_tables-SameControl g lsn [] s s' h = ground arith
  load_tables-SameControl g lsn ((table, rows) ∷ tables) s s' h =
      let (_, u, first, rest) =
        >>=-eq-done (load_rows c g lsn table (sort by_name rows)) (λ _. load_tables c g lsn tables)
          s h in
      ground (
        arith,
        load_rows-SameControl g lsn table (sort by_name rows) s u first,
        load_tables-SameControl g lsn tables u s' rest,
      )

  load_snapshot-Change :
      (g : String) (tables : Tables) (s s' : Engine)
      → Engine.load_snapshot c g tables s ≡ done tt s'
      → Change c s s'
  unfolding Engine.load_snapshot get_generation
  load_snapshot-Change g tables s s' h = elim (Option-cases (find g s.generations)) [
    | inl missing ↦ absurd (ground arith)
    | inr (row, found) ↦
        elim (Outcome-cases (load_tables c g row.snapshot_lsn (sort by_name tables) s)) [
          | inl (_, m, loaded) ↦
              let frame =
                load_tables-SameControl g row.snapshot_lsn (sort by_name tables) s m loaded in
              promoted g row candidate found (ground arith) refl (ground arith) (ground arith)
                (ground arith)
          | inr (e, m, failed) ↦ absurd (ground arith)
        ]
  ]

  apply_batch-Change :
      (g : String) (b : CdcBatch) (fail : Bool) (s s' : Engine) (r : Applied)
      → Batch.apply_batch c g b fail s ≡ done r s'
      → Change c s s'
  apply_batch-Change g b fail s s' r h = elim (apply_batch-cases c g b fail s s' r h) [
    | inl (_, _, p) ↦ advanced g b p
    | inr (_, p) ↦ same p.unchanged
  ]

  create_generation-Change :
      (g : String) (lsn : ℤ) (version now : String) (s s' : Engine)
      → Engine.create_generation g lsn version now s ≡ done tt s'
      → Change c s s'
  unfolding Engine.create_generation insert
  create_generation-Change g lsn version now s s' h =
      created g
        (record {
          snapshot_lsn = lsn;
          current_lsn = lsn;
          schema_version = version;
          status = loading;
          created_at = now;
        })
        (ground arith) refl (ground arith)

  mark_ready-Change :
      (g : String) (s s' : Engine) → Engine.mark_ready g s ≡ done tt s' → Change c s s'
  unfolding Engine.mark_ready get_generation
  mark_ready-Change g s s' h = elim (Option-cases (find g s.generations)) [
    | inl missing ↦ absurd (ground arith)
    | inr (row, found) ↦
        promoted g row ready found (ground arith) refl (ground arith) (ground arith) (ground arith)
  ]

  activate-Change :
      (g : String) (v : ℕ) (s s' : Engine) (w : ℕ)
      → Engine.activate g v s ≡ done w s'
      → Change c s s'
  unfolding Engine.activate get_generation swap_pointer
  activate-Change g v s s' w h = elim (Option-cases (find g s.generations)) [
    | inl missing ↦ absurd (ground arith)
    | inr (row, found) ↦ activated g row found (ground arith) (ground arith)
  ]

  after-Change :
      {A : Type 0} (r : Outcome Error Engine A) (s : Engine)
      → ((a : A) (s' : Engine) → r ≡ done a s' → Change c s s')
      → ((e : Error) (s' : Engine) → r ≡ raised e s' → s' ≡ s)
      → Change c s (after r)
  after-Change (done a s') s returns raises = returns a s' refl
  after-Change (raised e s') s returns raises = same (raises e s' refl)

  -- Every call is an abstract step, whatever its arguments and whether it returns or raises.
  pub run-Change : (call : Call) (s : Engine) → Change c s (run c call s)
  unfolding run
  run-Change (Call.create_generation g lsn version now) s =
      after-Change _ s (λ _ s'. create_generation-Change g lsn version now s s')
        (λ e s'. create_generation_atomic g lsn version now s s' e)
  run-Change (Call.load_snapshot g tables) s =
      after-Change _ s (λ _ s'. load_snapshot-Change g tables s s')
        (λ e s'. load_snapshot_atomic c g tables s s' e)
  run-Change (Call.apply_batch g b fail) s =
      after-Change _ s (λ r s'. apply_batch-Change g b fail s s' r)
        (λ e s'. apply_batch_atomic c g b fail s s' e)
  run-Change (Call.mark_ready g) s =
      after-Change _ s (λ _ s'. mark_ready-Change g s s') (λ e s'. mark_ready_atomic g s s' e)
  run-Change (Call.activate g v) s =
      after-Change _ s (λ w s'. activate-Change g v s s' w) (λ e s'. activate_atomic g v s s' e)
