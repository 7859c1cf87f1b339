-- ===== src/CdcControl/Finalized.antt =====
-- What a finalization that returned has read and written.
use changebridge_cdc_migrati.Base.{
  ℕ, String, true, some, List, [], ◌∷◌, ◌≡◌, sym, refl, ap, inl, inr, arith,
}
use changebridge_cdc_migrati.Base.Key.{text_key, pair_key, triple_key, ==_refl}
use changebridge_cdc_migrati.Base.Table.{find, find-update}
use changebridge_cdc_migrati.Base.Exec.{done, after}
use changebridge_cdc_migrati.Json.{Json, Codec}
use changebridge_cdc_migrati.CdcControl.{Store, Plan, Transaction, applying, checkpointed}
use changebridge_cdc_migrati.CdcControl.Finalize.{
  Finalized, same_tables, move_checkpoint, close_transaction, finish, finalize_applying,
}
use changebridge_cdc_migrati.CdcControl.Change.{Finalizes, applying-cases}

-- what a finalization that returned read last
finish_done :
    (p : Plan) (outcome : Json) (f : Finalized) (s s' : Store)
    → finish p outcome s ≡ done f s'
    → (find (p.generation_id, p.transaction_id) s'.cdc_transactions ≡ some f.transaction)
      × (find p.generation_id s'.cdc_checkpoints ≡ some f.checkpoint)
unfolding finish
finish_done p outcome f s s' h = (ground arith, ground arith)

pub applying_done :
    (c : Codec) (p : Plan) (n : ℕ) (f : Finalized) (s s' : Store)
    → finalize_applying c p n s ≡ done f s'
    → (find (p.generation_id, p.transaction_id) s'.cdc_transactions ≡ some f.transaction)
      × (find p.generation_id s'.cdc_checkpoints ≡ some f.checkpoint)
unfolding finalize_applying finish
applying_done c p n f s s' h = (ground arith, ground arith)

-- A checkpointed transaction, which is there for good.
pub Finalizes-found :
    (p : Plan) (n : ℕ) (s s' : Store) (m : Finalizes p n s s')
    → (find (p.generation_id, p.transaction_id) s'.cdc_transactions
        ≡ some (record m.transaction { state = checkpointed; outcome = some m.outcome }))
      × (find p.generation_id s'.cdc_checkpoints ≡ some (move_checkpoint p m.checkpoint))
Finalizes-found p n s s' m = (
  ground (
    arith,
    m.was,
    m.found,
    ap (λ t. find (p.generation_id, p.transaction_id) t.cdc_transactions) m.wrote,
    ==_refl {K = String × String} (p.generation_id, p.transaction_id),
    find-update (p.generation_id, p.transaction_id) (p.generation_id, p.transaction_id)
        (close_transaction m.outcome) s.cdc_transactions,
  ),
  ground (
    arith,
    m.here,
    ap (λ t. find p.generation_id t.cdc_checkpoints) m.wrote,
    ==_refl p.generation_id,
    find-update p.generation_id p.generation_id (move_checkpoint p) s.cdc_checkpoints,
  ),
)

pub applying-Finalizes :
    (c : Codec) (p : Plan) (n : ℕ) (t : Transaction) (f : Finalized) (s s' : Store)
    → find (p.generation_id, p.transaction_id) s.cdc_transactions ≡ some t
    → t.state ≡ applying
    → finalize_applying c p n s ≡ done f s'
    → Finalizes p n s s'
applying-Finalizes c p n t f s s' found was h = elim (applying-cases s c p n t found was) [
  | inl (e, failed) ↦ absurd (ground arith)
  | inr m ↦ rw (sym (ap after h)) m
]

pub same_tables-eq : (xs ys : List String) → same_tables xs ys ≡ true → xs ≡ ys
same_tables-eq [] [] e = refl
same_tables-eq [] (y ∷ ys) e = absurd (ground (arith, e))
same_tables-eq (x ∷ xs) [] e = absurd (ground (arith, e))
same_tables-eq (x ∷ xs) (y ∷ ys) e =
    ground (arith, e, text_key.equals_iff x y, same_tables-eq xs ys)
