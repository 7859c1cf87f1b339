-- ===== src/Engine/Rows.antt =====
-- The rows of a generation after a batch, against a specification that looks only at the last
-- event of the batch for a key.
use mathlib.Core.Option
use changebridge_cdc_migrati.Base.{
  String, Bool, ◌&&◌, Option, none, some, List, [], ◌∷◌, ◌++◌, ◌≡◌, refl, ◌∙◌, ap, inl, inr, arith,
}
use changebridge_cdc_migrati.Base.Tests.{if◌then◌else◌, Option-cases}
use changebridge_cdc_migrati.Base.Key.{◌==◌, text_key, pair_key, triple_key}
use changebridge_cdc_migrati.Base.Int.{ℤ}
use changebridge_cdc_migrati.Base.Table.{Table, find, insert, replace, find-replace}
use changebridge_cdc_migrati.Base.Exec.{done, >>=-eq-done}
use changebridge_cdc_migrati.Json.{Codec}
use changebridge_cdc_migrati.Json.Canonical.{digest}
use changebridge_cdc_migrati.Model.{ChangeEvent, CdcTransaction, CdcBatch, transaction_as_dict}
use changebridge_cdc_migrati.Engine.{Engine, Row, AppliedTransaction}
use changebridge_cdc_migrati.Engine.Batch.{
  applied, event_row, apply_events, apply_fresh, apply_or_skip, apply_transactions, apply_batch,
}
use changebridge_cdc_migrati.Engine.Inversion.{apply_batch-cases}

-- an event with the commit LSN of its transaction
abbrev pub Write : Type 0
Write = ℤ × ChangeEvent

abbrev writes_of : ℤ → List ChangeEvent → List Write → List Write
writes_of lsn [] rest = rest
writes_of lsn (e ∷ es) rest = (lsn, e) ∷ writes_of lsn es rest

-- The last of the events for a key.
unfoldable pub last_write : String → String → List Write → Option Write
last_write table key [] = none
last_write table key (w ∷ ws) = elim (last_write table key ws) [
  | some later ↦ some later
  | none ↦ if w.1.table == table && w.1.key == key then some w else none
]

module _ (c : Codec) (g : String) where
  -- The events of those transactions that the ledger does not have yet, in order.
  unfoldable pub fresh_writes :
      Table (String × String) AppliedTransaction → List CdcTransaction → List Write
  fresh_writes ledger [] = []
  fresh_writes ledger (t ∷ ts) =
      let noted : AppliedTransaction = record {
        payload_digest = digest c (transaction_as_dict t);
        commit_lsn = t.commit_lsn;
      } in
      let skip = fresh_writes ledger ts in
      let take =
        writes_of t.commit_lsn t.events
          (fresh_writes (ledger ++ ((g, t.transaction_id), noted) ∷ []) ts) in
      elim (find (g, t.transaction_id) ledger) [ some _ ↦ skip | none ↦ take ]

  fresh_writes_skip :
      (ledger : Table (String × String) AppliedTransaction) (t : CdcTransaction)
      (ts : List CdcTransaction) (prior : AppliedTransaction)
      → find (g, t.transaction_id) ledger ≡ some prior
      → fresh_writes ledger (t ∷ ts) ≡ fresh_writes ledger ts
  unfolding fresh_writes
  fresh_writes_skip ledger t ts prior found = rw (found, fresh_writes)

  fresh_writes_new :
      (ledger : Table (String × String) AppliedTransaction) (t : CdcTransaction)
      (ts : List CdcTransaction)
      → find (g, t.transaction_id) ledger ≡ none
      → fresh_writes ledger (t ∷ ts)
        ≡ writes_of t.commit_lsn t.events (
            fresh_writes
              (ledger
                ++ (
                  (g, t.transaction_id),
                  record {
                    payload_digest = digest c (transaction_as_dict t);
                    commit_lsn = t.commit_lsn;
                  },
                )
                  ∷ [])
              ts)
  unfolding fresh_writes
  fresh_writes_new ledger t ts fresh = rw (fresh, fresh_writes)

  abbrev Records : Type 0
  Records = Table (String × String × String) Row

  apply_writes : List Write → Records → Records
  apply_writes [] r = r
  apply_writes ((lsn, e) ∷ ws) r =
      apply_writes ws (replace (g, e.table, e.key) (event_row c lsn e) r)

  apply_writes-writes_of :
      (lsn : ℤ) (es : List ChangeEvent) (ws : List Write) (r : Records)
      → apply_writes (writes_of lsn es ws) r ≡ apply_writes ws (apply_events c g lsn es r)
  unfolding apply_writes apply_events
  apply_writes-writes_of lsn [] ws r = refl
  apply_writes-writes_of lsn (e ∷ es) ws r =
      apply_writes-writes_of lsn es ws (replace (g, e.table, e.key) (event_row c lsn e) r)

  apply_or_skip_fresh :
      (t : CdcTransaction) (s s' : Engine)
      → apply_or_skip c g t none s ≡ done tt s'
      → (s'.records ≡ apply_events c g t.commit_lsn t.events s.records)
        × (s'.applied_transactions
            ≡ s.applied_transactions
              ++ (
                (g, t.transaction_id),
                record {
                  payload_digest = digest c (transaction_as_dict t);
                  commit_lsn = t.commit_lsn;
                },
              )
                ∷ [])
  unfolding apply_or_skip apply_fresh insert
  apply_or_skip_fresh t s s' h = ground arith

  apply_or_skip_prior :
      (t : CdcTransaction) (prior : AppliedTransaction) (s s' : Engine)
      → apply_or_skip c g t (some prior) s ≡ done tt s'
      → s' ≡ s
  unfolding apply_or_skip
  apply_or_skip_prior t prior s s' h = ground arith

  records-apply_transactions :
      (ts : List CdcTransaction) (s s' : Engine)
      → apply_transactions c g ts s ≡ done tt s'
      → s'.records ≡ apply_writes (fresh_writes s.applied_transactions ts) s.records
  unfolding apply_transactions apply_writes
  records-apply_transactions [] s s' h = unfold fresh_writes in ground arith
  records-apply_transactions (t ∷ ts) s s' h =
      let (_, u, first, rest) =
        >>=-eq-done (apply_or_skip c g t (find (g, t.transaction_id) s.applied_transactions))
          (λ _. apply_transactions c g ts) s h in
      elim (Option-cases (find (g, t.transaction_id) s.applied_transactions)) [
        | inl fresh ↦
            let (rows, ledger) = apply_or_skip_fresh t s u (rw fresh at first) in
            let ih = records-apply_transactions ts u s' rest in
            cc (
              ih,
              rows,
              ledger,
              fresh_writes_new s.applied_transactions t ts fresh,
              apply_writes-writes_of t.commit_lsn t.events (fresh_writes u.applied_transactions ts)
                  s.records,
            )
        | inr (prior, found) ↦
            let unchanged = apply_or_skip_prior t prior s u (rw found at first) in
            let ih = records-apply_transactions ts u s' rest in
            cc (ih, unchanged, fresh_writes_skip s.applied_transactions t ts prior found)
      ]

  -- what a list of writes leaves at a key
  find-apply_writes :
      (h table key : String) (ws : List Write) (r : Records)
      → find (h, table, key) (apply_writes ws r) ≡ (
          if g == h
          then Option.get_or
              (Option.map (λ w. some (event_row c w.0 w.1)) (last_write table key ws))
              (find (h, table, key) r)
          else find (h, table, key) r)
  unfolding apply_writes last_write
  find-apply_writes h table key [] r = ground arith
  find-apply_writes h table key ((lsn, e) ∷ ws) r = ground (
    arith,
    text_key.equals_iff g h,
    find-replace (g, e.table, e.key) (h, table, key) (event_row c lsn e) r,
    find-apply_writes h table key ws (replace (g, e.table, e.key) (event_row c lsn e) r),
  )

-- When `apply_batch` applies a batch, the row of every key of the generation is the one that the
-- last event for that key writes, among the events of those transactions of the batch that were
-- not applied before; a key with no such event keeps its row. No row of another generation changes.
pub apply_batch_rows :
    (c : Codec) (g : String) (b : CdcBatch) (fail : Bool) (s s' : Engine)
    → apply_batch c g b fail s ≡ done applied s'
    → (h table key : String)
    → find (h, table, key) s'.records ≡ (
        if g == h
        then Option.get_or
            (Option.map
              (λ w. some (event_row c w.0 w.1))
              (last_write table key (fresh_writes c g s.applied_transactions b.transactions)))
            (find (h, table, key) s.records)
        else find (h, table, key) s.records)
apply_batch_rows c g b fail s s' done_applied h table key =
    elim (apply_batch-cases c g b fail s s' applied done_applied) [
      | inl (_, _, p) ↦
          ap (find (h, table, key)) (
            ap (λ (t : Engine). t.records) p.final
            ∙ records-apply_transactions c g b.transactions s p.middle p.loop)
          ∙ find-apply_writes c g h table key
              (fresh_writes c g s.applied_transactions b.transactions) s.records
      | inr (e, _) ↦ absurd (cc e)
    ]
