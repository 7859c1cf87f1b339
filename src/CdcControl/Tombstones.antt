-- ===== src/CdcControl/Tombstones.antt =====
-- src/changebridge/cdc_control.py: `record_tombstones`.
use changebridge_cdc_migrati.Base.{String, true, false, none, some, List, [], ◌∷◌}
use changebridge_cdc_migrati.Base.Key.{text_key, pair_key}
use changebridge_cdc_migrati.Base.Table.{Table, find, insert}
use changebridge_cdc_migrati.Base.Exec.{pure, or_raise, modify, ◌>>=◌}
use Prim.Native.String.{◌++◌}
use changebridge_cdc_migrati.Json.{Codec}
use changebridge_cdc_migrati.Json.Contracts.{semantic_digest}
use changebridge_cdc_migrati.CdcControl.{Method, Plan, Event, Tombstone, digest_or_raise, key_error}

abbrev pub before_domain : String → String
before_domain table = "stage24-before:" ++ table

abbrev pub Values : Type 0
Values = List ((String × String) × Tombstone)

-- INSERT OR IGNORE of every row
unfoldable pub insert_all :
    Values → Table (String × String) Tombstone → Table (String × String) Tombstone
insert_all [] t = t
insert_all ((k, row) ∷ rows) t = insert_all rows (elim (insert k row t) [ some t' ↦ t' | none ↦ t ])

module _ (c : Codec) (p : Plan) (table_tokens : Table String String) where
  unfoldable pub tombstone : Event → Method ((String × String) × Tombstone)
  tombstone e = do
    before_digest ← digest_or_raise (semantic_digest c e.before (before_domain e.source_table))
    token ← or_raise (find e.source_table table_tokens) key_error
    pure (
      (p.generation_id, e.event_id),
      record {
        transaction_id = p.transaction_id;
        source_table = e.source_table;
        source_key = e.primary_key;
        source_frontier = e.source_position;
        before_digest = before_digest;
        commit_token = token;
      },
    )

  unfoldable pub tombstones_of : List Event → Method Values
  unfolding tombstone
  tombstones_of [] = pure []
  tombstones_of (e ∷ es) =
      let rest = tombstones_of es in
      elim e.is_delete [
        | true ↦ tombstone e >>= λ row. rest >>= λ rows. pure (row ∷ rows)
        | false ↦ rest
      ]

  unfoldable pub record_tombstones : Method (Unit {0})
  unfolding tombstones_of insert_all
  record_tombstones = do
    values ← tombstones_of p.events
    modify (λ s. record s { cdc_tombstones = insert_all values s.cdc_tombstones })
